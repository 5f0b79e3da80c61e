-- ===== src/ApplyPatch/Apply/There.antt =====
-- applypatch/applypatch.c: when `applypatch` takes the target to be patched already.
use screenbox_rockchip_recov.Prelude.{ℕ, if◌then◌else◌}
use screenbox_rockchip_recov.Prelude.Bytes.{Bytes, str_eq}
use screenbox_rockchip_recov.Patch.{Outcome, returns, fails, overruns, runs_on, ◌>>=◌}
use screenbox_rockchip_recov.Edify.Run.{Value}
use screenbox_rockchip_recov.ApplyPatch.Digest.{find_matching_patch}
use screenbox_rockchip_recov.ApplyPatch.Check.{cache_temp_source}
use screenbox_rockchip_recov.ApplyPatch.Apply.{
  FileContents, Source, unloaded, freed, Host, Arguments, target_of, Selection, Choice, already,
  refused, selected, load, patch_at, choose_copy, choose_source, load_source, choose,
}
use screenbox_rockchip_recov.Prelude.{◌≡◌, refl}
use screenbox_rockchip_recov.Prelude.Bytes.{str_eq_iff}
use screenbox_rockchip_recov.Patch.Outcomes.{
  Gives, Gives-bind, Gives-if, by_outcome, by_option, anything,
}

-- What a choice of nothing to be done stands for.
abbrev pub IsFor : Type 0 → Choice → Type 0
IsFor P already = P
IsFor P refused = Unit
IsFor P (selected s) = Unit

module _ {D S Z Key Ctx R : Type 0} (h : Host D S Z Key Ctx R) (a : Arguments) where
  -- The target could be loaded, with the digest.
  abbrev pub IsThere : Bytes → Type 0
  IsThere target_sha1 =
      (f : FileContents) × (load h (target_of a) ≡ returns f) × (f.sha1 ≡ target_sha1)

  patch_at-IsFor :
      (P : Type 0) (to_use : ℕ) (k : Value → Selection)
      → Gives (IsFor P) (patch_at h a to_use >>= λ v. returns (selected (k v)))
  patch_at-IsFor P to_use k =
      Gives-bind (λ _. Unit {0}) (IsFor P) _ _ (anything (patch_at h a to_use)) (λ v _. tt)

  choose_copy-IsFor : (P : Type 0) (source : Source) → Gives (IsFor P) (choose_copy h a source)
  unfolding choose_copy
  choose_copy-IsFor P source =
      by_outcome (IsFor P) (load h cache_temp_source) _ _
        (λ copy.
          by_option (IsFor P) (find_matching_patch copy.sha1 a.patch_sha1_str) _ _
            (λ to_use. patch_at-IsFor P to_use _) tt)
        tt

  choose_source-IsFor : (P : Type 0) (f : FileContents) → Gives (IsFor P) (choose_source h a f)
  unfolding choose_source
  choose_source-IsFor P f =
      by_option (IsFor P) (find_matching_patch f.sha1 a.patch_sha1_str) _ _
        (λ to_use. patch_at-IsFor P to_use _) (choose_copy-IsFor P (freed f))

  load_source-IsFor : (P : Type 0) → Gives (IsFor P) (load_source h a)
  unfolding load_source
  load_source-IsFor P =
      by_outcome (IsFor P) (load h a.source_filename) _ _ (λ f. choose_source-IsFor P f)
        (choose_copy-IsFor P unloaded)

  pub choose-IsThere :
      (target_sha1 : Bytes) → Gives (IsFor (IsThere target_sha1)) (choose h a target_sha1)
  unfolding choose
  choose-IsThere target_sha1 = by_target (load h (target_of a)) refl
    where
      by_target :
          (o : Outcome FileContents)
          → load h (target_of a) ≡ o
          → Gives (IsFor (IsThere target_sha1)) (elim o as (λ _. Outcome Choice) [
            | fails ↦ load_source h a
            | overruns ↦ overruns
            | runs_on ↦ runs_on
            | returns f ↦
                if str_eq f.sha1 target_sha1
                then returns already
                else (if str_eq (target_of a) a.source_filename
                    then choose_source h a f
                    else load_source h a)
          ])
      by_target fails e = load_source-IsFor (IsThere target_sha1)
      by_target overruns e = tt
      by_target runs_on e = tt
      by_target (returns f) e =
          Gives-if (IsFor (IsThere target_sha1)) (str_eq f.sha1 target_sha1) _ _
            (λ same. (f, e, (str_eq_iff f.sha1 target_sha1).0 same))
            (λ _.
              Gives-if (IsFor (IsThere target_sha1)) (str_eq (target_of a) a.source_filename) _ _
                (λ _. choose_source-IsFor (IsThere target_sha1) f)
                (λ _. load_source-IsFor (IsThere target_sha1)))
