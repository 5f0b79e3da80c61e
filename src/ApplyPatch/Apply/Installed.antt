-- ===== src/ApplyPatch/Apply/Installed.antt =====
-- applypatch/applypatch.c: where `applypatch` returns 0, the target has the wanted digest.
use mathlib.Core.Path.{subst}
use screenbox_rockchip_recov.Prelude.{Bool, true, false, not, Option, none, some, if◌then◌else◌}
use screenbox_rockchip_recov.Prelude.Bytes.{Bytes, codes, str_eq}
use screenbox_rockchip_recov.Patch.{returns, overruns, ◌>>=◌}
use screenbox_rockchip_recov.Roots.{RootsState}
use screenbox_rockchip_recov.ApplyPatch.Digest.{parse_sha1}
use screenbox_rockchip_recov.ApplyPatch.Check.{cache_temp_source, is_partition}
use screenbox_rockchip_recov.ApplyPatch.Sinks.{MemorySinkInfo, taken}
use screenbox_rockchip_recov.ApplyPatch.Write.{write_to_partition}
use screenbox_rockchip_recov.ApplyPatch.Apply.{
  Stat, Host, Arguments, target_of, Selection, Choice, already, refused, selected, outname_of,
  Produced, choose, set_owner,
}
use screenbox_rockchip_recov.Prelude.{
  ◌≡◌, ◌≢◌, ◌⊎◌, refl, sym, ap, ◌∙◌, Bool-cases, inl, inr, arith,
}
use screenbox_rockchip_recov.Prelude.Bytes.{str_eq_iff}
use screenbox_rockchip_recov.Patch.Outcomes.{
  Gives, Gives-bind, Gives-if, Gives-self, given, Allocates,
}
use screenbox_rockchip_recov.Verifier.Hashing.{Streams}
use screenbox_rockchip_recov.ApplyPatch.Apply.Posix.{Posix, WritesAll, IsHashed}
use screenbox_rockchip_recov.ApplyPatch.Apply.Hashed.{
  output_of, FitsTarget, IsHashOf, AttemptOk, rounds-AttemptOk,
}
use screenbox_rockchip_recov.ApplyPatch.Apply.Rounds.{has_header}
use screenbox_rockchip_recov.ApplyPatch.Apply.Install.{
  clean_up, replace_target, Result, install_file, install_partition, install, patch_selected, act,
  applypatch,
}
use screenbox_rockchip_recov.ApplyPatch.Apply.There.{IsFor, IsThere, choose-IsThere}

module _ {D S Z Key Ctx R : Type 0} (h : Host D S Z Key Ctx R) (a : Arguments) where
  module _ (streams : Streams h.lib) (allocates : Allocates h.bz h.malloc)
      (content : D → Bytes → Bytes) (posix : Posix h.disk content)
      (apart : cache_temp_source ≢ target_of a) where
    -- The digest of the bytes.
    abbrev pub digest_of : Bytes → Bytes
    digest_of bytes = h.lib.sha_final (h.lib.sha_update h.lib.sha_init bytes)

    -- Bytes of the digest were written to the partition with success, from a state in which only the
    -- system has changed, and nothing but the end of the saved copy came after; or they are in the
    -- file.
    abbrev pub IsInstalled : Bytes → RootsState D → RootsState D → Type 0
    IsInstalled target_sha1 s s' =
        ((is_partition (target_of a) ≡ true)
          × (bytes : Bytes) × (digest_of bytes ≡ target_sha1)
          × (d : D) × (s'' : RootsState D) × (write_to_partition h.io h.emmc_io h.scanned bytes
                (target_of a) (record s { sys = d })
              ≡ some (true, s''))
          × (made_copy : Bool) × (s' ≡ record s'' { sys = clean_up h a made_copy s''.sys }))
        ⊎ ((is_partition (target_of a) ≡ false)
            × (digest_of (content s'.sys (target_of a)) ≡ target_sha1))

    abbrev Installs : Bytes → RootsState D → Bool × RootsState D → Type 0
    Installs target_sha1 s r = r.0 ≡ true → IsThere h a target_sha1 ⊎ IsInstalled target_sha1 s r.1

    clean_up_lem :
        (made_copy : Bool) (d : D)
        → content (clean_up h a made_copy d) (target_of a) ≡ content d (target_of a)
    unfolding clean_up
    clean_up_lem true d = posix.unlinks d cache_temp_source (target_of a) apart
    clean_up_lem false d = refl

    set_owner_lem : (f : Bytes) (st : Stat) (d : D) → content (set_owner h f st d).1 f ≡ content d f
    unfolding set_owner
    set_owner_lem f st d =
        let moded = posix.chmods d f st.st_mode in
        let owned = posix.chowns (h.disk.chmod d f st.st_mode).1 f st.st_uid st.st_gid in
        elim (Bool-cases (h.disk.chmod d f st.st_mode).0) [
          | inl done ↦ rw done (owned ∙ moded)
          | inr failed ↦ rw failed moded
        ]

    replace_target_lem :
        (st : Stat) (d : D)
        → (replace_target h a st d).0 ≡ true
        → content (replace_target h a st d).1 (target_of a) ≡ content d (outname_of (target_of a))
    unfolding replace_target
    replace_target_lem st d =
        by_owned (set_owner h (outname_of (target_of a)) st d).0
          (set_owner h (outname_of (target_of a)) st d).1
          (set_owner_lem (outname_of (target_of a)) st d)
      where
        by_owned :
            (b : Bool) (d₁ : D)
            → content d₁ (outname_of (target_of a)) ≡ content d (outname_of (target_of a))
            → (if b
                then h.disk.rename d₁ (outname_of (target_of a)) (target_of a)
                else (false, d₁)).0
              ≡ true
            → content
                (if b
                  then h.disk.rename d₁ (outname_of (target_of a)) (target_of a)
                  else (false, d₁)).1
                (target_of a)
              ≡ content d (outname_of (target_of a))
        by_owned true d₁ same e = posix.renames d₁ (outname_of (target_of a)) (target_of a) e ∙ same
        by_owned false d₁ same e = ground arith

    install_file-Installs :
        (target_sha1 : Bytes) (st : Stat) (made_copy : Bool) (start : RootsState D) (d : D)
        → is_partition (target_of a) ≡ false
        → digest_of (content d (outname_of (target_of a))) ≡ target_sha1
        → Gives
            (Installs target_sha1 start)
            (install_file h a st made_copy (record start { sys = d }))
    unfolding install_file
    install_file-Installs target_sha1 st made_copy start d file e =
        by_replaced (replace_target h a st d).0 (replace_target h a st d).1
          (replace_target_lem st d)
      where
        by_replaced :
            (b : Bool) (d' : D)
            → (b ≡ true → content d' (target_of a) ≡ content d (outname_of (target_of a)))
            → Installs target_sha1 start
                (b, record start { sys = if b then clean_up h a made_copy d' else d' })
        by_replaced false d' same ok = ground arith
        by_replaced true d' same ok =
            inr (inr (file, ap digest_of (clean_up_lem made_copy d' ∙ same refl) ∙ e))

    install_partition-Installs :
        (target_sha1 : Bytes) (msi : MemorySinkInfo) (made_copy : Bool) (start : RootsState D)
        (d : D)
        → is_partition (target_of a) ≡ true
        → digest_of (taken msi) ≡ target_sha1
        → Gives
            (Installs target_sha1 start)
            (install_partition h a msi made_copy (record start { sys = d }))
    unfolding install_partition
    install_partition-Installs target_sha1 msi made_copy start d partition e =
        by_written
          (write_to_partition h.io h.emmc_io h.scanned (taken msi) (target_of a)
            (record start { sys = d }))
          refl
      where
        by_written :
            (o : Option (Bool × RootsState D))
            → write_to_partition h.io h.emmc_io h.scanned
                (taken msi)
                (target_of a)
                (record start { sys = d })
              ≡ o
            → Gives (Installs target_sha1 start) (elim o as (λ _. Result h a) [
              | none ↦ overruns
              | some (written, s') ↦ returns (
                written,
                record s' { sys = if written then clean_up h a made_copy s'.sys else s'.sys },
              )
            ])
        by_written none q = tt
        by_written (some (false, s')) q = λ ok. ground arith
        by_written (some (true, s')) q =
            λ ok. inr (inl (partition, taken msi, e, d, s', q, made_copy, refl))

    install-Installs :
        (target_sha1 : Bytes) (st : Stat) (p : Produced Ctx) (start : RootsState D) (d : D)
        → IsHashOf h a streams allocates content posix p.last d
        → Gives
            (Installs target_sha1 start)
            (install h a target_sha1 st p (record start { sys = d }))
    unfolding install
    install-Installs target_sha1 st p start d (fits, (c, e, hashed)) = rw e (
        Gives-if (Installs target_sha1 start) (not (str_eq (h.lib.sha_final c) target_sha1)) _ _
          (λ _ ok. ground arith) (λ differs. by_sink p.last.msi fits (same_digest differs hashed)))
      where
        same_digest :
            not (str_eq (h.lib.sha_final c) target_sha1) ≡ false
            → IsHashed h.lib streams c (output_of h a streams allocates content posix p.last.msi d)
            → digest_of (output_of h a streams allocates content posix p.last.msi d) ≡ target_sha1
        same_digest differs q =
            sym (ap h.lib.sha_final q)
            ∙ (str_eq_iff (h.lib.sha_final c) target_sha1).0 (ground (arith, differs))

        by_sink :
            (o : Option MemorySinkInfo)
            → FitsTarget h a streams allocates content posix o
            → digest_of (output_of h a streams allocates content posix o d) ≡ target_sha1
            → Gives (Installs target_sha1 start) (elim o as (λ _. Result h a) [
              | some msi ↦ install_partition h a msi p.made_copy (record start { sys = d })
              | none ↦ install_file h a st p.made_copy (record start { sys = d })
            ])
        by_sink none file q = install_file-Installs target_sha1 st p.made_copy start d file q
        by_sink (some msi) partition q =
            install_partition-Installs target_sha1 msi p.made_copy start d partition q

    -- Where the patch is an image patch, no call of `write` fails.
    abbrev pub ForImages : Selection → Type 0
    ForImages sel = has_header h a sel (codes "IMGDIFF2") ≡ true → WritesAll h.disk

    patch_selected-Installs :
        (target_sha1 : Bytes) (sel : Selection)
        → ForImages sel
        → (s : RootsState D) → Gives (Installs target_sha1 s) (patch_selected h a target_sha1 sel s)
    unfolding patch_selected
    patch_selected-Installs target_sha1 sel images s =
        Gives-bind (AttemptOk h a streams allocates content posix) (Installs target_sha1 s) _ _
          (rounds-AttemptOk h a streams allocates content posix sel images 1 false s.sys)
          (λ (o, d) ok. by_attempt o d ok)
      where
        by_attempt :
            (o : Option (Produced Ctx)) (d : D)
            → AttemptOk h a streams allocates content posix (o, d)
            → Gives (Installs target_sha1 s) (elim o as (λ _. Result h a) [
              | none ↦ returns (false, record s { sys = d })
              | some p ↦ install h a target_sha1 sel.to_use.st p (record s { sys = d })
            ])
        by_attempt none d ok = λ e. ground arith
        by_attempt (some p) d ok = install-Installs target_sha1 sel.to_use.st p s d ok

    act-Installs :
        (target_sha1 : Bytes) (s : RootsState D) (c : Choice)
        → IsFor (IsThere h a target_sha1) c
        → ((sel : Selection) → c ≡ selected sel → ForImages sel)
        → Gives (Installs target_sha1 s) (act h a target_sha1 s c)
    unfolding act
    act-Installs target_sha1 s already there images = λ _. inl there
    act-Installs target_sha1 s refused _ images = λ e. ground arith
    act-Installs target_sha1 s (selected sel) _ images =
        patch_selected-Installs target_sha1 sel (images sel refl) s

    -- Where hashing in pieces is hashing the whole, memory has the size that was asked for, the calls
    -- on files behave as POSIX says, the target is not the saved copy, and no call of `write` fails if
    -- the patch that is chosen is an image patch: `applypatch` returns 0 only if the target was found with
    -- the wanted digest; or its output, which has the wanted digest, was written to the partition by a
    -- call of `WriteToPartition` that returned 0, after which at most the saved copy was deleted; or
    -- the output is what the target file now holds.
    pub applypatch-IsInstalled :
        (target_sha1 : Bytes) (s s' : RootsState D)
        → ((sel : Selection) → choose h a target_sha1 ≡ returns (selected sel) → ForImages sel)
        → parse_sha1 a.target_sha1_str ≡ some target_sha1
        → applypatch h a s ≡ returns (true, s')
        → IsThere h a target_sha1 ⊎ IsInstalled target_sha1 s s'
    unfolding applypatch
    applypatch-IsInstalled target_sha1 s s' images e r =
        given (Installs target_sha1 s) (choose h a target_sha1 >>= act h a target_sha1 s) (true, s')
          (Gives-bind
            (λ c. (choose h a target_sha1 ≡ returns c) × IsFor (IsThere h a target_sha1) c)
            (Installs target_sha1 s) _ _
            (Gives-self (IsFor (IsThere h a target_sha1)) (choose h a target_sha1)
              (choose-IsThere h a target_sha1))
            (λ c (q, there).
              act-Installs target_sha1 s c there
                (λ sel e'. images sel (q ∙ ap (λ c'. returns c') e'))))
          (by_digest (parse_sha1 a.target_sha1_str) e r) refl
      where
        by_digest :
            (o : Option Bytes)
            → o ≡ some target_sha1
            → (elim o as (λ _. Result h a) [
              | none ↦ returns (false, s)
              | some t ↦ choose h a t >>= act h a t s
            ])
              ≡ returns (true, s')
            → (choose h a target_sha1 >>= act h a target_sha1 s) ≡ returns (true, s')
        by_digest none q r = ground (arith, q)
        by_digest (some t) q r =
            let same : t ≡ target_sha1 = ground (arith, q) in
            subst (λ x. (choose h a x >>= act h a x s) ≡ returns (true, s')) same r
