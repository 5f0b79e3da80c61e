-- ===== src/ApplyPatch/Apply/Install.antt =====
-- applypatch/applypatch.c: the end of `applypatch`, which compares the hash and puts the output in its
-- place, and the whole function.
use screenbox_rockchip_recov.Prelude.{Bool, true, false, not, none, some, if◌then◌else◌}
use screenbox_rockchip_recov.Prelude.Bytes.{Bytes, str_eq}
use screenbox_rockchip_recov.Patch.{Outcome, returns, overruns, ◌>>=◌}
use screenbox_rockchip_recov.Roots.{RootsState}
use screenbox_rockchip_recov.ApplyPatch.Digest.{parse_sha1}
use screenbox_rockchip_recov.ApplyPatch.Check.{cache_temp_source}
use screenbox_rockchip_recov.ApplyPatch.Sinks.{MemorySinkInfo, taken}
use screenbox_rockchip_recov.ApplyPatch.Write.{write_to_partition}
use screenbox_rockchip_recov.ApplyPatch.Apply.{
  Stat, Host, Arguments, target_of, Selection, Choice, already, refused, selected, outname_of,
  Produced, choose, set_owner,
}
use screenbox_rockchip_recov.ApplyPatch.Apply.Rounds.{rounds}

module _ {D S Z Key Ctx R : Type 0} (h : Host D S Z Key Ctx R) (a : Arguments) where
  -- "we can delete it": the copy, if this run has made it
  unfoldable pub clean_up : Bool → D → D
  clean_up made_copy d = if made_copy then h.disk.unlink d cache_temp_source else d

  -- `chmod`, `chown` and `rename` of the output file: true if each of them returns 0
  unfoldable pub replace_target : Stat → D → Bool × D
  unfolding set_owner
  replace_target st d =
      let outname = outname_of (target_of a) in
      let (owned, d₁) = set_owner h outname st d in
      let renamed = h.disk.rename d₁ outname (target_of a) in if owned then renamed else (false, d₁)

  abbrev pub Result : Type 0
  Result = Outcome (Bool × RootsState D)

  unfoldable pub install_file : Stat → Bool → RootsState D → Result
  unfolding replace_target clean_up
  install_file st made_copy s =
      let (replaced, d) = replace_target st s.sys in
      returns (replaced, record s { sys = if replaced then clean_up made_copy d else d })

  unfoldable pub install_partition : MemorySinkInfo → Bool → RootsState D → Result
  unfolding clean_up
  install_partition msi made_copy s =
      elim (write_to_partition h.io h.emmc_io h.scanned (taken msi) (target_of a) s)
        as (λ _. Result) [
          | none ↦ overruns
          | some (written, s') ↦
              returns
                (written, record s' { sys = if written then clean_up made_copy s'.sys else s'.sys })
        ]

  -- After the loop.
  unfoldable pub install : Bytes → Stat → Produced Ctx → RootsState D → Result
  unfolding install_file install_partition
  install target_sha1 st p s = elim p.last.ctx as (λ _. Result) [
    | none ↦ overruns
    | some ctx ↦
        if not (str_eq (h.lib.sha_final ctx) target_sha1)
        then returns (false, s)
        else elim p.last.msi as (λ _. Result) [
          | some msi ↦ install_partition msi p.made_copy s
          | none ↦ install_file st p.made_copy s
        ]
  ]

  -- The loop, and what follows it.
  unfoldable pub patch_selected : Bytes → Selection → RootsState D → Result
  unfolding install rounds
  patch_selected target_sha1 sel s = rounds h a sel 1 false s.sys >>= λ r.
      elim r.0 as (λ _. Result) [
        | none ↦ returns (false, record s { sys = r.1 })
        | some p ↦ install target_sha1 sel.to_use.st p (record s { sys = r.1 })
      ]

  -- For the digest of the target, as a choice was made.
  unfoldable pub act : Bytes → RootsState D → Choice → Result
  unfolding patch_selected
  act target_sha1 s already = returns (true, s)
  act target_sha1 s refused = returns (false, s)
  act target_sha1 s (selected sel) = patch_selected target_sha1 sel s

  -- `applypatch`: true is the result 0.
  unfoldable pub applypatch : RootsState D → Result
  unfolding choose act
  applypatch s = elim (parse_sha1 a.target_sha1_str) as (λ _. Result) [
    | none ↦ returns (false, s)
    | some target_sha1 ↦ choose h a target_sha1 >>= act target_sha1 s
  ]
