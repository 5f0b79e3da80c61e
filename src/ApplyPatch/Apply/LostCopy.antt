-- ===== src/ApplyPatch/Apply/LostCopy.antt =====
-- applypatch/applypatch.c: a partition whose source can no longer be loaded, as after an interrupted
-- run: `applypatch` overwrites the saved copy, which it would patch, with nothing.
use screenbox_rockchip_recov.Prelude.{ℕ, suc, true, false, [], none, some, ◌==◌}
use screenbox_rockchip_recov.Prelude.Bytes.{Bytes}
use screenbox_rockchip_recov.Patch.{returns, ◌>>=◌}
use screenbox_rockchip_recov.Roots.{RootsState}
use screenbox_rockchip_recov.ApplyPatch.Digest.{parse_sha1}
use screenbox_rockchip_recov.ApplyPatch.Check.{cache_temp_source, is_partition}
use screenbox_rockchip_recov.ApplyPatch.Cache.{make_free_space_on_cache}
use screenbox_rockchip_recov.ApplyPatch.Apply.{
  unloaded, Host, Arguments, target_of, Selection, selected, choose, sink_source,
  save_file_contents,
}
use screenbox_rockchip_recov.Prelude.{◌≡◌, ◌<◌, refl, ap, ◌∙◌, arith}
use screenbox_rockchip_recov.ApplyPatch.Apply.Posix.{Posix}
use screenbox_rockchip_recov.ApplyPatch.Apply.Rounds.{back_up, copied, prepare, carry_on, rounds}
use screenbox_rockchip_recov.ApplyPatch.Apply.Install.{
  Result, install, patch_selected, act, applypatch,
}

module _ {D S Z Key Ctx R : Type 0} (h : Host D S Z Key Ctx R) (a : Arguments) where
  -- The cache after the attempt to save NULL.
  abbrev truncated : D → D
  truncated d = h.disk.close (h.disk.create d cache_temp_source).1 cache_temp_source

  save_file_contents-unloaded :
      (d : D)
      → 0 < h.stale_size
      → (h.disk.create d cache_temp_source).0 ≡ true
      → save_file_contents h cache_temp_source unloaded d ≡ returns (false, truncated d)
  unfolding save_file_contents sink_source
  save_file_contents-unloaded d size opened =
      let short : (0 == h.stale_size) ≡ false = ground (arith, size) in rw (opened, short) refl

  back_up-unloaded :
      (s : Selection) (d : D)
      → s.source ≡ unloaded
      → 0 < h.stale_size
      → (make_free_space_on_cache h.disk h.stale_size d).0 ≡ true
      → (h.disk.create (make_free_space_on_cache h.disk h.stale_size d).1 cache_temp_source).0
        ≡ true
      → back_up h a s d
        ≡ returns (false, truncated (make_free_space_on_cache h.disk h.stale_size d).1)
  unfolding back_up
  back_up-unloaded s d e size made opened = rw (e, made) (save_file_contents-unloaded _ size opened)

  rounds-refused :
      (s : Selection) (retry : ℕ) (d d' : D)
      → is_partition (target_of a) ≡ true
      → back_up h a s d ≡ returns (false, d')
      → rounds h a s (suc retry) false d ≡ returns (none, d')
  unfolding rounds prepare copied
  rounds-refused s retry d d' partition e =
      ap (λ m. m >>= carry_on h a s (some (rounds h a s retry))) prepared
    where
      prepared : prepare h a s true false d ≡ returns (none, d')
      prepared = rw (prepare, partition) (ap (λ m. copied h a s m) e)

  patch_selected-refused :
      (target_sha1 : Bytes) (sel : Selection) (s : RootsState D) (d : D)
      → rounds h a sel 1 false s.sys ≡ returns (none, d)
      → patch_selected h a target_sha1 sel s ≡ returns (false, record s { sys = d })
  unfolding patch_selected
  patch_selected-refused target_sha1 sel s d e =
      ap
        (λ m. m >>= λ r. elim r.0 as (λ _. Result h a) [
          | none ↦ returns (false, record s { sys = r.1 })
          | some p ↦ install h a target_sha1 sel.to_use.st p (record s { sys = r.1 })
        ])
        e

  applypatch-selected :
      (target_sha1 : Bytes) (sel : Selection) (s : RootsState D)
      → parse_sha1 a.target_sha1_str ≡ some target_sha1
      → choose h a target_sha1 ≡ returns (selected sel)
      → applypatch h a s ≡ patch_selected h a target_sha1 sel s
  unfolding applypatch act
  applypatch-selected target_sha1 sel s e chosen =
      ap
        (λ o. elim o as (λ _. Result h a) [
          | none ↦ returns (false, s)
          | some t ↦ choose h a t >>= act h a t s
        ])
        e
      ∙ ap (λ m. m >>= act h a target_sha1 s) chosen

  -- Where the target is a partition, neither it nor the source could be loaded, and the saved copy is
  -- to be patched, with the size of a file that was not loaded not 0: if space is made and the copy
  -- can be opened, then `applypatch` returns 1, and the saved copy is empty.
  pub applypatch_loses_copy :
      (content : D → Bytes → Bytes)
      → Posix h.disk content
      → (target_sha1 : Bytes) (sel : Selection) (s : RootsState D)
      → parse_sha1 a.target_sha1_str ≡ some target_sha1
      → is_partition (target_of a) ≡ true
      → choose h a target_sha1 ≡ returns (selected sel)
      → sel.source ≡ unloaded
      → 0 < h.stale_size
      → (make_free_space_on_cache h.disk h.stale_size s.sys).0 ≡ true
      → (h.disk.create (make_free_space_on_cache h.disk h.stale_size s.sys).1 cache_temp_source).0
        ≡ true
      → (s' : RootsState D) × (applypatch h a s ≡ returns (false, s'))
        × (content s'.sys cache_temp_source ≡ [])
  applypatch_loses_copy content posix target_sha1 sel s e partition chosen source size made opened =
      let lost = truncated (make_free_space_on_cache h.disk h.stale_size s.sys).1 in
      (
        record s { sys = lost },
        applypatch-selected target_sha1 sel s e chosen
            ∙ patch_selected-refused target_sha1 sel s lost (
                rounds-refused sel 0 s.sys lost partition
                  (back_up-unloaded sel s.sys source size made opened)),
        posix.closes _ cache_temp_source ∙ posix.truncates _ cache_temp_source opened,
      )
