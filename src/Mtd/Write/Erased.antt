-- ===== src/Mtd/Write/Erased.antt =====
-- mtdutils/mtdutils.c: a session that erases what is behind the data, before `mtd_write_close`.
use mathlib.Core.Path.{subst}
use screenbox_rockchip_recov.Prelude.{
  ℕ, ◌≡◌, refl, sym, ap, ◌∙◌, true, false, Option, none, some, arith, ltb, Bool-cases, inl, inr,
  Option-cases,
}
use screenbox_rockchip_recov.Prelude.Bytes.{Bytes}
use screenbox_rockchip_recov.Mtd.Flash.{Partition, Flash}
use screenbox_rockchip_recov.Mtd.Block.{Media}
use screenbox_rockchip_recov.Mtd.Write.{
  WriteContext, mtd_write_data, flush_pending, mtd_erase_blocks, mtd_write_close,
}
use screenbox_rockchip_recov.Mtd.Write.Blocks.{IsValid}
use screenbox_rockchip_recov.Mtd.Write.Chunks.{Written, mtd_write_data-Written}
use screenbox_rockchip_recov.Mtd.Write.Close.{
  Stored, mtd_write_data-Stored, mtd_erase_blocks_flushes, mtd_erase_blocks-all,
  mtd_erase_blocks-lost, mtd_write_close_flushes, erased_from, at_device, ClosedFrom,
}

module _ {D : Type 0} (io : Flash D) where
  flush_pending_empties :
      (c : WriteContext D) → (flush_pending io c).0 ≡ true → (flush_pending io c).1.stored ≡ 0
  unfolding flush_pending
  flush_pending_empties c h = elim (Bool-cases (ltb 0 c.stored)) [
    | inl waits ↦ rw (waits, rw waits at h) refl
    | inr empty ↦ rw empty (ground (arith, empty))
  ]

  flush_pending_idle :
      (c : WriteContext D) → c.stored ≡ 0 → (flush_pending io c).1.media.fd ≡ c.media.fd
  unfolding flush_pending
  flush_pending_idle c h = let empty : ltb 0 c.stored ≡ false = ground arith in rw empty refl

  mtd_write_data_keeps :
      (c : WriteContext D) (block : Bytes) (n : ℕ)
      → IsValid c
      → (mtd_write_data io c block).0 ≡ some n
      → (mtd_write_data io c block).1.partition ≡ c.partition
  mtd_write_data_keeps c block n v h =
      by_written (mtd_write_data io c block) (mtd_write_data-Written io c block v) h
    where
      by_written :
          (r : Option ℕ × WriteContext D)
          → Written io c block r
          → r.0 ≡ some n
          → r.1.partition ≡ c.partition
      by_written r (bs, left, sized, same, inl (all, calls, rest, part, _)) e = part
      by_written r (bs, left, sized, same, inr (failed, calls)) e = ground (arith, failed, e)

  -- The data is stored, and the device that is left is that of the last block, after a look at its
  -- offset, the erasing of the blocks from this offset on, and a close.
  abbrev pub ClosedErased : WriteContext D → Bytes → D → Type 0
  ClosedErased c block d =
      (m : Media D) × Stored io c block m
      × (at : ℕ) × ((io.tell m.fd).0 ≡ some at)
      × ClosedFrom io (erased_from io c m.fd at).1 d

  mtd_erase_blocks_erases :
      (c : WriteContext D) (d : D) (end : ℕ)
      → (mtd_erase_blocks io c none).0 ≡ some end
      → mtd_write_close io (mtd_erase_blocks io c none).1 ≡ (true, d)
      → (at : ℕ) × ((io.tell (flush_pending io c).1.media.fd).0 ≡ some at)
        × ClosedFrom io (erased_from io c (flush_pending io c).1.media.fd at).1 d
  mtd_erase_blocks_erases c d end erased closed =
      let e = mtd_erase_blocks_flushes io c none end erased in
      let c₁ = (flush_pending io c).1 in
      elim (Option-cases (io.tell c₁.media.fd).0) [
        | inl lost ↦
            let q = mtd_erase_blocks-lost io c none e lost in absurd (ground (arith, q, erased))
        | inr (at, there) ↦
            let rest = at_device io c₁ (erased_from io c c₁.media.fd at).1 in
            let left : mtd_write_close io rest ≡ (true, d) =
              sym (ap (λ r. mtd_write_close io r.1) (mtd_erase_blocks-all io c at e there))
              ∙ closed in
            let last = (mtd_write_close_flushes io rest d left).1 in
            (
              at,
              there,
              subst (λ x. ClosedFrom io x d) (flush_pending_idle rest (flush_pending_empties c e))
                  last,
            )
      ]

  -- What `mtd_write_data` took is stored where the rest is erased, and the context closed without
  -- an error.
  pub mtd_erase_blocks-Stored :
      (c : WriteContext D) (block : Bytes) (d : D) (n end : ℕ)
      → IsValid c
      → (mtd_write_data io c block).0 ≡ some n
      → (mtd_erase_blocks io (mtd_write_data io c block).1 none).0 ≡ some end
      → mtd_write_close io (mtd_erase_blocks io (mtd_write_data io c block).1 none).1 ≡ (true, d)
      → ClosedErased c block d
  mtd_erase_blocks-Stored c block d n end v wrote erased closed =
      let c' = (mtd_write_data io c block).1 in
      let m = (flush_pending io c').1.media in
      let (at, there, left) = mtd_erase_blocks_erases c' d end erased closed in
      (
        m,
        mtd_write_data-Stored io c block n v wrote (mtd_erase_blocks_flushes io c' none end erased),
        at,
        there,
        subst
            (λ (p : Partition).
              ClosedFrom io (erased_from io (record c { partition = p }) m.fd at).1 d)
            (mtd_write_data_keeps c block n v wrote) left,
      )
