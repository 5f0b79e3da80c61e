-- ===== src/Mtd/Write/Close.antt =====
-- mtdutils/mtdutils.c: a whole session, from `mtd_write_data` to `mtd_write_close`.
use mathlib.Core.Option.{get_or}
use screenbox_rockchip_recov.Prelude.{
  ℕ, ◌+◌, ◌-◌, ◌/◌, ◌<◌, ◌≡◌, refl, sym, ap, ◌∙◌, Bool, true, false, List, [], ◌∷◌, ◌++◌,
  append-nil, append_assoc, Option, none, some, arith, ltb, Bool-cases, inl, inr, Option-cases,
  length, take, replicate, length-append, length-take, length-replicate, drop_all,
}
use screenbox_rockchip_recov.Prelude.Bytes.{Bytes}
use screenbox_rockchip_recov.Mtd.Flash.{Flash}
use screenbox_rockchip_recov.Mtd.Block.{Media, write_block}
use screenbox_rockchip_recov.Mtd.Write.{
  WriteContext, splice, mtd_write_data, flush_pending, erase_loop, mtd_erase_blocks,
  mtd_write_close,
}
use screenbox_rockchip_recov.Mtd.Write.Blocks.{
  pending, join, join-append, AllSized, AllSized-append, IsValid, write_all, write_all-append,
}
use screenbox_rockchip_recov.Mtd.Write.Chunks.{Written, mtd_write_data-Written}

module _ {D : Type 0} (io : Flash D) where
  -- The blocks of the data, zero-padded to a whole number of blocks, are all on the device.
  abbrev pub Stored : WriteContext D → Bytes → Media D → Type 0
  Stored c block m =
      (blocks : List Bytes) × (padding : ℕ) × AllSized c.partition.erase_size blocks
      × (padding < c.partition.erase_size)
      × (join blocks ≡ (pending c ++ block) ++ replicate padding 0)
      × (write_all io c.partition c.media blocks ≡ (true, m))

  padded :
      (c : WriteContext D)
      → IsValid c
      → splice c.buffer c.stored (replicate (c.partition.erase_size - c.stored) 0)
        ≡ pending c ++ replicate (c.partition.erase_size - c.stored) 0
  unfolding splice
  padded c v =
      let zeros = replicate {A = ℕ} (c.partition.erase_size - c.stored) 0 in
      rw
        (drop_all (c.stored + length zeros) c.buffer (
          omega (
            arith,
            v.space,
            v.waiting,
            length-replicate {A = ℕ} (c.partition.erase_size - c.stored) 0,
          )))
        (rw append-nil refl)

  -- `flush_pending` writes what waits with zeros up to a block.
  flush_pending-Stored :
      (c : WriteContext D)
      → IsValid c
      → (flush_pending io c).0 ≡ true
      → Stored c [] (flush_pending io c).1.media
  unfolding flush_pending write_all
  flush_pending-Stored c v h = elim (Bool-cases (ltb 0 c.stored)) [
    | inr empty ↦
        let nothing : take c.stored c.buffer ≡ [] =
          ap (λ k. take k c.buffer) (let none_waits : c.stored ≡ 0 = ground arith in none_waits) in
        rw empty ([], 0, tt, omega (arith, v.waiting), rw nothing, refl)
    | inl waits ↦
        let zeros = replicate {A = ℕ} (c.partition.erase_size - c.stored) 0 in
        let pad = padded c v in
        let done : (write_block io c.partition c.media (splice c.buffer c.stored zeros)).0 ≡ true =
          rw waits at h in
        rw waits (
          splice c.buffer c.stored zeros ∷ [],
          c.partition.erase_size - c.stored,
          (
            rw pad (
                omega (
                  arith,
                  length-append (pending c) zeros,
                  length-take c.stored c.buffer,
                  length-replicate {A = ℕ} (c.partition.erase_size - c.stored) 0,
                  v.space,
                  v.waiting,
                )),
            tt,
          ),
          ground arith,
          rw (append-nil, append-nil) pad,
          rw done,
        )
  ]

  joined :
      (bs ys : List Bytes) (left waiting given zeros : Bytes)
      → join bs ++ left ≡ given
      → left ≡ waiting
      → join ys ≡ (waiting ++ []) ++ zeros
      → join (bs ++ ys) ≡ given ++ zeros
  joined bs ys left waiting given zeros same rest e =
      rw (join-append, e, append-nil, ← same, rest) (sym (append_assoc (join bs) waiting zeros))

  -- What `mtd_write_data` took, and then `flush_pending` flushed, is stored.
  pub mtd_write_data-Stored :
      (c : WriteContext D) (block : Bytes) (n : ℕ)
      → IsValid c
      → (mtd_write_data io c block).0 ≡ some n
      → (flush_pending io (mtd_write_data io c block).1).0 ≡ true
      → Stored c block (flush_pending io (mtd_write_data io c block).1).1.media
  mtd_write_data-Stored c block n v wrote flushed =
      go (mtd_write_data io c block) (mtd_write_data-Written io c block v) wrote flushed
    where
      go :
          (r : Option ℕ × WriteContext D)
          → Written io c block r
          → r.0 ≡ some n
          → (flush_pending io r.1).0 ≡ true
          → Stored c block (flush_pending io r.1).1.media
      go (k, c') (bs, left, sized, same, inr (failed, calls)) e h = cc
      go (k, c') (bs, left, sized, same, inl (all, calls, rest, part, v')) e h =
          let (ys, z, sz, few, padded_same, cl) = flush_pending-Stored c' v' h in
          (
            bs ++ ys,
            z,
            AllSized-append c.partition.erase_size bs ys sized (rw (← part) sz),
            rw (← part) few,
            joined bs ys left (pending c') (pending c ++ block) (replicate z 0) same rest
                padded_same,
            write_all-append io c.partition c.media c'.media bs ys calls ∙ (rw (← part) cl),
          )

  -- The device that is left when the descriptor is closed with success, and nothing but a look at its
  -- offset came before.
  abbrev pub ClosedFrom : D → D → Type 0
  ClosedFrom d d' = io.close (io.tell d).1 ≡ (true, d')

  -- `mtd_erase_blocks` that does not fail has flushed what waited.
  pub mtd_erase_blocks_flushes :
      (c : WriteContext D) (blocks : Option ℕ) (end : ℕ)
      → (mtd_erase_blocks io c blocks).0 ≡ some end
      → (flush_pending io c).0 ≡ true
  unfolding mtd_erase_blocks
  mtd_erase_blocks_flushes c blocks end h = elim (Bool-cases (flush_pending io c).0) [
    | inl e ↦ e
    | inr e ↦ ground arith
  ]

  none_less : (n : ℕ) → ltb n 0 ≡ false
  none_less n = ground arith

  not_less : (n : ℕ) → ltb n n ≡ false
  not_less n = ground arith

  -- As `mtd_erase_blocks` erases all blocks from `at` on, on a device that was asked for its offset.
  abbrev pub erased_from : WriteContext D → D → ℕ → ℕ × D
  erased_from c d at =
      erase_loop io c.partition.erase_size ((c.partition.size - at) / c.partition.erase_size)
        (io.tell d).1 at

  abbrev pub at_device : WriteContext D → D → WriteContext D
  at_device c d = record c { media = record c.media { fd = d } }

  mtd_erase_blocks-zero :
      (c : WriteContext D) (at : ℕ)
      → (flush_pending io c).0 ≡ true
      → (io.tell (flush_pending io c).1.media.fd).0 ≡ some at
      → mtd_erase_blocks io c (some 0)
        ≡ (some at, at_device (flush_pending io c).1 (io.tell (flush_pending io c).1.media.fd).1)
  unfolding mtd_erase_blocks erase_loop
  mtd_erase_blocks-zero c at e there =
      let total = (c.partition.size - at) / c.partition.erase_size in
      let enough : ltb total (get_or (some 0) total) ≡ false = none_less total in
      rw (mtd_erase_blocks, e, there, enough) refl

  pub mtd_erase_blocks-all :
      (c : WriteContext D) (at : ℕ)
      → (flush_pending io c).0 ≡ true
      → (io.tell (flush_pending io c).1.media.fd).0 ≡ some at
      → mtd_erase_blocks io c none ≡ (
          let c₁ = (flush_pending io c).1 in
          let r = erased_from c c₁.media.fd at in (some r.0, at_device c₁ r.1))
  unfolding mtd_erase_blocks
  mtd_erase_blocks-all c at e there =
      let total = (c.partition.size - at) / c.partition.erase_size in
      let enough : ltb total (get_or none total) ≡ false = not_less total in
      rw (mtd_erase_blocks, e, there, enough) refl

  -- Without an offset, nothing is erased.
  pub mtd_erase_blocks-lost :
      (c : WriteContext D) (blocks : Option ℕ)
      → (flush_pending io c).0 ≡ true
      → (io.tell (flush_pending io c).1.media.fd).0 ≡ none
      → (mtd_erase_blocks io c blocks).0 ≡ none
  unfolding mtd_erase_blocks
  mtd_erase_blocks-lost c blocks e lost = rw (mtd_erase_blocks, e, lost) refl

  abbrev close_after : Option ℕ × WriteContext D → Bool × D
  close_after r =
      let (done, d) = io.close r.1.media.fd in
      elim r.0 as (λ _. Bool × D) [ none ↦ (false, d) | some pos ↦ (done, d) ]

  failed_after :
      (o : Option ℕ) (r : Bool × D) (d : D)
      → o ≡ none
      → (elim o as (λ _. Bool × D) [ none ↦ (false, r.1) | some pos ↦ r ]) ≡ (true, d)
      → ⊥
  failed_after none r d e h = let q = ap (λ x. x.0) h in ground (arith, q)
  failed_after (some n) r d e h = ground (arith, e)

  pub mtd_write_close_flushes :
      (c : WriteContext D) (d : D)
      → mtd_write_close io c ≡ (true, d)
      → ((flush_pending io c).0 ≡ true) × ClosedFrom (flush_pending io c).1.media.fd d
  unfolding mtd_write_close
  mtd_write_close_flushes c d h = elim (Option-cases (mtd_erase_blocks io c (some 0)).0) [
    | inl failed ↦ absurd (failed_after (mtd_erase_blocks io c (some 0)).0 _ d failed h)
    | inr (end, erased) ↦
        let e = mtd_erase_blocks_flushes c (some 0) end erased in
        (
          e,
          elim (Option-cases (io.tell (flush_pending io c).1.media.fd).0) [
            | inl lost ↦
                let q = mtd_erase_blocks-lost c (some 0) e lost in ground (arith, q, erased)
            | inr (at, there) ↦ sym (ap close_after (mtd_erase_blocks-zero c at e there)) ∙ h
          ],
        )
  ]

  -- The data is stored, and the device that is left is that of the last block after a close.
  abbrev pub Closed : WriteContext D → Bytes → D → Type 0
  Closed c block d = (m : Media D) × Stored c block m × ClosedFrom m.fd d

  -- On a context in which less than a block waits in a buffer of a block, of a positive size,
  -- what `mtd_write_data` took, and then `mtd_write_close` closed without an error, is stored: the
  -- blocks that were written, in order and each with success, are the data that waited and the data
  -- given, with fewer zeros than a block holds at the end; and the device that is left is the one
  -- that the last of these writes left, after a look at its offset and the close.
  pub mtd_write_close-Stored :
      (c : WriteContext D) (block : Bytes) (d : D) (n : ℕ)
      → IsValid c
      → (mtd_write_data io c block).0 ≡ some n
      → mtd_write_close io (mtd_write_data io c block).1 ≡ (true, d)
      → Closed c block d
  mtd_write_close-Stored c block d n v wrote closed =
      let (done, left) = mtd_write_close_flushes (mtd_write_data io c block).1 d closed in
      (
        (flush_pending io (mtd_write_data io c block).1).1.media,
        mtd_write_data-Stored c block n v wrote done,
        left,
      )
