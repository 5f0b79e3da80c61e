-- ===== src/Mtd/Block/Verified.antt =====
-- mtdutils/mtdutils.c: what `write_block` has done when it returns.
use screenbox_rockchip_recov.Prelude.{
  ℕ, zero, suc, ◌+◌, ◌*◌, ◌≤◌, ◌<◌, ◌≡◌, ap, ◌∙◌, Bool, true, false, List, [], ◌∷◌, ◌++◌,
  append-nil, append_assoc, some, arith, leb, Bool-cases, Option-cases, inl, inr,
}
use screenbox_rockchip_recov.Prelude.Bytes.{Bytes, str_eq_iff}
use screenbox_rockchip_recov.Mtd.Flash.{Partition, Flash}
use screenbox_rockchip_recov.Mtd.Block.{
  Media, add_bad_block_offset, read_at, write_at, try_block, retry_block, is_skipped, write_from,
  write_block,
}

-- The offsets of `k` blocks from `pos` on.
abbrev pub offsets : ℕ → ℕ → ℕ → List ℕ
offsets zero pos size = []
offsets (suc k) pos size = pos ∷ offsets k (pos + size) size

module _ {D : Type 0} (io : Flash D) where
  -- `d'` is the state after a read at `pos` that gave `block`.
  abbrev pub ReadBack : ℕ → ℕ → Bytes → D → Type 0
  ReadBack pos size block d' = (d : D) × (read_at io d pos size ≡ (some block, d'))

  try_block-ReadBack :
      (d : D) (pos size : ℕ) (block : Bytes)
      → (try_block io d pos size block).0 ≡ true
      → ReadBack pos size block (try_block io d pos size block).1
  unfolding try_block
  try_block-ReadBack d pos size block h =
      let d₂ = write_at io (io.erase d pos size).1 pos block in
      let back = read_at io d₂ pos size in
      elim (Bool-cases (io.erase d pos size).0) [
        | inr failed ↦ ground arith
        | inl erased ↦ rw erased (elim (Option-cases back.0) [
          | inl unread ↦ ground arith
          | inr (verify, e) ↦
              let same : verify ≡ block = ground (arith, str_eq_iff block verify) in
              (d₂, λ i. ((e ∙ ap some same) i, back.1))
        ])
      ]

  retry_block-ReadBack :
      (n : ℕ) (d : D) (pos size : ℕ) (block : Bytes)
      → (retry_block io n d pos size block).0 ≡ true
      → ReadBack pos size block (retry_block io n d pos size block).1
  unfolding retry_block
  retry_block-ReadBack zero d pos size block h = cc
  retry_block-ReadBack (suc n) d pos size block h =
      elim (Bool-cases (try_block io d pos size block).0) [
        | inl e ↦ rw e (try_block-ReadBack d pos size block e)
        | inr e ↦
            rw e
              (retry_block-ReadBack n (try_block io d pos size block).1 pos size block (rw e at h))
      ]

  -- `write_from` has recorded the `k` blocks from `pos` on that it passed over, in this order and
  -- nothing else; where it succeeds, the next block lies in the partition and the last access read
  -- it back as the data; where it fails, no block is left in the partition.
  pub record Wrote (p : Partition) (pos : ℕ) (block : Bytes) (before : List ℕ) (r : Bool × Media D)
      : Type 0 where
    pub passed : ℕ
    pub recorded : r.1.bad_block_offsets ≡ before ++ offsets passed pos p.erase_size
    pub verified :
        r.0 ≡ true
        → (pos + passed * p.erase_size + p.erase_size ≤ p.size)
          × ReadBack (pos + passed * p.erase_size) p.erase_size block r.1.fd
    pub exhausted : r.0 ≡ false → p.size < pos + passed * p.erase_size + p.erase_size

  pass_over :
      (p : Partition) (pos : ℕ) (block : Bytes) (m : Media D) (d : D) (r : Bool × Media D)
      → Wrote p
          (pos + p.erase_size)
          block
          (add_bad_block_offset (record m { fd = d }) pos).bad_block_offsets
          r
      → Wrote p pos block m.bad_block_offsets r
  unfolding add_bad_block_offset
  pass_over p pos block m d r w = record {
    passed = suc w.passed;
    recorded =
        w.recorded
        ∙ append_assoc m.bad_block_offsets (pos ∷ [])
            (offsets w.passed (pos + p.erase_size) p.erase_size);
    verified = λ h.
        let (room, read) = w.verified h in
        let same : pos + suc w.passed * p.erase_size
            ≡ pos + p.erase_size + w.passed * p.erase_size =
          omega arith in
        (omega arith, rw same read);
    exhausted = λ h. omega (arith, w.exhausted h);
  }

  write_from-Wrote :
      (fuel : ℕ) (p : Partition) (m : Media D) (pos : ℕ) (block : Bytes)
      → 0 < p.erase_size
      → p.size < pos + fuel
      → Wrote p pos block m.bad_block_offsets (write_from io fuel p m pos block)
  unfolding write_from
  write_from-Wrote zero p m pos block h f = record {
    passed = 0;
    recorded = rw append-nil;
    verified = λ e. cc;
    exhausted = λ _. omega arith;
  }
  write_from-Wrote (suc fuel) p m pos block h f =
      let status = (io.bad_block m.fd pos).0 in
      let d = (io.bad_block m.fd pos).1 in
      let tried = retry_block io 2 d pos p.erase_size block in
      let start : pos + 0 * p.erase_size ≡ pos = omega arith in
      elim (Bool-cases (leb (pos + p.erase_size) p.size)) [
        | inr full ↦ rw full (record {
          passed = 0;
          recorded = rw append-nil;
          verified = λ e. cc;
          exhausted = λ _. ground arith;
        })
        | inl room ↦ elim (Bool-cases (is_skipped status)) [
          | inl skip ↦
              rw (room, skip)
                (pass_over p pos block m d _ (
                  write_from-Wrote fuel p (add_bad_block_offset (record m { fd = d }) pos)
                    (pos + p.erase_size) block h (omega arith)))
          | inr fit ↦ elim (Bool-cases tried.0) [
            | inl done ↦
                rw (room, fit, done)
                  (record {
                    passed = 0;
                    recorded = rw append-nil;
                    verified = λ e. (
                      ground arith,
                      rw start (retry_block-ReadBack 2 d pos p.erase_size block done),
                    );
                    exhausted = λ e. cc;
                  })
            | inr given_up ↦
                rw (room, fit, given_up)
                  (pass_over p pos block m (io.erase tried.1 pos p.erase_size).1 _ (
                    write_from-Wrote fuel p
                      (add_bad_block_offset
                        (record m { fd = (io.erase tried.1 pos p.erase_size).1 }) pos)
                      (pos + p.erase_size) block h (omega arith)))
          ]
        ]
      ]

  -- Where blocks have a positive size and `fd` stands at `pos`, `write_block` records exactly the blocks that it passes over, from
  -- `pos` on and in order. If it returns 0, the next block lies in the partition, and the last
  -- access of the device was a read of it that gave the data. If not, no block was left.
  pub write_block-Wrote :
      (p : Partition) (m : Media D) (pos : ℕ) (block : Bytes)
      → 0 < p.erase_size
      → (io.tell m.fd).0 ≡ some pos
      → Wrote p pos block m.bad_block_offsets (write_block io p m block)
  unfolding write_block
  write_block-Wrote p m pos block h e =
      rw (e, write_block)
        (write_from-Wrote (suc p.size) p (record m { fd = (io.tell m.fd).1 }) pos block h
          (omega arith))
