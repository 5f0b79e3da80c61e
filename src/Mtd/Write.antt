-- ===== src/Mtd/Write.antt =====
-- mtdutils/mtdutils.c: `mtd_write_data`, `mtd_erase_blocks`, `mtd_write_close`.
-- Sizes and offsets are below 2 ^ 31, as the casts to `int` in the source take for granted.
pub mod Blocks
pub mod Chunks
pub mod Close
pub mod Erased
use mathlib.Core.Option.{get_or}
use screenbox_rockchip_recov.Prelude.{
  ℕ, zero, suc, ◌+◌, ◌-◌, ◌*◌, ◌/◌, Bool, true, false, ◌&&◌, ◌||◌, List, [], ◌∷◌, ◌++◌, Option,
  none, some, ltb, leb, ◌==◌, if◌then◌else◌, length, take, drop, replicate,
}
use screenbox_rockchip_recov.Prelude.Bytes.{Bytes}
use screenbox_rockchip_recov.Mtd.Flash.{Partition, BadBlock, good, bad, unsupported, failed, Flash}
use screenbox_rockchip_recov.Mtd.Block.{Media, write_block}

-- `struct MtdWriteContext`
pub record WriteContext (D : Type 0) : Type 0 where
  pub media : Media D
  pub partition : Partition
  pub buffer : Bytes
  pub stored : ℕ

-- `memcpy(buffer + at, xs, n)`, of the `n` bytes `xs`
unfoldable pub splice : Bytes → ℕ → Bytes → Bytes
splice buffer at xs = take at buffer ++ (xs ++ drop (at + length xs) buffer)

-- How a loop leaves `mtd_write_data`: with `return -1`, or going on with the data left.
pub data Outcome (D : Type 0) : Type 0 where
  fails : WriteContext D → Outcome D
  goes_on : WriteContext D → Bytes → Outcome D

abbrev pub after : {D : Type 0} → Outcome D → (WriteContext D → Bytes → Outcome D) → Outcome D
after (fails c) k = fails c
after (goes_on c rest) k = k c rest

-- "Coalesce partial writes into complete blocks": the context, and the data left after the copy.
unfoldable pub coalesce : {D : Type 0} → WriteContext D → Bytes → WriteContext D × Bytes
unfolding splice
coalesce c rest =
    let avail = c.partition.erase_size - c.stored in
    let copy = if ltb (length rest) avail then length rest else avail in
    if ltb 0 c.stored || ltb (length rest) c.partition.erase_size
    then (
      record c { buffer = splice c.buffer c.stored (take copy rest); stored = c.stored + copy },
      drop copy rest,
    )
    else (c, rest)

module _ {D : Type 0} (io : Flash D) where
  -- "If a complete block was accumulated, write it"
  unfoldable pub flush_full : WriteContext D → Bytes → Outcome D
  flush_full c rest =
      let (done, m) = write_block io c.partition c.media c.buffer in
      if c.stored == c.partition.erase_size
      then (if done
          then goes_on (record c { media = m; stored = 0 }) rest
          else fails (record c { media = m }))
      else goes_on c rest

  -- "Write complete blocks directly from the user's buffer"
  unfoldable pub write_direct : ℕ → WriteContext D → Bytes → Outcome D
  write_direct zero c rest = goes_on c rest
  write_direct (suc fuel) c rest =
      let size = c.partition.erase_size in
      let (done, m) = write_block io c.partition c.media (take size rest) in
      let next = write_direct fuel (record c { media = m }) (drop size rest) in
      if c.stored == 0 && leb size (length rest)
      then (if done then next else fails (record c { media = m }))
      else goes_on c rest

  -- The loop of `mtd_write_data`; its fuel falls with the data left.
  unfoldable pub write_loop : ℕ → WriteContext D → Bytes → Outcome D
  unfolding coalesce flush_full write_direct
  write_loop zero c rest = goes_on c rest
  write_loop (suc fuel) c [] = goes_on c []
  write_loop (suc fuel) c (b ∷ rest) =
      let (c₁, rest₁) = coalesce c (b ∷ rest) in
      after (after (flush_full c₁ rest₁) (write_direct (suc (length rest₁)))) (write_loop fuel)

  -- `mtd_write_data`: `none` is -1.
  unfoldable pub mtd_write_data : WriteContext D → Bytes → Option ℕ × WriteContext D
  unfolding write_loop
  mtd_write_data c block = elim (write_loop (suc (length block)) c block) [
    | fails c' ↦ (none, c')
    | goes_on c' rest ↦ (some (length block - length rest), c')
  ]

  -- "Zero-pad and write any pending data to get us to a block boundary"
  unfoldable pub flush_pending : WriteContext D → Bool × WriteContext D
  unfolding splice
  flush_pending c =
      let zeros = replicate (c.partition.erase_size - c.stored) 0 in
      let padded = splice c.buffer c.stored zeros in
      let (done, m) = write_block io c.partition c.media padded in
      if ltb 0 c.stored
      then (done, record c { media = m; buffer = padded; stored = if done then 0 else c.stored })
      else (true, c)

  -- "Erase the specified number of blocks"
  unfoldable pub erase_loop : ℕ → ℕ → D → ℕ → ℕ × D
  erase_loop size zero d pos = (pos, d)
  erase_loop size (suc blocks) d pos =
      let (status, d₁) = io.bad_block d pos in
      -- an erase failure is only reported
      let d₂ : D = elim status [ bad ↦ d₁ | _ ↦ (io.erase d₁ pos size).1 ] in
      erase_loop size blocks d₂ (pos + size)

  -- `mtd_erase_blocks`, at an offset within the partition; a negative `blocks` is `none`, and so is the result -1.
  unfoldable pub mtd_erase_blocks : WriteContext D → Option ℕ → Option ℕ × WriteContext D
  unfolding flush_pending erase_loop
  mtd_erase_blocks c blocks =
      let (done, c₁) = flush_pending c in
      let (here, d) = io.tell c₁.media.fd in
      let c₂ = record c₁ { media = record c₁.media { fd = d } } in
      let erased = λ (pos : ℕ).
        let total = (c.partition.size - pos) / c.partition.erase_size in
        let wanted = get_or blocks total in
        let (end, d') = erase_loop c.partition.erase_size wanted d pos in
        if ltb total wanted
        then (none, c₂)
        else (some end, record c₁ { media = record c₁.media { fd = d' } }) in
      if done then elim here [ none ↦ (none, c₂) | some pos ↦ erased pos ] else (none, c₁)

  -- `mtd_write_close`: true is the result 0, with the device that is left.
  unfoldable pub mtd_write_close : WriteContext D → Bool × D
  unfolding mtd_erase_blocks
  mtd_write_close c =
      let (erased, c') = mtd_erase_blocks c (some 0) in
      let (done, d) = io.close c'.media.fd in
      elim erased as (λ _. Bool × D) [ none ↦ (false, d) | some pos ↦ (done, d) ]
