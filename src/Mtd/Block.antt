-- ===== src/Mtd/Block.antt =====
-- mtdutils/mtdutils.c: `add_bad_block_offset` and `write_block`.
pub mod Verified
-- Sizes and offsets are below 2 ^ 31, as the casts to `int` in the source take for granted.
use screenbox_rockchip_recov.Prelude.{
  ℕ, zero, suc, ◌+◌, ◌-◌, ◌*◌, ◌/◌, Bool, true, false, ◌&&◌, ◌||◌, List, [], ◌∷◌, ◌++◌, Option,
  none, some, ltb, leb, ◌==◌, if◌then◌else◌, length, take, drop, replicate,
}
use mathlib.Core.Option.{get_or}
use screenbox_rockchip_recov.Prelude.Bytes.{Bytes, str_eq}
use screenbox_rockchip_recov.Mtd.Flash.{Partition, BadBlock, good, bad, unsupported, failed, Flash}

-- The part of `struct MtdWriteContext` that `write_block` changes: the device behind `fd`, and the
-- list of bad blocks, `bad_block_count` offsets in a space of `bad_block_alloc`.
pub record Media (D : Type 0) : Type 0 where
  pub fd : D
  pub bad_block_offsets : List ℕ
  pub bad_block_alloc : ℕ

-- `add_bad_block_offset`
unfoldable pub add_bad_block_offset : {D : Type 0} → Media D → ℕ → Media D
add_bad_block_offset m pos = record m {
  bad_block_offsets = m.bad_block_offsets ++ (pos ∷ []);
  bad_block_alloc =
      if ltb m.bad_block_alloc (length m.bad_block_offsets + 1)
      then m.bad_block_alloc * 2 + 1
      else m.bad_block_alloc;
}

-- `ret != 0 && !(ret == -1 && errno == EOPNOTSUPP)`
unfoldable pub is_skipped : BadBlock → Bool
is_skipped good = false
is_skipped unsupported = false
is_skipped _ = true

module _ {D : Type 0} (io : Flash D) where
  -- `lseek(fd, pos, SEEK_SET) != pos || read(fd, verify, size) != size`
  unfoldable pub read_at : D → ℕ → ℕ → Option Bytes × D
  read_at d pos size =
      let (there, d₁) = io.seek d pos in
      let got = io.read d₁ size in if there then got else (none, d₁)

  -- `lseek(fd, pos, SEEK_SET) != pos || write(fd, data, size) != size`, of which the code only
  -- reports the result
  unfoldable pub write_at : D → ℕ → Bytes → D
  write_at d pos block =
      let (there, d₁) = io.seek d pos in let d₂ = (io.write d₁ block).1 in if there then d₂ else d₁

  -- One round of the retry loop: erase, write, and read back (`block` holds `size` bytes). True if the block is verified.
  unfoldable pub try_block : D → ℕ → ℕ → Bytes → Bool × D
  try_block d pos size block =
      let (erased, d₁) = io.erase d pos size in
      let back = read_at (write_at d₁ pos block) pos size in
      if erased
      then (elim back.0 [ none ↦ false | some verify ↦ str_eq block verify ], back.1)
      else (false, d₁)

  -- `for (retry = 0; retry < 2; ++retry)`
  unfoldable pub retry_block : ℕ → D → ℕ → ℕ → Bytes → Bool × D
  retry_block zero d pos size block = (false, d)
  retry_block (suc retries) d pos size block =
      let (done, d') = try_block d pos size block in
      let again = retry_block retries d' pos size block in if done then (true, d') else again

  -- The loop over the blocks from `pos` on. The fuel is the number of blocks that may be tried.
  unfoldable pub write_from : ℕ → Partition → Media D → ℕ → Bytes → Bool × Media D
  write_from zero p m pos block = (false, m)
  write_from (suc fuel) p m pos block =
      let (status, d) = io.bad_block m.fd pos in
      let skipped =
        write_from fuel p (add_bad_block_offset (record m { fd = d }) pos) (pos + p.erase_size)
          block in
      let (done, d') = retry_block 2 d pos p.erase_size block in
      -- `ioctl(fd, MEMERASE, &erase_info)` once more, after the block is recorded as bad
      let given_up = (io.erase d' pos p.erase_size).1 in
      let next =
        write_from fuel p (add_bad_block_offset (record m { fd = given_up }) pos)
          (pos + p.erase_size) block in
      if leb (pos + p.erase_size) p.size
      then (if is_skipped status
          then skipped
          else (if done then (true, record m { fd = d' }) else next))
      else (false, m)

  -- `write_block`; true is the result 0. There are at most `size` blocks.
  unfoldable pub write_block : Partition → Media D → Bytes → Bool × Media D
  write_block p m block =
      let (here, d) = io.tell m.fd in
      elim here [
        | none ↦ (false, record m { fd = d })
        | some pos ↦ write_from (suc p.size) p (record m { fd = d }) pos block
      ]
