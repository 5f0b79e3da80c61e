-- ===== src/Mtd/Read.antt =====
-- mtdutils/mtdutils.c: `read_block`, `mtd_read_data`.
-- Sizes and offsets are below 2 ^ 31, as the casts to `int` in the source take for granted.
pub mod Blocks
pub mod Stream
pub mod Unsupported
use screenbox_rockchip_recov.Prelude.{
  ℕ, zero, suc, ◌+◌, ◌-◌, ◌*◌, Bool, true, false, ◌&&◌, not, List, [], ◌∷◌, ◌++◌, Option, none,
  some, ltb, leb, ◌==◌, if◌then◌else◌, length, take, drop,
}
use screenbox_rockchip_recov.Prelude.Bytes.{Bytes}
use screenbox_rockchip_recov.Mtd.Flash.{
  Partition, BadBlock, good, bad, unsupported, failed, EccStats, Flash,
}
use screenbox_rockchip_recov.Mtd.Block.{read_at}

-- `struct MtdReadContext`
pub record ReadContext (D : Type 0) : Type 0 where
  pub partition : Partition
  pub buffer : Bytes
  pub consumed : ℕ
  pub fd : D

module _ {D : Type 0} (io : Flash D) where
  -- The loop of `read_block` from `pos` on, with the count of ECC failures to compare with. A block
  -- that is refused may have reached the caller's buffer; no caller looks at it.
  unfoldable pub read_from : ℕ → Partition → D → ℕ → ℕ → Option Bytes × D
  read_from zero p d ecc pos = (none, d)
  read_from (suc fuel) p d ecc pos =
      let (got, d₁) = read_at io d pos p.erase_size in
      let (after, d₂) = io.ecc_stats d₁ in
      let (mgbb, d₃) = io.bad_block d₂ pos in
      let unread = read_from fuel p d₁ ecc (pos + p.erase_size) in
      let marked = read_from fuel p d₃ ecc (pos + p.erase_size) in
      let check = λ (block : Bytes) (stats : EccStats).
        let corrupt = read_from fuel p d₂ stats.ecc_failed (pos + p.erase_size) in
        if not (stats.ecc_failed == ecc)
        then corrupt
        else (elim mgbb as (λ _. Option Bytes × D) [ good ↦ (some block, d₃) | _ ↦ marked ]) in
      if leb (pos + p.erase_size) p.size
      then elim got as (λ _. Option Bytes × D) [
        | none ↦ unread
        | some block ↦ elim after as (λ _. Option Bytes × D) [
          | none ↦ (none, d₂)
          | some stats ↦ check block stats
        ]
      ]
      else (none, d)

  -- `read_block`; `none` is -1. There are at most `size` blocks. That `lseek64` cannot tell the
  -- offset, which the code does not test for, is taken as a failure.
  unfoldable pub read_block : Partition → D → Option Bytes × D
  read_block p d =
      let (before, d₁) = io.ecc_stats d in
      let (here, d₂) = io.tell d₁ in
      elim before [
        | none ↦ (none, d₁)
        | some stats ↦ elim here as (λ _. Option Bytes × D) [
          | none ↦ (none, d₂)
          | some pos ↦ read_from (suc p.size) p d₂ stats.ecc_failed pos
        ]
      ]

-- How a loop leaves `mtd_read_data`: with `return -1`, or going on with the bytes that `data`
-- has received and the number of bytes still wanted.
pub data Outcome (D : Type 0) : Type 0 where
  fails : ReadContext D → Outcome D
  goes_on : ReadContext D → Bytes → ℕ → Outcome D

abbrev pub after : {D : Type 0} → Outcome D → (ReadContext D → Bytes → ℕ → Outcome D) → Outcome D
after (fails c) k = fails c
after (goes_on c out n) k = k c out n

-- The copy out of the buffer.
unfoldable pub take_buffered : {D : Type 0} → ReadContext D → Bytes → ℕ → Outcome D
take_buffered c out n =
    let avail = c.partition.erase_size - c.consumed in
    let copy = if ltb n avail then n else avail in
    if ltb c.consumed c.partition.erase_size
    then goes_on (record c { consumed = c.consumed + copy })
        (out ++ take copy (drop c.consumed c.buffer)) (n - copy)
    else goes_on c out n

module _ {D : Type 0} (io : Flash D) where
  -- "Read complete blocks directly into the user's buffer"
  unfoldable pub read_direct : ℕ → ReadContext D → Bytes → ℕ → Outcome D
  read_direct zero c out n = goes_on c out n
  read_direct (suc fuel) c out n =
      let size = c.partition.erase_size in
      let (got, d) = read_block io c.partition c.fd in
      let next =
        λ (block : Bytes). read_direct fuel (record c { fd = d }) (out ++ block) (n - size) in
      if c.consumed == size && leb size n
      then (elim got as (λ _. Outcome D) [
        | none ↦ fails (record c { fd = d })
        | some block ↦ next block
      ])
      else goes_on c out n

  -- "Read the next block into the buffer", unless all bytes are there.
  unfoldable pub refill : ReadContext D → Bytes → ℕ → Outcome D
  refill c out n =
      let (got, d) = read_block io c.partition c.fd in
      if c.consumed == c.partition.erase_size && ltb 0 n
      then (elim got as (λ _. Outcome D) [
        | none ↦ fails (record c { fd = d })
        | some block ↦ goes_on (record c { fd = d; buffer = block; consumed = 0 }) out n
      ])
      else goes_on c out n

  -- The loop of `mtd_read_data`.
  unfoldable pub read_loop : ℕ → ReadContext D → Bytes → ℕ → Outcome D
  read_loop zero c out n = goes_on c out n
  read_loop (suc fuel) c out zero = goes_on c out zero
  read_loop (suc fuel) c out (suc n) =
      after (after (after (take_buffered c out (suc n)) (read_direct (suc (suc n)))) refill)
        (read_loop fuel)

  -- `mtd_read_data`: the bytes that `data` receives, as many as are returned; `none` is -1. Every
  -- second round at least yields a byte.
  unfoldable pub mtd_read_data : ReadContext D → ℕ → Option Bytes × ReadContext D
  mtd_read_data c len = elim (read_loop (2 * len + 2) c [] len) [
    | fails c' ↦ (none, c')
    | goes_on c' out n ↦ (some out, c')
  ]
