-- ===== src/Mtd/Partitions.antt =====
-- mtdutils/mtdutils.c: the table of partitions, `mtd_scan_partitions` and
-- `mtd_find_partition_by_name`. Bytes of /proc/mtd are not zero.
pub mod Found
mod Tests
use screenbox_rockchip_recov.Prelude.{
  ℕ, zero, suc, ◌+◌, ◌*◌, ◌<◌, ◌≡◌, Bool, true, List, [], ◌∷◌, Option, none, some, arith, ltb,
  if◌then◌else◌, length, set, get_elem?, map, replicate, take,
}
use screenbox_rockchip_recov.Prelude.Int.{ℤ, pos, negsuc}
use screenbox_rockchip_recov.Prelude.Bytes.{Bytes, codes, str_eq}
use screenbox_rockchip_recov.Prelude.Scanf.{
  ◌>>=◌, skip_space, scan_literal, scan_int, scan_until, eat_line,
}

-- `MtdPartition`, of an index that is not negative and a name that is not NULL.
pub record MtdPartition : Type 0 where
  pub device_index : ℕ
  pub size : ℤ
  pub erase_size : ℤ
  pub name : Bytes

-- `MtdState`: the slots of the table; `none` has the index -1 and no name.
pub record MtdState : Type 0 where
  pub partitions : List (Option MtdPartition)
  pub partition_count : ℤ

-- `sscanf(bufp, "mtd%d: %x %x \"%63[^\"]", ...) == 4`: the number, and what is stored at it.
unfoldable pub scan_partition : Bytes → Option (ℤ × (ℤ × (ℤ × Bytes)))
unfolding scan_literal scan_int scan_until skip_space
scan_partition bufp = scan_literal (codes "mtd") bufp >>= λ s. scan_int 10 s >>= λ num.
    scan_literal (codes ":") num.1 >>= λ s. scan_int 16 s >>= λ size.
    scan_int 16 size.1 >>= λ erase. scan_literal (codes "\"") (skip_space erase.1) >>= λ s.
    scan_until b'"' 63 s >>= λ name. some (num.0, (size.0, (erase.0, name.0)))

-- `&g_mtd_state.partitions[mtdnum]`: `none` is a write outside of the table.
unfoldable pub store_partition :
    ℤ × (ℤ × (ℤ × Bytes)) → List (Option MtdPartition) → Option (List (Option MtdPartition))
store_partition (negsuc n, v) table = none
store_partition (pos n, (size, (erase, name))) table =
    if ltb n (length table)
    then some (
        set table n
          (some (record { device_index = n; size = size; erase_size = erase; name = name })))
    else none

-- The loop over the lines, with the number of lines stored; each round eats at least a byte.
unfoldable pub scan_lines :
    ℕ → Bytes → List (Option MtdPartition) → ℕ → Option (List (Option MtdPartition) × ℕ)
unfolding scan_partition store_partition eat_line
scan_lines zero bufp table count = some (table, count)
scan_lines (suc fuel) [] table count = some (table, count)
scan_lines (suc fuel) (b ∷ bufp) table count =
    let rest = eat_line (b ∷ bufp) in
    elim (scan_partition (b ∷ bufp)) as (λ _. Option (List (Option MtdPartition) × ℕ)) [
      | none ↦ scan_lines fuel rest table count
      | some v ↦ store_partition v table >>= λ table'. scan_lines fuel rest table' (suc count)
    ]

-- The table is allocated at the first call, with 32 slots.
abbrev pub cleared : Option MtdState → List (Option MtdPartition)
cleared none = replicate 32 none
cleared (some s) = map (λ _. none) s.partitions

-- `sizeof(buf) - 1`
abbrev pub read_size : ℕ
read_size = 2047

-- `mtd_scan_partitions`, of the bytes of /proc/mtd, or `none` where opening or reading fails. One call
-- of `read` gives as many bytes as the buffer holds.
-- The outer `none` is a write outside of the table.
unfoldable pub mtd_scan_partitions : Option Bytes → Option MtdState → Option MtdState
unfolding scan_lines
mtd_scan_partitions none old =
    some (record { partitions = cleared old; partition_count = negsuc 0 })
mtd_scan_partitions (some contents) old =
    let buf = take read_size contents in
    scan_lines (length buf) buf (cleared old) 0 >>= λ r.
    some (record { partitions = r.0; partition_count = pos r.1 })

unfoldable pub mtd_find_partition_by_name : Bytes → List (Option MtdPartition) → Option MtdPartition
mtd_find_partition_by_name name [] = none
mtd_find_partition_by_name name (none ∷ ps) = mtd_find_partition_by_name name ps
mtd_find_partition_by_name name (some p ∷ ps) =
    if str_eq p.name name then some p else mtd_find_partition_by_name name ps
