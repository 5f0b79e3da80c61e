-- ===== src/Mtd/Partitions/Tests.antt =====
-- mtdutils/mtdutils.c: scans of small tables of partitions, and the theorems at them.
use screenbox_rockchip_recov.Prelude.{◌≡◌, refl, [], ◌∷◌, some, none, arith, get_elem?}
use screenbox_rockchip_recov.Prelude.Int.{pos}
use screenbox_rockchip_recov.Prelude.Bytes.{Bytes, codes, str_eq}
use screenbox_rockchip_recov.Prelude.Scanf.{
  scan_literal, scan_int, scan_digits, scan_unsigned, skip_prefix, scan_until, skip_space, span,
  eat_line,
}
use screenbox_rockchip_recov.Mtd.Partitions.{
  MtdPartition, MtdState, scan_partition, store_partition, scan_lines, mtd_scan_partitions,
  mtd_find_partition_by_name,
}
use screenbox_rockchip_recov.Mtd.Partitions.Found.{
  mtd_find_partition_by_name-Indexed, mtd_scan_partitions_overruns,
}

open_all : Unit {0}
unfolding scan_literal scan_int scan_digits scan_unsigned skip_prefix scan_until skip_space span
    eat_line scan_partition store_partition scan_lines mtd_scan_partitions
    mtd_find_partition_by_name str_eq
open_all = tt

abbrev recovery : MtdPartition
recovery = record {
  device_index = 1;
  size = pos 4096;
  erase_size = pos 128;
  name = codes "recovery";
}

abbrev state : MtdState
state = record { partitions = none ∷ some recovery ∷ none ∷ []; partition_count = pos 1 }

abbrev proc_mtd : Bytes
proc_mtd = codes "dev: size\nmtd1: 00001000 00000080 \"recovery\"\n"

abbrev before : MtdState
before = record { partitions = none ∷ some recovery ∷ none ∷ []; partition_count = pos 1 }

scanned : mtd_scan_partitions (some proc_mtd) (some before) ≡ some state
unfolding open_all
scanned = refl

found : mtd_find_partition_by_name (codes "recovery") state.partitions ≡ some recovery
unfolding open_all
found = refl

mtd_find_partition_by_name-Indexed_example :
    (codes "recovery" ≡ codes "recovery") × (get_elem? state.partitions 1 ≡ some (some recovery))
mtd_find_partition_by_name-Indexed_example =
    mtd_find_partition_by_name-Indexed (some proc_mtd) (some before) state (codes "recovery")
      recovery scanned found

abbrev after_m : Bytes
after_m = codes "td32: 00001000 00000080 \"recovery\"\n"

out_of_table :
    scan_partition (b'm' ∷ after_m) ≡ some (pos 32, (pos 4096, (pos 128, codes "recovery")))
unfolding open_all
out_of_table = refl

scan_overruns : mtd_scan_partitions (some (b'm' ∷ after_m)) none ≡ none
scan_overruns =
    mtd_scan_partitions_overruns b'm' after_m 32 (pos 4096, (pos 128, codes "recovery"))
      out_of_table (omega arith) (omega arith)
