-- ===== src/Bootloader/Tests.antt =====
-- bootloader.c: a message on a partition of ten pages of one byte each, in memory.
use screenbox_rockchip_recov.Prelude.{
  ℕ, ◌+◌, ◌≡◌, refl, sym, true, false, [], ◌∷◌, ◌++◌, Option, some, none, arith, ◌==◌,
  if◌then◌else◌, length, take, drop, replicate, length-replicate,
}
use screenbox_rockchip_recov.Prelude.Int.{pos}
use screenbox_rockchip_recov.Prelude.Bytes.{Bytes, codes, str_eq}
use screenbox_rockchip_recov.Prelude.Scanf.{
  scan_literal, scan_int, scan_digits, scan_unsigned, skip_prefix, scan_until, skip_space, span,
  eat_line,
}
use screenbox_rockchip_recov.Mtd.Flash.{good, Flash}
use screenbox_rockchip_recov.Mtd.Block.{
  add_bad_block_offset, read_at, write_at, try_block, retry_block, is_skipped, write_from,
  write_block,
}
use screenbox_rockchip_recov.Mtd.Partitions.{
  MtdPartition, MtdState, scan_partition, store_partition, scan_lines, mtd_scan_partitions,
  mtd_find_partition_by_name,
}
use screenbox_rockchip_recov.Mtd.Read.{
  read_from, read_block, take_buffered, read_direct, refill, read_loop, mtd_read_data,
}
use screenbox_rockchip_recov.Mtd.Write.{
  splice, coalesce, flush_full, write_direct, write_loop, mtd_write_data, flush_pending, erase_loop,
  mtd_erase_blocks, mtd_write_close,
}
use screenbox_rockchip_recov.Roots.{System, RootsState}
use screenbox_rockchip_recov.Roots.Mount.{find_partition}
use screenbox_rockchip_recov.Roots.Format.{mtd_write_partition}
use screenbox_rockchip_recov.Bootloader.{
  Misc, mtd_partition_info, mtd_read_partition, read_pages, read_misc, take_message,
  get_bootloader_message_mtd, write_misc, put_message, set_bootloader_message_mtd,
}
use screenbox_rockchip_recov.Bootloader.Command.{
  Allocates, IsUpdated, set_bootloader_message_mtd-IsUpdated,
}

-- The offset, and the bytes of the partition; nothing fails.
abbrev Memory : Type 0
Memory = ℕ × Bytes

whole : ℕ → Bytes → Option Bytes
whole n b = if length b == n then some b else none

abbrev memory : Flash Memory
memory = record {
  tell = λ d. (some d.0, d);
  seek = λ d at. (true, (at, d.1));
  read = λ d n. (whole n (take n (drop d.0 d.1)), (d.0 + n, d.1));
  write = λ d b. (true, (d.0 + length b, take d.0 d.1 ++ (b ++ drop (d.0 + length b) d.1)));
  erase = λ d at n. (true, d);
  bad_block = λ d at. (good, d);
  ecc_stats = λ d. (some (record { corrected = 0; ecc_failed = 0 }), d);
  close = λ d. (true, d);
}

abbrev system : System Memory
system = record {
  proc_mounts = λ d. none;
  proc_mtd = λ d. some (codes "dev: size\nmtd1: 0000000a 00000005 \"misc\"\n");
  access = λ d p. false;
  readlink = λ d p. none;
  umount = λ d p. (true, d);
  mount = λ d ro device mount_point fs_type. (true, d);
  mkdir = λ d p. d;
  stat = λ d p. true;
  add_execute = λ d p. (true, d);
  sd_point = λ d. none;
  set_flash_point = λ d. d;
  make_fs = λ d fs_type device mount_point. (true, d);
  rk_check_and_resizefs = λ d device. (true, d);
  open_mtd = λ d n. some (0, d.1);
  malloc = λ d n. some (replicate n 0);
  flash = memory;
}

abbrev misc : Misc Memory
misc = record {
  is_mtd_device = λ d. true;
  mem_get_info = λ d n. some 1;
  open_mtd_read = λ d n. some (0, d.1);
  stat_device = λ d device. (true, d);
  fopen_read = λ d device. none;
  fopen_write = λ d device. none;
  fread_at = λ d offset n. (none, d);
  fwrite_at = λ d offset b. (false, d);
  fclose = λ d. (true, d);
}

abbrev misc_partition : MtdPartition
misc_partition = record { device_index = 1; size = pos 10; erase_size = pos 5; name = codes "misc" }

abbrev known : MtdState
known = record { partitions = none ∷ none ∷ []; partition_count = pos 0 }

abbrev scanned : MtdState
scanned = record { partitions = none ∷ some misc_partition ∷ []; partition_count = pos 1 }

abbrev state : MtdState → Memory → RootsState Memory
state table d = record {
  device_volumes = [];
  mount_point = [];
  mounts = [];
  mtd = some table;
  sys = d;
}

abbrev cells : Bytes
cells = 1 ∷ 2 ∷ 3 ∷ 4 ∷ 5 ∷ 6 ∷ 7 ∷ 8 ∷ 9 ∷ 10 ∷ []

abbrev updated : Bytes
updated = 1 ∷ 2 ∷ 3 ∷ 4 ∷ 5 ∷ 6 ∷ 7 ∷ 8 ∷ 70 ∷ 80 ∷ []

open_all : Unit {0}
unfolding scan_literal scan_int scan_digits scan_unsigned skip_prefix scan_until skip_space span
    eat_line scan_partition store_partition scan_lines mtd_scan_partitions
    mtd_find_partition_by_name str_eq add_bad_block_offset read_at write_at try_block retry_block
    is_skipped write_from write_block read_from read_block take_buffered read_direct refill
    read_loop mtd_read_data splice coalesce flush_full write_direct write_loop mtd_write_data
    flush_pending erase_loop mtd_erase_blocks mtd_write_close find_partition mtd_write_partition
    mtd_partition_info mtd_read_partition read_pages read_misc take_message
    get_bootloader_message_mtd write_misc put_message set_bootloader_message_mtd whole
open_all = tt

found :
    find_partition system (codes "misc") (state known (0, cells))
    ≡ some (some misc_partition, state scanned (0, cells))
unfolding open_all
found = refl

sets :
    set_bootloader_message_mtd system misc (70 ∷ 80 ∷ []) (state known (0, cells))
    ≡ some (true, state scanned (10, updated))
unfolding open_all
sets = refl

system-Allocates : Allocates system misc
system-Allocates d n b e =
    let same : replicate n 0 ≡ b = ground (arith, e) in rw (sym same) (length-replicate n 0)

set_bootloader_message_mtd-IsUpdated_example :
    IsUpdated system misc misc_partition
      (70 ∷ 80 ∷ [])
      (state scanned (0, cells))
      (state scanned (10, updated))
set_bootloader_message_mtd-IsUpdated_example =
    set_bootloader_message_mtd-IsUpdated system misc system-Allocates (70 ∷ 80 ∷ []) misc_partition
      (state known (0, cells)) (state scanned (0, cells)) (state scanned (10, updated)) found
      (omega arith) sets
