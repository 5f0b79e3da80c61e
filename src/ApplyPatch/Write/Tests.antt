-- ===== src/ApplyPatch/Write/Tests.antt =====
-- applypatch/applypatch.c: `WriteToPartition` on a device in memory.
use screenbox_rockchip_recov.Prelude.{
  ℕ, ◌+◌, ◌≡◌, refl, true, false, [], ◌∷◌, ◌++◌, Option, some, none, arith, ◌==◌, if◌then◌else◌,
  length, take, drop, replicate,
}
use screenbox_rockchip_recov.Prelude.Int.{pos}
use screenbox_rockchip_recov.Prelude.Bytes.{Bytes, codes, str_eq}
use screenbox_rockchip_recov.Mtd.Flash.{good, Flash}
use screenbox_rockchip_recov.Mtd.Block.{
  add_bad_block_offset, read_at, write_at, try_block, retry_block, is_skipped, write_from,
  write_block,
}
use screenbox_rockchip_recov.Mtd.Partitions.{MtdPartition, mtd_find_partition_by_name}
use screenbox_rockchip_recov.Mtd.Write.{
  WriteContext, splice, coalesce, flush_full, write_direct, write_loop, mtd_write_data,
  flush_pending, erase_loop, mtd_erase_blocks, mtd_write_close,
}
use screenbox_rockchip_recov.Mtd.Write.Erased.{ClosedErased}
use screenbox_rockchip_recov.Roots.{System, RootsState}
use screenbox_rockchip_recov.Roots.Format.{mtd_write_partition}
use screenbox_rockchip_recov.ApplyPatch.Load.{mtd, tokens, type_of}
use screenbox_rockchip_recov.ApplyPatch.Write.{
  Emmc, write_session, look_up, write_found, write_typed, write_to_partition,
  write_to_partition-Stored,
}

-- The offset, and the bytes of the partition; nothing fails.
abbrev Memory : Type 0
Memory = ℕ × Bytes

whole : ℕ → Bytes → Option Bytes
whole n b = if length b == n then some b else none

abbrev memory : Flash Memory
memory = record {
  tell = λ d. (some d.0, d);
  seek = λ d at. (true, (at, d.1));
  read = λ d n. (whole n (take n (drop d.0 d.1)), (d.0 + n, d.1));
  write = λ d b. (true, (d.0 + length b, take d.0 d.1 ++ (b ++ drop (d.0 + length b) d.1)));
  erase = λ d at n. (true, d);
  bad_block = λ d at. (good, d);
  ecc_stats = λ d. (none, d);
  close = λ d. (true, d);
}

abbrev system : System Memory
system = record {
  proc_mounts = λ d. none;
  proc_mtd = λ d. none;
  access = λ d p. false;
  readlink = λ d p. none;
  umount = λ d p. (true, d);
  mount = λ d ro device mount_point fs_type. (true, d);
  mkdir = λ d p. d;
  stat = λ d p. true;
  add_execute = λ d p. (true, d);
  sd_point = λ d. none;
  set_flash_point = λ d. d;
  make_fs = λ d fs_type device mount_point. (true, d);
  rk_check_and_resizefs = λ d device. (true, d);
  open_mtd = λ d n. some d;
  malloc = λ d n. some (replicate n 0);
  flash = memory;
}

abbrev emmc_io : Emmc Memory
emmc_io = record { fopen = λ d name. none; fwrite = λ d b. (false, d); fclose = λ d. (false, d) }

abbrev boot : MtdPartition
boot = record { device_index = 0; size = pos 4; erase_size = pos 2; name = codes "boot" }

abbrev state : Bytes → RootsState Memory
state cells = record {
  device_volumes = [];
  mount_point = [];
  mounts = [];
  mtd = some (record { partitions = some boot ∷ []; partition_count = pos 1 });
  sys = (0, cells);
}

abbrev blank : RootsState Memory
blank = state (0 ∷ 0 ∷ 0 ∷ 0 ∷ [])

abbrev done : RootsState Memory
done = record blank { sys = (4, 7 ∷ 8 ∷ 9 ∷ 0 ∷ []) }

abbrev ctx : WriteContext Memory
ctx = record {
  media = record { fd = (0, 0 ∷ 0 ∷ 0 ∷ 0 ∷ []); bad_block_offsets = []; bad_block_alloc = 0 };
  partition = record { size = 4; erase_size = 2 };
  buffer = 0 ∷ 0 ∷ [];
  stored = 0;
}

opened : mtd_write_partition system boot blank.sys ≡ some ctx
unfolding mtd_write_partition
opened = refl

target_tokens : tokens (codes "MTD:boot") ≡ codes "MTD" ∷ codes "boot" ∷ []
unfolding tokens
target_tokens = refl

is_mtd : type_of (codes "MTD") ≡ some mtd
unfolding type_of str_eq
is_mtd = refl

found : look_up system emmc_io true (codes "boot") blank ≡ some (some boot, blank)
unfolding look_up mtd_find_partition_by_name str_eq
found = refl

written :
    write_to_partition system emmc_io true (7 ∷ 8 ∷ 9 ∷ []) (codes "MTD:boot") blank
    ≡ some (true, done)
unfolding write_to_partition write_typed write_found write_session look_up tokens type_of str_eq
    mtd_find_partition_by_name mtd_write_partition add_bad_block_offset read_at write_at try_block
    retry_block is_skipped write_from write_block splice coalesce flush_full write_direct write_loop
    mtd_write_data flush_pending erase_loop mtd_erase_blocks mtd_write_close whole
written = refl

write_to_partition-Stored_example :
    (done ≡ record blank { sys = done.sys }) × ClosedErased memory ctx (7 ∷ 8 ∷ 9 ∷ []) done.sys
write_to_partition-Stored_example =
    write_to_partition-Stored system emmc_io true (7 ∷ 8 ∷ 9 ∷ []) (codes "MTD:boot") (codes "MTD")
      (codes "boot") [] blank blank done boot ctx target_tokens is_mtd found opened
      (record { space = refl; waiting = omega arith }) written
