-- ===== src/Roots/Format.antt =====
-- roots.c: `format_volume` and `resize_volume`, with `mtd_write_partition` of mtdutils/mtdutils.c.
use screenbox_rockchip_recov.Prelude.{
  ℕ, ◌^◌, ◌%◌, ◌-◌, Bool, false, ◌||◌, not, [], Option, none, some, ltb, if◌then◌else◌, length,
}
use screenbox_rockchip_recov.Prelude.Int.{ℤ, pos, negsuc}
use screenbox_rockchip_recov.Prelude.Bytes.{Bytes, codes, str_eq, is_substring}
use screenbox_rockchip_recov.Mtd.Partitions.{MtdPartition}
use screenbox_rockchip_recov.Mtd.Flash.{Partition}
use screenbox_rockchip_recov.Mtd.Write.{WriteContext, mtd_erase_blocks, mtd_write_close}
use screenbox_rockchip_recov.Roots.{
  Volume, System, RootsState, M, ◌>>=◌, pure, crash, volume_for_path, is_ramdisk,
  ensure_path_unmounted,
}
use screenbox_rockchip_recov.Roots.Mount.{has_type, find_partition}

-- A number of `%x` as an `unsigned int`.
abbrev pub as_unsigned : ℤ → ℕ
as_unsigned (pos n) = n % 2 ^ 32
as_unsigned (negsuc n) = 2 ^ 32 - 1 - n % 2 ^ 32

abbrev pub sizes_of : MtdPartition → Partition
sizes_of p = record { size = as_unsigned p.size; erase_size = as_unsigned p.erase_size }

-- What `strcpy` puts into `filepath`, of 20 bytes: `none` is a write beyond its end.
unfoldable pub flash_name : Bytes → Option Bytes
flash_name device =
    if is_substring (codes "userdata") device
    then some (codes "userdata")
    else (if ltb (length device) 20 then some device else none)

abbrev pub is_flash : Volume → Bool
is_flash v = has_type v (codes "yaffs2") || has_type v (codes "mtd") || has_type v (codes "ubifs")

abbrev pub is_block : Volume → Bool
is_block v =
    has_type v (codes "ext4")
    || has_type v (codes "ext2")
    || has_type v (codes "vfat")
    || has_type v (codes "ntfs")

module _ {D : Type 0} (io : System D) where
  -- `mtd_write_partition`; `none` is NULL.
  unfoldable pub mtd_write_partition : MtdPartition → D → Option (WriteContext D)
  mtd_write_partition p d = elim (io.malloc d (sizes_of p).erase_size) [
    | none ↦ none
    | some memory ↦ elim (io.open_mtd d p.device_index) [
      | none ↦ none
      | some fd ↦ some (record {
        media = record { fd = fd; bad_block_offsets = []; bad_block_alloc = 0 };
        partition = sizes_of p;
        buffer = memory;
        stored = 0;
      })
    ]
  ]

  -- `mtd_erase_blocks(write, -1)`, and `mtd_write_close(write)` on success and on failure
  unfoldable pub erase_partition : MtdPartition → M D Bool
  unfolding mtd_write_partition mtd_erase_blocks mtd_write_close
  erase_partition p s = elim (mtd_write_partition p s.sys) as (λ _. Option (Bool × RootsState D)) [
    | none ↦ some (false, s)
    | some write ↦
        let (erased, write') = mtd_erase_blocks io.flash write none in
        let (done, d) = mtd_write_close io.flash write' in
        let s' = record s { sys = d } in
        elim erased [ none ↦ some (false, s') | some end ↦ some (done, s') ]
  ]

  unfoldable pub format_flash : Volume → M D Bool
  unfolding flash_name find_partition erase_partition
  format_flash v = elim v.device as (λ _. M D Bool) [
    | none ↦ crash
    | some device ↦ elim (flash_name device) as (λ _. M D Bool) [
      | none ↦ crash
      | some filepath ↦ find_partition io filepath >>= λ found. elim found as (λ _. M D Bool) [
        | none ↦ pure false
        | some p ↦ erase_partition p
      ]
    ]
  ]

  -- `rk_make_ext4fs`, `rk_make_ext2fs`, `make_vfat`, `make_ntfs`
  unfoldable pub make_filesystem : Volume → M D Bool
  make_filesystem v s =
      let (made, d) = io.make_fs s.sys v.fs_type v.device v.mount_point in
      some (made, record s { sys = d })

  -- What `format_volume` and `resize_volume` do with a volume whose mount point the path is, that
  -- is not the ramdisk, and that is unmounted first.
  unfoldable pub on_unmounted : Bytes → (Volume → M D Bool) → M D Bool
  unfolding volume_for_path ensure_path_unmounted
  on_unmounted volume work = volume_for_path io volume >>= λ found. elim found as (λ _. M D Bool) [
    | none ↦ pure false
    | some v ↦
        if is_ramdisk io v || not (str_eq v.mount_point volume)
        then pure false
        else (ensure_path_unmounted io volume >>= λ unmounted.
            if unmounted then work v else pure false)
  ]

  -- The part of `format_volume` that depends on the type of the file system.
  unfoldable pub format_by_type : Volume → M D Bool
  unfolding format_flash make_filesystem
  format_by_type v =
      if is_flash v then format_flash v else (if is_block v then make_filesystem v else pure false)

  -- `format_volume`: true is the result 0.
  unfoldable pub format_volume : Bytes → M D Bool
  unfolding on_unmounted format_by_type
  format_volume volume = on_unmounted volume format_by_type

  unfoldable pub resize_by_type : Volume → M D Bool
  resize_by_type v s =
      let (resized, d) = io.rk_check_and_resizefs s.sys v.device in
      if has_type v (codes "ext4") || has_type v (codes "ext2")
      then some (resized, record s { sys = d })
      else some (false, s)

  -- `resize_volume`: true is the result 0.
  unfoldable pub resize_volume : Bytes → M D Bool
  unfolding on_unmounted resize_by_type
  resize_volume volume = on_unmounted volume resize_by_type
