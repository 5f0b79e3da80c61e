-- ===== src/Roots/Mount.antt =====
-- roots.c: `ensure_path_mounted`, with `mtd_mount_partition` of mtdutils/mtdutils.c.
use screenbox_rockchip_recov.Prelude.{
  Bool, true, false, ◌||◌, not, [], ◌∷◌, ◌++◌, Option, none, some, if◌then◌else◌,
}
use screenbox_rockchip_recov.Prelude.Bytes.{Bytes, codes, str_eq, decimal}
use screenbox_rockchip_recov.Mounts.{find_mounted_volume_by_mount_point}
use screenbox_rockchip_recov.Mtd.Partitions.{
  MtdPartition, mtd_scan_partitions, mtd_find_partition_by_name,
}
use screenbox_rockchip_recov.Roots.{
  Volume, System, RootsState, M, ◌>>=◌, pure, crash, volume_for_path, rescan, is_ramdisk,
}

-- A test of `strcmp(v->fs_type, name) == 0`
abbrev pub has_type : Volume → Bytes → Bool
has_type v name = str_eq v.fs_type name

module _ {D : Type 0} (io : System D) where
  -- A call of `mount`: whether it returns 0.
  abbrev pub mount : Bool → Option Bytes → Bytes → Bytes → M D Bool
  mount read_only device mount_point fs_type s =
      let (done, d) = io.mount s.sys read_only device mount_point fs_type in
      some (done, record s { sys = d })

  -- `stat`, and `chmod` if the bits for execution are not set
  unfoldable pub fix_permissions : Bytes → M D Bool
  fix_permissions mount_point s =
      let (done, d) = io.add_execute s.sys mount_point in
      if io.stat s.sys mount_point then some (done, record s { sys = d }) else some (false, s)

  -- `mtd_mount_partition`, with the flag `read_only` clear: whether it returns 0.
  unfoldable pub mtd_mount_partition : MtdPartition → Bytes → Bytes → M D Bool
  unfolding fix_permissions
  mtd_mount_partition partition mount_point filesystem =
      let devname = some (codes "/dev/block/mtdblock" ++ decimal partition.device_index) in
      mount false devname mount_point filesystem >>= λ writable.
      (if writable then pure true else mount true devname mount_point filesystem) >>= λ mounted.
      if mounted then fix_permissions mount_point else pure false

  -- `mtd_scan_partitions()`, and `mtd_find_partition_by_name(name)`
  unfoldable pub find_partition : Bytes → M D (Option MtdPartition)
  find_partition name s =
      elim (mtd_scan_partitions (io.proc_mtd s.sys) s.mtd)
        as (λ _. Option (Option MtdPartition × RootsState D)) [
          | none ↦ none
          | some t ↦ some (mtd_find_partition_by_name name t.partitions, record s { mtd = some t })
        ]

  -- "mount an MTD partition as a YAFFS2 filesystem."
  unfoldable pub mount_yaffs2 : Volume → M D Bool
  unfolding find_partition mtd_mount_partition
  mount_yaffs2 v = elim v.device as (λ _. M D Bool) [
    | none ↦ crash
    | some name ↦ find_partition name >>= λ found. elim found as (λ _. M D Bool) [
      | none ↦ pure false
      | some partition ↦ mtd_mount_partition partition v.mount_point v.fs_type
    ]
  ]

  -- `getenv(SD_POINT_NAME)`, after `setFlashPoint()` if it is not set
  unfoldable pub sd_device : M D (Option Bytes)
  sd_device s = elim (io.sd_point s.sys) as (λ _. Option (Option Bytes × RootsState D)) [
    | some device ↦ some (some device, s)
    | none ↦ let d = io.set_flash_point s.sys in some (io.sd_point d, record s { sys = d })
  ]

  -- The second attempt for the SD card only.
  unfoldable pub mount_sdcard : Volume → M D Bool
  unfolding sd_device
  mount_sdcard v =
      if str_eq (codes "/mnt/sdcard") v.mount_point
      then (sd_device >>= λ device. mount false device v.mount_point v.fs_type)
      else pure false

  unfoldable pub mount_block_device : Volume → M D Bool
  unfolding mount_sdcard
  mount_block_device v = mount_sdcard v >>= λ on_card.
      if on_card
      then pure true
      else (mount false v.device v.mount_point v.fs_type >>= λ mounted.
          if mounted then pure true else elim v.device2 as (λ _. M D Bool) [
            | none ↦ pure false
            | some device2 ↦ mount false (some device2) v.mount_point v.fs_type
          ])

  -- From `mkdir` on.
  unfoldable pub mount_volume : Volume → M D Bool
  unfolding mount_yaffs2 mount_block_device
  mount_volume v s =
      let made = record s { sys = io.mkdir s.sys v.mount_point } in
      if has_type v (codes "yaffs2")
      then mount_yaffs2 v made
      else (if has_type v (codes "ext4") || has_type v (codes "vfat") || has_type v (codes "ext2")
          then mount_block_device v made
          else some (false, made))

  -- A scan of the mounted volumes, then: is one mounted at this point?
  unfoldable pub scan_for : Bytes → M D (Option Bool)
  unfolding rescan
  scan_for mount_point = rescan io >>= λ scanned s.
      if not scanned
      then some (none, s)
      else elim (find_mounted_volume_by_mount_point mount_point s.mounts)
          as (λ _. Option (Option Bool × RootsState D)) [
            | none ↦ some (some false, s)
            | some mv ↦ some (some true, s)
          ]

  -- "unknown volume for path", unless what the link names is mounted
  unfoldable pub mounted_link : M D Bool
  unfolding scan_for
  mounted_link s = elim s.mount_point as (λ _. Option (Bool × RootsState D)) [
    | [] ↦ some (false, s)
    | c ∷ link ↦
        (scan_for (c ∷ link) >>= λ listed. elim listed as (λ _. M D Bool) [
          | some true ↦ pure true
          | _ ↦ pure false
        ])
          s
  ]

  -- `ensure_path_mounted`: true is the result 0.
  unfoldable pub ensure_path_mounted : Bytes → M D Bool
  unfolding volume_for_path mounted_link scan_for mount_volume
  ensure_path_mounted path s =
      if io.access s.sys path
      then some (true, s)
      else (volume_for_path io path >>= λ found. elim found as (λ _. M D Bool) [
        | none ↦ mounted_link
        | some v ↦
            if is_ramdisk io v
            then pure true
            else (scan_for v.mount_point >>= λ listed. elim listed as (λ _. M D Bool) [
              | none ↦ pure false
              | some true ↦ pure true
              | some false ↦ mount_volume v
            ])
      ])
          s
