-- ===== src/Mounts/Tests.antt =====
-- mtdutils/mounts.c: runs on small tables, and the theorems at them.
use screenbox_rockchip_recov.Prelude.{
  ℕ, zero, suc, ◌<◌, ◌≡◌, refl, true, false, [], ◌∷◌, some, none, arith, replicate,
}
use screenbox_rockchip_recov.Prelude.Bytes.{Bytes, codes, str_eq}
use screenbox_rockchip_recov.Prelude.Scanf.{OnSome, scan_word, skip_space, span, eat_line}
use screenbox_rockchip_recov.Mounts.{
  MountedVolume, MountsState, scan_volume, scan_lines, scan_mounted_volumes,
  find_mounted_volume_by_device, find_mounted_volume_by_mount_point, unmount_mounted_volume,
}
use screenbox_rockchip_recov.Mounts.Laws.{
  mounts_file, IsListable, AreListable, scan_mounted_volumes-mounts_file,
  scan_mounted_volumes_overruns,
}
use screenbox_rockchip_recov.Mounts.Unmount.{unmount_mounted_volume-Gone}

abbrev root : MountedVolume
root = record {
  device = codes "rootfs";
  mount_point = codes "/";
  filesystem = codes "rootfs";
  flags = codes "rw";
}

abbrev data_fs : MountedVolume
data_fs = record {
  device = codes "/dev/block/mtd5";
  mount_point = codes "/data";
  filesystem = codes "yaffs2";
  flags = codes "rw,nodev";
}

root-IsListable : IsListable root
root-IsListable = (
  (omega arith, (refl, (refl, (refl, (refl, (refl, (refl, tt))))))),
  omega arith,
  (omega arith, (refl, tt)),
  omega arith,
  (omega arith, (refl, (refl, (refl, (refl, (refl, (refl, tt))))))),
  omega arith,
  (omega arith, (refl, (refl, tt))),
  omega arith,
)

replicate-AreListable : (n : ℕ) (v : MountedVolume) → IsListable v → AreListable (replicate n v)
replicate-AreListable zero v h = tt
replicate-AreListable (suc n) v h = (h, replicate-AreListable n v h)

scanned :
    scan_mounted_volumes
      (some (codes "rootfs / rootfs rw 0 0\n/dev/block/mtd5 /data yaffs2 rw,nodev 0 0\n"))
    ≡ some (true, some root ∷ some data_fs ∷ [])
unfolding scan_mounted_volumes scan_lines scan_volume scan_word skip_space span eat_line
scanned = refl

scan_mounted_volumes-mounts_file_example :
    scan_mounted_volumes (some (mounts_file (root ∷ root ∷ [])))
    ≡ some (true, some root ∷ some root ∷ [])
scan_mounted_volumes-mounts_file_example =
    scan_mounted_volumes-mounts_file (root ∷ root ∷ []) (root-IsListable, (root-IsListable, tt))
      (omega arith) (omega arith)

scan_mounted_volumes_overruns_example :
    scan_mounted_volumes (some (mounts_file (replicate 33 root))) ≡ none
scan_mounted_volumes_overruns_example =
    scan_mounted_volumes_overruns (replicate 33 root)
      (replicate-AreListable 33 root root-IsListable) (omega arith) (omega arith)

abbrev table : MountsState
table = some root ∷ none ∷ some data_fs ∷ []

found : find_mounted_volume_by_mount_point (codes "/data") table ≡ some (2, data_fs)
unfolding find_mounted_volume_by_mount_point str_eq
found = refl

found_device : find_mounted_volume_by_device (codes "rootfs") table ≡ some (0, root)
unfolding find_mounted_volume_by_device str_eq
found_device = refl

unmount_mounted_volume-Gone_example :
    OnSome
      (λ (f : ℕ × MountedVolume). 2 < f.0)
      (find_mounted_volume_by_mount_point (codes "/data") (unmount_mounted_volume true 2 table))
    × ((other : Bytes)
        → str_eq (codes "/data") other ≡ false
        → find_mounted_volume_by_mount_point other (unmount_mounted_volume true 2 table)
          ≡ find_mounted_volume_by_mount_point other table)
unmount_mounted_volume-Gone_example =
    unmount_mounted_volume-Gone table (codes "/data") 2 data_fs found
