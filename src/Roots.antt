-- ===== src/Roots.antt =====
-- roots.c: the volumes of the system, and how they are mounted, unmounted and formatted. With
-- `mtd_mount_partition` of mtdutils/mtdutils.c. rktools.c and the makers of file systems run
-- programs and probe devices: they are parameters.
pub mod Find
pub mod Fstab
pub mod Mount
pub mod Format
pub mod Success
pub mod HasMounted
pub mod Mounted
mod Tests
use mathlib.Core.Option.{get_or}
use screenbox_rockchip_recov.Prelude.{
  ℕ, zero, suc, ◌+◌, ◌-◌, ◌^◌, Bool, true, false, ◌&&◌, ◌||◌, not, List, [], ◌∷◌, ◌++◌, Option,
  none, some, ltb, ◌==◌, if◌then◌else◌, length, drop,
}
use screenbox_rockchip_recov.Prelude.Int.{ℤ, pos, negsuc}
use screenbox_rockchip_recov.Prelude.Bytes.{
  Bytes, codes, str_eq, starts_with, is_substring, decimal,
}
use screenbox_rockchip_recov.Mounts.{
  MountedVolume, MountsState, scan_mounted_volumes, find_mounted_volume_by_mount_point,
  unmount_mounted_volume,
}
use screenbox_rockchip_recov.Mtd.Partitions.{
  MtdPartition, MtdState, mtd_scan_partitions, mtd_find_partition_by_name,
}
use screenbox_rockchip_recov.Mtd.Flash.{Partition, Flash}
use screenbox_rockchip_recov.Mtd.Write.{WriteContext, mtd_erase_blocks, mtd_write_close}

-- `Volume` of common.h; `none` is NULL.
pub record Volume : Type 0 where
  pub mount_point : Bytes
  pub fs_type : Bytes
  pub device : Option Bytes
  pub device2 : Option Bytes
  pub option : Option Bytes
  pub dump : Option Bytes
  pub pass : Option Bytes

-- The system calls, on states `D` of the system.
pub record System (D : Type 0) : Type 0 where
  -- the bytes of /proc/mounts and of /proc/mtd, if they can be read
  pub proc_mounts : D → Option Bytes
  pub proc_mtd : D → Option Bytes
  pub access : D → Bytes → Bool
  pub readlink : D → Bytes → Option Bytes
  pub umount : D → Bytes → Bool × D
  -- `mount(device, mount_point, fs_type, flags, ...)`, read-only or not; a device `none` is NULL
  pub mount : D → Bool → Option Bytes → Bytes → Bytes → Bool × D
  pub mkdir : D → Bytes → D
  -- `stat(...) == 0`, and the repair of the mode by `chmod`
  pub stat : D → Bytes → Bool
  pub add_execute : D → Bytes → Bool × D
  -- `getenv(SD_POINT_NAME)`, `setFlashPoint()` of rktools.c
  pub sd_point : D → Option Bytes
  pub set_flash_point : D → D
  -- `rk_make_ext4fs`, `rk_make_ext2fs`, `make_vfat`, `make_ntfs` for the type: the result 0
  pub make_fs : D → Bytes → Option Bytes → Bytes → Bool × D
  pub rk_check_and_resizefs : D → Option Bytes → Bool × D
  -- `open("/dev/mtd%d", O_RDWR)`, and the calls on the open device
  pub open_mtd : D → ℕ → Option D
  -- `malloc(n)`, with what the memory holds
  pub malloc : D → ℕ → Option Bytes
  pub flash : Flash D

-- The static variables: `device_volumes`, `mount_point`, those of mounts.c and mtdutils.c, and the
-- system.
pub record RootsState (D : Type 0) : Type 0 where
  pub device_volumes : List Volume
  pub mount_point : Bytes
  pub mounts : MountsState
  pub mtd : Option MtdState
  pub sys : D

-- `none` is an access outside of a buffer, or through NULL.
abbrev pub M : Type 0 → Type 0 → Type 0
M D A = RootsState D → Option (A × RootsState D)

infixl 5 ◌>>=◌
abbrev pub ◌>>=◌ : {D A B : Type 0} → M D A → (A → M D B) → M D B
◌>>=◌ m k s = elim (m s) [ none ↦ none | some (a, s') ↦ k a s' ]

abbrev pub pure : {D A : Type 0} → A → M D A
pure a s = some (a, s)

abbrev pub crash : {D A : Type 0} → M D A
crash s = none

-- The path up to its last slash, but one at its beginning.
unfoldable pub up_to_slash : Bytes → Option Bytes
up_to_slash [] = none
up_to_slash (c ∷ s) = elim (up_to_slash s) [
  | some p ↦ some (c ∷ p)
  | none ↦ if c == b'/' then some [] else none
]

unfoldable pub directory_of : Bytes → Bytes
unfolding up_to_slash
directory_of [] = []
directory_of (c ∷ s) = elim (up_to_slash s) [ some p ↦ c ∷ p | none ↦ c ∷ s ]

-- `buf`, where the link does not begin with a slash
abbrev pub rooted : Bytes → Bytes
rooted [] = b'/' ∷ []
rooted (c ∷ s) = if c == b'/' then c ∷ s else b'/' ∷ c ∷ s

-- `path[n] == '\0' || path[n] == '/'`, with `n` within the string
abbrev pub ends_at : Bytes → ℕ → Bool
ends_at path n = elim (drop n path) [ [] ↦ true | c ∷ _ ↦ c == b'/' ]

-- The loop of `volume_for_path`, where `link` is what `get_link_path` returns. With a link,
-- `path[len]` is read beyond the path's end if the path is shorter than `len`: `none`.
unfoldable pub find_volume : Bytes → Option Bytes → List Volume → Option (Option Volume)
find_volume path link [] = some none
find_volume path link (v ∷ vs) =
    let rest = find_volume path link vs in
    let len = length v.mount_point in
    if starts_with v.mount_point path && ends_at path len
    then some (some v)
    else elim link as (λ _. Option (Option Volume)) [
      | none ↦ rest
      | some l ↦
          if starts_with v.mount_point l
          then (if ltb (length path) len
              then none
              else (if ends_at path len then some (some v) else rest))
          else rest
    ]

module _ {D : Type 0} (io : System D) where
  -- What `get_link_path(path, mount_point, 1024)` returns; the buffers hold 256 bytes.
  unfoldable pub link_of : Bytes → D → Option (Option Bytes)
  unfolding directory_of
  link_of path d =
      if ltb 255 (length path)
      then none
      else elim (io.readlink d (directory_of path)) as (λ _. Option (Option Bytes)) [
        | none ↦ some none
        | some link ↦ if ltb 255 (length (rooted link)) then none else some (some (rooted link))
      ]

  -- `get_link_path`, and what it leaves in `mount_point`
  unfoldable pub get_link_path : Bytes → M D (Option Bytes)
  unfolding link_of
  get_link_path path s = elim (link_of path s.sys) as (λ _. Option (Option Bytes × RootsState D)) [
    | none ↦ none
    | some link ↦ some (link, record s { mount_point = get_or link [] })
  ]

  unfoldable pub volume_for_path : Bytes → M D (Option Volume)
  unfolding get_link_path find_volume
  volume_for_path path = get_link_path path >>= λ tmp s.
      elim (find_volume path tmp s.device_volumes) [ none ↦ none | some v ↦ some (v, s) ]

  -- `scan_mounted_volumes`: whether it returns 0.
  unfoldable pub rescan : M D Bool
  rescan s = elim (scan_mounted_volumes (io.proc_mounts s.sys)) [
    | none ↦ none
    | some (done, volumes) ↦ some (done, record s { mounts = volumes })
  ]

  -- `unmount_mounted_volume`
  unfoldable pub unmount : ℕ × MountedVolume → M D Bool
  unmount (slot, v) s =
      let (ret, d) = io.umount s.sys v.mount_point in
      some (ret, record s { mounts = unmount_mounted_volume ret slot s.mounts; sys = d })

  -- `ensure_path_unmounted`, `ensure_ex_path_unmounted`: true is the result 0.
  unfoldable pub unmount_at : Bytes → M D Bool
  unfolding rescan unmount
  unmount_at mount_point = rescan >>= λ scanned s.
      if not scanned
      then some (false, s)
      else elim (find_mounted_volume_by_mount_point mount_point s.mounts)
          as (λ _. Option (Bool × RootsState D)) [ none ↦ some (true, s) | some mv ↦ unmount mv s ]

  abbrev pub is_ramdisk : Volume → Bool
  is_ramdisk v = str_eq v.fs_type (codes "ramdisk")

  unfoldable pub ensure_path_unmounted : Bytes → M D Bool
  unfolding volume_for_path unmount_at
  ensure_path_unmounted path = volume_for_path path >>= λ found. elim found as (λ _. M D Bool) [
    | none ↦ pure false
    | some v ↦ if is_ramdisk v then pure false else unmount_at v.mount_point
  ]

  unfoldable pub ensure_ex_path_unmounted : Bytes → M D Bool
  unfolding unmount_at
  ensure_ex_path_unmounted path = unmount_at path

  -- `get_mounted_device_from_path`
  unfoldable pub get_mounted_device_from_path : Bytes → M D (Option Bytes)
  unfolding rescan
  get_mounted_device_from_path path = rescan >>= λ scanned s.
      if not scanned
      then some (none, s)
      else elim (find_mounted_volume_by_mount_point path s.mounts)
          as (λ _. Option (Option Bytes × RootsState D)) [
            | none ↦ some (none, s)
            | some (slot, v) ↦ some (some v.device, s)
          ]
