-- ===== src/Mounts.antt =====
-- mtdutils/mounts.c: the table of mounted volumes. Bytes of /proc/mounts are not zero.
pub mod Laws
pub mod Unmount
mod Tests
use screenbox_rockchip_recov.Prelude.{
  ℕ, zero, suc, ◌+◌, Bool, true, false, List, [], ◌∷◌, ◌++◌, Option, none, some, ltb, if◌then◌else◌,
  length, set, take,
}
use screenbox_rockchip_recov.Prelude.Bytes.{Bytes, str_eq}
use screenbox_rockchip_recov.Prelude.Scanf.{◌>>=◌, scan_word, eat_line}

-- `MountedVolume`
pub record MountedVolume : Type 0 where
  pub device : Bytes
  pub mount_point : Bytes
  pub filesystem : Bytes
  pub flags : Bytes

-- The first `volume_count` slots of the table; `none` was unmounted and has NULL for its strings.
abbrev pub MountsState : Type 0
MountsState = List (Option MountedVolume)

abbrev pub volumes_allocd : ℕ
volumes_allocd = 32

-- `sscanf(bufp, "%63s %63s %63s %127s", ...) == 4`
unfoldable pub scan_volume : Bytes → Option MountedVolume
unfolding scan_word
scan_volume bufp = scan_word 63 bufp >>= λ device. scan_word 63 device.1 >>= λ mount_point.
    scan_word 63 mount_point.1 >>= λ filesystem. scan_word 127 filesystem.1 >>= λ flags.
    some (record {
      device = device.0;
      mount_point = mount_point.0;
      filesystem = filesystem.0;
      flags = flags.0;
    })

-- The loop over the lines, each of at least a byte: `none` is a write outside of the table.
unfoldable pub scan_lines : ℕ → Bytes → MountsState → Option MountsState
unfolding scan_volume eat_line
scan_lines zero bufp volumes = some volumes
scan_lines (suc fuel) [] volumes = some volumes
scan_lines (suc fuel) (b ∷ bufp) volumes =
    let rest = eat_line (b ∷ bufp) in
    let skipped = scan_lines fuel rest volumes in
    elim (scan_volume (b ∷ bufp)) as (λ _. Option MountsState) [
      | none ↦ skipped
      | some v ↦
          let stored = scan_lines fuel rest (volumes ++ some v ∷ []) in
          if ltb (length volumes) volumes_allocd then stored else none
    ]

-- `sizeof(buf) - 1`
abbrev pub read_size : ℕ
read_size = 2047

-- `scan_mounted_volumes`, of the bytes of /proc/mounts, or `none` where opening or reading fails: the
-- result 0, and the table. One call of `read` gives as many bytes as the buffer holds.
unfoldable pub scan_mounted_volumes : Option Bytes → Option (Bool × MountsState)
unfolding scan_lines
scan_mounted_volumes none = some (false, [])
scan_mounted_volumes (some contents) =
    let buf = take read_size contents in
    scan_lines (length buf) buf [] >>= λ volumes. some (true, volumes)

-- `find_mounted_volume_by_device`: the slot and the volume.
unfoldable pub find_mounted_volume_by_device : Bytes → MountsState → Option (ℕ × MountedVolume)
find_mounted_volume_by_device device [] = none
find_mounted_volume_by_device device (none ∷ vs) =
    find_mounted_volume_by_device device vs >>= λ f. some (suc f.0, f.1)
find_mounted_volume_by_device device (some v ∷ vs) =
    let further = find_mounted_volume_by_device device vs >>= λ f. some (suc f.0, f.1) in
    if str_eq v.device device then some (0, v) else further

-- `find_mounted_volume_by_mount_point`
unfoldable pub find_mounted_volume_by_mount_point : Bytes → MountsState → Option (ℕ × MountedVolume)
find_mounted_volume_by_mount_point mount_point [] = none
find_mounted_volume_by_mount_point mount_point (none ∷ vs) =
    find_mounted_volume_by_mount_point mount_point vs >>= λ f. some (suc f.0, f.1)
find_mounted_volume_by_mount_point mount_point (some v ∷ vs) =
    let further = find_mounted_volume_by_mount_point mount_point vs >>= λ f. some (suc f.0, f.1) in
    if str_eq v.mount_point mount_point then some (0, v) else further

-- `unmount_mounted_volume` of a slot that is in use, where `ret` is whether umount returns 0.
unfoldable pub unmount_mounted_volume : Bool → ℕ → MountsState → MountsState
unmount_mounted_volume ret slot volumes = if ret then set volumes slot none else volumes
