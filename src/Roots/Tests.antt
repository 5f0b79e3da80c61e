-- ===== src/Roots/Tests.antt =====
-- roots.c: runs on a small system, and the theorems at them.
use screenbox_rockchip_recov.Prelude.{◌≡◌, refl, true, false, [], ◌∷◌, some, none, arith}
use screenbox_rockchip_recov.Prelude.Bytes.{Bytes, codes, str_eq, starts_with, is_substring}
use screenbox_rockchip_recov.Prelude.Scanf.{scan_word, skip_space, span, eat_line}
use screenbox_rockchip_recov.Mounts.{
  MountedVolume, scan_volume, scan_mounted_volumes, find_mounted_volume_by_mount_point,
  unmount_mounted_volume,
}
use screenbox_rockchip_recov.Mounts
use screenbox_rockchip_recov.Mtd.Flash.{good}
use screenbox_rockchip_recov.Roots.{
  System, RootsState, up_to_slash, directory_of, find_volume, link_of, get_link_path,
  volume_for_path, rescan, unmount, unmount_at, ensure_path_unmounted,
}
use screenbox_rockchip_recov.Roots.Find.{Answers, volume_for_path-IsFirst}
use screenbox_rockchip_recov.Roots.Fstab.{
  fgets, leading, cut_at, skip_blank, cut_field, fields_of, line_of, load_lines, ramdisk,
  load_volume_table,
}
use screenbox_rockchip_recov.Roots.Fstab.Stops.{fstab_with, load_volume_table_stops}
use screenbox_rockchip_recov.Roots.Fstab.Table.{
  Fields, fstab_of, volume_of, IsEntry, load_volume_table-fstab_of,
}
use screenbox_rockchip_recov.Roots.Format.{
  on_unmounted, format_by_type, make_filesystem, format_volume, resize_by_type, resize_volume,
}
use screenbox_rockchip_recov.Roots.Mount.{
  mount_sdcard, mount_block_device, mount_volume, scan_for, ensure_path_mounted,
}
use screenbox_rockchip_recov.Roots.Mounted.{IsReachable, ensure_path_mounted-IsReachable}
use screenbox_rockchip_recov.Roots.Success.{WorkedOn, format_volume-WorkedOn}

open_all : Unit {0}
unfolding str_eq starts_with is_substring scan_word skip_space span eat_line scan_volume
    Mounts.scan_lines scan_mounted_volumes find_mounted_volume_by_mount_point unmount_mounted_volume
    up_to_slash directory_of find_volume link_of get_link_path volume_for_path rescan unmount
    unmount_at ensure_path_unmounted fgets leading cut_at skip_blank cut_field fields_of line_of
    load_lines load_volume_table on_unmounted format_by_type make_filesystem format_volume
    resize_by_type resize_volume
open_all = tt

abbrev fields : Fields
fields = record {
  file_system = codes "/dev/data";
  mount_point = codes "/data";
  fs_type = codes "ext4";
  option = codes "rw";
  dump = codes "0";
  pass = codes "0";
}

fields-IsEntry : IsEntry fields
fields-IsEntry = (
  (omega arith, (refl, (refl, (refl, (refl, (refl, (refl, (refl, (refl, (refl, tt)))))))))),
  (omega arith, (refl, (refl, (refl, (refl, (refl, tt)))))),
  (omega arith, (refl, (refl, (refl, (refl, tt))))),
  (omega arith, (refl, (refl, tt))),
  (omega arith, (refl, tt)),
  (omega arith, (refl, tt)),
  refl,
  omega arith,
)

load_volume_table-fstab_of_example :
    load_volume_table (some (fstab_of (fields ∷ []))) ≡ ramdisk ∷ volume_of fields ∷ []
load_volume_table-fstab_of_example = load_volume_table-fstab_of (fields ∷ []) (fields-IsEntry, tt)

loaded :
    load_volume_table
      (some (codes "# volumes\n\n/dev/data\t/data\text4\trw\t0\t0\n/dev/lost\t/lost"))
    ≡ ramdisk ∷ volume_of fields ∷ []
unfolding open_all
loaded = refl

load_volume_table_stops_example :
    load_volume_table (some (fstab_with (fields ∷ []) (codes "/a\t/b") (fstab_of (fields ∷ []))))
    ≡ ramdisk ∷ volume_of fields ∷ []
load_volume_table_stops_example =
    load_volume_table_stops (fields ∷ []) (codes "/a\t/b") (fstab_of (fields ∷ []))
      (fields-IsEntry, tt) (refl, refl) (refl, (refl, (refl, (refl, (refl, tt))))) (omega arith)
      (omega arith)

-- A system whose state is the text of /proc/mounts; a `umount` empties it, a format leaves a mark.
abbrev system : System Bytes
system = record {
  proc_mounts = λ d. some d;
  proc_mtd = λ d. none;
  access = λ d p. false;
  readlink = λ d p. none;
  umount = λ d p. (true, []);
  mount = λ d ro device mount_point fs_type. (true, d);
  mkdir = λ d p. d;
  stat = λ d p. true;
  add_execute = λ d p. (true, d);
  sd_point = λ d. none;
  set_flash_point = λ d. d;
  make_fs = λ d fs_type device mount_point. (true, 1 ∷ d);
  rk_check_and_resizefs = λ d device. (true, 2 ∷ d);
  open_mtd = λ d n. none;
  malloc = λ d n. none;
  flash = record {
    tell = λ d. (none, d);
    seek = λ d n. (false, d);
    read = λ d n. (none, d);
    write = λ d b. (false, d);
    erase = λ d n m. (false, d);
    bad_block = λ d n. (good, d);
    ecc_stats = λ d. (none, d);
    close = λ d. (false, d);
  };
}

abbrev mounted : Bytes
mounted = codes "/dev/data /data ext4 rw 0 0\n"

abbrev state : RootsState Bytes
state = record {
  device_volumes = ramdisk ∷ volume_of fields ∷ [];
  mount_point = [];
  mounts = [];
  mtd = none;
  sys = mounted;
}

abbrev done : Bytes → RootsState Bytes
done d = record state { mounts = none ∷ []; sys = d }

-- A link at the root, to a directory on the volume of /data.
abbrev linked : System Bytes
linked = record system { readlink = λ d p. some (codes "/data/x") }

by_link :
    volume_for_path linked (codes "/dat1") state
    ≡ some (some (volume_of fields), record state { mount_point = codes "/data/x" })
unfolding open_all
by_link = refl

volume_for_path-IsFirst_example :
    Answers linked
      (codes "/dat1")
      (some (codes "/data/x"))
      state
      (volume_for_path linked (codes "/dat1") state)
volume_for_path-IsFirst_example =
    volume_for_path-IsFirst linked (codes "/dat1") state (some (codes "/data/x")) (omega arith) refl
      (omega arith)

formatted : format_volume system (codes "/data") state ≡ some (true, done (1 ∷ []))
unfolding open_all
formatted = refl

format_volume-WorkedOn_example :
    WorkedOn system (codes "/data") (format_by_type system) state (done (1 ∷ []))
format_volume-WorkedOn_example =
    format_volume-WorkedOn system (codes "/data") state (done (1 ∷ [])) formatted

resized : resize_volume system (codes "/data") state ≡ some (true, done (2 ∷ []))
unfolding open_all
resized = refl

-- The first mount of /data on a system without mounted volumes.
abbrev bare : RootsState Bytes
bare = record state { sys = [] }

ensured : ensure_path_mounted system (codes "/data") bare ≡ some (true, bare)
unfolding open_all ensure_path_mounted scan_for mount_volume mount_block_device mount_sdcard
ensured = refl

ensure_path_mounted-IsReachable_example : IsReachable system (codes "/data") bare bare
ensure_path_mounted-IsReachable_example =
    ensure_path_mounted-IsReachable system (codes "/data") bare bare ensured
