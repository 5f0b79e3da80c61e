-- ===== src/ApplyPatch/Apply/Tests.antt =====
-- applypatch/applypatch.c, applypatch/freecache.c: runs of `applypatch` on a small disk, and the
-- theorems at them.
use screenbox_rockchip_recov.Prelude.{
  ◌≡◌, ◌≢◌, ◌⊎◌, refl, true, false, [], ◌∷◌, ◌++◌, List, some, none, arith, inl, inr, Bool-cases,
  if◌then◌else◌, length, take, drop, replicate, take_all, append-nil, append_assoc, sym,
  length-replicate,
}
use screenbox_rockchip_recov.Prelude.Int.{pos}
use screenbox_rockchip_recov.Prelude.Bytes.{Bytes, codes, str_eq, str_eq_iff, starts_with}
use screenbox_rockchip_recov.Patch.{bz_ok, returns, fails}
use screenbox_rockchip_recov.ImagePatch.{
  update, apply_chunk, read_chunk, read_raw, chunk_loop, apply_image_patch,
}
use screenbox_rockchip_recov.ImagePatch.Numbers.{read4}
use screenbox_rockchip_recov.Patch.Outcomes.{Allocates}
use screenbox_rockchip_recov.Verifier.{Mincrypt}
use screenbox_rockchip_recov.Verifier.Hashing.{Streams}
use screenbox_rockchip_recov.Edify.Run.{Value, val_blob}
use screenbox_rockchip_recov.Mtd.Flash.{good, Flash}
use screenbox_rockchip_recov.Roots.{System, RootsState}
use screenbox_rockchip_recov.ApplyPatch.Digest.{
  parse_sha1, hex_of, parse_digits, hex_value, find_matching_patch, is_match,
}
use screenbox_rockchip_recov.ApplyPatch.Load.{
  load_partition_contents, tokens, type_of, count_colons, read_pairs, load_named,
}
use screenbox_rockchip_recov.Edify.Functions.Strtol.{
  strtol, read_digits, unsigned_part, after_space,
}
use screenbox_rockchip_recov.ApplyPatch.Check.{
  cache_temp_source, load_file, load_file_contents, is_partition,
}
use screenbox_rockchip_recov.ApplyPatch.Sinks.{wrote_some, file_sink, sink_loop}
use screenbox_rockchip_recov.ApplyPatch.Cache.{
  Disk, cache_dir, make_free_space_on_cache, free_space_for_file, find_expendable_files,
  eliminate_open_files, files_of, regular_files, drop_open, drop_of_process, drop_links, drop_link,
  drop_file, is_numeric, make_space, delete_files,
}
use screenbox_rockchip_recov.ApplyPatch.Cache.Expendable.{IsExpendable}
use screenbox_rockchip_recov.ApplyPatch.Cache.Deletes.{
  Deletes, IsAnswer, make_free_space_on_cache-Deletes,
}
use screenbox_rockchip_recov.ApplyPatch.Apply.{
  Stat, Host, Arguments, target_of, selected, choose, Selection, unloaded, load, patch_at,
  choose_copy, choose_source, load_source, before_slash, target_fs_of, sink_source, set_owner,
  save_file_contents,
}
use screenbox_rockchip_recov.ApplyPatch.Apply.Posix.{Posix}
use screenbox_rockchip_recov.ApplyPatch.Apply.Install.{
  applypatch, clean_up, replace_target, install_file, install_partition, install, patch_selected,
  act,
}
use screenbox_rockchip_recov.ApplyPatch.Apply.Rounds.{
  back_up, move_source, copied, prepare, run_patch, patch_partition, patch_file, produce, conclude,
  carry_on, rounds,
}
use screenbox_rockchip_recov.ApplyPatch.Apply.Installed.{IsInstalled, applypatch-IsInstalled}
use screenbox_rockchip_recov.ApplyPatch.Apply.There.{IsThere}
use screenbox_rockchip_recov.ApplyPatch.Apply.LostCopy.{applypatch_loses_copy}

-- The bytes of each file.
abbrev Contents : Type 0
Contents = Bytes → Bytes

put : Contents → Bytes → Bytes → Contents
put d f bytes g = if str_eq g f then bytes else d g

put_same : (d : Contents) (f bytes : Bytes) → put d f bytes f ≡ bytes
unfolding put
put_same d f bytes = let same = (str_eq_iff f f).1 refl in rw same refl

put_other : (d : Contents) (f g bytes : Bytes) → f ≢ g → put d f bytes g ≡ d g
unfolding put
put_other d f g bytes apart = elim (Bool-cases (str_eq g f)) [
  | inl same ↦ absurd (apart (sym ((str_eq_iff g f).0 same)))
  | inr differs ↦ rw differs refl
]

wrote_none : (bytes : Bytes) → wrote_some (pos (length bytes)) ≡ none → bytes ≡ []
wrote_none [] e = refl
wrote_none (b ∷ bytes) e = ground (arith, e)

-- A disk on which nothing fails, with a million bytes free.
abbrev disk : Disk Contents
disk = record {
  statfs = λ d f. some (1024, 1000);
  opendir = λ d f. none;
  is_regular = λ d f. false;
  readlink = λ d f. none;
  unlink = λ d f. put d f [];
  create = λ d f. (true, put d f []);
  write = λ d f bytes. (pos (length bytes), put d f (d f ++ bytes));
  close = λ d f. d;
  chmod = λ d f mode. (true, d);
  chown = λ d f uid gid. (true, d);
  rename = λ d f g. (true, put d g (d f));
}

disk-Posix : Posix disk (λ d f. d f)
disk-Posix = record {
  truncates = λ d f opened. put_same d f [];
  appends = λ f d bytes. (
    length bytes,
    omega arith,
    rw (take_all (length bytes) bytes (omega arith)) (put_same d f (d f ++ bytes)),
    refl,
  );
  closes = λ d f. refl;
  chmods = λ d f mode. refl;
  chowns = λ d f uid gid. refl;
  renames = λ d f g ok. put_same d g (d f);
  unlinks = λ d f g apart. put_other d f g [] apart;
}

abbrev lib : Mincrypt Bytes Bytes Bytes
lib = record {
  sha_init = [];
  sha_update = λ c b. c ++ b;
  sha_final = λ c. take 20 (c ++ replicate 20 0);
  rsa_num_bytes = 4;
  rsa_verify = λ k s d. false;
}

lib-Streams : Streams lib
lib-Streams = (λ c. append-nil c, λ c a b. append_assoc c a b)

abbrev no_flash : Flash Contents
no_flash = record {
  tell = λ d. (none, d);
  seek = λ d at. (false, d);
  read = λ d n. (none, d);
  write = λ d b. (false, d);
  erase = λ d at n. (false, d);
  bad_block = λ d at. (good, d);
  ecc_stats = λ d. (none, d);
  close = λ d. (true, d);
}

abbrev system : System Contents
system = record {
  proc_mounts = λ d. none;
  proc_mtd = λ d. none;
  access = λ d p. false;
  readlink = λ d p. none;
  umount = λ d p. (true, d);
  mount = λ d ro device mount_point fs_type. (true, d);
  mkdir = λ d p. d;
  stat = λ d p. true;
  add_execute = λ d p. (true, d);
  sd_point = λ d. none;
  set_flash_point = λ d. d;
  make_fs = λ d fs_type device mount_point. (true, d);
  rk_check_and_resizefs = λ d device. (true, d);
  open_mtd = λ d n. none;
  malloc = λ d n. none;
  flash = no_flash;
}

abbrev stat_644 : Stat
stat_644 = record { st_mode = 0o644; st_uid = 0; st_gid = 0 }

-- Each file holds three bytes; a partition cannot be opened.
abbrev host : Host Contents Bytes Bytes Bytes Bytes Bytes
host = record {
  lib = lib;
  reader = record { open_partition = λ type name. fails; read = λ r n. ([], r) };
  qsort = λ pairs. pairs;
  files = record { stat = λ name. some 3; fopen = λ name. true; fread = λ name n. 1 ∷ 2 ∷ 3 ∷ [] };
  stat_of = λ name. stat_644;
  bz = record { decompress_init = λ bs. bs; decompress = λ s n. (bz_ok, (take n s, drop n s)) };
  z = record {
    inflate_init2 = λ bs. some bs;
    inflate = λ s n. (true, take n s);
    deflate_init2 = λ _ _ _ _ _ bs. bs;
    deflate = λ s n. (true, (take n s, drop n s));
  };
  fuel = 9;
  malloc = λ n. some (replicate n 0);
  disk = disk;
  io = system;
  emmc_io = record { fopen = λ d name. none; fwrite = λ d b. (false, d); fclose = λ d. (false, d) };
  scanned = true;
  stale_size = 1;
  stale_st = stat_644;
}

-- An image patch of one raw chunk.
abbrev patch : Value
patch = record {
  type = val_blob;
  size = 22;
  bytes = codes "IMGDIFF2" ++ (1 ∷ 0 ∷ 0 ∷ 0 ∷ 3 ∷ 0 ∷ 0 ∷ 0 ∷ 2 ∷ 0 ∷ 0 ∷ 0 ∷ 7 ∷ 8 ∷ []);
}

abbrev wanted : Bytes
wanted = 7 ∷ 8 ∷ replicate 18 0

abbrev arguments_for : Bytes → Arguments
arguments_for name = record {
  source_filename = name;
  target_filename = codes "-";
  target_sha1_str = hex_of wanted;
  target_size = 2;
  patch_sha1_str = hex_of (1 ∷ 2 ∷ 3 ∷ replicate 17 0) ∷ [];
  patch_data = patch ∷ [];
}

abbrev at_file : Arguments
at_file = arguments_for (codes "/app")

abbrev at_partition : Arguments
at_partition = arguments_for (codes "MTD:boot:2:00")

abbrev start : Contents
start f = 1 ∷ 2 ∷ 3 ∷ []

abbrev begin : RootsState Contents
begin = record { device_volumes = []; mount_point = []; mounts = []; mtd = none; sys = start }

abbrev output : Contents
output = put (put start (codes "/app.patch") []) (codes "/app.patch") (7 ∷ 8 ∷ [])

abbrev end : RootsState Contents
end = record begin { sys = put output (codes "/app") (7 ∷ 8 ∷ []) }

malloc-Allocates : Allocates host.bz host.malloc
malloc-Allocates n buf e =
    let same : replicate n 0 ≡ buf = ground (arith, e) in rw (sym same) (length-replicate n 0)

parsed : parse_sha1 (hex_of wanted) ≡ some wanted
unfolding parse_sha1 parse_digits hex_value
parsed = refl

runs : applypatch host at_file begin ≡ returns (true, end)
unfolding applypatch choose choose_copy choose_source load_source load patch_at act patch_selected
    install install_file install_partition replace_target clean_up set_owner rounds carry_on
    conclude produce patch_partition patch_file run_patch prepare copied back_up move_source
    target_of target_fs_of before_slash save_file_contents sink_source free_space_for_file
    find_matching_patch is_match parse_sha1 parse_digits hex_value str_eq starts_with load_file
    load_file_contents apply_image_patch chunk_loop apply_chunk read_chunk read_raw update read4
    file_sink sink_loop put make_free_space_on_cache
runs = refl

apart : cache_temp_source ≢ target_of at_file
unfolding target_of str_eq
apart e = let same = (str_eq_iff cache_temp_source (codes "/app")).1 e in ground (arith, same)

applypatch-IsInstalled_example :
    IsThere host at_file wanted
    ⊎ IsInstalled host at_file lib-Streams malloc-Allocates
        (λ d f. d f)
        disk-Posix
        apart
        wanted
        begin
        end
applypatch-IsInstalled_example =
    applypatch-IsInstalled host at_file lib-Streams malloc-Allocates (λ d f. d f) disk-Posix apart
      wanted begin end (λ sel _ _ d f bytes failed. wrote_none bytes failed) parsed runs

abbrev copy_selection : Selection
copy_selection = record {
  source = unloaded;
  to_use = record { bytes = 1 ∷ 2 ∷ 3 ∷ []; sha1 = 1 ∷ 2 ∷ 3 ∷ replicate 17 0; st = stat_644 };
  patch = patch;
  uses_source = false;
}

chosen : choose host at_partition wanted ≡ returns (selected copy_selection)
unfolding choose choose_copy choose_source load_source load patch_at target_of find_matching_patch
    is_match parse_sha1 parse_digits hex_value str_eq starts_with load_file load_file_contents
    load_partition_contents tokens type_of count_colons read_pairs load_named strtol read_digits
    unsigned_part after_space
chosen = refl

is_partition_target : is_partition (target_of at_partition) ≡ true
unfolding target_of str_eq starts_with
is_partition_target = refl

has_space : (make_free_space_on_cache disk 1 start).0 ≡ true
unfolding make_free_space_on_cache free_space_for_file
has_space = refl

applypatch_loses_copy_example :
    (s' : RootsState Contents) × (applypatch host at_partition begin ≡ returns (false, s'))
    × (s'.sys cache_temp_source ≡ [])
applypatch_loses_copy_example =
    applypatch_loses_copy host at_partition (λ d f. d f) disk-Posix wanted copy_selection begin
      parsed is_partition_target chosen refl (omega arith) has_space refl

-- A full disk, on which ten bytes are free when the log is gone; process 1 has another file open.
abbrev full_disk : Disk Contents
full_disk = record disk {
  statfs = λ d f. some (1, if str_eq (d (codes "/cache/log")) [] then 10 else 0);
  opendir = λ d f.
      if str_eq f cache_dir
      then some (codes "open" ∷ codes "log" ∷ codes "saved.file" ∷ [])
      else (if str_eq f (codes "/proc")
          then some (codes "1" ∷ codes "self" ∷ [])
          else (if str_eq f (codes "/proc/1/fd/") then some (codes "3" ∷ []) else none));
  is_regular = λ d f. true;
  readlink = λ d f. if str_eq f (codes "/proc/1/fd/3") then some (codes "/cache/open") else none;
}

make_free_space_on_cache-Deletes_example :
    ((fs : List Bytes) × Deletes full_disk 5
        (IsExpendable full_disk start)
        fs
        start
        (make_free_space_on_cache full_disk 5 start).1)
    × IsAnswer full_disk 5 (make_free_space_on_cache full_disk 5 start)
make_free_space_on_cache-Deletes_example = make_free_space_on_cache-Deletes full_disk 5 start

log_deleted : make_free_space_on_cache full_disk 5 start ≡ (true, put start (codes "/cache/log") [])
unfolding make_free_space_on_cache free_space_for_file find_expendable_files eliminate_open_files
    files_of regular_files drop_open drop_of_process drop_links drop_link drop_file is_numeric
    make_space delete_files str_eq starts_with put
log_deleted = refl
