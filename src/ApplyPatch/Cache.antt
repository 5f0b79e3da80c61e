-- ===== src/ApplyPatch/Cache.antt =====
-- applypatch/freecache.c: the space on the cache, and the files that may be deleted to make more;
-- with `FreeSpaceForFile` of applypatch.c. A size_t has 64 bits. FILENAME_MAX is 4096.
pub mod Files
pub mod Expendable
pub mod Deletes
use screenbox_rockchip_recov.Prelude.{
  ℕ, ◌+◌, ◌-◌, ◌*◌, ◌%◌, ◌^◌, Bool, true, false, ◌&&◌, ◌||◌, not, List, [], ◌∷◌, ◌++◌, Option, none,
  some, ltb, leb, if◌then◌else◌, length,
}
use screenbox_rockchip_recov.Prelude.Int.{ℤ}
use screenbox_rockchip_recov.Prelude.Bytes.{Bytes, codes, str_eq, starts_with}
use screenbox_rockchip_recov.ApplyPatch.Check.{cache_temp_source}

-- The calls on files, on states `D` of the system.
pub record Disk (D : Type 0) : Type 0 where
  -- `statfs`: `f_bsize` and `f_bfree`
  pub statfs : D → Bytes → Option (ℕ × ℕ)
  -- `opendir`, and the names that `readdir` gives
  pub opendir : D → Bytes → Option (List Bytes)
  -- `stat(path, &st) == 0 && S_ISREG(st.st_mode)`
  pub is_regular : D → Bytes → Bool
  -- `readlink(path, link, FILENAME_MAX - 1)`; `none` is -1
  pub readlink : D → Bytes → Option Bytes
  pub unlink : D → Bytes → D
  -- `open(path, O_WRONLY | O_CREAT | O_TRUNC) >= 0`
  pub create : D → Bytes → Bool × D
  -- `write` to the file that was opened by this path
  pub write : D → Bytes → Bytes → ℤ × D
  -- `fsync` and `close` of it
  pub close : D → Bytes → D
  -- `chmod(path, mode) == 0`, `chown(path, uid, gid) == 0`, `rename(from, to) == 0`
  pub chmod : D → Bytes → ℕ → Bool × D
  pub chown : D → Bytes → ℕ → ℕ → Bool × D
  pub rename : D → Bytes → Bytes → Bool × D

abbrev pub cache_dir : Bytes
cache_dir = codes "/cache"

-- `dirs`
abbrev pub dirs : List Bytes
dirs = cache_dir ∷ codes "/cache/recovery/otatest" ∷ []

-- `path`, of a name in a directory
abbrev pub path_in : Bytes → Bytes → Bytes
path_in dir name = dir ++ (b'/' ∷ name)

-- `isdigit` of each byte
unfoldable pub is_numeric : Bytes → Bool
is_numeric [] = true
is_numeric (c ∷ s) = leb b'0' c && leb c b'9' && is_numeric s

-- "/proc/<name>/fd/"
abbrev pub fd_dir : Bytes → Bytes
fd_dir name = codes "/proc/" ++ (name ++ codes "/fd/")

-- The loop over `files`: those that are the link are dropped.
unfoldable pub drop_file : Bytes → List (Option Bytes) → List (Option Bytes)
drop_file link [] = []
drop_file link (none ∷ files) = none ∷ drop_file link files
drop_file link (some f ∷ files) = (if str_eq f link then none else some f) ∷ drop_file link files

module _ {D : Type 0} (disk : Disk D) where
  -- `FreeSpaceForFile`: on an error it returns -1 as a size_t.
  unfoldable pub free_space_for_file : D → Bytes → ℕ
  free_space_for_file d filename = elim (disk.statfs d filename) [
    | none ↦ 2 ^ 64 - 1
    | some (f_bsize, f_bfree) ↦ (f_bsize * f_bfree) % 2 ^ 64
  ]

  -- What one link drops.
  unfoldable pub drop_link : Option Bytes → List (Option Bytes) → List (Option Bytes)
  unfolding drop_file
  drop_link none files = files
  drop_link (some link) files =
      if starts_with (codes "/cache/") link then drop_file link files else files

  -- The loop over the links of a process.
  unfoldable pub drop_links : D → Bytes → List Bytes → List (Option Bytes) → List (Option Bytes)
  unfolding drop_link
  drop_links d path [] files = files
  drop_links d path (fd ∷ fds) files =
      drop_links d path fds (drop_link (disk.readlink d (path ++ fd)) files)

  unfoldable pub drop_of_process : D → Bytes → List (Option Bytes) → List (Option Bytes)
  unfolding drop_links
  drop_of_process d name files = elim (disk.opendir d (fd_dir name)) [
    | none ↦ files
    | some fds ↦ drop_links d (fd_dir name) fds files
  ]

  -- The loop over the names in /proc.
  unfoldable pub drop_open : D → List Bytes → List (Option Bytes) → List (Option Bytes)
  unfolding drop_of_process
  drop_open d [] files = files
  drop_open d (name ∷ names) files =
      drop_open d names (if is_numeric name then drop_of_process d name files else files)

  -- `EliminateOpenFiles`; `none` is -1.
  unfoldable pub eliminate_open_files : D → List (Option Bytes) → Option (List (Option Bytes))
  unfolding drop_open
  eliminate_open_files d files = elim (disk.opendir d (codes "/proc")) [
    | none ↦ none
    | some names ↦ some (drop_open d names files)
  ]

  -- "Look for regular files in the directory"
  unfoldable pub regular_files : D → Bytes → List Bytes → List (Option Bytes)
  regular_files d dir [] = []
  regular_files d dir (name ∷ names) =
      let rest = regular_files d dir names in
      let path = path_in dir name in
      if str_eq path cache_temp_source || not (disk.is_regular d path)
      then rest
      else some path ∷ rest

  -- The loop over the directories.
  unfoldable pub files_of : D → List Bytes → List (Option Bytes)
  unfolding regular_files
  files_of d [] = []
  files_of d (dir ∷ more) = elim (disk.opendir d dir) [
    | none ↦ files_of d more
    | some names ↦ regular_files d dir names ++ files_of d more
  ]

  -- `FindExpendableFiles`; `none` is -1. A file that is open leaves `none` (NULL) in its place.
  unfoldable pub find_expendable_files : D → Option (List (Option Bytes))
  unfolding files_of eliminate_open_files
  find_expendable_files d = eliminate_open_files d (files_of d dirs)

  -- The loop that deletes, with `free_now`: what is free at its end, and the system.
  unfoldable pub delete_files : ℕ → List (Option Bytes) → ℕ → D → ℕ × D
  unfolding free_space_for_file
  delete_files bytes_needed [] free_now d = (free_now, d)
  delete_files bytes_needed (none ∷ names) free_now d = delete_files bytes_needed names free_now d
  delete_files bytes_needed (some name ∷ names) free_now d =
      let d' = disk.unlink d name in
      let more = delete_files bytes_needed names (free_space_for_file d' cache_dir) d' in
      if ltb free_now bytes_needed then more else (free_now, d)

  -- Without an expendable file (not even an open one), it fails.
  unfoldable pub make_space : ℕ → List (Option Bytes) → D → Bool × D
  unfolding delete_files
  make_space bytes_needed [] d = (false, d)
  make_space bytes_needed (name ∷ names) d =
      let (free_now, d') =
        delete_files bytes_needed (name ∷ names) (free_space_for_file d cache_dir) d in
      (leb bytes_needed free_now, d')

  -- `MakeFreeSpaceOnCache`: true is the result 0.
  unfoldable pub make_free_space_on_cache : ℕ → D → Bool × D
  unfolding make_space
  make_free_space_on_cache bytes_needed d =
      let made = elim (find_expendable_files d) as (λ _. Bool × D) [
        | none ↦ (false, d)
        | some names ↦ make_space bytes_needed names d
      ] in
      if leb bytes_needed (free_space_for_file d cache_dir) then (true, d) else made

  -- `CacheSizeCheck`: true is the result 0.
  unfoldable pub cache_size_check : ℕ → D → Bool × D
  unfolding make_free_space_on_cache
  cache_size_check bytes d = make_free_space_on_cache bytes d
