-- ===== src/ApplyPatch/Apply.antt =====
-- applypatch/applypatch.c: `applypatch`, which patches a file or a partition, with the copy of the
-- source that it saves in the cache, and `SaveFileContents`.
pub mod Rounds
pub mod Install
pub mod Posix
pub mod Hashed
pub mod There
pub mod Installed
pub mod LostCopy
mod Tests
use screenbox_rockchip_recov.Prelude.{
  ℕ, zero, suc, ◌*◌, ◌/◌, ◌%◌, ◌^◌, Bool, true, false, ◌&&◌, ◌||◌, not, List, [], ◌∷◌, ◌++◌, Option,
  none, some, ltb, leb, ◌==◌, if◌then◌else◌, length, take, get_elem?,
}
use screenbox_rockchip_recov.Prelude.Int.{ℤ, pos, negsuc}
use screenbox_rockchip_recov.Prelude.Bytes.{Bytes, codes, str_eq}
use screenbox_rockchip_recov.Patch.{
  Bzip2, Outcome, returns, fails, overruns, runs_on, ◌>>=◌, apply_bs_diff_patch,
}
use screenbox_rockchip_recov.ImagePatch.{Zlib, Target, Output, apply_image_patch}
use screenbox_rockchip_recov.Verifier.{Mincrypt}
use screenbox_rockchip_recov.Edify.Run.{Value, val_blob}
use screenbox_rockchip_recov.Roots.{System, RootsState}
use screenbox_rockchip_recov.ApplyPatch.Digest.{parse_sha1, find_matching_patch}
use screenbox_rockchip_recov.ApplyPatch.Load.{Pair, Reader}
use screenbox_rockchip_recov.ApplyPatch.Check.{
  Files, cache_temp_source, is_partition, load_file_contents,
}
use screenbox_rockchip_recov.ApplyPatch.Sinks.{file_sink, MemorySinkInfo, memory_sink, taken}
use screenbox_rockchip_recov.ApplyPatch.Write.{Emmc, write_to_partition}
use screenbox_rockchip_recov.ApplyPatch.Cache.{Disk, free_space_for_file, make_free_space_on_cache}

-- The fields of `struct stat` that are used.
pub record Stat : Type 0 where
  pub st_mode : ℕ
  pub st_uid : ℕ
  pub st_gid : ℕ

-- `FileContents`; its size is that of the data.
pub record FileContents : Type 0 where
  pub bytes : Bytes
  pub sha1 : Bytes
  pub st : Stat

-- `source_file`: loaded; with NULL for its data; or loaded, and then freed.
pub data Source : Type 0 where
  loaded : FileContents → Source
  unloaded : Source
  freed : FileContents → Source

-- What the function calls, and the static variables it reads.
pub record Host (D S Z Key Ctx R : Type 0) : Type 0 where
  pub lib : Mincrypt Key Ctx Bytes
  pub reader : Reader R
  pub qsort : List Pair → List Pair
  -- the files as they are when the function is called, and what `stat` says of them
  pub files : Files
  pub stat_of : Bytes → Stat
  pub bz : Bzip2 S
  pub z : Zlib Z
  -- a bound on the rounds of each loop of the two patch functions, and `malloc`
  pub fuel : ℕ
  pub malloc : ℕ → Option Bytes
  pub disk : Disk D
  pub io : System D
  pub emmc_io : Emmc D
  -- `mtd_partitions_scanned`
  pub scanned : Bool
  -- what `source_file.size` and `source_file.st` hold if nothing was loaded
  pub stale_size : ℕ
  pub stale_st : Stat

-- The parameters; `num_patches` is the length of the lists.
pub record Arguments : Type 0 where
  pub source_filename : Bytes
  pub target_filename : Bytes
  pub target_sha1_str : Bytes
  pub target_size : ℕ
  pub patch_sha1_str : List Bytes
  pub patch_data : List Value

-- "the same as source_filename"
unfoldable pub target_of : Arguments → Bytes
unfolding str_eq
target_of a = if str_eq a.target_filename (codes "-") then a.source_filename else a.target_filename

-- What is patched, and with what: `source_file`, `*source_to_use`, the patch, and whether the
-- source is used and not the copy.
pub record Selection : Type 0 where
  pub source : Source
  pub to_use : FileContents
  pub patch : Value
  pub uses_source : Bool

-- How the choice ends: nothing is to be done, `return 1`, or a selection.
pub data Choice : Type 0 where
  already refused : Choice
  selected : Selection → Choice

-- `strchr(s, '/')`: what stands before it, or all.
unfoldable pub before_slash : Bytes → Bytes
before_slash [] = []
before_slash (c ∷ s) = let rest = before_slash s in if c == b'/' then [] else c ∷ rest

-- `target_fs`; of an empty name, the byte behind its end is read.
unfoldable pub target_fs_of : Bytes → Outcome Bytes
unfolding before_slash
target_fs_of [] = overruns
target_fs_of (c ∷ s) = returns (c ∷ before_slash s)

-- `outname`
abbrev pub outname_of : Bytes → Bytes
outname_of target = target ++ codes ".patch"

-- After a round that ran the patch: whether its result was 0, what the memory sink holds for a
-- partition, and the hash.
pub record Round (Ctx : Type 0) : Type 0 where
  pub succeeded : Bool
  pub msi : Option MemorySinkInfo
  pub ctx : Option Ctx

-- At the end of the loop: the last round, and `made_copy`.
pub record Produced (Ctx : Type 0) : Type 0 where
  pub last : Round Ctx
  pub made_copy : Bool

module _ {D S Z Key Ctx R : Type 0} (h : Host D S Z Key Ctx R) where
  -- `LoadFileContents`, with what it puts into `st`.
  unfoldable pub load : Bytes → Outcome FileContents
  load filename = load_file_contents h.lib h.reader h.qsort h.files filename >>= λ file.
      returns (record {
        bytes = file.0;
        sha1 = file.1;
        st =
            if is_partition filename
            then record { st_mode = 0o644; st_uid = 0; st_gid = 0 }
            else h.stat_of filename;
      })

  -- `patch_data[to_use]`
  unfoldable pub patch_at : Arguments → ℕ → Outcome Value
  patch_at a to_use = elim (get_elem? a.patch_data to_use) [ none ↦ overruns | some v ↦ returns v ]

  -- "source file is bad; trying copy"
  unfoldable pub choose_copy : Arguments → Source → Outcome Choice
  unfolding load patch_at
  choose_copy a source = elim (load cache_temp_source) as (λ _. Outcome Choice) [
    | fails ↦ returns refused
    | overruns ↦ overruns
    | runs_on ↦ runs_on
    | returns copy ↦
        elim (find_matching_patch copy.sha1 a.patch_sha1_str) as (λ _. Outcome Choice) [
          | none ↦ returns refused
          | some to_use ↦ patch_at a to_use >>= λ v.
              returns (
                selected
                  (record { source = source; to_use = copy; patch = v; uses_source = false }))
        ]
  ]

  unfoldable pub choose_source : Arguments → FileContents → Outcome Choice
  unfolding choose_copy
  choose_source a f = elim (find_matching_patch f.sha1 a.patch_sha1_str) as (λ _. Outcome Choice) [
    | none ↦ choose_copy a (freed f)
    | some to_use ↦ patch_at a to_use >>= λ v.
        returns (selected (record { source = loaded f; to_use = f; patch = v; uses_source = true }))
  ]

  -- "Need to load the source file"
  unfoldable pub load_source : Arguments → Outcome Choice
  unfolding choose_source
  load_source a = elim (load a.source_filename) as (λ _. Outcome Choice) [
    | returns f ↦ choose_source a f
    | fails ↦ choose_copy a unloaded
    | overruns ↦ overruns
    | runs_on ↦ runs_on
  ]

  -- What comes before the loop, for the digest of the target.
  unfoldable pub choose : Arguments → Bytes → Outcome Choice
  unfolding load_source
  choose a target_sha1 = elim (load (target_of a)) as (λ _. Outcome Choice) [
    | fails ↦ load_source a
    | overruns ↦ overruns
    | runs_on ↦ runs_on
    | returns f ↦
        let other = load_source a in
        let same = choose_source a f in
        if str_eq f.sha1 target_sha1
        then returns already
        else (if str_eq (target_of a) a.source_filename then same else other)
  ]

  abbrev pub size_of : Source → ℕ
  size_of (loaded f) = length f.bytes
  size_of unloaded = h.stale_size
  size_of (freed f) = length f.bytes

  abbrev pub st_of : Source → Stat
  st_of (loaded f) = f.st
  st_of unloaded = h.stale_st
  st_of (freed f) = f.st

  -- `FileSink(file.data, file.size, &fd)`: a `write` from NULL fails, with EFAULT.
  unfoldable pub sink_source : Bytes → Source → D → Outcome (ℕ × D)
  unfolding file_sink
  sink_source filename (loaded f) d = returns (file_sink (λ d'. h.disk.write d' filename) d f.bytes)
  sink_source filename unloaded d = returns (0, d)
  sink_source filename (freed f) d = if length f.bytes == 0 then returns (0, d) else overruns

  -- The end of `SaveFileContents`.
  unfoldable pub set_owner : Bytes → Stat → D → Bool × D
  set_owner filename st d =
      let (moded, d₁) = h.disk.chmod d filename st.st_mode in
      let (owned, d₂) = h.disk.chown d₁ filename st.st_uid st.st_gid in
      if moded then (owned, d₂) else (false, d₁)

  -- `SaveFileContents`: true is the result 0.
  unfoldable pub save_file_contents : Bytes → Source → D → Outcome (Bool × D)
  unfolding sink_source set_owner
  save_file_contents filename file d =
      let (opened, d₁) = h.disk.create d filename in
      let saved = sink_source filename file d₁ >>= λ w.
      let d₂ = h.disk.close w.1 filename in
      returns (if w.0 == size_of file then set_owner filename (st_of file) d₂ else (false, d₂)) in
      if opened then saved else returns (false, d₁)
