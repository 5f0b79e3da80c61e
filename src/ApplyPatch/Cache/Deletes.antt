-- ===== src/ApplyPatch/Cache/Deletes.antt =====
-- applypatch/freecache.c: what `MakeFreeSpaceOnCache` deletes, and what its result says.
use screenbox_rockchip_recov.Prelude.{
  ℕ, ◌<◌, ◌≡◌, refl, sym, ap, Bool, false, List, [], ◌∷◌, Option, none, some, arith, Bool-cases,
  inl, inr, ltb, leb,
}
use screenbox_rockchip_recov.Prelude.Bytes.{Bytes}
use screenbox_rockchip_recov.ApplyPatch.Cache.{
  Disk, cache_dir, dirs, free_space_for_file, eliminate_open_files, files_of, find_expendable_files,
  delete_files, make_space, make_free_space_on_cache,
}
use screenbox_rockchip_recov.ApplyPatch.Cache.Files.{AllFiles}
use screenbox_rockchip_recov.ApplyPatch.Cache.Expendable.{
  IsExpendable, files_of-AllFiles, eliminate_open_files-AllFiles,
}

module _ {D : Type 0} (disk : Disk D) where
  -- From `d` to `d'` just these files were deleted, in order, each at a time when fewer bytes than
  -- needed were free.
  abbrev pub Deletes : ℕ → (Bytes → Type 0) → List Bytes → D → D → Type 0
  Deletes bytes_needed P [] d d' = d' ≡ d
  Deletes bytes_needed P (f ∷ fs) d d' =
      P f
      × (free_space_for_file disk d cache_dir < bytes_needed)
      × Deletes bytes_needed P fs (disk.unlink d f) d'

  -- The result tells whether enough is free at the end.
  abbrev pub IsAnswer : ℕ → Bool × D → Type 0
  IsAnswer bytes_needed r = r.0 ≡ leb bytes_needed (free_space_for_file disk r.1 cache_dir)

  abbrev DeletesSome : ℕ → (Bytes → Type 0) → D → D → Type 0
  DeletesSome bytes_needed P d d' = (fs : List Bytes) × Deletes bytes_needed P fs d d'

  delete_files-Deletes :
      (bytes_needed : ℕ) (P : Bytes → Type 0) (names : List (Option Bytes)) (d : D)
      → AllFiles P names
      → DeletesSome bytes_needed P d
          (delete_files disk bytes_needed names (free_space_for_file disk d cache_dir) d).1
        × ((delete_files disk bytes_needed names (free_space_for_file disk d cache_dir) d).0
            ≡ free_space_for_file disk
                (delete_files disk bytes_needed names (free_space_for_file disk d cache_dir) d).1
                cache_dir)
  unfolding delete_files
  delete_files-Deletes n P [] d h = (([], refl), refl)
  delete_files-Deletes n P (none ∷ names) d h = delete_files-Deletes n P names d h
  delete_files-Deletes n P (some f ∷ names) d h =
      let ((fs, deleted), same) = delete_files-Deletes n P names (disk.unlink d f) h.1 in
      elim (Bool-cases (ltb (free_space_for_file disk d cache_dir) n)) [
        | inl short ↦ rw short ((f ∷ fs, (h.0, ground (arith, short), deleted)), same)
        | inr enough ↦ rw enough (([], refl), refl)
      ]

  make_space-Deletes :
      (bytes_needed : ℕ) (P : Bytes → Type 0) (names : List (Option Bytes)) (d : D)
      → leb bytes_needed (free_space_for_file disk d cache_dir) ≡ false
      → AllFiles P names
      → DeletesSome bytes_needed P d (make_space disk bytes_needed names d).1
        × IsAnswer bytes_needed (make_space disk bytes_needed names d)
  unfolding make_space
  make_space-Deletes n P [] d short h = (([], refl), sym short)
  make_space-Deletes n P (name ∷ names) d short h =
      let (deleted, same) = delete_files-Deletes n P (name ∷ names) d h in
      (deleted, ap (leb n) same)

  -- `MakeFreeSpaceOnCache` deletes only regular files of the two directories that no process has
  -- open, never the saved copy, and each only while fewer bytes than needed are free; it returns 0
  -- exactly if as many bytes as needed are free at the end, as `FreeSpaceForFile` counts them.
  pub make_free_space_on_cache-Deletes :
      (bytes_needed : ℕ) (d : D)
      → ((fs : List Bytes) × Deletes bytes_needed
            (IsExpendable disk d)
            fs
            d
            (make_free_space_on_cache disk bytes_needed d).1)
        × IsAnswer bytes_needed (make_free_space_on_cache disk bytes_needed d)
  unfolding make_free_space_on_cache find_expendable_files
  make_free_space_on_cache-Deletes n d =
      elim (Bool-cases (leb n (free_space_for_file disk d cache_dir))) [
        | inl enough ↦ rw enough (([], refl), sym enough)
        | inr short ↦
            rw short (by_names short (eliminate_open_files disk d (files_of disk d dirs)) refl)
      ]
    where
      by_names :
          leb n (free_space_for_file disk d cache_dir) ≡ false
          → (o : Option (List (Option Bytes)))
          → eliminate_open_files disk d (files_of disk d dirs) ≡ o
          → DeletesSome n
              (IsExpendable disk d)
              d
              (elim o as (λ _. Bool × D) [
                | none ↦ (false, d)
                | some names ↦ make_space disk n names d
              ]).1
            × IsAnswer n (elim o as (λ _. Bool × D) [
              | none ↦ (false, d)
              | some names ↦ make_space disk n names d
            ])
      by_names short none e = (([], refl), sym short)
      by_names short (some names) e = make_space-Deletes n (IsExpendable disk d) names d short (
          eliminate_open_files-AllFiles disk d (files_of disk d dirs) names
            (files_of-AllFiles disk d dirs (λ dir listed. listed)) e)
