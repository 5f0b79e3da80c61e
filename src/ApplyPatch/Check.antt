-- ===== src/ApplyPatch/Check.antt =====
-- applypatch/applypatch.c: `LoadFileContents` and `applypatch_check`.
use screenbox_rockchip_recov.Prelude.{
  ℕ, suc, ◌≡◌, ◌⊎◌, refl, Bool, true, false, ◌&&◌, ◌||◌, not, List, [], ◌∷◌, Option, none, some,
  arith, inl, inr, ltb, ◌==◌, if◌then◌else◌, length, get_elem?,
}
use screenbox_rockchip_recov.Prelude.Bytes.{Bytes, codes, starts_with}
use screenbox_rockchip_recov.Patch.{Outcome, returns, fails, overruns, runs_on}
use screenbox_rockchip_recov.Patch.Outcomes.{Gives, Gives-if, given}
use screenbox_rockchip_recov.Verifier.{Mincrypt}
use screenbox_rockchip_recov.ApplyPatch.Digest.{
  parse_sha1, find_matching_patch, IsFirstMatch, find_matching_patch-IsFirstMatch,
}
use screenbox_rockchip_recov.ApplyPatch.Load.{Pair, Reader, load_partition_contents}

-- CACHE_TEMP_SOURCE
abbrev pub cache_temp_source : Bytes
cache_temp_source = codes "/cache/saved.file"

-- The calls on a file: its size by `stat`, whether `fopen` succeeds, and what `fread` gives of a
-- number of bytes.
pub record Files : Type 0 where
  pub stat : Bytes → Option ℕ
  pub fopen : Bytes → Bool
  pub fread : Bytes → ℕ → Bytes

abbrev pub is_partition : Bytes → Bool
is_partition filename = starts_with (codes "MTD:") filename || starts_with (codes "EMMC:") filename

module _ {Key Ctx R : Type 0} (lib : Mincrypt Key Ctx Bytes) (reader : Reader R)
    (qsort : List Pair → List Pair) (files : Files) where
  -- The part of `LoadFileContents` on files.
  unfoldable pub load_file : Bytes → Outcome (Bytes × Bytes)
  load_file filename = elim (files.stat filename) as (λ _. Outcome (Bytes × Bytes)) [
    | none ↦ fails
    | some size ↦
        let contents = files.fread filename size in
        if not (files.fopen filename) || not (length contents == size)
        then fails
        else returns (contents, lib.sha_final (lib.sha_update lib.sha_init contents))
  ]

  -- `LoadFileContents`: the data and the digest; `fails` is -1.
  unfoldable pub load_file_contents : Bytes → Outcome (Bytes × Bytes)
  unfolding load_partition_contents load_file starts_with
  load_file_contents filename =
      if is_partition filename
      then load_partition_contents lib reader qsort filename
      else load_file filename

  abbrev pub is_found : Option ℕ → Bool
  is_found none = false
  is_found (some i) = true

  -- The cached copy has one of the digests.
  unfoldable pub check_cache : List Bytes → Outcome Bool
  unfolding load_file_contents find_matching_patch
  check_cache strs = elim (load_file_contents cache_temp_source) as (λ _. Outcome Bool) [
    | returns file ↦ returns (is_found (find_matching_patch file.1 strs))
    | fails ↦ returns false
    | overruns ↦ overruns
    | runs_on ↦ runs_on
  ]

  -- `applypatch_check`: true is the result 0.
  unfoldable pub applypatch_check : Bytes → List Bytes → Outcome Bool
  unfolding check_cache
  applypatch_check filename strs = elim (load_file_contents filename) as (λ _. Outcome Bool) [
    | returns file ↦
        let cached = check_cache strs in
        if ltb 0 (length strs) && not (is_found (find_matching_patch file.1 strs))
        then cached
        else returns true
    | fails ↦ check_cache strs
    | overruns ↦ overruns
    | runs_on ↦ runs_on
  ]

  -- The file can be loaded, and its digest is named by one of the strings.
  abbrev pub Matches : Bytes → List Bytes → Type 0
  Matches filename strs =
      (file : Bytes × Bytes) × (load_file_contents filename ≡ returns file)
      × (i : ℕ) × (str : Bytes) × (get_elem? strs i ≡ some str)
      × (parse_sha1 str ≡ some file.1)

  abbrev pub IsChecked : Bytes → List Bytes → Bool → Type 0
  IsChecked filename strs false = Unit
  IsChecked filename strs true =
      Matches filename strs
      ⊎ (Matches cache_temp_source strs
          ⊎ ((strs ≡ []) × (file : Bytes × Bytes) × (load_file_contents filename ≡ returns file)))

  found-Matches :
      (filename : Bytes) (strs : List Bytes) (file : Bytes × Bytes)
      → load_file_contents filename ≡ returns file
      → is_found (find_matching_patch file.1 strs) ≡ true
      → Matches filename strs
  found-Matches filename strs file e found =
      by_index (find_matching_patch file.1 strs) (find_matching_patch-IsFirstMatch file.1 strs)
        found
    where
      by_index :
          (o : Option ℕ) → IsFirstMatch file.1 strs o → is_found o ≡ true → Matches filename strs
      by_index none h q = ground arith
      by_index (some i) ((str, at_i, parsed), h) q = (file, e, i, str, at_i, parsed)

  check_cache-IsChecked :
      (filename : Bytes) (strs : List Bytes) → Gives (IsChecked filename strs) (check_cache strs)
  unfolding check_cache
  check_cache-IsChecked filename strs = by_file (load_file_contents cache_temp_source) refl
    where
      by_file :
          (o : Outcome (Bytes × Bytes))
          → load_file_contents cache_temp_source ≡ o
          → Gives (IsChecked filename strs) (elim o as (λ _. Outcome Bool) [
            | returns file ↦ returns (is_found (find_matching_patch file.1 strs))
            | fails ↦ returns false
            | overruns ↦ overruns
            | runs_on ↦ runs_on
          ])
      by_file (returns file) e = by_found (is_found (find_matching_patch file.1 strs)) refl
        where
          by_found :
              (b : Bool)
              → is_found (find_matching_patch file.1 strs) ≡ b
              → IsChecked filename strs b
          by_found false q = tt
          by_found true q = inr (inl (found-Matches cache_temp_source strs file e q))
      by_file fails e = tt
      by_file overruns e = tt
      by_file runs_on e = tt

  accepted :
      (filename : Bytes) (strs : List Bytes) (file : Bytes × Bytes)
      → load_file_contents filename ≡ returns file
      → (ltb 0 (length strs) && not (is_found (find_matching_patch file.1 strs))) ≡ false
      → IsChecked filename strs true
  accepted filename [] file e passed = inr (inr (refl, file, e))
  accepted filename (str ∷ strs) file e passed = inl (
      found-Matches filename (str ∷ strs) file e
        (has_found (length strs) (is_found (find_matching_patch file.1 (str ∷ strs))) passed))
    where
      has_found : (n : ℕ) (b : Bool) → (ltb 0 (suc n) && not b) ≡ false → b ≡ true
      has_found n b h = ground arith

  -- `applypatch_check` returns 0 only if the file, or the copy in the cache, can be loaded and has a
  -- digest that one of the strings names, or no string is given and the file can be loaded.
  pub applypatch_check-IsChecked :
      (filename : Bytes) (strs : List Bytes)
      → applypatch_check filename strs ≡ returns true
      → IsChecked filename strs true
  unfolding applypatch_check
  applypatch_check-IsChecked filename strs e =
      given (IsChecked filename strs) _ true (by_file (load_file_contents filename) refl) e
    where
      by_file :
          (o : Outcome (Bytes × Bytes))
          → load_file_contents filename ≡ o
          → Gives (IsChecked filename strs) (elim o as (λ _. Outcome Bool) [
            | returns file ↦
                if ltb 0 (length strs) && not (is_found (find_matching_patch file.1 strs))
                then check_cache strs
                else returns true
            | fails ↦ check_cache strs
            | overruns ↦ overruns
            | runs_on ↦ runs_on
          ])
      by_file (returns file) e =
          Gives-if (IsChecked filename strs)
            (ltb 0 (length strs) && not (is_found (find_matching_patch file.1 strs)))
            (check_cache strs) (returns true) (λ _. check_cache-IsChecked filename strs)
            (λ passed. accepted filename strs file e passed)
      by_file fails e = check_cache-IsChecked filename strs
      by_file overruns e = tt
      by_file runs_on e = tt
