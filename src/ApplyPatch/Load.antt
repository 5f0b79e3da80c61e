-- ===== src/ApplyPatch/Load.antt =====
-- applypatch/applypatch.c: `LoadPartitionContents`. SHA is not part of the repository: it is a
-- parameter, and so are the calls that open and read the partition. A size_t has 64 bits.
pub mod Smallest
use screenbox_rockchip_recov.Prelude.{
  ℕ, zero, suc, ◌+◌, ◌-◌, ◌/◌, ◌^◌, Bool, true, false, not, List, [], ◌∷◌, ◌++◌, Option, none, some,
  ltb, ◌==◌, if◌then◌else◌, length,
}
use screenbox_rockchip_recov.Prelude.Int.{ℤ, pos, negsuc}
use screenbox_rockchip_recov.Prelude.Bytes.{Bytes, codes, str_eq}
use screenbox_rockchip_recov.Edify.Functions.Strtol.{strtol}
use screenbox_rockchip_recov.Patch.{Outcome, returns, fails, overruns, ◌>>=◌}
use screenbox_rockchip_recov.Verifier.{Mincrypt}
use screenbox_rockchip_recov.ApplyPatch.Digest.{parse_sha1}

-- `enum PartitionType`
pub data PartitionType : Type 0 where
  mtd emmc : PartitionType

-- A size, and the string of a digest; `none` is NULL.
abbrev pub Pair : Type 0
Pair = ℕ × Option Bytes

-- A byte in front of the tokens: a colon, or one that begins the first token or goes on with it.
abbrev pub join : ℕ → Bool → List Bytes → List Bytes
join c true [] = (c ∷ []) ∷ []
join c true (t ∷ ts) = (c ∷ t) ∷ ts
join c false ts = (c ∷ []) ∷ ts

abbrev pub begins_token : Bytes → Bool
begins_token [] = false
begins_token (c ∷ s) = not (c == b':')

-- What repeated calls of `strtok(..., ":")` give before NULL.
unfoldable pub tokens : Bytes → List Bytes
tokens [] = []
tokens (c ∷ s) = let rest = tokens s in if c == b':' then rest else join c (begins_token s) rest

unfoldable pub count_colons : Bytes → ℕ
count_colons [] = 0
count_colons (c ∷ s) = let more = count_colons s in if c == b':' then suc more else more

-- `size[i] = strtol(size_str, NULL, 10)`
abbrev pub to_size : ℤ → ℕ
to_size (pos n) = n
to_size (negsuc n) = 2 ^ 64 - 1 - n

-- The loop over `size` and `sha1sum`. `strtol` of NULL is an access through it.
unfoldable pub read_pairs : ℕ → List Bytes → Outcome (List Pair)
unfolding strtol
read_pairs zero ts = returns []
read_pairs (suc n) [] = overruns
read_pairs (suc n) (size_str ∷ []) =
    if to_size (strtol size_str).0 == 0
    then fails
    else (read_pairs n [] >>= λ pairs. returns ((to_size (strtol size_str).0, none) ∷ pairs))
read_pairs (suc n) (size_str ∷ sha1sum ∷ ts) =
    let rest = read_pairs n ts in
    if to_size (strtol size_str).0 == 0
    then fails
    else (rest >>= λ pairs. returns ((to_size (strtol size_str).0, some sha1sum) ∷ pairs))

-- `magic`: `none` is a bad filename.
unfoldable pub type_of : Bytes → Option PartitionType
unfolding str_eq
type_of magic =
    if str_eq magic (codes "MTD")
    then some mtd
    else (if str_eq magic (codes "EMMC") then some emmc else none)

abbrev pub next_token : List Bytes → Option Bytes × List Bytes
next_token [] = (none, [])
next_token (t ∷ ts) = (some t, ts)

-- The partition: `open_partition` looks it up and opens it, by a name that may be NULL; `read` gives
-- the bytes that `mtd_read_data` or `fread` read.
pub record Reader (R : Type 0) : Type 0 where
  pub open_partition : PartitionType → Option Bytes → Outcome R
  pub read : R → ℕ → Bytes × R

module _ {Key Ctx R : Type 0} (lib : Mincrypt Key Ctx Bytes) (reader : Reader R)
    (qsort : List Pair → List Pair) where
  -- "Read enough additional bytes to get us up to the next size"
  unfoldable pub read_more : R → ℕ → Bytes × R
  read_more r next = if ltb 0 next then reader.read r next else ([], r)

  -- The loop over the sorted pairs, so that no `size` is less than `file->size`: the data, and the
  -- digest. `fails` is `return -1`, also after the last pair.
  unfoldable pub load_pairs : List Pair → R → Bytes → Ctx → Outcome (Bytes × Bytes)
  unfolding parse_sha1 read_more
  load_pairs [] r so_far ctx = fails
  load_pairs ((size, sha1sum) ∷ pairs) r so_far ctx =
      let next = size - length so_far in
      let (got, r') = read_more r next in
      let ctx' = if ltb 0 next then lib.sha_update ctx got else ctx in
      let further = load_pairs pairs r' (so_far ++ got) ctx' in
      let compared = λ (parsed_sha : Bytes).
        if str_eq (lib.sha_final ctx') parsed_sha
        then returns (so_far ++ got, lib.sha_final ctx')
        else further in
      if not (length got == next) then fails else elim sha1sum as (λ _. Outcome (Bytes × Bytes)) [
        | none ↦ overruns
        | some str ↦ elim (parse_sha1 str) as (λ _. Outcome (Bytes × Bytes)) [
          | none ↦ fails
          | some parsed_sha ↦ compared parsed_sha
        ]
      ]

  -- `malloc(size[index[pairs-1]])` of no pair at all reads outside of the arrays.
  unfoldable pub load_sorted : List Pair → R → Outcome (Bytes × Bytes)
  unfolding load_pairs
  load_sorted [] r = overruns
  load_sorted (pair ∷ pairs) r = load_pairs (pair ∷ pairs) r [] lib.sha_init

  -- From `partition` on.
  unfoldable pub load_named : PartitionType → Bytes → List Bytes → Outcome (Bytes × Bytes)
  unfolding load_sorted read_pairs count_colons
  load_named type filename ts =
      let (partition, sizes) = next_token ts in
      read_pairs ((count_colons filename - 1) / 2) sizes >>= λ pairs.
      reader.open_partition type partition >>= load_sorted (qsort pairs)

  -- `LoadPartitionContents`: the data and the digest. Of a name with too few colons, or an even
  -- number of them, the function only prints that it is bad.
  unfoldable pub load_partition_contents : Bytes → Outcome (Bytes × Bytes)
  unfolding tokens type_of load_named
  load_partition_contents filename = elim (tokens filename) as (λ _. Outcome (Bytes × Bytes)) [
    | [] ↦ overruns
    | magic ∷ ts ↦ elim (type_of magic) as (λ _. Outcome (Bytes × Bytes)) [
      | none ↦ fails
      | some type ↦ load_named type filename ts
    ]
  ]
