-- ===== src/HashTable.antt =====
-- minzip/Hash.c: a hash table with probing and tombstones. The entries of the zip reader stand in such
-- a table. What an entry points to is of a type `A`; NULL and HASH_TOMBSTONE are no items.
pub mod Masks
pub mod Probes
pub mod Counts
pub mod Sound
pub mod Operations
pub mod Found
mod Tests
use Prim.Native.Nat.{bit_and, bit_or}
use screenbox_rockchip_recov.Prelude.{
  ℕ, zero, suc, ◌+◌, ◌-◌, ◌*◌, ◌/◌, ◌%◌, ◌^◌, Bool, true, false, ◌&&◌, ◌||◌, List, [], ◌∷◌, Option,
  none, some, ltb, ◌==◌, if◌then◌else◌, length, get_elem?, set, replicate,
}
use screenbox_rockchip_recov.Prelude.Int.{ℤ, pos, negsuc}

-- `HashEntry`, by its `data`: NULL, HASH_TOMBSTONE, or an item with its `hashValue`.
pub data Slot (A : Type 0) : Type 0 where
  empty tombstone : Slot A
  used : ℕ → A → Slot A

-- `HashTable`; `tableSize` is the length of `pEntries`.
pub record HashTable (A : Type 0) : Type 0 where
  pub entries : List (Slot A)
  pub num_entries : ℕ
  pub num_dead_entries : ℕ

abbrev pub load_numer : ℕ
load_numer = 5

abbrev pub load_denom : ℕ
load_denom = 8

-- `mzHashSize`
unfoldable pub mz_hash_size : ℕ → ℕ
mz_hash_size size = (size * load_denom) / load_numer + 1

-- `roundUpPower2`, on an unsigned int
unfoldable pub round_up_power2 : ℕ → ℕ
round_up_power2 val =
    let v₀ = (val + (2 ^ 32 - 1)) % 2 ^ 32 in
    let v₁ = bit_or v₀ (v₀ / 2) in
    let v₂ = bit_or v₁ (v₁ / 2 ^ 2) in
    let v₃ = bit_or v₂ (v₂ / 2 ^ 4) in
    let v₄ = bit_or v₃ (v₃ / 2 ^ 8) in let v₅ = bit_or v₄ (v₄ / 2 ^ 16) in (v₅ + 1) % 2 ^ 32

abbrev pub cleared : {A : Type 0} → ℕ → HashTable A
cleared size = record { entries = replicate size empty; num_entries = 0; num_dead_entries = 0 }

-- `mzHashTableCreate`, where `calloc` succeeds on that many entries; `none` is NULL.
unfoldable pub mz_hash_table_create : {A : Type 0} → (ℕ → Bool) → ℕ → Option (HashTable A)
unfolding round_up_power2
mz_hash_table_create calloc initial_size =
    if calloc (round_up_power2 initial_size)
    then some (cleared (round_up_power2 initial_size))
    else none

-- `mzHashTableClear`, which also calls `freeFunc` on each item
unfoldable pub mz_hash_table_clear : {A : Type 0} → HashTable A → HashTable A
mz_hash_table_clear t = cleared (length t.entries)

abbrev pub is_empty : {A : Type 0} → Slot A → Bool
is_empty empty = true
is_empty _ = false

-- Where a loop over the entries stops: at an entry, behind the table, or not within the rounds given.
pub data Probe : Type 0 where
  at_entry : ℕ → Probe
  behind endless : Probe

-- "probe for a match", from an entry on, wrapping around; a table of a single entry is left at its
-- end. `stops` is the condition of the loop's end.
unfoldable pub probe : {A : Type 0} → (Slot A → Bool) → List (Slot A) → ℕ → ℕ → Probe
probe stops entries zero i = endless
probe stops entries (suc rounds) i =
    let wrapped = probe stops entries rounds 0 in
    let further = probe stops entries rounds (suc i) in
    elim (get_elem? entries i) as (λ _. Probe) [
      | none ↦ behind
      | some slot ↦
          if stops slot
          then at_entry i
          else (if suc i == length entries
              then (if length entries == 1 then behind else wrapped)
              else further)
    ]

-- `itemHash & (tableSize-1)`
abbrev pub first_entry : ℕ → ℕ → ℕ
first_entry hash size = bit_and hash (size - 1)

-- "probe for new spot, wrapping around": `none` if there is none within the rounds given.
unfoldable pub free_entry : {A : Type 0} → List (Slot A) → ℕ → ℕ → Option ℕ
free_entry entries zero i = none
free_entry entries (suc rounds) i =
    let further = free_entry entries rounds (bit_and (suc i) (length entries - 1)) in
    elim (get_elem? entries i) as (λ _. Option ℕ) [
      | none ↦ none
      | some slot ↦ if is_empty slot then some i else further
    ]

-- The loop of `resizeHash` over the old entries, which fills the new ones.
unfoldable pub rehash : {A : Type 0} → List (Slot A) → List (Slot A) → Option (List (Slot A))
unfolding free_entry
rehash [] entries = some entries
rehash (empty ∷ old) entries = rehash old entries
rehash (tombstone ∷ old) entries = rehash old entries
rehash (used hash item ∷ old) entries =
    elim (free_entry entries (length entries) (first_entry hash (length entries))) [
      | none ↦ none
      | some i ↦ rehash old (set entries i (used hash item))
    ]

-- How a call ends: with its result and the table; by `abort`; by a read behind the table; or not.
pub data Call (A B : Type 0) : Type 0 where
  returns : B → HashTable A → Call A B
  aborts reads_behind runs_on : Call A B

module _ {A : Type 0} (calloc : ℕ → Bool) where
  -- `resizeHash` to twice the size, for `mzHashTableLookup`, which returns the item.
  unfoldable pub resize_hash : A → HashTable A → Call A (Option A)
  unfolding rehash
  resize_hash item t =
      let size = length t.entries * 2 in
      let resized = elim (rehash t.entries (replicate size empty)) as (λ _. Call A (Option A)) [
        | none ↦ runs_on
        | some entries ↦ returns (some item) (record t { entries = entries; num_dead_entries = 0 })
      ] in
      if calloc size then resized else aborts

  -- The item is put into the entry.
  unfoldable pub add_at : ℕ → A → ℕ → HashTable A → Call A (Option A)
  unfolding resize_hash
  add_at hash item i t =
      let added = record t {
        entries = set t.entries i (used hash item);
        num_entries = t.num_entries + 1;
      } in
      let resized = resize_hash item added in
      if ltb (length t.entries * load_numer) ((t.num_entries + 1 + t.num_dead_entries) * load_denom)
      then resized
      else returns (some item) added

  -- The entry has the hash, and `cmpFunc(pEntry->data, item) == 0`.
  abbrev pub is_match : (A → A → Bool) → ℕ → A → Slot A → Bool
  is_match is_equal hash item (used hash_value data_) = hash_value == hash && is_equal data_ item
  is_match is_equal hash item _ = false

  abbrev pub ends_lookup : (A → A → Bool) → ℕ → A → Slot A → Bool
  ends_lookup is_equal hash item slot = is_empty slot || is_match is_equal hash item slot

  -- `mzHashTableLookup`; as many rounds as there are entries are enough.
  unfoldable pub mz_hash_table_lookup :
      (A → A → Bool) → Bool → ℕ → A → HashTable A → Call A (Option A)
  unfolding probe add_at
  mz_hash_table_lookup is_equal do_add hash item t =
      elim (probe (ends_lookup is_equal hash item) t.entries (length t.entries)
          (first_entry hash (length t.entries)))
        as (λ _. Call A (Option A)) [
          | behind ↦ reads_behind
          | endless ↦ runs_on
          | at_entry i ↦ elim (get_elem? t.entries i) as (λ _. Call A (Option A)) [
            | none ↦ reads_behind
            | some slot ↦ elim slot as (λ _. Call A (Option A)) [
              | empty ↦ if do_add then add_at hash item i t else returns none t
              | tombstone ↦ returns none t
              | used _ data_ ↦ returns (some data_) t
            ]
          ]
        ]

  -- `pEntry->data == item`, as pointers
  abbrev pub is_item : (A → A → Bool) → A → Slot A → Bool
  is_item is_same item (used hash_value data_) = is_same data_ item
  is_item is_same item _ = false

  -- `mzHashTableRemove`
  unfoldable pub mz_hash_table_remove : (A → A → Bool) → ℕ → A → HashTable A → Call A Bool
  unfolding probe
  mz_hash_table_remove is_same hash item t =
      elim (probe (λ slot. is_empty slot || is_item is_same item slot) t.entries (length t.entries)
          (first_entry hash (length t.entries)))
        as (λ _. Call A Bool) [
          | behind ↦ returns false t
          | endless ↦ runs_on
          | at_entry i ↦ elim (get_elem? t.entries i) as (λ _. Call A Bool) [
            | none ↦ reads_behind
            | some slot ↦
                if is_empty slot
                then returns false t
                else returns true (record t {
                  entries = set t.entries i tombstone;
                  num_entries = t.num_entries - 1;
                  num_dead_entries = t.num_dead_entries + 1;
                })
          ]
        ]

-- `mzHashForeach`
unfoldable pub mz_hash_foreach : {A : Type 0} → (A → ℤ) → List (Slot A) → ℤ
mz_hash_foreach func [] = pos 0
mz_hash_foreach func (used hash item ∷ slots) =
    let rest = mz_hash_foreach func slots in
    elim (func item) [ negsuc n ↦ negsuc n | pos n ↦ if n == 0 then rest else pos n ]
mz_hash_foreach func (_ ∷ slots) = mz_hash_foreach func slots
