-- ===== src/HashTable/Found.antt =====
-- minzip/Hash.c: what `mzHashTableLookup` has added is found again, also after the table has grown.
use screenbox_rockchip_recov.Prelude.{
  ℕ, zero, suc, ◌+◌, ◌-◌, ◌*◌, ◌≡◌, refl, sym, ap, ◌∙◌, Bool, true, false, List, [], ◌∷◌, Option,
  none, some, arith, Bool-cases, inl, inr, if◌then◌else◌, length, get_elem?, set, replicate,
  get_elem?-set_self, get_elem?-set_ne,
}
use mathlib.Core.Path.{subst}
use Prim.Native.Nat.{bit_and}
use screenbox_rockchip_recov.Prelude.{ltb}
use screenbox_rockchip_recov.HashTable.{
  Slot, empty, tombstone, used, is_empty, first_entry, HashTable, free_entry, rehash, Call, returns,
  aborts, reads_behind, runs_on, resize_hash, add_at, ends_lookup, mz_hash_table_lookup,
}
use screenbox_rockchip_recov.HashTable.Probes.{probe-EndsAt}
use screenbox_rockchip_recov.HashTable.Counts.{is_used, get_elem?-bound}
use screenbox_rockchip_recov.HashTable.Sound.{IsSound, Ends, probe_in_room}
use screenbox_rockchip_recov.Prelude.{◌⊎◌}
use screenbox_rockchip_recov.HashTable.Operations.{
  mz_hash_table_lookup-Ends, mz_hash_table_lookup-IsMatch, sound-room, start-less,
}

module _ {A : Type 0} where
  -- The table has the item, with the hash.
  abbrev pub Has : List (Slot A) → ℕ → A → Type 0
  Has entries hash x = (j : ℕ) × (get_elem? entries j ≡ some (used hash x))

  -- An entry that was empty is filled: what the table had, it has.
  fill_keeps :
      (entries : List (Slot A)) (k : ℕ) (new : Slot A) (hash : ℕ) (x : A)
      → get_elem? entries k ≡ some empty
      → Has entries hash x
      → Has (set entries k new) hash x
  fill_keeps entries k new hash x free (j, e) = (
    j,
    get_elem?-set_ne entries new (λ same.
          let both : some empty ≡ some (used hash x) = sym free ∙ ap (get_elem? entries) same ∙ e in
          ground (arith, both))
        ∙ e,
  )

  free_entry_empty :
      (entries : List (Slot A)) (rounds i k : ℕ)
      → free_entry entries rounds i ≡ some k
      → get_elem? entries k ≡ some empty
  unfolding free_entry
  free_entry_empty entries zero i k e = absurd (ground (arith, e))
  free_entry_empty entries (suc rounds) i k e =
      by_entry (get_elem? entries i) refl
        (free_entry entries rounds (bit_and (suc i) (length entries - 1)))
        (λ q. free_entry_empty entries rounds (bit_and (suc i) (length entries - 1)) k q) e
    where
      by_entry :
          (o : Option (Slot A))
          → get_elem? entries i ≡ o
          → (further : Option ℕ) → (further ≡ some k → get_elem? entries k ≡ some empty)
          → (elim o as (λ _. Option ℕ) [
            | none ↦ none
            | some slot ↦ if is_empty slot then some i else further
          ])
            ≡ some k
          → get_elem? entries k ≡ some empty
      by_entry none q further ih e = absurd (ground (arith, e))
      by_entry (some empty) q further ih e =
          let same : i ≡ k = ground (arith, e) in ap (get_elem? entries) (sym same) ∙ q
      by_entry (some tombstone) q further ih e = ih e
      by_entry (some (used h y)) q further ih e = ih e

  behind_unused :
      (s : Slot A) (entries old : List (Slot A)) (hash : ℕ) (x : A)
      → is_used s ≡ false
      → Has entries hash x ⊎ Has (s ∷ old) hash x
      → Has entries hash x ⊎ Has old hash x
  behind_unused s entries old hash x unused (inl there) = inl there
  behind_unused s entries old hash x unused (inr (zero, q)) =
      let here = ap (λ o. elim o [ none ↦ false | some c ↦ is_used c ]) q in
      absurd (ground (arith, unused, here))
  behind_unused s entries old hash x unused (inr (suc j, q)) = inr (j, q)

  rehash-Has :
      (old entries filled : List (Slot A)) (hash : ℕ) (x : A)
      → rehash old entries ≡ some filled
      → Has entries hash x ⊎ Has old hash x
      → Has filled hash x
  unfolding rehash
  rehash-Has [] entries filled hash x e (inl has) =
      let same : entries ≡ filled = ground (arith, e) in subst (λ l. Has l hash x) same has
  rehash-Has [] entries filled hash x e (inr (j, q)) = absurd (ground (arith, q))
  rehash-Has (empty ∷ old) entries filled hash x e has =
      rehash-Has old entries filled hash x e (behind_unused empty entries old hash x refl has)
  rehash-Has (tombstone ∷ old) entries filled hash x e has =
      rehash-Has old entries filled hash x e (behind_unused tombstone entries old hash x refl has)
  rehash-Has (used h y ∷ old) entries filled hash x e has =
      by_free (free_entry entries (length entries) (first_entry h (length entries))) refl
        (λ k q has'. rehash-Has old (set entries k (used h y)) filled hash x q has') e
    where
      put :
          (k : ℕ)
          → get_elem? entries k ≡ some empty
          → Has entries hash x ⊎ Has (used h y ∷ old) hash x
          → Has (set entries k (used h y)) hash x ⊎ Has old hash x
      put k free (inl there) = inl (fill_keeps entries k (used h y) hash x free there)
      put k free (inr (zero, q)) =
          inl
            (k, get_elem?-set_self entries k (used h y) (get_elem?-bound entries k empty free) ∙ q)
      put k free (inr (suc j, q)) = inr (j, q)

      by_free :
          (o : Option ℕ)
          → free_entry entries (length entries) (first_entry h (length entries)) ≡ o
          → ((k : ℕ)
              → rehash old (set entries k (used h y)) ≡ some filled
              → Has (set entries k (used h y)) hash x ⊎ Has old hash x
              → Has filled hash x)
          → (elim o as (λ _. Option (List (Slot A))) [
            | none ↦ none
            | some i ↦ rehash old (set entries i (used h y))
          ])
            ≡ some filled
          → Has filled hash x
      by_free none q ih e = absurd (ground (arith, e))
      by_free (some k) q ih e = ih k e (put k (free_entry_empty entries (length entries) _ k q) has)

  -- After an addition that returns, the table has the item.
  AddsIt : ℕ → A → Call A (Option A) → Type 0
  AddsIt hash item (returns o t') = Has t'.entries hash item
  AddsIt hash item aborts = Unit
  AddsIt hash item reads_behind = Unit
  AddsIt hash item runs_on = Unit

  add_at-AddsIt :
      (calloc : ℕ → Bool) (hash : ℕ) (item : A) (i : ℕ) (t : HashTable A)
      → get_elem? t.entries i ≡ some empty
      → AddsIt hash item (add_at calloc hash item i t)
  unfolding add_at resize_hash AddsIt
  add_at-AddsIt calloc hash item i t free =
      elim (Bool-cases
        (ltb (length t.entries * 5) ((t.num_entries + 1 + t.num_dead_entries) * 8))) [
          | inr loose ↦ rw loose has
          | inl crowded ↦ rw crowded (elim (Bool-cases (calloc (length entries * 2))) [
            | inr full ↦ rw full tt
            | inl got ↦
                rw got (by_filled (rehash entries (replicate (length entries * 2) empty)) refl)
          ])
        ]
    where
      entries : List (Slot A)
      entries = set t.entries i (used hash item)

      has : Has entries hash item
      has = (
        i,
        get_elem?-set_self t.entries i (used hash item) (get_elem?-bound t.entries i empty free),
      )

      by_filled :
          (o : Option (List (Slot A)))
          → rehash entries (replicate (length entries * 2) empty) ≡ o
          → AddsIt hash item (elim o as (λ _. Call A (Option A)) [
            | none ↦ runs_on
            | some filled ↦ returns (some item) (record t {
              entries = filled;
              num_entries = t.num_entries + 1;
              num_dead_entries = 0;
            })
          ])
      by_filled none e = tt
      by_filled (some filled) e =
          rehash-Has entries (replicate (length entries * 2) empty) filled hash item e (inr has)

module _ {A : Type 0} (calloc : ℕ → Bool) (is_equal : A → A → Bool) (hash : ℕ) (item : A) where
  -- The table has an item of the hash that `cmpFunc` takes for `item`.
  abbrev HasEqual : HashTable A → Type 0
  HasEqual t = (y : A) × (is_equal y item ≡ true) × Has t.entries hash y

  FindsIt : Call A (Option A) → Type 0
  FindsIt (returns o t') = HasEqual t'
  FindsIt aborts = Unit
  FindsIt reads_behind = Unit
  FindsIt runs_on = Unit

  added-FindsIt :
      is_equal item item ≡ true → (c : Call A (Option A)) → AddsIt hash item c → FindsIt c
  unfolding AddsIt FindsIt
  added-FindsIt self (returns o t') has = (item, self, has)
  added-FindsIt self aborts has = tt
  added-FindsIt self reads_behind has = tt
  added-FindsIt self runs_on has = tt

  lookup-FindsIt :
      (t : HashTable A)
      → IsSound t
      → is_equal item item ≡ true
      → FindsIt (mz_hash_table_lookup calloc is_equal true hash item t)
  unfolding mz_hash_table_lookup FindsIt
  lookup-FindsIt t s self =
      let stops = ends_lookup calloc is_equal hash item in
      let start = first_entry hash (length t.entries) in
      let (k, e) =
        probe_in_room stops t.entries start (sound-room calloc t s) refl
          (start-less calloc t hash s) in
      let ((slot, q, ended), path) =
        probe-EndsAt stops t.entries (length t.entries) start k
          (λ slot' passed. ground (arith, passed)) e in
      rw (mz_hash_table_lookup, e, q) (by_slot slot k q ended)
    where
      by_slot :
          (slot : Slot A) (k : ℕ)
          → get_elem? t.entries k ≡ some slot
          → ends_lookup calloc is_equal hash item slot ≡ true
          → FindsIt (elim slot as (λ _. Call A (Option A)) [
            | empty ↦ if true then add_at calloc hash item k t else returns none t
            | tombstone ↦ returns none t
            | used _ data_ ↦ returns (some data_) t
          ])
      by_slot empty k q ended = added-FindsIt self _ (add_at-AddsIt calloc hash item k t q)
      by_slot tombstone k q ended = absurd (ground (arith, ended))
      by_slot (used h y) k q ended =
          let here : h ≡ hash = ground (arith, ended) in
          (y, ground (arith, ended), (k, q ∙ ap (λ c. some (used c y)) here))

  -- On a sound table, with a `cmpFunc` that takes the item for itself: where `mzHashTableLookup` is
  -- told to add the item and returns, a search in the table that it leaves, which may have grown,
  -- returns an item that `cmpFunc` takes for it, and changes nothing.
  pub mz_hash_table_lookup_added :
      (again : Bool) (t t' : HashTable A) (o : Option A)
      → IsSound t
      → is_equal item item ≡ true
      → mz_hash_table_lookup calloc is_equal true hash item t ≡ returns o t'
      → (y : A) × (is_equal y item ≡ true)
        × (mz_hash_table_lookup calloc is_equal again hash item t' ≡ returns (some y) t')
  unfolding FindsIt
  mz_hash_table_lookup_added again t t' o s self e =
      let sound : IsSound t' =
        subst (Ends calloc t) e (mz_hash_table_lookup-Ends calloc is_equal true hash item t s) in
      let (x, equal, (j, at_j)) = subst FindsIt e (lookup-FindsIt t s self) in
      let (k, y, at_k, same, found) =
        mz_hash_table_lookup-IsMatch calloc is_equal again hash item t' j x sound at_j equal in
      (y, same, found)
