-- ===== src/HashTable/Counts.antt =====
-- minzip/Hash.c: how many entries are used, deleted and empty, and what a write to one entry changes.
use screenbox_rockchip_recov.Prelude.{
  ℕ, zero, suc, ◌+◌, ◌≤◌, ◌<◌, ◌≡◌, refl, sym, ap, ◌∙◌, Bool, true, false, List, [], ◌∷◌, some,
  arith, length, get_elem?, set, replicate, get_elem?-set_self, get_elem?-set_ne, length-set,
}
use native.Mathlib.Decide.{ℕ_discrete}
use screenbox_rockchip_recov.HashTable.{Slot, empty, tombstone, used, is_empty, first_entry}
use screenbox_rockchip_recov.HashTable.Probes.{next_of, IsTaken, Reaches}

abbrev pub one_if : Bool → ℕ
one_if true = 1
one_if false = 0

module _ {A : Type 0} where
  abbrev pub is_used : Slot A → Bool
  is_used (used hash item) = true
  is_used _ = false

  abbrev pub is_tombstone : Slot A → Bool
  is_tombstone tombstone = true
  is_tombstone _ = false

  abbrev pub count : (Slot A → Bool) → List (Slot A) → ℕ
  count p [] = 0
  count p (s ∷ entries) = one_if (p s) + count p entries

  pub count-set :
      (p : Slot A → Bool) (entries : List (Slot A)) (i : ℕ) (old new : Slot A)
      → get_elem? entries i ≡ some old
      → count p (set entries i new) + one_if (p old) ≡ count p entries + one_if (p new)
  count-set p [] i old new e = absurd (ground (arith, e))
  count-set p (s ∷ entries) zero old new e =
      let same : s ≡ old = ground (arith, e) in rw same (omega arith)
  count-set p (s ∷ entries) (suc i) old new e = omega (arith, count-set p entries i old new e)

  one_of : (s : Slot A) → one_if (is_used s) + one_if (is_tombstone s) + one_if (is_empty s) ≡ 1
  one_of empty = refl
  one_of tombstone = refl
  one_of (used hash item) = refl

  pub count_all :
      (entries : List (Slot A))
      → count is_used entries + count is_tombstone entries + count is_empty entries ≡ length entries
  count_all [] = refl
  count_all (s ∷ entries) = omega (arith, one_of s, count_all entries)

  -- Where an entry is empty.
  abbrev pub HasRoom : List (Slot A) → Type 0
  HasRoom entries = (e : ℕ) × (e < length entries) × (get_elem? entries e ≡ some empty)

  pub count-HasRoom : (entries : List (Slot A)) → 1 ≤ count is_empty entries → HasRoom entries
  count-HasRoom [] h = absurd (omega arith)
  count-HasRoom (empty ∷ entries) h = (0, omega arith, refl)
  count-HasRoom (tombstone ∷ entries) h =
      let (e, lt, q) = count-HasRoom entries (omega (arith, h)) in (suc e, omega arith, q)
  count-HasRoom (used hash item ∷ entries) h =
      let (e, lt, q) = count-HasRoom entries (omega (arith, h)) in (suc e, omega arith, q)

  pub count-replicate :
      (p : Slot A → Bool) (n : ℕ) → p empty ≡ false → count p (replicate n empty) ≡ 0
  count-replicate p zero e = refl
  count-replicate p (suc n) e = rw e (omega (arith, count-replicate p n e))

  pub get_elem?-replicate :
      (n i : ℕ) (s : Slot A) → get_elem? (replicate n empty) i ≡ some s → s ≡ empty
  get_elem?-replicate zero i s e = absurd (ground (arith, e))
  get_elem?-replicate (suc n) zero s e = ground (arith, e)
  get_elem?-replicate (suc n) (suc i) s e = get_elem?-replicate n i s e

  pub get_elem?-bound :
      (entries : List (Slot A)) (i : ℕ) (s : Slot A)
      → get_elem? entries i ≡ some s
      → i < length entries
  get_elem?-bound [] i s e = absurd (ground (arith, e))
  get_elem?-bound (x ∷ entries) zero s e = omega arith
  get_elem?-bound (x ∷ entries) (suc i) s e = omega (arith, get_elem?-bound entries i s e)

  -- An entry that is written, and is not emptied, leaves what is reached.
  set-IsTaken :
      (entries : List (Slot A)) (k : ℕ) (new : Slot A) (i : ℕ)
      → k < length entries
      → is_empty new ≡ false
      → IsTaken entries i
      → IsTaken (set entries k new) i
  set-IsTaken entries k new i h full (s, e, taken) = elim (ℕ_discrete k i) [
    | yes same ↦ (
      new,
      ap (get_elem? (set entries k new)) (sym same) ∙ get_elem?-set_self entries k new h,
      full,
    )
    | no apart ↦ (s, get_elem?-set_ne entries new apart ∙ e, taken)
  ]

  pub set-Reaches :
      (entries : List (Slot A)) (k : ℕ) (new : Slot A) (n i j : ℕ)
      → k < length entries
      → is_empty new ≡ false
      → Reaches entries n i j
      → Reaches (set entries k new) n i j
  set-Reaches entries k new zero i j h full e = e
  set-Reaches entries k new (suc n) i j h full (taken, path) = rw (length-set entries k new) (
    set-IsTaken entries k new i h full taken,
    set-Reaches entries k new n (next_of (length entries) i) j h full path,
  )

  -- Each item is reached from the first entry of its hash.
  abbrev pub AreReached : List (Slot A) → Type 0
  AreReached entries =
      (j hash : ℕ) (item : A)
      → get_elem? entries j ≡ some (used hash item)
      → (n : ℕ) × Reaches entries n (first_entry hash (length entries)) j

  -- A write keeps that, if what is written is reached itself.
  pub set-AreReached :
      (entries : List (Slot A)) (k : ℕ) (new : Slot A)
      → k < length entries
      → is_empty new ≡ false
      → AreReached entries
      → ((hash : ℕ) (item : A)
          → new ≡ used hash item
          → (n : ℕ) × Reaches entries n (first_entry hash (length entries)) k)
      → AreReached (set entries k new)
  set-AreReached entries k new h full reached itself j hash item e = elim (ℕ_discrete k j) [
    | yes same ↦
        let here : some new ≡ some (used hash item) =
          sym (get_elem?-set_self entries k new h) ∙ ap (get_elem? (set entries k new)) same ∙ e in
        let (n, path) = itself hash item (ground (arith, here)) in
        rw (length-set entries k new, ← same) (n, set-Reaches entries k new n _ k h full path)
    | no apart ↦
        let (n, path) = reached j hash item (sym (get_elem?-set_ne entries new apart) ∙ e) in
        rw (length-set entries k new) (n, set-Reaches entries k new n _ j h full path)
  ]
