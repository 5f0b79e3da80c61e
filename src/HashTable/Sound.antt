-- ===== src/HashTable/Sound.antt =====
-- minzip/Hash.c: tables that the operations keep sound, and in which every search ends.
use screenbox_rockchip_recov.Prelude.{
  ℕ, zero, suc, ◌+◌, ◌-◌, ◌*◌, ◌≤◌, ◌<◌, ◌≡◌, refl, sym, ap, ◌∙◌, Bool, true, false, List, [], ◌∷◌,
  Option, none, some, arith, Bool-cases, inl, inr, ◌==◌, length, get_elem?, set, replicate,
  length-set,
}
use mathlib.Core.Path.{subst}
use Prim.Native.Nat.{bit_and}
use screenbox_rockchip_recov.Prelude.{length-replicate}
use screenbox_rockchip_recov.HashTable.{
  Slot, empty, tombstone, used, is_empty, first_entry, HashTable, cleared, at_entry, probe,
  free_entry, rehash, Call, returns, aborts, reads_behind, runs_on, resize_hash,
}
use screenbox_rockchip_recov.HashTable.Masks.{
  IsPower, twice, IsPower-positive, bit_and-less, bit_and-small, bit_and-size,
}
use screenbox_rockchip_recov.HashTable.Probes.{
  next_of, next_of-less, distance, Reaches, probe_ends, probe-EndsAt, after_round-next,
  get_elem?-less, probe-goes,
}
use screenbox_rockchip_recov.HashTable.Counts.{
  is_used, is_tombstone, one_if, count, count-set, count_all, HasRoom, count-HasRoom,
  count-replicate, get_elem?-replicate, get_elem?-bound, AreReached, set-AreReached,
}

distance-less : (size i j : ℕ) → i < size → j < size → distance size i j < size
distance-less size i j hi hj = ground arith

wraps : (size i : ℕ) → IsPower size → i < size → bit_and (suc i) (size - 1) ≡ next_of size i
wraps size i p h = elim (Bool-cases (suc i == size)) [
  | inl at_end ↦
      let same : suc i ≡ size = ground (arith, at_end) in rw (at_end, same) (bit_and-size size p)
  | inr inside ↦ rw inside (bit_and-small size p (suc i) (ground (arith, inside)))
]

module _ {A : Type 0} where
  -- Of at most five eighths used or deleted entries, one at least is empty.
  pub room :
      (entries : List (Slot A))
      → 1 ≤ length entries
      → (count is_used entries + count is_tombstone entries) * 8 ≤ length entries * 5
      → HasRoom entries
  room entries size load = count-HasRoom entries (omega (arith, count_all entries))

  -- With an empty entry, the search ends, within as many rounds as there are entries.
  pub probe_in_room :
      (stops : Slot A → Bool) (entries : List (Slot A)) (i : ℕ)
      → HasRoom entries
      → stops empty ≡ true
      → i < length entries
      → (k : ℕ) × (probe stops entries (length entries) i ≡ at_entry k)
  probe_in_room stops entries i (e, lt, q) ends h =
      probe_ends stops entries (length entries) i e empty h q lt ends
        (distance-less (length entries) i e h lt)

  pub passes_none : (slot : Slot A) → is_empty slot ≡ false → is_empty slot ≡ false
  passes_none slot e = e

  -- The loop of `resizeHash` finds the entry at which a search for an empty one ends.
  free_entry-probe :
      (entries : List (Slot A)) (rounds i k : ℕ)
      → IsPower (length entries)
      → i < length entries
      → probe is_empty entries rounds i ≡ at_entry k
      → free_entry entries rounds i ≡ some k
  unfolding free_entry probe
  free_entry-probe entries zero i k p h e = absurd (ground (arith, e))
  free_entry-probe entries (suc rounds) i k p h e =
      let (slot, q) = get_elem?-less entries i h in
      by_slot slot q (λ found.
        free_entry-probe entries rounds (next_of (length entries) i) k p
          (next_of-less (length entries) i h) found)
    where
      by_slot :
          (slot : Slot A)
          → get_elem? entries i ≡ some slot
          → (probe is_empty entries rounds (next_of (length entries) i) ≡ at_entry k
              → free_entry entries rounds (next_of (length entries) i) ≡ some k)
          → free_entry entries (suc rounds) i ≡ some k
      by_slot slot q ih = elim (Bool-cases (is_empty slot)) [
        | inl free ↦
            let same : at_entry i ≡ at_entry k = sym (rw (probe, q, free) refl) ∙ e in
            rw (free_entry, q, free) (ground (arith, same))
        | inr full ↦
            rw (free_entry, q, full, wraps (length entries) i p h)
              (ih (
                after_round-next is_empty entries rounds i k
                  (sym (probe-goes is_empty entries rounds i slot q full) ∙ e)))
      ]

  -- New entries while the old ones are put into them: room for those still to come.
  pub record Fills (entries : List (Slot A)) (total : ℕ) : Type 0 where
    pub power : IsPower (length entries)
    pub counted : count is_used entries ≡ total
    pub undeleted : count is_tombstone entries ≡ 0
    pub reached : AreReached entries

  put-Fills :
      (entries : List (Slot A)) (total hash : ℕ) (item : A)
      → Fills entries total
      → total * 8 ≤ length entries * 5
      → (k : ℕ) × (free_entry entries (length entries) (first_entry hash (length entries)) ≡ some k)
        × Fills (set entries k (used hash item)) (suc total)
        × (length (set entries k (used hash item)) ≡ length entries)
  put-Fills entries total hash item f load =
      let size = IsPower-positive (length entries) f.power in
      let start = first_entry hash (length entries) in
      let inside = bit_and-less (length entries) hash size in
      let all = f.counted in
      let none_dead = f.undeleted in
      let (k, e) =
        probe_in_room is_empty entries start (room entries size (omega arith)) refl inside in
      let ((slot, q, free), path) =
        probe-EndsAt is_empty entries (length entries) start k passes_none e in
      let kept = length-set entries k (used hash item) in
      (
        k,
        free_entry-probe entries (length entries) start k f.power inside e,
        record {
          power = rw kept f.power;
          counted = more slot free (count-set is_used entries k slot (used hash item) q) all;
          undeleted =
              fewer slot free (count-set is_tombstone entries k slot (used hash item) q) none_dead;
          reached =
              set-AreReached entries k (used hash item) (get_elem?-bound entries k slot q) refl
                f.reached (λ hash' item' same. hash_path hash' item' same path);
        },
        kept,
      )
    where
      more :
          (slot : Slot A) {k c : ℕ}
          → is_empty slot ≡ true
          → k + one_if (is_used slot) ≡ c + 1
          → c ≡ total
          → k ≡ suc total
      more empty free e q = omega arith
      more tombstone free e q = ground arith
      more (used h x) free e q = ground arith

      fewer :
          (slot : Slot A) {k c : ℕ}
          → is_empty slot ≡ true
          → k + one_if (is_tombstone slot) ≡ c + 0
          → c ≡ 0
          → k ≡ 0
      fewer empty free e q = omega arith
      fewer tombstone free e q = ground arith
      fewer (used h x) free e q = ground arith

      hash_path :
          {k : ℕ} (hash' : ℕ) (item' : A)
          → used hash item ≡ used hash' item'
          → (n : ℕ) × Reaches entries n (first_entry hash (length entries)) k
          → (n : ℕ) × Reaches entries n (first_entry hash' (length entries)) k
      hash_path {k} hash' item' same path =
          let equal : hash ≡ hash' = ground (arith, same) in
          subst (λ x. (n : ℕ) × Reaches entries n (first_entry x (length entries)) k) equal path

  rehash-Fills :
      (old entries : List (Slot A)) (total : ℕ)
      → Fills entries total
      → (count is_used old + total) * 8 ≤ length entries * 5
      → (filled : List (Slot A)) × (rehash old entries ≡ some filled)
        × Fills filled (count is_used old + total)
        × (length filled ≡ length entries)
  unfolding rehash
  rehash-Fills [] entries total f load =
      (entries, refl, subst (Fills entries) (omega arith) f, refl)
  rehash-Fills (empty ∷ old) entries total f load =
      let (filled, q, f', same) = rehash-Fills old entries total f (omega (arith, load)) in
      (filled, q, subst (Fills filled) (omega arith) f', same)
  rehash-Fills (tombstone ∷ old) entries total f load =
      let (filled, q, f', same) = rehash-Fills old entries total f (omega (arith, load)) in
      (filled, q, subst (Fills filled) (omega arith) f', same)
  rehash-Fills (used hash item ∷ old) entries total f load =
      let (k, e, f', same) = put-Fills entries total hash item f (omega (arith, load)) in
      let (filled, q, f'', same') =
        rehash-Fills old (set entries k (used hash item)) (suc total) f'
          (omega (arith, load, same)) in
      (
        filled,
        ap
              (λ o. elim o as (λ _. Option (List (Slot A))) [
                | none ↦ none
                | some i ↦ rehash old (set entries i (used hash item))
              ])
              e
            ∙ q,
        subst (Fills filled) (omega arith) f'',
        same' ∙ same,
      )

  -- What holds of a table between two calls.
  pub record IsSound (t : HashTable A) : Type 0 where
    pub power : IsPower (length t.entries)
    pub live : count is_used t.entries ≡ t.num_entries
    pub dead : count is_tombstone t.entries ≡ t.num_dead_entries
    pub load : (t.num_entries + t.num_dead_entries) * 8 ≤ length t.entries * 5
    pub reached : AreReached t.entries

  -- A call returns, and leaves a sound table, or it aborts for want of memory.
  abbrev pub Ends : {B : Type 0} → (ℕ → Bool) → HashTable A → Call A B → Type 0
  Ends calloc t (returns b t') = IsSound t'
  Ends calloc t aborts = calloc (length t.entries * 2) ≡ false
  Ends calloc t reads_behind = ⊥
  Ends calloc t runs_on = ⊥

  pub cleared-IsSound : (size : ℕ) → IsPower size → IsSound (cleared size)
  cleared-IsSound size p =
      let kept = length-replicate {A = Slot A} size empty in
      record {
        power = rw kept p;
        live = count-replicate is_used size refl;
        dead = count-replicate is_tombstone size refl;
        load = omega arith;
        reached = λ j hash item e.
            let none_used = get_elem?-replicate size j (used hash item) e in
            absurd (ground (arith, none_used));
      }

  cleared-Fills : (size : ℕ) → IsPower size → Fills (replicate size empty) 0
  cleared-Fills size p =
      let s = cleared-IsSound size p in
      record { power = s.power; counted = s.live; undeleted = s.dead; reached = s.reached }

  pub resize_hash-Ends :
      (calloc : ℕ → Bool) (item : A) (t : HashTable A)
      → IsPower (length t.entries)
      → count is_used t.entries ≡ t.num_entries
      → t.num_entries * 8 ≤ length t.entries * 2 * 5
      → Ends calloc t (resize_hash calloc item t)
  unfolding resize_hash
  resize_hash-Ends calloc item t p live load = elim (Bool-cases (calloc (length t.entries * 2))) [
    | inr full ↦ rw full full
    | inl got ↦ rw got filled
  ]
    where
      filled :
          Ends calloc t
            (elim (rehash t.entries (replicate (length t.entries * 2) empty))
              as (λ _. Call A (Option A)) [
                | none ↦ runs_on
                | some entries ↦
                    returns (some item) (record t { entries = entries; num_dead_entries = 0 })
              ])
      filled =
          let size = length t.entries * 2 in
          let kept = length-replicate {A = Slot A} size empty in
          let (entries, e, f, same) =
            rehash-Fills t.entries (replicate size empty) 0
              (cleared-Fills size (twice size (length t.entries) p refl))
              (omega (arith, kept, live, load)) in
          let counted = f.counted in
          rw e (record {
            power = f.power;
            live = omega (arith, counted, live);
            dead = f.undeleted;
            load = omega (arith, same, kept, load);
            reached = f.reached;
          })
