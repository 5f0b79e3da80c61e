-- ===== src/HashTable/Operations.antt =====
-- minzip/Hash.c: what the operations on a sound table do.
use screenbox_rockchip_recov.Prelude.{
  ℕ, ◌+◌, ◌-◌, ◌*◌, ◌<◌, ◌≡◌, refl, sym, ap, ◌∙◌, Bool, true, false, Option, none, some, arith,
  Bool-cases, inl, inr, if◌then◌else◌, length, get_elem?, set, length-set,
}
use mathlib.Core.Path.{subst}
use screenbox_rockchip_recov.Prelude.{ltb, ◌||◌}
use screenbox_rockchip_recov.HashTable.{
  Slot, empty, tombstone, used, is_empty, first_entry, HashTable, at_entry, probe, Call, returns,
  aborts, reads_behind, runs_on, resize_hash, add_at, ends_lookup, mz_hash_table_lookup, is_item,
  mz_hash_table_remove,
}
use screenbox_rockchip_recov.HashTable.Masks.{IsPower, IsPower-positive, bit_and-less}
use screenbox_rockchip_recov.HashTable.Probes.{Reaches, probe-EndsAt, probe_meets}
use screenbox_rockchip_recov.HashTable.Counts.{
  is_used, is_tombstone, count, count-set, HasRoom, get_elem?-bound, set-AreReached,
}
use screenbox_rockchip_recov.HashTable.Sound.{IsSound, Ends, room, probe_in_room, resize_hash-Ends}

module _ {A : Type 0} (calloc : ℕ → Bool) where
  pub sound-room : (t : HashTable A) → IsSound t → HasRoom t.entries
  sound-room t s =
      let live = s.live in
      let dead = s.dead in
      let load = s.load in
      room t.entries (IsPower-positive (length t.entries) s.power) (omega arith)

  pub start-less :
      (t : HashTable A) (hash : ℕ)
      → IsSound t
      → first_entry hash (length t.entries) < length t.entries
  start-less t hash s =
      bit_and-less (length t.entries) hash (IsPower-positive (length t.entries) s.power)

  add_at-Ends :
      (hash : ℕ) (item : A) (i : ℕ) (t : HashTable A)
      → IsSound t
      → get_elem? t.entries i ≡ some empty
      → ((n : ℕ) × Reaches t.entries n (first_entry hash (length t.entries)) i)
      → Ends calloc t (add_at calloc hash item i t)
  unfolding add_at
  add_at-Ends hash item i t s e path =
      let kept = length-set t.entries i (used hash item) in
      let live = s.live in
      let dead = s.dead in
      let load = s.load in
      let positive = IsPower-positive (length t.entries) s.power in
      let more = count-set is_used t.entries i empty (used hash item) e in
      let same = count-set is_tombstone t.entries i empty (used hash item) e in
      let power : IsPower (length (set t.entries i (used hash item))) = rw kept s.power in
      let counted : count is_used (set t.entries i (used hash item)) ≡ t.num_entries + 1 =
        omega (arith, more, live) in
      let added : HashTable A = record t {
        entries = set t.entries i (used hash item);
        num_entries = t.num_entries + 1;
      } in
      elim (Bool-cases
        (ltb (length t.entries * 5) ((t.num_entries + 1 + t.num_dead_entries) * 8))) [
          | inl crowded ↦ rw crowded (
              bigger added (resize_hash calloc item added) kept (
                resize_hash-Ends calloc item added power counted
                  (omega (arith, kept, load, positive))))
          | inr loose ↦ rw loose (record {
            power = power;
            live = counted;
            dead = omega (arith, same, dead);
            load = rw kept (ground (arith, loose));
            reached =
                set-AreReached t.entries i (used hash item) (get_elem?-bound t.entries i empty e)
                  refl s.reached (λ hash' item' q. hash_path hash' item' q path);
          })
        ]
    where
      hash_path :
          (hash' : ℕ) (item' : A)
          → used hash item ≡ used hash' item'
          → (n : ℕ) × Reaches t.entries n (first_entry hash (length t.entries)) i
          → (n : ℕ) × Reaches t.entries n (first_entry hash' (length t.entries)) i
      hash_path hash' item' same path =
          let equal : hash ≡ hash' = ground (arith, same) in
          subst (λ x. (n : ℕ) × Reaches t.entries n (first_entry x (length t.entries)) i) equal path

      bigger :
          (added : HashTable A) (c : Call A (Option A))
          → length added.entries ≡ length t.entries
          → Ends calloc added c
          → Ends calloc t c
      bigger added (returns b t') kept s' = s'
      bigger added aborts kept full = rw (sym kept) full
      bigger added reads_behind kept no_way = no_way
      bigger added runs_on kept no_way = no_way

  -- On a sound table, `mzHashTableLookup` ends: it returns and leaves a sound table, or it aborts, where
  -- there is no memory for a table of twice the size. It never searches without end, and never reads
  -- behind the table.
  pub mz_hash_table_lookup-Ends :
      (is_equal : A → A → Bool) (do_add : Bool) (hash : ℕ) (item : A) (t : HashTable A)
      → IsSound t
      → Ends calloc t (mz_hash_table_lookup calloc is_equal do_add hash item t)
  unfolding mz_hash_table_lookup
  mz_hash_table_lookup-Ends is_equal do_add hash item t s =
      let stops = ends_lookup calloc is_equal hash item in
      let (k, e) =
        probe_in_room stops t.entries (first_entry hash (length t.entries)) (sound-room t s) refl
          (start-less t hash s) in
      let ((slot, q, ended), path) =
        probe-EndsAt stops t.entries (length t.entries) (first_entry hash (length t.entries)) k
          passes e in
      rw (mz_hash_table_lookup, e, q) (by_slot slot k q path)
    where
      passes :
          (slot : Slot A)
          → ends_lookup calloc is_equal hash item slot ≡ false
          → is_empty slot ≡ false
      passes slot e = ground (arith, e)

      by_slot :
          (slot : Slot A) (k : ℕ)
          → get_elem? t.entries k ≡ some slot
          → ((n : ℕ) × Reaches t.entries n (first_entry hash (length t.entries)) k)
          → Ends calloc t (elim slot as (λ _. Call A (Option A)) [
            | empty ↦ if do_add then add_at calloc hash item k t else returns none t
            | tombstone ↦ returns none t
            | used _ data_ ↦ returns (some data_) t
          ])
      by_slot empty k q path = elim (Bool-cases do_add) [
        | inl adds ↦ rw adds (add_at-Ends hash item k t s q path)
        | inr looks ↦ rw looks s
      ]
      by_slot tombstone k q path = s
      by_slot (used h x) k q path = s

  -- On a sound table, `mzHashTableRemove` ends: it returns, and leaves a sound table.
  pub mz_hash_table_remove-Ends :
      (is_same : A → A → Bool) (hash : ℕ) (item : A) (t : HashTable A)
      → IsSound t
      → (removed : Bool) × (t' : HashTable A) × (mz_hash_table_remove calloc is_same hash item t
          ≡ returns removed t')
        × IsSound t'
  unfolding mz_hash_table_remove
  mz_hash_table_remove-Ends is_same hash item t s =
      let stops : Slot A → Bool = λ slot. is_empty slot || is_item calloc is_same item slot in
      let (k, e) =
        probe_in_room stops t.entries (first_entry hash (length t.entries)) (sound-room t s) refl
          (start-less t hash s) in
      let ((slot, q, ended), path) =
        probe-EndsAt stops t.entries (length t.entries) (first_entry hash (length t.entries)) k
          (λ slot passed. ground (arith, passed)) e in
      by_slot slot k e q ended
    where
      by_slot :
          (slot : Slot A) (k : ℕ)
          → probe
              (λ slot'. is_empty slot' || is_item calloc is_same item slot')
              t.entries
              (length t.entries)
              (first_entry hash (length t.entries))
            ≡ at_entry k
          → get_elem? t.entries k ≡ some slot
          → (is_empty slot || is_item calloc is_same item slot) ≡ true
          → (removed : Bool) × (t' : HashTable A) × (mz_hash_table_remove calloc is_same hash item t
              ≡ returns removed t')
            × IsSound t'
      by_slot empty k e q ended = (false, t, rw (mz_hash_table_remove, e, q) refl, s)
      by_slot tombstone k e q ended = ground (arith, ended)
      by_slot (used h x) k e q ended =
          let kept = length-set t.entries k tombstone in
          let live = s.live in
          let dead = s.dead in
          let load = s.load in
          let fewer = count-set is_used t.entries k (used h x) tombstone q in
          let more = count-set is_tombstone t.entries k (used h x) tombstone q in
          (
            true,
            record t {
              entries = set t.entries k tombstone;
              num_entries = t.num_entries - 1;
              num_dead_entries = t.num_dead_entries + 1;
            },
            rw (mz_hash_table_remove, e, q) refl,
            record {
              power = rw kept s.power;
              live = omega (arith, fewer, live);
              dead = omega (arith, more, dead);
              load = omega (arith, kept, load, fewer, live);
              reached =
                  set-AreReached t.entries k tombstone (get_elem?-bound t.entries k (used h x) q)
                    refl s.reached (λ hash' item' same. absurd (ground (arith, same)));
            },
          )

  -- An item of a sound table is found: `mzHashTableLookup` with its hash, and with an item that
  -- `cmpFunc` takes for it, returns an item of the table of that hash that `cmpFunc` takes for it, and
  -- the table as it was.
  pub mz_hash_table_lookup-IsMatch :
      (is_equal : A → A → Bool) (do_add : Bool) (hash : ℕ) (item : A) (t : HashTable A) (j : ℕ)
      (x : A)
      → IsSound t
      → get_elem? t.entries j ≡ some (used hash x)
      → is_equal x item ≡ true
      → (k : ℕ) × (y : A) × (get_elem? t.entries k ≡ some (used hash y))
        × (is_equal y item ≡ true)
        × (mz_hash_table_lookup calloc is_equal do_add hash item t ≡ returns (some y) t)
  unfolding mz_hash_table_lookup
  mz_hash_table_lookup-IsMatch is_equal do_add hash item t j x s at_j equal =
      let stops = ends_lookup calloc is_equal hash item in
      let start = first_entry hash (length t.entries) in
      let (k, e) =
        probe_in_room stops t.entries start (sound-room t s) refl (start-less t hash s) in
      let ((slot, q, ended), _) =
        probe-EndsAt stops t.entries (length t.entries) start k
          (λ slot' passed. ground (arith, passed)) e in
      let (n, path) = s.reached j hash x at_j in
      let (taken, q', full) =
        probe_meets stops t.entries (length t.entries) n start j k path (used hash x) at_j
          (ground (arith, equal)) refl e in
      let same : taken ≡ slot = ground (arith, q, q') in
      by_slot slot k e q ended (subst (λ c. is_empty c ≡ false) same full)
    where
      by_slot :
          (slot : Slot A) (k : ℕ)
          → probe
              (ends_lookup calloc is_equal hash item)
              t.entries
              (length t.entries)
              (first_entry hash (length t.entries))
            ≡ at_entry k
          → get_elem? t.entries k ≡ some slot
          → ends_lookup calloc is_equal hash item slot ≡ true
          → is_empty slot ≡ false
          → (k' : ℕ) × (y : A) × (get_elem? t.entries k' ≡ some (used hash y))
            × (is_equal y item ≡ true)
            × (mz_hash_table_lookup calloc is_equal do_add hash item t ≡ returns (some y) t)
      by_slot empty k e q ended full = ground (arith, full)
      by_slot tombstone k e q ended full = ground (arith, ended)
      by_slot (used h y) k e q ended full =
          let here : h ≡ hash = ground (arith, ended) in
          (
            k,
            y,
            q ∙ ap (λ c. some (used c y)) here,
            ground (arith, ended),
            rw (mz_hash_table_lookup, e, q) refl,
          )
