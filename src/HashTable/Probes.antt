-- ===== src/HashTable/Probes.antt =====
-- minzip/Hash.c: the loops that probe: where they stop, and that they do.
use screenbox_rockchip_recov.Prelude.{
  ℕ, zero, suc, ◌+◌, ◌-◌, ◌<◌, ◌≡◌, ◌≢◌, refl, sym, ap, ◌∙◌, Bool, true, false, List, [], ◌∷◌,
  Option, none, some, arith, Bool-cases, inl, inr, leb, ◌==◌, if◌then◌else◌, length, get_elem?,
}
use screenbox_rockchip_recov.HashTable.{Slot, is_empty, Probe, at_entry, behind, probe}

-- The entry behind the entry `i`, wrapping around.
abbrev pub next_of : ℕ → ℕ → ℕ
next_of size i = if suc i == size then 0 else suc i

-- How many steps lead from an entry to another.
abbrev pub distance : ℕ → ℕ → ℕ → ℕ
distance size i j = if leb i j then j - i else size - i + j

pub next_of-less : (size i : ℕ) → i < size → next_of size i < size
next_of-less size i h = ground arith

closer :
    (size i j n : ℕ)
    → i < size
    → j < size
    → i ≢ j
    → distance size i j < suc n
    → distance size (next_of size i) j < n
closer size i j n hi hj apart h = ground (arith, apart)

not_single : (size i j : ℕ) → i < size → j < size → i ≢ j → (size == 1) ≡ false
not_single size i j hi hj apart = ground (arith, apart)

module _ {A : Type 0} where
  abbrev pub IsTaken : List (Slot A) → ℕ → Type 0
  IsTaken entries i = (slot : Slot A) × (get_elem? entries i ≡ some slot) × (is_empty slot ≡ false)

  -- From `i`, over entries that are not empty, to `j`, in so many steps.
  abbrev pub Reaches : List (Slot A) → ℕ → ℕ → ℕ → Type 0
  Reaches entries zero i j = i ≡ j
  Reaches entries (suc n) i j = IsTaken entries i × Reaches entries n (next_of (length entries) i) j

  pub get_elem?-less :
      (entries : List (Slot A)) (i : ℕ)
      → i < length entries
      → (slot : Slot A) × (get_elem? entries i ≡ some slot)
  get_elem?-less [] i h = absurd (omega arith)
  get_elem?-less (s ∷ entries) zero h = (s, refl)
  get_elem?-less (s ∷ entries) (suc i) h = get_elem?-less entries i (omega arith)

  -- A round of the loop that does not end it.
  abbrev pub after_round : (Slot A → Bool) → List (Slot A) → ℕ → ℕ → Probe
  after_round stops entries rounds i =
      if suc i == length entries
      then (if length entries == 1 then behind else probe stops entries rounds 0)
      else probe stops entries rounds (suc i)

  probe-stops :
      (stops : Slot A → Bool) (entries : List (Slot A)) (rounds i : ℕ) (slot : Slot A)
      → get_elem? entries i ≡ some slot
      → stops slot ≡ true
      → probe stops entries (suc rounds) i ≡ at_entry i
  unfolding probe
  probe-stops stops entries rounds i slot e ended = rw (probe, e, ended) refl

  pub probe-goes :
      (stops : Slot A → Bool) (entries : List (Slot A)) (rounds i : ℕ) (slot : Slot A)
      → get_elem? entries i ≡ some slot
      → stops slot ≡ false
      → probe stops entries (suc rounds) i ≡ after_round stops entries rounds i
  unfolding probe
  probe-goes stops entries rounds i slot e on = rw (probe, e, on) refl

  -- The next round is at the next entry, unless the table has a single one.
  pub after_round-next :
      (stops : Slot A → Bool) (entries : List (Slot A)) (rounds i j : ℕ)
      → after_round stops entries rounds i ≡ at_entry j
      → probe stops entries rounds (next_of (length entries) i) ≡ at_entry j
  after_round-next stops entries rounds i j e = elim (Bool-cases (suc i == length entries)) [
    | inr inside ↦ rw inside (sym (rw inside refl) ∙ e)
    | inl at_end ↦ elim (Bool-cases (length entries == 1)) [
      | inr many ↦ rw at_end (sym (rw (at_end, many) refl) ∙ e)
      | inl single ↦
          let left : behind ≡ at_entry j = sym (rw (at_end, single) refl) ∙ e in
          absurd (ground (arith, left))
    ]
  ]

  -- The loop goes on at the next entry, in a table of more than one.
  probe-next :
      (stops : Slot A → Bool) (entries : List (Slot A)) (rounds i : ℕ) (slot : Slot A)
      → get_elem? entries i ≡ some slot
      → stops slot ≡ false
      → (length entries == 1) ≡ false
      → probe stops entries (suc rounds) i ≡ probe stops entries rounds (next_of (length entries) i)
  probe-next stops entries rounds i slot e on many =
      probe-goes stops entries rounds i slot e on ∙ (elim (Bool-cases (suc i == length entries)) [
        | inl at_end ↦ rw (at_end, many) refl
        | inr inside ↦ rw inside refl
      ])

  -- With more rounds than there are steps to an entry that ends it, the loop ends.
  pub probe_ends :
      (stops : Slot A → Bool) (entries : List (Slot A)) (rounds i j : ℕ) (slot : Slot A)
      → i < length entries
      → get_elem? entries j ≡ some slot
      → j < length entries
      → stops slot ≡ true
      → distance (length entries) i j < rounds
      → (k : ℕ) × (probe stops entries rounds i ≡ at_entry k)
  probe_ends stops entries zero i j slot hi e hj ended h = absurd (omega arith)
  probe_ends stops entries (suc rounds) i j slot hi e hj ended h =
      let (here, at_i) = get_elem?-less entries i hi in
      elim (Bool-cases (stops here)) [
        | inl found ↦ (i, probe-stops stops entries rounds i here at_i found)
        | inr on ↦
            let apart : i ≢ j = λ same.
              let there : some here ≡ some slot = sym at_i ∙ ap (get_elem? entries) same ∙ e in
              let equal : here ≡ slot = ground (arith, there) in
              let both : true ≡ false = sym ended ∙ ap stops (sym equal) ∙ on in
              ground (arith, both) in
            let (k, q) =
              probe_ends stops entries rounds (next_of (length entries) i) j slot
                (next_of-less (length entries) i hi) e hj ended
                (closer (length entries) i j rounds hi hj apart h) in
            (
              k,
              probe-next stops entries rounds i here at_i on
                    (not_single (length entries) i j hi hj apart)
                  ∙ q,
            )
      ]

  -- Where the loop ends: the entry ends it, and those before it are not empty.
  abbrev pub EndsAt : (Slot A → Bool) → List (Slot A) → ℕ → ℕ → Type 0
  EndsAt stops entries i j =
      ((slot : Slot A) × (get_elem? entries j ≡ some slot) × (stops slot ≡ true))
      × ((n : ℕ) × Reaches entries n i j)

  pub probe-EndsAt :
      (stops : Slot A → Bool) (entries : List (Slot A)) (rounds i j : ℕ)
      → ((slot : Slot A) → stops slot ≡ false → is_empty slot ≡ false)
      → probe stops entries rounds i ≡ at_entry j
      → EndsAt stops entries i j
  unfolding probe
  probe-EndsAt stops entries zero i j passes e = ground (arith, e)
  probe-EndsAt stops entries (suc rounds) i j passes e =
      by_entry (get_elem? entries i) refl
        (λ q. probe-EndsAt stops entries rounds (next_of (length entries) i) j passes q)
    where
      by_slot :
          (slot : Slot A)
          → get_elem? entries i ≡ some slot
          → (probe stops entries rounds (next_of (length entries) i) ≡ at_entry j
              → EndsAt stops entries (next_of (length entries) i) j)
          → EndsAt stops entries i j
      by_slot slot q ih = elim (Bool-cases (stops slot)) [
        | inl found ↦
            let same : at_entry i ≡ at_entry j =
              sym (probe-stops stops entries rounds i slot q found) ∙ e in
            let equal : i ≡ j = ground (arith, same) in
            ((slot, ap (get_elem? entries) (sym equal) ∙ q, found), (0, equal))
        | inr on ↦
            let (last, (n, path)) = ih (
              after_round-next stops entries rounds i j
                (sym (probe-goes stops entries rounds i slot q on) ∙ e)) in
            (last, (suc n, ((slot, q, passes slot on), path)))
      ]

      by_entry :
          (o : Option (Slot A))
          → get_elem? entries i ≡ o
          → (probe stops entries rounds (next_of (length entries) i) ≡ at_entry j
              → EndsAt stops entries (next_of (length entries) i) j)
          → EndsAt stops entries i j
      by_entry none q ih =
          let left : behind ≡ at_entry j = sym (rw (probe, q) refl) ∙ e in ground (arith, left)
      by_entry (some slot) q ih = by_slot slot q ih

  -- The loop does not end at an empty entry in front of one that ends it.
  pub probe_meets :
      (stops : Slot A → Bool) (entries : List (Slot A)) (rounds n i j k : ℕ)
      → Reaches entries n i j
      → (slot : Slot A) → get_elem? entries j ≡ some slot
      → stops slot ≡ true
      → is_empty slot ≡ false
      → probe stops entries rounds i ≡ at_entry k
      → IsTaken entries k
  unfolding probe
  probe_meets stops entries zero n i j k path slot e ended taken q = absurd (ground (arith, q))
  probe_meets stops entries (suc rounds) zero i j k path slot e ended taken q =
      let at_i : get_elem? entries i ≡ some slot = ap (get_elem? entries) path ∙ e in
      let same : at_entry i ≡ at_entry k =
        sym (probe-stops stops entries rounds i slot at_i ended) ∙ q in
      let equal : i ≡ k = ground (arith, same) in
      (slot, ap (get_elem? entries) (sym equal) ∙ at_i, taken)
  probe_meets stops entries (suc rounds) (suc n) i j k ((here, at_i, full), path) slot e ended taken
        q =
      elim (Bool-cases (stops here)) [
        | inl found ↦
            let same : at_entry i ≡ at_entry k =
              sym (probe-stops stops entries rounds i here at_i found) ∙ q in
            let equal : i ≡ k = ground (arith, same) in
            (here, ap (get_elem? entries) (sym equal) ∙ at_i, full)
        | inr on ↦
            probe_meets stops entries rounds n (next_of (length entries) i) j k path slot e ended
              taken
              (after_round-next stops entries rounds i k
                (sym (probe-goes stops entries rounds i here at_i on) ∙ q))
      ]
