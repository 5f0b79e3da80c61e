-- ===== src/ApplyPatch/Load/Smallest.antt =====
-- applypatch/applypatch.c: which of the sizes and digests `LoadPartitionContents` has found.
use mathlib.Core.Path.{subst}
use screenbox_rockchip_recov.Prelude.{
  ℕ, zero, suc, ◌+◌, ◌-◌, ◌/◌, ◌≤◌, ◌<◌, ◌≡◌, ◌≢◌, refl, sym, ap, ◌∙◌, true, false, not, List, [],
  ◌∷◌, ◌++◌, Option, none, some, arith, Bool-cases, inl, inr, ltb, ◌==◌, if◌then◌else◌, length,
  length-append, take, get_elem?, append-nil, append_assoc, take-append_eq,
}
use screenbox_rockchip_recov.Prelude.Bytes.{Bytes, str_eq, str_eq_iff}
use screenbox_rockchip_recov.Patch.{Outcome, returns, fails, overruns, runs_on, ◌>>=◌}
use screenbox_rockchip_recov.Patch.Outcomes.{Gives, Gives-if, given}
use screenbox_rockchip_recov.Verifier.{Mincrypt}
use screenbox_rockchip_recov.Verifier.Hashing.{Streams}
use screenbox_rockchip_recov.ApplyPatch.Digest.{parse_sha1}
use screenbox_rockchip_recov.ApplyPatch.Load.{
  Pair, PartitionType, Reader, tokens, count_colons, next_token, type_of, read_pairs, read_more,
  load_pairs, load_sorted, load_named, load_partition_contents,
}

-- Sizes in ascending order, none less than `n`.
abbrev pub AreAscending : ℕ → List Pair → Type 0
AreAscending n [] = Unit
AreAscending n (p ∷ ps) = (n ≤ p.0) × AreAscending p.0 ps

abbrev pub IsListed : Pair → List Pair → Type 0
IsListed p ps = (i : ℕ) × (get_elem? ps i ≡ some p)

-- What the C library says of `qsort` with `compare_size_indices`.
abbrev pub Sorts : (List Pair → List Pair) → Type 0
Sorts qsort =
    (ps : List Pair)
    → AreAscending 0 (qsort ps)
      × ((p : Pair) → IsListed p (qsort ps) → IsListed p ps)
      × ((p : Pair) → IsListed p ps → IsListed p (qsort ps))

Gives-map :
    {A : Type 0} (P Q : A → Type 0) (m : Outcome A) → ((a : A) → P a → Q a) → Gives P m → Gives Q m
Gives-map P Q (returns a) f h = f a h
Gives-map P Q fails f h = tt
Gives-map P Q overruns f h = tt
Gives-map P Q runs_on f h = tt

Gives-known :
    {A B : Type 0} (Q : B → Type 0) (m : Outcome A) (k : A → Outcome B)
    → ((a : A) → m ≡ returns a → Gives Q (k a))
    → Gives Q (m >>= k)
Gives-known Q (returns a) k h = h a refl
Gives-known Q fails k h = tt
Gives-known Q overruns k h = tt
Gives-known Q runs_on k h = tt

module _ {Key Ctx R : Type 0} (lib : Mincrypt Key Ctx Bytes) (reader : Reader R)
    (qsort : List Pair → List Pair) (s : Streams lib) where
  abbrev pub hash : Bytes → Bytes
  hash bytes = lib.sha_final (lib.sha_update lib.sha_init bytes)

  -- The digest that the string of the pair names is not that of the bytes.
  abbrev pub NotHashed : Bytes → Pair → Type 0
  NotHashed bytes (size, none) = Unit
  NotHashed bytes (size, some str) = parse_sha1 str ≢ some (hash bytes)

  -- The data and the digest are of a listed pair, and no smaller listed size had its digest.
  abbrev pub IsSmallest : List Pair → Bytes × Bytes → Type 0
  IsSmallest ps (bytes, digest) =
      ((str : Bytes) × IsListed (length bytes, some str) ps × (parse_sha1 str ≡ some digest))
      × (digest ≡ hash bytes)
      × ((p : Pair) → IsListed p ps → p.0 < length bytes → NotHashed (take p.0 bytes) p)

  abbrev ExtendsTo : Bytes → Bytes × Bytes → Type 0
  ExtendsTo so_far r = (t : Bytes) × (r.0 ≡ so_far ++ t)

  abbrev IsLoaded : Bytes → List Pair → Bytes × Bytes → Type 0
  IsLoaded so_far ps r = ExtendsTo so_far r × IsSmallest ps r

  at_least : (n : ℕ) (ps : List Pair) (p : Pair) → AreAscending n ps → IsListed p ps → n ≤ p.0
  at_least n [] p up (i, e) = ground arith
  at_least n (q ∷ ps) p up (zero, e) =
      let same : q ≡ p = ground arith in subst (λ q. n ≤ q.0) same up.0
  at_least n (q ∷ ps) p up (suc i, e) =
      let further = at_least q.0 ps p up.1 (i, e) in let first = up.0 in omega arith

  -- A pair is matched.
  matched :
      (size : ℕ) (str : Bytes) (ps : List Pair) (so_far got digest : Bytes)
      → AreAscending size ps
      → length (so_far ++ got) ≡ size
      → parse_sha1 str ≡ some digest
      → digest ≡ hash (so_far ++ got)
      → IsLoaded so_far ((size, some str) ∷ ps) (so_far ++ got, digest)
  matched size str ps so_far got digest up len parsed same = (
    (got, refl),
    (
      (str, (0, ap (λ n. some (n, some str)) (sym len)), parsed),
      same,
      λ p listed lt.
          let up' : AreAscending size ((size, some str) ∷ ps) = (omega arith, up) in
          let low = at_least size ((size, some str) ∷ ps) p up' listed in absurd (omega arith),
    ),
  )

  -- A pair is not matched, and a later one is.
  passed_over :
      (size : ℕ) (str : Bytes) (ps : List Pair) (so_far got : Bytes) (r : Bytes × Bytes)
      → length (so_far ++ got) ≡ size
      → parse_sha1 str ≢ some (hash (so_far ++ got))
      → IsLoaded (so_far ++ got) ps r
      → IsLoaded so_far ((size, some str) ∷ ps) r
  passed_over size str ps so_far got (bytes, digest) len differs
        ((t, e), ((str', (i, at_i), parsed), same, smaller)) =
      ((got ++ t, e ∙ append_assoc so_far got t), ((str', (suc i, at_i), parsed), same, each))
    where
      prefix : take size bytes ≡ so_far ++ got
      prefix = ap (take size) e ∙ take-append_eq size (so_far ++ got) t (sym len)

      each :
          (p : Pair)
          → IsListed p ((size, some str) ∷ ps)
          → p.0 < length bytes
          → NotHashed (take p.0 bytes) p
      each p (zero, q) lt =
          let here : (size, some str) ≡ p = ground arith in
          subst (λ (p : Pair). NotHashed (take p.0 bytes) p) here
            (subst (λ b. parse_sha1 str ≢ some (hash b)) (sym prefix) differs)
      each p (suc j, q) lt = smaller p (j, q) lt

  -- The digest so far, compared with that of a pair; `further` is the rest of the loop.
  compared-IsLoaded :
      (size : ℕ) (str : Bytes) (ps : List Pair) (so_far got : Bytes) (ctx : Ctx)
      (further : Outcome (Bytes × Bytes))
      → AreAscending size ps
      → length (so_far ++ got) ≡ size
      → ctx ≡ lib.sha_update lib.sha_init (so_far ++ got)
      → Gives (IsLoaded (so_far ++ got) ps) further
      → (o : Option Bytes) → parse_sha1 str ≡ o
      → Gives (IsLoaded so_far ((size, some str) ∷ ps)) (elim o as (λ _. Outcome (Bytes × Bytes)) [
        | none ↦ fails
        | some parsed_sha ↦
            if str_eq (lib.sha_final ctx) parsed_sha
            then returns (so_far ++ got, lib.sha_final ctx)
            else further
      ])
  compared-IsLoaded size str ps so_far got ctx further up len h ih none e = tt
  compared-IsLoaded size str ps so_far got ctx further up len h ih (some parsed) e =
      Gives-if (IsLoaded so_far ((size, some str) ∷ ps)) (str_eq (lib.sha_final ctx) parsed) _
        further
        (λ equal.
          let same = (str_eq_iff (lib.sha_final ctx) parsed).0 equal in
          matched size str ps so_far got (lib.sha_final ctx) up len
            (e ∙ ap (λ d. some d) (sym same)) (ap lib.sha_final h))
        (λ unequal.
          Gives-map (IsLoaded (so_far ++ got) ps) (IsLoaded so_far ((size, some str) ∷ ps)) further
            (λ r loaded. passed_over size str ps so_far got r len (differs unequal) loaded) ih)
    where
      differs :
          str_eq (lib.sha_final ctx) parsed ≡ false → parse_sha1 str ≢ some (hash (so_far ++ got))
      differs unequal q =
          let same : parsed ≡ hash (so_far ++ got) = ground (arith, e, q) in
          let equal = (str_eq_iff (lib.sha_final ctx) parsed).1 (ap lib.sha_final h ∙ sym same) in
          ground (arith, unequal, equal)

  round-IsLoaded :
      (size next : ℕ) (sha1sum : Option Bytes) (ps : List Pair) (so_far got : Bytes) (ctx : Ctx)
      (further : Outcome (Bytes × Bytes))
      → AreAscending size ps
      → length so_far + next ≡ size
      → (length got ≡ next → ctx ≡ lib.sha_update lib.sha_init (so_far ++ got))
      → (length (so_far ++ got) ≡ size
          → ctx ≡ lib.sha_update lib.sha_init (so_far ++ got)
          → Gives (IsLoaded (so_far ++ got) ps) further)
      → Gives (IsLoaded so_far ((size, sha1sum) ∷ ps)) (
          if not (length got == next)
          then fails
          else elim sha1sum as (λ _. Outcome (Bytes × Bytes)) [
            | none ↦ overruns
            | some str ↦ elim (parse_sha1 str) as (λ _. Outcome (Bytes × Bytes)) [
              | none ↦ fails
              | some parsed_sha ↦
                  if str_eq (lib.sha_final ctx) parsed_sha
                  then returns (so_far ++ got, lib.sha_final ctx)
                  else further
            ]
          ])
  round-IsLoaded size next sha1sum ps so_far got ctx further up sum hashed ih =
      elim (Bool-cases (length got == next)) [
        | inr short ↦ rw short tt
        | inl whole ↦
            let read : length got ≡ next = ground arith in
            let len : length (so_far ++ got) ≡ size = length-append so_far got ∙ omega arith in
            rw whole (by_string len (hashed read) sha1sum)
      ]
    where
      by_string :
          length (so_far ++ got) ≡ size
          → ctx ≡ lib.sha_update lib.sha_init (so_far ++ got)
          → (o : Option Bytes)
          → Gives (IsLoaded so_far ((size, o) ∷ ps)) (elim o as (λ _. Outcome (Bytes × Bytes)) [
            | none ↦ overruns
            | some str ↦ elim (parse_sha1 str) as (λ _. Outcome (Bytes × Bytes)) [
              | none ↦ fails
              | some parsed_sha ↦
                  if str_eq (lib.sha_final ctx) parsed_sha
                  then returns (so_far ++ got, lib.sha_final ctx)
                  else further
            ]
          ])
      by_string len h none = tt
      by_string len h (some str) =
          compared-IsLoaded size str ps so_far got ctx further up len h (ih len h) (parse_sha1 str)
            refl

  updated :
      (next : ℕ) (so_far got : Bytes) (ctx : Ctx)
      → ctx ≡ lib.sha_update lib.sha_init so_far
      → length got ≡ next
      → (if ltb 0 next then lib.sha_update ctx got else ctx)
        ≡ lib.sha_update lib.sha_init (so_far ++ got)
  updated zero so_far [] ctx h e = h ∙ ap (lib.sha_update lib.sha_init) (sym (append-nil so_far))
  updated zero so_far (c ∷ got) ctx h e = ground arith
  updated (suc n) so_far got ctx h e =
      let positive : ltb 0 (suc n) ≡ true = ground arith in
      rw positive (ap (λ c. lib.sha_update c got) h ∙ s.1 lib.sha_init so_far got)

  load_pairs-IsLoaded :
      (ps : List Pair) (r : R) (so_far : Bytes) (ctx : Ctx)
      → AreAscending (length so_far) ps
      → ctx ≡ lib.sha_update lib.sha_init so_far
      → Gives (IsLoaded so_far ps) (load_pairs lib reader qsort ps r so_far ctx)
  unfolding load_pairs
  load_pairs-IsLoaded [] r so_far ctx up h = tt
  load_pairs-IsLoaded ((size, sha1sum) ∷ ps) r so_far ctx up h =
      let next = size - length so_far in
      let (got, r') = read_more lib reader qsort r next in
      round-IsLoaded size next sha1sum ps so_far got _ _ up.1 (let low = up.0 in omega arith)
        (updated next so_far got ctx h)
        (λ len h'.
          load_pairs-IsLoaded ps r' (so_far ++ got) _
            (subst (λ n. AreAscending n ps) (sym len) up.1) h')

  load_sorted-IsSmallest :
      (ps : List Pair) (r : R)
      → AreAscending 0 ps
      → Gives (IsSmallest ps) (load_sorted lib reader qsort ps r)
  unfolding load_sorted
  load_sorted-IsSmallest [] r up = tt
  load_sorted-IsSmallest (p ∷ ps) r up =
      Gives-map (IsLoaded [] (p ∷ ps)) (IsSmallest (p ∷ ps))
        (load_pairs lib reader qsort (p ∷ ps) r [] lib.sha_init) (λ x h. h.1)
        (load_pairs-IsLoaded (p ∷ ps) r [] lib.sha_init up (sym (s.0 lib.sha_init)))

  sorted-IsSmallest :
      Sorts qsort → (ps : List Pair) (x : Bytes × Bytes) → IsSmallest (qsort ps) x → IsSmallest ps x
  sorted-IsSmallest sorts ps x ((str, listed, parsed), same, smaller) =
      let (up, from, to) = sorts ps in
      ((str, from (length x.0, some str) listed, parsed), same, λ p here. smaller p (to p here))

  -- The pairs that the name of a partition lists.
  abbrev pub Lists : Bytes → List Pair → Type 0
  Lists filename ps =
      (magic : Bytes) × (ts : List Bytes) × (tokens filename ≡ magic ∷ ts)
      × (read_pairs ((count_colons filename - 1) / 2) (next_token ts).1 ≡ returns ps)

  abbrev pub IsSmallestOf : Bytes → Bytes × Bytes → Type 0
  IsSmallestOf filename x = (ps : List Pair) × Lists filename ps × IsSmallest ps x

  load_named-IsSmallestOf :
      Sorts qsort
      → (type : PartitionType) (filename magic : Bytes) (ts : List Bytes)
      → tokens filename ≡ magic ∷ ts
      → Gives (IsSmallestOf filename) (load_named lib reader qsort type filename ts)
  unfolding load_named
  load_named-IsSmallestOf sorts type filename magic ts e =
      let sizes = (next_token ts).1 in
      Gives-known (IsSmallestOf filename) (read_pairs ((count_colons filename - 1) / 2) sizes) _
        (λ ps pairs.
          Gives-known (IsSmallestOf filename) (reader.open_partition type (next_token ts).0) _
            (λ r opened.
              Gives-map (IsSmallest (qsort ps)) (IsSmallestOf filename)
                (load_sorted lib reader qsort (qsort ps) r)
                (λ x h. (ps, (magic, ts, e, pairs), sorted-IsSmallest sorts ps x h))
                (load_sorted-IsSmallest (qsort ps) r (sorts ps).0)))

  -- Where SHA_update streams and qsort sorts: what `LoadPartitionContents` loads has the size and
  -- the digest of one of the pairs in the name, the digest is that of the data, and for every pair
  -- of a smaller size, the digest of that many of the bytes is another than the pair's.
  pub load_partition_contents-IsSmallestOf :
      Sorts qsort
      → (filename : Bytes) (x : Bytes × Bytes)
      → load_partition_contents lib reader qsort filename ≡ returns x
      → IsSmallestOf filename x
  unfolding load_partition_contents
  load_partition_contents-IsSmallestOf sorts filename x e =
      given (IsSmallestOf filename) _ x (by_tokens (tokens filename) refl) e
    where
      by_type :
          (magic : Bytes) (ts : List Bytes)
          → tokens filename ≡ magic ∷ ts
          → (o : Option PartitionType)
          → Gives (IsSmallestOf filename) (elim o as (λ _. Outcome (Bytes × Bytes)) [
            | none ↦ fails
            | some type ↦ load_named lib reader qsort type filename ts
          ])
      by_type magic ts q none = tt
      by_type magic ts q (some type) = load_named-IsSmallestOf sorts type filename magic ts q

      by_tokens :
          (ts : List Bytes)
          → tokens filename ≡ ts
          → Gives (IsSmallestOf filename) (elim ts as (λ _. Outcome (Bytes × Bytes)) [
            | [] ↦ overruns
            | magic ∷ ts ↦ elim (type_of magic) as (λ _. Outcome (Bytes × Bytes)) [
              | none ↦ fails
              | some type ↦ load_named lib reader qsort type filename ts
            ]
          ])
      by_tokens [] q = tt
      by_tokens (magic ∷ ts) q = by_type magic ts q (type_of magic)
