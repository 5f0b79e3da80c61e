-- ===== src/Patch/Streams.antt =====
-- applypatch/bspatch.c: what `FillBuffer` reads from a stream that unpacks, and the arithmetic of
-- the diff string.
use mathlib.Core.Path.{subst}
use screenbox_rockchip_recov.Prelude.{
  ℕ, zero, suc, ◌+◌, ◌-◌, ◌≤◌, ◌<◌, ◌≡◌, refl, ap, ◌∙◌, sym, false, [], ◌∷◌, ◌++◌, arith,
  if◌then◌else◌, length, length-append, ltb,
}
use screenbox_rockchip_recov.Prelude.Bytes.{Bytes}
use screenbox_rockchip_recov.Patch.{
  BzStatus, bz_ok, bz_stream_end, bz_error, Bzip2, returns, fails, overruns, Outcome, ◌>>=◌,
  fill_buffer,
}

abbrev pub IsWorking : BzStatus → Type 0
IsWorking bz_error = ⊥
IsWorking _ = Unit

-- A call of BZ2_bzDecompress put out a first part of what the stream held, not empty.
pub record Delivered {S : Type 0} (Holds : S → Bytes → Type 0) (bs : Bytes) (n : ℕ)
    (r : BzStatus × (Bytes × S)) : Type 0 where
  pub works : IsWorking r.0
  pub rest : Bytes
  pub split : r.1.0 ++ rest ≡ bs
  pub progress : 0 < length r.1.0
  pub at_most : length r.1.0 ≤ n
  pub holds : Holds r.1.1 rest

-- `Holds s bs`: the stream `s` has all its input and unpacks to `bs` from here on. Then a call gives
-- at least a byte where bytes are wanted and left, and no more than wanted.
abbrev pub Unpacks : {S : Type 0} → Bzip2 S → (S → Bytes → Type 0) → Type 0
Unpacks {S} bz Holds =
    (s : S) (bs : Bytes) (n : ℕ)
    → Holds s bs
    → 0 < n
    → 0 < length bs
    → Delivered Holds bs n (bz.decompress s n)

prefix_split :
    (out r bs rest : Bytes)
    → out ++ r ≡ bs ++ rest
    → length out ≤ length bs
    → (m : Bytes) × (bs ≡ out ++ m) × (r ≡ m ++ rest)
prefix_split [] r bs rest e h = (bs, refl, e)
prefix_split (o ∷ out) r [] rest e h = absurd (omega arith)
prefix_split (o ∷ out) r (b ∷ bs) rest e h =
    let tails : out ++ r ≡ bs ++ rest = cc in
    let heads : o ≡ b = cc in
    let (m, e₁, e₂) = prefix_split out r bs rest tails (omega arith) in (m, rw (heads, e₁), e₂)

module _ {S : Type 0} (bz : Bzip2 S) (Holds : S → Bytes → Type 0) (u : Unpacks bz Holds) where
  -- What `FillBuffer` leaves behind.
  abbrev pub Filled : Outcome (Bytes × S) → Bytes → Bytes → Type 0
  Filled r bs rest = (s' : S) × (r ≡ returns (bs, s')) × Holds s' rest

  abbrev Fills : ℕ → Type 0
  Fills fuel =
      (room n : ℕ) (s : S) (bs rest : Bytes)
      → Holds s (bs ++ rest)
      → n ≡ length bs
      → n ≤ fuel
      → n ≤ room
      → Filled (fill_buffer bz fuel room n s) bs rest

  -- What `FillBuffer` does after a call that put out `out`.
  abbrev after_call : ℕ → ℕ → ℕ → BzStatus × (Bytes × S) → Outcome (Bytes × S)
  after_call fuel room n (status, (out, s)) =
      let more = fill_buffer bz fuel (room - length out) (n - length out) s in
      if ltb room (length out) then overruns else elim status as (λ _. Outcome (Bytes × S)) [
        | bz_error ↦ fails
        | _ ↦ more >>= λ q. returns (out ++ q.0, q.1)
      ]

  continued :
      {status : BzStatus} (fuel room n : ℕ) (bs rest : Bytes)
      → Fills fuel
      → suc n ≡ length bs
      → n ≤ fuel
      → suc n ≤ room
      → (out : Bytes) (s : S) → Delivered Holds (bs ++ rest) (suc n) (status, (out, s))
      → Filled (after_call fuel room (suc n) (bz_ok, (out, s))) bs rest
  continued fuel room n bs rest ih e f r out s d =
      let (m, e₁, e₂) = prefix_split out d.rest bs rest d.split (omega (arith, d.at_most)) in
      let count : length bs ≡ length out + length m =
        ap (λ (l : Bytes). length l) e₁ ∙ length-append out m in
      let (s₂, e₃, h₂) =
        ih (room - length out) (suc n - length out) s m rest (subst (λ l. Holds s l) e₂ d.holds)
          (omega arith) (omega (arith, d.progress)) (omega arith) in
      let fits : ltb room (length out) ≡ false = ground (arith, d.at_most) in
      (s₂, rw (fits, e₃) (ap (λ (l : Bytes). returns (l, s₂)) (sym e₁)), h₂)

  after_call-Filled :
      (fuel room n : ℕ) (bs rest : Bytes)
      → Fills fuel
      → suc n ≡ length bs
      → n ≤ fuel
      → suc n ≤ room
      → (d : BzStatus × (Bytes × S)) → Delivered Holds (bs ++ rest) (suc n) d
      → Filled (after_call fuel room (suc n) d) bs rest
  after_call-Filled fuel room n bs rest ih e f r (bz_error, (out, s)) d = elim d.works [ ]
  after_call-Filled fuel room n bs rest ih e f r (bz_ok, (out, s)) d =
      continued fuel room n bs rest ih e f r out s d
  after_call-Filled fuel room n bs rest ih e f r (bz_stream_end, (out, s)) d =
      continued fuel room n bs rest ih e f r out s d

  -- `FillBuffer` gets the next bytes of the stream, where the buffer has room for them.
  pub fill_buffer_lem : (fuel : ℕ) → Fills fuel
  unfolding fill_buffer
  fill_buffer_lem fuel room zero s [] rest h e f r = (s, refl, h)
  fill_buffer_lem fuel room zero s (b ∷ bs) rest h e f r = absurd (omega arith)
  fill_buffer_lem zero room (suc n) s bs rest h e f r = absurd (omega arith)
  fill_buffer_lem (suc fuel) room (suc n) s bs rest h e f r =
      after_call-Filled fuel room n bs rest (fill_buffer_lem fuel) e (omega arith) r
        (bz.decompress s (suc n))
        (u s (bs ++ rest) (suc n) h (omega arith) (omega (arith, length-append bs rest)))
