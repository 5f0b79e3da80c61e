-- ===== src/ApplyPatch/Sinks.antt =====
-- applypatch/applypatch.c: `FileSink` and `MemorySink`, where the output of a patch goes.
use mathlib.Core.Path.{subst}
use screenbox_rockchip_recov.Prelude.{
  ℕ, zero, suc, ◌+◌, ◌≤◌, ◌<◌, ◌≡◌, ◌⊎◌, refl, sym, ap, ◌∙◌, [], ◌∷◌, ◌++◌, Option, none, some,
  arith, Bool-cases, inl, inr, ltb, if◌then◌else◌, length, take, drop, length-append, length-take,
  length-drop, take-append_eq, append-nil, append_assoc,
}
use screenbox_rockchip_recov.Prelude.Int.{ℤ, pos, negsuc}
use screenbox_rockchip_recov.Prelude.Bytes.{Bytes}
use screenbox_rockchip_recov.Mtd.Write.{splice}

-- The positive results of `write`; `none` is 0 or less.
abbrev pub wrote_some : ℤ → Option ℕ
wrote_some (pos zero) = none
wrote_some (pos (suc n)) = some (suc n)
wrote_some (negsuc n) = none

module _ {D : Type 0} (write : D → Bytes → ℤ × D) where
  -- The loop of `FileSink`; each round but the last writes a byte at least.
  unfoldable pub sink_loop : ℕ → D → Bytes → ℕ → ℕ × D
  sink_loop zero d bytes done = (done, d)
  sink_loop (suc fuel) d bytes done =
      let (wrote, d') = write d (drop done bytes) in
      let result = elim (wrote_some wrote) as (λ _. ℕ × D) [
        | none ↦ (done, d')
        | some n ↦ sink_loop fuel d' bytes (done + n)
      ] in
      if ltb done (length bytes) then result else (done, d)

  -- `FileSink`: how many bytes were written, and the file.
  unfoldable pub file_sink : D → Bytes → ℕ × D
  unfolding sink_loop
  file_sink d bytes = sink_loop (suc (length bytes)) d bytes 0

  -- What POSIX says of `write` on a file whose bytes are `contents`: as many of the bytes as it
  -- returns, and no more than it was given, are appended; if it returns no positive number, none.
  abbrev pub Appends : (D → Bytes) → Type 0
  Appends contents =
      (d : D) (bytes : Bytes)
      → (n : ℕ) × (n ≤ length bytes)
        × (contents (write d bytes).1 ≡ contents d ++ take n bytes)
        × (wrote_some (write d bytes).0 ≡ wrote_some (pos n))

  take-drop : (k n m : ℕ) (xs : Bytes) → m ≡ k + n → take k xs ++ take n (drop k xs) ≡ take m xs
  take-drop zero n m xs e = let same : m ≡ n = omega arith in rw same refl
  take-drop (suc k) n zero xs e = absurd (omega arith)
  take-drop (suc k) zero (suc m) [] e = refl
  take-drop (suc k) (suc n) (suc m) [] e = refl
  take-drop (suc k) n (suc m) (x ∷ xs) e = ap (λ l. x ∷ l) (take-drop k n m xs (omega arith))

  -- `done` of the bytes were written to the file, in order, and nothing else.
  abbrev pub IsWritten : (D → Bytes) → D → Bytes → ℕ × D → Type 0
  IsWritten contents d bytes r =
      (r.0 ≤ length bytes) × (contents r.1 ≡ contents d ++ take r.0 bytes)

  -- All of them, or the last call of `write` has failed.
  abbrev pub IsComplete : Bytes → ℕ × D → Type 0
  IsComplete bytes r =
      (r.0 ≡ length bytes) ⊎ ((d : D) × (wrote_some (write d (drop r.0 bytes)).0 ≡ none))

  abbrev IsSunk : (D → Bytes) → D → Bytes → ℕ × D → Type 0
  IsSunk contents d bytes r = IsWritten contents d bytes r × IsComplete bytes r

  further-IsWritten :
      (contents : D → Bytes) (start d d' : D) (bytes : Bytes) (done n : ℕ)
      → IsWritten contents start bytes (done, d)
      → n ≤ length (drop done bytes)
      → contents d' ≡ contents d ++ take n (drop done bytes)
      → IsWritten contents start bytes (done + n, d')
  further-IsWritten contents start d d' bytes done n (le, e) le' e' =
      let left = length-drop done bytes in
      (
        omega arith,
        e'
            ∙ ap (λ c. c ++ take n (drop done bytes)) e
            ∙ append_assoc (contents start) (take done bytes) (take n (drop done bytes))
            ∙ ap (λ b. contents start ++ b) (take-drop done n (done + n) bytes refl),
      )

  sink_loop-IsSunk :
      (contents : D → Bytes)
      → Appends contents
      → (fuel : ℕ) (start d : D) (bytes : Bytes) (done : ℕ) → length bytes < done + fuel
      → IsWritten contents start bytes (done, d)
      → IsSunk contents start bytes (sink_loop fuel d bytes done)
  unfolding sink_loop
  sink_loop-IsSunk contents writes zero start d bytes done enough h =
      let le = h.0 in absurd (omega arith)
  sink_loop-IsSunk contents writes (suc fuel) start d bytes done enough h =
      let (n, le, e, returned) = writes d (drop done bytes) in
      elim (Bool-cases (ltb done (length bytes))) [
        | inr all ↦ rw all (let low = h.0 in (h, inl (ground arith)))
        | inl more ↦ rw more (
            after (write d (drop done bytes)) refl n returned
              (further-IsWritten contents start d (write d (drop done bytes)).1 bytes done n h le e)
              (λ k d'.
                sink_loop-IsSunk contents writes fuel start d' bytes (done + suc k) (omega arith)))
      ]
    where
      after :
          (w : ℤ × D)
          → write d (drop done bytes) ≡ w
          → (n : ℕ) → wrote_some w.0 ≡ wrote_some (pos n)
          → IsWritten contents start bytes (done + n, w.1)
          → ((k : ℕ) (d' : D)
              → IsWritten contents start bytes (done + suc k, d')
              → IsSunk contents start bytes (sink_loop fuel d' bytes (done + suc k)))
          → IsSunk contents start bytes (elim (wrote_some w.0) as (λ _. ℕ × D) [
            | none ↦ (done, w.1)
            | some n ↦ sink_loop fuel w.1 bytes (done + n)
          ])
      after w q zero r written ih = rw r (
        subst (λ m. IsWritten contents start bytes (m, w.1)) (omega arith) written,
        inr (d, ap (λ x. wrote_some x.0) q ∙ r),
      )
      after w q (suc k) r written ih = rw r (ih k w.1 written)

  -- On a file to which `write` appends: `FileSink` appends exactly the first bytes, as many as it
  -- returns, and these are all of them, or the last call of `write` has failed.
  pub file_sink-IsWritten :
      (contents : D → Bytes)
      → Appends contents
      → (d : D) (bytes : Bytes)
      → IsWritten contents d bytes (file_sink d bytes) × IsComplete bytes (file_sink d bytes)
  unfolding file_sink
  file_sink-IsWritten contents writes d bytes =
      sink_loop-IsSunk contents writes (suc (length bytes)) d d bytes 0 (omega arith)
        (omega arith, sym (append-nil (contents d)))

-- `MemorySinkInfo`
pub record MemorySinkInfo : Type 0 where
  pub buffer : Bytes
  pub size : ℕ
  pub position : ℕ

-- `MemorySink`
unfoldable pub memory_sink : MemorySinkInfo → Bytes → ℤ × MemorySinkInfo
unfolding splice
memory_sink m bytes = if ltb m.size (m.position + length bytes) then (negsuc 0, m) else (
  pos (length bytes),
  record m { buffer = splice m.buffer m.position bytes; position = m.position + length bytes },
)

-- The buffer has its size, and `position` lies in it.
abbrev pub IsSink : MemorySinkInfo → Type 0
IsSink m = (length m.buffer ≡ m.size) × (m.position ≤ m.size)

-- What the sink has taken.
abbrev pub taken : MemorySinkInfo → Bytes
taken m = take m.position m.buffer

splice-taken :
    (m : MemorySinkInfo) (bytes : Bytes)
    → IsSink m
    → m.position + length bytes ≤ m.size
    → (length (splice m.buffer m.position bytes) ≡ m.size)
      × (take (m.position + length bytes) (splice m.buffer m.position bytes) ≡ taken m ++ bytes)
unfolding splice
splice-taken m bytes (len, le) room =
    let t = length-take m.position m.buffer in
    let rest = drop (m.position + length bytes) m.buffer in
    let l = length-drop (m.position + length bytes) m.buffer in
    let a = length-append (taken m) (bytes ++ rest) in
    let b = length-append bytes rest in
    let c = length-append (taken m) bytes in
    (
      omega arith,
      ap (take (m.position + length bytes)) (sym (append_assoc (taken m) bytes rest))
          ∙ take-append_eq (m.position + length bytes) (taken m ++ bytes) rest (omega arith),
    )

-- On a sink whose buffer has its size, with the position in it: `MemorySink` takes all of the bytes
-- behind those it has taken, where there is room, and returns their number; if not, it returns -1
-- and takes nothing. The sink keeps its size.
pub memory_sink-taken :
    (m : MemorySinkInfo) (bytes : Bytes)
    → IsSink m
    → IsSink (memory_sink m bytes).1
      × ((memory_sink m bytes).1.size ≡ m.size)
      × ((((memory_sink m bytes).0 ≡ pos (length bytes))
            × (taken (memory_sink m bytes).1 ≡ taken m ++ bytes))
          ⊎ (((memory_sink m bytes).0 ≡ negsuc 0)
              × ((memory_sink m bytes).1 ≡ m)
              × (m.size < m.position + length bytes)))
unfolding memory_sink
memory_sink-taken m bytes h = elim (Bool-cases (ltb m.size (m.position + length bytes))) [
  | inl full ↦ rw full (h, refl, inr (refl, refl, ground arith))
  | inr room ↦ rw room (
      let (len, took) = splice-taken m bytes h (ground arith) in
      ((len, ground arith), refl, inl (refl, took)))
]
