-- ===== src/Verifier/Hashing.antt =====
-- verifier.c: the loop that hashes a file in pieces of 4096 bytes.
use screenbox_rockchip_recov.Prelude.{
  ℕ, zero, suc, ◌+◌, ◌-◌, ◌≤◌, ◌<◌, ◌≡◌, refl, sym, ap, ◌∙◌, Bool, true, [], ◌∷◌, ◌++◌, some, arith,
  ltb, if◌then◌else◌, take, drop, Bool-cases, inl, inr, drop-drop,
}
use screenbox_rockchip_recov.Prelude.Bytes.{Bytes}
use screenbox_rockchip_recov.Verifier.{Mincrypt, buffer_size, hash_loop}

module _ {Key Ctx Digest : Type 0} (lib : Mincrypt Key Ctx Digest) where
  -- Hashing in pieces is hashing the whole.
  abbrev pub Streams : Type 0
  Streams =
      ((c : Ctx) → lib.sha_update c [] ≡ c)
      × ((c : Ctx) (a b : Bytes)
          → lib.sha_update (lib.sha_update c a) b ≡ lib.sha_update c (a ++ b))

  take_split : (n k m : ℕ) (xs : Bytes) → m ≡ n + k → take n xs ++ take k (drop n xs) ≡ take m xs
  take_split zero k m xs e = let same : m ≡ k = omega arith in rw same
  take_split (suc n) k zero xs e = absurd (omega arith)
  take_split (suc n) zero (suc m) [] e = refl
  take_split (suc n) (suc k) (suc m) [] e = refl
  take_split (suc n) k (suc m) (x ∷ xs) e = ap (λ l. x ∷ l) (take_split n k m xs (omega arith))

  update_step :
      Streams
      → (file : Bytes) (n i size : ℕ) (c : Ctx) → size ≤ n - i
      → lib.sha_update
          (lib.sha_update c (take size (drop i file)))
          (take (n - (i + size)) (drop (i + size) file))
        ≡ lib.sha_update c (take (n - i) (drop i file))
  update_step s file n i size c h = rw (
    s.1,
    drop-drop i size (i + size) file refl,
    take_split size (n - (i + size)) (n - i) (drop i file) (omega arith),
  )

  update_none :
      Streams
      → (file : Bytes) (n i : ℕ) (c : Ctx) → n ≤ i
      → c ≡ lib.sha_update c (take (n - i) (drop i file))
  update_none s file n i c h = let none_left : n - i ≡ 0 = omega arith in rw none_left (sym (s.0 c))

  abbrev piece : ℕ → ℕ → ℕ
  piece n i = if ltb (n - i) buffer_size then n - i else buffer_size

  -- The loop returns no context, or the one of the bytes from `so_far` up to `signed_len`.
  pub hash_loop_sound :
      Streams
      → (fuel : ℕ) (reads : ℕ → Bool) (file : Bytes) (signed_len so_far : ℕ) (c r : Ctx)
      → hash_loop lib fuel reads file signed_len c so_far ≡ some r
      → r ≡ lib.sha_update c (take (signed_len - so_far) (drop so_far file))
  unfolding hash_loop
  hash_loop_sound s zero reads file n i c r h = cc
  hash_loop_sound s (suc fuel) reads file n i c r h =
      let size = piece n i in
      let next = lib.sha_update c (take size (drop i file)) in
      elim (Bool-cases (ltb i n)) [
        | inr done ↦
            let same : r ≡ c = ground arith in same ∙ update_none s file n i c (ground arith)
        | inl more ↦ elim (Bool-cases (reads i)) [
          | inr error ↦ cc (rw (more, error) at h)
          | inl read ↦
              hash_loop_sound s fuel reads file n (i + size) next r (rw (more, read) at h)
              ∙ update_step s file n i size c (ground arith)
        ]
      ]

  -- With reads that succeed and enough fuel it returns that one.
  pub hash_loop_complete :
      Streams
      → (fuel : ℕ) (reads : ℕ → Bool) (file : Bytes) (signed_len so_far : ℕ) (c : Ctx)
      → ((i : ℕ) → reads i ≡ true)
      → signed_len - so_far < fuel
      → hash_loop lib fuel reads file signed_len c so_far
        ≡ some (lib.sha_update c (take (signed_len - so_far) (drop so_far file)))
  unfolding hash_loop
  hash_loop_complete s zero reads file n i c w h = absurd (omega arith)
  hash_loop_complete s (suc fuel) reads file n i c w h =
      let size = piece n i in
      let next = lib.sha_update c (take size (drop i file)) in
      elim (Bool-cases (ltb i n)) [
        | inr done ↦ rw done (ap some (update_none s file n i c (ground arith)))
        | inl more ↦
            rw (more, w i)
              (hash_loop_complete s fuel reads file n (i + size) next w (ground arith)
                ∙ ap some (update_step s file n i size c (ground arith)))
      ]
