-- ===== src/Mtd/Read/Stream.antt =====
-- mtdutils/mtdutils.c: `mtd_read_data` against reading block after block.
use screenbox_rockchip_recov.Prelude.{
  ℕ, zero, suc, ◌+◌, ◌-◌, ◌*◌, ◌≤◌, ◌<◌, ◌≡◌, refl, ap, ◌∙◌, false, ◌&&◌, List, [], ◌∷◌, ◌++◌,
  append-nil, append_assoc, Option, none, some, arith, ltb, leb, ◌==◌, Bool-cases, Option-cases,
  inl, inr, ◌⊎◌, length, take, drop, length-append, length-take, length-drop, take-append-drop,
  drop-drop, drop_all,
}
use screenbox_rockchip_recov.Prelude.Bytes.{Bytes}
use screenbox_rockchip_recov.Mtd.Flash.{Flash}
use screenbox_rockchip_recov.Mtd.Read.{
  ReadContext, read_block, Outcome, fails, goes_on, after, take_buffered, read_direct, refill,
  read_loop, mtd_read_data,
}
use screenbox_rockchip_recov.Mtd.Write.Blocks.{join}
use screenbox_rockchip_recov.Mtd.Read.Blocks.{
  unread, IsValid, ReadsWhole, Reads, Got, Got-after, read_block-length,
}

module _ {D : Type 0} (io : Flash D) where
  copy_out :
      (c : ReadContext D) (out : Bytes) (k : ℕ)
      → (out ++ take k (unread c)) ++ drop (c.consumed + k) c.buffer ≡ out ++ (unread c ++ [])
  copy_out c out k =
      rw (drop-drop c.consumed k (c.consumed + k) c.buffer refl, append-nil)
        (append_assoc out (take k (unread c)) (drop k (unread c))
          ∙ ap (λ l. out ++ l) (take-append-drop k (unread c)))

  copy-Got :
      (c : ReadContext D) (out : Bytes) (n k : ℕ)
      → IsValid c
      → c.consumed < c.partition.erase_size
      → 0 < n
      → k ≤ n
      → c.consumed + k ≤ c.partition.erase_size
      → (k ≡ n) ⊎ (c.consumed + k ≡ c.partition.erase_size)
      → Got io
          (λ c' out' n'. IsValid c' × (n' < n))
          c
          out
          n
          (goes_on (record c { consumed = c.consumed + k }) (out ++ take k (unread c)) (n - k))
  copy-Got c out n k v some_left pos few fits all = (
    [],
    refl,
    copy_out c out k,
    omega (
      arith,
      length-append out (take k (unread c)),
      length-take k (unread c),
      length-drop c.consumed c.buffer,
      v.space,
    ),
    refl,
    (record { space = v.space; within = fits; size = v.size }, omega arith),
  )

  take_buffered-Got :
      (c : ReadContext D) (out : Bytes) (n : ℕ)
      → IsValid c
      → 0 < n
      → Got io
          (λ c' out' n'.
            IsValid c' × ((n' < n) ⊎ ((n' ≡ n) × (c.consumed ≡ c.partition.erase_size))))
          c
          out
          n
          (take_buffered c out n)
  unfolding take_buffered
  take_buffered-Got c out n v pos = elim (Bool-cases (ltb c.consumed c.partition.erase_size)) [
    | inr none_left ↦
        rw none_left
          ([], refl, rw append-nil, refl, refl, (v, inr (refl, ground (arith, v.within))))
    | inl some_left ↦
        let (bs, reads, same, count, part, (v', less)) =
          copy-Got c out n _ v (ground arith) pos (ground arith) (ground arith) (ground arith) in
        rw some_left (bs, reads, same, count, part, (v', inl less))
  ]

  read_direct-Got :
      ReadsWhole io
      → (fuel : ℕ) (c : ReadContext D) (out : Bytes) (n most : ℕ) → n < fuel
      → n ≤ most
      → IsValid c
      → Got io (λ c' out' n'. IsValid c' × (n' ≤ most)) c out n (read_direct io fuel c out n)
  unfolding read_direct
  read_direct-Got w zero c out n most f m v = absurd (omega arith)
  read_direct-Got w (suc fuel) c out n most f m v =
      let size = c.partition.erase_size in
      let d = (read_block io c.partition c.fd).1 in
      elim (Bool-cases (c.consumed == size && leb size n)) [
        | inr stops ↦ rw stops ([], refl, rw append-nil, refl, refl, (v, m))
        | inl whole ↦ elim (Option-cases (read_block io c.partition c.fd).0) [
          | inl error ↦ rw (whole, error) ([], c.fd, refl, λ i. (error i, d))
          | inr (block, e) ↦
              let nothing : unread c ≡ [] =
                drop_all c.consumed c.buffer (ground (arith, v.space)) in
              let long = read_block-length io w c.partition c.fd block e in
              rw (whole, e)
                (Got-after io (λ c' out' n'. IsValid c' × (n' < fuel) × (n' ≤ most))
                  (λ c' out' n'. IsValid c' × (n' ≤ most)) c out n
                  (goes_on (record c { fd = d }) (out ++ block) (n - size)) (read_direct io fuel)
                  (
                    block ∷ [],
                    (d, (λ i. (e i, d)), refl),
                    rw (nothing, append-nil, append-nil),
                    ground (arith, length-append out block, long),
                    refl,
                    (
                      record { space = v.space; within = v.within; size = v.size },
                      ground (arith, v.size),
                      ground (arith, v.size),
                    ),
                  )
                  (λ c' out' n' (v', f', m'). read_direct-Got w fuel c' out' n' most f' m' v'))
        ]
      ]

  refill_stays :
      (c : ReadContext D) (n : ℕ)
      → IsValid c
      → (c.consumed == c.partition.erase_size && ltb 0 n) ≡ false
      → (n ≡ 0) ⊎ (c.consumed < c.partition.erase_size)
  refill_stays c zero v e = inl refl
  refill_stays c (suc n) v e = inr (ground (arith, v.within))

  refill-Got :
      ReadsWhole io
      → (c : ReadContext D) (out : Bytes) (n : ℕ) → IsValid c
      → Got io
          (λ c' out' n'.
            IsValid c' × (n' ≡ n) × ((n' ≡ 0) ⊎ (c'.consumed < c'.partition.erase_size)))
          c
          out
          n
          (refill io c out n)
  unfolding refill
  refill-Got w c out n v =
      let d = (read_block io c.partition c.fd).1 in
      elim (Bool-cases (c.consumed == c.partition.erase_size && ltb 0 n)) [
        | inr stays ↦
            rw stays ([], refl, rw append-nil, refl, refl, (v, refl, refill_stays c n v stays))
        | inl whole ↦ elim (Option-cases (read_block io c.partition c.fd).0) [
          | inl error ↦ rw (whole, error) ([], c.fd, refl, λ i. (error i, d))
          | inr (block, e) ↦
              let nothing : unread c ≡ [] =
                drop_all c.consumed c.buffer (ground (arith, v.space)) in
              let long = read_block-length io w c.partition c.fd block e in
              rw (whole, e)
                (
                  block ∷ [],
                  (d, (λ i. (e i, d)), refl),
                  rw (nothing, append-nil),
                  refl,
                  refl,
                  (record { space = long; within = omega arith; size = v.size }, refl, inr v.size),
                )
        ]
      ]

  -- Enough fuel: two rounds for a byte, one less if the buffer holds some.
  abbrev Fueled : ℕ → ReadContext D → ℕ → Type 0
  Fueled fuel c n = (2 * n + 1 < fuel) ⊎ ((2 * n < fuel) × (c.consumed < c.partition.erase_size))

  Got-map :
      (Q R : ReadContext D → Bytes → ℕ → Type 0) (c : ReadContext D) (out : Bytes) (n : ℕ)
      (o : Outcome D)
      → ((c' : ReadContext D) (out' : Bytes) (n' : ℕ) → Q c' out' n' → R c' out' n')
      → Got io Q c out n o
      → Got io R c out n o
  Got-map Q R c out n (fails c') h g = g
  Got-map Q R c out n (goes_on c' out' n') h (bs, reads, same, count, part, q) =
      (bs, reads, same, count, part, h c' out' n' q)

  -- What a round does before the refill.
  abbrev Drained : ReadContext D → ℕ → ReadContext D → ℕ → Type 0
  Drained c n c' n' =
      IsValid c' × ((n' ≤ n) ⊎ ((n' ≤ suc n) × (c.consumed ≡ c.partition.erase_size)))

  Fueled-next :
      (fuel n n' : ℕ) (c c' : ReadContext D)
      → Fueled (suc fuel) c (suc n)
      → (n' ≤ n) ⊎ ((n' ≤ suc n) × (c.consumed ≡ c.partition.erase_size))
      → (n' ≡ 0) ⊎ (c'.consumed < c'.partition.erase_size)
      → Fueled fuel c' n'
  Fueled-next fuel n n' c c' f p (inl none_left) = inl (omega arith)
  Fueled-next fuel n n' c c' f p (inr some_left) = inr (omega arith, some_left)

  drain-Got :
      ReadsWhole io
      → (c : ReadContext D) (out : Bytes) (n : ℕ) → IsValid c
      → Got io
          (λ c' out' n'. Drained c n c' n')
          c
          out
          (suc n)
          (after (take_buffered c out (suc n)) (read_direct io (suc (suc n))))
  drain-Got w c out n v =
      Got-after io
        (λ c' out' n'.
          IsValid c' × ((n' < suc n) ⊎ ((n' ≡ suc n) × (c.consumed ≡ c.partition.erase_size))))
        (λ c' out' n'. Drained c n c' n') c out (suc n) (take_buffered c out (suc n))
        (read_direct io (suc (suc n))) (take_buffered-Got c out (suc n) v (omega arith))
        (λ c' out' n' (v', p'). direct c' out' n' v' p')
    where
      direct :
          (c' : ReadContext D) (out' : Bytes) (n' : ℕ)
          → IsValid c'
          → (n' < suc n) ⊎ ((n' ≡ suc n) × (c.consumed ≡ c.partition.erase_size))
          → Got io
              (λ c'' out'' n''. Drained c n c'' n'')
              c'
              out'
              n'
              (read_direct io (suc (suc n)) c' out' n')
      direct c' out' n' v' (inl less) =
          Got-map (λ c'' out'' n''. IsValid c'' × (n'' ≤ n)) (λ c'' out'' n''. Drained c n c'' n'')
            c' out' n' (read_direct io (suc (suc n)) c' out' n')
            (λ c'' out'' n'' (a, b). (a, inl b))
            (read_direct-Got w (suc (suc n)) c' out' n' n (omega arith) (omega arith) v')
      direct c' out' n' v' (inr (e, full)) =
          Got-map (λ c'' out'' n''. IsValid c'' × (n'' ≤ suc n))
            (λ c'' out'' n''. Drained c n c'' n'') c' out' n'
            (read_direct io (suc (suc n)) c' out' n') (λ c'' out'' n'' (a, b). (a, inr (b, full)))
            (read_direct-Got w (suc (suc n)) c' out' n' (suc n) (omega arith) (omega arith) v')

  read_loop-Got :
      ReadsWhole io
      → (fuel : ℕ) (c : ReadContext D) (out : Bytes) (n : ℕ) → Fueled fuel c n
      → IsValid c
      → Got io (λ c' out' n'. IsValid c' × (n' ≡ 0)) c out n (read_loop io fuel c out n)
  unfolding read_loop
  read_loop-Got w zero c out n f v = absurd (omega (arith, f))
  read_loop-Got w (suc fuel) c out zero f v = ([], refl, rw append-nil, refl, refl, (v, refl))
  read_loop-Got w (suc fuel) c out (suc n) f v =
      Got-after io (λ c' out' n'. IsValid c' × Fueled fuel c' n')
        (λ c' out' n'. IsValid c' × (n' ≡ 0)) c out (suc n) _ (read_loop io fuel)
        (Got-after io (λ c' out' n'. Drained c n c' n')
          (λ c' out' n'. IsValid c' × Fueled fuel c' n') c out (suc n) _ (refill io)
          (drain-Got w c out n v)
          (λ c' out' n' (v', p).
            Got-map
              (λ c'' out'' n''.
                IsValid c'' × (n'' ≡ n') × ((n'' ≡ 0) ⊎ (c''.consumed < c''.partition.erase_size)))
              (λ c'' out'' n''. IsValid c'' × Fueled fuel c'' n'') c' out' n' (refill io c' out' n')
              (λ c'' out'' n'' (a, e, r). (a, Fueled-next fuel n n'' c c'' f (rw e p) r))
              (refill-Got w c' out' n' v')))
        (λ c' out' n' (v', f'). read_loop-Got w fuel c' out' n' f' v')

  -- How `mtd_read_data` may leave the context `c`, asked for `len` bytes.
  abbrev pub ReadFrom : ReadContext D → ℕ → Option Bytes × ReadContext D → Type 0
  ReadFrom c len (none, c') =
      (blocks : List Bytes) × (d : D) × Reads io c.partition c.fd blocks d
      × (read_block io c.partition d ≡ (none, c'.fd))
  ReadFrom c len (some out, c') =
      (blocks : List Bytes) × Reads io c.partition c.fd blocks c'.fd
      × (out ++ unread c' ≡ unread c ++ join blocks)
      × (length out ≡ len)
      × IsValid c'

  -- On a device that reads whole blocks and a context with at most a block consumed of a buffer of a
  -- block, of a positive size, `mtd_read_data` either delivers `len` bytes, the next ones of the stream that is made of what
  -- waited in the buffer and the blocks that `read_block` returned one after the other, and keeps
  -- the rest of the last block in the buffer; or some call of `read_block` failed.
  pub mtd_read_data-ReadFrom :
      ReadsWhole io
      → (c : ReadContext D) (len : ℕ) → IsValid c
      → ReadFrom c len (mtd_read_data io c len)
  unfolding mtd_read_data
  mtd_read_data-ReadFrom w c len v =
      go (read_loop io (2 * len + 2) c [] len)
        (read_loop-Got w (2 * len + 2) c [] len (inl (omega arith)) v)
    where
      go :
          (o : Outcome D)
          → Got io (λ c' out' n'. IsValid c' × (n' ≡ 0)) c [] len o
          → ReadFrom c len (elim o [ fails c' ↦ (none, c') | goes_on c' out n ↦ (some out, c') ])
      go (fails c') g = g
      go (goes_on c' out n) (bs, reads, same, count, part, (v', e)) =
          (bs, reads, same, omega arith, v')
