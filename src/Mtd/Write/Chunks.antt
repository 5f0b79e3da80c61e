-- ===== src/Mtd/Write/Chunks.antt =====
-- mtdutils/mtdutils.c: the coalescing of `mtd_write_data` against writing block after block.
use screenbox_rockchip_recov.Prelude.{
  ℕ, zero, suc, ◌+◌, ◌-◌, ◌≤◌, ◌<◌, ◌≡◌, refl, ap, ◌∙◌, true, false, ◌&&◌, ◌||◌, List, [], ◌∷◌,
  ◌++◌, append-nil, append_assoc, Option, none, some, arith, ltb, leb, ◌==◌, Bool-cases, inl, inr,
  ◌⊎◌, length, take, drop, length-append, length-take, length-drop, take-append-drop,
  take-append_eq, take_all,
}
use screenbox_rockchip_recov.Prelude.Bytes.{Bytes}
use screenbox_rockchip_recov.Mtd.Flash.{Flash}
use screenbox_rockchip_recov.Mtd.Block.{Media, write_block}
use screenbox_rockchip_recov.Mtd.Write.{
  WriteContext, splice, Outcome, fails, goes_on, after, coalesce, flush_full, write_direct,
  write_loop, mtd_write_data,
}
use screenbox_rockchip_recov.Mtd.Write.Blocks.{
  pending, join, AllSized, IsValid, write_all, Sent, Sent-after,
}

module _ {D : Type 0} (io : Flash D) where
  -- The copy into the buffer loses nothing.
  pending-splice :
      (c : WriteContext D) (xs : Bytes) (m : Media D)
      → c.stored ≤ length c.buffer
      → pending (record c {
        media = m;
        buffer = splice c.buffer c.stored xs;
        stored = c.stored + length xs;
      })
        ≡ pending c ++ xs
  unfolding splice
  pending-splice c xs m h =
      rw (← append_assoc (take c.stored c.buffer) xs (drop (c.stored + length xs) c.buffer)) (
        take-append_eq (c.stored + length xs) (take c.stored c.buffer ++ xs) _
          (omega (arith, length-append (take c.stored c.buffer) xs, length-take c.stored c.buffer)))

  length-splice :
      (buffer : Bytes) (at : ℕ) (xs : Bytes)
      → at + length xs ≤ length buffer
      → length (splice buffer at xs) ≡ length buffer
  unfolding splice
  length-splice buffer at xs h = omega (
    arith,
    length-append (take at buffer) (xs ++ drop (at + length xs) buffer),
    length-append xs (drop (at + length xs) buffer),
    length-take at buffer,
    length-drop (at + length xs) buffer,
  )

  -- After the copy: the buffer is full, or all data is in it, or whole blocks are to be written.
  record Coalesced (c : WriteContext D) (rest : Bytes) (r : WriteContext D × Bytes) : Type 0 where
    space : length r.0.buffer ≡ r.0.partition.erase_size
    waiting : r.0.stored ≤ r.0.partition.erase_size
    same_media : r.0.media ≡ c.media
    same_partition : r.0.partition ≡ c.partition
    kept : pending r.0 ++ r.1 ≡ pending c ++ rest
    progress :
        (length r.1 < length rest)
        ⊎ ((r.0.stored ≡ 0) × (r.0.partition.erase_size ≤ length r.1) × (length r.1 ≡ length rest))

  copy-Coalesced :
      (c : WriteContext D) (rest : Bytes) (n : ℕ)
      → IsValid c
      → 0 < n
      → n ≤ length rest
      → c.stored + n ≤ c.partition.erase_size
      → Coalesced c rest (
        record c { buffer = splice c.buffer c.stored (take n rest); stored = c.stored + n },
        drop n rest,
      )
  copy-Coalesced c rest n v pos few fits =
      let all : length (take n rest) ≡ n = omega (arith, length-take n rest) in
      let kept = pending-splice c (take n rest) c.media (omega (arith, v.space)) in
      record {
        space = length-splice c.buffer c.stored (take n rest) (omega (arith, v.space)) ∙ v.space;
        waiting = fits;
        same_media = refl;
        same_partition = refl;
        kept = rw (rw all at kept) (
            append_assoc (pending c) (take n rest) (drop n rest)
            ∙ ap (λ l. pending c ++ l) (take-append-drop n rest));
        progress = inl (omega (arith, length-drop n rest));
      }

  coalesce-Coalesced :
      (c : WriteContext D) (rest : Bytes)
      → IsValid c
      → 0 < length rest
      → Coalesced c rest (coalesce c rest)
  unfolding coalesce
  coalesce-Coalesced c rest v h =
      elim (Bool-cases (ltb 0 c.stored || ltb (length rest) c.partition.erase_size)) [
        | inl copies ↦ rw copies (
            copy-Coalesced c rest _ v (ground (arith, v.waiting)) (ground arith)
              (ground (arith, v.waiting)))
        | inr whole ↦ rw whole (record {
          space = v.space;
          waiting = omega (arith, v.waiting);
          same_media = refl;
          same_partition = refl;
          kept = refl;
          progress = inr (ground arith);
        })
      ]

  flush_full-Sent :
      (c : WriteContext D) (rest : Bytes)
      → length c.buffer ≡ c.partition.erase_size
      → c.stored ≤ c.partition.erase_size
      → 0 < c.partition.erase_size
      → Sent io
          (λ c' rest'.
            IsValid c'
            × (rest' ≡ rest)
            × (c'.partition.erase_size ≡ c.partition.erase_size)
            × ((c'.stored ≡ 0) ⊎ (c'.stored ≡ c.stored)))
          c
          rest
          (flush_full io c rest)
  unfolding flush_full write_all
  flush_full-Sent c rest space w h = elim (Bool-cases (c.stored == c.partition.erase_size)) [
    | inr short ↦ rw short (
      [],
      tt,
      refl,
      refl,
      refl,
      (record { space = space; waiting = ground arith }, refl, refl, inr refl),
    )
    | inl full ↦
        let all : take c.stored c.buffer ≡ c.buffer = take_all c.stored c.buffer (ground arith) in
        elim (Bool-cases (write_block io c.partition c.media c.buffer).0) [
          | inl done ↦
              rw (full, done)
                (
                  c.buffer ∷ [],
                  (space, tt),
                  rw (all, append-nil),
                  rw done,
                  refl,
                  (record { space = space; waiting = h }, refl, refl, inl refl),
                )
          | inr error ↦
              rw (full, error) (c.buffer ∷ [], rest, (space, tt), rw (all, append-nil), rw error)
        ]
  ]

  -- What is left of `n` bytes after a round: less, or all of it with whole blocks to write.
  abbrev Progress : ℕ → WriteContext D → Bytes → Type 0
  Progress n c rest =
      (length rest < n)
      ⊎ ((c.stored ≡ 0) × (c.partition.erase_size ≤ length rest) × (length rest ≡ n))

  write_direct-Sent :
      (fuel n : ℕ) (c : WriteContext D) (rest : Bytes)
      → length rest < fuel
      → IsValid c
      → Progress n c rest
      → Sent io (λ c' rest'. IsValid c' × (length rest' < n)) c rest (write_direct io fuel c rest)
  unfolding write_direct write_all
  write_direct-Sent zero n c rest f v pr = absurd (omega arith)
  write_direct-Sent (suc fuel) n c rest f v pr =
      let size = c.partition.erase_size in
      let block = take size rest in
      elim (Bool-cases (c.stored == 0 && leb size (length rest))) [
        | inr short ↦ rw short ([], tt, refl, refl, refl, (v, ground arith))
        | inl whole ↦
            let sized : length block ≡ size = ground (arith, length-take size rest) in
            let empty : c.stored ≡ 0 = ground arith in
            let nothing : take c.stored c.buffer ≡ [] = ap (λ k. take k c.buffer) empty in
            let left = length-drop size rest in
            elim (Bool-cases (write_block io c.partition c.media block).0) [
              | inr error ↦
                  rw (whole, error)
                    (
                      block ∷ [],
                      drop size rest,
                      (sized, tt),
                      rw (append-nil, nothing) (take-append-drop size rest),
                      rw error,
                    )
              | inl done ↦
                  rw (whole, done)
                    (Sent-after io
                      (λ c' rest'. IsValid c' × (length rest' < fuel) × Progress n c' rest')
                      (λ c' rest'. IsValid c' × (length rest' < n)) c rest
                      (goes_on (record c { media = (write_block io c.partition c.media block).1 })
                        (drop size rest))
                      (write_direct io fuel)
                      (
                        block ∷ [],
                        (sized, tt),
                        rw (append-nil, nothing) (take-append-drop size rest),
                        rw done,
                        refl,
                        (
                          record { space = v.space; waiting = v.waiting },
                          ground (arith, left),
                          inl (ground (arith, left, v.waiting)),
                        ),
                      )
                      (λ c' rest' (v', f', p'). write_direct-Sent fuel n c' rest' f' v' p'))
            ]
      ]

  Sent-from :
      (R : WriteContext D → Bytes → Type 0) (c c₁ : WriteContext D) (rest rest₁ : Bytes)
      (o : Outcome D)
      → c₁.media ≡ c.media
      → c₁.partition ≡ c.partition
      → pending c₁ ++ rest₁ ≡ pending c ++ rest
      → Sent io R c₁ rest₁ o
      → Sent io R c rest o
  Sent-from R c c₁ rest rest₁ (fails c') m p k (bs, left, sized, same, calls) =
      (bs, left, rw (← p) sized, same ∙ k, rw (← p, ← m) calls)
  Sent-from R c c₁ rest rest₁ (goes_on c' rest') m p k (bs, sized, same, calls, part, q) =
      (bs, rw (← p) sized, same ∙ k, rw (← p, ← m) calls, part ∙ p, q)

  -- One round of the loop of `mtd_write_data` leaves less data.
  round-Sent :
      (c : WriteContext D) (rest : Bytes)
      → IsValid c
      → 0 < length rest
      → Sent io
          (λ c' rest'. IsValid c' × (length rest' < length rest))
          c
          rest
          (after
            (flush_full io (coalesce c rest).0 (coalesce c rest).1)
            (write_direct io (suc (length (coalesce c rest).1))))
  round-Sent c rest v h =
      let (c₁, rest₁) = coalesce c rest in
      let co = coalesce-Coalesced c rest v h in
      let size : c₁.partition.erase_size ≡ c.partition.erase_size =
        ap (λ p. p.erase_size) co.same_partition in
      Sent-from (λ c' rest'. IsValid c' × (length rest' < length rest)) c c₁ rest rest₁ _
        co.same_media co.same_partition co.kept
        (Sent-after io _ (λ c' rest'. IsValid c' × (length rest' < length rest)) c₁ rest₁
          (flush_full io c₁ rest₁) (write_direct io (suc (length rest₁)))
          (flush_full-Sent c₁ rest₁ co.space co.waiting (omega (arith, v.waiting)))
          (λ c' rest' (v', e, es, st).
            write_direct-Sent (suc (length rest₁)) (length rest) c' rest'
              (omega (arith, ap length e)) v' (ground (arith, co.progress, ap length e))))

  write_loop-Sent :
      (fuel : ℕ) (c : WriteContext D) (rest : Bytes)
      → length rest < fuel
      → IsValid c
      → Sent io (λ c' rest'. IsValid c' × (rest' ≡ [])) c rest (write_loop io fuel c rest)
  unfolding write_loop write_all
  write_loop-Sent zero c rest f v = absurd (omega arith)
  write_loop-Sent (suc fuel) c [] f v = ([], tt, refl, refl, refl, (v, refl))
  write_loop-Sent (suc fuel) c (b ∷ rest) f v =
      Sent-after io (λ c' rest'. IsValid c' × (length rest' < suc (length rest)))
        (λ c' rest'. IsValid c' × (rest' ≡ [])) c (b ∷ rest) _ (write_loop io fuel)
        (round-Sent c (b ∷ rest) v (omega arith))
        (λ c' rest' (v', less). write_loop-Sent fuel c' rest' (omega arith) v')

  -- How `mtd_write_data` may leave the context `c`, given `block`.
  abbrev pub Written : WriteContext D → Bytes → Option ℕ × WriteContext D → Type 0
  Written c block (n, c') =
      (blocks : List Bytes) × (left : Bytes) × AllSized c.partition.erase_size blocks
      × (join blocks ++ left ≡ pending c ++ block)
      × (((n ≡ some (length block))
            × (write_all io c.partition c.media blocks ≡ (true, c'.media))
            × (left ≡ pending c')
            × (c'.partition ≡ c.partition)
            × IsValid c')
          ⊎ ((n ≡ none) × (write_all io c.partition c.media blocks ≡ (false, c'.media))))

  -- On a context in which less than a block waits in a buffer of a block, of a positive size,
  -- `mtd_write_data` behaves as a writer that appends the data to what waits in the buffer, cuts
  -- whole blocks off the front, and writes them in order until one fails. It returns `len` if all
  -- were written, and less than a block waits then; else it returns -1.
  pub mtd_write_data-Written :
      (c : WriteContext D) (block : Bytes) → IsValid c → Written c block (mtd_write_data io c block)
  unfolding mtd_write_data
  mtd_write_data-Written c block v =
      go (write_loop io (suc (length block)) c block)
        (write_loop-Sent (suc (length block)) c block (omega arith) v)
    where
      go :
          (o : Outcome D)
          → Sent io (λ c' rest'. IsValid c' × (rest' ≡ [])) c block o
          → Written c block (elim o [
            | fails c' ↦ (none, c')
            | goes_on c' rest ↦ (some (length block - length rest), c')
          ])
      go (fails c') (bs, left, sized, same, calls) = (bs, left, sized, same, inr (refl, calls))
      go (goes_on c' rest') (bs, sized, same, calls, part, q) = (
        bs,
        pending c',
        sized,
        rw (rw (q.1, append-nil) at same),
        inl (ap some (omega (arith, ap length q.1)), calls, refl, part, q.0),
      )
