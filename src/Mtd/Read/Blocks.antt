-- ===== src/Mtd/Read/Blocks.antt =====
-- mtdutils/mtdutils.c: what it is to read a stream of bytes block after block.
use screenbox_rockchip_recov.Prelude.{
  ℕ, zero, suc, ◌+◌, ◌≤◌, ◌<◌, ◌≡◌, ap, ◌∙◌, List, [], ◌∷◌, ◌++◌, append_assoc, none, some, arith,
  length, drop,
}
use screenbox_rockchip_recov.Prelude.Bytes.{Bytes}
use screenbox_rockchip_recov.Mtd.Flash.{Partition, Flash}
use screenbox_rockchip_recov.Mtd.Block.{read_at}
use screenbox_rockchip_recov.Mtd.Read.{
  ReadContext, read_from, read_block, Outcome, fails, goes_on, after,
}
use screenbox_rockchip_recov.Mtd.Write.Blocks.{join, join-append}

-- What waits in the buffer.
abbrev pub unread : {D : Type 0} → ReadContext D → Bytes
unread c = drop c.consumed c.buffer

-- The buffer holds a block that is not empty, of which no more than all is consumed.
pub record IsValid {D : Type 0} (c : ReadContext D) : Type 0 where
  pub space : length c.buffer ≡ c.partition.erase_size
  pub within : c.consumed ≤ c.partition.erase_size
  pub size : 0 < c.partition.erase_size

-- `read` with the result `size` has filled in `size` bytes.
abbrev pub ReadsWhole : {D : Type 0} → Flash D → Type 0
ReadsWhole {D} io = (d : D) (n : ℕ) (b : Bytes) → (io.read d n).0 ≡ some b → length b ≡ n

module _ {D : Type 0} (io : Flash D) where
  -- The reference: `bs` are the blocks that successive calls of `read_block` return.
  abbrev pub Reads : Partition → D → List Bytes → D → Type 0
  Reads p d [] d' = d ≡ d'
  Reads p d (b ∷ bs) d' = (d₁ : D) × (read_block io p d ≡ (some b, d₁)) × Reads p d₁ bs d'

  pub Reads-append :
      (p : Partition) (d d₁ d₂ : D) (xs ys : List Bytes)
      → Reads p d xs d₁
      → Reads p d₁ ys d₂
      → Reads p d (xs ++ ys) d₂
  Reads-append p d d₁ d₂ [] ys h k = rw h k
  Reads-append p d d₁ d₂ (x ∷ xs) ys (e, call, h) k = (e, call, Reads-append p e d₁ d₂ xs ys h k)

  abbrev pub Got :
      (ReadContext D → Bytes → ℕ → Type 0) → ReadContext D → Bytes → ℕ → Outcome D → Type 0
  Got Q c out n (fails c') =
      (bs : List Bytes) × (d : D) × Reads c.partition c.fd bs d
      × (read_block io c.partition d ≡ (none, c'.fd))
  Got Q c out n (goes_on c' out' n') =
      (bs : List Bytes) × Reads c.partition c.fd bs c'.fd
      × (out' ++ unread c' ≡ out ++ (unread c ++ join bs))
      × (length out' + n' ≡ length out + n)
      × (c'.partition ≡ c.partition)
      × Q c' out' n'

  pub Got-after :
      (Q R : ReadContext D → Bytes → ℕ → Type 0) (c : ReadContext D) (out : Bytes) (n : ℕ)
      (o : Outcome D) (k : ReadContext D → Bytes → ℕ → Outcome D)
      → Got Q c out n o
      → ((c' : ReadContext D) (out' : Bytes) (n' : ℕ)
          → Q c' out' n'
          → Got R c' out' n' (k c' out' n'))
      → Got R c out n (after o k)
  Got-after Q R c out n (fails c') k g h = g
  Got-after Q R c out n (goes_on c' out' n') k (bs, reads, same, count, part, q) h =
      go (k c' out' n') (h c' out' n' q)
    where
      go : (o : Outcome D) → Got R c' out' n' o → Got R c out n o
      go (fails e) (ys, d, rd, call) = (
        bs ++ ys,
        d,
        Reads-append c.partition c.fd c'.fd d bs ys reads (rw (← part) rd),
        rw (← part) call,
      )
      go (goes_on e o m) (ys, rd, sm, ct, pt, r) = (
        bs ++ ys,
        Reads-append c.partition c.fd c'.fd e.fd bs ys reads (rw (← part) rd),
        sm
            ∙ rw (← append_assoc out' (unread c') (join ys), same, join-append bs ys)
                (append_assoc out (unread c ++ join bs) (join ys)
                  ∙ ap (λ l. out ++ l) (append_assoc (unread c) (join bs) (join ys))),
        ct ∙ count,
        pt ∙ part,
        r,
      )

  pub read_at-length :
      ReadsWhole io
      → (d : D) (pos n : ℕ) (b : Bytes) → (read_at io d pos n).0 ≡ some b
      → length b ≡ n
  unfolding read_at
  read_at-length w d pos n b h = ground (arith, w (io.seek d pos).1 n b)

  -- A block that is returned is whole.
  pub read_from-length :
      ReadsWhole io
      → (fuel : ℕ) (p : Partition) (d : D) (ecc pos : ℕ) (b : Bytes)
      → (read_from io fuel p d ecc pos).0 ≡ some b
      → length b ≡ p.erase_size
  unfolding read_from
  read_from-length w zero p d ecc pos b h = cc
  read_from-length w (suc fuel) p d ecc pos b h =
      grind (arith, read_at-length w, read_from-length w fuel)

  pub read_block-length :
      ReadsWhole io
      → (p : Partition) (d : D) (b : Bytes) → (read_block io p d).0 ≡ some b
      → length b ≡ p.erase_size
  unfolding read_block
  read_block-length w p d b h = grind (arith, read_from-length w (suc p.size))
