-- ===== src/Mtd/Write/Blocks.antt =====
-- mtdutils/mtdutils.c: what it is to write a stream of bytes block after block.
use screenbox_rockchip_recov.Prelude.{
  ℕ, ◌<◌, ◌≡◌, refl, sym, ap, ◌∙◌, Bool, true, false, List, [], ◌∷◌, ◌++◌, append_assoc, arith,
  if◌then◌else◌, Bool-cases, inl, inr, length, take,
}
use screenbox_rockchip_recov.Prelude.Bytes.{Bytes}
use screenbox_rockchip_recov.Mtd.Flash.{Partition, Flash}
use screenbox_rockchip_recov.Mtd.Block.{Media, write_block}
use screenbox_rockchip_recov.Mtd.Write.{WriteContext, Outcome, fails, goes_on, after}

-- What waits in the buffer.
abbrev pub pending : {D : Type 0} → WriteContext D → Bytes
pending c = take c.stored c.buffer

abbrev pub join : List Bytes → Bytes
join [] = []
join (b ∷ bs) = b ++ join bs

abbrev pub AllSized : ℕ → List Bytes → Type 0
AllSized size [] = Unit
AllSized size (b ∷ bs) = (length b ≡ size) × AllSized size bs

pub join-append : (xs ys : List Bytes) → join (xs ++ ys) ≡ join xs ++ join ys
join-append [] ys = refl
join-append (x ∷ xs) ys = rw (join-append xs ys) (sym (append_assoc x (join xs) (join ys)))

pub AllSized-append :
    (n : ℕ) (xs ys : List Bytes) → AllSized n xs → AllSized n ys → AllSized n (xs ++ ys)
AllSized-append n [] ys h k = k
AllSized-append n (x ∷ xs) ys h k = (h.0, AllSized-append n xs ys h.1 k)

-- The buffer holds a block, and less than a block waits in it.
pub record IsValid {D : Type 0} (c : WriteContext D) : Type 0 where
  pub space : length c.buffer ≡ c.partition.erase_size
  pub waiting : c.stored < c.partition.erase_size

module _ {D : Type 0} (io : Flash D) where
  -- The reference: one block after the other, up to the first failure.
  unfoldable pub write_all : Partition → Media D → List Bytes → Bool × Media D
  write_all p m [] = (true, m)
  write_all p m (b ∷ bs) =
      let (done, m') = write_block io p m b in
      let rest = write_all p m' bs in if done then rest else (false, m')

  pub write_all-append :
      (p : Partition) (m m' : Media D) (xs ys : List Bytes)
      → write_all p m xs ≡ (true, m')
      → write_all p m (xs ++ ys) ≡ write_all p m' ys
  unfolding write_all
  write_all-append p m m' [] ys h = rw (ap (λ (r : Bool × Media D). r.1) h)
  write_all-append p m m' (x ∷ xs) ys h = elim (Bool-cases (write_block io p m x).0) [
    | inl e ↦ rw e (write_all-append p (write_block io p m x).1 m' xs ys (rw e at h))
    | inr e ↦ ground arith
  ]

  -- An outcome accounts for the data: whole blocks went to the device, in order, and with what is
  -- left they make up what waited and what was given. `Q` holds where the loop goes on.
  abbrev pub Sent : (WriteContext D → Bytes → Type 0) → WriteContext D → Bytes → Outcome D → Type 0
  Sent Q c rest (fails c') =
      (blocks : List Bytes) × (left : Bytes) × AllSized c.partition.erase_size blocks
      × (join blocks ++ left ≡ pending c ++ rest)
      × (write_all c.partition c.media blocks ≡ (false, c'.media))
  Sent Q c rest (goes_on c' rest') =
      (blocks : List Bytes) × AllSized c.partition.erase_size blocks
      × (join blocks ++ (pending c' ++ rest') ≡ pending c ++ rest)
      × (write_all c.partition c.media blocks ≡ (true, c'.media))
      × (c'.partition ≡ c.partition)
      × Q c' rest'

  pub Sent-after :
      (Q R : WriteContext D → Bytes → Type 0) (c : WriteContext D) (rest : Bytes) (o : Outcome D)
      (k : WriteContext D → Bytes → Outcome D)
      → Sent Q c rest o
      → ((c' : WriteContext D) (rest' : Bytes) → Q c' rest' → Sent R c' rest' (k c' rest'))
      → Sent R c rest (after o k)
  Sent-after Q R c rest (fails c') k s h = s
  Sent-after Q R c rest (goes_on c' rest') k (bs, sized, same, calls, part, q) h =
      go (k c' rest') (h c' rest' q)
    where
      go : (o : Outcome D) → Sent R c' rest' o → Sent R c rest o
      go (fails d) (ys, left, sz, sm, cl) = (
        bs ++ ys,
        left,
        AllSized-append _ bs ys sized (rw (← part) sz),
        rw (join-append, append_assoc, sm) same,
        write_all-append c.partition c.media c'.media bs ys calls ∙ (rw (← part) cl),
      )
      go (goes_on d r) (ys, sz, sm, cl, pt, rr) = (
        bs ++ ys,
        AllSized-append _ bs ys sized (rw (← part) sz),
        rw (join-append, append_assoc, sm) same,
        write_all-append c.partition c.media c'.media bs ys calls ∙ (rw (← part) cl),
        pt ∙ part,
        rr,
      )
