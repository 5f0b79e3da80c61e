-- ===== src/ImagePatch/Tracks.antt =====
-- applypatch/imgpatch.c: the hash that `ApplyImagePatch` computes follows what the sink takes, on a
-- sink that may return less than it is given.
use mathlib.Core.Path.{subst}
use screenbox_rockchip_recov.Prelude.{
  ℕ, zero, suc, ◌≡◌, refl, sym, Bool, true, false, not, ◌++◌, Option, none, some, arith, ltb, ◌⊎◌,
  inl, inr, if◌then◌else◌, ◌==◌, ◌||◌, length, take, drop,
}
use screenbox_rockchip_recov.Prelude.Int.{ℤ, pos, negsuc, ltb_ℤ, pos_part}
use screenbox_rockchip_recov.Prelude.Bytes.{Bytes, codes, str_eq}
use screenbox_rockchip_recov.Patch.{
  Bzip2, Outcome, returns, ◌>>=◌, apply_bs_diff_patch_mem, apply_bs_diff_patch,
}
use screenbox_rockchip_recov.Patch.Outcomes.{
  Gives, Gives-bind, Gives-if, by_outcome, by_option, anything,
}
use screenbox_rockchip_recov.ImagePatch.{
  DeflateHeader, Chunk, normal, raw, deflated, Zlib, Target, Output, Result, next_chunk, slice,
  update, deflate_loop, recompress, apply_deflate, apply_chunk, chunk_loop, apply_image_patch,
  read_chunk, is_short,
}
use screenbox_rockchip_recov.ImagePatch.Numbers.{read4}

abbrev ends : {T Ctx : Type 0} → ℤ → T → Option Ctx → Outcome (ℤ × (T × Option Ctx))
ends code token ctx = returns (code, (token, ctx))

-- A sink of which `written` is what it has taken, while `Valid` holds: all it is given; or it returns
-- less, and if it `Refuses`, it has taken nothing; and a hash of which `Hashed` says what went into
-- it.
pub record Recorder {T Ctx : Type 0} (target : Target T Ctx) (Valid : T → Type 0)
    (written : T → Bytes) (Hashed : Ctx → Bytes → Type 0) (Refuses : Type 0) : Type 0 where
  pub takes :
      (t : T) (bs : Bytes)
      → Valid t
      → Valid (target.sink t bs).1
        × ((((target.sink t bs).0 ≡ pos (length bs))
              × (written (target.sink t bs).1 ≡ written t ++ bs))
            ⊎ ((ltb_ℤ (target.sink t bs).0 (pos (length bs)) ≡ true)
                × (Refuses → written (target.sink t bs).1 ≡ written t)))
  pub hashes :
      (c : Ctx) (so_far bs : Bytes)
      → Hashed c so_far
      → Hashed (target.sha_update c bs) (so_far ++ bs)

less_not_all : (z : ℤ) (n : ℕ) → ltb_ℤ z (pos n) ≡ true → z ≡ pos n → ⊥
less_not_all z n low e =
    let low' : ltb_ℤ (pos n) (pos n) ≡ true = rw e at low in ground (arith, low')

less_short : (z : ℤ) (n : ℕ) → ltb_ℤ z (pos n) ≡ true → is_short z n ≡ true
less_short (pos m) n low = ground (arith, low)
less_short (negsuc m) n low = refl

-- All it is given.
abbrev pub TakesAll : {T Ctx : Type 0} → Target T Ctx → (T → Type 0) → Type 0
TakesAll {T} target Valid = (t : T) (bs : Bytes) → Valid t → (target.sink t bs).0 ≡ pos (length bs)

-- The hash is of what was written.
abbrev pub Tracks :
    {T Ctx : Type 0} → (T → Type 0) → (T → Bytes) → (Ctx → Bytes → Type 0) → Output T Ctx → Type 0
Tracks {T} {Ctx} Valid written Hashed w =
    Valid w.token × ((c : Ctx) × (w.ctx ≡ some c) × Hashed c (written w.token))

module _ {S Z T Ctx : Type 0} (bz : Bzip2 S) (z : Zlib Z) (target : Target T Ctx)
    (Valid : T → Type 0) (written : T → Bytes) (Hashed : Ctx → Bytes → Type 0) (Refuses : Type 0)
    (r : Recorder target Valid written Hashed Refuses) (fuel : ℕ) (malloc : ℕ → Option Bytes)
    (old patch : Bytes) where
  abbrev Follows : Output T Ctx → Type 0
  Follows w = Tracks Valid written Hashed w

  -- After a success, or in any case where the sink takes all.
  abbrev Succeeds : Bool × Output T Ctx → Type 0
  Succeeds b = ((b.0 ≡ true) ⊎ TakesAll target Valid) → Follows b.1

  abbrev AfterDiff : ℤ × (T × Option Ctx) → Type 0
  AfterDiff b = ((b.0 ≡ pos 0) ⊎ Refuses) → Follows (record { token = b.1.0; ctx = b.1.1 })

  -- One piece of output that was taken, to the hash.
  piece :
      (w : Output T Ctx) (bs : Bytes) (t : T)
      → Follows w
      → Valid t
      → written t ≡ written w.token ++ bs
      → Gives
          (λ ctx'. Follows (record { token = t; ctx = ctx' }))
          (update bz z target fuel malloc old patch w.ctx bs)
  unfolding update
  piece w bs t (v, (c, e, h)) v' q = rw e (
    v',
    (
      target.sha_update c bs,
      refl,
      subst (Hashed (target.sha_update c bs)) (sym q) (r.hashes c (written w.token) bs h),
    ),
  )

  -- The same, if no piece was taken.
  unpieced :
      (w : Output T Ctx) (t : T)
      → Follows w
      → Valid t
      → written t ≡ written w.token
      → Follows (record w { token = t })
  unpieced w t (v, (c, e, h)) v' q = (v', (c, e, subst (Hashed c) (sym q) h))

  deflate_loop-Succeeds :
      (n size : ℕ) (strm : Z) (w : Output T Ctx)
      → Follows w
      → Gives Succeeds (deflate_loop bz z target fuel malloc old patch n size strm w)
  unfolding deflate_loop
  deflate_loop-Succeeds zero size strm w h = tt
  deflate_loop-Succeeds (suc n) size strm w h =
      let d = z.deflate strm size in
      by_taken d (r.takes w.token d.1.0 h.0) (λ w' h'. deflate_loop-Succeeds n size d.1.1 w' h')
    where
      by_taken :
          (d : Bool × (Bytes × Z))
          → Valid (target.sink w.token d.1.0).1
            × ((((target.sink w.token d.1.0).0 ≡ pos (length d.1.0))
                  × (written (target.sink w.token d.1.0).1 ≡ written w.token ++ d.1.0))
                ⊎ ((ltb_ℤ (target.sink w.token d.1.0).0 (pos (length d.1.0)) ≡ true)
                    × (Refuses → written (target.sink w.token d.1.0).1 ≡ written w.token)))
          → ((w' : Output T Ctx)
              → Follows w'
              → Gives Succeeds (deflate_loop bz z target fuel malloc old patch n size d.1.1 w'))
          → Gives Succeeds (
              if is_short (target.sink w.token d.1.0).0 (length d.1.0)
              then returns (false, record w { token = (target.sink w.token d.1.0).1 })
              else (update bz z target fuel malloc old patch w.ctx d.1.0 >>= λ ctx'.
                  let w' : Output T Ctx = record {
                    token = (target.sink w.token d.1.0).1;
                    ctx = ctx';
                  } in
                  if d.0
                  then returns (true, w')
                  else deflate_loop bz z target fuel malloc old patch n size d.1.1 w'))
      by_taken d (v, inl (all, q)) ih =
          let full : is_short (target.sink w.token d.1.0).0 (length d.1.0) ≡ false =
            rw all (ground arith) in
          rw full (
            Gives-bind
              (λ ctx'. Follows (record { token = (target.sink w.token d.1.0).1; ctx = ctx' }))
              Succeeds _ _ (piece w d.1.0 _ h v q)
              (λ ctx' h'. Gives-if Succeeds d.0 _ _ (λ _ _. h') (λ _. ih _ h')))
      by_taken d (v, inr (low, q)) ih =
          rw (less_short (target.sink w.token d.1.0).0 (length d.1.0) low) (λ ok. elim ok [
            | inl e ↦ ground (arith, e)
            | inr all ↦ absurd (less_not_all _ (length d.1.0) low (all w.token d.1.0 h.0))
          ])

  pub apply_bs_diff_patch-Follows :
      (src bytes : Bytes) (offset : ℕ) (w : Output T Ctx)
      → Follows w
      → Gives AfterDiff (
          apply_bs_diff_patch bz target.sink target.sha_update fuel malloc src bytes offset w.token
            w.ctx)
  unfolding apply_bs_diff_patch
  apply_bs_diff_patch-Follows src bytes offset w h =
      by_outcome _ (apply_bs_diff_patch_mem bz fuel malloc src bytes offset) _ _
        (λ new. whole new h (r.takes w.token new h.0)) (λ _. h)
    where
      whole :
          (new : Bytes)
          → Follows w
          → Valid (target.sink w.token new).1
            × ((((target.sink w.token new).0 ≡ pos (length new))
                  × (written (target.sink w.token new).1 ≡ written w.token ++ new))
                ⊎ ((ltb_ℤ (target.sink w.token new).0 (pos (length new)) ≡ true)
                    × (Refuses → written (target.sink w.token new).1 ≡ written w.token)))
          → Gives AfterDiff (
              if ltb_ℤ (target.sink w.token new).0 (pos (length new))
              then ends (pos 1) (target.sink w.token new).1 w.ctx
              else ends
                  (pos 0)
                  (target.sink w.token new).1
                  (elim w.ctx [ none ↦ none | some c ↦ some (target.sha_update c new) ]))
      whole new (v, (c, e, same)) (v', inl (all, q)) =
          let full : ltb_ℤ (target.sink w.token new).0 (pos (length new)) ≡ false =
            rw all (ground arith) in
          rw (full, e)
            (λ _. (
              v',
              (
                target.sha_update c new,
                refl,
                subst (Hashed (target.sha_update c new)) (sym q)
                    (r.hashes c (written w.token) new same),
              ),
            ))
      whole new h (v', inr (low, q)) = rw low (λ ok. elim ok [
        | inl e ↦ ground (arith, e)
        | inr refuses ↦ unpieced w _ h v' (q refuses)
      ])

  recompress-Succeeds :
      (h : DeflateHeader) (expanded : Bytes) (w : Output T Ctx)
      → Follows w
      → Gives Succeeds (recompress bz z target fuel malloc old patch h expanded w)
  unfolding recompress
  recompress-Succeeds h expanded w a =
      by_outcome Succeeds (apply_bs_diff_patch_mem bz fuel malloc expanded patch h.patch_offset) _ _
        (λ new. deflate_loop-Succeeds fuel _ _ w a) (λ _. a)

  apply_deflate-Succeeds :
      (h : DeflateHeader) (w : Output T Ctx)
      → Follows w
      → Gives Succeeds (apply_deflate bz z target fuel malloc old patch h w)
  unfolding apply_deflate
  apply_deflate-Succeeds h w a =
      by_option Succeeds (malloc h.expanded_len) _ _
        (λ _.
          Gives-bind (λ _. Unit {0}) Succeeds (slice old h.src_start h.src_len) _
            (anything (slice old h.src_start h.src_len))
            (λ src _.
              by_option Succeeds (z.inflate_init2 src) _ _
                (λ strm.
                  Gives-if Succeeds
                    (not (z.inflate strm h.expanded_len).0
                      || not (length (z.inflate strm h.expanded_len).1 == h.expanded_len))
                    _ _ (λ _ _. a)
                    (λ _. recompress-Succeeds h (z.inflate strm h.expanded_len).1 w a))
                (λ _. a)))
        (λ _. a)

  apply_raw-Succeeds :
      (w : Output T Ctx) (bytes : Bytes)
      → Follows w
      → Gives Succeeds (apply_chunk bz z target fuel malloc old patch (raw bytes) w)
  unfolding apply_chunk
  apply_raw-Succeeds w bytes a =
      let (v, taken) = r.takes w.token bytes a.0 in
      elim taken [
        | inl (all, q) ↦
            Gives-bind
              (λ ctx'. Follows (record { token = (target.sink w.token bytes).1; ctx = ctx' }))
              Succeeds _ _ (piece w bytes _ a v q) (λ ctx' h _. h)
        | inr (low, q) ↦
            Gives-bind (λ _. Unit {0}) Succeeds _ _
              (anything (update bz z target fuel malloc old patch w.ctx bytes))
              (λ ctx' _ ok. absurd (refused bytes low ok a.0))
      ]
    where
      refused :
          (bs : Bytes)
          → ltb_ℤ (target.sink w.token bs).0 (pos (length bs)) ≡ true
          → ((not (is_short (target.sink w.token bs).0 (length bs)) ≡ true) ⊎ TakesAll target Valid)
          → Valid w.token
          → ⊥
      refused bs e (inl all) v =
          let short = less_short (target.sink w.token bs).0 (length bs) e in
          ground (arith, short, all)
      refused bs e (inr all) v = less_not_all _ (length bs) e (all w.token bs v)

  apply_chunk-Succeeds :
      Refuses
      → (c : Chunk) (w : Output T Ctx) → Follows w
      → Gives Succeeds (apply_chunk bz z target fuel malloc old patch c w)
  unfolding apply_chunk
  apply_chunk-Succeeds refuses (normal start len offset) w a =
      Gives-bind (λ _. Unit {0}) Succeeds (slice old start len) _ (anything (slice old start len))
        (λ src _.
          Gives-bind AfterDiff Succeeds _ _ (apply_bs_diff_patch-Follows src patch offset w a)
            (λ b h _. h (inr refuses)))
  apply_chunk-Succeeds refuses (raw bytes) w a = apply_raw-Succeeds w bytes a
  apply_chunk-Succeeds refuses (deflated h) w a = apply_deflate-Succeeds h w a

  abbrev pub SucceedsAtEnd : ℤ × Output T Ctx → Type 0
  SucceedsAtEnd b = ((b.0 ≡ pos 0) ⊎ TakesAll target Valid) → Follows b.1

  chunk_loop-Succeeds :
      Refuses
      → (n p : ℕ) (w : Output T Ctx) → Follows w
      → Gives SucceedsAtEnd (chunk_loop bz z target fuel malloc old patch n p w)
  unfolding chunk_loop
  chunk_loop-Succeeds refuses zero p w a = λ _. a
  chunk_loop-Succeeds refuses (suc n) p w a =
      by_outcome SucceedsAtEnd (read_chunk patch p) _ _
        (λ (c, p'). Gives-bind Succeeds SucceedsAtEnd _ _ (apply_chunk-Succeeds refuses c w a) (
          stops_or (chunk_loop bz z target fuel malloc old patch n p')
            (chunk_loop-Succeeds refuses n p')))
        (λ _. a)
    where
      stops_or :
          (k : Output T Ctx → Result bz z target fuel malloc old patch)
          → ((w' : Output T Ctx) → Follows w' → Gives SucceedsAtEnd (k w'))
          → (b : Bool × Output T Ctx) → Succeeds b
          → Gives SucceedsAtEnd (next_chunk bz z target fuel malloc old patch k b)
      stops_or k h (true, w') a' = h w' (a' (inl refl))
      stops_or k h (false, w') a' = after_failure
        where
          after_failure : SucceedsAtEnd (negsuc 0, w')
          after_failure (inl e) = ground arith
          after_failure (inr all) = a' (inr all)

  pub apply_image_patch-Succeeds :
      Refuses
      → (w : Output T Ctx) → Follows w
      → Gives SucceedsAtEnd (apply_image_patch bz z target fuel malloc old patch w)
  unfolding apply_image_patch
  apply_image_patch-Succeeds refuses w a =
      Gives-if SucceedsAtEnd (ltb (length patch) 12) _ _ (λ _ _. a)
        (λ _.
          Gives-if SucceedsAtEnd (not (str_eq (take 8 patch) (codes "IMGDIFF2"))) _ _ (λ _ _. a)
            (λ _. chunk_loop-Succeeds refuses (pos_part (read4 (drop 8 patch))) 12 w a))
