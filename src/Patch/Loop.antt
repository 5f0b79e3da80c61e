-- ===== src/Patch/Loop.antt =====
-- applypatch/bspatch.c: the loop over the triples of the control block.
use mathlib.Core.Path.{subst}
use screenbox_rockchip_recov.Prelude.{
  ℕ, zero, suc, ◌+◌, ◌-◌, ◌^◌, ◌≤◌, ◌<◌, ◌≡◌, refl, ap, ◌∙◌, sym, true, false, List, [], ◌∷◌, ◌++◌,
  append_assoc, append-nil, arith, Bool-cases, inl, inr, length, length-append, ltb, drop,
  drop-append_eq, drop-drop,
}
use screenbox_rockchip_recov.Prelude.Int.{ℤ, pos, ◌+ℤ◌, ltb_ℤ}
use screenbox_rockchip_recov.Prelude.Bytes.{Bytes}
use screenbox_rockchip_recov.Patch.Offsets.{
  offtin, offtout, magnitude, offtin-offtout, length-offtout,
}
use screenbox_rockchip_recov.Patch.Streams.{Unpacks, fill_buffer_lem}
use screenbox_rockchip_recov.Patch.{
  Bzip2, returns, fill_buffer, fill_at, Progress, read_extra, read_diff, apply_triple, apply_loop,
}
use screenbox_rockchip_recov.Patch.Apply.{
  Segment, sub_old, triple_of, new_of, control_of, extra_of, diff_of, AreBytes, progress,
  length-sub_old, split_at, length-three, fill_at_filled, read_extra_filled, read_diff_filled,
}

-- The sizes are those of buffers of less than 2 ^ 31 bytes, and bytes are bytes.
pub record IsSized (g : Segment) : Type 0 where
  pub bytes : AreBytes g.diffed
  pub diffed_size : length g.diffed < 2 ^ 31
  pub inserted_size : length g.inserted < 2 ^ 31
  pub seek_size : magnitude g.seek < 2 ^ 63

length-triple_of : (g : Segment) → 24 ≡ length (triple_of g)
length-triple_of g = omega (
  arith,
  length-three (offtout (pos (length g.diffed))) (offtout (pos (length g.inserted)))
      (offtout g.seek),
  length-offtout (pos (length g.diffed)),
  length-offtout (pos (length g.inserted)),
  length-offtout g.seek,
)

-- The three numbers of a triple.
triple_first : (g : Segment) → IsSized g → offtin (triple_of g) ≡ pos (length g.diffed)
triple_first g v = offtin-offtout (pos (length g.diffed)) _ (omega (arith, v.diffed_size))

drop_first :
    (g : Segment) → drop 8 (triple_of g) ≡ offtout (pos (length g.inserted)) ++ offtout g.seek
drop_first g =
    drop-append_eq 8 (offtout (pos (length g.diffed))) _
      (sym (length-offtout (pos (length g.diffed))))

triple_second : (g : Segment) → IsSized g → offtin (drop 8 (triple_of g)) ≡ pos (length g.inserted)
triple_second g v =
    ap offtin (drop_first g)
    ∙ offtin-offtout (pos (length g.inserted)) (offtout g.seek) (omega (arith, v.inserted_size))

triple_third : (g : Segment) → IsSized g → offtin (drop 16 (triple_of g)) ≡ g.seek
triple_third g v =
    ap offtin (
      drop-drop 8 8 16 (triple_of g) refl
      ∙ ap (drop 8) (drop_first g)
      ∙ drop-append_eq 8 (offtout (pos (length g.inserted))) (offtout g.seek)
          (sym (length-offtout (pos (length g.inserted))))
      ∙ sym (append-nil (offtout g.seek)))
    ∙ offtin-offtout g.seek [] v.seek_size

module _ {S : Type 0} (bz : Bzip2 S) where
  apply_triple_filled :
      (fuel : ℕ) (old : Bytes) (g : Segment) (p p' p'' : Progress S) (c : S)
      → IsSized g
      → fill_buffer bz fuel 24 24 p.cstream ≡ returns (triple_of g, c)
      → read_diff bz fuel old (record p { cstream = c }) (pos (length g.diffed)) ≡ returns p'
      → read_extra bz fuel p' (pos (length g.inserted)) g.seek ≡ returns p''
      → apply_triple bz fuel old p ≡ returns p''
  unfolding apply_triple
  apply_triple_filled fuel old g p p' p'' c v e₁ e₂ e₃ =
      rw (e₁, triple_first g v, e₂, triple_second g v, triple_third g v, e₃) refl

  loop_step :
      (fuel m : ℕ) (old : Bytes) (p p' : Progress S)
      → ltb_ℤ p.newpos (pos (length p.new_data)) ≡ true
      → apply_triple bz fuel old p ≡ returns p'
      → apply_loop bz fuel (suc m) old p ≡ apply_loop bz fuel m old p'
  unfolding apply_loop
  loop_step fuel m old p p' t e = rw (t, e) refl

  loop_done :
      (fuel m : ℕ) (old : Bytes) (p : Progress S)
      → ltb_ℤ p.newpos (pos (length p.new_data)) ≡ false
      → apply_loop bz fuel (suc m) old p ≡ returns p.new_data
  unfolding apply_loop
  loop_done fuel m old p t = rw t refl

same_empty : (x y : Bytes) → length x ≡ length y → length y ≡ 0 → x ≡ y
same_empty [] [] e z = refl
same_empty (a ∷ x) y e z = absurd (omega arith)
same_empty [] (b ∷ y) e z = absurd (omega arith)

abbrev pub AreSized : ℕ → List Segment → Type 0
AreSized fuel [] = Unit
AreSized fuel (g ∷ gs) =
    IsSized g × (length g.diffed ≤ fuel) × (length g.inserted ≤ fuel) × AreSized fuel gs

module _ {S : Type 0} (bz : Bzip2 S) (Holds : S → Bytes → Type 0) (u : Unpacks bz Holds) (fuel : ℕ)
    (old : Bytes) where
  apply_triple_lem :
      (g : Segment) (front s₁ s₂ back cs ds es : Bytes) (oldpos : ℤ) (n : ℕ) (c d e : S)
      → 24 ≤ fuel
      → AreBytes old
      → IsSized g
      → length g.diffed ≤ fuel
      → length g.inserted ≤ fuel
      → Holds c (triple_of g ++ cs)
      → Holds d (sub_old old oldpos g.diffed ++ ds)
      → Holds e (g.inserted ++ es)
      → n ≡ length front
      → length s₁ ≡ length g.diffed
      → length s₂ ≡ length g.inserted
      → (c' : S) × (d' : S) × (e' : S) × (apply_triple bz fuel old
            (progress (front ++ (s₁ ++ (s₂ ++ back))) oldpos n c d e)
          ≡ returns (
              progress
                (((front ++ g.diffed) ++ g.inserted) ++ back)
                ((oldpos +ℤ pos (length g.diffed)) +ℤ g.seek)
                ((n + length g.diffed) + length g.inserted)
                c'
                d'
                e'))
        × Holds c' cs
        × Holds d' ds
        × Holds e' es
  apply_triple_lem g front s₁ s₂ back cs ds es oldpos n c d e f ho v fx fy hc hd he en l₁ l₂ =
      let sub = sub_old old oldpos g.diffed in
      let long = length-sub_old old oldpos g.diffed in
      let buf = front ++ (s₁ ++ (s₂ ++ back)) in
      let front' = front ++ g.diffed in
      let n' = n + length g.diffed in
      let en' : n' ≡ length front' = omega (arith, length-append front g.diffed) in
      let (c', e₁, hc') =
        fill_buffer_lem bz Holds u fuel 24 24 c (triple_of g) cs hc (length-triple_of g) f
          (omega arith) in
      let (d', e₂, hd') =
        fill_buffer_lem bz Holds u fuel (length buf - n) (length sub) d sub ds hd refl (omega arith)
          (omega (arith, length-three front s₁ (s₂ ++ back))) in
      let (e', e₃, he') =
        fill_buffer_lem bz Holds u fuel (length (front' ++ (s₂ ++ back)) - n') (length g.inserted) e
          g.inserted es he refl fy (omega (arith, length-three front' s₂ back)) in
      let filled₂ =
        fill_at_filled bz fuel n front s₁ (s₂ ++ back) sub d d' en (l₁ ∙ sym long)
          (omega (arith, v.diffed_size)) e₂ in
      let filled₃ =
        fill_at_filled bz fuel n' front' s₂ back g.inserted e e' en' l₂ v.inserted_size e₃ in
      let diffed =
        read_diff_filled bz fuel n old front s₁ (s₂ ++ back) g.diffed oldpos c' d d' e ho v.bytes en
          l₁
          (subst
            (λ k.
              fill_at bz fuel buf (pos n) (pos k) d ≡ returns (front ++ (sub ++ (s₂ ++ back)), d'))
            long filled₂) in
      let op = oldpos +ℤ pos (length g.diffed) in
      let inserted =
        read_extra_filled bz fuel n' front' s₂ back g.inserted op g.seek c' d' e e' en' l₂
          filled₃ in
      (
        c',
        d',
        e',
        apply_triple_filled bz fuel old g (progress buf oldpos n c d e)
            (progress (front' ++ (s₂ ++ back)) op n' c' d' e)
            (progress ((front' ++ g.inserted) ++ back) (op +ℤ g.seek) (n' + length g.inserted) c' d'
              e')
            c' v e₁
            (subst
              (λ b.
                read_diff bz fuel old (progress buf oldpos n c' d e) (pos (length g.diffed))
                ≡ returns (progress b op n' c' d' e))
              (sym (append_assoc front g.diffed (s₂ ++ back))) diffed)
            (subst
              (λ b.
                read_extra bz fuel (progress (front' ++ (s₂ ++ back)) op n' c' d' e)
                  (pos (length g.inserted)) g.seek
                ≡ returns (progress b (op +ℤ g.seek) (n' + length g.inserted) c' d' e'))
              (sym (append_assoc front' g.inserted back)) inserted),
        hc',
        hd',
        he',
      )

  pub apply_loop_lem :
      (m : ℕ) (gs : List Segment) (front tail : Bytes) (oldpos : ℤ) (n : ℕ) (c d e : S)
      → 24 ≤ fuel
      → AreBytes old
      → AreSized fuel gs
      → Holds c (control_of gs)
      → Holds d (diff_of old oldpos gs)
      → Holds e (extra_of gs)
      → n ≡ length front
      → length tail ≡ length (new_of gs)
      → length gs < m
      → apply_loop bz fuel m old (progress (front ++ tail) oldpos n c d e)
        ≡ returns (front ++ new_of gs)
  apply_loop_lem zero gs front tail oldpos n c d e f ho v hc hd he en lt h = absurd (omega arith)
  apply_loop_lem (suc m) [] front tail oldpos n c d e f ho v hc hd he en lt h =
      loop_done bz fuel m old (progress (front ++ tail) oldpos n c d e)
        (ground (arith, length-append front tail))
      ∙ ap (λ t. returns (front ++ t)) (same_empty tail [] lt refl)
  apply_loop_lem (suc m) (g ∷ gs) front tail oldpos n c d e f ho (v, fx, fy, vs) hc hd he en lt h =
      elim (Bool-cases (ltb 0 (length (new_of (g ∷ gs))))) [
        | inl more ↦
            let parts = length-three g.diffed g.inserted (new_of gs) in
            let (s₁, rest, e₁, l₁, lr) =
              split_at (length g.diffed) (length g.inserted + length (new_of gs)) tail
                (lt ∙ parts) in
            let (s₂, back, e₂, l₂, l₃) =
              split_at (length g.inserted) (length (new_of gs)) rest lr in
            let front' = (front ++ g.diffed) ++ g.inserted in
            let n' = (n + length g.diffed) + length g.inserted in
            let (c', d', e', step, hc', hd', he') =
              apply_triple_lem g front s₁ s₂ back (control_of gs)
                (diff_of old ((oldpos +ℤ pos (length g.diffed)) +ℤ g.seek) gs) (extra_of gs) oldpos
                n c d e f ho v fx fy hc hd he en l₁ l₂ in
            let en' : n' ≡ length front' =
              omega (
                arith,
                length-append front g.diffed,
                length-append (front ++ g.diffed) g.inserted,
              ) in
            let goes_on =
              loop_step bz fuel m old (progress (front ++ (s₁ ++ (s₂ ++ back))) oldpos n c d e) _
                (ground (arith, length-three front s₁ (s₂ ++ back), length-append s₂ back)) step in
            let ih =
              apply_loop_lem m gs front' back ((oldpos +ℤ pos (length g.diffed)) +ℤ g.seek) n' c' d'
                e' f ho vs hc' hd' he' en' l₃ (omega arith) in
            subst
              (λ t.
                apply_loop bz fuel (suc m) old (progress (front ++ t) oldpos n c d e)
                ≡ returns (front ++ new_of (g ∷ gs)))
              (sym (e₁ ∙ ap (λ r. s₁ ++ r) e₂))
              (goes_on
                ∙ ih
                ∙ ap returns (
                    append_assoc (front ++ g.diffed) g.inserted (new_of gs)
                    ∙ append_assoc front g.diffed (g.inserted ++ new_of gs)))
        | inr none_left ↦
            loop_done bz fuel m old (progress (front ++ tail) oldpos n c d e)
              (ground (arith, length-append front tail))
            ∙ ap (λ t. returns (front ++ t)) (same_empty tail (new_of (g ∷ gs)) lt (ground arith))
      ]
