-- ===== src/Patch/Apply.antt =====
-- applypatch/bspatch.c: `ApplyBSDiffPatchMem` on a patch in the format that bsdiff.c writes.
use screenbox_rockchip_recov.Prelude.{
  ℕ, zero, suc, ◌+◌, ◌-◌, ◌%◌, ◌^◌, ◌≤◌, ◌<◌, ◌≡◌, refl, ap, ◌∙◌, sym, false, List, [], ◌∷◌, ◌++◌,
  arith, length, length-append, length-take, length-drop, ltb, take, drop, take-append_eq,
  drop-append_eq, take-append-drop, drop-drop, get_or,
}
use screenbox_rockchip_recov.Prelude.Int.{ℤ, pos, negsuc, ◌+ℤ◌, ltb_ℤ}
use screenbox_rockchip_recov.Prelude.Bytes.{Bytes}
use screenbox_rockchip_recov.Patch.Offsets.{offtout}
use screenbox_rockchip_recov.Patch.{
  Bzip2, returns, store, old_at, add_old, add_to, fill_buffer, fill_at, Progress, read_extra,
  read_diff,
}

-- Where the new file agrees in part with the old, and where it does not: `diffed` is stored as the
-- difference to the old file, `inserted` as it is; then the place in the old file moves by `seek`.
pub record Segment : Type 0 where
  pub diffed : Bytes
  pub inserted : Bytes
  pub seek : ℤ

-- `db[dblen+i]=new[lastscan+i]-old[lastpos+i]`
unfoldable pub sub_old : Bytes → ℤ → Bytes → Bytes
sub_old old oldpos [] = []
sub_old old oldpos (b ∷ bs) =
    ((b + 256 - old_at old oldpos) % 256) ∷ sub_old old (oldpos +ℤ pos 1) bs

-- A triple of the control block.
abbrev pub triple_of : Segment → Bytes
triple_of g =
    offtout (pos (length g.diffed)) ++ (offtout (pos (length g.inserted)) ++ offtout g.seek)

abbrev pub new_of : List Segment → Bytes
new_of [] = []
new_of (g ∷ gs) = g.diffed ++ (g.inserted ++ new_of gs)

abbrev pub control_of : List Segment → Bytes
control_of [] = []
control_of (g ∷ gs) = triple_of g ++ control_of gs

abbrev pub extra_of : List Segment → Bytes
extra_of [] = []
extra_of (g ∷ gs) = g.inserted ++ extra_of gs

abbrev pub diff_of : Bytes → ℤ → List Segment → Bytes
diff_of old oldpos [] = []
diff_of old oldpos (g ∷ gs) =
    sub_old old oldpos g.diffed ++ diff_of old ((oldpos +ℤ pos (length g.diffed)) +ℤ g.seek) gs

abbrev pub AreBytes : Bytes → Type 0
AreBytes [] = Unit
AreBytes (b ∷ bs) = (b < 256) × AreBytes bs

get_or-less : (bs : Bytes) (i : ℕ) → AreBytes bs → get_or bs i 0 < 256
get_or-less [] i h = omega arith
get_or-less (b ∷ bs) zero h = h.0
get_or-less (b ∷ bs) (suc i) h = get_or-less bs i h.1

old_at-less : (old : Bytes) (p : ℤ) → AreBytes old → old_at old p < 256
old_at-less old (pos n) h = get_or-less old n h
old_at-less old (negsuc n) h = omega arith

byte_back : (b o : ℕ) → b < 256 → o < 256 → ((b + 256 - o) % 256 + o) % 256 ≡ b
byte_back b o hb ho = omega arith

pub add_old-sub_old :
    (old : Bytes) (p : ℤ) (bs : Bytes)
    → AreBytes old
    → AreBytes bs
    → add_old old p (sub_old old p bs) ≡ bs
unfolding add_old sub_old
add_old-sub_old old p [] ho hb = refl
add_old-sub_old old p (b ∷ bs) ho hb =
    rw (byte_back b (old_at old p) hb.0 (old_at-less old p ho))
      (ap (λ l. b ∷ l) (add_old-sub_old old (p +ℤ pos 1) bs ho hb.1))

pub length-sub_old : (old : Bytes) (p : ℤ) (bs : Bytes) → length (sub_old old p bs) ≡ length bs
unfolding sub_old
length-sub_old old p [] = refl
length-sub_old old p (b ∷ bs) = ap suc (length-sub_old old (p +ℤ pos 1) bs)

pos_add : (a b : ℕ) → pos a +ℤ pos b ≡ pos (a + b)
unfolding ◌+ℤ◌
pos_add a b = ground arith

pub store_lem :
    (n : ℕ) (front old_part back bs : Bytes)
    → n ≡ length front
    → length old_part ≡ length bs
    → store (front ++ (old_part ++ back)) (pos n) bs ≡ front ++ (bs ++ back)
unfolding store
store_lem n front old_part back bs e l =
    let skipped : drop (n + length bs) (front ++ (old_part ++ back)) ≡ back =
      drop-drop n (length bs) (n + length bs) _ refl
      ∙ ap (drop (length bs)) (drop-append_eq n front _ e)
      ∙ drop-append_eq (length bs) old_part back (sym l) in
    rw (take-append_eq n front (old_part ++ back) e, skipped) refl

-- A list of `n + m` bytes in two parts.
pub split_at :
    (n m : ℕ) (bs : Bytes)
    → length bs ≡ n + m
    → (x : Bytes) × (y : Bytes) × (bs ≡ x ++ y) × (length x ≡ n) × (length y ≡ m)
split_at n m bs e = (
  take n bs,
  drop n bs,
  sym (take-append-drop n bs),
  omega (arith, length-take n bs),
  omega (arith, length-drop n bs),
)

abbrev pub progress : {S : Type 0} → Bytes → ℤ → ℕ → S → S → S → Progress S
progress buf oldpos newpos c d e = record {
  new_data = buf;
  oldpos = oldpos;
  newpos = pos newpos;
  cstream = c;
  dstream = d;
  estream = e;
}

no_overrun : (size n m : ℕ) → n + m ≤ size → ltb_ℤ (pos size) (pos n +ℤ pos m) ≡ false
no_overrun size n m h = rw (pos_add n m) (ground arith)

pub length-three : (x y z : Bytes) → length (x ++ (y ++ z)) ≡ length x + (length y + length z)
length-three x y z = omega (arith, length-append x (y ++ z), length-append y z)

module _ {S : Type 0} (bz : Bzip2 S) where
  pub fill_at_filled :
      (fuel n : ℕ) (front space back bs : Bytes) (s s' : S)
      → n ≡ length front
      → length space ≡ length bs
      → length bs < 2 ^ 31
      → fill_buffer bz fuel (length (front ++ (space ++ back)) - n) (length bs) s ≡ returns (bs, s')
      → fill_at bz fuel (front ++ (space ++ back)) (pos n) (pos (length bs)) s
        ≡ returns (front ++ (bs ++ back), s')
  unfolding fill_at
  fill_at_filled fuel n front space back bs s s' e l small filled =
      let whole : length bs % 2 ^ 32 ≡ length bs = omega arith in
      rw (whole, filled, store_lem n front space back bs e l) refl

  pub read_extra_filled :
      (fuel n : ℕ) (front space back bs : Bytes) (oldpos seek : ℤ) (c d s s' : S)
      → n ≡ length front
      → length space ≡ length bs
      → fill_at bz fuel (front ++ (space ++ back)) (pos n) (pos (length bs)) s
        ≡ returns (front ++ (bs ++ back), s')
      → read_extra bz fuel
          (progress (front ++ (space ++ back)) oldpos n c d s)
          (pos (length bs))
          seek
        ≡ returns (progress (front ++ (bs ++ back)) (oldpos +ℤ seek) (n + length bs) c d s')
  unfolding read_extra
  read_extra_filled fuel n front space back bs oldpos seek c d s s' e l filled =
      rw
        (
          no_overrun (length (front ++ (space ++ back))) n (length bs)
              (omega (arith, length-three front space back)),
          filled,
          pos_add n (length bs),
        )
        refl

  add_to_lem :
      (old front ds back : Bytes) (oldpos : ℤ) (n k : ℕ)
      → n ≡ length front
      → k ≡ length ds
      → length (add_old old oldpos ds) ≡ length ds
      → add_to old (front ++ (ds ++ back)) oldpos (pos n) k
        ≡ returns (front ++ (add_old old oldpos ds ++ back))
  unfolding add_to add_old
  add_to_lem old front [] back oldpos n zero e f g = refl
  add_to_lem old front (d ∷ ds) back oldpos n zero e f g = absurd (omega arith)
  add_to_lem old front ds back oldpos n (suc k) e f g =
      let fits : ltb (length (front ++ (ds ++ back))) (n + suc k) ≡ false =
        ground (arith, length-three front ds back) in
      let part : take (suc k) (drop n (front ++ (ds ++ back))) ≡ ds =
        ap (take (suc k)) (drop-append_eq n front _ e) ∙ take-append_eq (suc k) ds back f in
      rw (fits, part, store_lem n front ds back (add_old old oldpos ds) e (sym g)) refl

  pub read_diff_filled :
      (fuel n : ℕ) (old front space back bs : Bytes) (oldpos : ℤ) (c s s' x : S)
      → AreBytes old
      → AreBytes bs
      → n ≡ length front
      → length space ≡ length bs
      → fill_at bz fuel (front ++ (space ++ back)) (pos n) (pos (length bs)) s
        ≡ returns (front ++ (sub_old old oldpos bs ++ back), s')
      → read_diff bz fuel old (progress (front ++ (space ++ back)) oldpos n c s x) (pos (length bs))
        ≡ returns
            (progress (front ++ (bs ++ back)) (oldpos +ℤ pos (length bs)) (n + length bs) c s' x)
  unfolding read_diff
  read_diff_filled fuel n old front space back bs oldpos c s s' x ho hb e l filled =
      let same = add_old-sub_old old oldpos bs ho hb in
      let long = length-sub_old old oldpos bs in
      rw
        (
          no_overrun (length (front ++ (space ++ back))) n (length bs)
              (omega (arith, length-three front space back)),
          filled,
          add_to_lem old front (sub_old old oldpos bs) back oldpos n (length bs) e (sym long)
              (ap length same ∙ sym long),
          same,
          pos_add n (length bs),
        )
        refl
