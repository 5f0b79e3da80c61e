-- ===== src/Roots/Fstab/Stops.antt =====
-- roots.c: the line of /etc/fstab at which `load_volume_table` stops.
use screenbox_rockchip_recov.Prelude.{
  ℕ, zero, suc, ◌+◌, ◌≤◌, ◌≡◌, refl, sym, ap, ◌∙◌, false, ◌||◌, List, [], ◌∷◌, ◌++◌, none, some,
  arith, ◌==◌, length, length-append, append_assoc, append-nil, map, Option, ◌<◌, Bool-cases, inl,
  inr, if◌then◌else◌,
}
use screenbox_rockchip_recov.Prelude.Bytes.{Bytes}
use screenbox_rockchip_recov.Prelude.Scanf.{is_space, OnSome, OnSome-bind, OnSome-given}
use screenbox_rockchip_recov.Roots.{Volume}
use screenbox_rockchip_recov.Roots.Fstab.{
  leading, cut_at, skip_blank, cut_field, fields_of, stops, entry, line_of, load_lines, ramdisk,
  load_volume_table,
}
use screenbox_rockchip_recov.Roots.Fstab.Table.{
  Fields, fields_line, volume_of, AreEntries, HasNoNewline, load_lines-next_line, fgets-fields_line,
  line_of-fields_line, length-fields_line, fgets-line,
}

-- The lines of the fields, a line, and what follows it.
abbrev pub fstab_with : List Fields → Bytes → Bytes → Bytes
fstab_with [] line rest = line ++ (b'\n' ∷ rest)
fstab_with (f ∷ fs) line rest = fields_line f (b'\n' ∷ fstab_with fs line rest)

abbrev pub count_tabs : Bytes → ℕ
count_tabs [] = 0
count_tabs (c ∷ s) = (if c == b'\t' then 1 else 0) + count_tabs s

-- A blank at most, and then no comment.
abbrev pub IsText : Bytes → Type 0
IsText [] = ⊥
IsText (c ∷ s) = (is_space c ≡ false) × ((c == b'#') ≡ false)

-- A piece that was cut off ended at a tab.
abbrev Shorter : Bytes → Bytes × Bytes → Type 0
Shorter s p = count_tabs p.1 + 1 ≤ count_tabs s

cut_at-Shorter : (s : Bytes) → OnSome (Shorter s) (cut_at b'\t' s)
unfolding cut_at
cut_at-Shorter [] = tt
cut_at-Shorter (c ∷ s) = elim (Bool-cases (c == b'\t')) [
  | inl tab ↦ rw tab (ground (arith, tab))
  | inr other ↦ rw other (
      OnSome-bind (Shorter s) (λ p. Shorter (c ∷ s) p) (cut_at b'\t' s) (λ p. some (c ∷ p.0, p.1))
        (cut_at-Shorter s) (λ p h. omega (arith, h)))
]

skip_blank-tabs : (s : Bytes) → count_tabs (skip_blank s) ≤ count_tabs s
unfolding skip_blank
skip_blank-tabs [] = omega arith
skip_blank-tabs (c ∷ s) =
    let le = skip_blank-tabs s in
    elim (Bool-cases (c == b'\t' || c == b' ' || c == b'\n')) [
      | inl blank ↦ rw blank (omega (arith, le))
      | inr other ↦ rw other (omega arith)
    ]

OnSome-map :
    {A : Type 0} (P Q : A → Type 0) (o : Option A) → ((a : A) → P a → Q a) → OnSome P o → OnSome Q o
OnSome-map P Q none f h = tt
OnSome-map P Q (some a) f h = f a h

OnSome-any : {A : Type 0} (o : Option A) → OnSome (λ _. Unit {0}) o
OnSome-any none = tt
OnSome-any (some a) = tt

cut_field-Shorter : (s : Bytes) → OnSome (Shorter s) (cut_field s)
unfolding cut_field
cut_field-Shorter s =
    OnSome-map (Shorter (skip_blank s)) (Shorter s) (cut_at b'\t' (skip_blank s))
      (λ p h. let le = skip_blank-tabs s in omega (arith, h, le)) (cut_at-Shorter (skip_blank s))

fields_of-tabs : (space s : Bytes) → OnSome (λ (v : Volume). 5 ≤ count_tabs s) (fields_of space s)
unfolding fields_of
fields_of-tabs space s =
    let P = λ (v : Volume). 5 ≤ count_tabs s in
    OnSome-bind (Shorter s) P (cut_at b'\t' s) _ (cut_at-Shorter s) (λ a ha.
      OnSome-bind (Shorter a.1) P (cut_field a.1) _ (cut_field-Shorter a.1) (λ b hb.
        OnSome-bind (Shorter b.1) P (cut_field b.1) _ (cut_field-Shorter b.1) (λ c hc.
          OnSome-bind (Shorter c.1) P (cut_field c.1) _ (cut_field-Shorter c.1) (λ d hd.
            OnSome-bind (Shorter d.1) P (cut_field d.1) _ (cut_field-Shorter d.1) (λ e he.
              OnSome-bind (λ _. Unit {0}) P (cut_at b'\n' (skip_blank e.1)) _ (OnSome-any _)
                (λ q _. omega (arith, ha, hb, hc, hd, he)))))))

leading-text : (c : ℕ) (s : Bytes) → is_space c ≡ false → leading (c ∷ s) ≡ ([], c ∷ s)
unfolding leading
leading-text c s h = rw h refl

line_of-tabs : (line : Bytes) → IsText line → count_tabs line < 5 → line_of line ≡ stops
unfolding line_of
line_of-tabs [] t few = absurd t
line_of-tabs (c ∷ s) (text, other) few = by_fields (fields_of [] (c ∷ s)) refl
  where
    by_fields : (o : Option Volume) → fields_of [] (c ∷ s) ≡ o → line_of (c ∷ s) ≡ stops
    by_fields none e =
        let whole = leading-text c s text in rw (line_of, whole, other, whole, e) refl
    by_fields (some v) e =
        let five =
          OnSome-given (λ (w : Volume). 5 ≤ count_tabs (c ∷ s)) _ v (fields_of-tabs [] (c ∷ s)) e in
        absurd (omega (arith, five, few))

load_lines-stops :
    (fuel : ℕ) (fs : List Fields) (line rest : Bytes) (volumes : List Volume)
    → AreEntries fs
    → HasNoNewline line
    → length line + 1 ≤ 1022
    → line_of (line ++ (b'\n' ∷ [])) ≡ stops
    → length (fstab_with fs line rest) ≤ fuel
    → load_lines fuel (fstab_with fs line rest) volumes ≡ volumes ++ map volume_of fs
unfolding load_lines
load_lines-stops zero [] line rest volumes h n le e f =
    ground (arith, f, length-append line (b'\n' ∷ rest))
load_lines-stops (suc fuel) [] line rest volumes h n le e f =
    load_lines-next_line fuel (line ++ (b'\n' ∷ rest)) (line ++ (b'\n' ∷ [])) rest stops volumes
      (omega (arith, length-append line (b'\n' ∷ rest))) (fgets-line 1022 line rest n le) e
    ∙ sym (append-nil volumes)
load_lines-stops zero (g ∷ fs) line rest volumes h n le e f =
    ground (arith, f, length-fields_line g (b'\n' ∷ fstab_with fs line rest) h.0)
load_lines-stops (suc fuel) (g ∷ fs) line rest volumes h n le e f =
    let long = length-fields_line g (b'\n' ∷ fstab_with fs line rest) h.0 in
    load_lines-next_line fuel (fstab_with (g ∷ fs) line rest) (fields_line g (b'\n' ∷ []))
      (fstab_with fs line rest) (entry (volume_of g)) volumes (omega arith)
      (fgets-fields_line g (fstab_with fs line rest) h.0) (line_of-fields_line g h.0)
    ∙ load_lines-stops fuel fs line rest (volumes ++ (volume_of g ∷ [])) h.1 n le e (omega arith)
    ∙ append_assoc volumes (volume_of g ∷ []) (map volume_of fs)

count_tabs-newline : (line : Bytes) → count_tabs (line ++ (b'\n' ∷ [])) ≡ count_tabs line
count_tabs-newline [] = refl
count_tabs-newline (c ∷ s) = ap (λ n. (if c == b'\t' then 1 else 0) + n) (count_tabs-newline s)

IsText-append : (line rest : Bytes) → IsText line → IsText (line ++ rest)
IsText-append [] rest t = absurd t
IsText-append (c ∷ s) rest t = t

-- A line that lacks a field ends the table: of an /etc/fstab whose first lines have six words with a
-- tab after each but the last, are no comments and fit the buffer, and whose next line fits the
-- buffer, does not begin with a space or `#`, and has fewer than five tabs, `load_volume_table` makes
-- the ramdisk and one volume for each of the first lines, whatever follows.
pub load_volume_table_stops :
    (fs : List Fields) (line rest : Bytes)
    → AreEntries fs
    → IsText line
    → HasNoNewline line
    → count_tabs line < 5
    → length line + 1 ≤ 1022
    → load_volume_table (some (fstab_with fs line rest)) ≡ ramdisk ∷ map volume_of fs
unfolding load_volume_table
load_volume_table_stops fs line rest h text plain few le =
    let same = count_tabs-newline line in
    load_lines-stops (length (fstab_with fs line rest)) fs line rest (ramdisk ∷ []) h plain le
      (line_of-tabs (line ++ (b'\n' ∷ [])) (IsText-append line (b'\n' ∷ []) text)
        (omega (arith, same, few)))
      (omega arith)
