-- ===== src/Roots/Fstab/Table.antt =====
-- roots.c: the volumes that `load_volume_table` makes of the lines of /etc/fstab.
use screenbox_rockchip_recov.Prelude.{
  ℕ, zero, suc, ◌+◌, ◌≤◌, ◌≡◌, refl, sym, ap, ◌∙◌, true, false, ◌||◌, List, [], ◌∷◌, ◌++◌, none,
  some, arith, ◌==◌, length, length-append, append_assoc, append-nil, map,
}
use screenbox_rockchip_recov.Prelude.Bytes.{Bytes}
use screenbox_rockchip_recov.Prelude.Scanf.{is_space}
use screenbox_rockchip_recov.Prelude.Words.{IsPlain, IsWord}
use screenbox_rockchip_recov.Roots.{Volume}
use screenbox_rockchip_recov.Roots.Fstab.{
  fgets, leading, cut_at, skip_blank, cut_field, fields_of, Line, skipped, stops, entry, line_of,
  load_lines, ramdisk, load_volume_table,
}

-- The six fields of a line.
pub record Fields : Type 0 where
  pub file_system : Bytes
  pub mount_point : Bytes
  pub fs_type : Bytes
  pub option : Bytes
  pub dump : Bytes
  pub pass : Bytes

abbrev pub fields_line : Fields → Bytes → Bytes
fields_line f rest =
    f.file_system
    ++ (b'\t'
        ∷ (f.mount_point
            ++ (b'\t'
                ∷ (f.fs_type
                    ++ (b'\t' ∷ (f.option ++ (b'\t' ∷ (f.dump ++ (b'\t' ∷ (f.pass ++ rest))))))))))

abbrev pub fstab_of : List Fields → Bytes
fstab_of [] = []
fstab_of (f ∷ fs) = fields_line f (b'\n' ∷ fstab_of fs)

abbrev pub volume_of : Fields → Volume
volume_of f = record {
  mount_point = f.mount_point;
  fs_type = f.fs_type;
  device = some f.file_system;
  device2 = none;
  option = some f.option;
  dump = some f.dump;
  pass = some f.pass;
}

abbrev pub IsNoComment : Bytes → Type 0
IsNoComment [] = Unit
IsNoComment (c ∷ s) = (c == b'#') ≡ false

-- Words, in a line that is no comment and fits the buffer.
abbrev pub IsEntry : Fields → Type 0
IsEntry f =
    IsWord f.file_system
    × IsWord f.mount_point
    × IsWord f.fs_type
    × IsWord f.option
    × IsWord f.dump
    × IsWord f.pass
    × IsNoComment f.file_system
    × (length (fields_line f []) + 1 ≤ 1022)

abbrev pub AreEntries : List Fields → Type 0
AreEntries [] = Unit
AreEntries (f ∷ fs) = IsEntry f × AreEntries fs

abbrev pub HasNoNewline : Bytes → Type 0
HasNoNewline [] = Unit
HasNoNewline (c ∷ s) = ((c == b'\n') ≡ false) × HasNoNewline s

differs : (c d : ℕ) → is_space c ≡ false → is_space d ≡ true → (c == d) ≡ false
differs c d h k = ground arith

IsPlain-HasNoNewline : (w r : Bytes) → IsPlain w → HasNoNewline r → HasNoNewline (w ++ r)
IsPlain-HasNoNewline [] r h k = k
IsPlain-HasNoNewline (c ∷ w) r h k = (differs c b'\n' h.0 refl, IsPlain-HasNoNewline w r h.1 k)

fields_line-HasNoNewline : (f : Fields) → IsEntry f → HasNoNewline (fields_line f [])
fields_line-HasNoNewline f (d, m, t, o, u, p, _, _) = IsPlain-HasNoNewline f.file_system _ d.1 (
  refl,
  IsPlain-HasNoNewline f.mount_point _ m.1 (
    refl,
    IsPlain-HasNoNewline f.fs_type _ t.1 (
      refl,
      IsPlain-HasNoNewline f.option _ o.1
          (refl, IsPlain-HasNoNewline f.dump _ u.1 (refl, IsPlain-HasNoNewline f.pass [] p.1 tt)),
    ),
  ),
)

fields_line-append : (f : Fields) (rest : Bytes) → fields_line f rest ≡ fields_line f [] ++ rest
fields_line-append f rest = simp (append_assoc, append-nil)

pub fgets-line :
    (n : ℕ) (line rest : Bytes)
    → HasNoNewline line
    → length line + 1 ≤ n
    → fgets n (line ++ (b'\n' ∷ rest)) ≡ (line ++ (b'\n' ∷ []), rest)
unfolding fgets
fgets-line zero line rest h le = ground arith
fgets-line (suc n) [] rest h le = refl
fgets-line (suc n) (c ∷ line) rest h le = rw (h.0, fgets-line n line rest h.1 (omega arith)) refl

cut_at-plain :
    (stop : ℕ) (w rest : Bytes)
    → IsPlain w
    → is_space stop ≡ true
    → cut_at stop (w ++ (stop ∷ rest)) ≡ some (w, rest)
unfolding cut_at
cut_at-plain stop [] rest h e = rw (same stop) refl
  where
    same : (n : ℕ) → (n == n) ≡ true
    same n = ground arith
cut_at-plain stop (c ∷ w) rest h e = rw (differs c stop h.0 e, cut_at-plain stop w rest h.1 e) refl

not_blank : (c : ℕ) → is_space c ≡ false → (c == b'\t' || c == b' ' || c == b'\n') ≡ false
not_blank c h = ground arith

skip_blank-word : (w rest : Bytes) → IsWord w → skip_blank (w ++ rest) ≡ w ++ rest
unfolding skip_blank
skip_blank-word [] rest h = ground arith
skip_blank-word (c ∷ w) rest h = rw (not_blank c h.1.0) refl

cut_field-word : (w rest : Bytes) → IsWord w → cut_field (w ++ (b'\t' ∷ rest)) ≡ some (w, rest)
unfolding cut_field
cut_field-word w rest h =
    rw (skip_blank-word w (b'\t' ∷ rest) h) (cut_at-plain b'\t' w rest h.1 refl)

-- `fields_of`, of what each step cuts off.
fields_of-cuts :
    (space s a s₁ b s₂ c s₃ d s₄ e s₅ p s₆ : Bytes)
    → cut_at b'\t' s ≡ some (a, s₁)
    → cut_field s₁ ≡ some (b, s₂)
    → cut_field s₂ ≡ some (c, s₃)
    → cut_field s₃ ≡ some (d, s₄)
    → cut_field s₄ ≡ some (e, s₅)
    → cut_at b'\n' (skip_blank s₅) ≡ some (p, s₆)
    → fields_of space s
      ≡ some (
          volume_of (record {
            file_system = space ++ a;
            mount_point = b;
            fs_type = c;
            option = d;
            dump = e;
            pass = p;
          }))
unfolding fields_of
fields_of-cuts space s a s₁ b s₂ c s₃ d s₄ e s₅ p s₆ e₁ e₂ e₃ e₄ e₅ e₆ =
    rw (e₁, e₂, e₃, e₄, e₅, e₆) refl

fields_of-fields_line :
    (f : Fields) → IsEntry f → fields_of [] (fields_line f (b'\n' ∷ [])) ≡ some (volume_of f)
fields_of-fields_line f (d, m, t, o, u, p, _, _) =
    fields_of-cuts [] _ f.file_system _ f.mount_point _ f.fs_type _ f.option _ f.dump _ f.pass []
      (cut_at-plain b'\t' f.file_system _ d.1 refl) (cut_field-word f.mount_point _ m)
      (cut_field-word f.fs_type _ t) (cut_field-word f.option _ o) (cut_field-word f.dump _ u)
      (rw (skip_blank-word f.pass (b'\n' ∷ []) p) (cut_at-plain b'\n' f.pass [] p.1 refl))

pub leading-word : (w rest : Bytes) → IsWord w → leading (w ++ rest) ≡ ([], w ++ rest)
unfolding leading
leading-word [] rest h = ground arith
leading-word (c ∷ w) rest h = rw h.1.0 refl

IsNoComment-append : (w rest : Bytes) → IsWord w → IsNoComment w → IsNoComment (w ++ rest)
IsNoComment-append [] rest h k = ground arith
IsNoComment-append (c ∷ w) rest h k = k

line_of-entry :
    (s : Bytes) (v : Volume)
    → leading s ≡ ([], s)
    → 1 ≤ length s
    → IsNoComment s
    → fields_of [] s ≡ some v
    → line_of s ≡ entry v
unfolding line_of
line_of-entry [] v e h k f = ground arith
line_of-entry (c ∷ s) v e h k f = rw (line_of, e, k, e, f) refl

pub length-fields_line :
    (f : Fields) (rest : Bytes) → IsEntry f → length rest + 1 ≤ length (fields_line f rest)
length-fields_line f rest h =
    rw
      (
        length-append f.file_system,
        length-append f.mount_point,
        length-append f.fs_type,
        length-append f.option,
        length-append f.dump,
        length-append f.pass,
      )
      (omega arith)

pub line_of-fields_line :
    (f : Fields) → IsEntry f → line_of (fields_line f (b'\n' ∷ [])) ≡ entry (volume_of f)
line_of-fields_line f (d, m, t, o, u, p, c, le) =
    let long = length-fields_line f (b'\n' ∷ []) (d, m, t, o, u, p, c, le) in
    line_of-entry (fields_line f (b'\n' ∷ [])) (volume_of f) (leading-word f.file_system _ d)
      (omega arith) (IsNoComment-append f.file_system _ d c)
      (fields_of-fields_line f (d, m, t, o, u, p, c, le))

pub fgets-fields_line :
    (f : Fields) (rest : Bytes)
    → IsEntry f
    → fgets 1022 (fields_line f (b'\n' ∷ rest)) ≡ (fields_line f (b'\n' ∷ []), rest)
fgets-fields_line f rest h =
    let (d, m, t, o, u, p, c, le) = h in
    rw (fields_line-append f (b'\n' ∷ rest), fields_line-append f (b'\n' ∷ []))
      (fgets-line 1022 (fields_line f []) rest (fields_line-HasNoNewline f h) le)

-- A round of the loop, of what `line_of` says of the line.
abbrev next_line : ℕ → List Volume → Bytes → Line → List Volume
next_line fuel volumes rest l = elim l as (λ _. List Volume) [
  | skipped ↦ load_lines fuel rest volumes
  | stops ↦ volumes
  | entry v ↦ load_lines fuel rest (volumes ++ (v ∷ []))
]

pub load_lines-next_line :
    (fuel : ℕ) (s buffer rest : Bytes) (l : Line) (volumes : List Volume)
    → 1 ≤ length s
    → fgets 1022 s ≡ (buffer, rest)
    → line_of buffer ≡ l
    → load_lines (suc fuel) s volumes ≡ next_line fuel volumes rest l
unfolding load_lines
load_lines-next_line fuel [] buffer rest l volumes h e k = ground arith
load_lines-next_line fuel (c ∷ s) buffer rest l volumes h e k =
    ap (λ (b : Bytes × Bytes). next_line fuel volumes b.1 (line_of b.0)) e
    ∙ ap (next_line fuel volumes rest) k

load_lines-fstab_of :
    (fuel : ℕ) (fs : List Fields) (volumes : List Volume)
    → AreEntries fs
    → length (fstab_of fs) ≤ fuel
    → load_lines fuel (fstab_of fs) volumes ≡ volumes ++ map volume_of fs
unfolding load_lines
load_lines-fstab_of zero [] volumes h le = sym (append-nil volumes)
load_lines-fstab_of (suc fuel) [] volumes h le = sym (append-nil volumes)
load_lines-fstab_of zero (f ∷ fs) volumes h le =
    ground (arith, length-fields_line f (b'\n' ∷ fstab_of fs) h.0)
load_lines-fstab_of (suc fuel) (f ∷ fs) volumes h le =
    let long = length-fields_line f (b'\n' ∷ fstab_of fs) h.0 in
    load_lines-next_line fuel (fstab_of (f ∷ fs)) (fields_line f (b'\n' ∷ [])) (fstab_of fs)
      (entry (volume_of f)) volumes (omega arith) (fgets-fields_line f (fstab_of fs) h.0)
      (line_of-fields_line f h.0)
    ∙ load_lines-fstab_of fuel fs (volumes ++ (volume_of f ∷ [])) h.1 (omega arith)
    ∙ append_assoc volumes (volume_of f ∷ []) (map volume_of fs)

-- Of an /etc/fstab whose lines have six words with a tab after each but the last, are no comments
-- and fit the buffer, `load_volume_table` makes the ramdisk and one volume for each line, in order.
pub load_volume_table-fstab_of :
    (fs : List Fields)
    → AreEntries fs
    → load_volume_table (some (fstab_of fs)) ≡ ramdisk ∷ map volume_of fs
unfolding load_volume_table
load_volume_table-fstab_of fs h =
    load_lines-fstab_of (length (fstab_of fs)) fs (ramdisk ∷ []) h (omega arith)
