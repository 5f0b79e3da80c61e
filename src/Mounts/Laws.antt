-- ===== src/Mounts/Laws.antt =====
-- mtdutils/mounts.c: the table that a scan of /proc/mounts leaves, and what is found in it.
use screenbox_rockchip_recov.Prelude.{
  ℕ, zero, suc, ◌+◌, ◌≤◌, ◌<◌, ◌≡◌, refl, sym, ap, ◌∙◌, true, false, List, [], ◌∷◌, ◌++◌, Option,
  none, some, arith, Bool-cases, inl, inr, ltb, if◌then◌else◌, length, length-append, get_elem?,
  map, append_assoc, append-nil, take_all,
}
use screenbox_rockchip_recov.Prelude.Bytes.{Bytes, codes, str_eq, str_eq_iff}
use screenbox_rockchip_recov.Prelude.Scanf.{scan_word, eat_line, OnSome, OnSome-bind}
use screenbox_rockchip_recov.Prelude.Words.{
  IsWord, scan_word-word, scan_word-spaced, eat_line-plain,
}
use screenbox_rockchip_recov.Mounts.{
  MountedVolume, MountsState, volumes_allocd, read_size, scan_volume, scan_lines,
  scan_mounted_volumes, find_mounted_volume_by_mount_point,
}

-- A line of /proc/mounts, and the lines of a list of volumes.
abbrev pub mounts_line : MountedVolume → Bytes → Bytes
mounts_line v rest =
    v.device
    ++ (32
        ∷ (v.mount_point ++ (32 ∷ (v.filesystem ++ (32 ∷ (v.flags ++ (codes " 0 0\n" ++ rest)))))))

abbrev pub mounts_file : List MountedVolume → Bytes
mounts_file [] = []
mounts_file (v ∷ vs) = mounts_line v (mounts_file vs)

-- Words that the arrays of `scan_mounted_volumes` hold.
abbrev pub IsListable : MountedVolume → Type 0
IsListable v =
    IsWord v.device
    × (length v.device ≤ 63)
    × IsWord v.mount_point
    × (length v.mount_point ≤ 63)
    × IsWord v.filesystem
    × (length v.filesystem ≤ 63)
    × IsWord v.flags
    × (length v.flags ≤ 127)

abbrev pub AreListable : List MountedVolume → Type 0
AreListable [] = Unit
AreListable (v ∷ vs) = IsListable v × AreListable vs

scan_volume-words :
    (s d s₁ m s₂ f s₃ o s₄ : Bytes)
    → scan_word 63 s ≡ some (d, s₁)
    → scan_word 63 s₁ ≡ some (m, s₂)
    → scan_word 63 s₂ ≡ some (f, s₃)
    → scan_word 127 s₃ ≡ some (o, s₄)
    → scan_volume s ≡ some (record { device = d; mount_point = m; filesystem = f; flags = o })
unfolding scan_volume
scan_volume-words s d s₁ m s₂ f s₃ o s₄ e₁ e₂ e₃ e₄ = rw (e₁, e₂, e₃, e₄) refl

scan_volume-mounts_line :
    (v : MountedVolume) (rest : Bytes) → IsListable v → scan_volume (mounts_line v rest) ≡ some v
scan_volume-mounts_line v rest (d, d_le, m, m_le, f, f_le, o, o_le) =
    scan_volume-words (mounts_line v rest) v.device _ v.mount_point _ v.filesystem _ v.flags _
      (scan_word-word 63 v.device 32 _ d d_le refl)
      (scan_word-spaced 63 v.mount_point 32 _ m m_le refl)
      (scan_word-spaced 63 v.filesystem 32 _ f f_le refl)
      (scan_word-spaced 127 v.flags 32 (codes "0 0\n" ++ rest) o o_le refl)

eat_line-space : (s : Bytes) → eat_line (32 ∷ s) ≡ eat_line s
unfolding eat_line
eat_line-space s = refl

eat_line-zeros : (rest : Bytes) → eat_line (codes " 0 0\n" ++ rest) ≡ rest
unfolding eat_line
eat_line-zeros rest = refl

eat_line-mounts_line :
    (v : MountedVolume) (rest : Bytes) → IsListable v → eat_line (mounts_line v rest) ≡ rest
eat_line-mounts_line v rest (d, d_le, m, m_le, f, f_le, o, o_le) =
    rw
      (
        eat_line-plain v.device _ d.1,
        eat_line-space,
        eat_line-plain v.mount_point _ m.1,
        eat_line-space,
        eat_line-plain v.filesystem _ f.1,
        eat_line-space,
        eat_line-plain v.flags _ o.1,
        eat_line-zeros,
      )
      refl

length-mounts_line :
    (v : MountedVolume) (rest : Bytes) → length rest + 1 ≤ length (mounts_line v rest)
length-mounts_line v rest =
    rw
      (
        length-append v.device,
        length-append v.mount_point,
        length-append v.filesystem,
        length-append v.flags,
      )
      (omega arith)

-- A round of the loop at a line that matches.
scan_lines-matched :
    (fuel : ℕ) (s rest : Bytes) (v : MountedVolume) (table : MountsState)
    → scan_volume s ≡ some v
    → eat_line s ≡ rest
    → 1 ≤ length s
    → scan_lines (suc fuel) s table ≡ (
        if ltb (length table) volumes_allocd
        then scan_lines fuel rest (table ++ (some v ∷ []))
        else none)
unfolding scan_lines
scan_lines-matched fuel [] rest v table e r h = ground arith
scan_lines-matched fuel (b ∷ s) rest v table e r h = rw (scan_lines, e, r) refl

abbrev slots : List MountedVolume → MountsState
slots vs = map (λ v. some v) vs

-- What the loop makes of the lines of `vs`, with `table` stored before.
abbrev stored : List MountedVolume → MountsState → Option MountsState
stored [] table = some table
stored (v ∷ vs) table =
    if ltb (length table) volumes_allocd then stored vs (table ++ (some v ∷ [])) else none

scan_lines-mounts_file :
    (fuel : ℕ) (vs : List MountedVolume) (table : MountsState)
    → AreListable vs
    → length (mounts_file vs) ≤ fuel
    → scan_lines fuel (mounts_file vs) table ≡ stored vs table
unfolding scan_lines
scan_lines-mounts_file zero [] table h le = refl
scan_lines-mounts_file (suc fuel) [] table h le = refl
scan_lines-mounts_file zero (v ∷ vs) table h le =
    ground (arith, length-mounts_line v (mounts_file vs))
scan_lines-mounts_file (suc fuel) (v ∷ vs) table h le =
    let shorter = length-mounts_line v (mounts_file vs) in
    scan_lines-matched fuel (mounts_line v (mounts_file vs)) (mounts_file vs) v table
      (scan_volume-mounts_line v (mounts_file vs) h.0) (eat_line-mounts_line v (mounts_file vs) h.0)
      (omega arith)
    ∙ ap (λ r. if ltb (length table) volumes_allocd then r else none)
        (scan_lines-mounts_file fuel vs (table ++ (some v ∷ [])) h.1 (omega arith))

ltb-below : (n m : ℕ) → n < m → ltb n m ≡ true
ltb-below n m h = ground arith

ltb-above : (n m : ℕ) → m ≤ n → ltb n m ≡ false
ltb-above n m h = ground arith

grown :
    (table : MountsState) (v : MountedVolume) → length (table ++ (some v ∷ [])) ≡ length table + 1
grown table v = length-append table (some v ∷ [])

stored_fits :
    (vs : List MountedVolume) (table : MountsState)
    → length table + length vs ≤ volumes_allocd
    → stored vs table ≡ some (table ++ slots vs)
stored_fits [] table h = ap (λ t. some t) (sym (append-nil table))
stored_fits (v ∷ vs) table h =
    let more = grown table v in
    rw (ltb-below (length table) volumes_allocd (omega arith)) (
      stored_fits vs (table ++ (some v ∷ [])) (omega arith)
      ∙ ap (λ t. some t) (append_assoc table (some v ∷ []) (slots vs)))

stored_overruns :
    (vs : List MountedVolume) (table : MountsState)
    → volumes_allocd < length table + length vs
    → length table ≤ volumes_allocd
    → stored vs table ≡ none
stored_overruns [] table h le = ground arith
stored_overruns (v ∷ vs) table h le =
    let more = grown table v in
    elim (Bool-cases (ltb (length table) volumes_allocd)) [
      | inl room ↦
          rw room (stored_overruns vs (table ++ (some v ∷ [])) (omega arith) (ground arith))
      | inr full ↦ rw full refl
    ]

-- Of a /proc/mounts of at most 2047 bytes, whose lines hold words that fit the arrays, and of at most
-- 32 lines, `scan_mounted_volumes` stores exactly the volumes, in order, and returns 0.
pub scan_mounted_volumes-mounts_file :
    (vs : List MountedVolume)
    → AreListable vs
    → length vs ≤ 32
    → length (mounts_file vs) ≤ 2047
    → scan_mounted_volumes (some (mounts_file vs)) ≡ some (true, slots vs)
unfolding scan_mounted_volumes
scan_mounted_volumes-mounts_file vs h le fits =
    rw
      (
        take_all read_size (mounts_file vs) fits,
        scan_lines-mounts_file (length (mounts_file vs)) vs [] h (omega arith),
        stored_fits vs [] (omega arith),
      )
      refl

-- The count of volumes is not compared with the size of the table: of a /proc/mounts of at most 2047
-- bytes, whose lines hold words that fit the arrays, and of more than 32 lines,
-- `scan_mounted_volumes` writes outside of the table.
pub scan_mounted_volumes_overruns :
    (vs : List MountedVolume)
    → AreListable vs
    → 32 < length vs
    → length (mounts_file vs) ≤ 2047
    → scan_mounted_volumes (some (mounts_file vs)) ≡ none
unfolding scan_mounted_volumes
scan_mounted_volumes_overruns vs h lt fits =
    rw
      (
        take_all read_size (mounts_file vs) fits,
        scan_lines-mounts_file (length (mounts_file vs)) vs [] h (omega arith),
        stored_overruns vs [] (omega arith) (omega arith),
      )
      refl

-- What is found stands in the table and has the mount point.
pub find_mounted_volume_by_mount_point-Slot :
    (mount_point : Bytes) (table : MountsState)
    → OnSome
        (λ (f : ℕ × MountedVolume).
          (f.1.mount_point ≡ mount_point) × (get_elem? table f.0 ≡ some (some f.1)))
        (find_mounted_volume_by_mount_point mount_point table)
unfolding find_mounted_volume_by_mount_point
find_mounted_volume_by_mount_point-Slot mount_point [] = tt
find_mounted_volume_by_mount_point-Slot mount_point (none ∷ vs) =
    OnSome-bind _ _ (find_mounted_volume_by_mount_point mount_point vs)
      (λ (f : ℕ × MountedVolume). some (suc f.0, f.1))
      (find_mounted_volume_by_mount_point-Slot mount_point vs) (λ f h. h)
find_mounted_volume_by_mount_point-Slot mount_point (some v ∷ vs) =
    elim (Bool-cases (str_eq v.mount_point mount_point)) [
      | inl same ↦ rw same ((str_eq_iff v.mount_point mount_point).0 same, refl)
      | inr other ↦ rw other (
          OnSome-bind _ _ (find_mounted_volume_by_mount_point mount_point vs)
            (λ (f : ℕ × MountedVolume). some (suc f.0, f.1))
            (find_mounted_volume_by_mount_point-Slot mount_point vs) (λ f h. h))
    ]
