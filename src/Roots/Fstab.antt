-- ===== src/Roots/Fstab.antt =====
-- roots.c: `load_volume_table`. Bytes of /etc/fstab are not zero.
pub mod Table
pub mod Stops
use screenbox_rockchip_recov.Prelude.{
  ℕ, zero, suc, ◌+◌, ◌≤◌, ◌≡◌, refl, sym, ap, ◌∙◌, Bool, true, false, ◌||◌, List, [], ◌∷◌, ◌++◌,
  Option, none, some, arith, ◌==◌, if◌then◌else◌, length, length-append, append_assoc,
}
use screenbox_rockchip_recov.Prelude.Bytes.{Bytes, codes}
use screenbox_rockchip_recov.Prelude.Scanf.{◌>>=◌, is_space}
use screenbox_rockchip_recov.Prelude.Words.{IsPlain, IsWord}
use screenbox_rockchip_recov.Roots.{Volume}

-- `fgets`, of a buffer with room for `n` bytes and the terminator: the bytes, and what is left.
unfoldable pub fgets : ℕ → Bytes → Bytes × Bytes
fgets zero s = ([], s)
fgets (suc n) [] = ([], [])
fgets (suc n) (c ∷ s) =
    let (line, rest) = fgets n s in if c == b'\n' then (c ∷ [], s) else (c ∷ line, rest)

-- `isspace` at the beginning of the line: what was passed over, and what is left.
unfoldable pub leading : Bytes → Bytes × Bytes
leading [] = ([], [])
leading (c ∷ s) =
    let (space, rest) = leading s in if is_space c then (c ∷ space, rest) else ([], c ∷ s)

-- `strstr(s, "\t")`, and the terminator put there.
unfoldable pub cut_at : ℕ → Bytes → Option (Bytes × Bytes)
cut_at stop [] = none
cut_at stop (c ∷ s) =
    let further = cut_at stop s >>= λ p. some (c ∷ p.0, p.1) in
    if c == stop then some ([], s) else further

-- `for (p++; *p == '\t' || *p == ' ' || *p == '\n'; p++);`
unfoldable pub skip_blank : Bytes → Bytes
skip_blank [] = []
skip_blank (c ∷ s) =
    let rest = skip_blank s in if c == b'\t' || c == b' ' || c == b'\n' then rest else c ∷ s

unfoldable pub cut_field : Bytes → Option (Bytes × Bytes)
unfolding cut_at skip_blank
cut_field s = cut_at b'\t' (skip_blank s)

-- The fields of a line, from the first byte that is not a space on; `none` is `break`.
unfoldable pub fields_of : Bytes → Bytes → Option Volume
unfolding cut_field
fields_of space s = cut_at b'\t' s >>= λ file_system. cut_field file_system.1 >>= λ mount_point.
    cut_field mount_point.1 >>= λ fs_type. cut_field fs_type.1 >>= λ option.
    cut_field option.1 >>= λ dump. cut_at b'\n' (skip_blank dump.1) >>= λ pass. some (record {
      mount_point = mount_point.0;
      fs_type = fs_type.0;
      device = some (space ++ file_system.0);
      device2 = none;
      option = some option.0;
      dump = some dump.0;
      pass = some pass.0;
    })

-- What the loop does with a line.
pub data Line : Type 0 where
  skipped : Line
  stops : Line
  entry : Volume → Line

unfoldable pub line_of : Bytes → Line
unfolding leading fields_of
line_of buffer =
    let (space, s) = leading buffer in
    elim s as (λ _. Line) [
      | [] ↦ skipped
      | c ∷ s' ↦
          if c == b'#'
          then skipped
          else elim (fields_of space (c ∷ s')) [ none ↦ stops | some v ↦ entry v ]
    ]

-- The loop over the lines, each of at least a byte.
unfoldable pub load_lines : ℕ → Bytes → List Volume → List Volume
unfolding fgets line_of
load_lines zero fstab volumes = volumes
load_lines (suc fuel) [] volumes = volumes
load_lines (suc fuel) (c ∷ fstab) volumes =
    let (buffer, rest) = fgets 1022 (c ∷ fstab) in
    elim (line_of buffer) as (λ _. List Volume) [
      | skipped ↦ load_lines fuel rest volumes
      | stops ↦ volumes
      | entry v ↦ load_lines fuel rest (volumes ++ (v ∷ []))
    ]

-- "Insert an entry for /tmp, which is the ramdisk and is always mounted."
abbrev pub ramdisk : Volume
ramdisk = record {
  mount_point = codes "/tmp";
  fs_type = codes "ramdisk";
  device = none;
  device2 = none;
  option = none;
  dump = none;
  pass = none;
}

-- `load_volume_table`, of the contents of /etc/fstab, or `none` where it cannot be opened.
unfoldable pub load_volume_table : Option Bytes → List Volume
unfolding load_lines
load_volume_table none = ramdisk ∷ []
load_volume_table (some fstab) = load_lines (length fstab) fstab (ramdisk ∷ [])
