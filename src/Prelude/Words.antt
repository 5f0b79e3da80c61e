-- ===== src/Prelude/Words.antt =====
-- Words of a text file, separated by white space, as `sscanf` and the loops over lines see them.
use Prim.Native.Nat.{ℕ, zero, suc, ◌≤◌}
use mathlib.Core.Bool.{true, false}
use mathlib.Core.List.{[], ◌∷◌, ◌++◌}
use mathlib.Core.Option.{some}
use mathlib.Core.Path.{◌≡◌, refl}
use native.Mathlib.Omega.{arith}
use screenbox_rockchip_recov.Prelude.Tests.{◌==◌}
use screenbox_rockchip_recov.Prelude.Lists.{length}
use screenbox_rockchip_recov.Prelude.Bytes.{Bytes}
use screenbox_rockchip_recov.Prelude.Scanf.{
  is_space, is_not_space, skip_space, span, scan_word, eat_line,
}

-- No byte is white space.
abbrev pub IsPlain : Bytes → Type 0
IsPlain [] = Unit
IsPlain (c ∷ w) = (is_space c ≡ false) × IsPlain w

-- The byte `c` and what follows.
abbrev pub IsWord : Bytes → Type 0
IsWord w = (1 ≤ length w) × IsPlain w

span-word :
    (n : ℕ) (w : Bytes) (c : ℕ) (rest : Bytes)
    → IsPlain w
    → length w ≤ n
    → is_space c ≡ true
    → span is_not_space n (w ++ (c ∷ rest)) ≡ (w, c ∷ rest)
unfolding span
span-word zero [] c rest h le e = refl
span-word zero (x ∷ w) c rest h le e = ground arith
span-word (suc n) [] c rest h le e = rw e refl
span-word (suc n) (x ∷ w) c rest h le e = rw (h.0, span-word n w c rest h.1 (omega arith) e) refl

-- A word in front of white space, with or without a space before it.
pub scan_word-word :
    (n : ℕ) (w : Bytes) (c : ℕ) (rest : Bytes)
    → IsWord w
    → length w ≤ n
    → is_space c ≡ true
    → scan_word n (w ++ (c ∷ rest)) ≡ some (w, c ∷ rest)
unfolding scan_word skip_space
scan_word-word n [] c rest h le e = ground arith
scan_word-word n (x ∷ w) c rest h le e = rw (h.1.0, span-word n (x ∷ w) c rest h.1 le e) refl

pub scan_word-spaced :
    (n : ℕ) (w : Bytes) (c : ℕ) (rest : Bytes)
    → IsWord w
    → length w ≤ n
    → is_space c ≡ true
    → scan_word n (32 ∷ (w ++ (c ∷ rest))) ≡ some (w, c ∷ rest)
unfolding scan_word skip_space
scan_word-spaced n w c rest h le e = scan_word-word n w c rest h le e

not_newline : (c : ℕ) → is_space c ≡ false → (c == 10) ≡ false
not_newline c h = ground arith

pub eat_line-plain : (w : Bytes) (rest : Bytes) → IsPlain w → eat_line (w ++ rest) ≡ eat_line rest
unfolding eat_line
eat_line-plain [] rest h = refl
eat_line-plain (c ∷ w) rest h = rw (not_newline c h.0) (eat_line-plain w rest h.1)
