-- ===== src/Prelude/Bytes.antt =====
-- Byte strings: a `char*` is the list of its bytes before the terminating NUL. The string
-- functions of the C library that the program calls, on such lists.
use Prim.Native.Char.{code}
use Prim.Native.String.{String}
use Prim.Native.Nat.{ℕ, zero, suc, ◌+◌, ◌/◌, ◌%◌}
use mathlib.Core.Path.{◌≡◌, refl, ap}
use mathlib.Core.Logic.{◌↔◌, inl, inr}
use mathlib.Core.Bool.{Bool, true, false, ◌&&◌, ◌||◌}
use mathlib.Core.List.{List, [], ◌∷◌, ◌++◌}
use native.Mathlib.Omega.{arith}
use screenbox_rockchip_recov.Prelude.Tests.{Bool-cases, ◌==◌, ltb, if◌then◌else◌}

abbrev pub Bytes : Type 0
Bytes = List ℕ

-- The bytes of a literal.
abbrev pub codes : String → Bytes
codes String.[] = []
codes (String.◌∷◌ c s) = code c ∷ codes s

-- `strcmp(a, b) == 0`
unfoldable pub str_eq : Bytes → Bytes → Bool
str_eq [] [] = true
str_eq [] (b ∷ t) = false
str_eq (a ∷ s) [] = false
str_eq (a ∷ s) (b ∷ t) = a == b && str_eq s t

-- `strncmp(p, s, strlen(p)) == 0`
unfoldable pub starts_with : Bytes → Bytes → Bool
starts_with [] s = true
starts_with (p ∷ ps) [] = false
starts_with (p ∷ ps) (c ∷ s) = p == c && starts_with ps s

-- `strstr(haystack, needle) != NULL`
unfoldable pub is_substring : Bytes → Bytes → Bool
is_substring needle [] = starts_with needle []
is_substring needle (c ∷ s) = starts_with needle (c ∷ s) || is_substring needle s

-- The decimal digits of a number, with fuel for the number of digits, in front of `rest`.
unfoldable pub digits : ℕ → ℕ → Bytes → Bytes
digits zero n rest = rest
digits (suc f) n rest =
    let shown = (b'0' + n % 10) ∷ rest in
    let more = digits f (n / 10) shown in if ltb n 10 then shown else more

-- `%d` at a number of at most ten digits, such as a non-negative `int`
unfoldable pub decimal : ℕ → Bytes
unfolding digits
decimal n = digits 10 n []

pub str_eq_iff : (a b : Bytes) → (str_eq a b ≡ true) ↔ (a ≡ b)
unfolding str_eq
str_eq_iff [] [] = ground arith
str_eq_iff [] (b ∷ t) = ground arith
str_eq_iff (a ∷ s) [] = ground arith
str_eq_iff (a ∷ s) (b ∷ t) = ground (arith, str_eq_iff s t)

pub starts_with_lem : (p s : Bytes) → starts_with p s ≡ true → (r : Bytes) × (s ≡ p ++ r)
unfolding starts_with
starts_with_lem [] s h = (s, refl)
starts_with_lem (p ∷ ps) [] h = ground arith
starts_with_lem (p ∷ ps) (c ∷ s) h =
    let (r, e) = starts_with_lem ps s (ground arith) in (r, ground arith)

pub starts_with-append : (p r : Bytes) → starts_with p (p ++ r) ≡ true
unfolding starts_with
starts_with-append [] r = refl
starts_with-append (p ∷ ps) r = ground (arith, starts_with-append ps r)

-- `needle` occurs in `haystack`.
abbrev pub Occurs : Bytes → Bytes → Type 0
Occurs needle haystack = (a : Bytes) × (b : Bytes) × (haystack ≡ a ++ (needle ++ b))

pub is_substring_sound : (n h : Bytes) → is_substring n h ≡ true → Occurs n h
unfolding is_substring
is_substring_sound n [] t = let (r, e) = starts_with_lem n [] t in ([], r, e)
is_substring_sound n (c ∷ s) t = elim (Bool-cases (starts_with n (c ∷ s))) [
  | inl here ↦ let (r, e) = starts_with_lem n (c ∷ s) here in ([], r, e)
  | inr not_here ↦
      let (a, b, e) = is_substring_sound n s (ground arith) in (c ∷ a, b, ap (λ l. c ∷ l) e)
]

pub is_substring_complete : (n a b : Bytes) → is_substring n (a ++ (n ++ b)) ≡ true
unfolding is_substring starts_with
is_substring_complete [] [] [] = refl
is_substring_complete [] [] (c ∷ b) = refl
is_substring_complete (x ∷ n) [] b = ground (arith, starts_with-append n b)
is_substring_complete n (x ∷ a) b = ground (arith, is_substring_complete n a b)
