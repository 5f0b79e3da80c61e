-- ===== src/Prelude/Scanf.antt =====
-- The conversions of `sscanf` that the program uses, as the C standard describes them: what was
-- read, and what is left. Numbers that are read fit in an `int`.
use Prim.Native.Nat.{ℕ, zero, suc, ◌+◌, ◌-◌, ◌*◌}
use mathlib.Core.Bool.{Bool, true, false, ◌&&◌, ◌||◌}
use mathlib.Core.List.{[], ◌∷◌}
use mathlib.Core.Option.{Option, none, some}
use mathlib.Core.Path.{◌≡◌, subst}
use screenbox_rockchip_recov.Prelude.Tests.{ltb, leb, ◌==◌, if◌then◌else◌}
use screenbox_rockchip_recov.Prelude.Int.{ℤ, pos, negsuc}
use screenbox_rockchip_recov.Prelude.Bytes.{Bytes}

-- `if (x fails) return what was matched so far;`
infixl 5 ◌>>=◌
abbrev pub ◌>>=◌ {ℓ κ} : {A : Type ℓ} {B : Type κ} → Option A → (A → Option B) → Option B
none >>= k = none
some a >>= k = k a

-- `isspace`
abbrev pub is_space : ℕ → Bool
is_space c = c == 32 || (leb 9 c && leb c 13)

unfoldable pub skip_space : Bytes → Bytes
skip_space [] = []
skip_space (c ∷ s) = if is_space c then skip_space s else c ∷ s

-- Up to `n` bytes that pass a test.
unfoldable pub span : (ℕ → Bool) → ℕ → Bytes → Bytes × Bytes
span test zero s = ([], s)
span test (suc n) [] = ([], [])
span test (suc n) (c ∷ s) =
    let (word, rest) = span test n s in if test c then (c ∷ word, rest) else ([], c ∷ s)

abbrev pub not_empty : Bytes × Bytes → Option (Bytes × Bytes)
not_empty ([], rest) = none
not_empty (c ∷ word, rest) = some (c ∷ word, rest)

abbrev pub is_not_space : ℕ → Bool
is_not_space c = if is_space c then false else true

-- `%63s`, with 63 for `n`
unfoldable pub scan_word : ℕ → Bytes → Option (Bytes × Bytes)
unfolding skip_space span
scan_word n s = not_empty (span is_not_space n (skip_space s))

-- `%63[^"]`, with 63 for `n`
unfoldable pub scan_until : ℕ → ℕ → Bytes → Option (Bytes × Bytes)
unfolding span
scan_until stop n s = not_empty (span (λ c. if c == stop then false else true) n s)

-- Bytes of the format that have to be there.
unfoldable pub scan_literal : Bytes → Bytes → Option Bytes
scan_literal [] s = some s
scan_literal (p ∷ ps) [] = none
scan_literal (p ∷ ps) (c ∷ s) = if p == c then scan_literal ps s else none

-- The value of a digit, or `base` if it is none.
abbrev pub digit_of : ℕ → ℕ → ℕ
digit_of base c =
    if leb b'0' c && leb c b'9'
    then c - b'0'
    else (if leb b'a' c && leb c b'f'
        then c - b'a' + 10
        else (if leb b'A' c && leb c b'F' then c - b'A' + 10 else base))

unfoldable pub scan_digits : ℕ → ℕ → Bytes → ℕ × Bytes
scan_digits base acc [] = (acc, [])
scan_digits base acc (c ∷ s) =
    let more = scan_digits base (acc * base + digit_of base c) s in
    if ltb (digit_of base c) base then more else (acc, c ∷ s)

-- At least a digit.
unfoldable pub scan_unsigned : ℕ → Bytes → Option (ℕ × Bytes)
unfolding scan_digits
scan_unsigned base [] = none
scan_unsigned base (c ∷ s) =
    if ltb (digit_of base c) base then some (scan_digits base 0 (c ∷ s)) else none

abbrev pub minus : ℕ → ℤ
minus zero = pos 0
minus (suc n) = negsuc n

-- `0x` in front of hexadecimal digits
unfoldable pub skip_prefix : ℕ → Bytes → Bytes
skip_prefix base (z ∷ x ∷ d ∷ s) =
    if base == 16 && (z == b'0' && ((x == b'x' || x == b'X') && ltb (digit_of 16 d) 16))
    then d ∷ s
    else z ∷ x ∷ d ∷ s
skip_prefix base s = s

-- `%d` and `%x`, with 10 and 16 for `base`
unfoldable pub scan_int : ℕ → Bytes → Option (ℤ × Bytes)
unfolding skip_space scan_unsigned skip_prefix
scan_int base s = elim (skip_space s) as (λ _. Option (ℤ × Bytes)) [
  | [] ↦ none
  | c ∷ r ↦
      if c == b'-'
      then (scan_unsigned base (skip_prefix base r) >>= λ d. some (minus d.0, d.1))
      else (if c == b'+'
          then (scan_unsigned base (skip_prefix base r) >>= λ d. some (pos d.0, d.1))
          else (scan_unsigned base (skip_prefix base (c ∷ r)) >>= λ d. some (pos d.0, d.1)))
]

-- "Eat the line."
unfoldable pub eat_line : Bytes → Bytes
eat_line [] = []
eat_line (c ∷ s) = if c == b'\n' then s else eat_line s

-- `P` holds of the value, if there is one.
abbrev pub OnSome {ℓ} : {A : Type ℓ} → (A → Type 0) → Option A → Type 0
OnSome P none = Unit
OnSome P (some a) = P a

pub OnSome-bind {ℓ κ} :
    {A : Type ℓ} {B : Type κ} (P : A → Type 0) (Q : B → Type 0) (o : Option A) (k : A → Option B)
    → OnSome P o
    → ((a : A) → P a → OnSome Q (k a))
    → OnSome Q (o >>= k)
OnSome-bind P Q none k h f = tt
OnSome-bind P Q (some a) k h f = f a h

pub OnSome-given {ℓ} :
    {A : Type ℓ} (P : A → Type 0) (o : Option A) (a : A) → OnSome P o → o ≡ some a → P a
OnSome-given P o a h e = subst (λ o'. OnSome P o') e h
