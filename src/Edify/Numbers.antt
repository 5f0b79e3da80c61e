-- ===== src/Edify/Numbers.antt =====
-- edify/expr.c: `less_than_int` and `greater_than_int` at decimal numbers.
use screenbox_rockchip_recov.Prelude.{
  ℕ, zero, suc, ◌+◌, ◌-◌, ◌/◌, ◌%◌, ◌^◌, ◌≤◌, ◌<◌, ◌≡◌, false, [], ◌∷◌, arith, length, ◌==◌, ltb,
  min,
}
use native.Mathlib.Nat.{add-zero}
use screenbox_rockchip_recov.Prelude.Int.{ℤ, pos}
use screenbox_rockchip_recov.Prelude.Bytes.{Bytes, digits}
use screenbox_rockchip_recov.Edify.Run.{State, ok, Arg, evaluate, string_value}
use screenbox_rockchip_recov.Edify.Functions.Strtol.{
  read_digits, unsigned_part, after_space, strtol, read_digits-digits,
}
use screenbox_rockchip_recov.Edify.Functions.{
  truth, is_not_int, less_than, read_args, less_than_int_args, less_than_int_fn,
  greater_than_int_fn,
}

-- The first character is a digit.
StartsWithDigit : Bytes → Type 0
StartsWithDigit [] = ⊥
StartsWithDigit (c ∷ s) = (b'0' ≤ c) × (c ≤ b'9')

digits-StartsWithDigit :
    (f n : ℕ) (rest : Bytes) → StartsWithDigit rest → StartsWithDigit (digits f n rest)
unfolding digits StartsWithDigit
digits-StartsWithDigit zero n rest h = h
digits-StartsWithDigit (suc f) n rest h =
    ground (arith, digits-StartsWithDigit f (n / 10) ((b'0' + n % 10) ∷ rest))

digits-suc-StartsWithDigit : (f n : ℕ) → StartsWithDigit (digits (suc f) n [])
unfolding digits StartsWithDigit
digits-suc-StartsWithDigit f n =
    ground (arith, digits-StartsWithDigit f (n / 10) ((b'0' + n % 10) ∷ []))

-- What `strtol` does with the result of `read_digits`.
abbrev limited : ℕ × Bytes → ℤ × Bytes
limited (n, end) = (pos (min n (2 ^ 63 - 1)), end)

strtol_lem : (s : Bytes) → StartsWithDigit s → strtol s ≡ limited (read_digits 0 s)
unfolding strtol after_space unsigned_part StartsWithDigit
strtol_lem [] h = elim h [ ]
strtol_lem (c ∷ s) h = ground arith

-- `strtol` reads back the decimal digits of a number, and nothing is left.
pub strtol-digits :
    (f n : ℕ) → n < 10 ^ suc f → n < 2 ^ 63 → strtol (digits (suc f) n []) ≡ (pos n, [])
unfolding read_digits
strtol-digits f n h k =
    let few : min n (2 ^ 63 - 1) ≡ n = omega arith in
    rw (strtol_lem _ (digits-suc-StartsWithDigit f n), read_digits-digits (suc f) n [] h, few)

nonempty : (s : Bytes) → StartsWithDigit s → (length s == 0) ≡ false
unfolding StartsWithDigit
nonempty [] h = elim h [ ]
nonempty (c ∷ s) h = ground arith

is_not_int-digits :
    (f n : ℕ) → n < 10 ^ suc f → n < 2 ^ 63 → is_not_int (digits (suc f) n []) ≡ false
unfolding is_not_int
is_not_int-digits f n h k = rw (strtol-digits f n h k, nonempty _ (digits-suc-StartsWithDigit f n))

less_than-digits :
    (f g m n : ℕ)
    → m < 10 ^ suc f
    → m < 2 ^ 63
    → n < 10 ^ suc g
    → n < 2 ^ 63
    → less_than (digits (suc f) m []) (digits (suc g) n []) ≡ ltb m n
unfolding less_than
less_than-digits f g m n hm km hn kn = rw (
  is_not_int-digits f m hm km,
  is_not_int-digits g n hn kn,
  strtol-digits f m hm km,
  strtol-digits g n hn kn,
  add-zero,
  add-zero,
)

-- Where the arguments evaluate to the decimal digits of numbers that a `long` holds,
-- `less_than_int(a, b)` is "t" exactly if the first number is less, else empty; and
-- `greater_than_int(b, a)`, which evaluates `a` before `b`, has the same result and effects.
pub less_than_int_fn-digits :
    (name : Bytes) (a b : Arg) (f g m n : ℕ) (s s₁ s₂ : State)
    → m < 10 ^ suc f
    → m < 2 ^ 63
    → n < 10 ^ suc g
    → n < 2 ^ 63
    → evaluate a s ≡ ok (digits (suc f) m []) s₁
    → evaluate b s₁ ≡ ok (digits (suc g) n []) s₂
    → (less_than_int_fn name (a ∷ b ∷ []) s ≡ ok (string_value (truth (ltb m n))) s₂)
      × (greater_than_int_fn name (b ∷ a ∷ []) s ≡ ok (string_value (truth (ltb m n))) s₂)
unfolding less_than_int_fn greater_than_int_fn read_args less_than_int_args
less_than_int_fn-digits name a b f g m n s s₁ s₂ hm km hn kn ea eb =
    let e = less_than-digits f g m n hm km hn kn in (ground (arith, e), ground (arith, e))
