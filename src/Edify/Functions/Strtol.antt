-- ===== src/Edify/Functions/Strtol.antt =====
-- `strtol(s, &end, 10)` of the C library, which `LessThanIntFn` calls.
use screenbox_rockchip_recov.Prelude.{
  ℕ, ◌+◌, ◌-◌, ◌*◌, ◌^◌, ◌/◌, ◌%◌, ◌<◌, ◌≡◌, zero, suc, arith, Bool, true, false, ◌&&◌, ◌||◌, [],
  ◌∷◌, leb, ◌==◌, if◌then◌else◌, min,
}
use screenbox_rockchip_recov.Prelude.Int.{ℤ, pos, sub_ℕ}
use screenbox_rockchip_recov.Prelude.Bytes.{Bytes, digits}

abbrev pub is_digit : ℕ → Bool
is_digit c = leb b'0' c && leb c b'9'

-- `isspace`
abbrev pub is_space : ℕ → Bool
is_space c = c == 32 || (leb 9 c && leb c 13)

-- The value of the digits in front, after `acc`, and what follows them.
unfoldable pub read_digits : ℕ → Bytes → ℕ × Bytes
read_digits acc [] = (acc, [])
read_digits acc (c ∷ s) =
    let rest = read_digits (acc * 10 + (c - b'0')) s in if is_digit c then rest else (acc, c ∷ s)

-- Out of range, the result is LONG_MAX or LONG_MIN (`long` has 64 bits).
abbrev pub clamp : Bool → ℕ → ℤ
clamp true n = sub_ℕ 0 (min n (2 ^ 63))
clamp false n = pos (min n (2 ^ 63 - 1))

-- The number after the sign. With no digit nothing is converted: `end` is `whole`.
unfoldable pub unsigned_part : Bool → Bytes → Bytes → ℤ × Bytes
unfolding read_digits
unsigned_part negative whole [] = (pos 0, whole)
unsigned_part negative whole (c ∷ s) =
    let (n, end) = read_digits 0 (c ∷ s) in
    if is_digit c then (clamp negative n, end) else (pos 0, whole)

unfoldable pub after_space : Bytes → Bytes → ℤ × Bytes
unfolding unsigned_part
after_space whole [] = (pos 0, whole)
after_space whole (c ∷ s) =
    let rest = after_space whole s in
    if is_space c
    then rest
    else (if c == b'-'
        then unsigned_part true whole s
        else (if c == b'+' then unsigned_part false whole s else unsigned_part false whole (c ∷ s)))

unfoldable pub strtol : Bytes → ℤ × Bytes
unfolding after_space
strtol s = after_space s s

-- The digits of a number are read back.
pub read_digits-digits :
    (f n : ℕ) (rest : Bytes) → n < 10 ^ f → read_digits 0 (digits f n rest) ≡ read_digits n rest
unfolding read_digits digits
read_digits-digits zero n rest h = let e : n ≡ 0 = omega arith in rw e
read_digits-digits (suc f) n rest h =
    ground (arith, read_digits-digits f (n / 10) ((b'0' + n % 10) ∷ rest))
