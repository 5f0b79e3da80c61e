-- ===== src/HashTable/Masks.antt =====
-- minzip/Hash.c: the size of a table is a power of two, so that `& (tableSize-1)` wraps around.
use Prim.Native.Nat.{bit_and, bit_and-bitwise, digits, min}
use screenbox_rockchip_recov.Prelude.{ℕ, zero, suc, ◌-◌, ◌*◌, ◌/◌, ◌≤◌, ◌<◌, ◌≡◌, refl, ◌∙◌, arith}

pub data IsPower : ℕ → Type 0 where
  one : (n : ℕ) → n ≡ 1 → IsPower n
  twice : (n m : ℕ) → IsPower m → n ≡ m * 2 → IsPower n

abbrev and_digits : ℕ → ℕ → ℕ → ℕ
and_digits n a b = digits (λ b. zero) min n a b

-- The low digits of a number, by a mask of ones.
less_mask : (n a m : ℕ) → and_digits n a m ≤ m
less_mask zero a m = omega arith
less_mask (suc n) zero m = omega arith
less_mask (suc n) (suc a) m = omega (arith, less_mask n (suc a / 2) (m / 2))

pub IsPower-positive : (size : ℕ) → IsPower size → 1 ≤ size
IsPower-positive size (one _ e) = omega (arith, e)
IsPower-positive size (twice _ m p e) = omega (arith, e, IsPower-positive m p)

half_mask : (size m : ℕ) → 1 ≤ m → size ≡ m * 2 → (size - 1) / 2 ≡ m - 1
half_mask size m h e = omega arith

digits-zero : (n m : ℕ) → and_digits n 0 m ≡ 0
digits-zero zero m = refl
digits-zero (suc n) m = refl

small_mask :
    (size : ℕ) → IsPower size → (n a : ℕ) → a ≤ n → a < size → and_digits n a (size - 1) ≡ a
small_mask size p n zero h lt = digits-zero n (size - 1)
small_mask size p zero (suc a) h lt = absurd (omega arith)
small_mask size (one _ e) (suc n) (suc a) h lt = absurd (omega arith)
small_mask size (twice _ m p e) (suc n) (suc a) h lt =
    let positive = IsPower-positive m p in
    let rest = small_mask m p n (suc a / 2) (omega arith) (omega arith) in
    rw (half_mask size m positive e) (omega (arith, rest))

next_mask : (size : ℕ) → IsPower size → (n : ℕ) → size ≤ n → and_digits n size (size - 1) ≡ 0
next_mask zero p n h = absurd (omega (arith, IsPower-positive zero p))
next_mask (suc k) p zero h = absurd (omega arith)
next_mask (suc k) (one _ e) (suc n) h =
    let none : k ≡ 0 = omega arith in rw none (omega (arith, digits-zero n 0))
next_mask (suc k) (twice _ m p e) (suc n) h =
    let positive = IsPower-positive m p in
    let halved : suc k / 2 ≡ m = omega arith in
    let rest = next_mask m p n (omega arith) in
    rw (half_mask (suc k) m positive e, halved) (omega (arith, rest))

-- `& (size-1)` of a power of two: below the size; nothing changes below it; the size becomes 0.
pub bit_and-less : (size a : ℕ) → 1 ≤ size → bit_and a (size - 1) < size
bit_and-less size a h = omega (arith, bit_and-bitwise a (size - 1), less_mask a a (size - 1))

pub bit_and-small : (size : ℕ) → IsPower size → (a : ℕ) → a < size → bit_and a (size - 1) ≡ a
bit_and-small size p a h = bit_and-bitwise a (size - 1) ∙ small_mask size p a a (omega arith) h

pub bit_and-size : (size : ℕ) → IsPower size → bit_and size (size - 1) ≡ 0
bit_and-size size p = bit_and-bitwise size (size - 1) ∙ next_mask size p size (omega arith)
