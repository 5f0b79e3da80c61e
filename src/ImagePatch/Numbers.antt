-- ===== src/ImagePatch/Numbers.antt =====
-- applypatch/utils.c: numbers in little-endian order, as patches hold them.
use screenbox_rockchip_recov.Prelude.{
  ℕ, ◌+◌, ◌-◌, ◌*◌, ◌/◌, ◌%◌, ◌^◌, ◌<◌, ◌≡◌, refl, [], ◌∷◌, ◌++◌, arith, ltb, if◌then◌else◌, get_or,
  length,
}
use screenbox_rockchip_recov.Prelude.Int.{ℤ, pos, negsuc}
use screenbox_rockchip_recov.Prelude.Bytes.{Bytes}

abbrev low_four : ℕ → Bytes → Bytes
low_four n rest = (n % 256) ∷ (n / 2 ^ 8 % 256) ∷ (n / 2 ^ 16 % 256) ∷ (n / 2 ^ 24 % 256) ∷ rest

-- The bit pattern of an `int`.
abbrev pub to_u32 : ℤ → ℕ
to_u32 (pos n) = n
to_u32 (negsuc n) = 2 ^ 32 - 1 - n

-- `Write4`, `Write8`: what they put into the file.
unfoldable pub write4 : ℤ → Bytes
write4 value = low_four (to_u32 value) []

unfoldable pub write8 : ℕ → Bytes
write8 value = low_four (value % 2 ^ 32) (low_four (value / 2 ^ 32) [])

abbrev four : Bytes → ℕ → ℕ
four p i =
    get_or p (i + 3) 0 * 2 ^ 24
    + get_or p (i + 2) 0 * 2 ^ 16
    + get_or p (i + 1) 0 * 2 ^ 8
    + get_or p i 0

-- The conversion of an `unsigned int` to `int`.
abbrev pub to_int : ℕ → ℤ
to_int n = if ltb n (2 ^ 31) then pos n else negsuc (2 ^ 32 - 1 - n)

unfoldable pub read4 : Bytes → ℤ
read4 p = to_int (four p 0)

-- `Read8`, whose results are all converted to `size_t`.
unfoldable pub read8 : Bytes → ℕ
read8 p = four p 4 * 2 ^ 32 + four p 0

-- The range of an `int`.
abbrev pub IsInt : ℤ → Type 0
IsInt (pos n) = n < 2 ^ 31
IsInt (negsuc n) = n < 2 ^ 31

-- `Read4` reads back every `int` that `Write4` has written, whatever follows it.
pub read4-write4 : (x : ℤ) (rest : Bytes) → IsInt x → read4 (write4 x ++ rest) ≡ x
unfolding read4 write4
read4-write4 (pos n) rest h = ground arith
read4-write4 (negsuc n) rest h = ground arith

-- `Read8` reads back every number that `Write8` has written.
pub read8-write8 : (n : ℕ) (rest : Bytes) → n < 2 ^ 64 → read8 (write8 n ++ rest) ≡ n
unfolding read8 write8
read8-write8 n rest h = omega arith

pub length-write4 : (x : ℤ) → length (write4 x) ≡ 4
unfolding write4
length-write4 x = refl

pub length-write8 : (n : ℕ) → length (write8 n) ≡ 8
unfolding write8
length-write8 n = refl
