-- ===== src/Patch/Offsets.antt =====
-- applypatch/bspatch.c `offtin` and applypatch/bsdiff.c `offtout`: the signed numbers of a patch,
-- eight bytes with the lowest first and the sign in the top bit.
use screenbox_rockchip_recov.Prelude.{
  ℕ, zero, suc, ◌+◌, ◌-◌, ◌*◌, ◌/◌, ◌%◌, ◌^◌, ◌<◌, ◌≡◌, refl, [], ◌∷◌, arith, leb, if◌then◌else◌,
  get_or, length, ◌++◌,
}
use screenbox_rockchip_recov.Prelude.Int.{ℤ, pos, negsuc, pos_part, neg_part}
use screenbox_rockchip_recov.Prelude.Bytes.{Bytes}

abbrev pub negated : ℕ → ℤ
negated zero = pos 0
negated (suc n) = negsuc n

unfoldable pub offtin : Bytes → ℤ
offtin buf =
    let b = λ (i : ℕ). get_or buf i 0 in
    let y₁ = ((b 7 % 128 * 256 + b 6) * 256 + b 5) * 256 + b 4 in
    let y = (((y₁ * 256 + b 3) * 256 + b 2) * 256 + b 1) * 256 + b 0 in
    if leb 128 (b 7) then negated y else pos y

-- `y-=buf[i]; y=y/256`
abbrev next_byte : ℕ → ℕ
next_byte y = (y - y % 256) / 256

abbrev low_bytes : ℕ → ℕ → (ℕ → Bytes) → Bytes
low_bytes zero y k = k y
low_bytes (suc n) y k = (y % 256) ∷ low_bytes n (next_byte y) k

unfoldable pub offtout : ℤ → Bytes
offtout (pos n) = low_bytes 7 n (λ y. (y % 256) ∷ [])
offtout (negsuc n) = low_bytes 7 (suc n) (λ y. (y % 256 % 128 + 128) ∷ [])

-- The loop's number after `i` rounds.
abbrev rounds : ℕ → ℕ → ℕ
rounds zero n = n
rounds (suc i) n = next_byte (rounds i n)

abbrev pub magnitude : ℤ → ℕ
magnitude z = pos_part z + neg_part z

abbrev joined : ℕ → ℕ → ℕ
joined top n =
    let y₁ = ((top * 256 + rounds 6 n % 256) * 256 + rounds 5 n % 256) * 256 + rounds 4 n % 256 in
    (((y₁ * 256 + rounds 3 n % 256) * 256 + rounds 2 n % 256) * 256 + rounds 1 n % 256) * 256
    + n % 256

joined_lem : (n top : ℕ) → top ≡ rounds 7 n → joined top n ≡ n
joined_lem n top e = rw e (omega arith)

rounds_less : (n : ℕ) → n < 2 ^ 63 → rounds 7 n < 128
rounds_less n h = omega arith

-- `offtin` reads back what `offtout` has written, for every number below 2 ^ 63 in size, whatever
-- follows in the buffer.
pub offtin-offtout : (x : ℤ) (rest : Bytes) → magnitude x < 2 ^ 63 → offtin (offtout x ++ rest) ≡ x
unfolding offtin offtout
offtin-offtout (pos n) rest h =
    let small = rounds_less n (omega arith) in
    rw (joined_lem n (rounds 7 n % 256 % 128) (omega arith)) (ground arith)
offtin-offtout (negsuc n) rest h =
    let small = rounds_less (suc n) (omega arith) in
    rw (joined_lem (suc n) ((rounds 7 (suc n) % 256 % 128 + 128) % 128) (omega arith))
      (ground arith)

pub length-offtout : (x : ℤ) → length (offtout x) ≡ 8
unfolding offtout
length-offtout (pos n) = refl
length-offtout (negsuc n) = refl
