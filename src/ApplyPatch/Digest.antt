-- ===== src/ApplyPatch/Digest.antt =====
-- applypatch/applypatch.c: `ParseSha1` and `FindMatchingPatch`.
use screenbox_rockchip_recov.Prelude.{
  ℕ, zero, suc, ◌+◌, ◌*◌, ◌-◌, ◌/◌, ◌%◌, ◌<◌, ◌≡◌, ◌≢◌, refl, sym, ap, ◌∙◌, Bool, true, false, ◌&&◌,
  List, [], ◌∷◌, ◌++◌, Option, none, some, arith, ltb, leb, if◌then◌else◌, length, get_elem?,
  append-nil,
}
use screenbox_rockchip_recov.Prelude.Bytes.{Bytes, str_eq, str_eq_iff}
use screenbox_rockchip_recov.Prelude.Scanf.{◌>>=◌}

-- SHA_DIGEST_SIZE
abbrev pub sha_digest_size : ℕ
sha_digest_size = 20

-- The value of a hexadecimal digit.
unfoldable pub hex_value : ℕ → Option ℕ
hex_value c =
    if leb b'0' c && leb c b'9'
    then some (c - b'0')
    else (if leb b'a' c && leb c b'f'
        then some (c - b'a' + 10)
        else (if leb b'A' c && leb c b'F' then some (c - b'A' + 10) else none))

-- The loop, two digits for each of `n` bytes of the digest: the bytes, and what is left.
unfoldable pub parse_digits : ℕ → Bytes → Option (Bytes × Bytes)
unfolding hex_value
parse_digits zero ps = some ([], ps)
parse_digits (suc n) (high ∷ low ∷ ps) = hex_value high >>= λ h.
    hex_value low >>= λ l. parse_digits n ps >>= λ r. some ((h * 16 + l) ∷ r.0, r.1)
parse_digits (suc n) ps = none

abbrev at_end : Bytes × Bytes → Option Bytes
at_end (digest, []) = some digest
at_end (digest, c ∷ ps) = none

-- `ParseSha1`: the digest, or `none` for -1.
unfoldable pub parse_sha1 : Bytes → Option Bytes
unfolding parse_digits
parse_sha1 str = parse_digits sha_digest_size str >>= at_end

-- `ParseSha1(str, patch_sha1) == 0 && memcmp(patch_sha1, sha1, SHA_DIGEST_SIZE) == 0`
unfoldable pub is_match : Bytes → Bytes → Bool
unfolding parse_sha1
is_match sha1 str = elim (parse_sha1 str) [
  | none ↦ false
  | some patch_sha1 ↦ str_eq patch_sha1 sha1
]

-- `FindMatchingPatch`; `none` is -1.
unfoldable pub find_matching_patch : Bytes → List Bytes → Option ℕ
unfolding is_match
find_matching_patch sha1 [] = none
find_matching_patch sha1 (str ∷ strs) =
    let further = find_matching_patch sha1 strs >>= λ i. some (suc i) in
    if is_match sha1 str then some 0 else further

-- A digest in lower case.
abbrev pub hex_digit : ℕ → ℕ
hex_digit n = if ltb n 10 then b'0' + n else b'a' + (n - 10)

abbrev pub hex_of : Bytes → Bytes
hex_of [] = []
hex_of (b ∷ bs) = hex_digit (b / 16) ∷ hex_digit (b % 16) ∷ hex_of bs

abbrev pub AreBytes : Bytes → Type 0
AreBytes [] = Unit
AreBytes (b ∷ bs) = (b < 256) × AreBytes bs

hex_value-hex_digit : (n : ℕ) → n < 16 → hex_value (hex_digit n) ≡ some n
unfolding hex_value
hex_value-hex_digit n h = ground arith

parse_digits-pair :
    (n high low : ℕ) (ps : Bytes) (h l : ℕ) (bs rest : Bytes)
    → hex_value high ≡ some h
    → hex_value low ≡ some l
    → parse_digits n ps ≡ some (bs, rest)
    → parse_digits (suc n) (high ∷ low ∷ ps) ≡ some ((h * 16 + l) ∷ bs, rest)
unfolding parse_digits
parse_digits-pair n high low ps h l bs rest e₁ e₂ e₃ = rw (e₁, e₂, e₃) refl

parse_digits-hex_of :
    (n : ℕ) (bs rest : Bytes)
    → AreBytes bs
    → length bs ≡ n
    → parse_digits n (hex_of bs ++ rest) ≡ some (bs, rest)
unfolding parse_digits
parse_digits-hex_of zero [] rest h e = refl
parse_digits-hex_of zero (b ∷ bs) rest h e = ground arith
parse_digits-hex_of (suc n) [] rest h e = ground arith
parse_digits-hex_of (suc n) (b ∷ bs) rest h e =
    parse_digits-pair n (hex_digit (b / 16)) (hex_digit (b % 16)) (hex_of bs ++ rest) (b / 16)
      (b % 16) bs rest (hex_value-hex_digit (b / 16) (omega (arith, h.0)))
      (hex_value-hex_digit (b % 16) (omega arith))
      (parse_digits-hex_of n bs rest h.1 (omega (arith, e)))
    ∙ ap (λ c. some (c ∷ bs, rest)) (omega arith)

-- `ParseSha1` reads back the hexadecimal digits of a digest of 20 bytes; but it fails if anything
-- follows them, also in the form "<digest>:<anything>" that its comment admits.
pub parse_sha1-hex_of :
    (digest : Bytes)
    → AreBytes digest
    → length digest ≡ sha_digest_size
    → (parse_sha1 (hex_of digest) ≡ some digest)
      × ((c : ℕ) (anything : Bytes) → parse_sha1 (hex_of digest ++ (c ∷ anything)) ≡ none)
unfolding parse_sha1
parse_sha1-hex_of digest h e =
    let parsed : parse_digits sha_digest_size (hex_of digest) ≡ some (digest, []) =
      ap (parse_digits sha_digest_size) (sym (append-nil (hex_of digest)))
      ∙ parse_digits-hex_of sha_digest_size digest [] h e in
    (
      ap (λ o. o >>= at_end) parsed,
      λ c anything.
          ap (λ o. o >>= at_end) (parse_digits-hex_of sha_digest_size digest (c ∷ anything) h e),
    )

pub is_match_lem : (sha1 str : Bytes) → is_match sha1 str ≡ true → parse_sha1 str ≡ some sha1
unfolding is_match
is_match_lem sha1 str e = by_digest (parse_sha1 str) e
  where
    by_digest :
        (o : Option Bytes)
        → (elim o [ none ↦ false | some d ↦ str_eq d sha1 ]) ≡ true
        → o ≡ some sha1
    by_digest none e = ground arith
    by_digest (some d) e = ap (λ x. some x) ((str_eq_iff d sha1).0 e)

is_match_complete : (sha1 str : Bytes) → parse_sha1 str ≡ some sha1 → is_match sha1 str ≡ true
unfolding is_match
is_match_complete sha1 str e = rw (is_match, e) ((str_eq_iff sha1 sha1).1 refl)

-- The first of the strings that is the digest.
abbrev pub IsFirstMatch : Bytes → List Bytes → Option ℕ → Type 0
IsFirstMatch sha1 strs none =
    (i : ℕ) (str : Bytes) → get_elem? strs i ≡ some str → parse_sha1 str ≢ some sha1
IsFirstMatch sha1 strs (some i) =
    ((str : Bytes) × (get_elem? strs i ≡ some str) × (parse_sha1 str ≡ some sha1))
    × ((j : ℕ) (str : Bytes) → j < i → get_elem? strs j ≡ some str → parse_sha1 str ≢ some sha1)

-- `FindMatchingPatch` gives the index of the first string that `ParseSha1` takes for the digest,
-- and -1 exactly if there is none.
pub find_matching_patch-IsFirstMatch :
    (sha1 : Bytes) (strs : List Bytes) → IsFirstMatch sha1 strs (find_matching_patch sha1 strs)
unfolding find_matching_patch
find_matching_patch-IsFirstMatch sha1 [] = λ i str e. ground arith
find_matching_patch-IsFirstMatch sha1 (s ∷ strs) =
    by_match (is_match sha1 s) refl (find_matching_patch sha1 strs)
      (find_matching_patch-IsFirstMatch sha1 strs)
  where
    not_here : is_match sha1 s ≡ false → (str : Bytes) → s ≡ str → parse_sha1 str ≢ some sha1
    not_here differs str e m =
        let same = is_match_complete sha1 str m in ground (arith, e, differs, same)

    by_match :
        (b : Bool)
        → is_match sha1 s ≡ b
        → (o : Option ℕ) → IsFirstMatch sha1 strs o
        → IsFirstMatch sha1 (s ∷ strs) (if b then some 0 else (o >>= λ i. some (suc i)))
    by_match true e o h = ((s, refl, is_match_lem sha1 s e), λ j str lt. absurd (omega arith))
    by_match false e none h = at_index
      where
        at_index : IsFirstMatch sha1 (s ∷ strs) none
        at_index zero str q = not_here e str (ground arith)
        at_index (suc i) str q = h i str q
    by_match false e (some i) (found, before) = (found, at_index)
      where
        at_index :
            (j : ℕ) (str : Bytes)
            → j < suc i
            → get_elem? (s ∷ strs) j ≡ some str
            → parse_sha1 str ≢ some sha1
        at_index zero str lt q = not_here e str (ground arith)
        at_index (suc j) str lt q = before j str (omega arith) q
