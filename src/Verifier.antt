-- ===== src/Verifier.antt =====
-- verifier.c: `verify_file`, the check of an update package's whole-file signature.
-- `mincrypt` (SHA, RSA) is not part of the repository: its types and functions are parameters.
pub mod Hashing
pub mod Signed
mod Tests
use screenbox_rockchip_recov.Prelude.{
  ℕ, zero, suc, ◌+◌, ◌-◌, ◌*◌, Bool, true, false, ◌&&◌, ◌||◌, not, List, [], ◌∷◌, Option, none,
  some, ltb, ◌==◌, if◌then◌else◌, length, take, drop, get_or,
}
use screenbox_rockchip_recov.Prelude.Bytes.{Bytes}

-- mincrypt/sha.h and mincrypt/rsa.h
pub record Mincrypt (Key Ctx Digest : Type 0) : Type 0 where
  pub sha_init : Ctx
  pub sha_update : Ctx → Bytes → Ctx
  pub sha_final : Ctx → Digest
  -- RSANUMBYTES
  pub rsa_num_bytes : ℕ
  pub rsa_verify : Key → Bytes → Digest → Bool

-- Which of the calls that may fail for want of memory or by an I/O error succeed. The k-th read of
-- the hash loop begins at byte k * 4096.
pub record Works : Type 0 where
  pub footer_read : Bool
  pub eocd_malloc : Bool
  pub eocd_read : Bool
  pub buffer_malloc : Bool
  pub chunk_read : ℕ → Bool

-- VERIFY_SUCCESS, VERIFY_FAILURE; `fault` is a read outside of the buffer `eocd`.
pub data Verdict : Type 0 where
  success failure fault : Verdict

abbrev pub footer_size : ℕ
footer_size = 6

abbrev pub eocd_header_size : ℕ
eocd_header_size = 22

abbrev pub buffer_size : ℕ
buffer_size = 4096

-- `bytes[i] == 0x50 && ...`, at the beginning of `bytes`
unfoldable pub is_marker : Bytes → Bool
is_marker (a ∷ b ∷ c ∷ d ∷ rest) = a == 0x50 && b == 0x4b && c == 0x05 && d == 0x06
is_marker _ = false

-- The loop over the positions at which four bytes are left.
unfoldable pub has_marker : Bytes → Bool
has_marker [] = false
has_marker (b ∷ rest) = is_marker (b ∷ rest) || has_marker rest

-- Two bytes, the low one first.
abbrev pub le16 : Bytes → ℕ → ℕ
le16 b i = get_or b i 0 + get_or b (suc i) 0 * 256

-- The last `n` bytes.
abbrev pub last : ℕ → Bytes → Bytes
last n b = drop (length b - n) b

module _ {Key Ctx Digest : Type 0} (lib : Mincrypt Key Ctx Digest) where
  -- The loop that hashes the first `signed_len` bytes. Each round reads at least a byte.
  unfoldable pub hash_loop : ℕ → (ℕ → Bool) → Bytes → ℕ → Ctx → ℕ → Option Ctx
  hash_loop zero reads file signed_len ctx so_far = none
  hash_loop (suc fuel) reads file signed_len ctx so_far =
      let size =
        if ltb (signed_len - so_far) buffer_size then signed_len - so_far else buffer_size in
      let rest =
        hash_loop fuel reads file signed_len (lib.sha_update ctx (take size (drop so_far file)))
          (so_far + size) in
      if ltb so_far signed_len then (if reads so_far then rest else none) else some ctx

  -- The loop over the keys.
  unfoldable pub try_keys : List Key → Bytes → Digest → Verdict
  try_keys [] eocd sha1 = failure
  try_keys (key ∷ keys) eocd sha1 =
      let rest = try_keys keys eocd sha1 in
      let n = lib.rsa_num_bytes in
      if ltb (length eocd) (footer_size + n)
      then fault
      else (if lib.rsa_verify key (take n (last (footer_size + n) eocd)) sha1
          then success
          else rest)

  -- From the allocation of `eocd` on.
  unfoldable pub check_eocd : Works → List Key → Bytes → ℕ → Verdict
  check_eocd works keys file eocd_size =
      let signed_len = (length file - eocd_size) + eocd_header_size - 2 in
      let eocd = last eocd_size file in
      let hashed = hash_loop (suc signed_len) works.chunk_read file signed_len lib.sha_init 0 in
      if not works.eocd_malloc || not works.eocd_read
      then failure
      else (if not (is_marker eocd)
          then failure
          else (if has_marker (drop 4 eocd)
              then failure
              else (if not works.buffer_malloc then failure else elim hashed as (λ _. Verdict) [
                | none ↦ failure
                | some ctx ↦ try_keys keys eocd (lib.sha_final ctx)
              ])))

  -- `verify_file`, of the file's bytes; `none` if it cannot be opened.
  unfoldable pub verify_file : Works → Option Bytes → List Key → Verdict
  verify_file works none keys = failure
  verify_file works (some file) keys =
      let footer = last footer_size file in
      let comment_size = le16 footer 4 in
      let signature_start = le16 footer 0 in
      let eocd_size = comment_size + eocd_header_size in
      if ltb (length file) footer_size || not works.footer_read
      then failure
      else (if not (get_or footer 2 0 == 0xff) || not (get_or footer 3 0 == 0xff)
          then failure
          else (if ltb signature_start (footer_size + lib.rsa_num_bytes)
              then failure
              else (if ltb (length file) eocd_size
                  then failure
                  else check_eocd works keys file eocd_size)))
