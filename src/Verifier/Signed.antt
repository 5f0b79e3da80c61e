-- ===== src/Verifier/Signed.antt =====
-- verifier.c: which packages `verify_file` accepts.
use mathlib.Core.Path.{subst}
use screenbox_rockchip_recov.Prelude.{
  ℕ, suc, ◌+◌, ◌-◌, ◌≤◌, ◌<◌, ◌≡◌, refl, ◌⊎◌, true, false, List, [], ◌∷◌, Option, some, arith, ltb,
  length, take, drop, get_or, Bool-cases, Option-cases, inl, inr, ap, ◌∙◌, length-drop,
}
use screenbox_rockchip_recov.Prelude.Bytes.{Bytes}
use screenbox_rockchip_recov.Verifier.{
  Mincrypt, Works, success, fault, footer_size, eocd_header_size, is_marker, has_marker, le16, last,
  hash_loop, try_keys, check_eocd, verify_file,
}
use screenbox_rockchip_recov.Verifier.Hashing.{Streams, hash_loop_sound, hash_loop_complete}

abbrev pub comment_size : Bytes → ℕ
comment_size file = le16 (last footer_size file) 4

-- The end-of-central-directory record with its comment.
abbrev pub eocd : Bytes → Bytes
eocd file = last (comment_size file + eocd_header_size) file

-- What the signature covers: all up to the length of the comment.
abbrev pub signed_part : Bytes → Bytes
signed_part file = take (length file - comment_size file - 2) file

-- The form of a package that may be accepted, with signature blocks of `n` bytes.
pub record IsFormed (n : ℕ) (file : Bytes) : Type 0 where
  pub footer : footer_size ≤ length file
  pub signature_marked :
      (get_or (last footer_size file) 2 0 ≡ 0xff) × (get_or (last footer_size file) 3 0 ≡ 0xff)
  pub signature_fits : footer_size + n ≤ le16 (last footer_size file) 0
  pub record_fits : comment_size file + eocd_header_size ≤ length file
  pub at_record : is_marker (eocd file) ≡ true
  pub no_later_record : has_marker (drop 4 (eocd file)) ≡ false

module _ {Key Ctx Digest : Type 0} (lib : Mincrypt Key Ctx Digest) where
  -- `key` verifies the block in front of the footer of the record `e` against the hash `d`.
  abbrev pub Accepts : Bytes → Digest → Key → Type 0
  Accepts e d key =
      lib.rsa_verify key (take lib.rsa_num_bytes (last (footer_size + lib.rsa_num_bytes) e)) d
      ≡ true

  -- The hash of the signed part.
  abbrev pub signed_hash : Bytes → Digest
  signed_hash file = lib.sha_final (lib.sha_update lib.sha_init (signed_part file))

  abbrev pub AnyKey : (Key → Type 0) → List Key → Type 0
  AnyKey P [] = ⊥
  AnyKey P (k ∷ ks) = P k ⊎ AnyKey P ks

  try_keys_sound :
      (keys : List Key) (e : Bytes) (d : Digest)
      → try_keys lib keys e d ≡ success
      → AnyKey (Accepts e d) keys
  unfolding try_keys
  try_keys_sound [] e d h = cc
  try_keys_sound (k ∷ ks) e d h =
      elim (Bool-cases (ltb (length e) (footer_size + lib.rsa_num_bytes))) [
        | inl short ↦ cc (rw short at h)
        | inr long ↦
            let block = take lib.rsa_num_bytes (last (footer_size + lib.rsa_num_bytes) e) in
            elim (Bool-cases (lib.rsa_verify k block d)) [
              | inl good ↦ inl good
              | inr bad ↦ inr (try_keys_sound ks e d (rw (long, bad) at h))
            ]
      ]

  try_keys_complete :
      (keys : List Key) (e : Bytes) (d : Digest)
      → footer_size + lib.rsa_num_bytes ≤ length e
      → AnyKey (Accepts e d) keys
      → try_keys lib keys e d ≡ success
  unfolding try_keys
  try_keys_complete [] e d r h = elim h [ ]
  try_keys_complete (k ∷ ks) e d r (inl h) = ground arith
  try_keys_complete (k ∷ ks) e d r (inr h) = ground (arith, try_keys_complete ks e d r h)

  -- The number of bytes that `check_eocd` hashes.
  abbrev hashed : Works → Bytes → ℕ → Option Ctx
  hashed works file size =
      let n = (length file - size) + eocd_header_size - 2 in
      hash_loop lib (suc n) works.chunk_read file n lib.sha_init 0

  check_eocd_sound :
      (works : Works) (keys : List Key) (file : Bytes) (size : ℕ)
      → check_eocd lib works keys file size ≡ success
      → (is_marker (last size file) ≡ true)
        × (has_marker (drop 4 (last size file)) ≡ false)
        × (c : Ctx) × (hashed works file size ≡ some c)
        × (try_keys lib keys (last size file) (lib.sha_final c) ≡ success)
  unfolding check_eocd
  check_eocd_sound works keys file size h = elim (Option-cases (hashed works file size)) [
    | inl unread ↦ ground arith
    | inr (c, e) ↦ (ground arith, ground arith, c, e, ground arith)
  ]

  check_eocd_complete :
      (works : Works) (keys : List Key) (file : Bytes) (size : ℕ) (c : Ctx)
      → works.eocd_malloc ≡ true
      → works.eocd_read ≡ true
      → works.buffer_malloc ≡ true
      → is_marker (last size file) ≡ true
      → has_marker (drop 4 (last size file)) ≡ false
      → hashed works file size ≡ some c
      → check_eocd lib works keys file size ≡ try_keys lib keys (last size file) (lib.sha_final c)
  unfolding check_eocd
  check_eocd_complete works keys file size c w₁ w₂ w₃ m n e = ground arith

  -- The hash loop covers the signed part.
  sum_of :
      (file : Bytes) (c : Ctx)
      → comment_size file + eocd_header_size ≤ length file
      → c
        ≡ lib.sha_update lib.sha_init (
            take
              ((length file - (comment_size file + eocd_header_size)) + eocd_header_size - 2 - 0)
              file)
      → lib.sha_final c ≡ signed_hash file
  sum_of file c h e =
      let same : (length file - (comment_size file + eocd_header_size)) + eocd_header_size - 2 - 0
          ≡ length file - comment_size file - 2 =
        omega arith in
      ap lib.sha_final (e ∙ ap (λ k. lib.sha_update lib.sha_init (take k file)) same)

  -- Where SHA_update of two runs of bytes is that of the one run (`Streams`): a file that
  -- `verify_file` accepts has the form of a signed package, and one of the keys verifies the
  -- signature block in front of its footer against the hash of exactly its first
  -- `length - comment_size - 2` bytes.
  pub verify_file_sound :
      Streams lib
      → (works : Works) (file : Bytes) (keys : List Key)
      → verify_file lib works (some file) keys ≡ success
      → IsFormed lib.rsa_num_bytes file × AnyKey (Accepts (eocd file) (signed_hash file)) keys
  unfolding verify_file
  verify_file_sound s works file keys h =
      let accepted : check_eocd lib works keys file (comment_size file + eocd_header_size)
          ≡ success =
        ground arith in
      let room : comment_size file + eocd_header_size ≤ length file = ground arith in
      let (marker, no_later, c, e, tried) = check_eocd_sound works keys file _ accepted in
      (
        record {
          footer = ground arith;
          signature_marked = ground arith;
          signature_fits = ground arith;
          record_fits = ground arith;
          at_record = marker;
          no_later_record = no_later;
        },
        subst (λ d. AnyKey (Accepts (eocd file) d) keys)
            (sum_of file c room
              (hash_loop_sound lib s _ works.chunk_read file _ 0 lib.sha_init c e))
            (try_keys_sound keys (eocd file) (lib.sha_final c) tried),
      )

  abbrev pub AllWork : Works → Type 0
  AllWork works =
      (works.footer_read ≡ true)
      × (works.eocd_malloc ≡ true)
      × (works.eocd_read ≡ true)
      × (works.buffer_malloc ≡ true)
      × ((i : ℕ) → works.chunk_read i ≡ true)

  -- Where no call fails, the keys are tried on the hash of the signed part.
  verify_file_tries :
      Streams lib
      → (works : Works) (file : Bytes) (keys : List Key) → AllWork works
      → IsFormed lib.rsa_num_bytes file
      → verify_file lib works (some file) keys ≡ try_keys lib keys (eocd file) (signed_hash file)
  unfolding verify_file
  verify_file_tries s works file keys (w₁, w₂, w₃, w₄, w₅) f =
      let size = comment_size file + eocd_header_size in
      let n = (length file - size) + eocd_header_size - 2 in
      let c = lib.sha_update lib.sha_init (take (n - 0) (drop 0 file)) in
      let checked =
        check_eocd_complete works keys file size c w₂ w₃ w₄ f.at_record f.no_later_record (
          hash_loop_complete lib s (suc n) works.chunk_read file n 0 lib.sha_init w₅
            (omega arith)) in
      let reached : verify_file lib works (some file) keys ≡ check_eocd lib works keys file size =
        ground (arith, f.footer, f.signature_marked, f.signature_fits, f.record_fits) in
      reached ∙ checked ∙ ap (try_keys lib keys (eocd file)) (sum_of file c f.record_fits refl)

  length-eocd :
      (file : Bytes)
      → comment_size file + eocd_header_size ≤ length file
      → length (eocd file) ≡ comment_size file + eocd_header_size
  length-eocd file h =
      omega (arith, length-drop (length file - (comment_size file + eocd_header_size)) file)

  -- Where SHA_update streams and no allocation or read fails, a file of the form of a signed
  -- package, with a record that has room for the footer and the signature block, is accepted if
  -- one of the keys verifies the block against the hash of the signed part.
  pub verify_file_complete :
      Streams lib
      → (works : Works) (file : Bytes) (keys : List Key) → AllWork works
      → IsFormed lib.rsa_num_bytes file
      → footer_size + lib.rsa_num_bytes ≤ comment_size file + eocd_header_size
      → AnyKey (Accepts (eocd file) (signed_hash file)) keys
      → verify_file lib works (some file) keys ≡ success
  verify_file_complete s works file keys w f room any =
      verify_file_tries s works file keys w f
      ∙ try_keys_complete keys (eocd file) (signed_hash file)
          (omega (arith, length-eocd file f.record_fits)) any

  -- The size of the comment is never compared with that of the signature: where SHA_update streams,
  -- no allocation or read fails and there is a key, a file of the form of a signed package whose
  -- record is shorter than the footer and a signature block makes `verify_file` read before its
  -- buffer.
  pub verify_file_short_comment :
      Streams lib
      → (works : Works) (file : Bytes) (key : Key) (keys : List Key) → AllWork works
      → IsFormed lib.rsa_num_bytes file
      → comment_size file + eocd_header_size < footer_size + lib.rsa_num_bytes
      → verify_file lib works (some file) (key ∷ keys) ≡ fault
  unfolding try_keys
  verify_file_short_comment s works file key keys w f short =
      verify_file_tries s works file (key ∷ keys) w f
      ∙ ground (arith, length-eocd file f.record_fits)
