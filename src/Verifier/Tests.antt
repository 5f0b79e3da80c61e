-- ===== src/Verifier/Tests.antt =====
-- verifier.c: a hash that sums, signatures of one byte, and packages made with them.
use screenbox_rockchip_recov.Prelude.{
  ℕ, ◌+◌, ◌≡◌, refl, inl, true, [], ◌∷◌, ◌++◌, some, arith, ◌==◌, get_or, replicate, append-nil,
  append_assoc,
}
use screenbox_rockchip_recov.Prelude.Bytes.{Bytes}
use screenbox_rockchip_recov.Verifier.{
  Mincrypt, Works, success, fault, is_marker, has_marker, hash_loop, try_keys, check_eocd,
  verify_file,
}
use screenbox_rockchip_recov.Verifier.Hashing.{Streams}
use screenbox_rockchip_recov.Verifier.Signed.{
  IsFormed, Accepts, signed_hash, eocd, AnyKey, verify_file_sound, verify_file_complete,
  verify_file_short_comment,
}

open_all : Unit {0}
unfolding is_marker has_marker hash_loop try_keys check_eocd verify_file
open_all = tt

-- The context is what was hashed, the digest its first byte, and a block of four bytes is good for
-- a key if its first byte is the key and the digest together.
abbrev toy : Mincrypt ℕ Bytes ℕ
toy = record {
  sha_init = [];
  sha_update = λ c b. c ++ b;
  sha_final = λ c. get_or c 0 0;
  rsa_num_bytes = 4;
  rsa_verify = λ key block digest. get_or block 0 0 == key + digest;
}

toy-Streams : Streams toy
toy-Streams = (append-nil, append_assoc)

abbrev all_well : Works
all_well = record {
  footer_read = true;
  eocd_malloc = true;
  eocd_read = true;
  buffer_malloc = true;
  chunk_read = λ i. true;
}

-- One byte of content, a record with the comment's size, a comment of ten bytes: the block and the
-- footer.
abbrev package_of : ℕ → Bytes
package_of signature =
    (7 ∷ [])
    ++ ((0x50 ∷ 0x4b ∷ 0x05 ∷ 0x06 ∷ [])
        ++ (replicate 16 0
            ++ (10 ∷ 0 ∷ signature ∷ 0 ∷ 0 ∷ 0 ∷ 10 ∷ 0 ∷ 0xff ∷ 0xff ∷ 10 ∷ 0 ∷ [])))

accepted : verify_file toy all_well (some (package_of 9)) (5 ∷ 2 ∷ []) ≡ success
unfolding open_all
accepted = refl

verify_file_sound_example :
    IsFormed 4 (package_of 9)
    × AnyKey toy (Accepts toy (eocd (package_of 9)) (signed_hash toy (package_of 9))) (5 ∷ 2 ∷ [])
verify_file_sound_example =
    verify_file_sound toy toy-Streams all_well (package_of 9) (5 ∷ 2 ∷ []) accepted

package-IsFormed : IsFormed 4 (package_of 9)
unfolding open_all
package-IsFormed = record {
  footer = omega arith;
  signature_marked = (refl, refl);
  signature_fits = omega arith;
  record_fits = omega arith;
  at_record = refl;
  no_later_record = refl;
}

verify_file_complete_example : verify_file toy all_well (some (package_of 9)) (2 ∷ []) ≡ success
verify_file_complete_example =
    verify_file_complete toy toy-Streams all_well (package_of 9) (2 ∷ [])
      (refl, refl, refl, refl, λ i. refl) package-IsFormed (omega arith) (inl refl)

-- The same with blocks of 40 bytes, and a footer that claims a signature of 46.
abbrev wide : Mincrypt ℕ Bytes ℕ
wide = record {
  sha_init = [];
  sha_update = λ c b. c ++ b;
  sha_final = λ c. get_or c 0 0;
  rsa_num_bytes = 40;
  rsa_verify = λ key block digest. true;
}

wide-Streams : Streams wide
wide-Streams = (append-nil, append_assoc)

abbrev short_package : Bytes
short_package =
    (0x50 ∷ 0x4b ∷ 0x05 ∷ 0x06 ∷ [])
    ++ (replicate 16 0 ++ (6 ∷ 0 ∷ 46 ∷ 0 ∷ 0xff ∷ 0xff ∷ 6 ∷ 0 ∷ []))

short_package-IsFormed : IsFormed 40 short_package
unfolding open_all
short_package-IsFormed = record {
  footer = omega arith;
  signature_marked = (refl, refl);
  signature_fits = omega arith;
  record_fits = omega arith;
  at_record = refl;
  no_later_record = refl;
}

verify_file_short_comment_example : verify_file wide all_well (some short_package) (1 ∷ []) ≡ fault
verify_file_short_comment_example =
    verify_file_short_comment wide wide-Streams all_well short_package 1 []
      (refl, refl, refl, refl, λ i. refl) short_package-IsFormed (omega arith)
