-- ===== src/ImagePatch/Tests.antt =====
-- Runs of `ApplyImagePatch` on stored blocks, and the theorems at those inputs.
use screenbox_rockchip_recov.Prelude.{
  inl, ℕ, true, ◌≡◌, refl, List, [], ◌∷◌, ◌++◌, Option, some, arith, length, take, drop, leb,
  replicate,
}
use screenbox_rockchip_recov.Prelude.Int.{pos, negsuc}
use screenbox_rockchip_recov.Prelude.Bytes.{Bytes, str_eq}
use screenbox_rockchip_recov.Patch.{
  bz_ok, Bzip2, returns, fails, apply_bs_diff_patch_mem, apply_bs_diff_patch,
}
use screenbox_rockchip_recov.ImagePatch.{
  Chunk, normal, raw, Zlib, Target, Output, slice, update, read_raw, read_chunk, apply_chunk,
  chunk_loop, apply_image_patch,
}
use screenbox_rockchip_recov.ImagePatch.Numbers.{write4, write8, read4, read8, read4-write4}
use screenbox_rockchip_recov.ImagePatch.Chunks.{
  image_patch_of, run_chunks, apply_image_patch-run_chunks, apply_image_patch_ignores,
}
use screenbox_rockchip_recov.ImagePatch.Hashed.{Records, Agrees, apply_image_patch-Agrees}

-- Streams that are stored, not packed.
abbrev stored : Bzip2 Bytes
stored = record { decompress_init = λ bs. bs; decompress = λ s n. (bz_ok, (take n s, drop n s)) }

abbrev stored_zlib : Zlib Bytes
stored_zlib = record {
  inflate_init2 = λ bs. some bs;
  inflate = λ s n. (true, take n s);
  deflate_init2 = λ _ _ _ _ _ bs. bs;
  deflate = λ s n. (leb (length s) n, (take n s, drop n s));
}

-- The sink appends to a file, and so does the hash.
abbrev file : Target Bytes Bytes
file = record { sink = λ t bs. (pos (length bs), t ++ bs); sha_update = λ c bs. c ++ bs }

abbrev room_for : ℕ → Option Bytes
room_for n = some (replicate n 0)

abbrev old_image : Bytes
old_image = 9 ∷ 8 ∷ 7 ∷ []

-- The second chunk names a bsdiff patch where there is none.
abbrev chunks : List Chunk
chunks = normal 1 2 12 ∷ raw (5 ∷ 6 ∷ []) ∷ []

abbrev empty_file : Output Bytes Bytes
empty_file = record { token = []; ctx = some [] }

abbrev written : Output Bytes Bytes
written = record { token = 5 ∷ 6 ∷ []; ctx = some (5 ∷ 6 ∷ []) }

minus_five : read4 (write4 (negsuc 4) ++ (1 ∷ [])) ≡ negsuc 4
minus_five = read4-write4 (negsuc 4) (1 ∷ []) (omega arith)

apply_image_patch-run_chunks_example :
    apply_image_patch stored stored_zlib file 9 room_for old_image
      (image_patch_of chunks [])
      empty_file
    ≡ run_chunks stored stored_zlib file 9 room_for old_image
        (image_patch_of chunks [])
        chunks
        empty_file
apply_image_patch-run_chunks_example =
    apply_image_patch-run_chunks stored stored_zlib file 9 room_for old_image chunks [] empty_file
      (omega arith) ((omega arith, omega arith, omega arith), (omega arith, tt))

refused :
    apply_bs_diff_patch_mem stored 9 room_for (8 ∷ 7 ∷ []) (image_patch_of chunks []) 12 ≡ fails
unfolding apply_bs_diff_patch_mem write4 write8 str_eq
refused = refl

refused_chunk_ignored :
    apply_image_patch stored stored_zlib file 9 room_for old_image
      (image_patch_of chunks [])
      empty_file
    ≡ run_chunks stored stored_zlib file 9 room_for old_image
        (image_patch_of chunks [])
        (raw (5 ∷ 6 ∷ []) ∷ [])
        empty_file
refused_chunk_ignored =
    apply_image_patch_ignores stored stored_zlib file 9 room_for old_image 1 2 12
      (raw (5 ∷ 6 ∷ []) ∷ []) [] empty_file (omega arith)
      ((omega arith, omega arith, omega arith), (omega arith, tt)) (omega arith) refused

chunks_run :
    apply_image_patch stored stored_zlib file 9 room_for old_image
      (image_patch_of chunks [])
      empty_file
    ≡ returns (pos 0, written)
unfolding apply_image_patch chunk_loop read_chunk read_raw apply_chunk slice update
    apply_bs_diff_patch apply_bs_diff_patch_mem write4 write8 read4 read8 str_eq
chunks_run = refl

file-Records : Records file (λ t. t) (λ c. c)
file-Records = record { takes = λ t bs. inl (refl, refl); hashes = λ c bs. refl }

apply_image_patch-Agrees_example :
    Agrees stored stored_zlib file
      (λ t. t)
      (λ c. c)
      file-Records
      9
      room_for
      old_image
      (image_patch_of chunks [])
      written
apply_image_patch-Agrees_example =
    apply_image_patch-Agrees stored stored_zlib file (λ t. t) (λ c. c) file-Records 9 room_for
      old_image (image_patch_of chunks []) empty_file written (pos 0) ([], refl, refl) chunks_run
      (inl refl)
