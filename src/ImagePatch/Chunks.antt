-- ===== src/ImagePatch/Chunks.antt =====
-- applypatch/imgpatch.c: `ApplyImagePatch` on a patch that imgdiff.c has written.
use mathlib.Core.Path.{fun_ext}
use screenbox_rockchip_recov.Prelude.{
  ℕ, suc, ◌+◌, ◌^◌, ◌≤◌, ◌<◌, ◌≡◌, refl, sym, ap, ◌∙◌, true, false, List, [], ◌∷◌, ◌++◌, Option,
  arith, ltb, length, length-append, take, drop, drop-append_eq, drop-drop,
}
use screenbox_rockchip_recov.Prelude.Int.{pos}
use screenbox_rockchip_recov.Prelude.Bytes.{Bytes, codes, str_eq, str_eq_iff}
use screenbox_rockchip_recov.Patch.{
  Bzip2, returns, fails, ◌>>=◌, apply_bs_diff_patch_mem, apply_bs_diff_patch,
}
use screenbox_rockchip_recov.ImagePatch.{
  Chunk, normal, Zlib, Target, Output, Result, next_chunk, slice, apply_chunk, chunk_loop,
  apply_image_patch, read_chunk,
}
use screenbox_rockchip_recov.ImagePatch.Numbers.{write4, read4, length-write4}
use screenbox_rockchip_recov.ImagePatch.Records.{
  write_chunk, record_size, IsEncodable, read_chunk-write_chunk, drop-write_chunk, at4,
}

abbrev pub write_chunks : List Chunk → Bytes → Bytes
write_chunks [] tail = tail
write_chunks (c ∷ cs) tail = write_chunk c (write_chunks cs tail)

-- The file that imgdiff writes: the records, and behind them the bsdiff patches `tail`.
abbrev pub image_patch_of : List Chunk → Bytes → Bytes
image_patch_of cs tail = codes "IMGDIFF2" ++ (write4 (pos (length cs)) ++ write_chunks cs tail)

abbrev pub AreEncodable : List Chunk → Type 0
AreEncodable [] = Unit
AreEncodable (c ∷ cs) = IsEncodable c × AreEncodable cs

module _ {S Z T Ctx : Type 0} (bz : Bzip2 S) (z : Zlib Z) (target : Target T Ctx) (fuel : ℕ)
    (malloc : ℕ → Option Bytes) (old patch : Bytes) where
  -- The reference: the chunks one after the other, up to the first that stops.
  unfoldable pub run_chunks : List Chunk → Output T Ctx → Result bz z target fuel malloc old patch
  run_chunks [] w = returns (pos 0, w)
  run_chunks (c ∷ cs) w =
      apply_chunk bz z target fuel malloc old patch c w
      >>= next_chunk bz z target fuel malloc old patch (run_chunks cs)

  loop_step :
      (n p p' : ℕ) (c : Chunk) (w : Output T Ctx)
      → read_chunk patch p ≡ returns (c, p')
      → chunk_loop bz z target fuel malloc old patch (suc n) p w ≡ (
          apply_chunk bz z target fuel malloc old patch c w
          >>= next_chunk bz z target fuel malloc old patch
              (chunk_loop bz z target fuel malloc old patch n p'))
  unfolding chunk_loop
  loop_step n p p' c w e = rw (e, chunk_loop) refl

  refused_chunk :
      (start len offset : ℕ) (w : Output T Ctx)
      → start + len ≤ length old
      → apply_bs_diff_patch_mem bz fuel malloc (take len (drop start old)) patch offset ≡ fails
      → apply_chunk bz z target fuel malloc old patch (normal start len offset) w
        ≡ returns (true, w)
  unfolding apply_chunk slice apply_bs_diff_patch
  refused_chunk start len offset w inside refused =
      let within : ltb (length old) (start + len) ≡ false = ground arith in
      rw (within, apply_bs_diff_patch, refused) refl

  chunk_loop-run_chunks :
      (cs : List Chunk) (tail : Bytes) (p : ℕ) (w : Output T Ctx)
      → drop p patch ≡ write_chunks cs tail
      → AreEncodable cs
      → chunk_loop bz z target fuel malloc old patch (length cs) p w ≡ run_chunks cs w
  unfolding chunk_loop run_chunks
  chunk_loop-run_chunks [] tail p w e v = refl
  chunk_loop-run_chunks (c ∷ cs) tail p w e v =
      let rest : drop (p + record_size c) patch ≡ write_chunks cs tail =
        drop-drop p (record_size c) (p + record_size c) patch refl
        ∙ ap (drop (record_size c)) e
        ∙ drop-write_chunk c (write_chunks cs tail) in
      let same = fun_ext (λ w'. chunk_loop-run_chunks cs tail (p + record_size c) w' rest v.1) in
      loop_step (length cs) p (p + record_size c) c w
        (read_chunk-write_chunk patch p c (write_chunks cs tail) e v.0)
      ∙ ap
          (λ k.
            apply_chunk bz z target fuel malloc old patch c w
            >>= next_chunk bz z target fuel malloc old patch k)
          same

module _ {S Z T Ctx : Type 0} (bz : Bzip2 S) (z : Zlib Z) (target : Target T Ctx) (fuel : ℕ)
    (malloc : ℕ → Option Bytes) (old : Bytes) where
  -- On a patch as imgdiff writes it, of fewer than 2 ^ 31 chunks whose numbers are in the ranges of
  -- their types, and with any bsdiff patches behind the records: `ApplyImagePatch` does what its
  -- chunks do one after the other, and returns -1 at the first of them that stops, whatever the
  -- old image, the streams, the memory and the sink do.
  pub apply_image_patch-run_chunks :
      (cs : List Chunk) (tail : Bytes) (w : Output T Ctx)
      → length cs < 2 ^ 31
      → AreEncodable cs
      → apply_image_patch bz z target fuel malloc old (image_patch_of cs tail) w
        ≡ run_chunks bz z target fuel malloc old (image_patch_of cs tail) cs w
  unfolding apply_image_patch
  apply_image_patch-run_chunks cs tail w few v =
      let patch = image_patch_of cs tail in
      let long : ltb (length patch) 12 ≡ false = ground (
        arith,
        length-append (write4 (pos (length cs))) (write_chunks cs tail),
        length-write4 (pos (length cs)),
      ) in
      let magic : str_eq (take 8 patch) (codes "IMGDIFF2") ≡ true =
        (str_eq_iff (codes "IMGDIFF2") (codes "IMGDIFF2")).1 refl in
      let count : read4 (drop 8 patch) ≡ pos (length cs) =
        at4 (pos (length cs)) (write_chunks cs tail) (drop 8 patch) few refl in
      let behind : drop 12 patch ≡ write_chunks cs tail =
        drop-append_eq 4 (write4 (pos (length cs))) (write_chunks cs tail)
          (sym (length-write4 (pos (length cs)))) in
      rw (long, magic, count)
        (chunk_loop-run_chunks bz z target fuel malloc old patch cs tail 12 w behind v)

  -- A normal chunk whose bsdiff patch `ApplyBSDiffPatchMem` refuses is passed over: on a patch as
  -- imgdiff writes it, whose first chunk is such a one with its source in the old image,
  -- `ApplyImagePatch` does and returns what the other chunks do.
  pub apply_image_patch_ignores :
      (start len offset : ℕ) (cs : List Chunk) (tail : Bytes) (w : Output T Ctx)
      → suc (length cs) < 2 ^ 31
      → AreEncodable (normal start len offset ∷ cs)
      → start + len ≤ length old
      → apply_bs_diff_patch_mem bz fuel malloc
          (take len (drop start old))
          (image_patch_of (normal start len offset ∷ cs) tail)
          offset
        ≡ fails
      → apply_image_patch bz z target fuel malloc old
          (image_patch_of (normal start len offset ∷ cs) tail)
          w
        ≡ run_chunks bz z target fuel malloc old
            (image_patch_of (normal start len offset ∷ cs) tail)
            cs
            w
  unfolding run_chunks
  apply_image_patch_ignores start len offset cs tail w few v inside refused =
      let patch = image_patch_of (normal start len offset ∷ cs) tail in
      apply_image_patch-run_chunks (normal start len offset ∷ cs) tail w few v
      ∙ (rw (refused_chunk bz z target fuel malloc old patch start len offset w inside refused)
          refl)
