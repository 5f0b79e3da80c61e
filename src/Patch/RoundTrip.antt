-- ===== src/Patch/RoundTrip.antt =====
-- applypatch/bspatch.c: `ApplyBSDiffPatchMem` gives back the new file of a patch in the format that
-- bsdiff.c writes.
use screenbox_rockchip_recov.Prelude.{
  ℕ, ◌+◌, ◌^◌, ◌≤◌, ◌<◌, ◌≡◌, refl, ap, ◌∙◌, sym, true, false, List, [], ◌++◌, Option, some, arith,
  length, length-append, ltb, take, drop, take-append_eq, drop-append_eq, drop-drop,
}
use screenbox_rockchip_recov.Prelude.Int.{ℤ, pos}
use screenbox_rockchip_recov.Prelude.Bytes.{Bytes, codes, str_eq, str_eq_iff}
use screenbox_rockchip_recov.Patch.Offsets.{offtin, offtout, offtin-offtout, length-offtout}
use screenbox_rockchip_recov.Patch.Streams.{Unpacks}
use screenbox_rockchip_recov.Patch.{
  Bzip2, returns, apply_loop, lengths_of, open_streams, apply_bs_diff_patch_mem,
}
use screenbox_rockchip_recov.Patch.Apply.{
  Segment, new_of, control_of, extra_of, diff_of, AreBytes, progress, length-three,
}
use screenbox_rockchip_recov.Patch.Loop.{AreSized, apply_loop_lem}

-- The file that bsdiff.c writes, of the three packed blocks and the size of the new file.
abbrev pub blocks_of : Bytes → Bytes → Bytes → Bytes
blocks_of cb db eb = cb ++ (db ++ eb)

abbrev pub patch_of : Bytes → Bytes → Bytes → ℕ → Bytes
patch_of cb db eb size =
    codes "BSDIFF40"
    ++ (offtout (pos (length cb))
        ++ (offtout (pos (length db)) ++ (offtout (pos size) ++ blocks_of cb db eb)))

after_number :
    (x : ℤ) (k j : ℕ) (front rest : Bytes) (all : Bytes)
    → drop k all ≡ offtout x ++ rest
    → j ≡ k + 8
    → drop j all ≡ rest
after_number x k j front rest all e same =
    drop-drop k 8 j all same
    ∙ ap (drop 8) e
    ∙ drop-append_eq 8 (offtout x) rest (sym (length-offtout x))

module _ {S : Type 0} (bz : Bzip2 S) where
  header_read :
      (fuel : ℕ) (malloc : ℕ → Option Bytes) (old patch header : Bytes) (offset c d n : ℕ)
      → drop offset patch ≡ header
      → ltb (length header) 32 ≡ false
      → str_eq (take 8 header) (codes "BSDIFF40") ≡ true
      → offtin (drop 8 header) ≡ pos c
      → offtin (drop 16 header) ≡ pos d
      → offtin (drop 24 header) ≡ pos n
      → apply_bs_diff_patch_mem bz fuel malloc old patch offset
        ≡ open_streams bz fuel malloc old header c d n
  unfolding apply_bs_diff_patch_mem
  header_read fuel malloc old patch header offset c d n e long magic ec ed en =
      let longer : ltb (length header) 8 ≡ false = ground arith in
      rw (e, longer, magic, long, lengths_of, ec, e, ed, e, en, e) refl

  streams_opened :
      (fuel : ℕ) (malloc : ℕ → Option Bytes) (old header cb db eb buf : Bytes) (n : ℕ)
      → drop 32 header ≡ blocks_of cb db eb
      → malloc n ≡ some buf
      → open_streams bz fuel malloc old header (length cb) (length db) n
        ≡ apply_loop bz fuel fuel old (
            progress buf
              (pos 0)
              0
              (bz.decompress_init cb)
              (bz.decompress_init db)
              (bz.decompress_init eb))
  unfolding open_streams
  streams_opened fuel malloc old header cb db eb buf n e m =
      let inside : ltb (length (cb ++ (db ++ eb))) (length cb + length db) ≡ false =
        ground (arith, length-append cb (db ++ eb), length-append db eb) in
      let first = take-append_eq (length cb) cb (db ++ eb) refl in
      let rest = drop-append_eq (length cb) cb (db ++ eb) refl in
      let second = take-append_eq (length db) db eb refl in
      let third : drop (length cb + length db) (cb ++ (db ++ eb)) ≡ eb =
        drop-drop (length cb) (length db) (length cb + length db) _ refl
        ∙ ap (drop (length db)) rest
        ∙ drop-append_eq (length db) db eb refl in
      rw (e, inside, m, e, first, rest, second, third) refl

  -- On a patch with such a header, the loop begins.
  pub patch_opened :
      (fuel : ℕ) (malloc : ℕ → Option Bytes) (old lead cb db eb buf : Bytes) (n : ℕ)
      → length cb < 2 ^ 31
      → length db < 2 ^ 31
      → n < 2 ^ 31
      → malloc n ≡ some buf
      → apply_bs_diff_patch_mem bz fuel malloc old (lead ++ patch_of cb db eb n) (length lead)
        ≡ apply_loop bz fuel fuel old (
            progress buf
              (pos 0)
              0
              (bz.decompress_init cb)
              (bz.decompress_init db)
              (bz.decompress_init eb))
  patch_opened fuel malloc old lead cb db eb buf n sc sd sn mem =
      let header = patch_of cb db eb n in
      let at₁₆ = after_number (pos (length cb)) 8 16 [] _ header refl refl in
      let at₂₄ = after_number (pos (length db)) 16 24 [] _ header at₁₆ refl in
      let at₃₂ = after_number (pos n) 24 32 [] _ header at₂₄ refl in
      let long : ltb (length header) 32 ≡ false = ground (
        arith,
        length-three (offtout (pos (length cb))) (offtout (pos (length db)))
            (offtout (pos n) ++ blocks_of cb db eb),
        length-append (offtout (pos n)) (blocks_of cb db eb),
        length-offtout (pos (length cb)),
        length-offtout (pos (length db)),
        length-offtout (pos n),
      ) in
      header_read fuel malloc old (lead ++ header) header (length lead) (length cb) (length db) n
        (drop-append_eq (length lead) lead header refl) long
        ((str_eq_iff (codes "BSDIFF40") (codes "BSDIFF40")).1 refl)
        (offtin-offtout (pos (length cb)) _ (omega arith))
        (ap offtin at₁₆ ∙ offtin-offtout (pos (length db)) _ (omega arith))
        (ap offtin at₂₄ ∙ offtin-offtout (pos n) _ (omega arith))
      ∙ streams_opened fuel malloc old header cb db eb buf n at₃₂ mem

module _ {S : Type 0} (bz : Bzip2 S) (Holds : S → Bytes → Type 0) (u : Unpacks bz Holds) where
  -- Where the streams unpack (`Unpacks`): let a new file be given as segments that are diffed to the
  -- old one or inserted, and a patch in bsdiff's format, at any offset, whose blocks unpack to the
  -- numbers of the segments, the differences and the insertions. If memory is given for the new
  -- file, sizes are below 2 ^ 31, and the loops have `fuel` rounds, as many as the longest part has
  -- bytes, 24 at least and more than there are segments, then `ApplyBSDiffPatchMem` gives the new
  -- file.
  pub apply_bs_diff_patch_mem-RoundTrip :
      (fuel : ℕ) (malloc : ℕ → Option Bytes) (old lead cb db eb buf : Bytes) (gs : List Segment)
      → 24 ≤ fuel
      → length gs < fuel
      → AreBytes old
      → AreSized fuel gs
      → length cb < 2 ^ 31
      → length db < 2 ^ 31
      → length (new_of gs) < 2 ^ 31
      → malloc (length (new_of gs)) ≡ some buf
      → length buf ≡ length (new_of gs)
      → Holds (bz.decompress_init cb) (control_of gs)
      → Holds (bz.decompress_init db) (diff_of old (pos 0) gs)
      → Holds (bz.decompress_init eb) (extra_of gs)
      → apply_bs_diff_patch_mem bz fuel malloc old
          (lead ++ patch_of cb db eb (length (new_of gs)))
          (length lead)
        ≡ returns (new_of gs)
  apply_bs_diff_patch_mem-RoundTrip fuel malloc old lead cb db eb buf gs f m ho v sc sd sn mem same
        hc hd he =
      patch_opened bz fuel malloc old lead cb db eb buf (length (new_of gs)) sc sd sn mem
      ∙ apply_loop_lem bz Holds u fuel old fuel gs [] buf (pos 0) 0 _ _ _ f ho v hc hd he refl same
          m
