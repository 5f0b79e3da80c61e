-- ===== src/Patch/Overrun.antt =====
-- applypatch/bspatch.c: the numbers of a triple are only checked from above.
use mathlib.Core.Path.{subst}
use screenbox_rockchip_recov.Prelude.{
  ℕ, zero, suc, ◌+◌, ◌-◌, ◌%◌, ◌^◌, ◌≤◌, ◌<◌, ◌≡◌, refl, ap, ◌∙◌, sym, false, [], ◌++◌, arith, inl,
  inr, Bool-cases, if◌then◌else◌, length, length-append, ltb, true, Option, some, take, drop,
  length-take, take-append-drop, append_assoc,
}
use screenbox_rockchip_recov.Prelude.Int.{pos, negsuc, ◌+ℤ◌, ltb_ℤ}
use screenbox_rockchip_recov.Prelude.Bytes.{Bytes}
use screenbox_rockchip_recov.Patch.{
  BzStatus, bz_ok, bz_stream_end, bz_error, Bzip2, returns, overruns, fails, runs_on, Outcome,
  ◌>>=◌, fill_buffer, fill_at, Progress, read_diff, apply_triple, apply_loop,
  apply_bs_diff_patch_mem,
}
use screenbox_rockchip_recov.Patch.Streams.{Unpacks, Delivered, fill_buffer_lem}
use screenbox_rockchip_recov.Patch.Offsets.{offtin, offtout, offtin-offtout, length-offtout}
use screenbox_rockchip_recov.Patch.Apply.{progress}
use screenbox_rockchip_recov.Patch.RoundTrip.{patch_of, patch_opened}

negative_unchecked : (size n k : ℕ) → n ≤ size → ltb_ℤ (pos size) (pos n +ℤ negsuc k) ≡ false
unfolding ◌+ℤ◌
negative_unchecked size n k h = ground arith

abbrev added : {S : Type 0} → Bytes → Bytes × S → Outcome (Bytes × S)
added out q = returns (out ++ q.0, q.1)

module _ {S : Type 0} (bz : Bzip2 S) (Holds : S → Bytes → Type 0) (u : Unpacks bz Holds) where
  abbrev Overruns : ℕ → Type 0
  Overruns fuel =
      (room n : ℕ) (s : S) (bs : Bytes)
      → Holds s bs
      → room < n
      → room < length bs
      → room < fuel
      → fill_buffer bz fuel room n s ≡ overruns

  continued-Overruns :
      {status : BzStatus} (fuel room n : ℕ) (bs : Bytes)
      → Overruns fuel
      → room < suc n
      → room < length bs
      → room < suc fuel
      → (out : Bytes) (s : S) → Delivered Holds bs (suc n) (status, (out, s))
      → (if ltb room (length out)
          then overruns
          else (fill_buffer bz fuel (room - length out) (suc n - length out) s >>= added out))
        ≡ overruns
  continued-Overruns fuel room n bs ih a b f out s d = elim (Bool-cases (ltb room (length out))) [
    | inl e ↦ rw e refl
    | inr e ↦
        let count : length out + length d.rest ≡ length bs =
          sym (length-append out d.rest) ∙ ap (λ (l : Bytes). length l) d.split in
        let small : length out ≤ room = ground arith in
        let next =
          ih (room - length out) (suc n - length out) s d.rest d.holds (omega arith) (omega arith)
            (omega (arith, d.progress)) in
        rw (e, next) refl
  ]

  after_call-Overruns :
      (fuel room n : ℕ) (bs : Bytes)
      → Overruns fuel
      → room < suc n
      → room < length bs
      → room < suc fuel
      → (d : BzStatus × (Bytes × S)) → Delivered Holds bs (suc n) d
      → (if ltb room (length d.1.0) then overruns else elim d.0 as (λ _. Outcome (Bytes × S)) [
        | bz_error ↦ fails
        | _ ↦ fill_buffer bz fuel (room - length d.1.0) (suc n - length d.1.0) d.1.1 >>= added d.1.0
      ])
        ≡ overruns
  after_call-Overruns fuel room n bs ih a b f (bz_error, (out, s)) d = elim d.works [ ]
  after_call-Overruns fuel room n bs ih a b f (bz_ok, (out, s)) d =
      continued-Overruns fuel room n bs ih a b f out s d
  after_call-Overruns fuel room n bs ih a b f (bz_stream_end, (out, s)) d =
      continued-Overruns fuel room n bs ih a b f out s d

  -- Where the stream holds more than the buffer, and more is asked for, `FillBuffer` writes beyond it.
  fill_buffer-Overruns : (fuel : ℕ) → Overruns fuel
  unfolding fill_buffer
  fill_buffer-Overruns zero room n s bs h a b f = absurd (omega arith)
  fill_buffer-Overruns (suc fuel) room zero s bs h a b f = absurd (omega arith)
  fill_buffer-Overruns (suc fuel) room (suc n) s bs h a b f =
      after_call-Overruns fuel room n bs (fill_buffer-Overruns fuel) a b f (bz.decompress s (suc n))
        (u s bs (suc n) h (omega arith) (omega arith))

  -- A first number between -2 ^ 31 and -1 is not refused: where the output has less than 2 ^ 31
  -- bytes, and the diff stream holds more bytes than the output has from `newpos` on, "Read diff
  -- string" writes beyond the output.
  read_diff_overruns :
      (fuel : ℕ) (old : Bytes) (p : Progress S) (n k : ℕ) (bs : Bytes)
      → p.newpos ≡ pos n
      → n ≤ length p.new_data
      → length p.new_data < 2 ^ 31
      → k < 2 ^ 31
      → Holds p.dstream bs
      → length p.new_data - n < length bs
      → length p.new_data < fuel
      → read_diff bz fuel old p (negsuc k) ≡ overruns
  unfolding read_diff fill_at
  read_diff_overruns fuel old p n k bs e inside size small h more f =
      let whole : k % 2 ^ 32 ≡ k = omega arith in
      rw
        (
          e,
          negative_unchecked (length p.new_data) n k inside,
          whole,
          fill_buffer-Overruns fuel (length p.new_data - n) (2 ^ 32 - 1 - k) p.dstream bs h
              (omega arith) more (omega arith),
        )
        refl

  -- The same in a round of the loop, where the triple is read first.
  loop_overruns :
      (fuel rounds : ℕ) (old : Bytes) (p : Progress S) (k : ℕ) (control bs : Bytes)
      → p.newpos ≡ pos 0
      → 0 < length p.new_data
      → length p.new_data < 2 ^ 31
      → k < 2 ^ 31
      → 24 ≤ fuel
      → Holds p.cstream (offtout (negsuc k) ++ control)
      → 16 ≤ length control
      → Holds p.dstream bs
      → length p.new_data < length bs
      → length p.new_data < fuel
      → apply_loop bz fuel (suc rounds) old p ≡ overruns
  unfolding apply_loop apply_triple
  loop_overruns fuel rounds old p k control bs e positive size small f hc long hd more enough =
      let triple = offtout (negsuc k) ++ take 16 control in
      let whole : triple ++ drop 16 control ≡ offtout (negsuc k) ++ control =
        append_assoc (offtout (negsuc k)) (take 16 control) (drop 16 control)
        ∙ ap (λ l. offtout (negsuc k) ++ l) (take-append-drop 16 control) in
      let bytes : 24 ≡ length triple = omega (
        arith,
        length-append (offtout (negsuc k)) (take 16 control),
        length-offtout (negsuc k),
        length-take 16 control,
      ) in
      let (s', got, _) =
        fill_buffer_lem bz Holds u fuel 24 24 p.cstream triple (drop 16 control)
          (subst (Holds p.cstream) (sym whole) hc) bytes f (omega arith) in
      let first : offtin triple ≡ negsuc k =
        offtin-offtout (negsuc k) (take 16 control) (omega arith) in
      let over =
        read_diff_overruns fuel old (record p { cstream = s' }) 0 k bs e (omega arith) size small hd
          (omega arith) enough in
      let goes_on : ltb_ℤ p.newpos (pos (length p.new_data)) ≡ true = rw e (ground arith) in
      rw (apply_loop, goes_on, got, first, over) refl

  -- The first number of the first triple is not compared with 0: where the streams unpack
  -- (`Unpacks`), on a patch with bsdiff's header, at any offset, whose first triple begins with a
  -- number between -2 ^ 31 and -1, whose other blocks are any, and whose differences are more bytes
  -- than the new file has, of which there is one at least and fewer than 2 ^ 31,
  -- `ApplyBSDiffPatchMem` writes beyond the memory that it was given for the new file.
  pub apply_bs_diff_patch_mem_overruns :
      (fuel : ℕ) (malloc : ℕ → Option Bytes) (old lead cb db eb buf control bs : Bytes) (n k : ℕ)
      → 24 ≤ fuel
      → n < fuel
      → 0 < n
      → n < 2 ^ 31
      → k < 2 ^ 31
      → length cb < 2 ^ 31
      → length db < 2 ^ 31
      → malloc n ≡ some buf
      → length buf ≡ n
      → 16 ≤ length control
      → n < length bs
      → Holds (bz.decompress_init cb) (offtout (negsuc k) ++ control)
      → Holds (bz.decompress_init db) bs
      → apply_bs_diff_patch_mem bz fuel malloc old (lead ++ patch_of cb db eb n) (length lead)
        ≡ overruns
  apply_bs_diff_patch_mem_overruns zero malloc old lead cb db eb buf control bs n k f m positive sn
        sk sc sd mem size long more hc hd =
      absurd (omega arith)
  apply_bs_diff_patch_mem_overruns (suc fuel) malloc old lead cb db eb buf control bs n k f m
        positive sn sk sc sd mem size long more hc hd =
      patch_opened bz (suc fuel) malloc old lead cb db eb buf n sc sd sn mem
      ∙ loop_overruns (suc fuel) fuel old
          (progress buf (pos 0) 0 (bz.decompress_init cb) (bz.decompress_init db)
            (bz.decompress_init eb))
          k control bs refl (omega arith) (omega arith) sk f hc long hd (omega arith) (omega arith)

-- A stream whose input ends early, from which BZ2_bzDecompress returns BZ_OK without a byte and
-- stays as it is, keeps `FillBuffer` in its loop for any number of rounds, where a byte is wanted.
pub fill_buffer_starved :
    {S : Type 0} (bz : Bzip2 S) (s : S)
    → ((n : ℕ) → bz.decompress s n ≡ (bz_ok, ([], s)))
    → (fuel room n : ℕ) → fill_buffer bz fuel room (suc n) s ≡ runs_on
unfolding fill_buffer
fill_buffer_starved bz s h zero room n = refl
fill_buffer_starved bz s h (suc fuel) room n =
    let next = fill_buffer_starved bz s h fuel room n in
    let fits : ltb room 0 ≡ false = ground arith in
    let same_room : room - 0 ≡ room = omega arith in
    let same_n : suc n - 0 ≡ suc n = omega arith in
    rw (h (suc n), fits, h (suc n), same_room, same_n, next) refl
