-- ===== src/Patch/Tests.antt =====
-- Runs of the patch code on stored blocks, and the theorems at those inputs.
use screenbox_rockchip_recov.Prelude.{
  ℕ, zero, suc, ◌≡◌, refl, ap, ◌∙◌, List, [], ◌∷◌, ◌++◌, Option, some, arith, length, length-take,
  take, drop, take-append-drop, replicate,
}
use screenbox_rockchip_recov.Prelude.Int.{pos, negsuc, ◌+ℤ◌}
use screenbox_rockchip_recov.Prelude.Bytes.{Bytes, str_eq}
use screenbox_rockchip_recov.Patch.Offsets.{offtin, offtout, offtin-offtout}
use screenbox_rockchip_recov.Patch.Streams.{Unpacks}
use screenbox_rockchip_recov.Patch.{
  bz_ok, Bzip2, returns, overruns, runs_on, store, add_old, add_to, fill_buffer, fill_at,
  read_extra, read_diff, apply_triple, apply_loop, open_streams, apply_bs_diff_patch_mem,
}
use screenbox_rockchip_recov.Patch.Apply.{Segment, sub_old, new_of, control_of, extra_of, diff_of}
use screenbox_rockchip_recov.Patch.Loop.{IsSized}
use screenbox_rockchip_recov.Patch.RoundTrip.{patch_of, apply_bs_diff_patch_mem-RoundTrip}
use screenbox_rockchip_recov.Patch.Overrun.{apply_bs_diff_patch_mem_overruns, fill_buffer_starved}

-- Streams that are stored, not packed: a call puts out what is wanted of what is left.
abbrev stored : Bzip2 Bytes
stored = record { decompress_init = λ bs. bs; decompress = λ s n. (bz_ok, (take n s, drop n s)) }

abbrev Rest : Bytes → Bytes → Type 0
Rest s bs = s ≡ bs

stored-Unpacks : Unpacks stored Rest
stored-Unpacks s bs n h a b = record {
  works = tt;
  rest = drop n s;
  split = take-append-drop n s ∙ h;
  progress = omega (arith, length-take n s, ap (λ (l : Bytes). length l) h);
  at_most = omega (arith, length-take n s);
  holds = refl;
}

abbrev old_file : Bytes
old_file = 9 ∷ 21 ∷ 200 ∷ []

abbrev two_segments : List Segment
two_segments =
    record { diffed = 10 ∷ 20 ∷ []; inserted = 7 ∷ []; seek = negsuc 1 }
    ∷ record { diffed = 5 ∷ []; inserted = []; seek = pos 0 }
    ∷ []

abbrev room_for : ℕ → Option Bytes
room_for n = some (replicate n 0)

new_file : new_of two_segments ≡ 10 ∷ 20 ∷ 7 ∷ 5 ∷ []
new_file = refl

offtin-offtout_example : offtin (offtout (negsuc 999) ++ (1 ∷ [])) ≡ negsuc 999
offtin-offtout_example = offtin-offtout (negsuc 999) (1 ∷ []) (omega arith)

first_segment : IsSized (record { diffed = 10 ∷ 20 ∷ []; inserted = 7 ∷ []; seek = negsuc 1 })
first_segment = record {
  bytes = (omega arith, (omega arith, tt));
  diffed_size = omega arith;
  inserted_size = omega arith;
  seek_size = omega arith;
}

second_segment : IsSized (record { diffed = 5 ∷ []; inserted = []; seek = pos 0 })
second_segment = record {
  bytes = (omega arith, tt);
  diffed_size = omega arith;
  inserted_size = omega arith;
  seek_size = omega arith;
}

apply_bs_diff_patch_mem-RoundTrip_example :
    apply_bs_diff_patch_mem stored 30 room_for old_file
      ((1 ∷ 2 ∷ [])
        ++ patch_of
            (control_of two_segments)
            (diff_of old_file (pos 0) two_segments)
            (extra_of two_segments)
            (length (new_of two_segments)))
      2
    ≡ returns (10 ∷ 20 ∷ 7 ∷ 5 ∷ [])
unfolding offtout sub_old
apply_bs_diff_patch_mem-RoundTrip_example =
    apply_bs_diff_patch_mem-RoundTrip stored Rest stored-Unpacks 30 room_for old_file (1 ∷ 2 ∷ [])
      (control_of two_segments) (diff_of old_file (pos 0) two_segments) (extra_of two_segments)
      (replicate 4 0) two_segments (omega arith) (omega arith)
      (omega arith, (omega arith, (omega arith, tt)))
      (first_segment, omega arith, omega arith, (second_segment, omega arith, omega arith, tt))
      (omega arith) (omega arith) (omega arith) refl refl refl refl refl

-- A triple that begins with -1.
abbrev bad_control : Bytes
bad_control = offtout (negsuc 0) ++ replicate 16 0

apply_bs_diff_patch_mem_overruns_example :
    apply_bs_diff_patch_mem stored 24
      (λ n. some (replicate n 0))
      old_file
      ([] ++ patch_of bad_control (replicate 5 1) [] 4)
      0
    ≡ overruns
unfolding offtout
apply_bs_diff_patch_mem_overruns_example =
    apply_bs_diff_patch_mem_overruns stored Rest stored-Unpacks 24 (λ n. some (replicate n 0))
      old_file [] bad_control (replicate 5 1) [] (replicate 4 0) (replicate 16 0) (replicate 5 1) 4
      0 (omega arith) (omega arith) (omega arith) (omega arith) (omega arith) (omega arith)
      (omega arith) refl refl (omega arith) (omega arith) refl refl

fill_buffer_starved_example : fill_buffer stored 1000 24 24 [] ≡ runs_on
fill_buffer_starved_example = fill_buffer_starved stored [] starved 1000 24 23
  where
    starved : (n : ℕ) → stored.decompress [] n ≡ (bz_ok, ([], []))
    starved zero = refl
    starved (suc n) = refl

abbrev whole_patch : Bytes
whole_patch =
    (1 ∷ 2 ∷ [])
    ++ patch_of (control_of two_segments) (diff_of old_file (pos 0) two_segments)
        (extra_of two_segments) 4

two_segments_run :
    apply_bs_diff_patch_mem stored 30 room_for old_file whole_patch 2
    ≡ returns (10 ∷ 20 ∷ 7 ∷ 5 ∷ [])
unfolding offtout sub_old offtin str_eq store add_old add_to fill_buffer fill_at read_extra
    read_diff apply_triple apply_loop open_streams apply_bs_diff_patch_mem ◌+ℤ◌
two_segments_run = refl
