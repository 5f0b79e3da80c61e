-- ===== src/ApplyPatch/Apply/Rounds.antt =====
-- applypatch/applypatch.c: the loop of `applypatch`, which makes space or a copy of the source, and
-- runs the patch, at most twice.
use screenbox_rockchip_recov.Prelude.{
  ℕ, zero, suc, ◌*◌, ◌/◌, ◌%◌, ◌^◌, Bool, true, false, ◌&&◌, not, Option, none, some, ltb, ◌==◌,
  if◌then◌else◌, length, take,
}
use screenbox_rockchip_recov.Prelude.Int.{ℤ, pos, negsuc}
use screenbox_rockchip_recov.Prelude.Bytes.{Bytes, codes, str_eq}
use screenbox_rockchip_recov.Patch.{Outcome, returns, ◌>>=◌, apply_bs_diff_patch}
use screenbox_rockchip_recov.ImagePatch.{Output, apply_image_patch}
use screenbox_rockchip_recov.Edify.Run.{val_blob}
use screenbox_rockchip_recov.ApplyPatch.Check.{cache_temp_source, is_partition}
use screenbox_rockchip_recov.ApplyPatch.Sinks.{file_sink, memory_sink}
use screenbox_rockchip_recov.ApplyPatch.Cache.{free_space_for_file, make_free_space_on_cache}
use screenbox_rockchip_recov.ApplyPatch.Apply.{
  Host, Arguments, target_of, Selection, target_fs_of, outname_of, Round, Produced, size_of,
  save_file_contents,
}

-- `*_space > (256 << 10) && free_space > (target_size * 3 / 2)`, with a size_t of 64 bits
abbrev pub is_enough : ℕ → ℕ → Bool
is_enough free_space target_size =
    ltb 262144 free_space && ltb (((target_size * 3) % 2 ^ 64) / 2) free_space

-- `result == 0`
abbrev pub is_zero : ℤ → Bool
is_zero (pos n) = n == 0
is_zero (negsuc n) = false

module _ {D S Z Key Ctx R : Type 0} (h : Host D S Z Key Ctx R) (a : Arguments) (s : Selection) where
  -- `if (MakeFreeSpaceOnCache(...) < 0) return 1; if (SaveFileContents(...) < 0) return 1;`
  unfoldable pub back_up : D → Outcome (Bool × D)
  back_up d =
      let (made, d') = make_free_space_on_cache h.disk (size_of h s.source) d in
      let saved = save_file_contents h cache_temp_source s.source d' in
      if made then saved else returns (false, d')

  -- Not enough space for the target, with the source in use: the source is moved to the cache.
  unfoldable pub move_source : D → Outcome (Bool × D)
  unfolding back_up
  move_source d =
      let moved = back_up d >>= λ r.
      returns (if r.0 then (true, h.disk.unlink r.1 a.source_filename) else r) in
      if is_partition a.source_filename then returns (false, d) else moved

  -- `made_copy = 1`, with `retry = 0`; or `return 1`.
  unfoldable pub copied : Outcome (Bool × D) → Outcome (Option (Bool × Bool) × D)
  copied m = m >>= λ r.
      let next : Option (Bool × Bool) × D = (if r.0 then some (false, true) else none, r.1) in
      returns next

  -- The first half of a round, with `retry > 0` and `made_copy`: `none` is `return 1`; or whether
  -- `retry` is left as it is, and `made_copy`.
  unfoldable pub prepare : Bool → Bool → D → Outcome (Option (Bool × Bool) × D)
  unfolding move_source free_space_for_file copied
  prepare retries made_copy d =
      let at_file = target_fs_of (target_of a) >>= λ target_fs.
      if retries && is_enough (free_space_for_file h.disk d target_fs) a.target_size
      then returns (some (retries, made_copy), d)
      else (if s.uses_source
          then copied (move_source d)
          else returns (some (false, made_copy), d)) in
      if is_partition (target_of a) then copied (back_up d) else at_file

  -- `patch->data`
  abbrev pub patch_bytes : Bytes
  patch_bytes = take s.patch.size s.patch.bytes

  -- `header_bytes_read >= 8 && memcmp(header, name, 8) == 0`
  abbrev pub has_header : Bytes → Bool
  has_header name = not (ltb (length patch_bytes) 8) && str_eq (take 8 patch_bytes) name

  -- The patch, by its header; `none` is `return 1`.
  unfoldable pub run_patch :
      {T : Type 0} → (T → Bytes → ℤ × T) → T → Outcome (Option (ℤ × Output T Ctx))
  unfolding apply_bs_diff_patch apply_image_patch
  run_patch {T} sink token =
      let diffed : Outcome (Option (ℤ × Output T Ctx)) =
        apply_bs_diff_patch h.bz sink h.lib.sha_update h.fuel h.malloc s.to_use.bytes patch_bytes 0
          token (some h.lib.sha_init)
        >>= λ r. returns (some (r.0, record { token = r.1.0; ctx = r.1.1 })) in
      let image : Outcome (Option (ℤ × Output T Ctx)) =
        apply_image_patch h.bz h.z (record { sink = sink; sha_update = h.lib.sha_update }) h.fuel
          h.malloc s.to_use.bytes patch_bytes (record { token = token; ctx = some h.lib.sha_init })
        >>= λ r. returns (some r) in
      if has_header (codes "BSDIFF40")
      then diffed
      else (if has_header (codes "IMGDIFF2") then image else returns none)

  -- "We store the decoded output in memory."
  unfoldable pub patch_partition : D → Outcome (Option (Round Ctx) × D)
  unfolding run_patch memory_sink
  patch_partition d = elim (h.malloc a.target_size) as (λ _. Outcome (Option (Round Ctx) × D)) [
    | none ↦ returns (none, d)
    | some buf ↦
        run_patch memory_sink (record { buffer = buf; size = a.target_size; position = 0 }) >>= λ r.
        returns (elim r as (λ _. Option (Round Ctx) × D) [
          | none ↦ (none, d)
          | some (result, w) ↦
              (some (record { succeeded = is_zero result; msi = some w.token; ctx = w.ctx }), d)
        ])
  ]

  -- `FileSink`, on the output file
  abbrev pub output_sink : D → Bytes → ℤ × D
  output_sink d bytes =
      let (done, d') = file_sink (λ d'. h.disk.write d' (outname_of (target_of a))) d bytes in
      (pos done, d')

  -- "We write the decoded output to "<tgt-file>.patch"."
  unfoldable pub patch_file : D → Outcome (Option (Round Ctx) × D)
  unfolding run_patch file_sink
  patch_file d =
      let outname = outname_of (target_of a) in
      let (opened, d') = h.disk.create d outname in
      let done = run_patch output_sink d' >>= λ r.
      returns (elim r as (λ _. Option (Round Ctx) × D) [
        | none ↦ (none, d')
        | some (result, w) ↦ (
          some (record { succeeded = is_zero result; msi = none; ctx = w.ctx }),
          h.disk.close w.token outname,
        )
      ]) in
      if opened then done else returns (none, d')

  -- The second half of a round: `none` is `return 1`.
  unfoldable pub produce : D → Outcome (Option (Round Ctx) × D)
  unfolding patch_partition patch_file
  produce d =
      let to_partition = patch_partition d in
      let to_file = patch_file d in
      if not (s.patch.type == val_blob)
      then returns (none, d)
      else (if is_partition (target_of a) then to_partition else to_file)

  abbrev pub Attempt : Type 0
  Attempt = Outcome (Option (Produced Ctx) × D)

  -- After a round: `again` is the next one, if there is one.
  unfoldable pub conclude : Option (D → Attempt) → Bool → Option (Round Ctx) × D → Attempt
  conclude again made_copy (none, d) = returns (none, d)
  conclude again made_copy (some round, d) =
      if round.succeeded
      then returns (some (record { last = round; made_copy = made_copy }), d)
      else elim again as (λ _. Attempt) [
        | none ↦ returns (none, d)
        | some go ↦ elim round.msi as (λ _. Attempt) [
          | some _ ↦ go d
          | none ↦ go (h.disk.unlink d (outname_of (target_of a)))
        ]
      ]

  -- What follows the first half: with `retry` as it is, `next` may follow.
  unfoldable pub carry_on : Option (Bool → D → Attempt) → Option (Bool × Bool) × D → Attempt
  unfolding produce conclude
  carry_on next (none, d) = returns (none, d)
  carry_on next (some (keeps, made_copy), d) =
      let again = elim next as (λ _. Option (D → Attempt)) [
        | none ↦ none
        | some go ↦ if keeps then some (go made_copy) else none
      ] in
      produce d >>= conclude again made_copy

  -- The loop, with `retry`.
  unfoldable pub rounds : ℕ → Bool → D → Attempt
  unfolding prepare carry_on
  rounds zero made_copy d = prepare false made_copy d >>= carry_on none
  rounds (suc retry) made_copy d = prepare true made_copy d >>= carry_on (some (rounds retry))
