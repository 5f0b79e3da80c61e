-- ===== src/Patch.antt =====
-- applypatch/bspatch.c: the application of a bsdiff patch. bzip2 is not part of the repository: its
-- streams are parameters. off_t and ssize_t have 64 bits, and their sums do not overflow.
pub mod Offsets
pub mod Streams
pub mod Apply
pub mod Loop
pub mod RoundTrip
pub mod Overrun
pub mod Outcomes
mod Tests
use screenbox_rockchip_recov.Prelude.{
  ℕ, zero, suc, ◌+◌, ◌-◌, ◌%◌, ◌^◌, Bool, true, false, not, List, [], ◌∷◌, ◌++◌, Option, none, some,
  ltb, ◌==◌, if◌then◌else◌, length, take, drop, get_or,
}
use screenbox_rockchip_recov.Prelude.Int.{ℤ, pos, negsuc, ◌+ℤ◌, ltb_ℤ, pos_part}
use screenbox_rockchip_recov.Prelude.Bytes.{Bytes, codes, str_eq}
use screenbox_rockchip_recov.Patch.Offsets.{offtin}

-- What BZ2_bzDecompress returns: BZ_OK, BZ_STREAM_END, or an error.
pub data BzStatus : Type 0 where
  bz_ok bz_stream_end bz_error : BzStatus

-- Streams of libbz2, of states `S`.
pub record Bzip2 (S : Type 0) : Type 0 where
  -- BZ2_bzDecompressInit, where `next_in` and `avail_in` give these bytes; a failure only shows in
  -- the calls that follow
  pub decompress_init : Bytes → S
  -- BZ2_bzDecompress, with `avail_out`: the status and the bytes put out
  pub decompress : S → ℕ → BzStatus × (Bytes × S)

-- How a run ends: with a result, with a nonzero return, by an access outside of a buffer, or not
-- within the given number of rounds.
pub data Outcome (A : Type 0) : Type 0 where
  returns : A → Outcome A
  fails overruns runs_on : Outcome A

infixl 5 ◌>>=◌
abbrev pub ◌>>=◌ : {A B : Type 0} → Outcome A → (A → Outcome B) → Outcome B
◌>>=◌ m k = elim m [ returns a ↦ k a | fails ↦ fails | overruns ↦ overruns | runs_on ↦ runs_on ]

-- The conversion of an off_t to `int` and then to the unsigned `avail_out`.
abbrev pub to_avail : ℤ → ℕ
to_avail (pos n) = n % 2 ^ 32
to_avail (negsuc n) = 2 ^ 32 - 1 - n % 2 ^ 32

-- The bytes from `at` to the end of a buffer of `size` bytes.
abbrev pub room_at : ℕ → ℤ → ℕ
room_at size (pos p) = size - p
room_at size (negsuc p) = 0

-- A write of `bs` at `at`, in bounds.
unfoldable pub store : Bytes → ℤ → Bytes → Bytes
store buf (pos p) bs = take p buf ++ (bs ++ drop (p + length bs) buf)
store buf (negsuc p) bs = buf

-- `if ((oldpos+i >= 0) && (oldpos+i < old_size)) new_data[newpos+i] += old_data[oldpos+i];`
abbrev pub old_at : Bytes → ℤ → ℕ
old_at old (pos p) = get_or old p 0
old_at old (negsuc p) = 0

unfoldable pub add_old : Bytes → ℤ → Bytes → Bytes
add_old old oldpos [] = []
add_old old oldpos (b ∷ bs) = ((b + old_at old oldpos) % 256) ∷ add_old old (oldpos +ℤ pos 1) bs

-- "Add old data to diff string", for `n` bytes.
unfoldable pub add_to : Bytes → Bytes → ℤ → ℤ → ℕ → Outcome Bytes
add_to old buf oldpos newpos zero = returns buf
add_to old buf oldpos (pos p) (suc n) =
    if ltb (length buf) (p + suc n)
    then overruns
    else returns (store buf (pos p) (add_old old oldpos (take (suc n) (drop p buf))))
add_to old buf oldpos (negsuc p) (suc n) = overruns

-- The variables of the loop: the output, the positions, and the streams.
pub record Progress (S : Type 0) : Type 0 where
  pub new_data : Bytes
  pub oldpos : ℤ
  pub newpos : ℤ
  pub cstream : S
  pub dstream : S
  pub estream : S

module _ {S : Type 0} (bz : Bzip2 S) where
  -- `FillBuffer`: the bytes written to a buffer with `room` bytes, with `avail_out` bytes wanted.
  unfoldable pub fill_buffer : ℕ → ℕ → ℕ → S → Outcome (Bytes × S)
  fill_buffer fuel room zero s = returns ([], s)
  fill_buffer zero room (suc n) s = runs_on
  fill_buffer (suc fuel) room (suc n) s =
      let (status, (out, s')) = bz.decompress s (suc n) in
      let rest = fill_buffer fuel (room - length out) (suc n - length out) s' in
      if ltb room (length out) then overruns else elim status as (λ _. Outcome (Bytes × S)) [
        | bz_error ↦ fails
        | _ ↦ rest >>= λ r. returns (out ++ r.0, r.1)
      ]

  -- `FillBuffer(*new_data + newpos, size, &stream)`
  unfoldable pub fill_at : ℕ → Bytes → ℤ → ℤ → S → Outcome (Bytes × S)
  fill_at fuel buf newpos size s =
      fill_buffer fuel (room_at (length buf) newpos) (to_avail size) s >>= λ r.
      returns (store buf newpos r.0, r.1)

  -- From the second check on: "Read extra string"
  unfoldable pub read_extra : ℕ → Progress S → ℤ → ℤ → Outcome (Progress S)
  read_extra fuel p extra seek =
      if ltb_ℤ (pos (length p.new_data)) (p.newpos +ℤ extra)
      then fails
      else (fill_at fuel p.new_data p.newpos extra p.estream >>= λ e. returns (record p {
        new_data = e.0;
        newpos = p.newpos +ℤ extra;
        oldpos = p.oldpos +ℤ seek;
        estream = e.1;
      }))

  -- From the first check on: "Read diff string"
  unfoldable pub read_diff : ℕ → Bytes → Progress S → ℤ → Outcome (Progress S)
  read_diff fuel old p diff =
      if ltb_ℤ (pos (length p.new_data)) (p.newpos +ℤ diff)
      then fails
      else (fill_at fuel p.new_data p.newpos diff p.dstream >>= λ d.
          add_to old d.0 p.oldpos p.newpos (pos_part diff) >>= λ buf. returns (record p {
            new_data = buf;
            newpos = p.newpos +ℤ diff;
            oldpos = p.oldpos +ℤ diff;
            dstream = d.1;
          }))

  -- A round of the loop.
  unfoldable pub apply_triple : ℕ → Bytes → Progress S → Outcome (Progress S)
  apply_triple fuel old p = fill_buffer fuel 24 24 p.cstream >>= λ c.
      read_diff fuel old (record p { cstream = c.1 }) (offtin c.0) >>= λ p'.
      read_extra fuel p' (offtin (drop 8 c.0)) (offtin (drop 16 c.0))

  unfoldable pub apply_loop : ℕ → ℕ → Bytes → Progress S → Outcome Bytes
  apply_loop fuel zero old p = runs_on
  apply_loop fuel (suc n) old p =
      let next = apply_triple fuel old p >>= apply_loop fuel n old in
      if ltb_ℤ p.newpos (pos (length p.new_data)) then next else returns p.new_data

  -- After the lengths were found not to be negative. A stream that would reach outside of the patch
  -- counts as an access outside of it.
  unfoldable pub open_streams : ℕ → (ℕ → Option Bytes) → Bytes → Bytes → ℕ → ℕ → ℕ → Outcome Bytes
  open_streams fuel malloc old header ctrl_len data_len new_size =
      let blocks = drop 32 header in
      if ltb (length blocks) (ctrl_len + data_len)
      then overruns
      else elim (malloc new_size) as (λ _. Outcome Bytes) [
        | none ↦ fails
        | some buf ↦ apply_loop fuel fuel old (record {
          new_data = buf;
          oldpos = pos 0;
          newpos = pos 0;
          cstream = bz.decompress_init (take ctrl_len blocks);
          dstream = bz.decompress_init (take data_len (drop ctrl_len blocks));
          estream = bz.decompress_init (drop (ctrl_len + data_len) blocks);
        })
      ]

  abbrev pub lengths_of : Bytes → (ℕ → ℕ → ℕ → Outcome Bytes) → Outcome Bytes
  lengths_of header k = elim (offtin (drop 8 header)) as (λ _. Outcome Bytes) [
    | negsuc _ ↦ fails
    | pos c ↦ elim (offtin (drop 16 header)) as (λ _. Outcome Bytes) [
      | negsuc _ ↦ fails
      | pos d ↦ elim (offtin (drop 24 header)) as (λ _. Outcome Bytes) [
        | negsuc _ ↦ fails
        | pos n ↦ k c d n
      ]
    ]
  ]

  -- `ApplyBSDiffPatchMem`; `malloc` gives the bytes of the block, `fuel` bounds the rounds of each
  -- of the loops.
  unfoldable pub apply_bs_diff_patch_mem :
      ℕ → (ℕ → Option Bytes) → Bytes → Bytes → ℕ → Outcome Bytes
  apply_bs_diff_patch_mem fuel malloc old patch patch_offset =
      let header = drop patch_offset patch in
      if ltb (length header) 8
      then overruns
      else (if not (str_eq (take 8 header) (codes "BSDIFF40"))
          then fails
          else (if ltb (length header) 32
              then overruns
              else lengths_of header (open_streams fuel malloc old header)))

  -- `ApplyBSDiffPatch`: what is returned, and the token and the hash after it. `sink` takes bytes
  -- and tells how many of them it wrote, `sha_update` is SHA_update; `ctx` may be NULL.
  unfoldable pub apply_bs_diff_patch :
      {T Ctx : Type 0}
      → (T → Bytes → ℤ × T)
      → (Ctx → Bytes → Ctx)
      → ℕ
      → (ℕ → Option Bytes)
      → Bytes
      → Bytes
      → ℕ
      → T
      → Option Ctx
      → Outcome (ℤ × (T × Option Ctx))
  apply_bs_diff_patch sink sha_update fuel malloc old patch patch_offset token ctx =
      elim (apply_bs_diff_patch_mem fuel malloc old patch patch_offset) [
        | fails ↦ returns (negsuc 0, (token, ctx))
        | overruns ↦ overruns
        | runs_on ↦ runs_on
        | returns new_data ↦
            let (written, token') = sink token new_data in
            if ltb_ℤ written (pos (length new_data))
            then returns (pos 1, (token', ctx))
            else returns
                (pos 0, (token', elim ctx [ none ↦ none | some c ↦ some (sha_update c new_data) ]))
      ]
