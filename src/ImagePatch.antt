-- ===== src/ImagePatch.antt =====
-- applypatch/imgpatch.c: `ApplyImagePatch`, which patches an image chunk by chunk. zlib and SHA are
-- not part of the repository: they are parameters. A size_t has 64 bits. Allocation fails only
-- where the source asks whether it did.
pub mod Numbers
pub mod Records
pub mod Chunks
pub mod Tracks
pub mod Hashed
mod Tests
use screenbox_rockchip_recov.Prelude.{
  ℕ, zero, suc, ◌+◌, ◌-◌, ◌%◌, ◌^◌, Bool, true, false, not, List, [], ◌∷◌, ◌++◌, Option, none, some,
  ltb, ◌==◌, if◌then◌else◌, length, take, drop, ◌||◌,
}
use screenbox_rockchip_recov.Prelude.Int.{ℤ, pos, negsuc, pos_part}
use screenbox_rockchip_recov.Prelude.Bytes.{Bytes, codes, str_eq}
use screenbox_rockchip_recov.Patch.{
  Bzip2, Outcome, returns, fails, overruns, runs_on, ◌>>=◌, apply_bs_diff_patch_mem,
  apply_bs_diff_patch,
}
use screenbox_rockchip_recov.ImagePatch.Numbers.{read4, read8}

-- CHUNK_NORMAL, CHUNK_DEFLATE, CHUNK_RAW
abbrev pub chunk_normal : ℕ
chunk_normal = 0

abbrev pub chunk_deflate : ℕ
chunk_deflate = 2

abbrev pub chunk_raw : ℕ
chunk_raw = 3

-- The numbers of a deflate chunk.
pub record DeflateHeader : Type 0 where
  pub src_start : ℕ
  pub src_len : ℕ
  pub patch_offset : ℕ
  pub expanded_len : ℕ
  pub target_len : ℕ
  pub level : ℤ
  pub method : ℤ
  pub window_bits : ℤ
  pub mem_level : ℤ
  pub strategy : ℤ

-- What the record of a chunk says: `src_start`, `src_len` and `patch_offset`; the raw bytes; or the
-- numbers of a deflate chunk.
pub data Chunk : Type 0 where
  normal : ℕ → ℕ → ℕ → Chunk
  raw : Bytes → Chunk
  deflated : DeflateHeader → Chunk

-- The calls of zlib, on streams `Z`.
pub record Zlib (Z : Type 0) : Type 0 where
  -- `inflateInit2(&strm, -15)`, where `next_in` and `avail_in` give these bytes; `none` if it does
  -- not return Z_OK
  pub inflate_init2 : Bytes → Option Z
  -- `inflate(&strm, Z_SYNC_FLUSH)`, with `avail_out`: if it returns Z_STREAM_END, and the output
  pub inflate : Z → ℕ → Bool × Bytes
  -- `deflateInit2(&strm, level, method, windowBits, memLevel, strategy)`, and the input
  pub deflate_init2 : ℤ → ℤ → ℤ → ℤ → ℤ → Bytes → Z
  -- `deflate(&strm, Z_FINISH)`, with `avail_out`
  pub deflate : Z → ℕ → Bool × (Bytes × Z)

-- Where the output goes: `sink` takes bytes and tells how many it wrote; SHA_update.
pub record Target (T Ctx : Type 0) : Type 0 where
  pub sink : T → Bytes → ℤ × T
  pub sha_update : Ctx → Bytes → Ctx

-- `token` and `*ctx`; `ctx` may be NULL.
pub record Output (T Ctx : Type 0) : Type 0 where
  pub token : T
  pub ctx : Option Ctx

-- The bytes from `start` on, `len` of them. If they are not all there, the code reads outside.
unfoldable pub slice : Bytes → ℕ → ℕ → Outcome Bytes
slice bytes start len =
    if ltb (length bytes) (start + len) then overruns else returns (take len (drop start bytes))

-- `pos + data_len`, and the raw bytes: a negative length is not refused, and reads outside.
unfoldable pub read_raw : Bytes → ℕ → ℤ → Outcome (Chunk × ℕ)
read_raw patch p (negsuc n) = overruns
read_raw patch p (pos n) =
    if ltb (length patch) (p + n) then fails else returns (raw (take n (drop p patch)), p + n)

abbrev pub deflate_header_of : Bytes → DeflateHeader
deflate_header_of h = record {
  src_start = read8 h;
  src_len = read8 (drop 8 h);
  patch_offset = read8 (drop 16 h);
  expanded_len = read8 (drop 24 h);
  target_len = read8 (drop 32 h);
  level = read4 (drop 40 h);
  method = read4 (drop 44 h);
  window_bits = read4 (drop 48 h);
  mem_level = read4 (drop 52 h);
  strategy = read4 (drop 56 h);
}

abbrev is_type : ℤ → ℕ → Bool
is_type (pos n) k = n == k
is_type (negsuc n) k = false

-- The record at `p`, and where the next one begins; `fails` is `return -1`.
unfoldable pub read_chunk : Bytes → ℕ → Outcome (Chunk × ℕ)
read_chunk patch p =
    let type = read4 (drop p patch) in
    let header = drop (p + 4) patch in
    let at_normal =
      if ltb (length patch) (p + 28)
      then fails
      else returns
          (normal (read8 header) (read8 (drop 8 header)) (read8 (drop 16 header)), p + 28) in
    let at_raw =
      if ltb (length patch) (p + 8) then fails else read_raw patch (p + 8) (read4 header) in
    let at_deflate =
      if ltb (length patch) (p + 64)
      then fails
      else returns (deflated (deflate_header_of header), p + 64) in
    if ltb (length patch) (p + 4)
    then fails
    else (if is_type type chunk_normal
        then at_normal
        else (if is_type type chunk_raw
            then at_raw
            else (if is_type type chunk_deflate then at_deflate else fails)))

-- `sink(...) != n`
abbrev pub is_short : ℤ → ℕ → Bool
is_short (pos n) k = not (n == k)
is_short (negsuc n) k = true

module _ {S Z T Ctx : Type 0} (bz : Bzip2 S) (z : Zlib Z) (target : Target T Ctx) (fuel : ℕ)
    (malloc : ℕ → Option Bytes) (old patch : Bytes) where
  -- `SHA_update(ctx, ...)`
  unfoldable pub update : Option Ctx → Bytes → Outcome (Option Ctx)
  update none bytes = overruns
  update (some c) bytes = returns (some (target.sha_update c bytes))

  -- "Now compress the target data and append it to the output": false is `return -1`.
  unfoldable pub deflate_loop : ℕ → ℕ → Z → Output T Ctx → Outcome (Bool × Output T Ctx)
  unfolding update
  deflate_loop zero size strm w = runs_on
  deflate_loop (suc n) size strm w =
      let (end, (have, strm')) = z.deflate strm size in
      let (written, token') = target.sink w.token have in
      let on = λ (w' : Output T Ctx). deflate_loop n size strm' w' in
      if is_short written (length have)
      then returns (false, record w { token = token' })
      else (update w.ctx have >>= λ ctx'.
          let w' : Output T Ctx = record { token = token'; ctx = ctx' } in
          let more = on w' in if end then returns (true, w') else more)

  -- A deflate chunk, after the source was inflated.
  unfoldable pub recompress : DeflateHeader → Bytes → Output T Ctx → Outcome (Bool × Output T Ctx)
  unfolding deflate_loop
  recompress h expanded w =
      let temp_size = if ltb h.expanded_len 32768 then 32768 else h.expanded_len in
      elim (apply_bs_diff_patch_mem bz fuel malloc expanded patch h.patch_offset)
        as (λ _. Outcome (Bool × Output T Ctx)) [
          | overruns ↦ overruns
          | runs_on ↦ runs_on
          | fails ↦ returns (false, w)
          | returns new ↦
              deflate_loop fuel temp_size
                (z.deflate_init2 h.level h.method h.window_bits h.mem_level h.strategy new) w
        ]

  -- A deflate chunk.
  unfoldable pub apply_deflate : DeflateHeader → Output T Ctx → Outcome (Bool × Output T Ctx)
  unfolding recompress slice
  apply_deflate h w = elim (malloc h.expanded_len) as (λ _. Outcome (Bool × Output T Ctx)) [
    | none ↦ returns (false, w)
    | some _ ↦ slice old h.src_start h.src_len >>= λ src.
        elim (z.inflate_init2 src) as (λ _. Outcome (Bool × Output T Ctx)) [
          | none ↦ returns (false, w)
          | some strm ↦
              let (end, expanded) = z.inflate strm h.expanded_len in
              let rest = recompress h expanded w in
              if not end || not (length expanded == h.expanded_len)
              then returns (false, w)
              else rest
        ]
  ]

  -- What is done for a chunk: false is `return -1`. The result of ApplyBSDiffPatch is not looked at.
  unfoldable pub apply_chunk : Chunk → Output T Ctx → Outcome (Bool × Output T Ctx)
  unfolding slice update apply_deflate
  apply_chunk (normal src_start src_len patch_offset) w = slice old src_start src_len >>= λ src.
      apply_bs_diff_patch bz target.sink target.sha_update fuel malloc src patch patch_offset
        w.token w.ctx
      >>= λ r. returns (true, record { token = r.1.0; ctx = r.1.1 })
  apply_chunk (raw bytes) w = update w.ctx bytes >>= λ ctx'.
      let (written, token') = target.sink w.token bytes in
      returns (not (is_short written (length bytes)), record { token = token'; ctx = ctx' })
  apply_chunk (deflated h) w = apply_deflate h w

  -- What is returned, and the output.
  abbrev pub Result : Type 0
  Result = Outcome (ℤ × Output T Ctx)

  abbrev pub next_chunk : (Output T Ctx → Result) → Bool × Output T Ctx → Result
  next_chunk k (true, w) = k w
  next_chunk k (false, w) = returns (negsuc 0, w)

  -- The loop, with `n` chunks to go.
  unfoldable pub chunk_loop : ℕ → ℕ → Output T Ctx → Result
  unfolding apply_chunk read_chunk read_raw
  chunk_loop zero p w = returns (pos 0, w)
  chunk_loop (suc n) p w = elim (read_chunk patch p) as (λ _. Result) [
    | fails ↦ returns (negsuc 0, w)
    | overruns ↦ overruns
    | runs_on ↦ runs_on
    | returns (c, p') ↦ apply_chunk c w >>= next_chunk (chunk_loop n p')
  ]

  -- `ApplyImagePatch`
  unfoldable pub apply_image_patch : Output T Ctx → Result
  unfolding chunk_loop
  apply_image_patch w =
      if ltb (length patch) 12
      then returns (negsuc 0, w)
      else (if not (str_eq (take 8 patch) (codes "IMGDIFF2"))
          then returns (negsuc 0, w)
          else chunk_loop (pos_part (read4 (drop 8 patch))) 12 w)
