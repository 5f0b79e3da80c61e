-- ===== src/ImagePatch/Records.antt =====
-- applypatch/imgdiff.c, the end of `main`: the records of chunks that it writes, which
-- `ApplyImagePatch` reads back.
use screenbox_rockchip_recov.Prelude.{
  ℕ, ◌+◌, ◌-◌, ◌^◌, ◌≤◌, ◌<◌, ◌≡◌, refl, sym, ap, ◌∙◌, false, ◌++◌, arith, ltb, length,
  length-append, length-drop, drop, take-append_eq, drop-append_eq, drop-drop,
}
use screenbox_rockchip_recov.Prelude.Int.{ℤ, pos}
use screenbox_rockchip_recov.Prelude.Bytes.{Bytes}
use screenbox_rockchip_recov.Patch.{returns}
use screenbox_rockchip_recov.ImagePatch.{
  DeflateHeader, Chunk, normal, raw, deflated, read_raw, read_chunk, chunk_normal, chunk_raw,
  chunk_deflate, deflate_header_of,
}
use screenbox_rockchip_recov.ImagePatch.Numbers.{
  write4, write8, read4, read8, IsInt, read4-write4, read8-write8, length-write4, length-write8,
}

abbrev write_deflate : DeflateHeader → Bytes → Bytes
write_deflate h rest =
    write8 h.src_start
    ++ (write8 h.src_len
        ++ (write8 h.patch_offset
            ++ (write8 h.expanded_len
                ++ (write8 h.target_len
                    ++ (write4 h.level
                        ++ (write4 h.method
                            ++ (write4 h.window_bits
                                ++ (write4 h.mem_level ++ (write4 h.strategy ++ rest)))))))))

-- The record of a chunk, before `rest`.
abbrev pub write_chunk : Chunk → Bytes → Bytes
write_chunk (normal s l o) rest =
    write4 (pos chunk_normal) ++ (write8 s ++ (write8 l ++ (write8 o ++ rest)))
write_chunk (raw bytes) rest =
    write4 (pos chunk_raw) ++ (write4 (pos (length bytes)) ++ (bytes ++ rest))
write_chunk (deflated h) rest = write4 (pos chunk_deflate) ++ write_deflate h rest

-- The numbers are in the ranges of their types.
pub record AreSizes (h : DeflateHeader) : Type 0 where
  pub starts : h.src_start < 2 ^ 64
  pub long : h.src_len < 2 ^ 64
  pub offset : h.patch_offset < 2 ^ 64
  pub expanded : h.expanded_len < 2 ^ 64
  pub target : h.target_len < 2 ^ 64
  pub level : IsInt h.level
  pub method : IsInt h.method
  pub window_bits : IsInt h.window_bits
  pub mem_level : IsInt h.mem_level
  pub strategy : IsInt h.strategy

abbrev pub IsEncodable : Chunk → Type 0
IsEncodable (normal s l o) = (s < 2 ^ 64) × (l < 2 ^ 64) × (o < 2 ^ 64)
IsEncodable (raw bytes) = length bytes < 2 ^ 31
IsEncodable (deflated h) = AreSizes h

-- The bytes of a record.
abbrev pub record_size : Chunk → ℕ
record_size (normal s l o) = 28
record_size (raw bytes) = 8 + length bytes
record_size (deflated h) = 64

after4 :
    (x : ℤ) (k j : ℕ) (rest all : Bytes)
    → drop k all ≡ write4 x ++ rest
    → j ≡ k + 4
    → drop j all ≡ rest
after4 x k j rest all e same =
    drop-drop k 4 j all same
    ∙ ap (drop 4) e
    ∙ drop-append_eq 4 (write4 x) rest (sym (length-write4 x))

after8 :
    (n k j : ℕ) (rest all : Bytes) → drop k all ≡ write8 n ++ rest → j ≡ k + 8 → drop j all ≡ rest
after8 n k j rest all e same =
    drop-drop k 8 j all same
    ∙ ap (drop 8) e
    ∙ drop-append_eq 8 (write8 n) rest (sym (length-write8 n))

pub at4 : (x : ℤ) (rest bytes : Bytes) → IsInt x → bytes ≡ write4 x ++ rest → read4 bytes ≡ x
at4 x rest bytes h e = ap read4 e ∙ read4-write4 x rest h

at8 : (n : ℕ) (rest bytes : Bytes) → n < 2 ^ 64 → bytes ≡ write8 n ++ rest → read8 bytes ≡ n
at8 n rest bytes h e = ap read8 e ∙ read8-write8 n rest h

length-write8-append : (n : ℕ) (r : Bytes) → length (write8 n ++ r) ≡ 8 + length r
length-write8-append n r = length-append (write8 n) r ∙ ap (λ k. k + length r) (length-write8 n)

length-write4-append : (x : ℤ) (r : Bytes) → length (write4 x ++ r) ≡ 4 + length r
length-write4-append x r = length-append (write4 x) r ∙ ap (λ k. k + length r) (length-write4 x)

pub length-write_chunk :
    (c : Chunk) (rest : Bytes) → length (write_chunk c rest) ≡ record_size c + length rest
length-write_chunk (normal s l o) rest =
    simp (length-write4-append, length-write8-append) (omega arith)
length-write_chunk (raw bytes) rest = simp (length-write4-append, length-append) (omega arith)
length-write_chunk (deflated h) rest =
    simp (length-write4-append, length-write8-append) (omega arith)

record_fits :
    (patch : Bytes) (p : ℕ) (c : Chunk) (rest : Bytes)
    → drop p patch ≡ write_chunk c rest
    → p + record_size c ≤ length patch
record_fits patch p c rest e =
    let size = length-write_chunk c rest in
    let left : length patch - p ≡ length (write_chunk c rest) =
      sym (length-drop p patch) ∙ ap (λ (l : Bytes). length l) e in
    some_bytes c (left ∙ size)
  where
    some_bytes :
        (c : Chunk)
        → length patch - p ≡ record_size c + length rest
        → p + record_size c ≤ length patch
    some_bytes (normal s l o) e = omega arith
    some_bytes (raw bytes) e = omega arith
    some_bytes (deflated h) e = omega arith

-- The header behind the type of a deflate chunk.
deflate_header_of-write_deflate :
    (b : Bytes) (h : DeflateHeader) (rest : Bytes)
    → b ≡ write_deflate h rest
    → AreSizes h
    → deflate_header_of b ≡ h
deflate_header_of-write_deflate b h rest e₀ v =
    let e₈ = after8 h.src_start 0 8 _ b e₀ refl in
    let e₁₆ = after8 h.src_len 8 16 _ b e₈ refl in
    let e₂₄ = after8 h.patch_offset 16 24 _ b e₁₆ refl in
    let e₃₂ = after8 h.expanded_len 24 32 _ b e₂₄ refl in
    let e₄₀ = after8 h.target_len 32 40 _ b e₃₂ refl in
    let e₄₄ = after4 h.level 40 44 _ b e₄₀ refl in
    let e₄₈ = after4 h.method 44 48 _ b e₄₄ refl in
    let e₅₂ = after4 h.window_bits 48 52 _ b e₄₈ refl in
    let e₅₆ = after4 h.mem_level 52 56 _ b e₅₂ refl in
    λ i. record {
      src_start = at8 h.src_start _ b v.starts e₀ i;
      src_len = at8 h.src_len _ (drop 8 b) v.long e₈ i;
      patch_offset = at8 h.patch_offset _ (drop 16 b) v.offset e₁₆ i;
      expanded_len = at8 h.expanded_len _ (drop 24 b) v.expanded e₂₄ i;
      target_len = at8 h.target_len _ (drop 32 b) v.target e₃₂ i;
      level = at4 h.level _ (drop 40 b) v.level e₄₀ i;
      method = at4 h.method _ (drop 44 b) v.method e₄₄ i;
      window_bits = at4 h.window_bits _ (drop 48 b) v.window_bits e₄₈ i;
      mem_level = at4 h.mem_level _ (drop 52 b) v.mem_level e₅₂ i;
      strategy = at4 h.strategy _ (drop 56 b) v.strategy e₅₆ i;
    }

pub read_chunk-write_chunk :
    (patch : Bytes) (p : ℕ) (c : Chunk) (rest : Bytes)
    → drop p patch ≡ write_chunk c rest
    → IsEncodable c
    → read_chunk patch p ≡ returns (c, p + record_size c)
unfolding read_chunk read_raw
read_chunk-write_chunk patch p (normal s l o) rest e v =
    let long : ltb (length patch) (p + 28) ≡ false =
      ground (arith, record_fits patch p (normal s l o) rest e) in
    let start : ltb (length patch) (p + 4) ≡ false = ground arith in
    let type = at4 (pos chunk_normal) _ (drop p patch) (omega arith) e in
    let e₀ = after4 (pos chunk_normal) p (p + 4) _ patch e refl in
    let h = drop (p + 4) patch in
    let e₈ = after8 s 0 8 _ h e₀ refl in
    let e₁₆ = after8 l 8 16 _ h e₈ refl in
    rw (type, start, long, at8 s _ h v.0 e₀, at8 l _ (drop 8 h) v.1 e₈, at8 o _ (drop 16 h) v.2 e₁₆)
      refl
read_chunk-write_chunk patch p (raw bytes) rest e v =
    let fits = record_fits patch p (raw bytes) rest e in
    let long : ltb (length patch) (p + 8) ≡ false = ground arith in
    let start : ltb (length patch) (p + 4) ≡ false = ground arith in
    let whole : ltb (length patch) (p + 8 + length bytes) ≡ false = ground arith in
    let type = at4 (pos chunk_raw) _ (drop p patch) (omega arith) e in
    let e₄ = after4 (pos chunk_raw) p (p + 4) _ patch e refl in
    let e₈ = after4 (pos (length bytes)) (p + 4) (p + 8) _ patch e₄ (omega arith) in
    let same : p + 8 + length bytes ≡ p + (8 + length bytes) = omega arith in
    rw
      (
        type,
        start,
        long,
        at4 (pos (length bytes)) _ (drop (p + 4) patch) v e₄,
        whole,
        e₈,
        take-append_eq (length bytes) bytes rest refl,
        same,
      )
      refl
read_chunk-write_chunk patch p (deflated h) rest e v =
    let long : ltb (length patch) (p + 64) ≡ false =
      ground (arith, record_fits patch p (deflated h) rest e) in
    let start : ltb (length patch) (p + 4) ≡ false = ground arith in
    let type = at4 (pos chunk_deflate) _ (drop p patch) (omega arith) e in
    let e₀ = after4 (pos chunk_deflate) p (p + 4) _ patch e refl in
    rw (type, start, long, deflate_header_of-write_deflate (drop (p + 4) patch) h rest e₀ v) refl

-- What follows the record.
pub drop-write_chunk : (c : Chunk) (rest : Bytes) → drop (record_size c) (write_chunk c rest) ≡ rest
drop-write_chunk (normal s l o) rest =
    let b = write_chunk (normal s l o) rest in
    let e₄ = after4 (pos chunk_normal) 0 4 _ b refl refl in
    let e₁₂ = after8 s 4 12 _ b e₄ refl in
    let e₂₀ = after8 l 12 20 _ b e₁₂ refl in after8 o 20 28 _ b e₂₀ refl
drop-write_chunk (raw bytes) rest =
    let b = write_chunk (raw bytes) rest in
    let e₄ = after4 (pos chunk_raw) 0 4 _ b refl refl in
    let e₈ = after4 (pos (length bytes)) 4 8 _ b e₄ refl in
    drop-drop 8 (length bytes) (8 + length bytes) b refl
    ∙ ap (drop (length bytes)) e₈
    ∙ drop-append_eq (length bytes) bytes rest refl
drop-write_chunk (deflated h) rest =
    let b = write_chunk (deflated h) rest in
    let e₄ = after4 (pos chunk_deflate) 0 4 _ b refl refl in
    let e₁₂ = after8 h.src_start 4 12 _ b e₄ refl in
    let e₂₀ = after8 h.src_len 12 20 _ b e₁₂ refl in
    let e₂₈ = after8 h.patch_offset 20 28 _ b e₂₀ refl in
    let e₃₆ = after8 h.expanded_len 28 36 _ b e₂₈ refl in
    let e₄₄ = after8 h.target_len 36 44 _ b e₃₆ refl in
    let e₄₈ = after4 h.level 44 48 _ b e₄₄ refl in
    let e₅₂ = after4 h.method 48 52 _ b e₄₈ refl in
    let e₅₆ = after4 h.window_bits 52 56 _ b e₅₂ refl in
    let e₆₀ = after4 h.mem_level 56 60 _ b e₅₆ refl in after4 h.strategy 60 64 _ b e₆₀ refl
