-- ===== src/ApplyPatch/Apply/Posix.antt =====
-- What the proofs about applypatch/applypatch.c take of the calls on files: what they do to the
-- bytes of a file.
use screenbox_rockchip_recov.Prelude.{
  ℕ, ◌≤◌, ◌≡◌, ◌≢◌, ◌⊎◌, ap, ◌∙◌, true, [], ◌++◌, none, arith, inl, inr, length, take, drop,
  length-drop, take_all, ltb, Bool-cases,
}
use screenbox_rockchip_recov.Prelude.Int.{pos, ltb_ℤ}
use screenbox_rockchip_recov.Prelude.Bytes.{Bytes}
use screenbox_rockchip_recov.ImagePatch.Tracks.{Recorder}
use screenbox_rockchip_recov.Verifier.{Mincrypt}
use screenbox_rockchip_recov.Verifier.Hashing.{Streams}
use screenbox_rockchip_recov.ApplyPatch.Sinks.{
  file_sink, wrote_some, Appends, file_sink-IsWritten, MemorySinkInfo, memory_sink,
  memory_sink-taken, IsSink, taken,
}
use screenbox_rockchip_recov.ApplyPatch.Cache.{Disk}

-- The bytes of a file are `content d path`: what `open`, `write`, `close`, `chmod`, `chown`,
-- `rename` and `unlink` do to them.
pub record Posix {D : Type 0} (disk : Disk D) (content : D → Bytes → Bytes) : Type 0 where
  pub truncates :
      (d : D) (f : Bytes) → (disk.create d f).0 ≡ true → content (disk.create d f).1 f ≡ []
  pub appends : (f : Bytes) → Appends (λ d. disk.write d f) (λ d. content d f)
  pub closes : (d : D) (f : Bytes) → content (disk.close d f) f ≡ content d f
  pub chmods : (d : D) (f : Bytes) (mode : ℕ) → content (disk.chmod d f mode).1 f ≡ content d f
  pub chowns :
      (d : D) (f : Bytes) (uid gid : ℕ) → content (disk.chown d f uid gid).1 f ≡ content d f
  pub renames :
      (d : D) (f g : Bytes)
      → (disk.rename d f g).0 ≡ true
      → content (disk.rename d f g).1 g ≡ content d f
  pub unlinks : (d : D) (f g : Bytes) → f ≢ g → content (disk.unlink d f) g ≡ content d g

-- No call of `write` fails, where there is something to be written.
abbrev pub WritesAll : {D : Type 0} → Disk D → Type 0
WritesAll {D} disk =
    (d : D) (f bytes : Bytes) → wrote_some (disk.write d f bytes).0 ≡ none → bytes ≡ []

drop_none : (n : ℕ) (bs : Bytes) → n ≤ length bs → drop n bs ≡ [] → n ≡ length bs
drop_none n bs le e = omega (arith, length-drop n bs, ap length e)

module _ {Key Ctx : Type 0} (lib : Mincrypt Key Ctx Bytes) (streams : Streams lib) where
  -- A context that has been given just these bytes.
  abbrev pub IsHashed : Ctx → Bytes → Type 0
  IsHashed c bytes = c ≡ lib.sha_update lib.sha_init bytes

  pub update-IsHashed :
      (c : Ctx) (so_far bytes : Bytes)
      → IsHashed c so_far
      → IsHashed (lib.sha_update c bytes) (so_far ++ bytes)
  update-IsHashed c so_far bytes e =
      ap (λ c'. lib.sha_update c' bytes) e ∙ streams.1 lib.sha_init so_far bytes

  -- `MemorySink` takes all or nothing.
  pub memory-Recorder :
      Recorder
        (record { sink = memory_sink; sha_update = lib.sha_update })
        IsSink
        taken
        IsHashed
        (Unit {0})
  memory-Recorder = record { takes = takes; hashes = update-IsHashed }
    where
      takes :
          (m : MemorySinkInfo) (bytes : Bytes)
          → IsSink m
          → IsSink (memory_sink m bytes).1
            × ((((memory_sink m bytes).0 ≡ pos (length bytes))
                  × (taken (memory_sink m bytes).1 ≡ taken m ++ bytes))
                ⊎ ((ltb_ℤ (memory_sink m bytes).0 (pos (length bytes)) ≡ true)
                    × (Unit {0} → taken (memory_sink m bytes).1 ≡ taken m)))
      takes m bytes v =
          let (valid, size, r) = memory_sink-taken m bytes v in
          (
            valid,
            elim r [
              | inl took ↦ inl took
              | inr (full, same, _) ↦ inr (rw full (ground arith), λ _. ap taken same)
            ],
          )

  module _ {D : Type 0} (disk : Disk D) (content : D → Bytes → Bytes) (posix : Posix disk content)
      (f : Bytes) where
    -- `FileSink` takes all, or returns less; it takes all where no write fails.
    pub file-Recorder :
        Recorder
          (record {
            sink = λ d bytes.
                let (done, d') = file_sink (λ d'. disk.write d' f) d bytes in (pos done, d');
            sha_update = lib.sha_update;
          })
          (λ _. Unit {0})
          (λ d. content d f)
          IsHashed
          (WritesAll disk)
    file-Recorder = record { takes = takes; hashes = update-IsHashed }
      where
        takes :
            (d : D) (bytes : Bytes)
            → Unit {0}
            → Unit {0}
              × (((pos (file_sink (λ d'. disk.write d' f) d bytes).0 ≡ pos (length bytes))
                    × (content (file_sink (λ d'. disk.write d' f) d bytes).1 f
                        ≡ content d f ++ bytes))
                  ⊎ ((ltb_ℤ (pos (file_sink (λ d'. disk.write d' f) d bytes).0) (pos (length bytes))
                        ≡ true)
                      × (WritesAll disk
                          → content (file_sink (λ d'. disk.write d' f) d bytes).1 f ≡ content d f)))
        takes d bytes _ =
            let ((le, e), complete) =
              file_sink-IsWritten (λ d'. disk.write d' f) (λ d'. content d' f) (posix.appends f) d
                bytes in
            elim (Bool-cases (ltb (file_sink (λ d'. disk.write d' f) d bytes).0 (length bytes))) [
              | inl few ↦ (
                tt,
                inr (
                  ground (arith, few),
                  λ writes. elim complete [
                    | inl same ↦ ground (arith, few, same)
                    | inr (d', failed) ↦
                        let same = drop_none _ bytes le (writes d' f _ failed) in
                        ground (arith, few, same)
                  ],
                ),
              )
              | inr many ↦
                  let all : (file_sink (λ d'. disk.write d' f) d bytes).0 ≡ length bytes =
                    ground (arith, le, many) in
                  (
                    tt,
                    inl (
                      ap pos all,
                      e
                          ∙ ap (λ l. content d f ++ l)
                              (ap (λ n. take n bytes) all ∙ take_all _ bytes (omega arith)),
                    ),
                  )
            ]
