-- ===== src/ApplyPatch/Apply/Hashed.antt =====
-- applypatch/applypatch.c: the hash at the end of the loop of `applypatch` is that of the output.
use screenbox_rockchip_recov.Prelude.{
  ℕ, zero, suc, Bool, true, false, not, [], Option, none, some, ◌==◌, if◌then◌else◌,
}
use screenbox_rockchip_recov.Prelude.Int.{ℤ, pos, negsuc}
use screenbox_rockchip_recov.Prelude.Bytes.{Bytes, codes}
use screenbox_rockchip_recov.Patch.{Outcome, returns, ◌>>=◌}
use screenbox_rockchip_recov.ImagePatch.{Target, Output}
use screenbox_rockchip_recov.Edify.Run.{val_blob}
use screenbox_rockchip_recov.ApplyPatch.Check.{is_partition}
use screenbox_rockchip_recov.ApplyPatch.Sinks.{MemorySinkInfo, memory_sink, taken}
use screenbox_rockchip_recov.ApplyPatch.Apply.{
  Host, Arguments, target_of, Selection, outname_of, Round, Produced,
}
use screenbox_rockchip_recov.Prelude.{◌≡◌, ◌⊎◌, refl, sym, ap, inl, arith}
use screenbox_rockchip_recov.Patch.Outcomes.{Gives, Gives-bind, Gives-if, anything, Allocates}
use screenbox_rockchip_recov.ApplyPatch.Sinks.{IsSink}
use screenbox_rockchip_recov.ImagePatch.Tracks.{
  Recorder, Tracks, SucceedsAtEnd, apply_bs_diff_patch-Follows, apply_image_patch-Succeeds,
}
use screenbox_rockchip_recov.Verifier.Hashing.{Streams}
use screenbox_rockchip_recov.ApplyPatch.Apply.Posix.{
  Posix, WritesAll, IsHashed, memory-Recorder, file-Recorder,
}
use screenbox_rockchip_recov.ApplyPatch.Apply.Rounds.{
  run_patch, is_zero, patch_bytes, has_header, patch_partition, output_sink, patch_file, produce,
  Attempt, conclude, carry_on, rounds, prepare,
}

module _ {D S Z Key Ctx R : Type 0} (h : Host D S Z Key Ctx R) (a : Arguments)
    (streams : Streams h.lib) (allocates : Allocates h.bz h.malloc) (content : D → Bytes → Bytes)
    (posix : Posix h.disk content) where
  -- What the patch has put out: in memory, or in the output file.
  abbrev pub output_of : Option MemorySinkInfo → D → Bytes
  output_of none d = content d (outname_of (target_of a))
  output_of (some msi) d = taken msi

  -- There is memory for the output exactly if the target is a partition.
  abbrev pub FitsTarget : Option MemorySinkInfo → Type 0
  FitsTarget none = is_partition (target_of a) ≡ false
  FitsTarget (some msi) = is_partition (target_of a) ≡ true

  -- The context of the round is the hash of what it put out.
  abbrev pub IsHashOf : Round Ctx → D → Type 0
  IsHashOf r d =
      FitsTarget r.msi
      × ((c : Ctx) × (r.ctx ≡ some c) × IsHashed h.lib streams c (output_of r.msi d))

  abbrev RunOk : {T : Type 0} → (T → Type 0) → (T → Bytes) → Option (ℤ × Output T Ctx) → Type 0
  RunOk Valid written none = Unit
  RunOk Valid written (some (result, w)) =
      is_zero result ≡ true → Tracks Valid written (IsHashed h.lib streams) w

  abbrev RoundOk : Option (Round Ctx) × D → Type 0
  RoundOk (none, d) = Unit
  RoundOk (some r, d) = r.succeeded ≡ true → IsHashOf r d

  abbrev pub AttemptOk : Option (Produced Ctx) × D → Type 0
  AttemptOk (none, d) = Unit
  AttemptOk (some p, d) = IsHashOf p.last d

  zero_result : (z : ℤ) → is_zero z ≡ true → z ≡ pos 0
  zero_result (pos n) e = ap pos (ground (arith, e))
  zero_result (negsuc n) e = ground (arith, e)

  module _ (s : Selection)
      (images : has_header h a s (codes "IMGDIFF2") ≡ true → WritesAll h.disk) where
    run_patch-RunOk :
        {T : Type 0} (sink : T → Bytes → ℤ × T) (Valid : T → Type 0) (written : T → Bytes)
        (Refuses : Type 0)
        → (has_header h a s (codes "IMGDIFF2") ≡ true → Refuses)
        → Recorder
            (record { sink = sink; sha_update = h.lib.sha_update })
            Valid
            written
            (IsHashed h.lib streams)
            Refuses
        → (token : T) → Valid token
        → written token ≡ []
        → Gives (RunOk Valid written) (run_patch h a s sink token)
    unfolding run_patch
    run_patch-RunOk {T} sink Valid written Refuses refuses recorder token v empty =
        Gives-if (RunOk Valid written) (has_header h a s (codes "BSDIFF40")) _ _
          (λ _.
            Gives-bind
              (λ (r : ℤ × (T × Option Ctx)).
                ((r.0 ≡ pos 0) ⊎ Refuses)
                → Tracks Valid written (IsHashed h.lib streams)
                    (record { token = r.1.0; ctx = r.1.1 }))
              (RunOk Valid written) _ ended
              (apply_bs_diff_patch-Follows h.bz h.z target Valid written (IsHashed h.lib streams)
                Refuses recorder h.fuel h.malloc s.to_use.bytes (patch_bytes h a s) s.to_use.bytes
                (patch_bytes h a s) 0 w begun)
              (λ r follows ok. follows (inl (zero_result r.0 ok))))
          (λ _.
            Gives-if (RunOk Valid written) (has_header h a s (codes "IMGDIFF2")) _ (returns none)
              (λ image.
                Gives-bind
                  (SucceedsAtEnd h.bz h.z target Valid written (IsHashed h.lib streams) Refuses
                    recorder h.fuel h.malloc s.to_use.bytes (patch_bytes h a s))
                  (RunOk Valid written) _ kept
                  (apply_image_patch-Succeeds h.bz h.z target Valid written (IsHashed h.lib streams)
                    Refuses recorder h.fuel h.malloc s.to_use.bytes (patch_bytes h a s)
                    (refuses image) w begun)
                  (λ r follows ok. follows (inl (zero_result r.0 ok))))
              (λ _. tt))
      where
        target : Target T Ctx
        target = record { sink = sink; sha_update = h.lib.sha_update }

        w : Output T Ctx
        w = record { token = token; ctx = some h.lib.sha_init }

        kept : ℤ × Output T Ctx → Outcome (Option (ℤ × Output T Ctx))
        kept r = returns (some r)

        ended : ℤ × (T × Option Ctx) → Outcome (Option (ℤ × Output T Ctx))
        ended r = returns (some (r.0, record { token = r.1.0; ctx = r.1.1 }))

        begun : Tracks Valid written (IsHashed h.lib streams) w
        begun = (v, (h.lib.sha_init, refl, rw empty (sym (streams.0 h.lib.sha_init))))

    file-RoundOk :
        (o : Option (ℤ × Output D Ctx)) (d : D)
        → is_partition (target_of a) ≡ false
        → RunOk (λ _. Unit {0}) (λ d'. content d' (outname_of (target_of a))) o
        → RoundOk (elim o as (λ _. Option (Round Ctx) × D) [
          | none ↦ (none, d)
          | some (result, w) ↦ (
            some (record { succeeded = is_zero result; msi = none; ctx = w.ctx }),
            h.disk.close w.token (outname_of (target_of a)),
          )
        ])
    file-RoundOk none d file ok = tt
    file-RoundOk (some (result, w)) d file ok = λ e. closed (ok e)
      where
        closed :
            Tracks
              (λ _. Unit {0})
              (λ d'. content d' (outname_of (target_of a)))
              (IsHashed h.lib streams)
              w
            → IsHashOf
                (record { succeeded = is_zero result; msi = none; ctx = w.ctx })
                (h.disk.close w.token (outname_of (target_of a)))
        closed (_, (c, e, same)) =
            (file, (c, e, rw (posix.closes w.token (outname_of (target_of a))) same))

    memory-RoundOk :
        (o : Option (ℤ × Output MemorySinkInfo Ctx)) (d : D)
        → is_partition (target_of a) ≡ true
        → RunOk IsSink (λ m. taken m) o
        → RoundOk (elim o as (λ _. Option (Round Ctx) × D) [
          | none ↦ (none, d)
          | some (result, w) ↦
              (some (record { succeeded = is_zero result; msi = some w.token; ctx = w.ctx }), d)
        ])
    memory-RoundOk none d partition ok = tt
    memory-RoundOk (some (result, w)) d partition ok =
        λ e. let follows = ok e in (partition, follows.1)

    patch_file-RoundOk :
        (d : D) → is_partition (target_of a) ≡ false → Gives RoundOk (patch_file h a s d)
    unfolding patch_file
    patch_file-RoundOk d file =
        Gives-if RoundOk (h.disk.create d (outname_of (target_of a))).0 _ _
          (λ opened.
            Gives-bind (RunOk (λ _. Unit {0}) (λ d'. content d' (outname_of (target_of a)))) RoundOk
              _ _
              (run_patch-RunOk (output_sink h a s) (λ _. Unit {0})
                (λ d'. content d' (outname_of (target_of a))) (WritesAll h.disk) images
                (file-Recorder h.lib streams h.disk content posix (outname_of (target_of a)))
                (h.disk.create d (outname_of (target_of a))).1 tt
                (posix.truncates d (outname_of (target_of a)) opened))
              (λ o ok. file-RoundOk o _ file ok))
          (λ _. tt)

    patch_partition-RoundOk :
        (d : D) → is_partition (target_of a) ≡ true → Gives RoundOk (patch_partition h a s d)
    unfolding patch_partition
    patch_partition-RoundOk d partition = by_memory (h.malloc a.target_size) refl
      where
        by_memory :
            (o : Option Bytes)
            → h.malloc a.target_size ≡ o
            → Gives RoundOk (elim o as (λ _. Outcome (Option (Round Ctx) × D)) [
              | none ↦ returns (none, d)
              | some buf ↦
                  run_patch h a s memory_sink
                    (record { buffer = buf; size = a.target_size; position = 0 })
                  >>= λ r. returns (elim r as (λ _. Option (Round Ctx) × D) [
                    | none ↦ (none, d)
                    | some (result, w) ↦ (
                      some (record { succeeded = is_zero result; msi = some w.token; ctx = w.ctx }),
                      d,
                    )
                  ])
            ])
        by_memory none e = tt
        by_memory (some buf) e =
            Gives-bind (RunOk IsSink (λ m. taken m)) RoundOk _ _
              (run_patch-RunOk memory_sink IsSink (λ m. taken m) (Unit {0}) (λ _. tt)
                (memory-Recorder h.lib streams)
                (record { buffer = buf; size = a.target_size; position = 0 })
                (allocates a.target_size buf e, omega arith) refl)
              (λ o ok. memory-RoundOk o d partition ok)

    produce-RoundOk : (d : D) → Gives RoundOk (produce h a s d)
    unfolding produce
    produce-RoundOk d =
        Gives-if RoundOk (not (s.patch.type == val_blob)) _ _ (λ _. tt)
          (λ _.
            Gives-if RoundOk (is_partition (target_of a)) _ _ (patch_partition-RoundOk d)
              (patch_file-RoundOk d))

    abbrev GoesOn : Option (D → Attempt h a s) → Type 0
    GoesOn none = Unit
    GoesOn (some go) = (d : D) → Gives AttemptOk (go d)

    conclude-AttemptOk :
        (again : Option (D → Attempt h a s)) (made_copy : Bool) (r : Option (Round Ctx) × D)
        → GoesOn again
        → RoundOk r
        → Gives AttemptOk (conclude h a s again made_copy r)
    unfolding conclude
    conclude-AttemptOk again made_copy (none, d) go ok = tt
    conclude-AttemptOk again made_copy (some round, d) go ok =
        Gives-if AttemptOk round.succeeded _ _ ok (λ _. further again round.msi go)
      where
        further :
            (again' : Option (D → Attempt h a s)) (msi : Option MemorySinkInfo)
            → GoesOn again'
            → Gives AttemptOk (elim again' as (λ _. Attempt h a s) [
              | none ↦ returns (none, d)
              | some go ↦ elim msi as (λ _. Attempt h a s) [
                | some _ ↦ go d
                | none ↦ go (h.disk.unlink d (outname_of (target_of a)))
              ]
            ])
        further none msi go' = tt
        further (some k) none go' = go' (h.disk.unlink d (outname_of (target_of a)))
        further (some k) (some m) go' = go' d

    abbrev Next : Option (Bool → D → Attempt h a s) → Type 0
    Next none = Unit
    Next (some go) = (made_copy : Bool) (d : D) → Gives AttemptOk (go made_copy d)

    carry_on-AttemptOk :
        (next : Option (Bool → D → Attempt h a s)) (p : Option (Bool × Bool) × D)
        → Next next
        → Gives AttemptOk (carry_on h a s next p)
    unfolding carry_on
    carry_on-AttemptOk next (none, d) ok = tt
    carry_on-AttemptOk next (some (keeps, made_copy), d) ok =
        Gives-bind RoundOk AttemptOk (produce h a s d) _ (produce-RoundOk d)
          (λ r r-ok. conclude-AttemptOk _ made_copy r (goes_on next keeps ok) r-ok)
      where
        goes_on :
            (o : Option (Bool → D → Attempt h a s)) (k : Bool)
            → Next o
            → GoesOn (elim o as (λ _. Option (D → Attempt h a s)) [
              | none ↦ none
              | some go ↦ if k then some (go made_copy) else none
            ])
        goes_on none k n = tt
        goes_on (some go) true n = n made_copy
        goes_on (some go) false n = tt

    pub rounds-AttemptOk :
        (retry : ℕ) (made_copy : Bool) (d : D) → Gives AttemptOk (rounds h a s retry made_copy d)
    unfolding rounds
    rounds-AttemptOk zero made_copy d =
        Gives-bind (λ _. Unit {0}) AttemptOk _ _ (anything (prepare h a s false made_copy d))
          (λ p _. carry_on-AttemptOk none p tt)
    rounds-AttemptOk (suc retry) made_copy d =
        Gives-bind (λ _. Unit {0}) AttemptOk _ _ (anything (prepare h a s true made_copy d))
          (λ p _. carry_on-AttemptOk (some (rounds h a s retry)) p (rounds-AttemptOk retry))
