-- ===== src/ApplyPatch/Write.antt =====
-- applypatch/applypatch.c: `WriteToPartition`, over the volumes of roots.c and the device of
-- mtdutils/mtdutils.c.
mod Tests
use screenbox_rockchip_recov.Prelude.{
  ℕ, ◌+◌, ◌≡◌, ◌<◌, refl, sym, ap, ◌∙◌, Bool, true, false, not, List, [], ◌∷◌, ◌++◌, Option, none,
  some, arith, Bool-cases, inl, inr, ◌==◌, if◌then◌else◌, length,
}
use screenbox_rockchip_recov.Prelude.Bytes.{Bytes}
use screenbox_rockchip_recov.Mtd.Partitions.{MtdPartition, MtdState, mtd_find_partition_by_name}
use screenbox_rockchip_recov.Mtd.Flash.{Partition}
use screenbox_rockchip_recov.Mtd.Block.{Media}
use screenbox_rockchip_recov.Mtd.Write.{
  WriteContext, mtd_write_data, mtd_erase_blocks, mtd_write_close,
}
use screenbox_rockchip_recov.Mtd.Write.Blocks.{IsValid}
use screenbox_rockchip_recov.Mtd.Write.Erased.{ClosedErased, mtd_erase_blocks-Stored}
use screenbox_rockchip_recov.Roots.{System, RootsState, M, ◌>>=◌, pure, crash}
use screenbox_rockchip_recov.Roots.Mount.{find_partition}
use screenbox_rockchip_recov.Roots.Format.{mtd_write_partition}
use screenbox_rockchip_recov.Roots.Success.{OnTrue, OnTrue-bind, OnTrue-given}
use screenbox_rockchip_recov.ApplyPatch.Load.{PartitionType, mtd, emmc, tokens, type_of, next_token}

module _ {D : Type 0} (io : System D) where
  abbrev wrote_all : Option ℕ → ℕ → Bool
  wrote_all none len = false
  wrote_all (some written) len = written == len

  -- The three calls on the context; it is closed on each way out.
  unfoldable pub write_session : WriteContext D → Bytes → Bool × D
  unfolding mtd_write_data mtd_erase_blocks mtd_write_close
  write_session ctx bytes =
      let (written, ctx') = mtd_write_data io.flash ctx bytes in
      let (erased, ctx'') = mtd_erase_blocks io.flash ctx' none in
      if not (wrote_all written (length bytes))
      then (false, (mtd_write_close io.flash ctx').1)
      else elim erased as (λ _. Bool × D) [
        | none ↦ (false, (mtd_write_close io.flash ctx'').1)
        | some end ↦ mtd_write_close io.flash ctx''
      ]

  refused : ¬ (false ≡ true)
  refused e = ground (arith, e)

  -- In a session that succeeds, the bytes are stored on the partition, from where the device stood.
  pub write_session-Stored :
      (ctx : WriteContext D) (bytes : Bytes) (d : D)
      → IsValid ctx
      → write_session ctx bytes ≡ (true, d)
      → ClosedErased io.flash ctx bytes d
  unfolding write_session
  write_session-Stored ctx bytes d v h =
      by_results (mtd_write_data io.flash ctx bytes).0 refl
        (mtd_erase_blocks io.flash (mtd_write_data io.flash ctx bytes).1 none).0 refl _ refl _ _ h
    where
      by_results :
          (o : Option ℕ)
          → (mtd_write_data io.flash ctx bytes).0 ≡ o
          → (e : Option ℕ)
          → (mtd_erase_blocks io.flash (mtd_write_data io.flash ctx bytes).1 none).0 ≡ e
          → (r : Bool × D)
          → mtd_write_close io.flash
              (mtd_erase_blocks io.flash (mtd_write_data io.flash ctx bytes).1 none).1
            ≡ r
          → (d₁ d₂ : D)
          → (if not (wrote_all o (length bytes))
              then (false, d₁)
              else elim e as (λ _. Bool × D) [ none ↦ (false, d₂) | some end ↦ r ])
            ≡ (true, d)
          → ClosedErased io.flash ctx bytes d
      by_results none wrote e erased r closed d₁ d₂ q = absurd (refused (ap (λ x. x.0) q))
      by_results (some n) wrote none erased r closed d₁ d₂ q =
          elim (Bool-cases (n == length bytes)) [
            | inl all ↦ absurd (refused (ap (λ x. x.0) (rw all at q)))
            | inr short ↦ absurd (refused (ap (λ x. x.0) (rw short at q)))
          ]
      by_results (some n) wrote (some end) erased r closed d₁ d₂ q =
          elim (Bool-cases (n == length bytes)) [
            | inl all ↦
                mtd_erase_blocks-Stored io.flash ctx bytes d n end v wrote erased
                  (closed ∙ (rw all at q))
            | inr short ↦ absurd (refused (ap (λ x. x.0) (rw short at q)))
          ]

-- The calls on the file of an EMMC device: `fopen(partition, "wb")`, `fwrite` of all of the bytes,
-- `fclose`.
pub record Emmc (D : Type 0) : Type 0 where
  pub fopen : D → Bytes → Option D
  pub fwrite : D → Bytes → Bool × D
  pub fclose : D → Bool × D

module _ {D : Type 0} (io : System D) (emmc_io : Emmc D) where
  -- `mtd_find_partition_by_name`, after a first scan: `scanned` is `mtd_partitions_scanned`.
  unfoldable pub look_up : Bool → Bytes → M D (Option MtdPartition)
  look_up scanned name s =
      let found = elim s.mtd as (λ _. Option MtdPartition) [
        | none ↦ none
        | some t ↦ mtd_find_partition_by_name name t.partitions
      ] in
      if scanned then some (found, s) else find_partition io name s

  unfoldable pub write_found : Bytes → Option MtdPartition → M D Bool
  write_found bytes none s = some (false, s)
  write_found bytes (some p) s =
      elim (mtd_write_partition io p s.sys) as (λ _. Option (Bool × RootsState D)) [
        | none ↦ some (false, s)
        | some ctx ↦ let (done, d) = write_session io ctx bytes in some (done, record s { sys = d })
      ]

  -- The result of `fopen` is not looked at: `fwrite` goes through NULL if it fails.
  unfoldable pub write_emmc : Bytes → Bytes → M D Bool
  write_emmc bytes name s = elim (emmc_io.fopen s.sys name) as (λ _. Option (Bool × RootsState D)) [
    | none ↦ none
    | some f ↦
        let (wrote, d) = emmc_io.fwrite f bytes in
        let (done, d') = emmc_io.fclose d in
        if wrote then some (done, record s { sys = d' }) else some (false, record s { sys = d })
  ]

  unfoldable pub write_typed : PartitionType → Bool → Bytes → Bytes → M D Bool
  write_typed mtd scanned bytes name = look_up scanned name >>= write_found bytes
  write_typed emmc scanned bytes name = write_emmc bytes name

  -- `WriteToPartition`, with `mtd_partitions_scanned`: true is the result 0.
  unfoldable pub write_to_partition : Bool → Bytes → Bytes → M D Bool
  write_to_partition scanned bytes target = elim (tokens target) as (λ _. M D Bool) [
    | [] ↦ crash
    | magic ∷ ts ↦ elim (type_of magic) as (λ _. M D Bool) [
      | none ↦ pure false
      | some type ↦ elim (next_token ts).0 as (λ _. M D Bool) [
        | none ↦ pure false
        | some name ↦ write_typed type scanned bytes name
      ]
    ]
  ]

  write_to_partition-mtd :
      (scanned : Bool) (bytes target magic name : Bytes) (ts : List Bytes) (s : RootsState D)
      → tokens target ≡ magic ∷ name ∷ ts
      → type_of magic ≡ some mtd
      → write_to_partition scanned bytes target s ≡ write_typed mtd scanned bytes name s
  unfolding write_to_partition
  write_to_partition-mtd scanned bytes target magic name ts s e q =
      rw (write_to_partition, e, q) refl

  write_typed-found :
      (scanned : Bool) (bytes name : Bytes) (s s₁ : RootsState D) (p : MtdPartition)
      → look_up scanned name s ≡ some (some p, s₁)
      → write_typed mtd scanned bytes name s ≡ write_found bytes (some p) s₁
  unfolding write_typed
  write_typed-found scanned bytes name s s₁ p e =
      ap
        (λ o. elim o as (λ _. Option (Bool × RootsState D)) [
          | none ↦ none
          | some (found, s') ↦ write_found bytes found s'
        ])
        e

  write_found-session :
      (bytes : Bytes) (s s' : RootsState D) (p : MtdPartition) (ctx : WriteContext D)
      → mtd_write_partition io p s.sys ≡ some ctx
      → write_found bytes (some p) s ≡ some (true, s')
      → (write_session io ctx bytes ≡ (true, s'.sys)) × (s' ≡ record s { sys = s'.sys })
  unfolding write_found
  write_found-session bytes s s' p ctx e h =
      by_session (write_session io ctx bytes) refl (sym (rw (write_found, e) refl) ∙ h)
    where
      pair_of : Bool × D → Bool × RootsState D
      pair_of r = (r.0, record s { sys = r.1 })

      by_session :
          (r : Bool × D)
          → write_session io ctx bytes ≡ r
          → some (pair_of r) ≡ some (true, s')
          → (write_session io ctx bytes ≡ (true, s'.sys)) × (s' ≡ record s { sys = s'.sys })
      by_session r q h' =
          let ok : r.0 ≡ true = ground (arith, h') in
          let same : record s { sys = r.1 } ≡ s' = ground (arith, h') in
          let left : r.1 ≡ s'.sys = ap (λ x. x.sys) same in
          (q ∙ λ i. (ok i, left i), sym same ∙ ap (λ d. record s { sys = d }) left)

  -- Where the target names a partition of MTD that is found and can be opened, with a buffer of a
  -- block, of a positive size: `WriteToPartition` returns 0 only if the blocks written to it with
  -- success are the bytes, in order, with fewer zeros than a block holds at the end; and the device
  -- that it leaves is the one that the last of these writes left, after a look at its offset, the
  -- erasing of the blocks from this offset to the end of the partition, and a close.
  pub write_to_partition-Stored :
      (scanned : Bool) (bytes target magic name : Bytes) (ts : List Bytes) (s s₁ s' : RootsState D)
      (p : MtdPartition) (ctx : WriteContext D)
      → tokens target ≡ magic ∷ name ∷ ts
      → type_of magic ≡ some mtd
      → look_up scanned name s ≡ some (some p, s₁)
      → mtd_write_partition io p s₁.sys ≡ some ctx
      → IsValid ctx
      → write_to_partition scanned bytes target s ≡ some (true, s')
      → (s' ≡ record s₁ { sys = s'.sys }) × ClosedErased io.flash ctx bytes s'.sys
  write_to_partition-Stored scanned bytes target magic name ts s s₁ s' p ctx e q found opened v h =
      let (session, rest) = write_found-session bytes s₁ s' p ctx opened (
        sym (write_typed-found scanned bytes name s s₁ p found)
        ∙ sym (write_to_partition-mtd scanned bytes target magic name ts s e q)
        ∙ h) in
      (rest, write_session-Stored io ctx bytes s'.sys v session)
