-- ===== src/ImagePatch/Hashed.antt =====
-- applypatch/imgpatch.c: the hash that `ApplyImagePatch` computes is that of what it wrote.
use screenbox_rockchip_recov.Prelude.{
  ℕ, ◌≡◌, ap, ◌∙◌, ◌++◌, Option, some, inl, inr, length, true, ◌⊎◌,
}
use screenbox_rockchip_recov.Prelude.Int.{ℤ, pos, ltb_ℤ}
use screenbox_rockchip_recov.Prelude.Bytes.{Bytes}
use screenbox_rockchip_recov.Patch.{Bzip2, returns}
use screenbox_rockchip_recov.Patch.Outcomes.{given}
use screenbox_rockchip_recov.ImagePatch.{Zlib, Target, Output, apply_image_patch}
use screenbox_rockchip_recov.ImagePatch.Tracks.{Recorder, apply_image_patch-Succeeds}

-- A sink of which `written` is what it has taken: all it is given, or nothing, and then it returns
-- less; a hash of which `hashed` is what went into it.
pub record Records {T Ctx : Type 0} (target : Target T Ctx) (written : T → Bytes)
    (hashed : Ctx → Bytes) : Type 0 where
  pub takes :
      (t : T) (bs : Bytes)
      → (((target.sink t bs).0 ≡ pos (length bs))
          × (written (target.sink t bs).1 ≡ written t ++ bs))
        ⊎ ((ltb_ℤ (target.sink t bs).0 (pos (length bs)) ≡ true)
            × (written (target.sink t bs).1 ≡ written t))
  pub hashes : (c : Ctx) (bs : Bytes) → hashed (target.sha_update c bs) ≡ hashed c ++ bs

module _ {S Z T Ctx : Type 0} (bz : Bzip2 S) (z : Zlib Z) (target : Target T Ctx)
    (written : T → Bytes) (hashed : Ctx → Bytes) (r : Records target written hashed) (fuel : ℕ)
    (malloc : ℕ → Option Bytes) (old patch : Bytes) where
  -- The hash is of what was written.
  abbrev pub Agrees : Output T Ctx → Type 0
  Agrees w = (c : Ctx) × (w.ctx ≡ some c) × (hashed c ≡ written w.token)

  abbrev IsHashed : Ctx → Bytes → Type 0
  IsHashed c so_far = hashed c ≡ so_far

  -- Where the sink takes all it is given or, with a smaller result, nothing, and the hash so far is
  -- that of what was written so far: if `ApplyImagePatch` returns 0, or the sink always takes all,
  -- then the hash is that of what was written, whatever the patch holds.
  pub apply_image_patch-Agrees :
      (w w' : Output T Ctx) (code : ℤ)
      → Agrees w
      → apply_image_patch bz z target fuel malloc old patch w ≡ returns (code, w')
      → (code ≡ pos 0) ⊎ ((t : T) (bs : Bytes) → (target.sink t bs).0 ≡ pos (length bs))
      → Agrees w'
  apply_image_patch-Agrees w w' code a e ok =
      (given _ (apply_image_patch bz z target fuel malloc old patch w) (code, w')
        (apply_image_patch-Succeeds bz z target (λ _. Unit {0}) written IsHashed (Unit {0}) recorder
          fuel malloc old patch tt w (tt, a))
        e (elim ok [ inl zero ↦ inl zero | inr all ↦ inr (λ t bs _. all t bs) ])).1
    where
      recorder : Recorder target (λ _. Unit {0}) written IsHashed (Unit {0})
      recorder = record {
        takes = λ t bs _. (
          tt,
          elim (r.takes t bs) [ inl all ↦ inl all | inr (low, same) ↦ inr (low, λ _. same) ],
        );
        hashes = λ c b bs e. r.hashes c bs ∙ ap (λ l. l ++ bs) e;
      }
