-- ===== src/Roots/Mounted.antt =====
-- roots.c: what has happened where `ensure_path_mounted` returns 0.
use screenbox_rockchip_recov.Prelude.{
  ℕ, ◌≡◌, ◌⊎◌, refl, Bool, true, false, not, [], ◌∷◌, Option, none, some, arith, Bool-cases, inl,
  inr, if◌then◌else◌,
}
use screenbox_rockchip_recov.Prelude.Bytes.{Bytes}
use screenbox_rockchip_recov.Prelude.Scanf.{OnSome, OnSome-given}
use screenbox_rockchip_recov.Mounts.{
  MountedVolume, MountsState, scan_mounted_volumes, find_mounted_volume_by_mount_point,
}
use screenbox_rockchip_recov.Roots.{
  Volume, System, RootsState, M, ◌>>=◌, pure, volume_for_path, rescan, is_ramdisk,
}
use screenbox_rockchip_recov.Roots.Mount.{mount_volume, scan_for, mounted_link, ensure_path_mounted}
use screenbox_rockchip_recov.Roots.Success.{
  OnTrue, OnTrue-bind, OnTrue-given, OnTrue-if, OnTrue-map, IsScan, rescan-IsScan,
}
use screenbox_rockchip_recov.Roots.HasMounted.{HasMounted, mount_volume-HasMounted}

module _ {D : Type 0} (io : System D) where
  -- /proc/mounts was read, and lists a volume at the mount point.
  abbrev pub IsListed : Bytes → RootsState D → Type 0
  IsListed mount_point s =
      (table : MountsState) × (f : ℕ × MountedVolume) × (scan_mounted_volumes (io.proc_mounts s.sys)
        ≡ some (true, table))
      × (find_mounted_volume_by_mount_point mount_point table ≡ some f)

  abbrev TellsListed : Bytes → RootsState D → Option Bool × RootsState D → Type 0
  TellsListed mount_point s r = r.0 ≡ some true → IsListed mount_point s

  scan_for-TellsListed :
      (mount_point : Bytes) (s : RootsState D)
      → OnSome (TellsListed mount_point s) (scan_for io mount_point s)
  unfolding scan_for
  scan_for-TellsListed mount_point s = by_scan (rescan io s) (rescan-IsScan io s)
    where
      Result : Type 0
      Result = Option Bool × RootsState D

      by_found :
          (s₁ : RootsState D)
          → IsScan io s (true, s₁)
          → (o : Option (ℕ × MountedVolume))
          → find_mounted_volume_by_mount_point mount_point s₁.mounts ≡ o
          → OnSome
              (TellsListed mount_point s)
              (elim o as (λ _. Option (Option Bool × RootsState D)) [
                | none ↦ some (some false, s₁)
                | some mv ↦ some (some true, s₁)
              ])
      by_found s₁ h none e = λ q. ground arith
      by_found s₁ h (some f) e = λ q. (s₁.mounts, f, h.0, e)

      next_step : Bool → M D (Option Bool)
      next_step scanned s₁ =
          if not scanned
          then some (none, s₁)
          else elim (find_mounted_volume_by_mount_point mount_point s₁.mounts)
              as (λ _. Option (Option Bool × RootsState D)) [
                | none ↦ some (some false, s₁)
                | some mv ↦ some (some true, s₁)
              ]

      by_scan :
          (o : Option (Bool × RootsState D))
          → OnSome (IsScan io s) o
          → OnSome
              (TellsListed mount_point s)
              (elim o as (λ _. Option (Option Bool × RootsState D)) [
                | none ↦ none
                | some (scanned, s₁) ↦ next_step scanned s₁
              ])
      by_scan none h = tt
      by_scan (some (false, s₁)) h = λ q. ground arith
      by_scan (some (true, s₁)) h =
          by_found s₁ h (find_mounted_volume_by_mount_point mount_point s₁.mounts) refl

  -- What makes a volume's mount point usable: it is the ramdisk, it is listed, or it was not and has
  -- been mounted.
  abbrev pub IsReady : Volume → RootsState D → RootsState D → Type 0
  IsReady v s s' =
      (is_ramdisk io v ≡ true)
      ⊎ (IsListed v.mount_point s
          ⊎ ((s₁ : RootsState D) × (scan_for io v.mount_point s ≡ some (some false, s₁))
              × HasMounted io v s₁ s'))

  abbrev pub IsReachable : Bytes → RootsState D → RootsState D → Type 0
  IsReachable path s s' =
      (io.access s.sys path ≡ true)
      ⊎ (((v : Volume) × (s₁ : RootsState D) × (volume_for_path io path s ≡ some (some v, s₁))
            × IsReady v s₁ s')
          ⊎ ((s₁ : RootsState D) × (volume_for_path io path s ≡ some (none, s₁))
              × IsListed s₁.mount_point s₁))

  mounted_link-IsListed :
      (s : RootsState D) → OnTrue (λ _. IsListed s.mount_point s) (mounted_link io s)
  unfolding mounted_link
  mounted_link-IsListed s = by_link s.mount_point
    where
      answer : Option Bool → M D Bool
      answer listed = elim listed as (λ _. M D Bool) [ some true ↦ pure true | _ ↦ pure false ]

      by_link :
          (m : Bytes)
          → OnTrue
              (λ _. IsListed m s)
              (elim m as (λ _. Option (Bool × RootsState D)) [
                | [] ↦ some (false, s)
                | c ∷ link ↦ (scan_for io (c ∷ link) >>= answer) s
              ])
      by_link [] = tt
      by_link (c ∷ link) =
          OnTrue-bind (λ _. IsListed (c ∷ link) s) (scan_for io (c ∷ link)) answer s by_answer
        where
          by_answer :
              (o : Option Bool) (s₁ : RootsState D)
              → scan_for io (c ∷ link) s ≡ some (o, s₁)
              → OnTrue (λ _. IsListed (c ∷ link) s) (answer o s₁)
          by_answer none s₁ e = tt
          by_answer (some false) s₁ e = tt
          by_answer (some true) s₁ e =
              OnSome-given (TellsListed (c ∷ link) s) _ (some true, s₁)
                (scan_for-TellsListed (c ∷ link) s) e refl

  abbrev ready : Volume → M D Bool
  ready v = scan_for io v.mount_point >>= λ listed. elim listed as (λ _. M D Bool) [
    | none ↦ pure false
    | some true ↦ pure true
    | some false ↦ mount_volume io v
  ]

  ready-IsReady : (v : Volume) (s : RootsState D) → OnTrue (IsReady v s) (ready v s)
  ready-IsReady v s = OnTrue-bind (IsReady v s) (scan_for io v.mount_point) _ s by_answer
    where
      by_answer :
          (o : Option Bool) (s₁ : RootsState D)
          → scan_for io v.mount_point s ≡ some (o, s₁)
          → OnTrue (IsReady v s) (
              elim o as (λ _. M D Bool) [
                | none ↦ pure false
                | some true ↦ pure true
                | some false ↦ mount_volume io v
              ]
                s₁)
      by_answer none s₁ e = tt
      by_answer (some true) s₁ e = inr (
          inl (
            OnSome-given (TellsListed v.mount_point s) _ (some true, s₁)
              (scan_for-TellsListed v.mount_point s) e refl))
      by_answer (some false) s₁ e =
          OnTrue-map (HasMounted io v s₁) (IsReady v s) (mount_volume io v s₁)
            (λ _ h. inr (inr (s₁, e, h))) (mount_volume-HasMounted io v s₁)

  -- `ensure_path_mounted` returns 0 only if the path can be accessed; or the volume that
  -- `volume_for_path` gives for it is the ramdisk, or is listed at its mount point in /proc/mounts; or
  -- it is not listed, and the last call of `mount`, at its mount point and with its type, of the
  -- partition that its device names (yaffs2), one of its two devices or the device of the card, has
  -- returned 0; or there is no such volume, and /proc/mounts lists the target of the link in its
  -- place.
  pub ensure_path_mounted-IsReachable :
      (path : Bytes) (s s' : RootsState D)
      → ensure_path_mounted io path s ≡ some (true, s')
      → IsReachable path s s'
  unfolding ensure_path_mounted
  ensure_path_mounted-IsReachable path s s' e =
      OnTrue-given (IsReachable path s) _ s'
        (OnTrue-if (IsReachable path s) (io.access s.sys path) (some (true, s)) _
          (λ there. inl there)
          (λ _. OnTrue-bind (IsReachable path s) (volume_for_path io path) work s by_volume))
        e
    where
      work : Option Volume → M D Bool
      work found = elim found as (λ _. M D Bool) [
        | none ↦ mounted_link io
        | some v ↦ if is_ramdisk io v then pure true else ready v
      ]

      by_volume :
          (o : Option Volume) (s₁ : RootsState D)
          → volume_for_path io path s ≡ some (o, s₁)
          → OnTrue (IsReachable path s) (work o s₁)
      by_volume none s₁ q =
          OnTrue-map (λ _. IsListed s₁.mount_point s₁) (IsReachable path s) (mounted_link io s₁)
            (λ _ h. inr (inr (s₁, q, h))) (mounted_link-IsListed s₁)
      by_volume (some v) s₁ q = elim (Bool-cases (is_ramdisk io v)) [
        | inl ram ↦ rw ram (inr (inl (v, s₁, q, inl ram)))
        | inr other ↦ rw other (
            OnTrue-map (IsReady v s₁) (IsReachable path s) (ready v s₁)
              (λ _ h. inr (inl (v, s₁, q, h))) (ready-IsReady v s₁))
      ]
