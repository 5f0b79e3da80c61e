-- ===== src/Roots/Success.antt =====
-- roots.c: what has happened where a function on volumes returns 0.
use mathlib.Core.Path.{subst}
use screenbox_rockchip_recov.Prelude.{
  ℕ, ◌≡◌, ◌⊎◌, refl, sym, ap, ◌∙◌, Bool, true, false, ◌||◌, not, Option, none, some, arith,
  Bool-cases, inl, inr, if◌then◌else◌,
}
use screenbox_rockchip_recov.Prelude.Bytes.{Bytes, str_eq, str_eq_iff}
use screenbox_rockchip_recov.Prelude.Scanf.{OnSome, OnSome-given}
use screenbox_rockchip_recov.Mounts.{
  MountedVolume, MountsState, scan_mounted_volumes, find_mounted_volume_by_mount_point,
  unmount_mounted_volume,
}
use screenbox_rockchip_recov.Mounts.Laws.{find_mounted_volume_by_mount_point-Slot}
use screenbox_rockchip_recov.Roots.{
  Volume, System, RootsState, M, ◌>>=◌, pure, volume_for_path, rescan, unmount, unmount_at,
  is_ramdisk, ensure_path_unmounted,
}
use screenbox_rockchip_recov.Roots.Find.{volume_for_path_again}
use screenbox_rockchip_recov.Roots.Format.{
  on_unmounted, format_by_type, format_volume, resize_volume, resize_by_type,
}

module _ {D : Type 0} where
  -- `P` holds of the state where the result is 0.
  abbrev pub OnTrue : (RootsState D → Type 0) → Option (Bool × RootsState D) → Type 0
  OnTrue P none = Unit
  OnTrue P (some (false, s)) = Unit
  OnTrue P (some (true, s)) = P s

  pub OnTrue-bind :
      {A : Type 0} (P : RootsState D → Type 0) (m : M D A) (k : A → M D Bool) (s : RootsState D)
      → ((a : A) (s₁ : RootsState D) → m s ≡ some (a, s₁) → OnTrue P (k a s₁))
      → OnTrue P ((m >>= k) s)
  OnTrue-bind {A} P m k s h = by_result (m s) h
    where
      by_result :
          (o : Option (A × RootsState D))
          → ((a : A) (s₁ : RootsState D) → o ≡ some (a, s₁) → OnTrue P (k a s₁))
          → OnTrue P (elim o [ none ↦ none | some (a, s₁) ↦ k a s₁ ])
      by_result none h = tt
      by_result (some (a, s₁)) h = h a s₁ refl

  pub OnTrue-given :
      (P : RootsState D → Type 0) (o : Option (Bool × RootsState D)) (s : RootsState D)
      → OnTrue P o
      → o ≡ some (true, s)
      → P s
  OnTrue-given P o s h e = subst (OnTrue P) e h

  pub OnTrue-map :
      (P Q : RootsState D → Type 0) (o : Option (Bool × RootsState D))
      → ((s : RootsState D) → P s → Q s)
      → OnTrue P o
      → OnTrue Q o
  OnTrue-map P Q none f h = tt
  OnTrue-map P Q (some (false, s)) f h = tt
  OnTrue-map P Q (some (true, s)) f h = f s h

  pub OnTrue-self : (o : Option (Bool × RootsState D)) → OnTrue (λ s. o ≡ some (true, s)) o
  OnTrue-self none = tt
  OnTrue-self (some (false, s)) = tt
  OnTrue-self (some (true, s)) = refl

  pub OnTrue-if :
      (P : RootsState D → Type 0) (b : Bool) (t f : Option (Bool × RootsState D))
      → (b ≡ true → OnTrue P t)
      → (b ≡ false → OnTrue P f)
      → OnTrue P (if b then t else f)
  OnTrue-if P true t f h k = h refl
  OnTrue-if P false t f h k = k refl

module _ {D : Type 0} (io : System D) where
  -- /proc/mounts was read in `s`, and either listed nothing at the mount point, or `umount` of it
  -- returned 0 and left the system of `s'`.
  abbrev pub IsUnmounted : Bytes → RootsState D → RootsState D → Type 0
  IsUnmounted mount_point s s' =
      (table : MountsState) × (scan_mounted_volumes (io.proc_mounts s.sys) ≡ some (true, table))
      × (((find_mounted_volume_by_mount_point mount_point table ≡ none) × (s'.sys ≡ s.sys))
          ⊎ (((io.umount s.sys mount_point).0 ≡ true) × (s'.sys ≡ (io.umount s.sys mount_point).1)))

  abbrev pub IsScan : RootsState D → Bool × RootsState D → Type 0
  IsScan s r =
      (scan_mounted_volumes (io.proc_mounts s.sys) ≡ some (r.0, r.1.mounts)) × (r.1.sys ≡ s.sys)

  pub rescan-IsScan : (s : RootsState D) → OnSome (IsScan s) (rescan io s)
  unfolding rescan
  rescan-IsScan s = by_scan (scan_mounted_volumes (io.proc_mounts s.sys)) refl
    where
      by_scan :
          (o : Option (Bool × MountsState))
          → scan_mounted_volumes (io.proc_mounts s.sys) ≡ o
          → OnSome (IsScan s) (elim o as (λ _. Option (Bool × RootsState D)) [
            | none ↦ none
            | some (done, volumes) ↦ some (done, record s { mounts = volumes })
          ])
      by_scan none e = tt
      by_scan (some (done, volumes)) e = (e, refl)

  unmount-OnTrue :
      (mount_point : Bytes) (f : ℕ × MountedVolume) (s s₁ : RootsState D)
      → f.1.mount_point ≡ mount_point
      → s₁.sys ≡ s.sys
      → OnTrue
          (λ s'.
            ((io.umount s.sys mount_point).0 ≡ true) × (s'.sys ≡ (io.umount s.sys mount_point).1))
          (unmount io f s₁)
  unfolding unmount
  unmount-OnTrue mount_point (slot, v) s s₁ e same =
      by_result (io.umount s₁.sys v.mount_point) (rw (e, same) refl)
    where
      by_result :
          (r : Bool × D)
          → r ≡ io.umount s.sys mount_point
          → OnTrue
              (λ s'.
                ((io.umount s.sys mount_point).0 ≡ true)
                × (s'.sys ≡ (io.umount s.sys mount_point).1))
              (some
                (r.0, record s₁ { mounts = unmount_mounted_volume r.0 slot s₁.mounts; sys = r.1 }))
      by_result (false, d) eq = tt
      by_result (true, d) eq = (sym (ap (λ x. x.0) eq), ap (λ x. x.1) eq)

  unmount_at-OnTrue :
      (mount_point : Bytes) (s : RootsState D)
      → OnTrue (IsUnmounted mount_point s) (unmount_at io mount_point s)
  unfolding unmount_at
  unmount_at-OnTrue mount_point s =
      OnTrue-bind (IsUnmounted mount_point s) (rescan io) _ s (λ scanned s₁ e.
        scanned_then scanned s₁ (OnSome-given (IsScan s) _ (scanned, s₁) (rescan-IsScan s) e))
    where
      by_found :
          (s₁ : RootsState D)
          → IsScan s (true, s₁)
          → (o : Option (ℕ × MountedVolume))
          → find_mounted_volume_by_mount_point mount_point s₁.mounts ≡ o
          → OnTrue (IsUnmounted mount_point s) (elim o as (λ _. Option (Bool × RootsState D)) [
            | none ↦ some (true, s₁)
            | some mv ↦ unmount io mv s₁
          ])
      by_found s₁ (t, same) none e = (s₁.mounts, t, inl (e, same))
      by_found s₁ (t, same) (some f) e =
          let here =
            OnSome-given _ _ f (find_mounted_volume_by_mount_point-Slot mount_point s₁.mounts) e in
          OnTrue-map _ (IsUnmounted mount_point s) (unmount io f s₁) (λ s' h. (s₁.mounts, t, inr h))
            (unmount-OnTrue mount_point f s s₁ here.0 same)

      scanned_then :
          (scanned : Bool) (s₁ : RootsState D)
          → IsScan s (scanned, s₁)
          → OnTrue (IsUnmounted mount_point s) (
              if not scanned
              then some (false, s₁)
              else elim (find_mounted_volume_by_mount_point mount_point s₁.mounts)
                  as (λ _. Option (Bool × RootsState D)) [
                    | none ↦ some (true, s₁)
                    | some mv ↦ unmount io mv s₁
                  ])
      scanned_then false s₁ h = tt
      scanned_then true s₁ h =
          by_found s₁ h (find_mounted_volume_by_mount_point mount_point s₁.mounts) refl

  ensure_path_unmounted-again :
      (path : Bytes) (s : RootsState D) (v : Volume)
      → volume_for_path io path s ≡ some (some v, s)
      → is_ramdisk io v ≡ false
      → ensure_path_unmounted io path s ≡ unmount_at io v.mount_point s
  unfolding ensure_path_unmounted
  ensure_path_unmounted-again path s v found not_ram =
      ap
        (λ o. elim o as (λ _. Option (Bool × RootsState D)) [
          | none ↦ none
          | some (r, s₁) ↦ unmount_found r s₁
        ])
        found
      ∙ rw not_ram refl
    where
      unmount_found : Option Volume → M D Bool
      unmount_found none = pure false
      unmount_found (some w) = if is_ramdisk io w then pure false else unmount_at io w.mount_point

  -- The path was the mount point of a volume that is not the ramdisk; it was unmounted, and then
  -- `work` succeeded.
  abbrev pub WorkedOn : Bytes → (Volume → M D Bool) → RootsState D → RootsState D → Type 0
  WorkedOn path work s s' =
      (v : Volume) × (s₁ : RootsState D) × (s₂ : RootsState D) × (volume_for_path io path s
        ≡ some (some v, s₁))
      × (s₁.sys ≡ s.sys)
      × (is_ramdisk io v ≡ false)
      × (v.mount_point ≡ path)
      × IsUnmounted path s₁ s₂
      × (work v s₂ ≡ some (true, s'))

  refused : (b c : Bool) → (b || not c) ≡ false → (b ≡ false) × (c ≡ true)
  refused b c h = ground arith

  on_unmounted-WorkedOn :
      (path : Bytes) (work : Volume → M D Bool) (s : RootsState D)
      → OnTrue (WorkedOn path work s) (on_unmounted io path work s)
  unfolding on_unmounted
  on_unmounted-WorkedOn path work s =
      OnTrue-bind (WorkedOn path work s) (volume_for_path io path) _ s at_volume
    where
      unmounted_then :
          (v : Volume) (s₁ : RootsState D)
          → volume_for_path io path s ≡ some (some v, s₁)
          → (is_ramdisk io v || not (str_eq v.mount_point path)) ≡ false
          → (unmounted : Bool) (s₂ : RootsState D)
          → ensure_path_unmounted io path s₁ ≡ some (unmounted, s₂)
          → OnTrue (WorkedOn path work s) ((if unmounted then work v else pure false) s₂)
      unmounted_then v s₁ e ok false s₂ u = tt
      unmounted_then v s₁ e ok true s₂ u =
          let (sys, mounts, again) = volume_for_path_again io path s s₁ (some v) e in
          let (not_ram, same) = refused (is_ramdisk io v) (str_eq v.mount_point path) ok in
          let here = (str_eq_iff v.mount_point path).0 same in
          let un =
            OnTrue-given (IsUnmounted v.mount_point s₁) (unmount_at io v.mount_point s₁) s₂
              (unmount_at-OnTrue v.mount_point s₁)
              (sym (ensure_path_unmounted-again path s₁ v again not_ram) ∙ u) in
          OnTrue-map _ (WorkedOn path work s) (work v s₂)
            (λ s' worked.
              (v, s₁, s₂, e, sys, not_ram, here, subst (λ m. IsUnmounted m s₁ s₂) here un, worked))
            (OnTrue-self (work v s₂))

      at_volume :
          (found : Option Volume) (s₁ : RootsState D)
          → volume_for_path io path s ≡ some (found, s₁)
          → OnTrue (WorkedOn path work s) (
              elim found as (λ _. M D Bool) [
                | none ↦ pure false
                | some v ↦
                    if is_ramdisk io v || not (str_eq v.mount_point path)
                    then pure false
                    else (ensure_path_unmounted io path >>= λ unmounted.
                        if unmounted then work v else pure false)
              ]
                s₁)
      at_volume none s₁ e = tt
      at_volume (some v) s₁ e =
          elim (Bool-cases (is_ramdisk io v || not (str_eq v.mount_point path))) [
            | inl bad ↦ rw bad tt
            | inr ok ↦ rw ok (
                OnTrue-bind (WorkedOn path work s) (ensure_path_unmounted io path) _ s₁
                  (unmounted_then v s₁ e ok))
          ]

  -- `format_volume` returns 0 only if the path is the mount point of the volume that
  -- `volume_for_path` gives for it, the volume is not the ramdisk, and, before the file system was
  -- made with success, /proc/mounts listed nothing at the mount point or `umount` of it returned 0.
  pub format_volume-WorkedOn :
      (path : Bytes) (s s' : RootsState D)
      → format_volume io path s ≡ some (true, s')
      → WorkedOn path (format_by_type io) s s'
  unfolding format_volume
  format_volume-WorkedOn path s s' e =
      OnTrue-given (WorkedOn path (format_by_type io) s) _ s'
        (on_unmounted-WorkedOn path (format_by_type io) s) e

  -- `resize_volume` returns 0 only under the same conditions, with the check and the resize in
  -- place of the file system.
  pub resize_volume-WorkedOn :
      (path : Bytes) (s s' : RootsState D)
      → resize_volume io path s ≡ some (true, s')
      → WorkedOn path (resize_by_type io) s s'
  unfolding resize_volume
  resize_volume-WorkedOn path s s' e =
      OnTrue-given (WorkedOn path (resize_by_type io) s) _ s'
        (on_unmounted-WorkedOn path (resize_by_type io) s) e
