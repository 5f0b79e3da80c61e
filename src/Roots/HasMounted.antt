-- ===== src/Roots/HasMounted.antt =====
-- roots.c: the call of `mount` behind a result 0 of the part of `ensure_path_mounted` that mounts.
use mathlib.Core.Path.{subst}
use screenbox_rockchip_recov.Prelude.{
  ◌≡◌, ◌⊎◌, refl, sym, Bool, true, false, ◌||◌, ◌++◌, Option, none, some, Bool-cases, inl, inr,
  if◌then◌else◌,
}
use screenbox_rockchip_recov.Prelude.Bytes.{Bytes, codes, str_eq, str_eq_iff, decimal}
use screenbox_rockchip_recov.Mtd.Partitions.{MtdPartition}
use screenbox_rockchip_recov.Roots.{Volume, System, RootsState, M, ◌>>=◌, pure, crash}
use screenbox_rockchip_recov.Roots.Mount.{
  has_type, mount, fix_permissions, mtd_mount_partition, find_partition, mount_yaffs2, sd_device,
  mount_sdcard, mount_block_device, mount_volume,
}
use screenbox_rockchip_recov.Roots.Success.{
  OnTrue, OnTrue-bind, OnTrue-given, OnTrue-if, OnTrue-map,
}

module _ {D : Type 0} (io : System D) where
  -- A call of `mount` of a device that `Ok` holds of, at the mount point and with the type of the
  -- volume, has returned 0 and left this state of the system.
  abbrev Did : Volume → (Option Bytes → Type 0) → RootsState D → Type 0
  Did v Ok s' =
      (d : D) × (read_only : Bool) × (device : Option Bytes) × Ok device
      × (io.mount d read_only device v.mount_point v.fs_type ≡ (true, s'.sys))

  -- A result 0 is due to such a call.
  abbrev ByMount : Volume → (Option Bytes → Type 0) → M D Bool → Type 0
  ByMount v Ok m = (s : RootsState D) → OnTrue (Did v Ok) (m s)

  mount-ByMount :
      (v : Volume) (Ok : Option Bytes → Type 0) (read_only : Bool) (device : Option Bytes)
      → Ok device
      → ByMount v Ok (mount io read_only device v.mount_point v.fs_type)
  mount-ByMount v Ok read_only device ok s =
      by_result (io.mount s.sys read_only device v.mount_point v.fs_type) refl
    where
      by_result :
          (r : Bool × D)
          → io.mount s.sys read_only device v.mount_point v.fs_type ≡ r
          → OnTrue (Did v Ok) (some (r.0, record s { sys = r.1 }))
      by_result (false, d) e = tt
      by_result (true, d) e = (s.sys, read_only, device, ok, e)

  -- A call that may have mounted, and what is done if it has not.
  bind-ByMount :
      (v : Volume) (Ok : Option Bytes → Type 0) (m : M D Bool) (k : Bool → M D Bool)
      (s : RootsState D)
      → OnTrue (Did v Ok) (m s)
      → ((s₁ : RootsState D) → k true s₁ ≡ some (true, s₁))
      → ByMount v Ok (k false)
      → OnTrue (Did v Ok) ((m >>= k) s)
  bind-ByMount v Ok m k s h stays failed = OnTrue-bind (Did v Ok) m k s by_result
    where
      by_result : (b : Bool) (s₁ : RootsState D) → m s ≡ some (b, s₁) → OnTrue (Did v Ok) (k b s₁)
      by_result true s₁ e =
          subst (OnTrue (Did v Ok)) (sym (stays s₁)) (OnTrue-given (Did v Ok) (m s) s₁ h e)
      by_result false s₁ e = failed s₁

  abbrev devname_of : MtdPartition → Option Bytes
  devname_of p = some (codes "/dev/block/mtdblock" ++ decimal p.device_index)

  -- The partition was mounted, and then its permissions were looked after.
  abbrev DidFix : Volume → MtdPartition → RootsState D → Type 0
  DidFix v p s' =
      (s₁ : RootsState D) × Did v (λ device. device ≡ devname_of p) s₁
      × (s'.sys ≡ (io.add_execute s₁.sys v.mount_point).1)

  fix_permissions-DidFix :
      (v : Volume) (p : MtdPartition) (s₁ : RootsState D)
      → Did v (λ device. device ≡ devname_of p) s₁
      → OnTrue (DidFix v p) (fix_permissions io v.mount_point s₁)
  unfolding fix_permissions
  fix_permissions-DidFix v p s₁ did = elim (Bool-cases (io.stat s₁.sys v.mount_point)) [
    | inr absent ↦ rw absent tt
    | inl there ↦ elim (Bool-cases (io.add_execute s₁.sys v.mount_point).0) [
      | inr failed ↦ rw (there, failed) tt
      | inl done ↦ rw (there, done) (s₁, did, refl)
    ]
  ]

  mtd_mount_partition-DidFix :
      (v : Volume) (p : MtdPartition) (s : RootsState D)
      → OnTrue (DidFix v p) (mtd_mount_partition io p v.mount_point v.fs_type s)
  unfolding mtd_mount_partition
  mtd_mount_partition-DidFix v p s =
      OnTrue-bind (DidFix v p) (mount io false (devname_of p) v.mount_point v.fs_type) _ s
        by_writable
    where
      Ok : Option Bytes → Type 0
      Ok device = device ≡ devname_of p

      fixed : Bool → M D Bool
      fixed mounted = if mounted then fix_permissions io v.mount_point else pure false

      after_mount :
          (read_only : Bool) (s₁ : RootsState D) (b : Bool) (s₂ : RootsState D)
          → mount io read_only (devname_of p) v.mount_point v.fs_type s₁ ≡ some (b, s₂)
          → OnTrue (DidFix v p) (fixed b s₂)
      after_mount read_only s₁ false s₂ e = tt
      after_mount read_only s₁ true s₂ e =
          fix_permissions-DidFix v p s₂
            (OnTrue-given (Did v Ok) _ s₂ (mount-ByMount v Ok read_only (devname_of p) refl s₁) e)

      by_writable :
          (b : Bool) (s₁ : RootsState D)
          → mount io false (devname_of p) v.mount_point v.fs_type s ≡ some (b, s₁)
          → OnTrue (DidFix v p) (
              ((if b then pure true else mount io true (devname_of p) v.mount_point v.fs_type)
                  >>= fixed)
                s₁)
      by_writable true s₁ e = after_mount false s true s₁ e
      by_writable false s₁ e =
          OnTrue-bind (DidFix v p) (mount io true (devname_of p) v.mount_point v.fs_type) fixed s₁
            (after_mount true s₁)

  -- The partition of the volume's device was mounted.
  abbrev FromPartition : Volume → RootsState D → RootsState D → Type 0
  FromPartition v s s' =
      (name : Bytes) × (p : MtdPartition) × (s₁ : RootsState D) × (v.device ≡ some name)
      × (find_partition io name s ≡ some (some p, s₁))
      × DidFix v p s'

  mount_yaffs2-FromPartition :
      (v : Volume) (s : RootsState D) → OnTrue (FromPartition v s) (mount_yaffs2 io v s)
  unfolding mount_yaffs2
  mount_yaffs2-FromPartition v s = by_device v.device refl
    where
      mount_found : Option MtdPartition → M D Bool
      mount_found found = elim found as (λ _. M D Bool) [
        | none ↦ pure false
        | some partition ↦ mtd_mount_partition io partition v.mount_point v.fs_type
      ]

      by_found :
          (name : Bytes)
          → v.device ≡ some name
          → (found : Option MtdPartition) (s₁ : RootsState D)
          → find_partition io name s ≡ some (found, s₁)
          → OnTrue (FromPartition v s) (mount_found found s₁)
      by_found name named none s₁ e = tt
      by_found name named (some p) s₁ e =
          OnTrue-map (DidFix v p) (FromPartition v s) _ (λ _ did. (name, p, s₁, named, e, did))
            (mtd_mount_partition-DidFix v p s₁)

      by_device :
          (o : Option Bytes)
          → v.device ≡ o
          → OnTrue (FromPartition v s) (
              elim o as (λ _. M D Bool) [
                | none ↦ crash
                | some name ↦ find_partition io name >>= mount_found
              ]
                s)
      by_device none e = tt
      by_device (some name) e =
          OnTrue-bind (FromPartition v s) (find_partition io name) mount_found s (by_found name e)

  -- One of the two devices of the volume, or the one of the card where it is the card's.
  abbrev pub IsDeviceOf : Volume → RootsState D → Option Bytes → Type 0
  IsDeviceOf v s device =
      (device ≡ v.device)
      ⊎ (((second : Bytes) × (v.device2 ≡ some second) × (device ≡ some second))
          ⊎ ((v.mount_point ≡ codes "/mnt/sdcard")
              × (s₁ : RootsState D) × (sd_device io s ≡ some (device, s₁))))

  mount_sdcard-ByMount :
      (v : Volume) (s : RootsState D) → OnTrue (Did v (IsDeviceOf v s)) (mount_sdcard io v s)
  unfolding mount_sdcard
  mount_sdcard-ByMount v s = elim (Bool-cases (str_eq (codes "/mnt/sdcard") v.mount_point)) [
    | inl card ↦ rw card (
        OnTrue-bind (Did v (IsDeviceOf v s)) (sd_device io)
          (λ device. mount io false device v.mount_point v.fs_type) s
          (λ device s₁ e.
            mount-ByMount v (IsDeviceOf v s) false device
              (inr (inr (sym ((str_eq_iff (codes "/mnt/sdcard") v.mount_point).0 card), s₁, e)))
              s₁))
    | inr other ↦ rw other tt
  ]

  mount_block_device-ByMount :
      (v : Volume) (s : RootsState D) → OnTrue (Did v (IsDeviceOf v s)) (mount_block_device io v s)
  unfolding mount_block_device
  mount_block_device-ByMount v s =
      bind-ByMount v (IsDeviceOf v s) (mount_sdcard io v)
        (λ on_card. if on_card then pure true else on_device) s (mount_sdcard-ByMount v s)
        (λ s₁. refl)
        (λ s₁.
          bind-ByMount v (IsDeviceOf v s) (mount io false v.device v.mount_point v.fs_type)
            (λ mounted. if mounted then pure true else second v.device2) s₁
            (mount-ByMount v (IsDeviceOf v s) false v.device (inl refl) s₁) (λ s₂. refl)
            (by_second v.device2 refl))
    where
      second : Option Bytes → M D Bool
      second o = elim o as (λ _. M D Bool) [
        | none ↦ pure false
        | some device2 ↦ mount io false (some device2) v.mount_point v.fs_type
      ]

      on_device : M D Bool
      on_device = mount io false v.device v.mount_point v.fs_type >>= λ mounted.
          if mounted then pure true else second v.device2

      by_second : (o : Option Bytes) → v.device2 ≡ o → ByMount v (IsDeviceOf v s) (second o)
      by_second none e s₁ = tt
      by_second (some device2) e s₁ =
          mount-ByMount v (IsDeviceOf v s) false (some device2) (inr (inl (device2, e, refl))) s₁

  -- After its mount point was made: a partition of MTD was mounted, for yaffs2, or else one of the
  -- devices; and `s'` is left.
  abbrev pub HasMounted : Volume → RootsState D → RootsState D → Type 0
  HasMounted v s s' =
      let made = record s { sys = io.mkdir s.sys v.mount_point } in
      ((has_type v (codes "yaffs2") ≡ true) × FromPartition v made s')
      ⊎ ((has_type v (codes "yaffs2") ≡ false) × Did v (IsDeviceOf v made) s')

  pub mount_volume-HasMounted :
      (v : Volume) (s : RootsState D) → OnTrue (HasMounted v s) (mount_volume io v s)
  unfolding mount_volume
  mount_volume-HasMounted v s =
      let made = record s { sys = io.mkdir s.sys v.mount_point } in
      OnTrue-if (HasMounted v s) (has_type v (codes "yaffs2")) (mount_yaffs2 io v made) _
        (λ yaffs.
          OnTrue-map (FromPartition v made) (HasMounted v s) _ (λ _ h. inl (yaffs, h))
            (mount_yaffs2-FromPartition v made))
        (λ other.
          OnTrue-if (HasMounted v s)
            (has_type v (codes "ext4") || has_type v (codes "vfat") || has_type v (codes "ext2"))
            (mount_block_device io v made) (some (false, made))
            (λ _.
              OnTrue-map (Did v (IsDeviceOf v made)) (HasMounted v s) _ (λ _ h. inr (other, h))
                (mount_block_device-ByMount v made))
            (λ _. tt))
