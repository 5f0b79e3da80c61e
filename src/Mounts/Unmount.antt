-- ===== src/Mounts/Unmount.antt =====
-- mtdutils/mounts.c: the table after `unmount_mounted_volume`.
use screenbox_rockchip_recov.Prelude.{
  ℕ, zero, suc, ◌<◌, ◌≡◌, refl, ap, true, false, [], ◌∷◌, Option, none, some, arith, Bool-cases,
  inl, inr, if◌then◌else◌, set, get_elem?,
}
use screenbox_rockchip_recov.Prelude.Bytes.{Bytes, str_eq}
use screenbox_rockchip_recov.Prelude.Scanf.{◌>>=◌, OnSome, OnSome-bind, OnSome-given}
use screenbox_rockchip_recov.Mounts.{
  MountedVolume, MountsState, find_mounted_volume_by_mount_point, unmount_mounted_volume,
}
use screenbox_rockchip_recov.Mounts.Laws.{find_mounted_volume_by_mount_point-Slot}

abbrev shift : ℕ × MountedVolume → Option (ℕ × MountedVolume)
shift f = some (suc f.0, f.1)

-- From a slot on.
abbrev IsAfter : ℕ → ℕ × MountedVolume → Type 0
IsAfter slot f = slot < f.0

shift-IsAfter :
    (slot : ℕ) (o : Option (ℕ × MountedVolume))
    → OnSome (IsAfter slot) o
    → OnSome (IsAfter (suc slot)) (o >>= shift)
shift-IsAfter slot o h =
    OnSome-bind (IsAfter slot) (IsAfter (suc slot)) o shift h (λ f lt. omega arith)

shift-positive : (o : Option (ℕ × MountedVolume)) → OnSome (IsAfter 0) (o >>= shift)
shift-positive none = tt
shift-positive (some f) = omega arith

abbrev LaterOnly : Bytes → MountsState → ℕ × MountedVolume → Type 0
LaterOnly mount_point table f =
    OnSome (IsAfter f.0) (find_mounted_volume_by_mount_point mount_point (set table f.0 none))

find-LaterOnly :
    (mount_point : Bytes) (table : MountsState)
    → OnSome (LaterOnly mount_point table) (find_mounted_volume_by_mount_point mount_point table)
unfolding find_mounted_volume_by_mount_point
find-LaterOnly mount_point [] = tt
find-LaterOnly mount_point (none ∷ vs) =
    OnSome-bind (LaterOnly mount_point vs) (LaterOnly mount_point (none ∷ vs))
      (find_mounted_volume_by_mount_point mount_point vs) shift (find-LaterOnly mount_point vs)
      (λ f h.
        shift-IsAfter f.0 (find_mounted_volume_by_mount_point mount_point (set vs f.0 none)) h)
find-LaterOnly mount_point (some v ∷ vs) = elim (Bool-cases (str_eq v.mount_point mount_point)) [
  | inl same ↦ rw same (shift-positive (find_mounted_volume_by_mount_point mount_point vs))
  | inr other ↦
      further other (find_mounted_volume_by_mount_point mount_point vs)
        (find-LaterOnly mount_point vs)
]
  where
    further :
        str_eq v.mount_point mount_point ≡ false
        → (o : Option (ℕ × MountedVolume)) → OnSome (LaterOnly mount_point vs) o
        → OnSome
            (LaterOnly mount_point (some v ∷ vs))
            (if str_eq v.mount_point mount_point then some (0, v) else (o >>= shift))
    further other none h = rw other tt
    further other (some f) h =
        rw (other, other)
          (shift-IsAfter f.0 (find_mounted_volume_by_mount_point mount_point (set vs f.0 none)) h)

find-elsewhere :
    (mount_point : Bytes) (table : MountsState) (slot : ℕ) (v : MountedVolume)
    → get_elem? table slot ≡ some (some v)
    → str_eq v.mount_point mount_point ≡ false
    → find_mounted_volume_by_mount_point mount_point (set table slot none)
      ≡ find_mounted_volume_by_mount_point mount_point table
unfolding find_mounted_volume_by_mount_point
find-elsewhere mount_point [] slot v h other = refl
find-elsewhere mount_point (none ∷ vs) zero v h other = refl
find-elsewhere mount_point (some w ∷ vs) zero v h other =
    let same : w ≡ v = ground arith in
    let other' : str_eq w.mount_point mount_point ≡ false = rw same other in rw other' refl
find-elsewhere mount_point (none ∷ vs) (suc slot) v h other =
    ap (λ o. o >>= shift) (find-elsewhere mount_point vs slot v h other)
find-elsewhere mount_point (some w ∷ vs) (suc slot) v h other =
    ap (λ o. if str_eq w.mount_point mount_point then some (0, w) else (o >>= shift))
      (find-elsewhere mount_point vs slot v h other)

-- After a volume that `find_mounted_volume_by_mount_point` gave was unmounted, a search for its
-- mount point gives a later slot or nothing, and a search for any other gives what it gave before.
pub unmount_mounted_volume-Gone :
    (table : MountsState) (mount_point : Bytes) (slot : ℕ) (v : MountedVolume)
    → find_mounted_volume_by_mount_point mount_point table ≡ some (slot, v)
    → OnSome
        (IsAfter slot)
        (find_mounted_volume_by_mount_point mount_point (unmount_mounted_volume true slot table))
      × ((other : Bytes)
          → str_eq mount_point other ≡ false
          → find_mounted_volume_by_mount_point other (unmount_mounted_volume true slot table)
            ≡ find_mounted_volume_by_mount_point other table)
unfolding unmount_mounted_volume
unmount_mounted_volume-Gone table mount_point slot v found =
    let (same, at_slot) =
      OnSome-given _ _ (slot, v) (find_mounted_volume_by_mount_point-Slot mount_point table)
        found in
    (
      OnSome-given (LaterOnly mount_point table) _ (slot, v) (find-LaterOnly mount_point table)
          found,
      λ other differs. find-elsewhere other table slot v at_slot (rw same differs),
    )
