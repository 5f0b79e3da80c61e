-- ===== src/Roots/Find.antt =====
-- roots.c: which volume `volume_for_path` gives for a path.
use mathlib.Core.Option.{get_or}
use mathlib.Core.Path.{subst}
use screenbox_rockchip_recov.Prelude.{
  ℕ, zero, suc, ◌<◌, get_elem?, ◌≤◌, ◌≡◌, ◌⊎◌, refl, sym, ap, ◌∙◌, Bool, true, false, ◌&&◌, List,
  [], ◌∷◌, ◌++◌, Option, none, some, arith, inl, inr, if◌then◌else◌, ltb, length,
}
use screenbox_rockchip_recov.Prelude.Bytes.{Bytes, starts_with, starts_with_lem, starts_with-append}
use screenbox_rockchip_recov.Prelude.Scanf.{OnSome, OnSome-given}
use screenbox_rockchip_recov.Roots.{
  Volume, System, RootsState, ends_at, find_volume, get_link_path, link_of, directory_of, rooted,
  volume_for_path,
}

-- The path is the mount point, or lies under it.
abbrev UnderAt : Bytes → Bytes → Type 0
UnderAt path m = (path ≡ m) ⊎ ((r : Bytes) × (path ≡ m ++ (b'/' ∷ r)))

abbrev pub Under : Bytes → Volume → Type 0
Under path v = UnderAt path v.mount_point

-- The path ends after `n` bytes, or has a slash there.
abbrev EndsAt : Bytes → ℕ → Type 0
EndsAt path n = (length path ≡ n) ⊎ (get_elem? path n ≡ some b'/')

-- The link begins with the mount point, whose length is compared with the path.
abbrev ByLink : Bytes → Option Bytes → Volume → Type 0
ByLink path none v = ⊥
ByLink path (some link) v =
    ((r : Bytes) × (link ≡ v.mount_point ++ r)) × EndsAt path (length v.mount_point)

-- The link begins with the mount point, and the path is shorter than it.
abbrev Overreads : Bytes → Option Bytes → Volume → Type 0
Overreads path none v = ⊥
Overreads path (some link) v =
    ((r : Bytes) × (link ≡ v.mount_point ++ r)) × (length path < length v.mount_point)

abbrev pub Matches : Bytes → Option Bytes → Volume → Type 0
Matches path link v = Under path v ⊎ ByLink path link v

abbrev pub NoneMatches : Bytes → Option Bytes → List Volume → Type 0
NoneMatches path link [] = Unit
NoneMatches path link (v ∷ vs) = (¬ (Matches path link v)) × NoneMatches path link vs

abbrev pub SomeOverreads : Bytes → Option Bytes → List Volume → Type 0
SomeOverreads path link [] = ⊥
SomeOverreads path link (v ∷ vs) = Overreads path link v ⊎ SomeOverreads path link vs

-- The first volume of the table that the path lies under, or that matches by the link.
abbrev pub IsFirst : Bytes → Option Bytes → List Volume → Option Volume → Type 0
IsFirst path link vs none = NoneMatches path link vs
IsFirst path link vs (some v) =
    Matches path link v
    × (before : List Volume) × (after : List Volume) × (vs ≡ before ++ (v ∷ after))
    × NoneMatches path link before

abbrev is_under_at : Bytes → Bytes → Bool
is_under_at path m = starts_with m path && ends_at path (length m)

is_under_sound : (path m : Bytes) → is_under_at path m ≡ true → UnderAt path m
unfolding starts_with
is_under_sound [] [] h = inl refl
is_under_sound (c ∷ s) [] h = inr (s, ground arith)
is_under_sound [] (p ∷ m) h = ground arith
is_under_sound (c ∷ s) (p ∷ m) h =
    let same : c ≡ p = ground arith in
    elim (is_under_sound s m (ground arith)) [
      | inl e ↦ inl (ground arith)
      | inr (r, e) ↦ inr (r, ground arith)
    ]

is_under_complete : (path m : Bytes) → UnderAt path m → is_under_at path m ≡ true
unfolding starts_with
is_under_complete [] [] h = refl
is_under_complete (c ∷ s) [] (inl e) = ground arith
is_under_complete (c ∷ s) [] (inr (r, e)) = ground arith
is_under_complete [] (p ∷ m) (inl e) = ground arith
is_under_complete [] (p ∷ m) (inr (r, e)) = ground arith
is_under_complete (c ∷ s) (p ∷ m) (inl e) =
    ground (arith, is_under_complete s m (inl (ground arith)))
is_under_complete (c ∷ s) (p ∷ m) (inr (r, e)) =
    ground (arith, is_under_complete s m (inr (r, ground arith)))

ends_at_sound : (path : Bytes) (n : ℕ) → n ≤ length path → ends_at path n ≡ true → EndsAt path n
ends_at_sound [] zero le h = inl refl
ends_at_sound [] (suc n) le h = absurd (omega arith)
ends_at_sound (c ∷ s) zero le h = inr (ground (arith, h))
ends_at_sound (c ∷ s) (suc n) le h = elim (ends_at_sound s n (omega arith) h) [
  | inl e ↦ inl (ap suc e)
  | inr e ↦ inr e
]

ends_at_complete : (path : Bytes) (n : ℕ) → EndsAt path n → ends_at path n ≡ true
ends_at_complete [] zero h = refl
ends_at_complete [] (suc n) (inl e) = ground (arith, e)
ends_at_complete [] (suc n) (inr e) = ground (arith, e)
ends_at_complete (c ∷ s) zero (inl e) = ground (arith, e)
ends_at_complete (c ∷ s) zero (inr e) = ground (arith, e)
ends_at_complete (c ∷ s) (suc n) (inl e) = ends_at_complete s n (inl (omega (arith, e)))
ends_at_complete (c ∷ s) (suc n) (inr e) = ends_at_complete s n (inr e)

-- What the loop gives: `none` is an access beyond the path's end.
abbrev pub Finds : Bytes → Option Bytes → List Volume → Option (Option Volume) → Type 0
Finds path link vs none = SomeOverreads path link vs
Finds path link vs (some r) = IsFirst path link vs r

-- A volume in front that does not match changes nothing.
Finds-further :
    (path : Bytes) (link : Option Bytes) (v : Volume) (vs : List Volume)
    → ¬ (Matches path link v)
    → (o : Option (Option Volume)) → Finds path link vs o
    → Finds path link (v ∷ vs) o
Finds-further path link v vs other none h = inr h
Finds-further path link v vs other (some none) h = (other, h)
Finds-further path link v vs other (some (some w)) (m, before, after, split, unders) =
    (m, v ∷ before, after, ap (λ l. v ∷ l) split, (other, unders))

not_under : (path m : Bytes) → is_under_at path m ≡ false → ¬ (UnderAt path m)
not_under path m e u = let e' = is_under_complete path m u in ground (arith, e, e')

here :
    (path : Bytes) (link : Option Bytes) (v : Volume) (vs : List Volume)
    → Matches path link v
    → Finds path link (v ∷ vs) (some (some v))
here path link v vs m = (m, [], vs, refl, tt)

-- A volume that the path does not lie under, by the link.
by_link-Finds :
    (path l : Bytes) (v : Volume) (vs : List Volume)
    → ¬ (Under path v)
    → (o : Option (Option Volume)) → Finds path (some l) vs o
    → Finds path (some l) (v ∷ vs) (
        if starts_with v.mount_point l
        then (if ltb (length path) (length v.mount_point)
            then none
            else (if ends_at path (length v.mount_point) then some (some v) else o))
        else o)
by_link-Finds path l v vs other o h = by_prefix (starts_with v.mount_point l) refl
  where
    further : ¬ (ByLink path (some l) v) → Finds path (some l) (v ∷ vs) o
    further unlinked =
        Finds-further path (some l) v vs (λ m. elim m [ inl u ↦ other u | inr k ↦ unlinked k ]) o h

    by_end :
        (r : Bytes)
        → l ≡ v.mount_point ++ r
        → length v.mount_point ≤ length path
        → (b : Bool) → ends_at path (length v.mount_point) ≡ b
        → Finds path (some l) (v ∷ vs) (if b then some (some v) else o)
    by_end r e le true q =
        here path (some l) v vs (inr ((r, e), ends_at_sound path (length v.mount_point) le q))
    by_end r e le false q =
        further
          (λ k. let q' = ends_at_complete path (length v.mount_point) k.1 in ground (arith, q, q'))

    by_length :
        (r : Bytes)
        → l ≡ v.mount_point ++ r
        → (b : Bool) → ltb (length path) (length v.mount_point) ≡ b
        → Finds path
            (some l)
            (v ∷ vs)
            (if b then none else (if ends_at path (length v.mount_point) then some (some v) else o))
    by_length r e true q = inl ((r, e), ground (arith, q))
    by_length r e false q =
        by_end r e (ground (arith, q)) (ends_at path (length v.mount_point)) refl

    by_prefix :
        (b : Bool)
        → starts_with v.mount_point l ≡ b
        → Finds path (some l) (v ∷ vs) (
            if b
            then (if ltb (length path) (length v.mount_point)
                then none
                else (if ends_at path (length v.mount_point) then some (some v) else o))
            else o)
    by_prefix true q =
        let (r, e) = starts_with_lem v.mount_point l q in
        by_length r e (ltb (length path) (length v.mount_point)) refl
    by_prefix false q = further (λ k.
        let same : starts_with v.mount_point l ≡ true =
          ap (starts_with v.mount_point) k.0.1 ∙ starts_with-append v.mount_point k.0.0 in
        ground (arith, q, same))

first_or :
    (path : Bytes) (link : Option Bytes) (v : Volume) (vs : List Volume)
    (o : Option (Option Volume))
    → (¬ (Under path v) → Finds path link (v ∷ vs) o)
    → (b : Bool) → is_under_at path v.mount_point ≡ b
    → Finds path link (v ∷ vs) (if b then some (some v) else o)
first_or path link v vs o f true e = here path link v vs (inl (is_under_sound path v.mount_point e))
first_or path link v vs o f false e = f (not_under path v.mount_point e)

find_volume-Finds :
    (path : Bytes) (link : Option Bytes) (vs : List Volume)
    → Finds path link vs (find_volume path link vs)
unfolding find_volume
find_volume-Finds path link [] = tt
find_volume-Finds path none (v ∷ vs) =
    first_or path none v vs _
      (λ other.
        Finds-further path none v vs (λ m. elim m [ inl u ↦ other u | inr k ↦ k ])
          (find_volume path none vs) (find_volume-Finds path none vs))
      (is_under_at path v.mount_point) refl
find_volume-Finds path (some l) (v ∷ vs) =
    first_or path (some l) v vs _
      (λ other.
        by_link-Finds path l v vs other (find_volume path (some l) vs)
          (find_volume-Finds path (some l) vs))
      (is_under_at path v.mount_point) refl

module _ {D : Type 0} (io : System D) where
  abbrev Found : Type 0
  Found = Option Volume × RootsState D

  -- `volume_for_path`, of what `get_link_path` returns.
  abbrev with_link : Bytes → RootsState D → Option (Option Bytes) → Option Found
  with_link path s none = none
  with_link path s (some link) =
      elim (find_volume path link s.device_volumes) as (λ _. Option Found) [
        | none ↦ none
        | some v ↦ some (v, record s { mount_point = get_or link [] })
      ]

  abbrev set_link : RootsState D → Option (Option Bytes) → Option (Option Bytes × RootsState D)
  set_link s o = elim o as (λ _. Option (Option Bytes × RootsState D)) [
    | none ↦ none
    | some link ↦ some (link, record s { mount_point = get_or link [] })
  ]

  abbrev after_link : Bytes → Option (Option Bytes × RootsState D) → Option Found
  after_link path g = elim g as (λ _. Option Found) [
    | none ↦ none
    | some (link, s) ↦ elim (find_volume path link s.device_volumes) [
      | none ↦ none
      | some v ↦ some (v, s)
    ]
  ]

  volume_for_path-with_link :
      (path : Bytes) (s : RootsState D) (o : Option (Option Bytes))
      → link_of io path s.sys ≡ o
      → volume_for_path io path s ≡ with_link path s o
  unfolding volume_for_path get_link_path
  volume_for_path-with_link path s none e = ap (λ o. after_link path (set_link s o)) e
  volume_for_path-with_link path s (some link) e = ap (λ o. after_link path (set_link s o)) e

  not_above : (n : ℕ) → n ≤ 255 → ltb 255 n ≡ false
  not_above n h = ground arith

  -- What a link that was read becomes, and that it fits its buffer.
  abbrev pub rooted_link : Option Bytes → Option Bytes
  rooted_link none = none
  rooted_link (some l) = some (rooted l)

  abbrev pub Fits : Option Bytes → Type 0
  Fits none = Unit
  Fits (some l) = length (rooted l) ≤ 255

  link_of_lem :
      (path : Bytes) (d : D) (raw : Option Bytes)
      → length path ≤ 255
      → io.readlink d (directory_of path) ≡ raw
      → Fits raw
      → link_of io path d ≡ some (rooted_link raw)
  unfolding link_of
  link_of_lem path d none le e fits = rw (link_of, not_above (length path) le, e) refl
  link_of_lem path d (some l) le e fits =
      rw (link_of, not_above (length path) le, e, not_above (length (rooted l)) fits) refl

  -- The first volume that matches, or an access beyond the path's end.
  abbrev pub Answers : Bytes → Option Bytes → RootsState D → Option Found → Type 0
  Answers path link s none = SomeOverreads path link s.device_volumes
  Answers path link s (some (r, s')) =
      IsFirst path link s.device_volumes r × (s' ≡ record s { mount_point = get_or link [] })

  -- For a path, and a link in place of its directory, if there is one, that fit their buffers:
  -- `volume_for_path` gives the first volume of the table whose mount point is the path or a
  -- directory above it, or whose mount point the link begins with, where the path ends after as many
  -- bytes or has a slash there; NULL exactly if there is none. It reads beyond the path's end only
  -- where the link begins with a mount point that is longer than the path, and changes nothing but
  -- `mount_point`, which becomes the link or empty.
  pub volume_for_path-IsFirst :
      (path : Bytes) (s : RootsState D) (raw : Option Bytes)
      → length path ≤ 255
      → io.readlink s.sys (directory_of path) ≡ raw
      → Fits raw
      → Answers path (rooted_link raw) s (volume_for_path io path s)
  volume_for_path-IsFirst path s raw le read fits =
      subst (Answers path (rooted_link raw) s)
        (sym (
          volume_for_path-with_link path s (some (rooted_link raw))
            (link_of_lem path s.sys raw le read fits)))
        (by_volume (find_volume path (rooted_link raw) s.device_volumes)
          (find_volume-Finds path (rooted_link raw) s.device_volumes))
    where
      by_volume :
          (q : Option (Option Volume))
          → Finds path (rooted_link raw) s.device_volumes q
          → Answers path (rooted_link raw) s (elim q as (λ _. Option Found) [
            | none ↦ none
            | some v ↦ some (v, record s { mount_point = get_or (rooted_link raw) [] })
          ])
      by_volume none h = h
      by_volume (some r) h = (h, refl)

  abbrev IsStable : Bytes → RootsState D → Option (Option Bytes) → Found → Type 0
  IsStable path s o x =
      (x.1.sys ≡ s.sys) × (x.1.mounts ≡ s.mounts) × (with_link path x.1 o ≡ some x)

  with_link-IsStable :
      (path : Bytes) (s : RootsState D) (o : Option (Option Bytes))
      → OnSome (IsStable path s o) (with_link path s o)
  with_link-IsStable path s none = tt
  with_link-IsStable path s (some link) = by_volume (find_volume path link s.device_volumes) refl
    where
      by_volume :
          (q : Option (Option Volume))
          → find_volume path link s.device_volumes ≡ q
          → OnSome (IsStable path s (some link)) (elim q as (λ _. Option Found) [
            | none ↦ none
            | some v ↦ some (v, record s { mount_point = get_or link [] })
          ])
      by_volume none e = tt
      by_volume (some v) e = (refl, refl, rw (with_link, e) refl)

  -- A second call gives the same volume, and neither changes the system or the mounted volumes.
  pub volume_for_path_again :
      (path : Bytes) (s s' : RootsState D) (r : Option Volume)
      → volume_for_path io path s ≡ some (r, s')
      → (s'.sys ≡ s.sys) × (s'.mounts ≡ s.mounts) × (volume_for_path io path s' ≡ some (r, s'))
  volume_for_path_again path s s' r e =
      let o = link_of io path s.sys in
      let (same, mounts, again) =
        OnSome-given (IsStable path s o) _ (r, s') (with_link-IsStable path s o)
          (sym (volume_for_path-with_link path s o refl) ∙ e) in
      (same, mounts, volume_for_path-with_link path s' o (ap (link_of io path) same) ∙ again)
