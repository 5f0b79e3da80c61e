-- ===== src/ApplyPatch/Cache/Expendable.antt =====
-- applypatch/freecache.c: which files `MakeFreeSpaceOnCache` deletes, and how many of them.
use mathlib.Core.Path.{subst}
use screenbox_rockchip_recov.Prelude.{
  zero, suc, ◌≡◌, ◌≢◌, refl, sym, ap, true, ◌||◌, not, List, [], ◌∷◌, ◌++◌, Option, none, some,
  arith, Bool-cases, inl, inr, if◌then◌else◌, IsListed,
}
use screenbox_rockchip_recov.Prelude.Bytes.{
  Bytes, codes, str_eq, str_eq_iff, starts_with, starts_with-append,
}
use screenbox_rockchip_recov.ApplyPatch.Check.{cache_temp_source}
use screenbox_rockchip_recov.ApplyPatch.Cache.Files.{
  AllFiles, AllFiles-append, Without, drop_file-Without, AllFiles-map, AllFiles-each, AllFiles-both,
}
use screenbox_rockchip_recov.ApplyPatch.Cache.{
  Disk, dirs, path_in, is_numeric, fd_dir, drop_file, drop_link, drop_links, drop_of_process,
  drop_open, eliminate_open_files, regular_files, files_of,
}

module _ {D : Type 0} (disk : Disk D) (d : D) where
  -- A descriptor of a process.
  pub record Descriptor : Type 0 where
    pub processes : List Bytes
    pub has_proc : disk.opendir d (codes "/proc") ≡ some processes
    pub name : Bytes
    pub name_listed : IsListed name processes
    pub numeric : is_numeric name ≡ true
    pub fds : List Bytes
    pub has_fds : disk.opendir d (fd_dir name) ≡ some fds
    pub fd : Bytes
    pub fd_listed : IsListed fd fds

  abbrev pub link_of : Descriptor → Option Bytes
  link_of o = disk.readlink d (fd_dir o.name ++ o.fd)

  -- A descriptor of a process refers to the file.
  abbrev pub IsOpen : Bytes → Type 0
  IsOpen f = (o : Descriptor) × (link_of o ≡ some f)

  -- A regular file of one of the two directories, but the saved copy.
  abbrev pub IsCandidate : Bytes → Type 0
  IsCandidate f =
      (dir : Bytes) × (IsListed dir dirs)
      × (names : List Bytes) × (disk.opendir d dir ≡ some names)
      × (name : Bytes) × (IsListed name names)
      × (f ≡ path_in dir name)
      × (f ≢ cache_temp_source)
      × (disk.is_regular d f ≡ true)

  abbrev pub IsExpendable : Bytes → Type 0
  IsExpendable f = IsCandidate f × (IsOpen f → ⊥)

  drop_link-AllFiles :
      (P : Bytes → Type 0) (link : Option Bytes) (files : List (Option Bytes))
      → AllFiles P files
      → AllFiles P (drop_link disk link files)
  unfolding drop_link
  drop_link-AllFiles P none files h = h
  drop_link-AllFiles P (some link) files h =
      elim (Bool-cases (starts_with (codes "/cache/") link)) [
        | inl in_cache ↦ rw in_cache (
            AllFiles-map (Without P link) P (drop_file link files) (λ f w. w.0)
              (drop_file-Without P link files h))
        | inr other ↦ rw other h
      ]

  drop_links-AllFiles :
      (P : Bytes → Type 0) (path : Bytes) (fds : List Bytes) (files : List (Option Bytes))
      → AllFiles P files
      → AllFiles P (drop_links disk d path fds files)
  unfolding drop_links
  drop_links-AllFiles P path [] files h = h
  drop_links-AllFiles P path (fd ∷ fds) files h =
      drop_links-AllFiles P path fds _ (drop_link-AllFiles P (disk.readlink d (path ++ fd)) files h)

  drop_of_process-AllFiles :
      (P : Bytes → Type 0) (name : Bytes) (files : List (Option Bytes))
      → AllFiles P files
      → AllFiles P (drop_of_process disk d name files)
  unfolding drop_of_process
  drop_of_process-AllFiles P name files h = by_fds (disk.opendir d (fd_dir name))
    where
      by_fds :
          (o : Option (List Bytes))
          → AllFiles P
              (elim o [ none ↦ files | some fds ↦ drop_links disk d (fd_dir name) fds files ])
      by_fds none = h
      by_fds (some fds) = drop_links-AllFiles P (fd_dir name) fds files h

  drop_named-AllFiles :
      (P : Bytes → Type 0) (name : Bytes) (files : List (Option Bytes))
      → AllFiles P files
      → AllFiles P (if is_numeric name then drop_of_process disk d name files else files)
  drop_named-AllFiles P name files h = elim (Bool-cases (is_numeric name)) [
    | inl numeric ↦ rw numeric (drop_of_process-AllFiles P name files h)
    | inr other ↦ rw other h
  ]

  drop_open-AllFiles :
      (P : Bytes → Type 0) (names : List Bytes) (files : List (Option Bytes))
      → AllFiles P files
      → AllFiles P (drop_open disk d names files)
  unfolding drop_open
  drop_open-AllFiles P [] files h = h
  drop_open-AllFiles P (name ∷ names) files h =
      drop_open-AllFiles P names _ (drop_named-AllFiles P name files h)

  -- A file of the cache, by its path.
  abbrev InCache : Bytes → Type 0
  InCache f = starts_with (codes "/cache/") f ≡ true

  abbrev IsNot : Option Bytes → Bytes → Type 0
  IsNot link f = link ≢ some f

  drop_link-IsNot :
      (link : Option Bytes) (files : List (Option Bytes))
      → AllFiles InCache files
      → AllFiles (IsNot link) (drop_link disk link files)
  unfolding drop_link
  drop_link-IsNot none files h = AllFiles-map InCache (IsNot none) files (λ f r e. ground arith) h
  drop_link-IsNot (some link) files h = elim (Bool-cases (starts_with (codes "/cache/") link)) [
    | inl in_cache ↦ rw in_cache (
        AllFiles-map (Without InCache link) (IsNot (some link)) (drop_file link files)
          (λ f w e. w.1 (ground (arith, e))) (drop_file-Without InCache link files h))
    | inr other ↦ rw other (
        AllFiles-map InCache (IsNot (some link)) files
          (λ f in_cache e.
            let same : link ≡ f = ground (arith, e) in
            let there = ap (starts_with (codes "/cache/")) same in
            absurd (ground (arith, other, in_cache, there)))
          h)
  ]

  drop_links-IsNot :
      (path fd : Bytes) (fds : List Bytes) (files : List (Option Bytes))
      → IsListed fd fds
      → AllFiles InCache files
      → AllFiles (IsNot (disk.readlink d (path ++ fd))) (drop_links disk d path fds files)
  unfolding drop_links
  drop_links-IsNot path fd [] files (i, e) h = absurd (ground (arith, e))
  drop_links-IsNot path fd (g ∷ fds) files (zero, e) h =
      let same : g ≡ fd = ground (arith, e) in
      rw same
        (drop_links-AllFiles _ path fds _ (drop_link-IsNot (disk.readlink d (path ++ fd)) files h))
  drop_links-IsNot path fd (g ∷ fds) files (suc i, e) h =
      drop_links-IsNot path fd fds _ (i, e)
        (drop_link-AllFiles InCache (disk.readlink d (path ++ g)) files h)

  drop_of_process-IsNot :
      (name fd : Bytes) (fds : List Bytes) (files : List (Option Bytes))
      → disk.opendir d (fd_dir name) ≡ some fds
      → IsListed fd fds
      → AllFiles InCache files
      → AllFiles (IsNot (disk.readlink d (fd_dir name ++ fd))) (drop_of_process disk d name files)
  unfolding drop_of_process
  drop_of_process-IsNot name fd fds files e listed h = by_fds (disk.opendir d (fd_dir name)) e
    where
      by_fds :
          (o : Option (List Bytes))
          → o ≡ some fds
          → AllFiles
              (IsNot (disk.readlink d (fd_dir name ++ fd)))
              (elim o [ none ↦ files | some fs ↦ drop_links disk d (fd_dir name) fs files ])
      by_fds none q = ground arith
      by_fds (some fs) q =
          let same : fs ≡ fds = ground (arith, q) in
          rw same (drop_links-IsNot (fd_dir name) fd fds files listed h)

  drop_open-IsNot :
      (name fd : Bytes) (names fds : List Bytes) (files : List (Option Bytes))
      → IsListed name names
      → is_numeric name ≡ true
      → disk.opendir d (fd_dir name) ≡ some fds
      → IsListed fd fds
      → AllFiles InCache files
      → AllFiles (IsNot (disk.readlink d (fd_dir name ++ fd))) (drop_open disk d names files)
  unfolding drop_open
  drop_open-IsNot name fd [] fds files (i, e) numeric opened listed h = absurd (ground (arith, e))
  drop_open-IsNot name fd (n ∷ names) fds files (zero, e) numeric opened listed h =
      let same : n ≡ name = ground (arith, e) in
      rw (same, numeric)
        (drop_open-AllFiles _ names _ (drop_of_process-IsNot name fd fds files opened listed h))
  drop_open-IsNot name fd (n ∷ names) fds files (suc i, e) numeric opened listed h =
      drop_open-IsNot name fd names fds _ (i, e) numeric opened listed
        (drop_named-AllFiles InCache n files h)

  dir-InCache : (dir name : Bytes) → IsListed dir dirs → InCache (path_in dir name)
  dir-InCache dir name (zero, e) =
      let same : codes "/cache" ≡ dir = ground (arith, e) in
      rw (sym same) (starts_with-append (codes "/cache/") name)
  dir-InCache dir name (suc zero, e) =
      let same : codes "/cache/recovery/otatest" ≡ dir = ground (arith, e) in
      rw (sym same) (starts_with-append (codes "/cache/") (codes "recovery/otatest/" ++ name))
  dir-InCache dir name (suc (suc i), e) = ground (arith, e)

  candidate-InCache : (f : Bytes) → IsCandidate f → InCache f
  candidate-InCache f (dir, listed, names, opened, name, there, same, kept, regular) =
      rw same (dir-InCache dir name listed)

  regular_files-AllFiles :
      (dir : Bytes) (all names : List Bytes)
      → IsListed dir dirs
      → disk.opendir d dir ≡ some all
      → ((name : Bytes) → IsListed name names → IsListed name all)
      → AllFiles IsCandidate (regular_files disk d dir names)
  unfolding regular_files
  regular_files-AllFiles dir all [] listed opened sub = tt
  regular_files-AllFiles dir all (name ∷ names) listed opened sub =
      let rest =
        regular_files-AllFiles dir all names listed opened
          (λ n there. let (i, e) = there in sub n (suc i, e)) in
      elim (Bool-cases (
        str_eq (path_in dir name) cache_temp_source
        || not (disk.is_regular d (path_in dir name)))) [
          | inl passed_over ↦ rw passed_over rest
          | inr taken ↦ rw taken (
            (
              dir,
              listed,
              all,
              opened,
              name,
              sub name (0, refl),
              refl,
              λ e.
                  let same = (str_eq_iff (path_in dir name) cache_temp_source).1 e in
                  ground (arith, same, taken),
              ground (arith, taken),
            ),
            rest,
          )
        ]

  pub files_of-AllFiles :
      (some_dirs : List Bytes)
      → ((dir : Bytes) → IsListed dir some_dirs → IsListed dir dirs)
      → AllFiles IsCandidate (files_of disk d some_dirs)
  unfolding files_of
  files_of-AllFiles [] sub = tt
  files_of-AllFiles (dir ∷ more) sub =
      by_names (disk.opendir d dir) refl
        (files_of-AllFiles more (λ n there. let (i, e) = there in sub n (suc i, e)))
    where
      by_names :
          (o : Option (List Bytes))
          → disk.opendir d dir ≡ o
          → AllFiles IsCandidate (files_of disk d more)
          → AllFiles IsCandidate (elim o [
            | none ↦ files_of disk d more
            | some names ↦ regular_files disk d dir names ++ files_of disk d more
          ])
      by_names none e rest = rest
      by_names (some names) e rest =
          AllFiles-append IsCandidate (regular_files disk d dir names) (files_of disk d more)
            (regular_files-AllFiles dir names names (sub dir (0, refl)) e (λ n there. there)) rest

  pub eliminate_open_files-AllFiles :
      (files names : List (Option Bytes))
      → AllFiles IsCandidate files
      → eliminate_open_files disk d files ≡ some names
      → AllFiles IsExpendable names
  unfolding eliminate_open_files
  eliminate_open_files-AllFiles files names h e =
      by_processes (disk.opendir d (codes "/proc")) refl e
    where
      by_processes :
          (o : Option (List Bytes))
          → disk.opendir d (codes "/proc") ≡ o
          → (elim o as (λ _. Option (List (Option Bytes))) [
            | none ↦ none
            | some ps ↦ some (drop_open disk d ps files)
          ])
            ≡ some names
          → AllFiles IsExpendable names
      by_processes none opened q = ground arith
      by_processes (some ps) opened q =
          let same : drop_open disk d ps files ≡ names = ground (arith, q) in
          rw (sym same) (
            AllFiles-both IsCandidate (λ f. IsOpen f → ⊥) (drop_open disk d ps files)
              (drop_open-AllFiles IsCandidate ps files h)
              (AllFiles-map (λ f. (o : Descriptor) → IsNot (link_of o) f) (λ f. IsOpen f → ⊥)
                (drop_open disk d ps files) (λ f closed (o, e). closed o e)
                (AllFiles-each (λ o. IsNot (link_of o)) (drop_open disk d ps files)
                  (λ o.
                    let listed : o.processes ≡ ps = ground (arith, o.has_proc, opened) in
                    drop_open-IsNot o.name o.fd ps o.fds files
                      (subst (IsListed o.name) listed o.name_listed) o.numeric o.has_fds o.fd_listed
                      (AllFiles-map IsCandidate InCache files candidate-InCache h)))))
