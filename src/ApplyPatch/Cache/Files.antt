-- ===== src/ApplyPatch/Cache/Files.antt =====
-- applypatch/freecache.c: lists of files in which NULL stands for those that are open.
use screenbox_rockchip_recov.Prelude.{
  ◌≢◌, List, [], ◌∷◌, ◌++◌, Option, none, some, arith, Bool-cases, inl, inr,
}
use screenbox_rockchip_recov.Prelude.Bytes.{Bytes, str_eq, str_eq_iff}
use screenbox_rockchip_recov.ApplyPatch.Cache.{drop_file}

-- `P` holds of each file that is not NULL.
abbrev pub AllFiles : (Bytes → Type 0) → List (Option Bytes) → Type 0
AllFiles P [] = Unit
AllFiles P (none ∷ files) = AllFiles P files
AllFiles P (some f ∷ files) = P f × AllFiles P files

pub AllFiles-append :
    (P : Bytes → Type 0) (xs ys : List (Option Bytes))
    → AllFiles P xs
    → AllFiles P ys
    → AllFiles P (xs ++ ys)
AllFiles-append P [] ys h g = g
AllFiles-append P (none ∷ xs) ys h g = AllFiles-append P xs ys h g
AllFiles-append P (some f ∷ xs) ys h g = (h.0, AllFiles-append P xs ys h.1 g)

-- Files that satisfy `P` and are none of the link's.
abbrev pub Without : (Bytes → Type 0) → Bytes → Bytes → Type 0
Without P link f = P f × (f ≢ link)

pub drop_file-Without :
    (P : Bytes → Type 0) (link : Bytes) (files : List (Option Bytes))
    → AllFiles P files
    → AllFiles (Without P link) (drop_file link files)
unfolding drop_file
drop_file-Without P link [] h = tt
drop_file-Without P link (none ∷ files) h = drop_file-Without P link files h
drop_file-Without P link (some f ∷ files) h = elim (Bool-cases (str_eq f link)) [
  | inl same ↦ rw same (drop_file-Without P link files h.1)
  | inr differs ↦ rw differs (
    (h.0, λ e. let same = (str_eq_iff f link).1 e in ground (arith, same, differs)),
    drop_file-Without P link files h.1,
  )
]

pub AllFiles-map :
    (P Q : Bytes → Type 0) (files : List (Option Bytes))
    → ((f : Bytes) → P f → Q f)
    → AllFiles P files
    → AllFiles Q files
AllFiles-map P Q [] k h = tt
AllFiles-map P Q (none ∷ files) k h = AllFiles-map P Q files k h
AllFiles-map P Q (some f ∷ files) k h = (k f h.0, AllFiles-map P Q files k h.1)

pub AllFiles-each :
    {X : Type 0} (P : X → Bytes → Type 0) (files : List (Option Bytes))
    → ((x : X) → AllFiles (P x) files)
    → AllFiles (λ f. (x : X) → P x f) files
AllFiles-each P [] h = tt
AllFiles-each P (none ∷ files) h = AllFiles-each P files h
AllFiles-each P (some f ∷ files) h = (λ x. (h x).0, AllFiles-each P files (λ x. (h x).1))

pub AllFiles-both :
    (P Q : Bytes → Type 0) (files : List (Option Bytes))
    → AllFiles P files
    → AllFiles Q files
    → AllFiles (λ f. P f × Q f) files
AllFiles-both P Q [] h g = tt
AllFiles-both P Q (none ∷ files) h g = AllFiles-both P Q files h g
AllFiles-both P Q (some f ∷ files) h g = ((h.0, g.0), AllFiles-both P Q files h.1 g.1)
