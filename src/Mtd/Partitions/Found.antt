-- ===== src/Mtd/Partitions/Found.antt =====
-- mtdutils/mtdutils.c: what a scan of /proc/mtd leaves for `mtd_find_partition_by_name`.
use mathlib.Core.Path.{subst}
use screenbox_rockchip_recov.Prelude.{
  ℕ, zero, suc, ◌+◌, ◌≤◌, ◌≡◌, refl, sym, ap, ◌∙◌, Bool, true, false, List, [], ◌∷◌, Option, none,
  some, arith, ltb, Bool-cases, inl, inr, if◌then◌else◌, length, set, get_elem?, map, replicate,
  take, take_all,
}
use screenbox_rockchip_recov.Prelude.Int.{ℤ, pos, negsuc}
use screenbox_rockchip_recov.Prelude.Bytes.{Bytes, str_eq, str_eq_iff}
use screenbox_rockchip_recov.Prelude.Scanf.{◌>>=◌, eat_line, OnSome, OnSome-bind, OnSome-given}
use screenbox_rockchip_recov.Mtd.Partitions.{
  MtdPartition, MtdState, scan_partition, store_partition, scan_lines, cleared, read_size,
  mtd_scan_partitions, mtd_find_partition_by_name,
}

-- From slot `k` on, each partition stands in the slot of its number.
abbrev pub AreIndexed : ℕ → List (Option MtdPartition) → Type 0
AreIndexed k [] = Unit
AreIndexed k (none ∷ ps) = AreIndexed (suc k) ps
AreIndexed k (some p ∷ ps) = (p.device_index ≡ k) × AreIndexed (suc k) ps

replicate-AreIndexed : (n k : ℕ) → AreIndexed k (replicate n none)
replicate-AreIndexed zero k = tt
replicate-AreIndexed (suc n) k = replicate-AreIndexed n (suc k)

map-AreIndexed : (ps : List (Option MtdPartition)) (k : ℕ) → AreIndexed k (map (λ _. none) ps)
map-AreIndexed [] k = tt
map-AreIndexed (p ∷ ps) k = map-AreIndexed ps (suc k)

cleared-AreIndexed : (old : Option MtdState) → AreIndexed 0 (cleared old)
cleared-AreIndexed none = replicate-AreIndexed 32 0
cleared-AreIndexed (some s) = map-AreIndexed s.partitions 0

set-AreIndexed :
    (ps : List (Option MtdPartition)) (k n : ℕ) (p : MtdPartition)
    → AreIndexed k ps
    → p.device_index ≡ k + n
    → AreIndexed k (set ps n (some p))
set-AreIndexed [] k n p h e = tt
set-AreIndexed (none ∷ ps) k zero p h e = (omega arith, h)
set-AreIndexed (some q ∷ ps) k zero p h e = (omega arith, h.1)
set-AreIndexed (none ∷ ps) k (suc n) p h e = set-AreIndexed ps (suc k) n p h (omega arith)
set-AreIndexed (some q ∷ ps) k (suc n) p h e =
    (h.0, set-AreIndexed ps (suc k) n p h.1 (omega arith))

store_partition-AreIndexed :
    (v : ℤ × (ℤ × (ℤ × Bytes))) (table : List (Option MtdPartition))
    → AreIndexed 0 table
    → OnSome (AreIndexed 0) (store_partition v table)
unfolding store_partition
store_partition-AreIndexed (negsuc n, v) table h = tt
store_partition-AreIndexed (pos n, (size, (erase, name))) table h =
    elim (Bool-cases (ltb n (length table))) [
      | inl inside ↦
          let p : MtdPartition = record {
            device_index = n;
            size = size;
            erase_size = erase;
            name = name;
          } in
          rw inside (set-AreIndexed table 0 n p h (omega arith))
      | inr outside ↦ rw outside tt
    ]

abbrev IsIndexed : List (Option MtdPartition) × ℕ → Type 0
IsIndexed r = AreIndexed 0 r.0

scan_lines-AreIndexed :
    (fuel : ℕ) (bufp : Bytes) (table : List (Option MtdPartition)) (count : ℕ)
    → AreIndexed 0 table
    → OnSome IsIndexed (scan_lines fuel bufp table count)
unfolding scan_lines
scan_lines-AreIndexed zero bufp table count h = h
scan_lines-AreIndexed (suc fuel) [] table count h = h
scan_lines-AreIndexed (suc fuel) (b ∷ bufp) table count h =
    stored (scan_partition (b ∷ bufp)) (scan_lines-AreIndexed fuel (eat_line (b ∷ bufp)))
  where
    stored :
        (o : Option (ℤ × (ℤ × (ℤ × Bytes))))
        → ((t : List (Option MtdPartition)) (n : ℕ)
            → AreIndexed 0 t
            → OnSome IsIndexed (scan_lines fuel (eat_line (b ∷ bufp)) t n))
        → OnSome IsIndexed (elim o as (λ _. Option (List (Option MtdPartition) × ℕ)) [
          | none ↦ scan_lines fuel (eat_line (b ∷ bufp)) table count
          | some v ↦ store_partition v table >>= λ table'.
              scan_lines fuel (eat_line (b ∷ bufp)) table' (suc count)
        ])
    stored none ih = ih table count h
    stored (some v) ih =
        OnSome-bind (AreIndexed 0) IsIndexed (store_partition v table) _
          (store_partition-AreIndexed v table h) (λ t h'. ih t (suc count) h')

mtd_scan_partitions-AreIndexed :
    (contents : Option Bytes) (old : Option MtdState)
    → OnSome (λ (s : MtdState). AreIndexed 0 s.partitions) (mtd_scan_partitions contents old)
unfolding mtd_scan_partitions
mtd_scan_partitions-AreIndexed none old = cleared-AreIndexed old
mtd_scan_partitions-AreIndexed (some bytes) old =
    OnSome-bind IsIndexed (λ (s : MtdState). AreIndexed 0 s.partitions)
      (scan_lines (length (take read_size bytes)) (take read_size bytes) (cleared old) 0)
      (λ x. some (record { partitions = x.0; partition_count = pos x.1 }))
      (scan_lines-AreIndexed (length (take read_size bytes)) (take read_size bytes) (cleared old) 0
        (cleared-AreIndexed old))
      (λ r h. h)

-- What is found in the slots from `k` on.
abbrev FoundAt : ℕ → List (Option MtdPartition) → Bytes → MtdPartition → Type 0
FoundAt k ps name p =
    (p.name ≡ name) × (i : ℕ) × (p.device_index ≡ k + i) × (get_elem? ps i ≡ some (some p))

find-FoundAt :
    (ps : List (Option MtdPartition)) (k : ℕ) (name : Bytes)
    → AreIndexed k ps
    → OnSome (FoundAt k ps name) (mtd_find_partition_by_name name ps)
unfolding mtd_find_partition_by_name
find-FoundAt [] k name h = tt
find-FoundAt (none ∷ ps) k name h =
    further (mtd_find_partition_by_name name ps) (find-FoundAt ps (suc k) name h)
  where
    further :
        (o : Option MtdPartition)
        → OnSome (FoundAt (suc k) ps name) o
        → OnSome (FoundAt k (none ∷ ps) name) o
    further none f = tt
    further (some p) (same, i, e, at_i) = (same, suc i, omega arith, at_i)
find-FoundAt (some q ∷ ps) k name h =
    here_or (str_eq q.name name) refl (mtd_find_partition_by_name name ps)
      (find-FoundAt ps (suc k) name h.1)
  where
    here_or :
        (b : Bool)
        → str_eq q.name name ≡ b
        → (o : Option MtdPartition) → OnSome (FoundAt (suc k) ps name) o
        → OnSome (FoundAt k (some q ∷ ps) name) (if b then some q else o)
    here_or true e o f = ((str_eq_iff q.name name).0 e, 0, omega (arith, h.0), refl)
    here_or false e none f = tt
    here_or false e (some p) (same, i, e', at_i) = (same, suc i, omega arith, at_i)

-- After a scan, a partition that is found by a name has this name and stands in the slot of its
-- number: whatever /proc/mtd and the table held before.
pub mtd_find_partition_by_name-Indexed :
    (contents : Option Bytes) (old : Option MtdState) (s : MtdState) (name : Bytes)
    (p : MtdPartition)
    → mtd_scan_partitions contents old ≡ some s
    → mtd_find_partition_by_name name s.partitions ≡ some p
    → (p.name ≡ name) × (get_elem? s.partitions p.device_index ≡ some (some p))
mtd_find_partition_by_name-Indexed contents old s name p scanned found =
    let h =
      OnSome-given (λ s. AreIndexed 0 s.partitions) _ s
        (mtd_scan_partitions-AreIndexed contents old) scanned in
    let (same, i, e, at_i) =
      OnSome-given (FoundAt 0 s.partitions name) _ p (find-FoundAt s.partitions 0 name h) found in
    let here : p.device_index ≡ i = omega arith in
    (same, subst (λ j. get_elem? s.partitions j ≡ some (some p)) (sym here) at_i)

not_below : (n m : ℕ) → m ≤ n → ltb n m ≡ false
not_below n m h = ground arith

abbrev scan_buffer : Bytes → Option MtdState
scan_buffer buf = scan_lines (length buf) buf (cleared none) 0 >>= λ r.
    some (record { partitions = r.0; partition_count = pos r.1 })

scan_buffer_overruns :
    (b : ℕ) (contents : Bytes) (n : ℕ) (v : ℤ × (ℤ × Bytes))
    → scan_partition (b ∷ contents) ≡ some (pos n, v)
    → 32 ≤ n
    → scan_buffer (b ∷ contents) ≡ none
unfolding scan_lines store_partition
scan_buffer_overruns b contents n v e h = rw (scan_lines, e, not_below n 32 h) refl

-- The number of a line is not compared with the size of the table: a first line whose number is 32
-- or more makes the first scan of at most 2047 bytes write outside of it.
pub mtd_scan_partitions_overruns :
    (b : ℕ) (contents : Bytes) (n : ℕ) (v : ℤ × (ℤ × Bytes))
    → scan_partition (b ∷ contents) ≡ some (pos n, v)
    → 32 ≤ n
    → length (b ∷ contents) ≤ 2047
    → mtd_scan_partitions (some (b ∷ contents)) none ≡ none
unfolding mtd_scan_partitions
mtd_scan_partitions_overruns b contents n v e h fits =
    ap scan_buffer (take_all read_size (b ∷ contents) fits)
    ∙ scan_buffer_overruns b contents n v e h
