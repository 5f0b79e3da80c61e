-- ===== src/Mtd/BadBlocks.antt =====
-- mtdutils/mtdutils.c: `mtd_find_write_start`, which maps an offset of the written data to the
-- block that holds it, by the list of bad blocks of the write context.
use screenbox_rockchip_recov.Prelude.{
  ℕ, zero, suc, ◌+◌, ◌*◌, ◌≤◌, ◌<◌, ◌≡◌, List, [], ◌∷◌, arith, ltb, ◌==◌, if◌then◌else◌, ◌⊎◌, inl,
  inr, Bool-cases,
}
use screenbox_rockchip_recov.Mtd.Block.Verified.{offsets}

-- The loop over the list, of the blocks of size `size`.
unfoldable pub mtd_find_write_start : ℕ → List ℕ → ℕ → ℕ
mtd_find_write_start size [] pos = pos
mtd_find_write_start size (o ∷ os) pos =
    let next = mtd_find_write_start size os (pos + size) in
    let same = mtd_find_write_start size os pos in
    if o == pos then next else (if ltb pos o then pos else same)

abbrev pub In : ℕ → List ℕ → Type 0
In x [] = ⊥
In x (y ∷ ys) = (x ≡ y) ⊎ In x ys

abbrev pub AllIn : List ℕ → List ℕ → Type 0
AllIn [] ys = Unit
AllIn (x ∷ xs) ys = In x ys × AllIn xs ys

abbrev pub AllAbove : ℕ → List ℕ → Type 0
AllAbove n [] = Unit
AllAbove n (x ∷ xs) = (n ≤ x) × AllAbove n xs

-- In ascending order, at least a block apart.
abbrev pub IsApart : ℕ → List ℕ → Type 0
IsApart size [] = Unit
IsApart size (x ∷ xs) = AllAbove (x + size) xs × IsApart size xs

not-In_above : (x n : ℕ) (xs : List ℕ) → x < n → AllAbove n xs → ¬ In x xs
not-In_above x n [] h a m = m
not-In_above x n (y ∷ ys) h a (inl e) = omega (arith, a.0)
not-In_above x n (y ∷ ys) h a (inr m) = not-In_above x n ys h a.1 m

AllIn-cons : (y : ℕ) (xs ys : List ℕ) → AllIn xs ys → AllIn xs (y ∷ ys)
AllIn-cons y [] ys h = tt
AllIn-cons y (x ∷ xs) ys h = (inr h.0, AllIn-cons y xs ys h.1)

-- A list that the blocks from `pos` on extend stays apart.
AllAbove-offsets : (n k pos size : ℕ) → n ≤ pos → AllAbove n (offsets k pos size)
AllAbove-offsets n zero pos size h = tt
AllAbove-offsets n (suc k) pos size h = (h, AllAbove-offsets n k (pos + size) size (omega arith))

offsets-IsApart : (k pos size : ℕ) → IsApart size (offsets k pos size)
offsets-IsApart zero pos size = tt
offsets-IsApart (suc k) pos size = (
  AllAbove-offsets (pos + size) k (pos + size) size (omega arith),
  offsets-IsApart k (pos + size) size,
)

-- What `mtd_find_write_start` returns.
pub record IsStart (size : ℕ) (bad : List ℕ) (pos r : ℕ) : Type 0 where
  pub passed : ℕ
  pub at_block : r ≡ pos + passed * size
  pub all_bad : AllIn (offsets passed pos size) bad
  pub not_bad : ¬ In r bad

-- With a positive block size and the list in ascending order, at least a block apart, the result is the first block from `pos` on that is not in the
-- list: every block before it is, and it is not.
pub mtd_find_write_start-IsStart :
    (size : ℕ) (bad : List ℕ) (pos : ℕ)
    → 0 < size
    → IsApart size bad
    → IsStart size bad pos (mtd_find_write_start size bad pos)
unfolding mtd_find_write_start
mtd_find_write_start-IsStart size [] pos h apart = record {
  passed = 0;
  at_block = omega arith;
  all_bad = tt;
  not_bad = λ m. m;
}
mtd_find_write_start-IsStart size (o ∷ os) pos h (above, apart) = elim (Bool-cases (o == pos)) [
  | inl e ↦
      let ih = mtd_find_write_start-IsStart size os (pos + size) h apart in
      let same : pos ≡ o = ground arith in
      rw e (record {
        passed = suc ih.passed;
        at_block = omega (arith, ih.at_block);
        all_bad = (inl same, AllIn-cons o (offsets ih.passed (pos + size) size) os ih.all_bad);
        not_bad = elim [ inl q ↦ omega (arith, ih.at_block) | inr m ↦ ih.not_bad m ];
      })
  | inr ne ↦ elim (Bool-cases (ltb pos o)) [
    | inl before ↦
        rw (ne, before)
          (record {
            passed = 0;
            at_block = omega arith;
            all_bad = tt;
            not_bad = elim [
              | inl q ↦ ground arith
              | inr m ↦ not-In_above pos (o + size) os (ground arith) above m
            ];
          })
    | inr later ↦
        let ih = mtd_find_write_start-IsStart size os pos h apart in
        rw (ne, later)
          (record {
            passed = ih.passed;
            at_block = ih.at_block;
            all_bad = AllIn-cons o (offsets ih.passed pos size) os ih.all_bad;
            not_bad = elim [ inl q ↦ ground (arith, ih.at_block) | inr m ↦ ih.not_bad m ];
          })
  ]
]
