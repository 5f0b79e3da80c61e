-- ===== src/Mtd/Read/Unsupported.antt =====
-- mtdutils/mtdutils.c: `read_block` on a device that does not answer MEMGETBADBLOCK.
use screenbox_rockchip_recov.Prelude.{ℕ, zero, suc, ◌≡◌, refl, none, arith}
use screenbox_rockchip_recov.Mtd.Flash.{Partition, unsupported, Flash}
use screenbox_rockchip_recov.Mtd.Read.{read_from, read_block}

module _ {D : Type 0} (io : Flash D) where
  read_from_unsupported :
      ((d : D) (pos : ℕ) → (io.bad_block d pos).0 ≡ unsupported)
      → (fuel : ℕ) (p : Partition) (d : D) (ecc pos : ℕ) → (read_from io fuel p d ecc pos).0 ≡ none
  unfolding read_from
  read_from_unsupported u zero p d ecc pos = refl
  read_from_unsupported u (suc fuel) p d ecc pos = grind (arith, read_from_unsupported u fuel)

  -- Where MEMGETBADBLOCK always fails with EOPNOTSUPP, which `write_block` takes for a good block,
  -- `read_block` never returns a block.
  pub read_block_unsupported :
      ((d : D) (pos : ℕ) → (io.bad_block d pos).0 ≡ unsupported)
      → (p : Partition) (d : D) → (read_block io p d).0 ≡ none
  unfolding read_block
  read_block_unsupported u p d = grind (arith, read_from_unsupported u (suc p.size))
