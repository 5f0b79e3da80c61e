-- ===== src/Mtd/Flash.antt =====
-- mtdutils/mtdutils.c: the partition, and the calls of the kernel's flash driver that the code
-- relies on. The device behind a file descriptor is a parameter: a type of its states and one
-- function for each system call, in the form in which the code looks at its result.
use screenbox_rockchip_recov.Prelude.{ℕ, Bool, Option}
use screenbox_rockchip_recov.Prelude.Bytes.{Bytes}

-- `struct MtdPartition`, as far as reads and writes look at it.
pub record Partition : Type 0 where
  pub size : ℕ
  pub erase_size : ℕ

-- What MEMGETBADBLOCK returns: 0, a positive number, -1 with EOPNOTSUPP, or -1 with another error.
pub data BadBlock : Type 0 where
  good bad unsupported failed : BadBlock

-- `struct mtd_ecc_stats`
pub record EccStats : Type 0 where
  pub corrected : ℕ
  pub ecc_failed : ℕ

pub record Flash (D : Type 0) : Type 0 where
  -- `lseek(fd, 0, SEEK_CUR)`; `none` is -1
  pub tell : D → Option ℕ × D
  -- `lseek(fd, pos, SEEK_SET) == pos`
  pub seek : D → ℕ → Bool × D
  -- `read(fd, buf, size)`; `none` if it does not return `size`
  pub read : D → ℕ → Option Bytes × D
  -- `write(fd, data, size) == size`
  pub write : D → Bytes → Bool × D
  -- `ioctl(fd, MEMERASE, {start, length}) >= 0`
  pub erase : D → ℕ → ℕ → Bool × D
  -- `ioctl(fd, MEMGETBADBLOCK, &pos)`
  pub bad_block : D → ℕ → BadBlock × D
  -- `ioctl(fd, ECCGETSTATS, &stats)`; `none` if it is not 0
  pub ecc_stats : D → Option EccStats × D
  -- `close(fd) == 0`
  pub close : D → Bool × D
