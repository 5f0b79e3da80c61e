-- ===== src/Mtd.antt =====
-- mtdutils/mtdutils.c: buffered reads and writes of whole flash blocks.
pub mod Flash
pub mod Block
pub mod BadBlocks
pub mod Partitions
pub mod Write
pub mod Read
mod Tests
