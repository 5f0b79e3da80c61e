-- ===== src/ApplyPatch.antt =====
-- applypatch/applypatch.c: the digests of files, how a file or a partition is loaded and checked, and
-- where a patch's output goes.
pub mod Digest
pub mod Load
pub mod Check
pub mod Cache
pub mod Sinks
pub mod Write
pub mod Apply
mod Tests
