-- ===== src/Lib.antt =====
-- The recovery program of a Rockchip set-top box: a model of the parts on which an update's safety
-- rests, with what they guarantee.
--
-- How the parts interact. The recovery program is handed an update package. `verify_file` of
-- verifier.c decides, on the bytes of the package, whether one of the trusted keys signed it. The
-- update binary in the package then parses an update script to a tree of `Expr` nodes, which the
-- evaluator of edify/expr.c runs: each node calls a C function with its unevaluated arguments. The
-- functions that write images go through mtdutils/mtdutils.c, which buffers a stream of bytes into
-- erase blocks, skips bad blocks, and reads back every block it has written. Files and partitions
-- that are patched rather than replaced go through applypatch/bspatch.c, which rebuilds the new
-- file from the old one and three packed blocks; images that hold packed parts go through
-- applypatch/imgpatch.c, which applies such a patch to each part; applypatch/applypatch.c loads
-- and checks the old file by its digest, saves a copy of it where space is short, and puts the output
-- in the target's place. Which device a path stands for, and
-- how it is mounted, unmounted and formatted, is the matter of roots.c, on the tables of volumes
-- that it, mtdutils/mounts.c and mtdutils/mtdutils.c make of /etc/fstab, /proc/mounts and
-- /proc/mtd.
--
-- Which file models which part:
--   Prelude             names of the libraries, Boolean tests on numbers, lemmas on lists, integers
--                       of the source's signed types, byte strings as strstr and strcmp see them.
--                       Prelude/Scanf: the conversions of sscanf that the source uses;
--                       Prelude/Words: words and lines of a text.
--   Edify/Run           edify/expr.h and the evaluation of a node: `State`, `Value`, `Expr`, the
--                       monad `M` of a C function that may return NULL or fault, Evaluate,
--                       EvaluateValue, ErrorAbort. A C function pointer is a function
--                       of the arguments, each an `Arg` that runs its node; `start` and `end` are
--                       the node's place in the script.
--   Edify/Functions     the functions that expr.c registers (IfElseFn is `if_else_fn`, and so on)
--                       and ReadArgs, ReadVarArgs and their kin. Functions/Strtol: strtol and
--                       strtoul as the C standard describes them, which the source calls.
--   Edify/Safety        absence of faults, from single functions (Safety/Builtins) to trees
--                       (Safety/Scripts). Edify/Laws, Edify/Numbers: what scripts may rely on.
--   Mtd/Flash           the device, a parameter: the system calls on an MTD character device over
--                       an abstract state. A proof that needs more of it says so by name.
--   Mtd/Block           write_block of mtdutils.c; Mtd/Block/Verified its guarantee.
--   Mtd/BadBlocks       mtd_find_write_start.
--   Mtd/Write           mtd_write_data, mtd_erase_blocks, mtd_write_close; Write/Blocks,
--                       Write/Chunks, Write/Close and Write/Erased relate them to a writer of
--                       whole blocks.
--   Mtd/Read            read_block, mtd_read_data; Read/Blocks and Read/Stream relate them to a
--                       stream of blocks, Read/Unsupported is about devices without a table of
--                       bad blocks.
--   Verifier            verify_file of verifier.c; Verifier/Hashing is the loop that hashes,
--                       Verifier/Signed what an accepted package is.
--   Patch               applypatch/bspatch.c: FillBuffer, ApplyBSDiffPatchMem (a round of its loop is
--                       `apply_triple`, its halves `read_diff` and `read_extra`), ApplyBSDiffPatch.
--                       The streams of bzip2 are a parameter. Patch/Offsets: offtin, and offtout of
--                       applypatch/bsdiff.c. Patch/Streams: what FillBuffer reads. Patch/Apply: the
--                       format that bsdiff.c writes, and each step on it. Patch/Loop and
--                       Patch/RoundTrip: the loop and the whole. Patch/Outcomes: rules for the results
--                       of runs. Patch/Overrun: triples and streams that no bsdiff writes.
--   ImagePatch          applypatch/imgpatch.c: `read_chunk` reads the record of a chunk, `apply_chunk`
--                       does its work, `chunk_loop` is the loop of ApplyImagePatch. zlib, SHA and the
--                       sink are parameters. ImagePatch/Numbers: applypatch/utils.c. Records, Chunks:
--                       the file that the end of main in applypatch/imgdiff.c writes. Tracks,
--                       Hashed: what was written and what was hashed.
--   Mtd/Partitions      mtd_scan_partitions, mtd_find_partition_by_name; Partitions/Found.
--   Mounts              mtdutils/mounts.c: the table of mounted volumes. Mounts/Laws: the scan;
--                       Mounts/Unmount: the searches after a volume is unmounted.
--   Roots               roots.c: the volumes, a monad `M` over its static variables and the system,
--                       volume_for_path and unmounting. Roots/Fstab: load_volume_table, with
--                       Fstab/Table and Fstab/Stops on its result. Roots/Mount: ensure_path_mounted, with
--                       mtd_mount_partition of mtdutils/mtdutils.c. Roots/Format: format_volume and
--                       resize_volume, with mtd_write_partition. Roots/Find: the volume that is
--                       found. Roots/Success, Roots/HasMounted, Roots/Mounted: what has happened where a function
--                       returns 0.
--   ApplyPatch          applypatch/applypatch.c. ApplyPatch/Digest: ParseSha1, FindMatchingPatch.
--                       ApplyPatch/Load: LoadPartitionContents, over a reader of the partition and a
--                       qsort that are parameters; Load/Smallest is about the pair that it finds.
--                       ApplyPatch/Check: LoadFileContents, applypatch_check. ApplyPatch/Sinks:
--                       FileSink, MemorySink. ApplyPatch/Write: WriteToPartition, over the volumes'
--                       system and Mtd/Write.
--   ApplyPatch/Cache    applypatch/freecache.c, with FreeSpaceForFile and CacheSizeCheck of
--                       applypatch.c, over the calls on files, which are a parameter (`Disk`).
--                       Cache/Files, Cache/Expendable, Cache/Deletes: which files are deleted.
--   ApplyPatch/Apply    the function applypatch of applypatch.c: what it calls is `Host`, its parameters
--                       are `Arguments`. The choice of the source or of its copy, and
--                       SaveFileContents; Apply/Rounds: the loop, each round a `prepare` and a
--                       `produce`; Apply/Install: what follows the loop, and the whole. Apply/Posix:
--                       what the proofs take of the calls on files. Apply/Hashed, Apply/There,
--                       Apply/Installed: what has happened where it returns 0. Apply/LostCopy: a run
--                       after an interrupted one.
--   HashTable           minzip/Hash.c: an entry of the table is a `Slot`, its loops that probe are
--                       `probe` and `free_entry`. HashTable/Masks: wrapping around by a mask.
--                       HashTable/Probes, HashTable/Counts, HashTable/Sound: where a search stops,
--                       how full a table is, and what holds between two calls.
--                       HashTable/Operations, HashTable/Found: the operations.
--   Bootloader          bootloader.c, over the volumes' system and the contexts of mtdutils.c, with
--                       mtd_partition_info and mtd_read_partition. Bootloader/Command: what a message
--                       that was set has left on an MTD device.
--
-- Conventions. C strings and buffers are lists of bytes, numbers are natural numbers, signed values
-- are integers over them with the wrap-around written out where the source converts. Allocation
-- does not fail, except in `verify_file` and ApplyBSDiffPatchMem, where it is an argument. `free` is not
-- modelled. Sizes and offsets of a partition are below 2 ^ 31.
--
-- Fuel. The loops of mtdutils.c go from block to block, so a partition's size bounds the rounds of
-- `write_from` and `read_from`; `write_loop` and `read_loop` consume data in every second round at
-- the latest; `hash_loop` takes a byte at least in each round. Each bound is passed by the
-- function that starts the loop, and the theorems about that function have no hypothesis on fuel.
-- The loops over the lines of /proc/mtd, /proc/mounts and /etc/fstab eat a byte at least in each
-- round, and have the length of the text as fuel. A search in a hash table takes a round for each
-- entry at most, as is proved. The loops of bspatch.c and the loop of
-- imgpatch.c around deflate end only by what the streams hold, so there the fuel is an argument (a
-- field of `Host` for `applypatch`), a run that uses it up has an outcome of its own, and the theorem on what ApplyBSDiffPatchMem gives
-- says how much is enough.
--
-- What is not modelled: the parser and lexer (generated by bison and flex), the functions of
-- updater/install.c and the recovery program's menus (system calls for the most part), the
-- zip reader but its hash table, graphics, the
-- copies of other projects' code, with the suffix sort of bsdiff.c among them. mincrypt's SHA and
-- RSA, bzip2 and zlib are not in the repository and are parameters; so are the system calls, and
-- the functions of rktools.c that run the makers of file systems.
pub mod Prelude
pub mod Edify
pub mod HashTable
pub mod Bootloader
pub mod Mtd
pub mod Mounts
pub mod Roots
pub mod Patch
pub mod ImagePatch
pub mod Verifier
pub mod ApplyPatch
