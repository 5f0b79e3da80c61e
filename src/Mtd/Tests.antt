-- ===== src/Mtd/Tests.antt =====
-- mtdutils/mtdutils.c: a device in memory, runs on it, and the theorems at it.
use screenbox_rockchip_recov.Prelude.{
  ℕ, ◌+◌, ◌≡◌, refl, true, [], ◌∷◌, ◌++◌, Option, none, some, arith, ◌==◌, if◌then◌else◌, length,
  take, drop,
}
use screenbox_rockchip_recov.Prelude.Bytes.{Bytes, str_eq}
use screenbox_rockchip_recov.Mtd.Flash.{Partition, BadBlock, good, bad, unsupported, Flash}
use screenbox_rockchip_recov.Mtd.Block.{
  Media, add_bad_block_offset, read_at, write_at, try_block, retry_block, is_skipped, write_from,
  write_block,
}
use screenbox_rockchip_recov.Mtd.Block.Verified.{Wrote, write_block-Wrote}
use screenbox_rockchip_recov.Mtd.BadBlocks.{
  mtd_find_write_start, IsStart, mtd_find_write_start-IsStart,
}
use screenbox_rockchip_recov.Mtd.Write.{
  WriteContext, splice, coalesce, flush_full, write_direct, write_loop, mtd_write_data,
  flush_pending, erase_loop, mtd_erase_blocks, mtd_write_close,
}
use screenbox_rockchip_recov.Mtd.Write.Chunks.{Written, mtd_write_data-Written}
use screenbox_rockchip_recov.Mtd.Write.Close.{Closed, mtd_write_close-Stored}
use screenbox_rockchip_recov.Mtd.Read.{
  ReadContext, read_from, read_block, take_buffered, read_direct, refill, read_loop, mtd_read_data,
}
use screenbox_rockchip_recov.Mtd.Read.Blocks.{ReadsWhole}
use screenbox_rockchip_recov.Mtd.Read.Stream.{ReadFrom, mtd_read_data-ReadFrom}
use screenbox_rockchip_recov.Mtd.Read.Unsupported.{read_block_unsupported}

open_all : Unit {0}
unfolding add_bad_block_offset read_at write_at try_block retry_block is_skipped write_from
    write_block mtd_find_write_start splice coalesce flush_full write_direct write_loop
    mtd_write_data flush_pending erase_loop mtd_erase_blocks mtd_write_close read_from read_block
    take_buffered read_direct refill read_loop mtd_read_data str_eq
open_all = tt

-- The offset of `fd`, and the bytes of the partition.
record Memory : Type 0 where
  pos : ℕ
  cells : Bytes

whole : ℕ → Bytes → Option Bytes
whole n b = if length b == n then some b else none

-- The block at offset 2 is bad, and nothing fails.
abbrev memory : (ℕ → BadBlock) → Flash Memory
memory status = record {
  tell = λ d. (some d.pos, d);
  seek = λ d pos. (true, record d { pos = pos });
  read = λ d n. (whole n (take n (drop d.pos d.cells)), record d { pos = d.pos + n });
  write = λ d b. (
    true,
    record d {
      pos = d.pos + length b;
      cells = take d.pos d.cells ++ (b ++ drop (d.pos + length b) d.cells);
    },
  );
  erase = λ d pos n. (true, d);
  bad_block = λ d pos. (status pos, d);
  ecc_stats = λ d. (some (record { corrected = 0; ecc_failed = 0 }), d);
  close = λ d. (true, d);
}

abbrev second_bad : ℕ → BadBlock
second_bad pos = if pos == 2 then bad else good

memory-ReadsWhole : ReadsWhole (memory second_bad)
unfolding whole
memory-ReadsWhole d n b h = ground arith

abbrev partition : Partition
partition = record { size = 8; erase_size = 2 }

abbrev blank : Media Memory
blank = record {
  fd = record { pos = 0; cells = 0 ∷ 0 ∷ 0 ∷ 0 ∷ 0 ∷ 0 ∷ 0 ∷ 0 ∷ [] };
  bad_block_offsets = [];
  bad_block_alloc = 0;
}

abbrev opened : WriteContext Memory
opened = record { media = blank; partition = partition; buffer = 9 ∷ 9 ∷ []; stored = 0 }

abbrev given : Bytes
given = 1 ∷ 2 ∷ 3 ∷ []

abbrev written : WriteContext Memory
written = record {
  media = record {
    fd = record { pos = 2; cells = 1 ∷ 2 ∷ 0 ∷ 0 ∷ 0 ∷ 0 ∷ 0 ∷ 0 ∷ [] };
    bad_block_offsets = [];
    bad_block_alloc = 0;
  };
  partition = partition;
  buffer = 3 ∷ 9 ∷ [];
  stored = 1;
}

mtd_write_data_runs : mtd_write_data (memory second_bad) opened given ≡ (some 3, written)
unfolding open_all whole
mtd_write_data_runs = refl

-- The second block goes past the bad one, with a zero behind it.
flush_runs : (flush_pending (memory second_bad) written).1.media ≡ record {
  fd = record { pos = 6; cells = 1 ∷ 2 ∷ 0 ∷ 0 ∷ 3 ∷ 0 ∷ 0 ∷ 0 ∷ [] };
  bad_block_offsets = 2 ∷ [];
  bad_block_alloc = 1;
}
unfolding open_all whole
flush_runs = refl

mtd_write_data-Written_example :
    Written (memory second_bad) opened given (mtd_write_data (memory second_bad) opened given)
mtd_write_data-Written_example =
    mtd_write_data-Written (memory second_bad) opened given
      (record { space = refl; waiting = omega arith })

abbrev closed : Memory
closed = record { pos = 6; cells = 1 ∷ 2 ∷ 0 ∷ 0 ∷ 3 ∷ 0 ∷ 0 ∷ 0 ∷ [] }

closes :
    mtd_write_close (memory second_bad) (mtd_write_data (memory second_bad) opened given).1
    ≡ (true, closed)
unfolding open_all whole
closes = refl

returns_3 : (mtd_write_data (memory second_bad) opened given).0 ≡ some 3
unfolding open_all whole
returns_3 = refl

mtd_write_close-Stored_example : Closed (memory second_bad) opened given closed
mtd_write_close-Stored_example =
    mtd_write_close-Stored (memory second_bad) opened given closed 3
      (record { space = refl; waiting = omega arith }) returns_3 closes

write_block-Wrote_example :
    Wrote
      (memory second_bad)
      partition
      2
      (3 ∷ 0 ∷ [])
      []
      (write_block (memory second_bad) partition written.media (3 ∷ 0 ∷ []))
write_block-Wrote_example =
    write_block-Wrote (memory second_bad) partition written.media 2 (3 ∷ 0 ∷ []) (omega arith) refl

mtd_find_write_start-IsStart_example :
    IsStart 2 (2 ∷ 4 ∷ []) 2 (mtd_find_write_start 2 (2 ∷ 4 ∷ []) 2)
mtd_find_write_start-IsStart_example =
    mtd_find_write_start-IsStart 2 (2 ∷ 4 ∷ []) 2 (omega arith) (omega arith)

abbrev reader : ReadContext Memory
reader = record {
  partition = partition;
  buffer = 7 ∷ 8 ∷ [];
  consumed = 1;
  fd = record { pos = 0; cells = 1 ∷ 2 ∷ 0 ∷ 0 ∷ 3 ∷ 4 ∷ 5 ∷ 6 ∷ [] };
}

mtd_read_data_runs : (mtd_read_data (memory second_bad) reader 4).0 ≡ some (8 ∷ 1 ∷ 2 ∷ 3 ∷ [])
unfolding open_all whole
mtd_read_data_runs = refl

mtd_read_data-ReadFrom_example :
    ReadFrom (memory second_bad) reader 4 (mtd_read_data (memory second_bad) reader 4)
mtd_read_data-ReadFrom_example =
    mtd_read_data-ReadFrom (memory second_bad) memory-ReadsWhole reader 4
      (record { space = refl; within = omega arith; size = omega arith })

abbrev no_table : ℕ → BadBlock
no_table pos = unsupported

unsupported_without_table : (read_block (memory no_table) partition reader.fd).0 ≡ none
unsupported_without_table =
    read_block_unsupported (memory no_table) (λ d pos. refl) partition reader.fd

write_block_accepts : (write_block (memory no_table) partition blank (1 ∷ 2 ∷ [])).0 ≡ true
unfolding open_all whole
write_block_accepts = refl
