-- ===== src/Bootloader.antt =====
-- bootloader.c: the message to the boot loader, kept on the partition "misc"; with
-- `mtd_partition_info` and `mtd_read_partition` of mtdutils/mtdutils.c.
pub mod Command
mod Tests
use screenbox_rockchip_recov.Prelude.{
  ℕ, zero, suc, ◌+◌, ◌*◌, Bool, true, false, not, Option, none, some, ltb, ◌==◌, if◌then◌else◌,
  length, take, drop,
}
use screenbox_rockchip_recov.Prelude.Bytes.{Bytes, codes, str_eq}
use screenbox_rockchip_recov.Mtd.Partitions.{MtdPartition}
use screenbox_rockchip_recov.Mtd.Read.{ReadContext, mtd_read_data}
use screenbox_rockchip_recov.Mtd.Write.{splice, mtd_write_data, mtd_write_close}
use screenbox_rockchip_recov.Roots.{
  Volume, System, RootsState, M, ◌>>=◌, pure, crash, volume_for_path,
}
use screenbox_rockchip_recov.Roots.Mount.{has_type, find_partition}
use screenbox_rockchip_recov.Roots.Format.{sizes_of, mtd_write_partition}

-- MISC_PAGES, MISC_COMMAND_PAGE, BOOTLOADER_MESSAGE_OFFSET_IN_MISC
abbrev pub misc_pages : ℕ
misc_pages = 10

abbrev pub misc_command_page : ℕ
misc_command_page = 8

abbrev pub message_offset : ℕ
message_offset = 16384

-- `sizeof(struct bootloader_message)`
abbrev pub message_size : ℕ
message_size = 1088

-- The calls on the device of "misc".
pub record Misc (D : Type 0) : Type 0 where
  -- `isMtdDevice() == 0`
  pub is_mtd_device : D → Bool
  -- `open("/dev/mtd%d", O_RDONLY)` and `ioctl(fd, MEMGETINFO, ...)`: the write size
  pub mem_get_info : D → ℕ → Option ℕ
  -- `open("/dev/mtd%d", O_RDONLY)`
  pub open_mtd_read : D → ℕ → Option D
  -- a call of `stat` on the device, and a second of sleep if it fails
  pub stat_device : D → Option Bytes → Bool × D
  -- `fopen(device, "rb")`, `fopen(device, "wb")`
  pub fopen_read : D → Option Bytes → Option D
  pub fopen_write : D → Option Bytes → Option D
  -- `fseek(f, offset, SEEK_SET)`, and `fread` or `fwrite` of one item
  pub fread_at : D → ℕ → ℕ → Option Bytes × D
  pub fwrite_at : D → ℕ → Bytes → Bool × D
  pub fclose : D → Bool × D

-- Where the message stands in the pages.
abbrev pub message_at : ℕ → ℕ → Bytes → Bytes
message_at write_size size pages = take size (drop (write_size * misc_command_page) pages)

-- `memcpy(&data[write_size * MISC_COMMAND_PAGE], in, sizeof(*in))`
abbrev pub with_message : ℕ → Bytes → Bytes → Bytes
with_message write_size message pages = splice pages (write_size * misc_command_page) message

module _ {D : Type 0} (io : System D) (misc : Misc D) where
  -- `mtd_partition_info(part, NULL, NULL, &write_size)`; `none` is -1.
  unfoldable pub mtd_partition_info : MtdPartition → D → Option ℕ
  mtd_partition_info p d = misc.mem_get_info d p.device_index

  -- `mtd_read_partition`; `none` is NULL.
  unfoldable pub mtd_read_partition : MtdPartition → D → Option (ReadContext D)
  mtd_read_partition p d = elim (io.malloc d (sizes_of p).erase_size) [
    | none ↦ none
    | some memory ↦ elim (misc.open_mtd_read d p.device_index) [
      | none ↦ none
      | some fd ↦ some (record {
        partition = sizes_of p;
        buffer = memory;
        consumed = (sizes_of p).erase_size;
        fd = fd;
      })
    ]
  ]

  -- The pages, read through a context that is closed afterwards.
  unfoldable pub read_pages : ℕ → ReadContext D → M D (Option (ℕ × Bytes))
  unfolding mtd_read_data
  read_pages write_size read s =
      let (data_, read') = mtd_read_data io.flash read (write_size * misc_pages) in
      let s' = record s { sys = read'.fd } in
      elim data_ as (λ _. Option (Option (ℕ × Bytes) × RootsState D)) [
        | none ↦ some (none, s')
        | some pages ↦
            if length pages == write_size * misc_pages
            then some (some (write_size, pages), s')
            else some (none, s')
      ]

  -- What both functions for MTD begin with: the write size and the pages; `none` is `return -1`.
  unfoldable pub read_misc : Option MtdPartition → M D (Option (ℕ × Bytes))
  unfolding mtd_partition_info mtd_read_partition read_pages
  read_misc none s = some (none, s)
  read_misc (some p) s =
      elim (mtd_partition_info p s.sys) as (λ _. Option (Option (ℕ × Bytes) × RootsState D)) [
        | none ↦ some (none, s)
        | some write_size ↦
            elim (mtd_read_partition p s.sys) as (λ _. Option (Option (ℕ × Bytes) × RootsState D)) [
              | none ↦ some (none, s)
              | some read ↦ read_pages write_size read s
            ]
      ]

  -- `memcpy(out, ...)`: it reads beyond the pages, if two of them do not hold the message.
  unfoldable pub take_message : Option (ℕ × Bytes) → M D (Option Bytes)
  take_message none = pure none
  take_message (some (write_size, pages)) =
      if ltb (length pages) (write_size * misc_command_page + message_size)
      then crash
      else pure (some (message_at write_size message_size pages))

  -- `get_bootloader_message_mtd`: the message, or `none` for -1.
  unfoldable pub get_bootloader_message_mtd : M D (Option Bytes)
  unfolding find_partition read_misc take_message
  get_bootloader_message_mtd =
      find_partition io (codes "misc") >>= λ part. read_misc part >>= take_message

  abbrev pub is_whole : Option ℕ → ℕ → Bool
  is_whole none size = false
  is_whole (some written) size = written == size

  -- The pages are written; the context is closed on each way out.
  unfoldable pub write_misc : MtdPartition → Bytes → M D Bool
  unfolding mtd_write_data mtd_write_close
  write_misc p pages s =
      elim (mtd_write_partition io p s.sys) as (λ _. Option (Bool × RootsState D)) [
        | none ↦ some (false, s)
        | some write ↦
            let (written, write') = mtd_write_data io.flash write pages in
            let (done, d) = mtd_write_close io.flash write' in
            let s' = record s { sys = d } in
            if is_whole written (length pages) then some (done, s') else some (false, s')
      ]

  unfoldable pub put_message : Bytes → Option MtdPartition → Option (ℕ × Bytes) → M D Bool
  unfolding write_misc
  put_message message none pages = pure false
  put_message message (some p) none = pure false
  put_message message (some p) (some (write_size, pages)) =
      if ltb (length pages) (write_size * misc_command_page + length message)
      then crash
      else write_misc p (with_message write_size message pages)

  -- `set_bootloader_message_mtd`: true is the result 0.
  unfoldable pub set_bootloader_message_mtd : Bytes → M D Bool
  unfolding find_partition read_misc put_message
  set_bootloader_message_mtd message =
      find_partition io (codes "misc") >>= λ part. read_misc part >>= put_message message part

  -- `wait_for_device`, with `tries` left
  unfoldable pub wait_for_device : ℕ → Option Bytes → D → D
  wait_for_device zero device d = d
  wait_for_device (suc tries) device d =
      let (there, d') = misc.stat_device d device in
      let again = wait_for_device tries device d' in if there then d' else again

  -- `get_bootloader_message_block`
  unfoldable pub get_bootloader_message_block : Volume → M D (Option Bytes)
  unfolding wait_for_device
  get_bootloader_message_block v s =
      let d = wait_for_device 10 v.device s.sys in
      elim (misc.fopen_read d v.device) as (λ _. Option (Option Bytes × RootsState D)) [
        | none ↦ some (none, record s { sys = d })
        | some f ↦
            let (temp, f') = misc.fread_at f message_offset message_size in
            let (done, d') = misc.fclose f' in
            elim temp as (λ _. Option (Option Bytes × RootsState D)) [
              | none ↦ some (none, record s { sys = f' })
              | some message ↦ some (if done then some message else none, record s { sys = d' })
            ]
      ]

  -- `set_bootloader_message_block`
  unfoldable pub set_bootloader_message_block : Bytes → Volume → M D Bool
  set_bootloader_message_block message v s =
      elim (misc.fopen_write s.sys v.device) as (λ _. Option (Bool × RootsState D)) [
        | none ↦ some (false, s)
        | some f ↦
            let (written, f') = misc.fwrite_at f message_offset message in
            let (done, d') = misc.fclose f' in
            if written
            then some (done, record s { sys = d' })
            else some (false, record s { sys = f' })
      ]

  -- `get_bootloader_message`: the message, or `none` for -1.
  unfoldable pub get_bootloader_message : M D (Option Bytes)
  unfolding get_bootloader_message_mtd get_bootloader_message_block
  get_bootloader_message = volume_for_path io (codes "/misc") >>= λ found s.
      elim found as (λ _. Option (Option Bytes × RootsState D)) [
        | none ↦ some (none, s)
        | some v ↦
            let on_mtd = get_bootloader_message_mtd s in
            let on_block = get_bootloader_message_block v s in
            if misc.is_mtd_device s.sys
            then on_mtd
            else (if has_type v (codes "emmc") then on_block else some (none, s))
      ]

  -- `set_bootloader_message`: a missing volume is only looked at where the device is not MTD, and
  -- then through NULL.
  unfoldable pub set_bootloader_message : Bytes → M D Bool
  unfolding set_bootloader_message_mtd set_bootloader_message_block
  set_bootloader_message message = volume_for_path io (codes "/misc") >>= λ found s.
      let on_mtd = set_bootloader_message_mtd message s in
      if misc.is_mtd_device s.sys
      then on_mtd
      else elim found as (λ _. Option (Bool × RootsState D)) [
        | none ↦ none
        | some v ↦
            let on_block = set_bootloader_message_block message v s in
            if has_type v (codes "emmc") then on_block else some (false, s)
      ]
