-- ===== src/Bootloader/Command.antt =====
-- bootloader.c: what `set_bootloader_message` leaves on an MTD device, where
-- `get_bootloader_message` looks for it.
use mathlib.Core.Path.{subst}
use screenbox_rockchip_recov.Prelude.{
  [], ℕ, ◌+◌, ◌*◌, ◌≤◌, ◌<◌, ◌≡◌, refl, sym, ap, ◌∙◌, Bool, true, false, ◌++◌, Option, none, some,
  arith, Bool-cases, inl, inr, ltb, ◌==◌, if◌then◌else◌, length, take, drop, length-take,
  take-append_eq, drop-append_eq,
}
use screenbox_rockchip_recov.Prelude.Bytes.{Bytes, codes}
use screenbox_rockchip_recov.Mtd.Partitions.{MtdPartition}
use screenbox_rockchip_recov.Mtd.Read.{ReadContext, mtd_read_data}
use screenbox_rockchip_recov.Mtd.Write.{WriteContext, splice, mtd_write_data, mtd_write_close}
use screenbox_rockchip_recov.Mtd.Write.Blocks.{IsValid}
use screenbox_rockchip_recov.Mtd.Write.Close.{Closed, mtd_write_close-Stored}
use screenbox_rockchip_recov.Roots.{System, RootsState, ◌>>=◌}
use screenbox_rockchip_recov.Roots.Mount.{find_partition}
use screenbox_rockchip_recov.Roots.Format.{sizes_of, mtd_write_partition}
use screenbox_rockchip_recov.Roots.Success.{
  OnTrue, OnTrue-map, OnTrue-bind, OnTrue-if, OnTrue-given,
}
use screenbox_rockchip_recov.Bootloader.{
  misc_pages, misc_command_page, Misc, message_at, with_message, mtd_partition_info,
  mtd_read_partition, read_pages, read_misc, is_whole, write_misc, put_message,
  set_bootloader_message_mtd,
}

-- The message is put where it is looked for, and what stands before it is kept.
pub with_message-message_at :
    (write_size : ℕ) (message pages : Bytes)
    → write_size * misc_command_page ≤ length pages
    → (message_at write_size (length message) (with_message write_size message pages) ≡ message)
      × (take (write_size * misc_command_page) (with_message write_size message pages)
          ≡ take (write_size * misc_command_page) pages)
unfolding splice
with_message-message_at write_size message pages h =
    let at = write_size * misc_command_page in
    let front = take at pages in
    let back = drop (at + length message) pages in
    let long : at ≡ length front = omega (arith, h, length-take at pages) in
    (
      ap (take (length message)) (drop-append_eq at front (message ++ back) long)
          ∙ take-append_eq (length message) message back refl,
      take-append_eq at front (message ++ back) long,
    )

module _ {D : Type 0} (io : System D) (misc : Misc D) where
  -- A block of memory has the size that was asked for.
  abbrev pub Allocates : Type 0
  Allocates = (d : D) (n : ℕ) (b : Bytes) → io.malloc d n ≡ some b → length b ≡ n

  -- The pages were read from the partition, and what is stored on it is these pages with the message
  -- in its place.
  abbrev pub IsUpdated : MtdPartition → Bytes → RootsState D → RootsState D → Type 0
  IsUpdated p message s s' =
      (write_size : ℕ) × (mtd_partition_info io misc p s.sys ≡ some write_size)
      × (pages : Bytes) × (length pages ≡ write_size * misc_pages)
      × (read : ReadContext D) × (mtd_read_partition io misc p s.sys ≡ some read)
      × ((mtd_read_data io.flash read (write_size * misc_pages)).0 ≡ some pages)
      × (message_at write_size (length message) (with_message write_size message pages) ≡ message)
      × (write : WriteContext D) × (mtd_write_partition io p
            (mtd_read_data io.flash read (write_size * misc_pages)).1.fd
          ≡ some write)
      × Closed io.flash write (with_message write_size message pages) s'.sys

  -- What `read_misc` says where it gives pages.
  abbrev IsRead : MtdPartition → RootsState D → Option (ℕ × Bytes) → D → Type 0
  IsRead p s none d = Unit
  IsRead p s (some (write_size, pages)) d =
      (mtd_partition_info io misc p s.sys ≡ some write_size)
      × (length pages ≡ write_size * misc_pages)
      × (read : ReadContext D) × (mtd_read_partition io misc p s.sys ≡ some read)
      × ((mtd_read_data io.flash read (write_size * misc_pages)).0 ≡ some pages)
      × (d ≡ (mtd_read_data io.flash read (write_size * misc_pages)).1.fd)

  abbrev Reads : MtdPartition → RootsState D → Option (Option (ℕ × Bytes) × RootsState D) → Type 0
  Reads p s none = Unit
  Reads p s (some (r, s')) = IsRead p s r s'.sys

  read_pages-Reads :
      (p : MtdPartition) (s : RootsState D) (write_size : ℕ) (read : ReadContext D)
      → mtd_partition_info io misc p s.sys ≡ some write_size
      → mtd_read_partition io misc p s.sys ≡ some read
      → Reads p s (read_pages io misc write_size read s)
  unfolding read_pages
  read_pages-Reads p s write_size read info opened =
      by_data (mtd_read_data io.flash read (write_size * misc_pages)).0 refl _ refl
    where
      by_data :
          (o : Option Bytes)
          → (mtd_read_data io.flash read (write_size * misc_pages)).0 ≡ o
          → (s' : RootsState D)
          → s'.sys ≡ (mtd_read_data io.flash read (write_size * misc_pages)).1.fd
          → Reads p s (elim o as (λ _. Option (Option (ℕ × Bytes) × RootsState D)) [
            | none ↦ some (none, s')
            | some pages ↦
                if length pages == write_size * misc_pages
                then some (some (write_size, pages), s')
                else some (none, s')
          ])
      by_data none e s' left = tt
      by_data (some pages) e s' left = elim (Bool-cases (length pages == write_size * misc_pages)) [
        | inl whole ↦ rw whole (info, ground (arith, whole), read, opened, e, left)
        | inr short ↦ rw short tt
      ]

  read_misc-Reads : (p : MtdPartition) (s : RootsState D) → Reads p s (read_misc io misc (some p) s)
  unfolding read_misc
  read_misc-Reads p s = by_info (mtd_partition_info io misc p s.sys) refl
    where
      by_read :
          (write_size : ℕ)
          → mtd_partition_info io misc p s.sys ≡ some write_size
          → (o : Option (ReadContext D)) → mtd_read_partition io misc p s.sys ≡ o
          → Reads p s (elim o as (λ _. Option (Option (ℕ × Bytes) × RootsState D)) [
            | none ↦ some (none, s)
            | some read ↦ read_pages io misc write_size read s
          ])
      by_read write_size info none e = tt
      by_read write_size info (some read) e = read_pages-Reads p s write_size read info e

      by_info :
          (o : Option ℕ)
          → mtd_partition_info io misc p s.sys ≡ o
          → Reads p s (elim o as (λ _. Option (Option (ℕ × Bytes) × RootsState D)) [
            | none ↦ some (none, s)
            | some write_size ↦
                elim (mtd_read_partition io misc p s.sys)
                  as (λ _. Option (Option (ℕ × Bytes) × RootsState D)) [
                    | none ↦ some (none, s)
                    | some read ↦ read_pages io misc write_size read s
                  ]
          ])
      by_info none e = tt
      by_info (some write_size) e = by_read write_size e (mtd_read_partition io misc p s.sys) refl

  opened-IsValid :
      Allocates
      → (p : MtdPartition) (d : D) (write : WriteContext D) → 0 < (sizes_of p).erase_size
      → mtd_write_partition io p d ≡ some write
      → IsValid write
  unfolding mtd_write_partition
  opened-IsValid allocates p d write positive e =
      by_memory (io.malloc d (sizes_of p).erase_size) refl (io.open_mtd d p.device_index) e
    where
      by_memory :
          (o : Option Bytes)
          → io.malloc d (sizes_of p).erase_size ≡ o
          → (f : Option D)
          → (elim o as (λ _. Option (WriteContext D)) [
            | none ↦ none
            | some memory ↦ elim f [
              | none ↦ none
              | some fd ↦ some (record {
                media = record { fd = fd; bad_block_offsets = []; bad_block_alloc = 0 };
                partition = sizes_of p;
                buffer = memory;
                stored = 0;
              })
            ]
          ])
            ≡ some write
          → IsValid write
      by_memory none m f q = absurd (ground (arith, q))
      by_memory (some memory) m none q = absurd (ground (arith, q))
      by_memory (some memory) m (some fd) q =
          let size = allocates d (sizes_of p).erase_size memory m in
          let begun : IsValid (record {
            media = record { fd = fd; bad_block_offsets = []; bad_block_alloc = 0 };
            partition = sizes_of p;
            buffer = memory;
            stored = 0;
          }) =
            record { space = size; waiting = positive } in
          subst (λ o. elim o as (λ _. Type 0) [ none ↦ Unit | some c ↦ IsValid c ]) q begun

  -- A session that succeeds stores the pages.
  abbrev StoresPages : MtdPartition → Bytes → D → D → Type 0
  StoresPages p pages d d' =
      (write : WriteContext D) × (mtd_write_partition io p d ≡ some write)
      × Closed io.flash write pages d'

  write_misc-StoresPages :
      Allocates
      → (p : MtdPartition) (pages : Bytes) (s : RootsState D) → 0 < (sizes_of p).erase_size
      → OnTrue (λ s'. StoresPages p pages s.sys s'.sys) (write_misc io misc p pages s)
  unfolding write_misc
  write_misc-StoresPages allocates p pages s positive =
      by_context (mtd_write_partition io p s.sys) refl
    where
      by_written :
          (write : WriteContext D)
          → mtd_write_partition io p s.sys ≡ some write
          → (o : Option ℕ) → (mtd_write_data io.flash write pages).0 ≡ o
          → is_whole io misc o (length pages) ≡ true
          → (r : Bool × D) → mtd_write_close io.flash (mtd_write_data io.flash write pages).1 ≡ r
          → OnTrue (λ s'. StoresPages p pages s.sys s'.sys) (some (r.0, record s { sys = r.1 }))
      by_written write e none q whole r closed = absurd (ground (arith, whole))
      by_written write e (some n) q whole (false, d) closed = tt
      by_written write e (some n) q whole (true, d) closed = (
        write,
        e,
        mtd_write_close-Stored io.flash write pages d n
            (opened-IsValid allocates p s.sys write positive e) q closed,
      )

      by_context :
          (o : Option (WriteContext D))
          → mtd_write_partition io p s.sys ≡ o
          → OnTrue
              (λ s'. StoresPages p pages s.sys s'.sys)
              (elim o as (λ _. Option (Bool × RootsState D)) [
                | none ↦ some (false, s)
                | some write ↦
                    let close = mtd_write_close io.flash (mtd_write_data io.flash write pages).1 in
                    if is_whole io misc (mtd_write_data io.flash write pages).0 (length pages)
                    then some (close.0, record s { sys = close.1 })
                    else some (false, record s { sys = close.1 })
              ])
      by_context none e = tt
      by_context (some write) e =
          OnTrue-if _ (is_whole io misc (mtd_write_data io.flash write pages).0 (length pages)) _ _
            (λ whole. by_written write e (mtd_write_data io.flash write pages).0 refl whole _ refl)
            (λ _. tt)

  put_message-IsUpdated :
      Allocates
      → (message : Bytes) (p : MtdPartition) (r : Option (ℕ × Bytes)) (s s₂ : RootsState D)
      → 0 < (sizes_of p).erase_size
      → IsRead p s r s₂.sys
      → OnTrue (IsUpdated p message s) (put_message io misc message (some p) r s₂)
  unfolding put_message
  put_message-IsUpdated allocates message p none s s₂ positive h = tt
  put_message-IsUpdated allocates message p (some (write_size, pages)) s s₂ positive
        (info, size, read, opened, got, left) =
      elim (Bool-cases (ltb (length pages) (write_size * misc_command_page + length message))) [
        | inl over ↦ rw over tt
        | inr fits ↦ rw fits (
            OnTrue-map (λ s'. StoresPages p (with_message write_size message pages) s₂.sys s'.sys)
              (IsUpdated p message s)
              (write_misc io misc p (with_message write_size message pages) s₂)
              (λ s' (write, e, stored). (
                write_size,
                info,
                pages,
                size,
                read,
                opened,
                got,
                (with_message-message_at write_size message pages (ground (arith, fits))).0,
                write,
                subst (λ d. mtd_write_partition io p d ≡ some write) left e,
                stored,
              ))
              (write_misc-StoresPages allocates p (with_message write_size message pages) s₂
                positive))
      ]

  -- Where memory has the size that was asked for, and "misc" is found, with blocks of a positive size:
  -- `set_bootloader_message_mtd` returns 0 only if the pages that it has read from the partition, with
  -- the message in the place where `get_bootloader_message_mtd` looks for it, are what a session of
  -- writes to the partition, begun on the device as it was after the read, stored, each block with
  -- success; and the device that is left is the one that the last of these writes left, after a look
  -- at its offset and the close.
  pub set_bootloader_message_mtd-IsUpdated :
      Allocates
      → (message : Bytes) (p : MtdPartition) (s s₁ s' : RootsState D)
      → find_partition io (codes "misc") s ≡ some (some p, s₁)
      → 0 < (sizes_of p).erase_size
      → set_bootloader_message_mtd io misc message s ≡ some (true, s')
      → IsUpdated p message s₁ s'
  unfolding set_bootloader_message_mtd
  set_bootloader_message_mtd-IsUpdated allocates message p s s₁ s' found positive e =
      OnTrue-given (IsUpdated p message s₁) _ s'
        (OnTrue-bind (IsUpdated p message s₁) (read_misc io misc (some p))
          (put_message io misc message (some p)) s₁
          (λ r s₂ q.
            put_message-IsUpdated allocates message p r s₁ s₂ positive
              (subst (Reads p s₁) q (read_misc-Reads p s₁))))
        (sym (
            ap
              (λ o. elim o as (λ _. Option (Bool × RootsState D)) [
                | none ↦ none
                | some (part, s₂) ↦ (read_misc io misc part >>= put_message io misc message part) s₂
              ])
              found)
          ∙ e)
