-- ===== src/Ota/BootState.antt =====
-- firmware/src/ota/boot_state.c: the boot state in two flash sectors, written in turn.
pub mod Codec
pub mod Sector
pub mod Write
use rp2040_eth_panel.Prelude.{
  ℕ, ◌+◌, ◌-◌, Bool, true, false, ◌&&◌, List, ◌++◌, Option, none, some, leb, ◌==◌, add32, replicate,
  if◌then◌else◌,
}
use rp2040_eth_panel.Crc32.{ota_crc32}
use rp2040_eth_panel.Ota.Layout.{
  BootRecord, record_of, record_bytes, head_bytes, boot_state_magic, bootstate_a_offset,
  bootstate_b_offset, flash_sector, flash_page_size,
}
use rp2040_eth_panel.Ota.Flash.{Flash, FlashDriver, bytes_at}

-- `at`: the struct at an offset.
unfoldable pub record_in : Flash → ℕ → BootRecord
record_in f off = record_of (bytes_at f off 24)

unfoldable pub rec_valid : Flash → ℕ → Bool
unfolding record_in
rec_valid f off =
    (record_in f off).magic == boot_state_magic
    && ota_crc32 (bytes_at f off 20) == (record_in f off).crc32

unfoldable pub boot_state_read : Flash → Option BootRecord
boot_state_read f =
    let a = record_in f bootstate_a_offset in
    let b = record_in f bootstate_b_offset in
    let av = rec_valid f bootstate_a_offset in
    let bv = rec_valid f bootstate_b_offset in
    if av && bv
    then some (if leb b.seq a.seq then a else b)
    else if av
    then some a
    else if bv
    then some b
    else none

-- The highest sequence number, and the older or invalid sector.
unfoldable pub write_target : Flash → ℕ × ℕ
write_target f =
    let a = record_in f bootstate_a_offset in
    let b = record_in f bootstate_b_offset in
    let av = rec_valid f bootstate_a_offset in
    let bv = rec_valid f bootstate_b_offset in
    if av && bv
    then (if leb b.seq a.seq then (a.seq, bootstate_b_offset) else (b.seq, bootstate_a_offset))
    else if av
    then (a.seq, bootstate_b_offset)
    else if bv
    then (b.seq, bootstate_a_offset)
    else (0, bootstate_a_offset)

-- The record as it is written: `magic`, `seq` and `crc32` are filled in.
unfoldable pub stamp : ℕ → BootRecord → BootRecord
stamp maxseq r =
    let numbered = record r { magic = boot_state_magic; seq = add32 maxseq 1 } in
    record numbered { crc32 = ota_crc32 (head_bytes numbered) }

-- `memset(page, 0xFF)` and `memcpy(page, in)`.
unfoldable pub page_of : BootRecord → List ℕ
page_of r = record_bytes r ++ replicate (flash_page_size - 24) 0xFF

module _ (driver : FlashDriver) where
  open driver use {erase, program}

  -- The flash and the caller's record afterwards.
  unfoldable pub boot_state_write : Flash → BootRecord → Flash × BootRecord
  unfolding write_target
  boot_state_write f r =
      let (maxseq, target) = write_target f in
      let r' = stamp maxseq r in (program (erase f target flash_sector) target (page_of r'), r')
