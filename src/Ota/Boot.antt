-- ===== src/Ota/Boot.antt =====
-- firmware/bootloader/main.c: whether to start the application or the recovery; and the
-- application's side of it, firmware/src/ota/ota_app.c.
pub mod Decide
pub mod Trial
pub mod Attempts
pub mod Confirm
pub mod Main
use rp2040_eth_panel.Prelude.{
  ℕ, zero, suc, ◌+◌, ◌-◌, ◌%◌, Bool, true, false, not, ◌&&◌, ◌||◌, List, [], ◌∷◌, Option, none,
  some, leb, ltb, ◌==◌, u8, if◌then◌else◌,
}
use rp2040_eth_panel.Crc32.{ota_crc32}
use rp2040_eth_panel.Ota.Layout.{
  BootRecord, word_at, xip_base_addr, app_xip_addr, app_vtable_addr, app_offset, app_max_size,
  enter_update_magic, max_boot_attempts,
}
use rp2040_eth_panel.Ota.Flash.{Flash, FlashDriver, bytes_at}
use rp2040_eth_panel.Ota.BootState.{boot_state_read, boot_state_write}

abbrev pub ram_start : ℕ
ram_start = 0x20000000

abbrev pub ram_end : ℕ
ram_end = 0x20042000

-- A `uint32_t` read through the XIP window.
unfoldable pub word_in : Flash → ℕ → ℕ
word_in f addr = word_at (bytes_at f (addr - xip_base_addr) 4) 0

-- The tests of `app_vectortable_sane` on the stack pointer and the entry.
unfoldable pub sane_vectors : ℕ → ℕ → Bool
sane_vectors sp pc =
    if ltb sp ram_start || ltb ram_end sp
    then false
    else if ltb pc app_xip_addr || leb (app_xip_addr + app_max_size) pc
    then false
    else if pc % 2 == 0
    then false
    else true

unfoldable pub app_vectortable_sane : Flash → ℕ → Bool
unfolding sane_vectors
app_vectortable_sane f vtable = sane_vectors (word_in f vtable) (word_in f (vtable + 4))

-- The image in the slot, `app_len` bytes, has the checksum of the record.
unfoldable pub image_matches : Flash → BootRecord → Bool
image_matches f st = ota_crc32 (bytes_at f app_offset st.app_len) == st.app_crc32

module _ (driver : FlashDriver) where
  -- The end of `decide_boot_app`, on a valid image that is not confirmed.
  unfoldable pub count_attempt : Flash → BootRecord → Bool × Flash
  count_attempt f st =
      if ltb st.boot_attempts max_boot_attempts
      then (
        true,
        (boot_state_write driver f (record st { boot_attempts = u8 (st.boot_attempts + 1) })).0,
      )
      else (false, (boot_state_write driver f (record st { app_valid = 0 })).0)

  -- `decide_boot_app` behind a successful `boot_state_read`.
  unfoldable pub decide_record : Flash → BootRecord → Bool × Flash
  decide_record f st =
      if st.app_valid == 0 || not (app_vectortable_sane f app_vtable_addr)
      then (false, f)
      else if not (image_matches f st)
      then (false, f)
      else if not (st.app_confirmed == 0)
      then (true, f)
      else count_attempt f st

  -- The decision, and the flash afterwards. SCRATCH0 is cleared whatever is decided.
  unfoldable pub decide_boot_app : ℕ → Flash → Bool × Flash
  decide_boot_app scratch f =
      if scratch == enter_update_magic then (false, f) else elim (boot_state_read f) [
        | none ↦ (app_vectortable_sane f app_vtable_addr, f)
        | some st ↦ decide_record f st
      ]

  -- `ota_confirm` of the application.
  unfoldable pub ota_confirm : Flash → Flash
  ota_confirm f = elim (boot_state_read f) [
    | none ↦ f
    | some st ↦
        if not (st.app_valid == 0) && st.app_confirmed == 0
        then (boot_state_write driver f (record st { app_confirmed = 1; boot_attempts = 0 })).0
        else f
  ]

  -- Power cycles with SCRATCH0 clear, and which of them started the application.
  unfoldable pub power_cycles : ℕ → Flash → List Bool × Flash
  power_cycles zero f = ([], f)
  power_cycles (suc n) f =
      let (started, f') = decide_boot_app 0 f in
      let (rest, f'') = power_cycles n f' in (started ∷ rest, f'')

-- `ota_request_update` leaves this in SCRATCH0 and reboots.
abbrev pub requested_scratch : ℕ
requested_scratch = enter_update_magic
