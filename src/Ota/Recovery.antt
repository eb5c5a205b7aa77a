-- ===== src/Ota/Recovery.antt =====
-- firmware/bootloader/recovery.c: the receiver of a new image over the network, on the readers of
-- Ota/Reader.
pub mod Resync
pub mod Frames
pub mod Data
pub mod Erase
pub mod Verify
pub mod Program
pub mod Push
pub mod Polls
pub mod Enough
pub mod Guard
pub mod Chunk
use rp2040_eth_panel.Prelude.{
  ℕ, zero, suc, ◌+◌, ◌-◌, ◌*◌, ◌/◌, bit_and, Bool, true, false, not, ◌&&◌, ◌||◌, List, [], ◌∷◌,
  ◌++◌, Option, none, some, leb, ltb, ◌==◌, add32, same_bytes, replicate, if◌then◌else◌,
}
use rp2040_eth_panel.Prelude.Text.{codes}
use rp2040_eth_panel.Crc32.{ota_crc32}
use rp2040_eth_panel.Ota.Layout.{
  BootRecord, word_bytes, word_at, app_offset, app_max_size, chunk_size, flash_sector,
}
use rp2040_eth_panel.Ota.Flash.{Flash, FlashDriver, bytes_at}
use rp2040_eth_panel.Ota.BootState.{boot_state_write}
use rp2040_eth_panel.StatusLed.{led_off, status_led_solid}
use rp2040_eth_panel.Net.Bridge.{Trace, net_attach_data_mode}
use rp2040_eth_panel.Ota.Reader.{
  Input, sync_magic, begin_magic, data_magic, end_magic, go_magic, is_magic, read_exact, scan,
  read_command, read_u32,
}

-- `LED_RECOVERY`, `LED_DONE` and `LED_ERROR`: purple, green and red.
abbrev pub led_recovery : List ℕ
led_recovery = status_led_solid 60 0 60

abbrev pub led_done : List ℕ
led_done = status_led_solid 0 60 0

abbrev pub led_error : List ℕ
led_error = status_led_solid 60 0 0

-- The variables of `recovery_run`, the flash, the words sent to the status LED so far, and whether
-- `watchdog_reboot` was called.
pub record Session : Type 0 where
  pub app_len : ℕ
  pub app_crc : ℕ
  pub flash : Flash
  pub leds : List ℕ
  pub rebooted : Bool

-- The start of `recovery_run`, up to its loop: the calls on the network chip, and the session.
abbrev pub recovery_start : Trace → Flash → Trace × Session
recovery_start t f = (
  net_attach_data_mode t,
  record {
    app_len = 0;
    app_crc = 0;
    flash = f;
    leds = led_off ∷ (led_recovery ++ led_recovery);
    rebooted = false;
  },
)

-- What a command leaves: the session, the bytes sent to the host, and the rest of the input.
abbrev pub Reply : Type 0
Reply = Session × List ℕ × Input

-- `DNAK` and `DACK` with the offset.
abbrev pub nak : ℕ → List ℕ
nak off = codes "DNAK" ++ word_bytes off

abbrev pub ack : ℕ → List ℕ
ack off = codes "DACK" ++ word_bytes off

-- The test at the start of a DATA command, in `uint32_t`.
unfoldable pub chunk_rejected : ℕ → ℕ → Bool
chunk_rejected off len = len == 0 || ltb chunk_size len || ltb app_max_size (add32 off len)

-- What `program_chunk` programs: the chunk padded with 0xFF to whole pages.
unfoldable pub padded_len : ℕ → ℕ
padded_len len = bit_and (add32 len 255) 0xFFFFFF00

unfoldable pub padded : List ℕ → ℕ → List ℕ
padded bs len = bs ++ replicate (padded_len len - len) 0xFF

-- `st` of the END branch: all zero but for these fields.
abbrev pub verified_record : ℕ → ℕ → BootRecord
verified_record len crc = record {
  magic = 0;
  seq = 0;
  app_len = len;
  app_crc32 = crc;
  app_valid = 1;
  app_confirmed = 0;
  boot_attempts = 0;
  pad = 0;
  crc32 = 0;
}

module _ (driver : FlashDriver) where
  open driver use {erase, program}

  -- The loop of `erase_slot` from sector `i` on, with `n` sectors left.
  unfoldable pub erase_sectors : ℕ → ℕ → Flash → Flash
  erase_sectors zero i f = f
  erase_sectors (suc n) i f =
      erase_sectors n (i + 1) (erase f (app_offset + i * flash_sector) flash_sector)

  unfoldable pub erase_slot : ℕ → Flash → Flash
  erase_slot len f = erase_sectors (add32 len (flash_sector - 1) / flash_sector) 0 f

  unfoldable pub program_chunk : ℕ → List ℕ → ℕ → Flash → Flash
  program_chunk off bs len f = program f (add32 app_offset off) (padded bs len)

  -- SYNC. The rest of the magic is read and not looked at.
  unfoldable pub handle_sync : Session → Input → Reply
  handle_sync s inp =
      let (rest, inp') = read_exact 4 inp in
      (s, codes "BLOK" ++ (word_bytes app_max_size ++ word_bytes chunk_size), inp')

  -- BEGIN behind its two fields.
  unfoldable pub begin_slot : Session → Input → Reply
  begin_slot s inp =
      if s.app_len == 0 || ltb app_max_size s.app_len
      then (s, codes "ERSZ", inp)
      else (record s { flash = erase_slot s.app_len s.flash }, codes "OKER", inp)

  unfoldable pub begin_crc : Session → Input → Reply
  begin_crc s inp =
      let (crc, inp') = read_u32 inp in
      elim crc [ none ↦ (s, [], inp') | some c ↦ begin_slot (record s { app_crc = c }) inp' ]

  -- BEGIN. A timeout in the second field leaves the first one set.
  unfoldable pub handle_begin : Session → Input → Reply
  handle_begin s inp =
      let (len, inp') = read_u32 inp in
      elim len [ none ↦ (s, [], inp') | some l ↦ begin_crc (record s { app_len = l }) inp' ]

  -- DATA behind its three fields.
  unfoldable pub receive_chunk : Session → ℕ → ℕ → ℕ → Input → Reply
  receive_chunk s off len ccrc inp =
      if chunk_rejected off len
      then (s, nak off, inp)
      else (let (payload, inp') = read_exact len inp in
          elim payload [
            | none ↦ (s, nak off, inp')
            | some bs ↦
                if ota_crc32 bs == ccrc
                then (record s { flash = program_chunk off bs len s.flash }, ack off, inp')
                else (s, nak off, inp')
          ])

  unfoldable pub handle_data : Session → Input → Reply
  handle_data s inp =
      let (off, inp1) = read_u32 inp in
      elim off [
        | none ↦ (s, [], inp1)
        | some o ↦
            let (len, inp2) = read_u32 inp1 in
            elim len [
              | none ↦ (s, [], inp2)
              | some l ↦
                  let (ccrc, inp3) = read_u32 inp2 in
                  elim ccrc [ none ↦ (s, [], inp3) | some c ↦ receive_chunk s o l c inp3 ]
            ]
      ]

  -- END
  unfoldable pub handle_end : Session → Input → Reply
  handle_end s inp =
      if ota_crc32 (bytes_at s.flash app_offset s.app_len) == s.app_crc
      then (
        record s {
          flash = (boot_state_write driver s.flash (verified_record s.app_len s.app_crc)).0;
          leds = s.leds ++ led_done;
        },
        codes "DONE",
        inp,
      )
      else (record s { leds = s.leds ++ led_error }, codes "ECRC", inp)

  unfoldable pub handle_go : Session → Input → Reply
  handle_go s inp = (record s { rebooted = true }, codes "BYE!", inp)

  -- The branches of the loop, on the token that `read_command` returned.
  unfoldable pub handle : List ℕ → Session → Input → Reply
  handle tok s inp =
      if same_bytes tok sync_magic
      then handle_sync s inp
      else if same_bytes tok begin_magic
      then handle_begin s inp
      else if same_bytes tok data_magic
      then handle_data s inp
      else if same_bytes tok end_magic
      then handle_end s inp
      else if same_bytes tok go_magic
      then handle_go s inp
      else (s, [], inp)

  -- One round of the loop; an idle one shows the colour again.
  unfoldable pub round : Session → Input → Reply
  round s inp =
      let (tok, inp') = read_command inp in
      elim tok [
        | none ↦ (record s { leds = s.leds ++ led_recovery }, [], inp')
        | some t ↦ handle t s inp'
      ]

  -- Some rounds of `recovery_run`, with all that is sent. The reboot ends it.
  unfoldable pub recovery_run : ℕ → Session → Input → Reply
  recovery_run zero s inp = (s, [], inp)
  recovery_run (suc n) s inp = elim s.rebooted [
    | true ↦ (s, [], inp)
    | false ↦
        let (s', out, inp') = round s inp in
        let (s'', rest, inp'') = recovery_run n s' inp' in (s'', out ++ rest, inp'')
  ]
