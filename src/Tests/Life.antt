-- ===== src/Tests/Life.antt =====
-- An update and the power cycles behind it on concrete inputs.
use rp2040_eth_panel.Prelude.{
  ℕ, ◌<◌, ◌^◌, ◌++◌, ◌≡◌, refl, true, false, List, [], ◌∷◌, map, both, length, arith,
}
use rp2040_eth_panel.Config.{net_config}
use rp2040_eth_panel.Crc32.{ota_crc32}
use rp2040_eth_panel.Prelude.Text.{codes}
use rp2040_eth_panel.Ota.Recovery.{recovery_run, led_recovery, led_done}
use rp2040_eth_panel.Ota.Layout.{
  app_offset, app_vtable_addr, word_at, bootstate_a_offset, enter_update_magic,
}
use rp2040_eth_panel.Ota.Flash.{bytes_at}
use rp2040_eth_panel.Ota.Boot.{requested_scratch}
use rp2040_eth_panel.Ota.Boot.Main.{
  ResetBits, reset_block, reset_peripherals, application, recovery, hand_over, bootloader_main,
}
use rp2040_eth_panel.Ota.Boot.Main.Jump.{JumpsSafely, bootloader_main_lem}
use rp2040_eth_panel.Ota.Recovery.Push.Go.{update_input, update_answers, update_rounds}
use rp2040_eth_panel.StatusLed.{led_off}
use rp2040_eth_panel.Net.Bridge.{NetStatus}
use rp2040_eth_panel.Protocol.Object.{object_text}
use rp2040_eth_panel.App.{empty_line}
use rp2040_eth_panel.App.Dispatch.{send_ack, receive}
use rp2040_eth_panel.App.Start.{device_of, dark_panel}
use rp2040_eth_panel.Life.Reset.{reset}
use rp2040_eth_panel.Life.Update.{ota_object, network_update}
use rp2040_eth_panel.Ota.Recovery.Push.{begin_frame, end_frame, image_of}
use rp2040_eth_panel.Ota.Recovery.Push.Retry.{tries_input}
use rp2040_eth_panel.Life.{PowerUp, responds, power_ups}
use rp2040_eth_panel.Life.Fate.{fate, update_fate}
use rp2040_eth_panel.Tests.Memory.{memory_driver, blank_flash}
use rp2040_eth_panel.Tests.Update.{
  idle, small_image, small_image-IsChunked, small_image_vectors, tries, tries-AreSpoiled, cut_short,
  cut_short-IsCut, blank_target,
}
use rp2040_eth_panel.Tests.Loop.{silent_chip, short_chip}

abbrev quiet_status : NetStatus
quiet_status = record {
  responding = false;
  dhcp_mode = true;
  ip = 10 ∷ 74 ∷ 31 ∷ 251 ∷ [];
  mac = [];
  port = 5005;
}

-- The bridge is silent once, and then answers.
abbrev two_starts : List PowerUp
two_starts =
    record { chip = silent_chip; levels = both true; now_ms = 0 }
    ∷ record { chip = short_chip; levels = both true; now_ms = 0 }
    ∷ []

update_fate_example :
    let image = image_of small_image in
    let (s', out, inp') =
      recovery_run memory_driver 6 idle
        (begin_frame (length image) (ota_crc32 image) (tries_input 0 tries (end_frame []))) in
    (power_ups memory_driver net_config two_starts s'.flash).0
    ≡ fate 3 (map (responds memory_driver net_config) two_starts)
update_fate_example =
    update_fate memory_driver net_config idle tries [] two_starts refl small_image-IsChunked
      tries-AreSpoiled (omega arith) (omega arith) small_image_vectors (omega (arith, blank_target))

fate_values : fate 3 (false ∷ false ∷ false ∷ true ∷ []) ≡ true ∷ true ∷ true ∷ false ∷ []
fate_values = refl

-- The bits of the RP2040.
abbrev reset_bits : ResetBits
reset_bits = record {
  io_qspi = 2 ^ 6;
  pads_qspi = 2 ^ 9;
  pll_usb = 2 ^ 13;
  usbctrl = 2 ^ 24;
  syscfg = 2 ^ 18;
  pll_sys = 2 ^ 12;
}

-- Everything else goes into reset.
reset_peripherals_value : reset_peripherals reset_bits ≡ reset_block 0xFEFBCDBF
unfolding reset_peripherals
reset_peripherals_value = refl

bootloader_main_lem_example :
    let (handoff, scratch', f') =
      bootloader_main memory_driver reset_bits enter_update_magic blank_flash in
    JumpsSafely memory_driver reset_bits handoff
    × (enter_update_magic ≡ enter_update_magic → handoff ≡ recovery)
    × (scratch' ≡ 0)
    × ((a : ℕ) → a < bootstate_a_offset → f' a ≡ blank_flash a)
bootloader_main_lem_example =
    bootloader_main_lem memory_driver reset_bits enter_update_magic blank_flash

network_update_example :
    let image = image_of small_image in
    let (asked, line, answer) =
      receive
        (device_of quiet_status)
        (object_text ota_object ++ (10 ∷ []))
        empty_line
        dark_panel.0 in
    let update =
      reset memory_driver reset_bits
        (update_rounds (cut_short ∷ []) tries)
        requested_scratch
        blank_flash
        (update_input (cut_short ∷ []) tries []) in
    let boot = reset memory_driver reset_bits 0 update.scratch update.flash update.rest in
    (asked.update_requested ≡ true)
    × (answer ≡ send_ack (codes "ota"))
    × (update.handoff ≡ recovery)
    × (update.sent ≡ update_answers (cut_short ∷ []) tries)
    × (update.rebooted ≡ true)
    × (update.leds ≡ led_off ∷ ((led_recovery ++ led_recovery) ++ led_done))
    × (boot.handoff
        ≡ application
            (hand_over reset_bits app_vtable_addr (word_at image 0x100) (word_at image 0x104)))
    × (bytes_at boot.flash app_offset (length image) ≡ image)
    × ((a : ℕ) → a < app_offset → boot.flash a ≡ blank_flash a)
network_update_example =
    network_update memory_driver reset_bits (device_of quiet_status) dark_panel.0 blank_flash
      (cut_short ∷ []) tries [] (cut_short-IsCut, tt) small_image-IsChunked tries-AreSpoiled
      (omega arith) (omega arith) small_image_vectors (omega (arith, blank_target))
