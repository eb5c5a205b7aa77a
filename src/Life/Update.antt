-- ===== src/Life/Update.antt =====
-- A whole update, from the running application (firmware/src/main.c) over the receiver
-- (firmware/bootloader/recovery.c) to the start of the new image (firmware/bootloader/main.c).
use rp2040_eth_panel.Prelude.{
  ℕ, ◌+◌, ◌^◌, ◌≤◌, ◌<◌, ◌≡◌, refl, ap, ap₂, ◌∙◌, true, false, List, [], ◌∷◌, ◌++◌, length,
  same_bytes, arith,
}
use rp2040_eth_panel.Prelude.Text.{codes}
use rp2040_eth_panel.Protocol.Object.{Fields, word, object_text}
use rp2040_eth_panel.Protocol.Format.{proto_fmt_ack}
use rp2040_eth_panel.StatusLed.{led_off}
use rp2040_eth_panel.App.{empty_line}
use rp2040_eth_panel.App.Dispatch.{Panel, Device, send_ack, run_parsed, run_kind, receive}
use rp2040_eth_panel.App.Dispatch.Objects.{IsText, receive-object}
use rp2040_eth_panel.Ota.Layout.{app_offset, app_max_size, app_vtable_addr, word_at}
use rp2040_eth_panel.Ota.Flash.{Flash, FlashDriver, bytes_at, bytes_at_congr}
use rp2040_eth_panel.Ota.BootState.{write_target}
use rp2040_eth_panel.Ota.Boot.{sane_vectors, word_in, decide_boot_app, requested_scratch}
use rp2040_eth_panel.Ota.Boot.Decide.{decide_boot_app-outside}
use rp2040_eth_panel.Ota.Boot.Attempts.{trial_starts}
use rp2040_eth_panel.Ota.Boot.Main.{
  ResetBits, Handoff, application, recovery, hand_over, jump_to_app, bootloader_main,
}
use rp2040_eth_panel.Ota.Boot.Main.Jump.{
  bootloader_main-started, bootloader_main-recovery, vectors_kept,
}
use rp2040_eth_panel.Ota.Recovery.{
  Session, Reply, led_recovery, led_done, recovery_start, recovery_run,
}
use rp2040_eth_panel.Ota.Reader.{Input}
use rp2040_eth_panel.Ota.Recovery.Erase.{erased_len}
use rp2040_eth_panel.Ota.Recovery.Push.{image_of, IsChunked}
use rp2040_eth_panel.Ota.Recovery.Push.Fill.{word_in-image}
use rp2040_eth_panel.Ota.Recovery.Push.Retry.{Try, chunks_of, AreSpoiled}
use rp2040_eth_panel.Ota.Recovery.Push.Restart.{Cut, AreCut}
use rp2040_eth_panel.Ota.Recovery.Push.Go.{update_input, update_answers, update_rounds, go_installs}
use rp2040_eth_panel.Life.Reset.{enter, reset}

-- The object that the host sends to the application, `{"cmd":"ota"}`.
abbrev pub ota_object : Fields
ota_object = (codes "cmd", word (codes "ota")) ∷ []

ota_object-IsText : IsText (object_text ota_object)
ota_object-IsText = omega arith

ota_object_asks :
    (device : Device) (p : Panel)
    → receive device (object_text ota_object ++ (10 ∷ [])) empty_line p
      ≡ (record p { update_requested = true }, empty_line, send_ack (codes "ota"))
unfolding run_parsed run_kind same_bytes proto_fmt_ack
ota_object_asks device p =
    receive-object device ota_object p (omega arith) ota_object-IsText (omega arith) ∙ refl

module _ (driver : FlashDriver) (bits : ResetBits) where
  reset_by :
      (rounds scratch : ℕ) (f : Flash) (inp : Input) (t : Handoff × ℕ × Flash)
      → bootloader_main driver bits scratch f ≡ t
      → reset driver bits rounds scratch f inp ≡ enter driver rounds inp t.0 t.1 t.2
  unfolding reset
  reset_by rounds scratch f inp t e =
      ap (λ (u : Handoff × ℕ × Flash). enter driver rounds inp u.0 u.1 u.2) e

  handed_over :
      (f : Flash) (sp pc : ℕ)
      → word_in f app_vtable_addr ≡ sp
      → word_in f (app_vtable_addr + 4) ≡ pc
      → application (jump_to_app bits f app_vtable_addr)
        ≡ application (hand_over bits app_vtable_addr sp pc)
  unfolding jump_to_app
  handed_over f sp pc d e = ap₂ (λ a b. application (hand_over bits app_vtable_addr a b)) d e

  asked_for : (f : Flash) → decide_boot_app driver requested_scratch f ≡ (false, f)
  unfolding decide_boot_app
  asked_for f = refl

  -- From the request of an update to the start of the new image. The application, in any state, is
  -- sent the object `{"cmd":"ota"}` on a line of its own, and asks for the update. The reset with
  -- the request in SCRATCH0 enters recovery, whatever the flash holds. The receiver is sent any
  -- number of cut sessions and then a whole update with GO, as the host tool does; chunks of it may
  -- be damaged, so that the checksum differs, or break off in a silence, any number of times. It
  -- answers every frame and reboots, with the LED green. The next reset hands over to the new image:
  -- the stack pointer and the entry are those at its offsets 0x100 and 0x104, the slot holds it, and
  -- the bootloader's part of the flash is as before. The image fits the slot in chunks of 1 to 1024
  -- bytes on pages, has at least 264 bytes and a vector table that the bootloader accepts, and two
  -- sequence numbers are left.
  pub network_update :
      (device : Device) (p : Panel) (f : Flash) (cs : List Cut) (ts : List Try) (rest : Input)
      → let image = image_of (chunks_of ts) in
        AreCut cs
        → IsChunked (erased_len (length image)) 0 (chunks_of ts)
        → AreSpoiled ts
        → 0x108 ≤ length image
        → length image ≤ app_max_size
        → sane_vectors (word_at image 0x100) (word_at image 0x104) ≡ true
        → (write_target f).0 + 2 < 2 ^ 32
        → let (asked, line, answer) =
            receive device (object_text ota_object ++ (10 ∷ [])) empty_line p in
          let update =
            reset driver bits (update_rounds cs ts) requested_scratch f (update_input cs ts rest) in
          let boot = reset driver bits 0 update.scratch update.flash update.rest in
          (asked.update_requested ≡ true)
          × (answer ≡ send_ack (codes "ota"))
          × (update.handoff ≡ recovery)
          × (update.sent ≡ update_answers cs ts)
          × (update.rebooted ≡ true)
          × (update.leds ≡ led_off ∷ ((led_recovery ++ led_recovery) ++ led_done))
          × (boot.handoff
              ≡ application
                  (hand_over bits app_vtable_addr (word_at image 0x100) (word_at image 0x104)))
          × (bytes_at boot.flash app_offset (length image) ≡ image)
          × ((a : ℕ) → a < app_offset → boot.flash a ≡ f a)
  network_update device p f cs ts rest cut chunked spoiled vectors fits sane numbers =
      let image = image_of (chunks_of ts) in
      let n = update_rounds cs ts in
      let start : Session = (recovery_start [] f).1 in
      let done : Reply = recovery_run driver n start (update_input cs ts rest) in
      let f1 = done.0.flash in
      let (out, inp, slot, below, trial, lit, over) =
        go_installs driver start cs ts 1 rest refl cut chunked spoiled vectors fits sane
          (omega arith) in
      let first =
        reset_by n requested_scratch f (update_input cs ts rest) (recovery, 0, f)
          (bootloader_main-recovery driver bits requested_scratch f f (asked_for f)) in
      let f2 = (decide_boot_app driver 0 f1).1 in
      let started = (trial_starts driver 0 0 f1 _ (omega arith) trial).0 in
      let second =
        reset_by 0 0 f1 done.2 (application (jump_to_app bits f2 app_vtable_addr), 0, f2)
          (bootloader_main-started driver bits 0 f1 f2 (ap (λ b. (b, f2)) started)) in
      let kept = decide_boot_app-outside driver 0 f1 in
      let (stack, entry) = vectors_kept driver bits 0 f1 in
      let asks = ota_object_asks device p in
      rw (asks, first, second)
        (
          refl,
          refl,
          refl,
          out,
          over,
          lit,
          handed_over f2 _ _
              (stack
                ∙ word_in-image f1 (length image) 0x100 (omega arith)
                ∙ ap (λ l. word_at l 0x100) slot)
              (entry
                ∙ word_in-image f1 (length image) 0x104 (omega arith)
                ∙ ap (λ l. word_at l 0x104) slot),
          bytes_at_congr f2 f1 app_offset (length image) (λ a p q. kept a (omega arith)) ∙ slot,
          λ a p. kept a (omega arith) ∙ below a p,
        )
