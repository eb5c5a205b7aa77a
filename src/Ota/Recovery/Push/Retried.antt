-- ===== src/Ota/Recovery/Push/Retried.antt =====
-- What an update with retries leaves (the loop of firmware/bootloader/recovery.c).
use rp2040_eth_panel.Prelude.{
  ℕ, suc, ◌+◌, ◌^◌, ◌≤◌, ◌<◌, ◌≡◌, sym, ap, ◌∙◌, List, [], ◌∷◌, ◌++◌, append_assoc, length, false,
  true, subst, arith,
}
use rp2040_eth_panel.Prelude.Text.{codes}
use rp2040_eth_panel.Crc32.{ota_crc32}
use rp2040_eth_panel.Crc32.Bytes.{ota_crc32-lt}
use rp2040_eth_panel.Ota.Layout.{app_offset, app_max_size, word_at}
use rp2040_eth_panel.Ota.Flash.{Flash, FlashDriver, bytes_at}
use rp2040_eth_panel.Ota.BootState.{write_target, stamp}
use rp2040_eth_panel.Ota.Boot.{sane_vectors}
use rp2040_eth_panel.Ota.Boot.Trial.{IsOnTrial}
use rp2040_eth_panel.Ota.Recovery.{
  Session, Reply, led_done, erase_slot, recovery_run, verified_record,
}
use rp2040_eth_panel.Ota.Reader.{Input}
use rp2040_eth_panel.Ota.Recovery.Erase.{erased_len}
use rp2040_eth_panel.Ota.Recovery.Push.{
  begin_frame, data_frames, end_frame, image_of, acks, IsChunked, round_begin,
}
use rp2040_eth_panel.Ota.Recovery.Push.Fill.{
  after, programmed, image_of-IsBytes, recovery_run-suc, recovery_run-data,
}
use rp2040_eth_panel.Ota.Recovery.Push.Install.{push_installs}
use rp2040_eth_panel.Ota.Recovery.Push.Retry.{
  Try, tries_input, chunks_of, answers, AreSpoiled, recovery_run-tries,
}

append_cancel : (xs ys zs : List ℕ) → xs ++ ys ≡ xs ++ zs → ys ≡ zs
append_cancel [] ys zs e = e
append_cancel (x ∷ xs) ys zs e = append_cancel xs ys zs (cc)

module _ (driver : FlashDriver) where
  -- The run behind BEGIN.
  run_begun :
      (n : ℕ) (s : Session) (len crc : ℕ) (inp : Input)
      → s.rebooted ≡ false
      → len < 2 ^ 32
      → crc < 2 ^ 32
      → 0 < len
      → len ≤ app_max_size
      → let begun : Session = record s {
        app_len = len;
        app_crc = crc;
        flash = erase_slot driver len s.flash;
      } in
        recovery_run driver (2 + n) s (begin_frame len crc inp)
        ≡ after (codes "OKER") (recovery_run driver (n + 1) begun inp)
  run_begun n s len crc inp up p q some_bytes fits =
      let begun : Session = record s {
        app_len = len;
        app_crc = crc;
        flash = erase_slot driver len s.flash;
      } in
      let counted : 2 + n ≡ suc (n + 1) = omega arith in
      ap (λ (t : ℕ). recovery_run driver t s (begin_frame len crc inp)) counted
      ∙ recovery_run-suc driver (n + 1) s begun (begin_frame len crc inp) inp (codes "OKER") up
          (round_begin driver s len crc inp p q some_bytes fits)

  -- A whole update with retries: the receiver, in any state but a reboot, is sent BEGIN with the
  -- length and the checksum of an image, its chunks in order, every one on a page and of 1 to 1024
  -- bytes, and END. Between these frames the host may send, any number of times, a DATA frame that
  -- is damaged or that breaks off in a silence before its last byte. The fields of such a frame have
  -- to be those of a chunk that fits the slot, and the checksum of damaged bytes to differ from the
  -- one in the frame. Then every whole frame is acknowledged, every other is refused with its
  -- offset, the slot holds the image, the bootloader is as before, and the image is on trial: it is
  -- the newest boot record, valid, not confirmed and not yet started. The image has to fit the slot,
  -- to have at least 264 bytes and a vector table that the bootloader accepts, and sequence numbers
  -- have to be left.
  pub retried_installs :
      (s : Session) (ts : List Try) (room : ℕ) (rest : Input)
      → let image = image_of (chunks_of ts) in
        s.rebooted ≡ false
        → IsChunked (erased_len (length image)) 0 (chunks_of ts)
        → AreSpoiled ts
        → 0x108 ≤ length image
        → length image ≤ app_max_size
        → sane_vectors (word_at image 0x100) (word_at image 0x104) ≡ true
        → (write_target s.flash).0 + 1 + room < 2 ^ 32
        → let (s', out, inp') =
            recovery_run driver
              (2 + length ts)
              s
              (begin_frame (length image) (ota_crc32 image) (tries_input 0 ts (end_frame rest))) in
          (out ≡ codes "OKER" ++ (answers 0 ts ++ codes "DONE"))
          × (inp' ≡ rest)
          × (bytes_at s'.flash app_offset (length image) ≡ image)
          × ((a : ℕ) → a < app_offset → s'.flash a ≡ s.flash a)
          × IsOnTrial 0 room s'.flash
              (stamp (write_target s.flash).0 (verified_record (length image) (ota_crc32 image)))
          × (s'.leds ≡ s.leds ++ led_done)
          × (s'.rebooted ≡ false)
  retried_installs s ts room rest up chunked spoiled vectors fits sane numbers =
      let cs = chunks_of ts in
      let image = image_of cs in
      let len = length image in
      let crc = ota_crc32 image in
      let small = ota_crc32-lt image (image_of-IsBytes (erased_len len) 0 cs chunked) in
      let begun : Session = record s {
        app_len = len;
        app_crc = crc;
        flash = erase_slot driver len s.flash;
      } in
      let end : Reply =
        recovery_run driver 1 (record begun { flash = programmed driver 0 cs begun.flash })
          (end_frame rest) in
      let plain =
        run_begun (length cs) s len crc (data_frames 0 cs (end_frame rest)) up (omega arith) small
          (omega arith) fits
        ∙ ap (after (codes "OKER"))
            (recovery_run-data driver 1 begun 0 (erased_len len) cs (end_frame rest) up chunked) in
      let noisy =
        run_begun (length ts) s len crc (tries_input 0 ts (end_frame rest)) up (omega arith) small
          (omega arith) fits
        ∙ ap (after (codes "OKER")) (
            recovery_run-tries driver 1 begun 0 (erased_len len) ts (end_frame rest) up chunked
              spoiled) in
      let (out, inp, slot, below, trial, lit, on) =
        push_installs driver s cs room rest up chunked vectors fits sane numbers in
      let same = ap (λ (t : Reply). t.0.flash) noisy ∙ sym (ap (λ (t : Reply). t.0.flash) plain) in
      let done = append_cancel (codes "OKER" ++ acks 0 cs) end.1 (codes "DONE") (
        append_assoc (codes "OKER") (acks 0 cs) end.1
        ∙ sym (ap (λ (t : Reply). t.1) plain)
        ∙ out
        ∙ sym (append_assoc (codes "OKER") (acks 0 cs) (codes "DONE"))) in
      (
        ap (λ (t : Reply). t.1) noisy ∙ ap (λ l. codes "OKER" ++ (answers 0 ts ++ l)) done,
        ap (λ (t : Reply). t.2) noisy ∙ sym (ap (λ (t : Reply). t.2) plain) ∙ inp,
        ap (λ (f : Flash). bytes_at f app_offset len) same ∙ slot,
        λ a p. ap (λ (f : Flash). f a) same ∙ below a p,
        subst
            (λ (f : Flash).
              IsOnTrial 0 room f (stamp (write_target s.flash).0 (verified_record len crc)))
            (sym same) trial,
        ap (λ (t : Reply). t.0.leds) noisy ∙ sym (ap (λ (t : Reply). t.0.leds) plain) ∙ lit,
        ap (λ (t : Reply). t.0.rebooted) noisy ∙ sym (ap (λ (t : Reply). t.0.rebooted) plain) ∙ on,
      )
