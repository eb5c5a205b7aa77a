-- ===== src/Ota/Recovery/Push/Install.antt =====
-- What a whole update leaves in the flash and in the boot state (the loop of
-- firmware/bootloader/recovery.c, on the frames of tools/ota_flash.py).
use rp2040_eth_panel.Prelude.{
  ℕ, ◌+◌, ◌^◌, ◌≤◌, ◌<◌, ◌≡◌, ◌⊎◌, inl, inr, refl, sym, ap, ap₂, ◌∙◌, List, [], ◌++◌, length, true,
  false, subst, arith,
}
use rp2040_eth_panel.Prelude.Text.{codes}
use rp2040_eth_panel.Crc32.{ota_crc32}
use rp2040_eth_panel.Crc32.Bytes.{ota_crc32-lt}
use rp2040_eth_panel.Ota.Layout.{
  app_offset, app_max_size, bootstate_a_offset, app_vtable_addr, word_at,
}
use rp2040_eth_panel.Ota.Flash.{Flash, FlashDriver, bytes_at, bytes_at_congr}
use rp2040_eth_panel.Ota.BootState.{write_target, stamp, boot_state_write}
use rp2040_eth_panel.Ota.BootState.Write.{write_target_congr, boot_state_write-outside}
use rp2040_eth_panel.Ota.Boot.{sane_vectors, app_vectortable_sane}
use rp2040_eth_panel.Ota.Boot.Trial.{IsOnTrial}
use rp2040_eth_panel.Ota.Recovery.{
  Session, Reply, led_done, erase_slot, recovery_run, verified_record,
}
use rp2040_eth_panel.Ota.Reader.{Input}
use rp2040_eth_panel.Ota.Recovery.Erase.{erased_len, erase_slot-inside, erase_slot-outside}
use rp2040_eth_panel.Ota.Recovery.Verify.{handle_end_trial, handle_end-passes}
use rp2040_eth_panel.Ota.Recovery.Push.{
  begin_frame, data_frames, end_frame, image_of, acks, IsChunked, round_begin, round_end,
}
use rp2040_eth_panel.Ota.Recovery.Push.Fill.{
  after, image_of-IsBytes, word_in-image, recovery_run-suc, recovery_run-data, programmed,
  programmed-appends, programmed-elsewhere,
}

module _ (driver : FlashDriver) where
  module _ (s : Session) (cs : List (List ℕ)) (rest : Input)
      (chunked : IsChunked (erased_len (length (image_of cs))) 0 cs)
      (vectors : 0x108 ≤ length (image_of cs)) (fits : length (image_of cs) ≤ app_max_size) where
    abbrev image : List ℕ
    image = image_of cs

    abbrev cleared : Flash
    cleared = erase_slot driver (length image) s.flash

    -- The session when END arrives.
    abbrev filled : Session
    filled = record s {
      app_len = length image;
      app_crc = ota_crc32 image;
      flash = programmed driver 0 cs cleared;
    }

    filled-image : bytes_at filled.flash app_offset (length image) ≡ image
    filled-image =
        ap (bytes_at filled.flash app_offset) (omega arith)
        ∙ programmed-appends driver 0 (erased_len (length image)) cs [] cleared chunked
            (λ a p q.
              erase_slot-inside driver (length image) s.flash fits a (omega arith) (omega arith))
            (unfold bytes_at in refl)

    filled-elsewhere :
        (a : ℕ) → (a < app_offset) ⊎ (bootstate_a_offset ≤ a) → filled.flash a ≡ s.flash a
    filled-elsewhere a h =
        programmed-elsewhere driver 0 (erased_len (length image)) cs cleared a chunked h
        ∙ erase_slot-outside driver (length image) s.flash fits a (beside h)
      where
        beside :
            (a < app_offset) ⊎ (bootstate_a_offset ≤ a)
            → (a < app_offset) ⊎ (app_offset + erased_len (length image) ≤ a)
        beside (inl p) = inl p
        beside (inr p) = inr (omega arith)

    filled-sane :
        sane_vectors (word_at image 0x100) (word_at image 0x104) ≡ true
        → app_vectortable_sane filled.flash app_vtable_addr ≡ true
    unfolding app_vectortable_sane
    filled-sane h =
        let sp = word_in-image filled.flash (length image) 0x100 (omega arith) in
        let pc = word_in-image filled.flash (length image) 0x104 (omega arith) in
        ap₂ sane_vectors (sp ∙ ap (λ l. word_at l 0x100) filled-image)
          (pc ∙ ap (λ l. word_at l 0x104) filled-image)
        ∙ h

    run :
        s.rebooted ≡ false
        → recovery_run driver
            (2 + length cs)
            s
            (begin_frame (length image) (ota_crc32 image) (data_frames 0 cs (end_frame rest)))
          ≡ (
            record filled {
              flash =
                  (boot_state_write driver filled.flash
                    (verified_record (length image) (ota_crc32 image))).0;
              leds = s.leds ++ led_done;
            },
            codes "OKER" ++ (acks 0 cs ++ codes "DONE"),
            rest,
          )
    run up =
        let crc = ota_crc32-lt image (image_of-IsBytes (erased_len (length image)) 0 cs chunked) in
        let frames = data_frames 0 cs (end_frame rest) in
        let begun : Session = record s {
          app_len = length image;
          app_crc = ota_crc32 image;
          flash = cleared;
        } in
        let done : Session = record filled {
          flash =
              (boot_state_write driver filled.flash
                (verified_record (length image) (ota_crc32 image))).0;
          leds = s.leds ++ led_done;
        } in
        let ends = recovery_run-suc driver 0 filled done (end_frame rest) rest (codes "DONE") up (
          round_end driver filled rest
          ∙ handle_end-passes driver filled rest (ap ota_crc32 filled-image)) in
        ap
          (λ (t : ℕ). recovery_run driver t s (begin_frame (length image) (ota_crc32 image) frames))
          (omega arith)
        ∙ (recovery_run-suc driver (length cs + 1) s begun
            (begin_frame (length image) (ota_crc32 image) frames) frames (codes "OKER") up
            (round_begin driver s (length image) (ota_crc32 image) frames (omega arith) crc
              (omega arith) fits))
        ∙ ap (after (codes "OKER")) (
            recovery_run-data driver 1 begun 0 (erased_len (length image)) cs (end_frame rest) up
              chunked
            ∙ ap (after (acks 0 cs)) (ends ∙ unfold recovery_run in refl))

  -- A whole update: the receiver, in any state but a reboot, is sent BEGIN with the length and
  -- the checksum of an image, its chunks in order, every one on a page and of 1 to 1024 bytes,
  -- and END. Then every frame is acknowledged, the slot holds the image, the bootloader is as
  -- before, and the image is on trial: it is the newest boot record, valid, not confirmed and not
  -- yet started. The image has to fit the slot, to have at least 264 bytes and a vector table
  -- that the bootloader accepts, and sequence numbers have to be left.
  pub push_installs :
      (s : Session) (cs : List (List ℕ)) (room : ℕ) (rest : Input)
      → let image = image_of cs in
        s.rebooted ≡ false
        → IsChunked (erased_len (length image)) 0 cs
        → 0x108 ≤ length image
        → length image ≤ app_max_size
        → sane_vectors (word_at image 0x100) (word_at image 0x104) ≡ true
        → (write_target s.flash).0 + 1 + room < 2 ^ 32
        → let (s', out, inp') =
            recovery_run driver
              (2 + length cs)
              s
              (begin_frame (length image) (ota_crc32 image) (data_frames 0 cs (end_frame rest))) in
          (out ≡ codes "OKER" ++ (acks 0 cs ++ codes "DONE"))
          × (inp' ≡ rest)
          × (bytes_at s'.flash app_offset (length image) ≡ image)
          × ((a : ℕ) → a < app_offset → s'.flash a ≡ s.flash a)
          × IsOnTrial 0 room s'.flash
              (stamp (write_target s.flash).0 (verified_record (length image) (ota_crc32 image)))
          × (s'.leds ≡ s.leds ++ led_done)
          × (s'.rebooted ≡ false)
  push_installs s cs room rest up chunked vectors fits sane numbers =
      let image = image_of cs in
      let r = verified_record (length image) (ota_crc32 image) in
      let end : Session = filled s cs rest chunked vectors fits in
      let f' = (boot_state_write driver end.flash r).0 in
      let crc = ota_crc32-lt image (image_of-IsBytes (erased_len (length image)) 0 cs chunked) in
      let ran = run s cs rest chunked vectors fits up in
      let holds = filled-image s cs rest chunked vectors fits in
      let target : (write_target end.flash).0 ≡ (write_target s.flash).0 =
        ap (λ (t : ℕ × ℕ). t.0)
          (write_target_congr end.flash s.flash
            (λ a p. filled-elsewhere s cs rest chunked vectors fits a (inr p))) in
      let kept : (a : ℕ) → a < bootstate_a_offset → f' a ≡ end.flash a =
        λ a p. boot_state_write-outside driver end.flash r a p in
      let ended =
        handle_end_trial driver end room rest fits crc (omega (arith, target))
          (filled-sane s cs rest chunked vectors fits sane) (ap ota_crc32 holds) in
      let trial =
        ap (λ (t : Reply). t.0.flash) (handle_end-passes driver end rest (ap ota_crc32 holds)) in
      (
        ap (λ (t : Reply). t.1) ran,
        ap (λ (t : Reply). t.2) ran,
        ap (λ (t : Reply). bytes_at t.0.flash app_offset (length image)) ran
            ∙ (bytes_at_congr f' end.flash app_offset (length image)
                (λ a p q. kept a (omega arith)))
            ∙ holds,
        λ a p.
            ap (λ (t : Reply). t.0.flash a) ran
            ∙ kept a (omega arith)
            ∙ filled-elsewhere s cs rest chunked vectors fits a (inl p),
        subst (λ (f : Flash). IsOnTrial 0 room f (stamp (write_target s.flash).0 r))
            (sym (ap (λ (t : Reply). t.0.flash) ran))
            (subst (λ (m : ℕ). IsOnTrial 0 room f' (stamp m r)) target
              (subst (λ (f : Flash). IsOnTrial 0 room f (stamp (write_target end.flash).0 r)) trial
                ended.1)),
        ap (λ (t : Reply). t.0.leds) ran,
        ap (λ (t : Reply). t.0.rebooted) ran ∙ up,
      )
