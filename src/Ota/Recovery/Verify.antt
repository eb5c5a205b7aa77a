-- ===== src/Ota/Recovery/Verify.antt =====
-- END of firmware/bootloader/recovery.c: the whole image is checked, and its record written.
use rp2040_eth_panel.Prelude.{
  ℕ, ◌+◌, ◌-◌, ◌^◌, ◌≤◌, ◌<◌, ◌≡◌, ◌≢◌, [], ◌++◌, inl, inr, refl, true, some, ◌==◌, ==_iff,
  Bool-cases, arith,
}
use rp2040_eth_panel.Prelude.Text.{codes}
use rp2040_eth_panel.Crc32.{ota_crc32}
use rp2040_eth_panel.Ota.Layout.{BootRecord, IsRecord, app_offset, app_max_size, app_vtable_addr}
use rp2040_eth_panel.Ota.Flash.{Flash, FlashDriver, bytes_at}
use rp2040_eth_panel.Ota.BootState.{boot_state_read, boot_state_write, write_target, stamp}
use rp2040_eth_panel.Ota.BootState.Write.{
  boot_state_read-write, boot_state_write-outside, stamp-seq,
}
use rp2040_eth_panel.Ota.BootState.Sector.{stamp-IsRecord}
use rp2040_eth_panel.Ota.Boot.{app_vectortable_sane, image_matches}
use rp2040_eth_panel.Ota.Boot.Trial.{HoldsImage, IsOnTrial, HoldsImage_congr}
use rp2040_eth_panel.Ota.Recovery.{
  Session, recovery_start, led_done, led_error, handle_end, verified_record,
}
use rp2040_eth_panel.Ota.Reader.{Input}

verified-IsRecord : (len crc : ℕ) → len < 2 ^ 32 → crc < 2 ^ 32 → IsRecord (verified_record len crc)
verified-IsRecord len crc p q = omega arith

module _ (driver : FlashDriver) where
  pub handle_end-passes :
      (s : Session) (inp : Input)
      → ota_crc32 (bytes_at s.flash app_offset s.app_len) ≡ s.app_crc
      → handle_end driver s inp ≡ (
        record s {
          flash = (boot_state_write driver s.flash (verified_record s.app_len s.app_crc)).0;
          leds = s.leds ++ led_done;
        },
        codes "DONE",
        inp,
      )
  unfolding handle_end
  handle_end-passes s inp e = rw ((==_iff _ _).1 e)

  -- END with a checksum that fits is answered DONE and puts the image on trial: the newest boot
  -- record is valid, not confirmed, with no start counted yet. It wants the image to fit the slot,
  -- a vector table that the bootloader accepts, and sequence numbers left.
  pub handle_end_trial :
      (s : Session) (room : ℕ) (inp : Input)
      → s.app_len ≤ app_max_size
      → s.app_crc < 2 ^ 32
      → (write_target s.flash).0 + 1 + room < 2 ^ 32
      → app_vectortable_sane s.flash app_vtable_addr ≡ true
      → ota_crc32 (bytes_at s.flash app_offset s.app_len) ≡ s.app_crc
      → let (s', out, inp') = handle_end driver s inp in
        (out ≡ codes "DONE")
        × IsOnTrial 0 room s'.flash
            (stamp (write_target s.flash).0 (verified_record s.app_len s.app_crc))
  handle_end_trial s room inp fits crc numbers sane e =
      let m = (write_target s.flash).0 in
      let r = verified_record s.app_len s.app_crc in
      let f' = (boot_state_write driver s.flash r).0 in
      let h = verified-IsRecord s.app_len s.app_crc (omega arith) crc in
      let held : HoldsImage s.flash r = record {
        fits_slot = fits;
        sane = sane;
        intact = unfold image_matches in (==_iff _ _).1 e;
      } in
      rw (handle_end-passes s inp e) (
        refl,
        record {
          found = unfold boot_state_write in boot_state_read-write driver s.flash r h (omega arith);
          fits = stamp-IsRecord m r h;
          valid = unfold stamp in omega arith;
          unconfirmed = unfold stamp in refl;
          attempts = unfold stamp in refl;
          image =
              HoldsImage_congr s.flash f' r (stamp m r)
                (λ a p. boot_state_write-outside driver s.flash r a p) (unfold stamp in refl)
                (unfold stamp in refl) held;
          numbers = omega (arith, stamp-seq m r (omega arith));
        },
      )

  -- END with a checksum that does not fit is answered ECRC and changes nothing but
  -- the colour of the LED.
  pub handle_end_refuses :
      (s : Session) (inp : Input)
      → ota_crc32 (bytes_at s.flash app_offset s.app_len) ≢ s.app_crc
      → handle_end driver s inp ≡ (record s { leds = s.leds ++ led_error }, codes "ECRC", inp)
  unfolding handle_end
  handle_end_refuses s inp h =
      elim (Bool-cases (ota_crc32 (bytes_at s.flash app_offset s.app_len) == s.app_crc)) [
        | inl e ↦ absurd (h ((==_iff _ _).0 e))
        | inr e ↦ rw e
      ]

  -- END with no BEGIN before it, when the loop has just started, is answered DONE on every flash
  -- with sequence numbers left, and marks what is in the slot as a valid image of length 0.
  pub handle_end_fresh :
      (f : Flash) (inp : Input)
      → (write_target f).0 < 2 ^ 32 - 1
      → let (s', out, inp') = handle_end driver (recovery_start [] f).1 inp in
        (out ≡ codes "DONE")
        × ((st : BootRecord) × (boot_state_read s'.flash ≡ some st)
            × (st.app_valid ≡ 1)
            × (st.app_len ≡ 0)
            × (image_matches s'.flash st ≡ true))
  unfolding image_matches stamp
  handle_end_fresh f inp room =
      let s : Session = (recovery_start [] f).1 in
      let r = verified_record 0 0 in
      let h = verified-IsRecord 0 0 (omega arith) (omega arith) in
      let empty : ota_crc32 (bytes_at f app_offset 0) ≡ 0 = unfold bytes_at ota_crc32 in refl in
      rw (handle_end-passes s inp empty) (
        refl,
        (
          stamp (write_target f).0 r,
          unfold boot_state_write in boot_state_read-write driver f r h room,
          refl,
          refl,
          unfold bytes_at ota_crc32 in refl,
        ),
      )
