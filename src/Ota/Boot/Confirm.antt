-- ===== src/Ota/Boot/Confirm.antt =====
-- What the confirmation of the application changes (`ota_confirm` of firmware/src/ota/ota_app.c)
-- for the bootloader.
use rp2040_eth_panel.Prelude.{ℕ, zero, suc, ◌≡◌, ◌≢◌, refl, ◌∙◌, true, some, replicate, arith}
use rp2040_eth_panel.Ota.Layout.{BootRecord}
use rp2040_eth_panel.Ota.Flash.{Flash, FlashDriver}
use rp2040_eth_panel.Ota.BootState.{boot_state_read, boot_state_write, stamp}
use rp2040_eth_panel.Ota.Boot.{decide_boot_app, decide_record, ota_confirm, power_cycles}
use rp2040_eth_panel.Ota.Boot.Decide.{decide_boot_app-record}
use rp2040_eth_panel.Ota.Boot.Trial.{HoldsImage, IsOnTrial, rewrite_record}

-- The newest record is valid and confirmed, and the slot holds its image.
pub record IsConfirmed (f : Flash) (st : BootRecord) : Type 0 where
  pub found : boot_state_read f ≡ some st
  pub valid : st.app_valid ≢ 0
  pub confirmed : st.app_confirmed ≢ 0
  pub image : HoldsImage f st

module _ (driver : FlashDriver) where
  pub confirmed_starts :
      (f : Flash) (st : BootRecord) → IsConfirmed f st → decide_boot_app driver 0 f ≡ (true, f)
  confirmed_starts f st c =
      decide_boot_app-record driver 0 f st (omega arith) c.found
      ∙ (unfold decide_record in ground (arith, c.valid, c.confirmed, c.image.sane, c.image.intact))

  -- A second confirmation writes nothing.
  pub ota_confirm_twice :
      (f : Flash) (st : BootRecord) → IsConfirmed f st → ota_confirm driver f ≡ f
  unfolding ota_confirm
  ota_confirm_twice f st c = ground (arith, c.found, c.valid, c.confirmed)

  confirmed_cycles :
      (n : ℕ) (f : Flash) (st : BootRecord)
      → IsConfirmed f st
      → power_cycles driver n f ≡ (replicate n true, f)
  unfolding power_cycles
  confirmed_cycles zero f st c = refl
  confirmed_cycles (suc n) f st c = rw (confirmed_starts f st c, confirmed_cycles n f st c) refl

  pub ota_confirm-IsConfirmed :
      (k room : ℕ) (f : Flash) (st : BootRecord)
      → IsOnTrial k (suc room) f st
      → IsConfirmed
          (ota_confirm driver f)
          (stamp st.seq (record st { app_confirmed = 1; boot_attempts = 0 }))
  ota_confirm-IsConfirmed k room f st t =
      let r = record st { app_confirmed = 1; boot_attempts = 0 } in
      let w =
        rewrite_record driver f st r t.found
          (record {
            magic_fits = t.fits.magic_fits;
            seq_fits = t.fits.seq_fits;
            len_fits = t.fits.len_fits;
            app_crc_fits = t.fits.app_crc_fits;
            valid_fits = t.fits.valid_fits;
            confirmed_fits = omega arith;
            attempts_fits = omega arith;
            pad_fits = t.fits.pad_fits;
            crc_fits = t.fits.crc_fits;
          })
          refl refl (omega (arith, t.numbers)) t.image in
      let run : ota_confirm driver f ≡ (boot_state_write driver f r).0 =
        unfold ota_confirm in ground (arith, t.found, t.valid, t.unconfirmed) in
      rw run (record {
        found = w.found;
        valid = unfold stamp in t.valid;
        confirmed = unfold stamp in omega arith;
        image = w.image;
      })

  -- Once the application on trial has confirmed, every power cycle starts it, and no start writes
  -- to the flash any more.
  pub ota_confirm_cycles :
      (n k room : ℕ) (f : Flash) (st : BootRecord)
      → IsOnTrial k (suc room) f st
      → power_cycles driver n (ota_confirm driver f) ≡ (replicate n true, ota_confirm driver f)
  ota_confirm_cycles n k room f st t =
      confirmed_cycles n (ota_confirm driver f) _ (ota_confirm-IsConfirmed k room f st t)
