-- ===== src/Ota/Boot/Attempts.antt =====
-- A freshly flashed image on trial: how often the bootloader (firmware/bootloader/main.c) starts it
-- while the application never confirms it, and what a confirmation changes
-- (firmware/src/ota/ota_app.c).
use rp2040_eth_panel.Prelude.{
  ℕ, zero, suc, ◌+◌, ◌≤◌, ◌<◌, ◌≡◌, ◌≢◌, refl, ap, ap₂, ◌∙◌, Bool, true, false, List, [], ◌∷◌, some,
  replicate, arith, u8,
}
use rp2040_eth_panel.Ota.Layout.{BootRecord, enter_update_magic, max_boot_attempts}
use rp2040_eth_panel.Ota.Flash.{Flash, FlashDriver}
use rp2040_eth_panel.Ota.BootState.{boot_state_read, boot_state_write, stamp}
use rp2040_eth_panel.Ota.Boot.{count_attempt, decide_record, decide_boot_app, power_cycles}
use rp2040_eth_panel.Ota.Boot.Decide.{decide_boot_app-record}
use rp2040_eth_panel.Ota.Boot.Trial.{IsOnTrial, rewrite_record}

-- The starts of the next `n` power cycles with `left` attempts left: as many as there are, and none
-- after them.
unfoldable pub starts : ℕ → ℕ → List Bool
starts zero left = []
starts (suc n) zero = false ∷ starts n zero
starts (suc n) (suc left) = true ∷ starts n left

replicate-eq-starts : (n : ℕ) → replicate n false ≡ starts n zero
unfolding starts
replicate-eq-starts zero = refl
replicate-eq-starts (suc n) = ap (λ l. false ∷ l) (replicate-eq-starts n)

module _ (driver : FlashDriver) where
  -- One more start.
  pub trial_starts :
      (k room : ℕ) (f : Flash) (st : BootRecord)
      → k < max_boot_attempts
      → IsOnTrial k (suc room) f st
      → let (started, f') = decide_boot_app driver 0 f in
        (started ≡ true)
        × IsOnTrial
            (suc k)
            room
            f'
            (stamp st.seq (record st { boot_attempts = u8 (st.boot_attempts + 1) }))
  trial_starts k room f st h t =
      let r = record st { boot_attempts = u8 (st.boot_attempts + 1) } in
      let w =
        rewrite_record driver f st r t.found
          (record {
            magic_fits = t.fits.magic_fits;
            seq_fits = t.fits.seq_fits;
            len_fits = t.fits.len_fits;
            app_crc_fits = t.fits.app_crc_fits;
            valid_fits = t.fits.valid_fits;
            confirmed_fits = t.fits.confirmed_fits;
            attempts_fits = omega arith;
            pad_fits = t.fits.pad_fits;
            crc_fits = t.fits.crc_fits;
          })
          refl refl (omega (arith, t.numbers)) t.image in
      let run : decide_record driver f st ≡ (true, (boot_state_write driver f r).0) =
        unfold decide_record count_attempt in
        ground (arith, t.valid, t.unconfirmed, t.attempts, t.image.sane, t.image.intact) in
      rw (decide_boot_app-record driver 0 f st (omega arith) t.found, run)
        (
          refl,
          record {
            found = w.found;
            fits = w.fits;
            valid = unfold stamp in t.valid;
            unconfirmed = unfold stamp in t.unconfirmed;
            attempts = unfold stamp in omega (arith, t.attempts);
            image = w.image;
            numbers = omega (arith, w.number, t.numbers);
          },
        )

  -- Marked invalid: only recovery is left.
  abbrev pub IsRetired : Flash → Type 0
  IsRetired f = (st : BootRecord) × (boot_state_read f ≡ some st) × (st.app_valid ≡ 0)

  pub retired_stays :
      (scratch : ℕ) (f : Flash)
      → scratch ≢ enter_update_magic
      → IsRetired f
      → decide_boot_app driver scratch f ≡ (false, f)
  retired_stays scratch f h (st, e, z) =
      decide_boot_app-record driver scratch f st h e ∙ (unfold decide_record in rw z)

  pub trial_ends :
      (k room : ℕ) (f : Flash) (st : BootRecord)
      → max_boot_attempts ≤ k
      → IsOnTrial k (suc room) f st
      → let (started, f') = decide_boot_app driver 0 f in (started ≡ false) × IsRetired f'
  trial_ends k room f st h t =
      let r = record st { app_valid = 0 } in
      let w =
        rewrite_record driver f st r t.found
          (record {
            magic_fits = t.fits.magic_fits;
            seq_fits = t.fits.seq_fits;
            len_fits = t.fits.len_fits;
            app_crc_fits = t.fits.app_crc_fits;
            valid_fits = omega arith;
            confirmed_fits = t.fits.confirmed_fits;
            attempts_fits = t.fits.attempts_fits;
            pad_fits = t.fits.pad_fits;
            crc_fits = t.fits.crc_fits;
          })
          refl refl (omega (arith, t.numbers)) t.image in
      let run : decide_record driver f st ≡ (false, (boot_state_write driver f r).0) =
        unfold decide_record count_attempt in
        ground (arith, t.valid, t.unconfirmed, t.attempts, t.image.sane, t.image.intact) in
      rw (decide_boot_app-record driver 0 f st (omega arith) t.found, run)
        (refl, (stamp st.seq r, w.found, unfold stamp in refl))

  retired_cycles :
      (n : ℕ) (f : Flash) → IsRetired f → (power_cycles driver n f).0 ≡ replicate n false
  unfolding power_cycles
  retired_cycles zero f r = refl
  retired_cycles (suc n) f r =
      rw (retired_stays 0 f (omega arith) r) (ap (λ l. false ∷ l) (retired_cycles n f r))

  -- An image that the application never confirms is started as often as attempts are left, and
  -- from then on every power cycle ends in recovery. The sequence numbers must last for that.
  pub power_cycles_trial :
      (n left k : ℕ) (f : Flash) (st : BootRecord)
      → k + left ≡ max_boot_attempts
      → IsOnTrial k (suc left) f st
      → (power_cycles driver n f).0 ≡ starts n left
  unfolding power_cycles starts
  power_cycles_trial zero left k f st e t = refl
  power_cycles_trial (suc n) zero k f st e t =
      let d = trial_ends k zero f st (omega arith) t in
      ap₂ ◌∷◌ d.0 (retired_cycles n (decide_boot_app driver 0 f).1 d.1 ∙ replicate-eq-starts n)
  power_cycles_trial (suc n) (suc left) k f st e t =
      let d = trial_starts k (suc left) f st (omega arith) t in
      ap₂ ◌∷◌ d.0 (
        power_cycles_trial n left (suc k) (decide_boot_app driver 0 f).1
          (stamp st.seq (record st { boot_attempts = u8 (st.boot_attempts + 1) })) (omega arith)
          d.1)
