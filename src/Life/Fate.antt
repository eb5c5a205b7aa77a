-- ===== src/Life/Fate.antt =====
-- What becomes of a freshly installed image over power cycles.
use rp2040_eth_panel.Prelude.{
  ℕ, zero, suc, ◌+◌, ◌≤◌, ◌<◌, ◌^◌, ◌≡◌, refl, ap, Bool, true, false, List, [], ◌∷◌, map, length,
  replicate, inl, inr, Bool-cases, if_both, if◌then◌else◌, u8, arith,
}
use rp2040_eth_panel.Config.{NetConfig}
use rp2040_eth_panel.Crc32.{ota_crc32}
use rp2040_eth_panel.Ota.Layout.{BootRecord, app_max_size, max_boot_attempts, word_at}
use rp2040_eth_panel.Ota.Flash.{Flash, FlashDriver}
use rp2040_eth_panel.Ota.BootState.{write_target, stamp}
use rp2040_eth_panel.Ota.Boot.{decide_boot_app, ota_confirm, sane_vectors}
use rp2040_eth_panel.Ota.Boot.Trial.{IsOnTrial}
use rp2040_eth_panel.Ota.Boot.Attempts.{IsRetired, retired_stays, trial_starts, trial_ends}
use rp2040_eth_panel.Ota.Boot.Confirm.{
  IsConfirmed, confirmed_starts, ota_confirm_twice, ota_confirm-IsConfirmed,
}
use rp2040_eth_panel.Ota.Recovery.{Session, recovery_run}
use rp2040_eth_panel.Ota.Reader.{Input}
use rp2040_eth_panel.Ota.Recovery.Erase.{erased_len}
use rp2040_eth_panel.Ota.Recovery.Push.{begin_frame, end_frame, image_of, IsChunked}
use rp2040_eth_panel.Ota.Recovery.Push.Retry.{Try, tries_input, chunks_of, AreSpoiled}
use rp2040_eth_panel.Ota.Recovery.Push.Retried.{retried_installs}
use rp2040_eth_panel.App.Start.{start_up}
use rp2040_eth_panel.Life.{PowerUp, responds, power_up, power_ups}

length-map : (g : PowerUp → Bool) (us : List PowerUp) → length (map g us) ≡ length us
length-map g [] = refl
length-map g (u ∷ us) = ap suc (length-map g us)

-- Which of the next power cycles start the image, with `left` attempts left, by whether the bridge
-- answers in each: every one behind the first in which it answers, and else only `left` of them.
abbrev pub fate : ℕ → List Bool → List Bool
fate left [] = []
fate zero (a ∷ answers) = false ∷ fate zero answers
fate (suc left) (true ∷ answers) = true ∷ replicate (length answers) true
fate (suc left) (false ∷ answers) = true ∷ fate left answers

module _ (driver : FlashDriver) (config : NetConfig) where
  -- A power cycle whose decision is known.
  power_up-started :
      (u : PowerUp) (f f' : Flash)
      → decide_boot_app driver 0 f ≡ (true, f')
      → power_up driver config u f
        ≡ (true, (if responds driver config u then ota_confirm driver f' else f'))
  unfolding power_up start_up
  power_up-started u f f' e = rw e refl

  power_up-refused :
      (u : PowerUp) (f f' : Flash)
      → decide_boot_app driver 0 f ≡ (false, f')
      → power_up driver config u f ≡ (false, f')
  unfolding power_up
  power_up-refused u f f' e = rw e refl

  power_ups-retired :
      (us : List PowerUp) (f : Flash)
      → IsRetired driver f
      → (power_ups driver config us f).0 ≡ fate 0 (map (responds driver config) us)
  unfolding power_ups
  power_ups-retired [] f r = refl
  power_ups-retired (u ∷ us) f r =
      rw (power_up-refused u f f (retired_stays driver 0 f (omega arith) r))
        (ap (λ l. false ∷ l) (power_ups-retired us f r))

  power_ups-confirmed :
      (us : List PowerUp) (f : Flash) (st : BootRecord)
      → IsConfirmed f st
      → (power_ups driver config us f).0 ≡ replicate (length us) true
  unfolding power_ups
  power_ups-confirmed [] f st c = refl
  power_ups-confirmed (u ∷ us) f st c =
      let kept =
        if_both (λ (g : Flash). g ≡ f) (responds driver config u) (ota_confirm_twice driver f st c)
          refl in
      rw (power_up-started u f f (confirmed_starts driver f st c), kept)
        (ap (λ l. true ∷ l) (power_ups-confirmed us f st c))

  -- An image on trial, with as many sequence numbers as the attempts need.
  pub power_ups-fate :
      (us : List PowerUp) (left k : ℕ) (f : Flash) (st : BootRecord)
      → k + left ≡ max_boot_attempts
      → IsOnTrial k (suc left) f st
      → (power_ups driver config us f).0 ≡ fate left (map (responds driver config) us)
  unfolding power_ups
  power_ups-fate [] left k f st e t = refl
  power_ups-fate (u ∷ us) zero k f st e t =
      let (refused, retired) = trial_ends driver k zero f st (omega arith) t in
      let f' = (decide_boot_app driver 0 f).1 in
      rw (power_up-refused u f f' (ap (λ (b : Bool). (b, f')) refused))
        (ap (λ l. false ∷ l) (power_ups-retired us f' retired))
  power_ups-fate (u ∷ us) (suc left) k f st e t =
      let (starts, trial) = trial_starts driver k (suc left) f st (omega arith) t in
      let f' = (decide_boot_app driver 0 f).1 in
      let st' = stamp st.seq (record st { boot_attempts = u8 (st.boot_attempts + 1) }) in
      let run = power_up-started u f f' (ap (λ (b : Bool). (b, f')) starts) in
      elim (Bool-cases (responds driver config u)) [
        | inl yes_acked ↦
            let confirmed = ota_confirm-IsConfirmed driver (suc k) left f' st' trial in
            let all = power_ups-confirmed us (ota_confirm driver f') _ confirmed in
            rw (run, yes_acked, length-map (responds driver config) us) (ap (λ l. true ∷ l) all)
        | inr not_acked ↦
            let rest = power_ups-fate us left (suc k) f' st' (omega arith) trial in
            rw (run, not_acked) (ap (λ l. true ∷ l) rest)
      ]

  -- An update and what follows it. The receiver, in any state but a reboot, is sent BEGIN, the
  -- chunks of an image in order, and END. Chunks that fit the slot may be damaged on the way, so
  -- that the checksum differs, or break off in a silence, any number of times. The image fits the
  -- slot in chunks of 1 to 1024 bytes on pages, has at least 264 bytes and a vector table that the
  -- bootloader accepts, and five sequence numbers are left. Then the power is cycled any number of
  -- times: the image is started three times at most while the bridge does not answer the
  -- application, and after that only recovery is left; but from the first start in which the bridge
  -- answers, every power cycle starts the image.
  pub update_fate :
      (s : Session) (ts : List Try) (rest : Input) (us : List PowerUp)
      → let image = image_of (chunks_of ts) in
        s.rebooted ≡ false
        → IsChunked (erased_len (length image)) 0 (chunks_of ts)
        → AreSpoiled ts
        → 0x108 ≤ length image
        → length image ≤ app_max_size
        → sane_vectors (word_at image 0x100) (word_at image 0x104) ≡ true
        → (write_target s.flash).0 + 5 < 2 ^ 32
        → let (s', out, inp') =
            recovery_run driver
              (2 + length ts)
              s
              (begin_frame (length image) (ota_crc32 image) (tries_input 0 ts (end_frame rest))) in
          (power_ups driver config us s'.flash).0 ≡ fate 3 (map (responds driver config) us)
  update_fate s ts rest us up chunked spoiled vectors fits sane numbers =
      let installed =
        retried_installs driver s ts 4 rest up chunked spoiled vectors fits sane (omega arith) in
      power_ups-fate us 3 0 _ _ refl installed.4
