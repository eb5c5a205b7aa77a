-- ===== src/Ota/Recovery/Push/Go.antt =====
-- GO behind a whole update (the loop of firmware/bootloader/recovery.c).
use rp2040_eth_panel.Prelude.{
  ℕ, zero, suc, ◌+◌, ◌^◌, ◌≤◌, ◌<◌, ◌≡◌, refl, sym, ap, ◌∙◌, true, false, List, [], ◌++◌, length,
  subst, arith, inl, inr, Bool-cases,
}
use rp2040_eth_panel.Prelude.Text.{codes}
use rp2040_eth_panel.Crc32.{ota_crc32}
use rp2040_eth_panel.Ota.Layout.{app_offset, app_max_size, word_at}
use rp2040_eth_panel.Ota.Flash.{Flash, FlashDriver, bytes_at}
use rp2040_eth_panel.Ota.BootState.{write_target, stamp}
use rp2040_eth_panel.Ota.Boot.{sane_vectors}
use rp2040_eth_panel.Ota.Boot.Trial.{IsOnTrial}
use rp2040_eth_panel.Ota.Recovery.{Session, Reply, led_done, round, recovery_run, verified_record}
use rp2040_eth_panel.Ota.Reader.{Input}
use rp2040_eth_panel.Ota.Recovery.Erase.{erased_len}
use rp2040_eth_panel.Ota.Recovery.Push.{begin_frame, end_frame, image_of, IsChunked}
use rp2040_eth_panel.Ota.Recovery.Push.Fill.{after, recovery_run-suc}
use rp2040_eth_panel.Ota.Recovery.Push.Edges.{sync_frame, sync_answer, go_frame, round_go}
use rp2040_eth_panel.Ota.Recovery.Push.Retry.{Try, tries_input, chunks_of, answers, AreSpoiled}
use rp2040_eth_panel.Ota.Recovery.Push.Restart.{
  Cut, AreCut, cuts_input, cut_answers, cut_rounds, answers_joined, restarted_installs,
}

-- All that the host sends: the cut sessions, the whole one, and GO.
abbrev pub update_input : List Cut → List Try → Input → Input
update_input cs ts rest =
    let image = image_of (chunks_of ts) in
    cuts_input cs (
      sync_frame (
        begin_frame (length image) (ota_crc32 image)
          (tries_input 0 ts (end_frame (go_frame rest)))))

abbrev pub update_answers : List Cut → List Try → List ℕ
update_answers cs ts =
    (cut_answers cs ++ (sync_answer ++ (codes "OKER" ++ (answers 0 ts ++ codes "DONE"))))
    ++ codes "BYE!"

abbrev pub update_rounds : List Cut → List Try → ℕ
update_rounds cs ts = cut_rounds cs + (3 + length ts) + 1

module _ (driver : FlashDriver) where
  pub recovery_run_over :
      (n : ℕ) (s : Session) (inp : Input)
      → s.rebooted ≡ true
      → recovery_run driver n s inp ≡ (s, [], inp)
  unfolding recovery_run
  recovery_run_over zero s inp e = refl
  recovery_run_over (suc n) s inp e = rw e refl

  -- A run and then another one.
  pub recovery_run-more :
      (m n : ℕ) (s : Session) (inp : Input)
      → let (s', out, inp') = recovery_run driver m s inp in
        recovery_run driver (m + n) s inp ≡ after out (recovery_run driver n s' inp')
  recovery_run-more zero n s inp =
      let none_run : recovery_run driver 0 s inp ≡ (s, [], inp) = unfold recovery_run in refl in
      ap (λ (t : ℕ). recovery_run driver t s inp) (omega arith)
      ∙ ap (λ (r : Reply). after r.1 (recovery_run driver n r.0 r.2)) (sym none_run)
  recovery_run-more (suc m) n s inp = elim (Bool-cases s.rebooted) [
    | inl e ↦
        let over = recovery_run_over (suc m) s inp e in
        recovery_run_over (suc m + n) s inp e
        ∙ sym (ap (after []) (recovery_run_over n s inp e))
        ∙ ap (λ (r : Reply). after r.1 (recovery_run driver n r.0 r.2)) (sym over)
    | inr e ↦
        let (s1, out, inp1) = round driver s inp in
        let (s', more, inp') = recovery_run driver m s1 inp1 in
        let counted : suc m + n ≡ suc (m + n) = omega arith in
        ap (λ (t : ℕ). recovery_run driver t s inp) counted
        ∙ recovery_run-suc driver (m + n) s s1 inp inp1 out e refl
        ∙ ap (after out) (recovery_run-more m n s1 inp1)
        ∙ answers_joined out more (recovery_run driver n s' inp')
        ∙ ap (λ (r : Reply). after r.1 (recovery_run driver n r.0 r.2))
            (sym (recovery_run-suc driver m s s1 inp inp1 out e refl))
  ]

  -- The whole update with GO, as in `restarted_installs`: the loop ends with the reboot.
  pub go_installs :
      (s : Session) (cs : List Cut) (ts : List Try) (room : ℕ) (rest : Input)
      → let image = image_of (chunks_of ts) in
        s.rebooted ≡ false
        → AreCut cs
        → IsChunked (erased_len (length image)) 0 (chunks_of ts)
        → AreSpoiled ts
        → 0x108 ≤ length image
        → length image ≤ app_max_size
        → sane_vectors (word_at image 0x100) (word_at image 0x104) ≡ true
        → (write_target s.flash).0 + 1 + room < 2 ^ 32
        → let (s', out, inp') =
            recovery_run driver (update_rounds cs ts) s (update_input cs ts rest) in
          (out ≡ update_answers cs ts)
          × (inp' ≡ rest)
          × (bytes_at s'.flash app_offset (length image) ≡ image)
          × ((a : ℕ) → a < app_offset → s'.flash a ≡ s.flash a)
          × IsOnTrial 0 room s'.flash
              (stamp (write_target s.flash).0 (verified_record (length image) (ota_crc32 image)))
          × (s'.leds ≡ s.leds ++ led_done)
          × (s'.rebooted ≡ true)
  go_installs s cs ts room rest up cut chunked spoiled vectors fits sane numbers =
      let m = cut_rounds cs + (3 + length ts) in
      let image = image_of (chunks_of ts) in
      let r = verified_record (length image) (ota_crc32 image) in
      let done = recovery_run driver m s (update_input cs ts rest) in
      let (out, inp, slot, below, trial, lit, on) =
        restarted_installs driver s cs ts room (go_frame rest) up cut chunked spoiled vectors fits
          sane numbers in
      let end : Session = record done.0 { rebooted = true } in
      let last : recovery_run driver 1 done.0 done.2 ≡ (end, codes "BYE!" ++ [], rest) =
        ap (λ (i : Input). recovery_run driver 1 done.0 i) inp
        ∙ recovery_run-suc driver 0 done.0 end (go_frame rest) rest (codes "BYE!") on
            (round_go driver done.0 rest)
        ∙ ap (after (codes "BYE!")) (unfold recovery_run in refl) in
      let ran = recovery_run-more m 1 s (update_input cs ts rest) ∙ ap (after done.1) last in
      (
        ap (λ (t : Reply). t.1) ran ∙ ap (λ l. l ++ codes "BYE!") out,
        ap (λ (t : Reply). t.2) ran,
        ap (λ (t : Reply). bytes_at t.0.flash app_offset (length image)) ran ∙ slot,
        λ a p. ap (λ (t : Reply). t.0.flash a) ran ∙ below a p,
        subst (λ (f : Flash). IsOnTrial 0 room f (stamp (write_target s.flash).0 r))
            (sym (ap (λ (t : Reply). t.0.flash) ran)) trial,
        ap (λ (t : Reply). t.0.leds) ran ∙ lit,
        ap (λ (t : Reply). t.0.rebooted) ran,
      )
