-- ===== src/Ota/Recovery/Push/Restart.antt =====
-- An update behind sessions that were cut: the host gives up and begins again (the loop of
-- firmware/bootloader/recovery.c and tools/ota_flash.py).
use rp2040_eth_panel.Prelude.{
  ℕ, suc, ◌+◌, ◌^◌, ◌≤◌, ◌<◌, ◌≡◌, ◌⊎◌, inl, inr, refl, sym, ap, ◌∙◌, List, [], ◌∷◌, ◌++◌,
  append_assoc, length, false, true, subst, arith,
}
use rp2040_eth_panel.Prelude.Text.{codes}
use rp2040_eth_panel.Crc32.{ota_crc32}
use rp2040_eth_panel.Ota.Layout.{app_offset, app_max_size, bootstate_a_offset, word_at}
use rp2040_eth_panel.Ota.Flash.{Flash, FlashDriver, bytes_at}
use rp2040_eth_panel.Ota.BootState.{write_target, stamp}
use rp2040_eth_panel.Ota.BootState.Write.{write_target_congr}
use rp2040_eth_panel.Ota.Boot.{sane_vectors}
use rp2040_eth_panel.Ota.Boot.Trial.{IsOnTrial}
use rp2040_eth_panel.Ota.Recovery.{
  Session, Reply, led_done, erase_slot, recovery_run, verified_record,
}
use rp2040_eth_panel.Ota.Reader.{Input}
use rp2040_eth_panel.Ota.Recovery.Erase.{erased_len, erase_slot-outside}
use rp2040_eth_panel.Ota.Recovery.Push.{begin_frame, end_frame, image_of, IsChunked, round_begin}
use rp2040_eth_panel.Ota.Recovery.Push.Fill.{
  after, recovery_run-suc, programmed, programmed-elsewhere,
}
use rp2040_eth_panel.Ota.Recovery.Push.Edges.{sync_frame, sync_answer, round_sync}
use rp2040_eth_panel.Ota.Recovery.Push.Retry.{
  Try, tries_input, chunks_of, answers, AreSpoiled, one_try, recovery_run-tries,
}
use rp2040_eth_panel.Ota.Recovery.Push.Retried.{retried_installs}

-- A session without its END: SYNC, the fields of BEGIN, and what was sent of the image.
pub record Cut : Type 0 where
  pub len : ℕ
  pub crc : ℕ
  pub tries : List Try

abbrev pub IsCut : Cut → Type 0
IsCut c =
    (0 < c.len)
    × (c.len ≤ app_max_size)
    × (c.crc < 2 ^ 32)
    × IsChunked (erased_len c.len) 0 (chunks_of c.tries)
    × AreSpoiled c.tries

abbrev pub AreCut : List Cut → Type 0
AreCut [] = Unit
AreCut (c ∷ cs) = IsCut c × AreCut cs

abbrev pub cuts_input : List Cut → Input → Input
cuts_input [] rest = rest
cuts_input (c ∷ cs) rest =
    sync_frame (begin_frame c.len c.crc (tries_input 0 c.tries (cuts_input cs rest)))

abbrev pub cut_answers : List Cut → List ℕ
cut_answers [] = []
cut_answers (c ∷ cs) = sync_answer ++ (codes "OKER" ++ (answers 0 c.tries ++ cut_answers cs))

-- One round for SYNC, one for BEGIN and one for every try.
abbrev pub cut_rounds : List Cut → ℕ
cut_rounds [] = 0
cut_rounds (c ∷ cs) = 2 + (length c.tries + cut_rounds cs)

-- The boot state and the bootloader lie outside the slot.
abbrev IsOutside : ℕ → Type 0
IsOutside a = (a < app_offset) ⊎ (bootstate_a_offset ≤ a)

pub answers_joined : (xs ys : List ℕ) (end : Reply) → after xs (after ys end) ≡ after (xs ++ ys) end
answers_joined xs ys end = ap (λ l. (end.0, l, end.2)) (sym (append_assoc xs ys end.1))

module _ (driver : FlashDriver) where
  abbrev begun : Cut → Session → Session
  begun c s = record s { app_len = c.len; app_crc = c.crc; flash = erase_slot driver c.len s.flash }

  abbrev cut_off : Cut → Session → Session
  cut_off c s =
      let b = begun c s in record b { flash = programmed driver 0 (chunks_of c.tries) b.flash }

  abbrev cut_offs : List Cut → Session → Session
  cut_offs [] s = s
  cut_offs (c ∷ cs) s = cut_offs cs (cut_off c s)

  cut_offs-up :
      (cs : List Cut) (s : Session) → s.rebooted ≡ false → (cut_offs cs s).rebooted ≡ false
  cut_offs-up [] s up = up
  cut_offs-up (c ∷ cs) s up = cut_offs-up cs (cut_off c s) up

  -- Nothing is shown meanwhile.
  cut_offs-dark : (cs : List Cut) (s : Session) → (cut_offs cs s).leds ≡ s.leds
  cut_offs-dark [] s = refl
  cut_offs-dark (c ∷ cs) s = cut_offs-dark cs (cut_off c s)

  cut_off-outside :
      (c : Cut) (s : Session) (a : ℕ) → IsCut c → IsOutside a → (cut_off c s).flash a ≡ s.flash a
  cut_off-outside c s a (some_bytes, fits, crc, chunked, spoiled) h =
      programmed-elsewhere driver 0 (erased_len c.len) (chunks_of c.tries) (begun c s).flash a
        chunked h
      ∙ erase_slot-outside driver c.len s.flash fits a (beside h)
    where
      beside : IsOutside a → (a < app_offset) ⊎ (app_offset + erased_len c.len ≤ a)
      beside (inl p) = inl p
      beside (inr p) = inr (omega arith)

  cut_offs-outside :
      (cs : List Cut) (s : Session) (a : ℕ)
      → AreCut cs
      → IsOutside a
      → (cut_offs cs s).flash a ≡ s.flash a
  cut_offs-outside [] s a cut h = refl
  cut_offs-outside (c ∷ cs) s a (this, cut) h =
      cut_offs-outside cs (cut_off c s) a cut h ∙ cut_off-outside c s a this h

  -- SYNC in front.
  recovery_run-synced :
      (n : ℕ) (s : Session) (inp : Input)
      → s.rebooted ≡ false
      → recovery_run driver (suc n) s (sync_frame inp)
        ≡ after sync_answer (recovery_run driver n s inp)
  recovery_run-synced n s inp up =
      recovery_run-suc driver n s s (sync_frame inp) inp sync_answer up (round_sync driver s inp)

  -- The loop answers the cut sessions and goes on with what follows.
  recovery_run-cuts :
      (n : ℕ) (cs : List Cut) (s : Session) (rest : Input)
      → s.rebooted ≡ false
      → AreCut cs
      → recovery_run driver (cut_rounds cs + n) s (cuts_input cs rest)
        ≡ after (cut_answers cs) (recovery_run driver n (cut_offs cs s) rest)
  recovery_run-cuts n [] s rest up cut = ap (λ (t : ℕ). recovery_run driver t s rest) (omega arith)
  recovery_run-cuts n (c ∷ cs) s rest up ((some_bytes, fits, crc, chunked, spoiled), cut) =
      let next = cuts_input cs rest in
      let tail = tries_input 0 c.tries next in
      let end = recovery_run driver n (cut_offs cs (cut_off c s)) rest in
      let m = length c.tries + (cut_rounds cs + n) in
      let counted : cut_rounds (c ∷ cs) + n ≡ suc (suc m) = omega arith in
      let said = answers 0 c.tries ++ cut_answers cs in
      ap (λ (t : ℕ). recovery_run driver t s (cuts_input (c ∷ cs) rest)) counted
      ∙ recovery_run-synced (suc m) s (begin_frame c.len c.crc tail) up
      ∙ ap (after sync_answer) (
          one_try driver m (suc m) s (begun c s) (begin_frame c.len c.crc tail) tail (codes "OKER")
            said end up refl
            (round_begin driver s c.len c.crc tail (omega arith) crc some_bytes fits)
            (recovery_run-tries driver (cut_rounds cs + n) (begun c s) 0 (erased_len c.len) c.tries
                next up chunked spoiled
              ∙ ap (after (answers 0 c.tries)) (recovery_run-cuts n cs (cut_off c s) rest up cut)
              ∙ answers_joined (answers 0 c.tries) (cut_answers cs) end))
      ∙ answers_joined sync_answer (codes "OKER" ++ said) end

  -- A whole update behind sessions that were cut: the receiver, in any state but a reboot, is sent
  -- any number of beginnings of an update, each SYNC, a BEGIN of any image that fits the slot and
  -- then some of its chunks, and no END; and at last a whole update: SYNC, BEGIN with the length
  -- and the checksum of an image, its chunks in order, every one on a page and of 1 to 1024 bytes,
  -- and END.
  -- Behind every BEGIN a DATA frame may be damaged or break off in a silence before its last byte,
  -- any number of times, where its fields are those of a chunk that fits the slot and the checksum
  -- of damaged bytes differs from the one in the frame. Then every whole frame is acknowledged,
  -- every other is refused with its offset, the slot holds the last image, the bootloader is as
  -- before, the status LED turns green once and shows nothing else, the loop goes on, and the image
  -- is on trial: it is the newest boot record, valid, not confirmed and not yet started, and its
  -- sequence number is the next one. The image has to fit the slot, to have at least 264 bytes and
  -- a vector table that the bootloader accepts, and sequence numbers have to be left.
  pub restarted_installs :
      (s : Session) (cs : List Cut) (ts : List Try) (room : ℕ) (rest : Input)
      → let image = image_of (chunks_of ts) in
        s.rebooted ≡ false
        → AreCut cs
        → IsChunked (erased_len (length image)) 0 (chunks_of ts)
        → AreSpoiled ts
        → 0x108 ≤ length image
        → length image ≤ app_max_size
        → sane_vectors (word_at image 0x100) (word_at image 0x104) ≡ true
        → (write_target s.flash).0 + 1 + room < 2 ^ 32
        → let (s', out, inp') = recovery_run driver (cut_rounds cs + (3 + length ts)) s (
            cuts_input cs (
              sync_frame (
                begin_frame
                  (length image)
                  (ota_crc32 image)
                  (tries_input 0 ts (end_frame rest))))) in
          (out
            ≡ cut_answers cs ++ (sync_answer ++ (codes "OKER" ++ (answers 0 ts ++ codes "DONE"))))
          × (inp' ≡ rest)
          × (bytes_at s'.flash app_offset (length image) ≡ image)
          × ((a : ℕ) → a < app_offset → s'.flash a ≡ s.flash a)
          × IsOnTrial 0 room s'.flash
              (stamp (write_target s.flash).0 (verified_record (length image) (ota_crc32 image)))
          × (s'.leds ≡ s.leds ++ led_done)
          × (s'.rebooted ≡ false)
  restarted_installs s cs ts room rest up cut chunked spoiled vectors fits sane numbers =
      let image = image_of (chunks_of ts) in
      let len = length image in
      let r = verified_record len (ota_crc32 image) in
      let s1 = cut_offs cs s in
      let last = begin_frame len (ota_crc32 image) (tries_input 0 ts (end_frame rest)) in
      let end = recovery_run driver (2 + length ts) s1 last in
      let back = cut_offs-up cs s up in
      let counted : 3 + length ts ≡ suc (2 + length ts) = omega arith in
      let ran =
        recovery_run-cuts (3 + length ts) cs s (sync_frame last) up cut
        ∙ ap (after (cut_answers cs)) (
            ap (λ (t : ℕ). recovery_run driver t s1 (sync_frame last)) counted
            ∙ recovery_run-synced (2 + length ts) s1 last back) in
      let target : (write_target s1.flash).0 ≡ (write_target s.flash).0 =
        ap (λ (t : ℕ × ℕ). t.0)
          (write_target_congr s1.flash s.flash (λ a p. cut_offs-outside cs s a cut (inr p))) in
      let (out, inp, slot, below, trial, lit, on) =
        retried_installs driver s1 ts room rest back chunked spoiled vectors fits sane
          (omega (arith, target)) in
      (
        ap (λ (t : Reply). t.1) ran ∙ ap (λ l. cut_answers cs ++ (sync_answer ++ l)) out,
        ap (λ (t : Reply). t.2) ran ∙ inp,
        ap (λ (t : Reply). bytes_at t.0.flash app_offset len) ran ∙ slot,
        λ a p.
            ap (λ (t : Reply). t.0.flash a) ran ∙ below a p ∙ cut_offs-outside cs s a cut (inl p),
        subst (λ (f : Flash). IsOnTrial 0 room f (stamp (write_target s.flash).0 r))
            (sym (ap (λ (t : Reply). t.0.flash) ran))
            (subst (λ (m : ℕ). IsOnTrial 0 room end.0.flash (stamp m r)) target trial),
        ap (λ (t : Reply). t.0.leds) ran ∙ lit ∙ ap (λ l. l ++ led_done) (cut_offs-dark cs s),
        ap (λ (t : Reply). t.0.rebooted) ran ∙ on,
      )
