-- ===== src/Ota/Recovery/Push/Fill.antt =====
-- The rounds of a whole update, chunk by chunk (firmware/bootloader/recovery.c).
use rp2040_eth_panel.Prelude.{
  ℕ, suc, ◌+◌, ◌-◌, ◌%◌, ◌≤◌, ◌<◌, ◌≡◌, ◌⊎◌, refl, sym, ap, ◌∙◌, List, [], ◌∷◌, ◌++◌, append_assoc,
  append-nil, length, length-append, false, All-append, arith,
}
use rp2040_eth_panel.Crc32.Bytes.{IsBytes, ota_crc32-lt}
use rp2040_eth_panel.Ota.Layout.{
  app_xip_addr, xip_base_addr, app_offset, bootstate_a_offset, word_at,
}
use rp2040_eth_panel.Ota.Flash.{Flash, FlashDriver, bytes_at, bytes_at-get_or}
use rp2040_eth_panel.Ota.Boot.{word_in}
use rp2040_eth_panel.Ota.Recovery.{Session, Reply, program_chunk, round, recovery_run, ack}
use rp2040_eth_panel.Ota.Reader.{Input}
use rp2040_eth_panel.Ota.Recovery.Program.{
  IsBlank, program_chunk-appends, program_chunk-IsBlank, program_chunk-elsewhere,
}
use rp2040_eth_panel.Ota.Recovery.Push.{
  data_frames, data_frame, image_of, acks, IsChunked, round_data,
}

-- Answers in front of a reply's own.
abbrev pub after : List ℕ → Reply → Reply
after out r = let (s, more, inp) = r in (s, out ++ more, inp)

pub image_of-IsBytes :
    (blank off : ℕ) (cs : List (List ℕ)) → IsChunked blank off cs → IsBytes (image_of cs)
image_of-IsBytes blank off [] chunked = tt
image_of-IsBytes blank off (c ∷ cs) (next, bytes, chunked) =
    All-append (λ b. b < 256) c (image_of cs) bytes
      (image_of-IsBytes blank (off + length c) cs chunked)

-- A word of the slot is the word of the image there.
pub word_in-image :
    (f : Flash) (len i : ℕ)
    → i + 4 ≤ len
    → word_in f (app_xip_addr + i) ≡ word_at (bytes_at f app_offset len) i
unfolding word_in
word_in-image f len i h =
    let at = app_xip_addr + i - xip_base_addr in
    let here : at ≡ app_offset + i = omega arith in
    let b0 = bytes_at-get_or f at 4 0 0 (omega arith) in
    let b1 = bytes_at-get_or f at 4 1 0 (omega arith) in
    let b2 = bytes_at-get_or f at 4 2 0 (omega arith) in
    let b3 = bytes_at-get_or f at 4 3 0 (omega arith) in
    let c0 = bytes_at-get_or f app_offset len i 0 (omega arith) in
    let c1 = bytes_at-get_or f app_offset len (i + 1) 0 (omega arith) in
    let c2 = bytes_at-get_or f app_offset len (i + 2) 0 (omega arith) in
    let c3 = bytes_at-get_or f app_offset len (i + 3) 0 (omega arith) in
    let d0 : f (at + 0) ≡ f (app_offset + i) = ap f (omega (arith, here)) in
    let d1 : f (at + 1) ≡ f (app_offset + (i + 1)) = ap f (omega (arith, here)) in
    let d2 : f (at + 2) ≡ f (app_offset + (i + 2)) = ap f (omega (arith, here)) in
    let d3 : f (at + 3) ≡ f (app_offset + (i + 3)) = ap f (omega (arith, here)) in
    omega (arith, b0 ∙ d0 ∙ sym c0, b1 ∙ d1 ∙ sym c1, b2 ∙ d2 ∙ sym c2, b3 ∙ d3 ∙ sym c3)

module _ (driver : FlashDriver) where
  -- The slot after the chunks.
  abbrev pub programmed : ℕ → List (List ℕ) → Flash → Flash
  programmed off [] f = f
  programmed off (c ∷ cs) f =
      programmed (off + length c) cs (program_chunk driver off c (length c) f)

  pub recovery_run-suc :
      (n : ℕ) (s s' : Session) (inp inp' : Input) (out : List ℕ)
      → s.rebooted ≡ false
      → round driver s inp ≡ (s', out, inp')
      → recovery_run driver (suc n) s inp ≡ after out (recovery_run driver n s' inp')
  unfolding recovery_run
  recovery_run-suc n s s' inp inp' out up e = ground (arith, up, e)

  -- The loop answers every chunk and goes on with what follows.
  pub recovery_run-data :
      (n : ℕ) (s : Session) (off blank : ℕ) (cs : List (List ℕ)) (rest : Input)
      → s.rebooted ≡ false
      → IsChunked blank off cs
      → recovery_run driver (length cs + n) s (data_frames off cs rest)
        ≡ after
            (acks off cs)
            (recovery_run driver n (record s { flash = programmed off cs s.flash }) rest)
  recovery_run-data n s off blank [] rest up chunked =
      ap (λ (t : ℕ). recovery_run driver t s rest) (omega arith)
  recovery_run-data n s off blank (c ∷ cs) rest up (next, bytes, chunked) =
      let s' : Session = record s { flash = program_chunk driver off c (length c) s.flash } in
      let tail = data_frames (off + length c) cs rest in
      let end =
        recovery_run driver n (record s' { flash = programmed (off + length c) cs s'.flash })
          rest in
      ap (λ (t : ℕ). recovery_run driver t s (data_frame off c tail)) (omega arith)
      ∙ (recovery_run-suc (length cs + n) s s' (data_frame off c tail) tail (ack off) up
          (round_data driver s off blank c tail next (ota_crc32-lt c bytes)))
      ∙ ap (after (ack off)) (recovery_run-data n s' (off + length c) blank cs rest up chunked)
      ∙ ap (λ l. (end.0, l, end.2)) (sym (append_assoc (ack off) (acks (off + length c) cs) end.1))

  -- The slot holds the chunks one behind the other.
  pub programmed-appends :
      (off blank : ℕ) (cs : List (List ℕ)) (held : List ℕ) (f : Flash)
      → IsChunked blank off cs
      → IsBlank f off blank
      → bytes_at f app_offset off ≡ held
      → bytes_at (programmed off cs f) app_offset (off + length (image_of cs)) ≡ held ++ image_of cs
  programmed-appends off blank [] held f chunked clean e =
      ap (bytes_at f app_offset) (omega arith) ∙ e ∙ sym (append-nil held)
  programmed-appends off blank (c ∷ []) held f (next, bytes, chunked) clean e =
      let grown = program_chunk-appends driver off blank c f next held e clean in
      let nil = append-nil c in
      ap (λ l. bytes_at (program_chunk driver off c (length c) f) app_offset (off + length l)) nil
      ∙ grown
      ∙ ap (λ l. held ++ l) (sym nil)
  programmed-appends off blank (c ∷ d ∷ cs) held f (next, bytes, chunked) clean e =
      let f' = program_chunk driver off c (length c) f in
      let grown = program_chunk-appends driver off blank c f next held e clean in
      let pages : length c % 256 ≡ 0 = omega (arith, next, chunked.0) in
      let clean' = program_chunk-IsBlank driver off blank c f next pages clean in
      let later =
        programmed-appends (off + length c) blank (d ∷ cs) (held ++ c) f' chunked clean' grown in
      ap (bytes_at (programmed (off + length c) (d ∷ cs) f') app_offset)
        (omega (arith, length-append c (image_of (d ∷ cs))))
      ∙ later
      ∙ append_assoc held c (image_of (d ∷ cs))

  pub programmed-elsewhere :
      (off blank : ℕ) (cs : List (List ℕ)) (f : Flash) (a : ℕ)
      → IsChunked blank off cs
      → (a < app_offset) ⊎ (bootstate_a_offset ≤ a)
      → programmed off cs f a ≡ f a
  programmed-elsewhere off blank [] f a chunked h = refl
  programmed-elsewhere off blank (c ∷ cs) f a (next, bytes, chunked) h =
      programmed-elsewhere (off + length c) blank cs (program_chunk driver off c (length c) f) a
        chunked h
      ∙ program_chunk-elsewhere driver off blank c f next a h
