-- ===== src/Ota/Recovery/Push.antt =====
-- A whole update as the host tool sends it (tools/ota_flash.py), received by the loop of
-- firmware/bootloader/recovery.c.
pub mod Fill
pub mod Install
pub mod Retry
pub mod Retried
pub mod Edges
pub mod Restart
pub mod Go
use rp2040_eth_panel.Prelude.{
  ℕ, zero, suc, ◌+◌, ◌-◌, ◌*◌, ◌/◌, ◌%◌, ◌^◌, ◌≤◌, ◌<◌, ◌≡◌, ◌⊎◌, inl, inr, refl, sym, ap, ap₂, ◌∙◌,
  List, [], ◌∷◌, ◌++◌, append_assoc, append-nil, length, length-append, Bool, true, false, Option,
  some, none, leb, ltb, ◌==◌, ==_refl, same_bytes, arith,
}
use rp2040_eth_panel.Prelude.Text.{codes}
use rp2040_eth_panel.Crc32.{ota_crc32}
use rp2040_eth_panel.Crc32.Bytes.{IsBytes}
use rp2040_eth_panel.Ota.Layout.{
  app_offset, app_max_size, chunk_size, bootstate_a_offset, word_bytes,
}
use rp2040_eth_panel.Ota.Flash.{Flash, FlashDriver, bytes_at}
use rp2040_eth_panel.Ota.Recovery.{
  Session, handle_sync, handle_go, ack, erase_slot, program_chunk, handle, handle_begin, begin_crc,
  begin_slot, handle_data, receive_chunk, handle_end, led_recovery, chunk_rejected, round,
  recovery_run,
}
use rp2040_eth_panel.Ota.Reader.{
  Input, sync_magic, go_magic, begin_magic, data_magic, end_magic, is_magic, scan, read_command,
  read_u32, read_exact,
}
use rp2040_eth_panel.Ota.Recovery.Resync.{arriving}
use rp2040_eth_panel.Ota.Recovery.Frames.{read_exact-arriving, read_u32-arriving}
use rp2040_eth_panel.Ota.Recovery.Data.{Accepted-passes}
use rp2040_eth_panel.Ota.Recovery.Program.{
  IsNext, IsBlank, program_chunk-appends, program_chunk-IsBlank, program_chunk-elsewhere,
}

-- The frames of the host, followed by what arrives after them.
abbrev pub begin_frame : ℕ → ℕ → Input → Input
begin_frame len crc rest =
    arriving begin_magic ++ (arriving (word_bytes len) ++ (arriving (word_bytes crc) ++ rest))

abbrev pub data_frame : ℕ → List ℕ → Input → Input
data_frame off bs rest =
    arriving data_magic
    ++ (arriving (word_bytes off)
        ++ (arriving (word_bytes (length bs))
            ++ (arriving (word_bytes (ota_crc32 bs)) ++ (arriving bs ++ rest))))

abbrev pub end_frame : Input → Input
end_frame rest = arriving end_magic ++ rest

-- The chunks one behind the other, from an offset on.
abbrev pub data_frames : ℕ → List (List ℕ) → Input → Input
data_frames off [] rest = rest
data_frames off (c ∷ cs) rest = data_frame off c (data_frames (off + length c) cs rest)

abbrev pub image_of : List (List ℕ) → List ℕ
image_of [] = []
image_of (c ∷ cs) = c ++ image_of cs

-- The answers to the chunks.
abbrev pub acks : ℕ → List (List ℕ) → List ℕ
acks off [] = []
acks off (c ∷ cs) = ack off ++ acks (off + length c) cs

-- Every chunk starts on a page, holds 1 to 1024 bytes and fits in what is erased.
abbrev pub IsChunked : ℕ → ℕ → List (List ℕ) → Type 0
IsChunked blank off [] = Unit
IsChunked blank off (c ∷ cs) =
    IsNext off (length c) blank × IsBytes c × IsChunked blank (off + length c) cs

module _ (driver : FlashDriver) where
  -- One round of the loop on a frame.
  pub round_on :
      (s : Session) (tok : List ℕ) (inp rest : Input)
      → read_command inp ≡ (some tok, rest)
      → round driver s inp ≡ handle driver tok s rest
  unfolding round
  round_on s tok inp rest e =
      ap
        (λ (r : Option (List ℕ) × Input).
          let (t, inp') = r in
          elim t [
            | none ↦ (record s { leds = s.leds ++ led_recovery }, [], inp')
            | some w ↦ handle driver w s inp'
          ])
        e

  begin_accepted :
      (t : Session) (rest : Input)
      → 0 < t.app_len
      → t.app_len ≤ app_max_size
      → begin_slot driver t rest
        ≡ (record t { flash = erase_slot driver t.app_len t.flash }, codes "OKER", rest)
  unfolding begin_slot
  begin_accepted t rest some_bytes fits = ground arith

  -- The token selects the branch.
  pub handle_on :
      (s : Session) (inp : Input)
      → (handle driver sync_magic s inp ≡ handle_sync driver s inp)
        × (handle driver go_magic s inp ≡ handle_go driver s inp)
        × (handle driver begin_magic s inp ≡ handle_begin driver s inp)
        × (handle driver data_magic s inp ≡ handle_data driver s inp)
        × (handle driver end_magic s inp ≡ handle_end driver s inp)
  unfolding handle same_bytes
  handle_on s inp = (refl, refl, refl, refl, refl)

  begin_fields :
      (s : Session) (len crc : ℕ) (inp inp1 inp2 : Input)
      → read_u32 inp ≡ (some len, inp1)
      → read_u32 inp1 ≡ (some crc, inp2)
      → handle_begin driver s inp
        ≡ begin_slot driver (record s { app_len = len; app_crc = crc }) inp2
  unfolding handle_begin begin_crc
  begin_fields s len crc inp inp1 inp2 d e = ground arith

  pub round_begin :
      (s : Session) (len crc : ℕ) (rest : Input)
      → len < 2 ^ 32
      → crc < 2 ^ 32
      → 0 < len
      → len ≤ app_max_size
      → round driver s (begin_frame len crc rest) ≡ (
        record s { app_len = len; app_crc = crc; flash = erase_slot driver len s.flash },
        codes "OKER",
        rest,
      )
  round_begin s len crc rest p q some_bytes fits =
      let tail = arriving (word_bytes crc) ++ rest in
      let fields = arriving (word_bytes len) ++ tail in
      round_on s begin_magic (begin_frame len crc rest) fields
        (unfold read_command scan is_magic in refl)
      ∙ (handle_on s fields).2
      ∙ (begin_fields s len crc fields tail rest (read_u32-arriving len tail p)
          (read_u32-arriving crc rest q))
      ∙ begin_accepted (record s { app_len = len; app_crc = crc }) rest some_bytes fits

  pub data_fields :
      (s : Session) (off len crc : ℕ) (inp inp1 inp2 inp3 : Input)
      → read_u32 inp ≡ (some off, inp1)
      → read_u32 inp1 ≡ (some len, inp2)
      → read_u32 inp2 ≡ (some crc, inp3)
      → handle_data driver s inp ≡ receive_chunk driver s off len crc inp3
  unfolding handle_data
  data_fields s off len crc inp inp1 inp2 inp3 d e h = ground arith

  data_accepted :
      (s : Session) (off : ℕ) (c : List ℕ) (inp rest : Input)
      → chunk_rejected off (length c) ≡ false
      → read_exact (length c) inp ≡ (some c, rest)
      → receive_chunk driver s off (length c) (ota_crc32 c) inp
        ≡ (record s { flash = program_chunk driver off c (length c) s.flash }, ack off, rest)
  unfolding receive_chunk
  data_accepted s off c inp rest d e = let same = ==_refl (ota_crc32 c) in ground (arith, same)

  pub round_data :
      (s : Session) (off blank : ℕ) (c : List ℕ) (rest : Input)
      → IsNext off (length c) blank
      → ota_crc32 c < 2 ^ 32
      → round driver s (data_frame off c rest)
        ≡ (record s { flash = program_chunk driver off c (length c) s.flash }, ack off, rest)
  round_data s off blank c rest next crc =
      let payload = arriving c ++ rest in
      let tail = arriving (word_bytes (ota_crc32 c)) ++ payload in
      let mid = arriving (word_bytes (length c)) ++ tail in
      let fields = arriving (word_bytes off) ++ mid in
      round_on s data_magic (data_frame off c rest) fields
        (unfold read_command scan is_magic in refl)
      ∙ (handle_on s fields).3
      ∙ (data_fields s off (length c) (ota_crc32 c) fields mid tail payload
          (read_u32-arriving off mid (omega (arith, next)))
          (read_u32-arriving (length c) tail (omega (arith, next)))
          (read_u32-arriving (ota_crc32 c) payload crc))
      ∙ data_accepted s off c payload rest (Accepted-passes off (length c) (omega (arith, next)))
          (read_exact-arriving c rest)

  pub round_end :
      (s : Session) (rest : Input) → round driver s (end_frame rest) ≡ handle_end driver s rest
  round_end s rest =
      round_on s end_magic (end_frame rest) rest (unfold read_command scan is_magic in refl)
      ∙ (handle_on s rest).4
