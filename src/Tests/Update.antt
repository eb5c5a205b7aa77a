-- ===== src/Tests/Update.antt =====
-- A whole update, with retries and a cut session in front of it, on concrete inputs.
use rp2040_eth_panel.Prelude.{
  ℕ, zero, suc, ◌<◌, ◌≡◌, ◌≢◌, refl, true, false, List, [], ◌∷◌, ◌++◌, length, replicate, arith,
}
use rp2040_eth_panel.Prelude.Text.{codes}
use rp2040_eth_panel.Crc32.{ota_crc32}
use rp2040_eth_panel.Crc32.Bytes.{IsBytes}
use rp2040_eth_panel.Ota.Layout.{record_of, word_at, app_offset}
use rp2040_eth_panel.Ota.Flash.{bytes_at}
use rp2040_eth_panel.Ota.BootState.{write_target, stamp, rec_valid, record_in}
use rp2040_eth_panel.Ota.Boot.{sane_vectors}
use rp2040_eth_panel.Ota.Boot.Trial.{IsOnTrial}
use rp2040_eth_panel.Ota.Recovery.{Session, led_done, chunk_rejected, recovery_run, verified_record}
use rp2040_eth_panel.Ota.Recovery.Erase.{erased_len}
use rp2040_eth_panel.Ota.Recovery.Program.{IsNext}
use rp2040_eth_panel.Ota.Recovery.Push.{image_of, IsChunked, begin_frame, end_frame}
use rp2040_eth_panel.Ota.Recovery.Push.Edges.{sync_frame, sync_answer}
use rp2040_eth_panel.Ota.Recovery.Push.Retry.{
  Try, whole, damaged, broken, tries_input, answers, AreSpoiled,
}
use rp2040_eth_panel.Ota.Recovery.Push.Restart.{
  Cut, IsCut, cuts_input, cut_answers, restarted_installs,
}
use rp2040_eth_panel.Tests.Memory.{memory_driver, blank_flash}

pub blank_target : (write_target blank_flash).0 ≡ 0
unfolding write_target record_in rec_valid record_of bytes_at
blank_target = refl

-- The vector table of the smallest image that can start: the stack at the end of RAM, the entry
-- behind the table.
abbrev pub vector_bytes : List ℕ
vector_bytes = 0x00 ∷ 0x20 ∷ 0x04 ∷ 0x20 ∷ 0x09 ∷ 0x01 ∷ 0x04 ∷ 0x10 ∷ []

abbrev pub small_image : List (List ℕ)
small_image = replicate 256 0 ∷ vector_bytes ∷ []

zeros-IsBytes : (n : ℕ) → IsBytes (replicate n 0)
zeros-IsBytes zero = tt
zeros-IsBytes (suc n) = (omega arith, zeros-IsBytes n)

pub small_image-IsChunked : IsChunked (erased_len (length (image_of small_image))) 0 small_image
small_image-IsChunked = (first, zeros-IsBytes 256, (second, omega arith, tt))
  where
    first : IsNext 0 256 4096
    first = omega arith

    second : IsNext 256 8 4096
    second = omega arith

abbrev pub idle : Session
idle = record { app_len = 0; app_crc = 0; flash = blank_flash; leds = []; rebooted = false }

pub small_image_vectors :
    sane_vectors (word_at (image_of small_image) 0x100) (word_at (image_of small_image) 0x104)
    ≡ true
unfolding sane_vectors
small_image_vectors = refl

-- The first chunk breaks off behind a byte, and the second is damaged once.
abbrev pub tries : List Try
tries =
    broken 0 256 5 (1 ∷ [])
    ∷ whole (replicate 256 0)
    ∷ damaged 256 (1 ∷ []) 0
    ∷ whole vector_bytes
    ∷ []

damage_shows : ota_crc32 (1 ∷ []) ≢ 0
unfolding ota_crc32
damage_shows e = absurd (omega (arith, e))

chunks_fit : (chunk_rejected 0 256 ≡ false) × (chunk_rejected 256 1 ≡ false)
unfolding chunk_rejected
chunks_fit = (refl, refl)

pub tries-AreSpoiled : AreSpoiled tries
tries-AreSpoiled = (
  (omega arith, omega arith, omega arith, omega arith, chunks_fit.0),
  (tt, ((omega arith, omega arith, omega arith, damage_shows, chunks_fit.1), (tt, tt))),
)

-- The host gives up behind the first page, and announces another length than the second time.
abbrev pub cut_short : Cut
cut_short = record { len = 5000; crc = 7; tries = whole (replicate 256 0) ∷ [] }

pub cut_short-IsCut : IsCut cut_short
cut_short-IsCut = (omega arith, omega arith, omega arith, (first, zeros-IsBytes 256, tt), (tt, tt))
  where
    first : IsNext 0 256 8192
    first = omega arith

restarted_installs_example :
    let image = image_of small_image in
    let (s', out, inp') = recovery_run memory_driver 10 idle (
      cuts_input (cut_short ∷ []) (
        sync_frame
          (begin_frame (length image) (ota_crc32 image) (tries_input 0 tries (end_frame []))))) in
    (out
      ≡ cut_answers (cut_short ∷ [])
        ++ (sync_answer ++ (codes "OKER" ++ (answers 0 tries ++ codes "DONE"))))
    × (inp' ≡ [])
    × (bytes_at s'.flash app_offset (length image) ≡ image)
    × ((a : ℕ) → a < app_offset → s'.flash a ≡ blank_flash a)
    × IsOnTrial 0 4 s'.flash
        (stamp (write_target blank_flash).0 (verified_record (length image) (ota_crc32 image)))
    × (s'.leds ≡ led_done)
    × (s'.rebooted ≡ false)
restarted_installs_example =
    restarted_installs memory_driver idle (cut_short ∷ []) tries 4 [] refl (cut_short-IsCut, tt)
      small_image-IsChunked tries-AreSpoiled (omega arith) (omega arith) small_image_vectors
      (omega (arith, blank_target))
