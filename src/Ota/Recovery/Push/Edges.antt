-- ===== src/Ota/Recovery/Push/Edges.antt =====
-- The first and the last frame of a session with the receiver (firmware/bootloader/recovery.c), SYNC
-- and GO.
use rp2040_eth_panel.Prelude.{ℕ, ◌≡◌, refl, ap, ◌∙◌, List, ◌++◌, Option, true}
use rp2040_eth_panel.Prelude.Text.{codes}
use rp2040_eth_panel.Ota.Layout.{app_max_size, chunk_size, word_bytes}
use rp2040_eth_panel.Ota.Flash.{FlashDriver}
use rp2040_eth_panel.Ota.Recovery.{Session, handle_sync, handle_go, round}
use rp2040_eth_panel.Ota.Reader.{Input, sync_magic, go_magic, is_magic, read_command, scan}
use rp2040_eth_panel.Ota.Recovery.Resync.{arriving}
use rp2040_eth_panel.Ota.Recovery.Frames.{read_exact-arriving}
use rp2040_eth_panel.Ota.Recovery.Push.{round_on, handle_on}

abbrev pub sync_frame : Input → Input
sync_frame rest = arriving sync_magic ++ (arriving (codes "OOT1") ++ rest)

-- The sizes of the slot and of a chunk.
abbrev pub sync_answer : List ℕ
sync_answer = codes "BLOK" ++ (word_bytes app_max_size ++ word_bytes chunk_size)

abbrev pub go_frame : Input → Input
go_frame rest = arriving go_magic ++ rest

module _ (driver : FlashDriver) where
  pub round_sync :
      (s : Session) (rest : Input) → round driver s (sync_frame rest) ≡ (s, sync_answer, rest)
  unfolding handle_sync
  round_sync s rest =
      let behind = arriving (codes "OOT1") ++ rest in
      round_on driver s sync_magic (sync_frame rest) behind
        (unfold read_command scan is_magic in refl)
      ∙ (handle_on driver s behind).0
      ∙ ap (λ (i : Input). (s, sync_answer, i))
          (ap (λ (r : Option (List ℕ) × Input). r.1) (read_exact-arriving (codes "OOT1") rest))

  pub round_go :
      (s : Session) (rest : Input)
      → round driver s (go_frame rest) ≡ (record s { rebooted = true }, codes "BYE!", rest)
  unfolding handle_go
  round_go s rest =
      round_on driver s go_magic (go_frame rest) rest (unfold read_command scan is_magic in refl)
      ∙ (handle_on driver s rest).1
