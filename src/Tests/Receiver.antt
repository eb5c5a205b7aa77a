-- ===== src/Tests/Receiver.antt =====
-- The OTA receiver on concrete inputs.
use rp2040_eth_panel.Prelude.{
  ℕ, zero, suc, ◌+◌, ◌≤◌, ◌<◌, ◌≡◌, ◌≢◌, ◌⊎◌, inl, refl, true, false, List, [], ◌∷◌, ◌++◌, none,
  some, some_injective, same_bytes, Option, drop, add32, arith,
}
use rp2040_eth_panel.Prelude.Text.{codes}
use rp2040_eth_panel.Crc32.{ota_crc32}
use rp2040_eth_panel.Ota.Layout.{BootRecord, app_offset, chunk_size}
use rp2040_eth_panel.Ota.BootState.{boot_state_read}
use rp2040_eth_panel.Ota.Boot.{image_matches}
use rp2040_eth_panel.Ota.Recovery.{
  round, handle, handle_data, chunk_rejected, receive_chunk, handle_end, recovery_start,
  recovery_run,
}
use rp2040_eth_panel.Ota.Reader.{Input, scan, read_u32, is_magic, read_command, read_exact}
use rp2040_eth_panel.Ota.Recovery.Resync.{arriving, window, read_command_first}
use rp2040_eth_panel.Ota.Recovery.Chunk.{IsTaken, IsRefused, receive_chunk_lem}
use rp2040_eth_panel.Ota.Recovery.Data.{chunk_rejected_wraps}
use rp2040_eth_panel.Ota.Recovery.Enough.{idle_leds, recovery_run_enough}
use rp2040_eth_panel.Ota.Recovery.Guard.{AreModest, recovery_run_keeps}
use rp2040_eth_panel.Ota.Recovery.Verify.{handle_end_fresh}
use rp2040_eth_panel.Ota.Recovery.Push.{data_frames}
use rp2040_eth_panel.Tests.Memory.{memory_driver, blank_flash}
use rp2040_eth_panel.Tests.Update.{blank_target, idle}

-- Two stray bytes in front of END.
abbrev stray : List ℕ
stray = 69 ∷ 0 ∷ codes "END!"

not_magic : (j : ℕ) → j < 2 → is_magic (window stray j) ≡ false
unfolding is_magic
not_magic zero h = refl
not_magic (suc zero) h = refl
not_magic (suc (suc j)) h = absurd (omega arith)

end_magic_found : is_magic (window stray 2) ≡ true
unfolding is_magic
end_magic_found = refl

read_command_first_example :
    read_command (arriving stray ++ (none ∷ []))
    ≡ (some (window stray 2), arriving (drop 6 stray) ++ (none ∷ []))
read_command_first_example =
    read_command_first stray 2 (none ∷ []) (omega arith) not_magic end_magic_found

-- Stray bytes, a silence, an unfinished frame.
abbrev noise : Input
noise = arriving (codes "??") ++ (none ∷ arriving (codes "DATA1"))

recovery_run_enough_example :
    let (s', out, inp') = recovery_run memory_driver 8 idle noise in
    let more = recovery_run memory_driver 10 idle noise in
    ((s'.rebooted ≡ true) × (more ≡ (s', out, inp')))
    ⊎ ((s'.rebooted ≡ false)
        × (inp' ≡ [])
        × (more ≡ (record s' { leds = s'.leds ++ idle_leds 2 }, out, [])))
recovery_run_enough_example = recovery_run_enough memory_driver idle noise 2

-- Stray bytes in front of a chunk.
abbrev chunk_input : Input
chunk_input = arriving (codes "??") ++ data_frames 256 (codes "abc" ∷ []) []

silent : (o : Option (List ℕ)) (t : List ℕ) → o ≡ none → o ≢ some t
silent o t h e = cc (h, e)

chunk_input-AreModest : AreModest memory_driver 2 idle chunk_input
unfolding round read_command scan is_magic same_bytes read_u32 read_exact handle handle_data
    receive_chunk chunk_rejected ota_crc32
chunk_input-AreModest = (
  λ t e d o l e1 e2.
      let off = some_injective e1 in
      let len = some_injective e2 in (omega (arith, off), omega (arith, off, len)),
  (λ t e. absurd (silent none t refl e), tt),
)

recovery_run_keeps_example :
    (recovery_run memory_driver 2 idle chunk_input).0.flash 5 ≡ blank_flash 5
recovery_run_keeps_example =
    recovery_run_keeps memory_driver 2 idle chunk_input 5 chunk_input-AreModest (inl (omega arith))

abbrev payload : Input
payload = arriving (codes "abc")

receive_chunk_lem_example :
    let crc = ota_crc32 (codes "abc") in
    let r = receive_chunk memory_driver idle 256 3 crc payload in
    IsTaken memory_driver idle 256 3 crc payload r
    ⊎ IsRefused memory_driver idle 256 3 crc payload r
receive_chunk_lem_example =
    receive_chunk_lem memory_driver idle 256 3 (ota_crc32 (codes "abc")) payload refl (omega arith)
      (λ i h. refl)

chunk_rejected_wraps_example :
    (chunk_rejected 0xFFFFFF00 1024 ≡ false)
    × (add32 app_offset 0xFFFFFF00 < app_offset)
    × (app_offset ≤ add32 app_offset 0xFFFFFF00 + chunk_size)
chunk_rejected_wraps_example =
    chunk_rejected_wraps 0xFFFFFF00 1024 (omega arith) (omega arith) (omega arith) (omega arith)

handle_end_fresh_example :
    let (s', out, inp') = handle_end memory_driver (recovery_start [] blank_flash).1 [] in
    (out ≡ codes "DONE")
    × ((st : BootRecord) × (boot_state_read s'.flash ≡ some st)
        × (st.app_valid ≡ 1)
        × (st.app_len ≡ 0)
        × (image_matches s'.flash st ≡ true))
handle_end_fresh_example =
    handle_end_fresh memory_driver blank_flash [] (omega (arith, blank_target))
