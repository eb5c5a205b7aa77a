-- ===== src/Tests/Ota.antt =====
-- The boot state and the update on concrete inputs.
use rp2040_eth_panel.Prelude.{◌≡◌, ◌≢◌, ◌⊎◌, ◌↔◌, refl, true, false, [], ◌∷◌, none, some, arith}
use rp2040_eth_panel.Crc32.{ota_crc32}
use rp2040_eth_panel.Ota.Layout.{
  BootRecord, IsRecord, record_of, app_vtable_addr, enter_update_magic,
}
use rp2040_eth_panel.Ota.Flash.{bytes_at}
use rp2040_eth_panel.Ota.BootState.{
  boot_state_read, boot_state_write, write_target, stamp, rec_valid, record_in,
}
use rp2040_eth_panel.Ota.BootState.Write.{boot_state_read-write, boot_state_write_torn}
use rp2040_eth_panel.Ota.Boot.{decide_boot_app, power_cycles, app_vectortable_sane}
use rp2040_eth_panel.Ota.Boot.Decide.{IsBootable, decide_boot_app_iff}
use rp2040_eth_panel.Ota.Boot.Trial.{IsOnTrial}
use rp2040_eth_panel.Ota.Boot.Attempts.{starts, power_cycles_trial}
use rp2040_eth_panel.Ota.Recovery.{Session, recovery_run, verified_record}
use rp2040_eth_panel.Ota.Recovery.Push.{image_of, begin_frame, data_frames, end_frame}
use rp2040_eth_panel.Ota.Recovery.Push.Install.{push_installs}
use rp2040_eth_panel.Tests.Memory.{memory_driver, blank_flash}
use rp2040_eth_panel.Tests.Update.{
  blank_target, small_image, small_image-IsChunked, idle, small_image_vectors,
}

abbrev updated : Session
updated =
    (recovery_run memory_driver 4 idle (
      begin_frame 264 (ota_crc32 (image_of small_image))
        (data_frames 0 small_image (end_frame [])))).0

abbrev small_record : BootRecord
small_record =
    stamp (write_target blank_flash).0 (verified_record 264 (ota_crc32 (image_of small_image)))

updated-IsOnTrial : IsOnTrial 0 4 updated.flash small_record
updated-IsOnTrial =
    (push_installs memory_driver idle small_image 4 [] refl small_image-IsChunked (omega arith)
      (omega arith) small_image_vectors (omega (arith, blank_target))).4

-- Three starts, and then recovery.
power_cycles_trial_example : (power_cycles memory_driver 5 updated.flash).0 ≡ starts 5 3
power_cycles_trial_example =
    power_cycles_trial memory_driver 5 3 0 updated.flash small_record refl updated-IsOnTrial

starts_value : starts 5 3 ≡ true ∷ true ∷ true ∷ false ∷ false ∷ []
unfolding starts
starts_value = refl

abbrev plain_record : BootRecord
plain_record = verified_record 264 77

plain_record-IsRecord : IsRecord plain_record
plain_record-IsRecord = omega arith

boot_state_read-write_example :
    let (f', r') = boot_state_write memory_driver blank_flash plain_record in
    boot_state_read f' ≡ some r'
boot_state_read-write_example =
    boot_state_read-write memory_driver blank_flash plain_record plain_record-IsRecord
      (omega (arith, blank_target))

-- The power fails behind the erase of the target sector.
blank_invalid : rec_valid blank_flash (write_target blank_flash).1 ≡ false
unfolding write_target record_in rec_valid record_of bytes_at
blank_invalid = refl

boot_state_write_torn_example : boot_state_read blank_flash ≡ boot_state_read blank_flash
boot_state_write_torn_example =
    boot_state_write_torn blank_flash blank_flash (λ a h. refl) blank_invalid

decide_boot_app_iff_example : ((decide_boot_app memory_driver 0 blank_flash).0 ≡ true) ↔ (
    (0 ≢ enter_update_magic)
    × (app_vectortable_sane blank_flash app_vtable_addr ≡ true)
    × ((boot_state_read blank_flash ≡ none)
        ⊎ ((st : BootRecord) × (boot_state_read blank_flash ≡ some st)
            × IsBootable blank_flash st)))
decide_boot_app_iff_example = decide_boot_app_iff memory_driver 0 blank_flash
