-- ===== src/Ota/Boot/Decide.antt =====
-- The boot decision of firmware/bootloader/main.c, on every branch.
use rp2040_eth_panel.Prelude.{
  ℕ, ◌+◌, ◌%◌, ◌≤◌, ◌<◌, ◌≡◌, ◌≢◌, ◌⊎◌, ◌↔◌, inl, inr, subst, sym, ◌∙◌, true, none, some, arith,
  Option-cases, some_injective, u8,
}
use rp2040_eth_panel.Ota.Layout.{
  BootRecord, bootstate_a_offset, app_vtable_addr, enter_update_magic, max_boot_attempts,
  app_xip_addr, xip_base_addr,
}
use rp2040_eth_panel.Ota.Flash.{Flash, FlashDriver}
use rp2040_eth_panel.Ota.BootState.{boot_state_read}
use rp2040_eth_panel.Ota.BootState.Write.{boot_state_write-outside}
use rp2040_eth_panel.Ota.Boot.{
  app_vectortable_sane, image_matches, count_attempt, decide_record, decide_boot_app, word_in,
  ram_start, ram_end,
}

-- The record allows a start: valid, the image intact, and confirmed or with attempts left.
pub record IsBootable (f : Flash) (st : BootRecord) : Type 0 where
  pub valid : st.app_valid ≢ 0
  pub intact : image_matches f st ≡ true
  pub trusted : (st.app_confirmed ≢ 0) ⊎ (st.boot_attempts < max_boot_attempts)

bootable :
    {f : Flash} (st : BootRecord)
    → boot_state_read f ≡ some st
    → (boot_state_read f ≡ none)
      ⊎ ((st' : BootRecord) × (boot_state_read f ≡ some st') × IsBootable f st')
    → IsBootable f st
bootable st e (inl n) = cc (sym n ∙ e)
bootable {f} st e (inr (st', e', b)) = subst (IsBootable f) (some_injective (sym e' ∙ e)) b

module _ (driver : FlashDriver) where
  decide_record_iff :
      (f : Flash) (st : BootRecord)
      → ((decide_record driver f st).0 ≡ true)
        ↔ ((app_vectortable_sane f app_vtable_addr ≡ true) × IsBootable f st)
  unfolding decide_record count_attempt
  decide_record_iff f st = (λ h. (ground arith, ground arith), λ h. ground (arith, h))

  pub decide_boot_app-record :
      (scratch : ℕ) (f : Flash) (st : BootRecord)
      → scratch ≢ enter_update_magic
      → boot_state_read f ≡ some st
      → decide_boot_app driver scratch f ≡ decide_record driver f st
  unfolding decide_boot_app
  decide_boot_app-record scratch f st h e = ground arith

  -- The bootloader starts the application exactly if no update was requested, the vector table is
  -- sane, and there either is no boot record at all or the newest one is marked valid, fits the
  -- image in the slot and is confirmed or has had fewer than three starts.
  pub decide_boot_app_iff :
      (scratch : ℕ) (f : Flash)
      → ((decide_boot_app driver scratch f).0 ≡ true) ↔ (
          (scratch ≢ enter_update_magic)
          × (app_vectortable_sane f app_vtable_addr ≡ true)
          × ((boot_state_read f ≡ none)
              ⊎ ((st : BootRecord) × (boot_state_read f ≡ some st) × IsBootable f st)))
  unfolding decide_boot_app
  decide_boot_app_iff scratch f = elim (Option-cases (boot_state_read f)) [
    | inl e ↦ (λ h. (ground arith, ground arith, inl e), λ h. ground (arith, h))
    | inr (st, e) ↦ (
      λ h.
          let run : scratch ≢ enter_update_magic = ground arith in
          let d =
            (decide_record_iff f st).0 (rw (decide_boot_app-record scratch f st run e) at h) in
          (run, d.0, inr (st, e, d.1)),
      λ h.
          rw (decide_boot_app-record scratch f st h.0 e)
            ((decide_record_iff f st).1 (h.1, bootable st e h.2)),
    )
  ]

  decide_record-outside :
      (f : Flash) (st : BootRecord) (a : ℕ)
      → a < bootstate_a_offset
      → (decide_record driver f st).1 a ≡ f a
  unfolding decide_record count_attempt
  decide_record-outside f st a h = ground (
    arith,
    boot_state_write-outside driver f (record st { boot_attempts = u8 (st.boot_attempts + 1) }) a h,
    boot_state_write-outside driver f (record st { app_valid = 0 }) a h,
  )

  -- Deciding changes nothing below the boot-state sectors: not the bootloader, not the image.
  pub decide_boot_app-outside :
      (scratch : ℕ) (f : Flash) (a : ℕ)
      → a < bootstate_a_offset
      → (decide_boot_app driver scratch f).1 a ≡ f a
  unfolding decide_boot_app
  decide_boot_app-outside scratch f a h = elim (Option-cases (boot_state_read f)) [
    | inl e ↦ ground arith
    | inr (st, e) ↦ ground (arith, decide_record-outside f st a h)
  ]

-- A vector table that is accepted has its stack in RAM and its entry in the application slot, with
-- the Thumb bit set.
pub app_vectortable_sane_lem :
    (f : Flash) (vtable : ℕ)
    → app_vectortable_sane f vtable ≡ true
    → (ram_start ≤ word_in f vtable)
      × (word_in f vtable ≤ ram_end)
      × (app_xip_addr ≤ word_in f (vtable + 4))
      × (word_in f (vtable + 4) < xip_base_addr + bootstate_a_offset)
      × (word_in f (vtable + 4) % 2 ≡ 1)
unfolding app_vectortable_sane
app_vectortable_sane_lem f vtable h = ground arith
