-- ===== src/Ota/Boot/Main/Jump.antt =====
-- Where the bootloader (firmware/bootloader/main.c) jumps to.
use rp2040_eth_panel.Prelude.{
  ℕ, ◌+◌, ◌-◌, ◌%◌, ◌≤◌, ◌<◌, ◌≡◌, inl, inr, refl, ap, true, false, [], ◌∷◌, Bool-cases, arith,
}
use rp2040_eth_panel.Ota.Layout.{
  app_vtable_addr, app_xip_addr, xip_base_addr, bootstate_a_offset, enter_update_magic,
}
use rp2040_eth_panel.Ota.Flash.{Flash, FlashDriver, bytes_at_congr}
use rp2040_eth_panel.Ota.Boot.{word_in, decide_boot_app, app_vectortable_sane, ram_start, ram_end}
use rp2040_eth_panel.Ota.Boot.Decide.{
  decide_boot_app_iff, decide_boot_app-outside, app_vectortable_sane_lem,
}
use rp2040_eth_panel.Ota.Boot.Main.{
  systick_csr, nvic_icer, nvic_icpr, vtor, msp, branch, ResetBits, reset_peripherals, jump_to_app,
  Handoff, application, recovery, bootloader_main,
}

pub word_in_congr :
    (f g : Flash) (addr : ℕ)
    → ((a : ℕ) → addr - xip_base_addr ≤ a → a < addr - xip_base_addr + 4 → f a ≡ g a)
    → word_in f addr ≡ word_in g addr
unfolding word_in
word_in_congr f g addr same = rw (bytes_at_congr f g (addr - xip_base_addr) 4 same) refl

module _ (driver : FlashDriver) (bits : ResetBits) where
  pub bootloader_main-started :
      (scratch : ℕ) (f f' : Flash)
      → decide_boot_app driver scratch f ≡ (true, f')
      → bootloader_main driver bits scratch f
        ≡ (application (jump_to_app bits f' app_vtable_addr), 0, f')
  unfolding bootloader_main
  bootloader_main-started scratch f f' e = rw e refl

  pub bootloader_main-recovery :
      (scratch : ℕ) (f f' : Flash)
      → decide_boot_app driver scratch f ≡ (false, f')
      → bootloader_main driver bits scratch f ≡ (recovery, 0, f')
  unfolding bootloader_main
  bootloader_main-recovery scratch f f' e = rw e refl

  -- What the bootloader does with the hardware when it does not enter recovery: SysTick and all
  -- interrupts are off and none is pending, the vector table is that of the slot, the stack pointer
  -- lies in RAM, and the branch goes into the slot with the Thumb bit set.
  abbrev pub JumpsSafely : Handoff → Type 0
  JumpsSafely recovery = Unit
  JumpsSafely (application actions) =
      (sp pc : ℕ) × (actions
        ≡ systick_csr 0
          ∷ nvic_icer 0xFFFFFFFF
          ∷ nvic_icpr 0xFFFFFFFF
          ∷ reset_peripherals bits
          ∷ vtor app_vtable_addr
          ∷ msp sp
          ∷ branch pc
          ∷ [])
      × (ram_start ≤ sp)
      × (sp ≤ ram_end)
      × (app_xip_addr ≤ pc)
      × (pc < xip_base_addr + bootstate_a_offset)
      × (pc % 2 ≡ 1)

  -- The vector table is below the boot state, which is all that the decision may write.
  pub vectors_kept :
      (scratch : ℕ) (f : Flash)
      → let f' = (decide_boot_app driver scratch f).1 in
        (word_in f' app_vtable_addr ≡ word_in f app_vtable_addr)
        × (word_in f' (app_vtable_addr + 4) ≡ word_in f (app_vtable_addr + 4))
  vectors_kept scratch f =
      let f' = (decide_boot_app driver scratch f).1 in
      (
        word_in_congr f' f app_vtable_addr
            (λ a p q. decide_boot_app-outside driver scratch f a (omega arith)),
        word_in_congr f' f (app_vtable_addr + 4)
            (λ a p q. decide_boot_app-outside driver scratch f a (omega arith)),
      )

  jump-JumpsSafely :
      (scratch : ℕ) (f : Flash)
      → app_vectortable_sane f app_vtable_addr ≡ true
      → JumpsSafely
          (application (jump_to_app bits (decide_boot_app driver scratch f).1 app_vtable_addr))
  unfolding jump_to_app
  jump-JumpsSafely scratch f sane =
      let (stack, entry) = vectors_kept scratch f in
      let (p, q, r, t, thumb) = app_vectortable_sane_lem f app_vtable_addr sane in
      rw (stack, entry) (_, _, refl, p, q, r, t, thumb)

  -- Whatever the flash holds and whatever is in SCRATCH0, the bootloader either enters recovery or
  -- jumps with SysTick and all interrupts off, a stack pointer in RAM, and an entry in the slot with
  -- the Thumb bit set. It enters recovery where the application asked for it. SCRATCH0 is cleared,
  -- and nothing below the boot state changes.
  pub bootloader_main_lem :
      (scratch : ℕ) (f : Flash)
      → let (handoff, scratch', f') = bootloader_main driver bits scratch f in
        JumpsSafely handoff
        × (scratch ≡ enter_update_magic → handoff ≡ recovery)
        × (scratch' ≡ 0)
        × ((a : ℕ) → a < bootstate_a_offset → f' a ≡ f a)
  bootloader_main_lem scratch f =
      let (started, f') = decide_boot_app driver scratch f in
      let (starts, back) = decide_boot_app_iff driver scratch f in
      let kept = decide_boot_app-outside driver scratch f in
      elim (Bool-cases started) [
        | inl e ↦
            let (wanted, sane, _) = starts e in
            rw (bootloader_main-started scratch f f' (ap (λ b. (b, f')) e))
              (jump-JumpsSafely scratch f sane, λ asked. absurd (wanted asked), refl, kept)
        | inr e ↦
            rw (bootloader_main-recovery scratch f f' (ap (λ b. (b, f')) e))
              (tt, λ asked. refl, refl, kept)
      ]
