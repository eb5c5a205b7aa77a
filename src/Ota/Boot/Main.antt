-- ===== src/Ota/Boot/Main.antt =====
-- firmware/bootloader/main.c: the hand-over to the application, and `main`.
pub mod Jump
use rp2040_eth_panel.Prelude.{
  ℕ, ◌+◌, bit_or, bit_xor, Bool, true, false, List, [], ◌∷◌, if◌then◌else◌,
}
use rp2040_eth_panel.Ota.Layout.{app_vtable_addr}
use rp2040_eth_panel.Ota.Flash.{Flash, FlashDriver}
use rp2040_eth_panel.Ota.Boot.{word_in, decide_boot_app}

-- The accesses to the hardware: writes of core registers, `reset_block`, and the branch.
pub data CoreAction : Type 0 where
  systick_csr nvic_icer nvic_icpr reset_block vtor msp branch : ℕ → CoreAction

-- The `RESETS_RESET_*_BITS` of the Pico SDK.
pub record ResetBits : Type 0 where
  pub io_qspi : ℕ
  pub pads_qspi : ℕ
  pub pll_usb : ℕ
  pub usbctrl : ℕ
  pub syscfg : ℕ
  pub pll_sys : ℕ

-- What goes into reset: all but these blocks, in 32 bits.
unfoldable pub reset_peripherals : ResetBits → CoreAction
reset_peripherals bits = reset_block (
    bit_xor
      (bit_or bits.io_qspi (
        bit_or bits.pads_qspi
          (bit_or bits.pll_usb (bit_or bits.usbctrl (bit_or bits.syscfg bits.pll_sys)))))
      0xFFFFFFFF)

-- The accesses of `jump_to_app` in order, from the vector table, the stack pointer and the entry.
abbrev pub hand_over : ResetBits → ℕ → ℕ → ℕ → List CoreAction
hand_over bits vtable sp pc =
    systick_csr 0
    ∷ nvic_icer 0xFFFFFFFF
    ∷ nvic_icpr 0xFFFFFFFF
    ∷ reset_peripherals bits
    ∷ vtor vtable
    ∷ msp sp
    ∷ branch pc
    ∷ []

unfoldable pub jump_to_app : ResetBits → Flash → ℕ → List CoreAction
jump_to_app bits f vtable = hand_over bits vtable (word_in f vtable) (word_in f (vtable + 4))

pub data Handoff : Type 0 where
  application : List CoreAction → Handoff
  recovery : Handoff

-- The hand-over, SCRATCH0 afterwards, and the flash.
unfoldable pub bootloader_main : FlashDriver → ResetBits → ℕ → Flash → Handoff × ℕ × Flash
bootloader_main driver bits scratch f =
    let (started, f') = decide_boot_app driver scratch f in
    ((if started then application (jump_to_app bits f' app_vtable_addr) else recovery), 0, f')
