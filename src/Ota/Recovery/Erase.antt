-- ===== src/Ota/Recovery/Erase.antt =====
-- `erase_slot` of firmware/bootloader/recovery.c: whole sectors from the start of the slot.
use rp2040_eth_panel.Prelude.{
  ℕ, zero, suc, ◌+◌, ◌*◌, ◌/◌, ◌≤◌, ◌<◌, ◌≡◌, ◌⊎◌, inl, refl, ◌∙◌, add32, arith,
}
use native.Mathlib.Decide.{dec_lt}
use rp2040_eth_panel.Ota.Layout.{app_offset, app_max_size}
use rp2040_eth_panel.Ota.Flash.{Flash, FlashDriver}
use rp2040_eth_panel.Ota.Recovery.{erase_sectors, erase_slot}

-- The bytes that BEGIN erases for an image of this length.
abbrev pub erased_len : ℕ → ℕ
erased_len len = (len + 4095) / 4096 * 4096

module _ (driver : FlashDriver) where
  open driver use {erase, erase_inside, erase_outside}

  erase_sectors-outside :
      (n i : ℕ) (f : Flash) (a : ℕ)
      → (i + n) * 4096 ≤ app_max_size
      → (a < app_offset + i * 4096) ⊎ (app_offset + (i + n) * 4096 ≤ a)
      → erase_sectors driver n i f a ≡ f a
  unfolding erase_sectors
  erase_sectors-outside zero i f a fits h = refl
  erase_sectors-outside (suc n) i f a fits h =
      erase_sectors-outside n (i + 1) (erase f (app_offset + i * 4096) 4096) a (omega arith)
        (omega arith)
      ∙ erase_outside f (app_offset + i * 4096) 4096 a (omega arith) (omega arith) (omega arith)
          (omega arith)

  erase_sectors-inside :
      (n i : ℕ) (f : Flash) (a : ℕ)
      → (i + n) * 4096 ≤ app_max_size
      → app_offset + i * 4096 ≤ a
      → a < app_offset + (i + n) * 4096
      → erase_sectors driver n i f a ≡ 255
  unfolding erase_sectors
  erase_sectors-inside zero i f a fits p q = absurd (omega arith)
  erase_sectors-inside (suc n) i f a fits p q = elim (dec_lt a (app_offset + (i + 1) * 4096)) [
    | yes here ↦
        erase_sectors-outside n (i + 1) (erase f (app_offset + i * 4096) 4096) a (omega arith)
          (inl here)
        ∙ erase_inside f (app_offset + i * 4096) 4096 a (omega arith) (omega arith) (omega arith) p
            (omega arith)
    | no later ↦
        erase_sectors-inside n (i + 1) (erase f (app_offset + i * 4096) 4096) a (omega arith)
          (omega arith) (omega arith)
  ]

  module _ (len : ℕ) (f : Flash) (fits : len ≤ app_max_size) where
    sectors : add32 len 4095 / 4096 ≡ (len + 4095) / 4096
    sectors = omega arith

    -- BEGIN leaves the slot erased for the image, to the end of its last sector.
    pub erase_slot-inside :
        (a : ℕ) → app_offset ≤ a → a < app_offset + erased_len len → erase_slot driver len f a ≡ 255
    unfolding erase_slot
    erase_slot-inside a p q =
        erase_sectors-inside (add32 len 4095 / 4096) 0 f a (omega (arith, sectors)) (omega arith)
          (omega (arith, sectors))

    -- It erases nothing else.
    pub erase_slot-outside :
        (a : ℕ)
        → (a < app_offset) ⊎ (app_offset + erased_len len ≤ a)
        → erase_slot driver len f a ≡ f a
    unfolding erase_slot
    erase_slot-outside a h =
        erase_sectors-outside (add32 len 4095 / 4096) 0 f a (omega (arith, sectors))
          (omega (arith, sectors))
