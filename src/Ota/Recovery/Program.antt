-- ===== src/Ota/Recovery/Program.antt =====
-- A chunk programmed behind what the slot holds already (firmware/bootloader/recovery.c).
use rp2040_eth_panel.Prelude.{
  ℕ, ◌+◌, ◌-◌, ◌*◌, ◌/◌, ◌%◌, ◌≤◌, ◌<◌, ◌≡◌, ◌⊎◌, inl, inr, refl, ap₂, ◌∙◌, List, ◌++◌, length,
  get_or, get_or-append_left, replicate, arith,
}
use rp2040_eth_panel.Ota.Layout.{app_offset, app_max_size, chunk_size, bootstate_a_offset}
use rp2040_eth_panel.Ota.Flash.{
  Flash, FlashDriver, bytes_at, bytes_at_congr, bytes_at-append, bytes_at-of_list,
}
use rp2040_eth_panel.Ota.Recovery.{program_chunk, padded, padded_len}
use rp2040_eth_panel.Ota.Recovery.Data.{Accepted, program_chunk-inside, program_chunk-outside}

-- A chunk's offset and length within a slot that is erased up to `blank`.
pub record IsNext (off len blank : ℕ) : Type 0 where
  pub some_bytes : 0 < len
  pub one_chunk : len ≤ chunk_size
  pub on_grid : off % 256 ≡ 0
  pub blank_grid : blank % 256 ≡ 0
  pub within : off + len ≤ blank
  pub in_slot : blank ≤ app_max_size

abbrev pub IsBlank : Flash → ℕ → ℕ → Type 0
IsBlank f off blank = (a : ℕ) → app_offset + off ≤ a → a < app_offset + blank → f a ≡ 255

module _ (driver : FlashDriver) (off blank : ℕ) (bs : List ℕ) (f : Flash)
    (next : IsNext off (length bs) blank) where
  accepted : Accepted off (length bs)
  accepted = omega (arith, next)

  abbrev after : Flash
  after = program_chunk driver off bs (length bs) f

  -- What the slot holds grows by the chunk.
  pub program_chunk-appends :
      (held : List ℕ)
      → bytes_at f app_offset off ≡ held
      → IsBlank f off blank
      → bytes_at after app_offset (off + length bs) ≡ held ++ bs
  program_chunk-appends held e clean =
      bytes_at-append after app_offset off (length bs)
      ∙ ap₂ ◌++◌ (bytes_at_congr after f app_offset off before ∙ e)
          (bytes_at-of_list after (app_offset + off) bs 255 chunk)
    where
      before : (a : ℕ) → app_offset ≤ a → a < app_offset + off → after a ≡ f a
      before a p q =
          program_chunk-outside driver off (length bs) bs f a accepted next.on_grid refl (inl q)

      chunk : (i : ℕ) → i < length bs → after (app_offset + off + i) ≡ get_or bs i 255
      chunk i h =
          program_chunk-inside driver off (length bs) bs f i accepted next.on_grid refl
            (omega arith) (clean (app_offset + off + i) (omega arith) (omega (arith, next.within)))
          ∙ unfold padded in
            get_or-append_left bs (replicate (padded_len (length bs) - length bs) 0xFF) i 255 h

  -- Behind a chunk of whole pages the slot is still erased.
  pub program_chunk-IsBlank :
      length bs % 256 ≡ 0 → IsBlank f off blank → IsBlank after (off + length bs) blank
  program_chunk-IsBlank pages clean a p q =
      program_chunk-outside driver off (length bs) bs f a accepted next.on_grid refl
        (inr (omega arith))
      ∙ clean a (omega arith) q

  pub program_chunk-elsewhere :
      (a : ℕ) → (a < app_offset) ⊎ (bootstate_a_offset ≤ a) → after a ≡ f a
  program_chunk-elsewhere a h =
      program_chunk-outside driver off (length bs) bs f a accepted next.on_grid refl (beside h)
    where
      beside :
          (a < app_offset) ⊎ (bootstate_a_offset ≤ a)
          → (a < app_offset + off) ⊎ (app_offset + off + (length bs + 255) / 256 * 256 ≤ a)
      beside (inl p) = inl (omega arith)
      beside (inr p) = inr (omega (arith, next))
