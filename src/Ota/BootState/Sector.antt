-- ===== src/Ota/BootState/Sector.antt =====
-- Erasing a sector and programming one page into it (`boot_state_write` of
-- firmware/src/ota/boot_state.c): what is there afterwards, and that all else is as before.
use rp2040_eth_panel.Prelude.{
  ℕ, ◌+◌, ◌%◌, ◌≤◌, ◌<◌, ◌≡◌, ◌⊎◌, refl, sym, ap, ◌∙◌, true, length, get_or, get_or-append_left,
  length-append, length-replicate, replicate, arith, ==_refl, ◌==◌, ◌&&◌, add32,
}
use rp2040_eth_panel.Crc32.{ota_crc32}
use rp2040_eth_panel.Crc32.Bytes.{ota_crc32-lt}
use rp2040_eth_panel.Ota.Layout.{
  BootRecord, IsRecord, record_of, record_bytes, head_bytes, flash_sector, flash_total,
  boot_state_magic, word_bytes,
}
use rp2040_eth_panel.Ota.Flash.{Flash, FlashDriver, bytes_at, bytes_at_congr, bytes_at-of_list}
use rp2040_eth_panel.Ota.BootState.{record_in, rec_valid, stamp, page_of}
use rp2040_eth_panel.Ota.BootState.Codec.{
  length-record_bytes, head_bytes-IsBytes, record_of-record_bytes,
}

length-page_of : (r : BootRecord) → length (page_of r) ≡ 256
unfolding page_of
length-page_of r =
    length-append (record_bytes r) (replicate 232 0xFF)
    ∙ omega (arith, length-record_bytes r, length-replicate {A = ℕ} 232 0xFF)

pub stamp-IsRecord : (m : ℕ) (r : BootRecord) → IsRecord r → IsRecord (stamp m r)
unfolding stamp
stamp-IsRecord m r h = record {
  magic_fits = omega arith;
  seq_fits = omega arith;
  len_fits = h.len_fits;
  app_crc_fits = h.app_crc_fits;
  valid_fits = h.valid_fits;
  confirmed_fits = h.confirmed_fits;
  attempts_fits = h.attempts_fits;
  pad_fits = h.pad_fits;
  crc_fits = ota_crc32-lt _ (head_bytes-IsBytes _);
}

length-head_bytes : (r : BootRecord) → length (head_bytes r) ≡ 20
unfolding head_bytes
length-head_bytes r = refl

stamp_passes :
    (m : ℕ) (r : BootRecord)
    → ((stamp m r).magic == boot_state_magic
        && ota_crc32 (head_bytes (stamp m r)) == (stamp m r).crc32)
      ≡ true
unfolding stamp head_bytes
stamp_passes m r =
    ==_refl (ota_crc32 (head_bytes (record r { magic = boot_state_magic; seq = add32 m 1 })))

-- A sector on the grid, inside the flash.
pub record IsSector (t : ℕ) : Type 0 where
  pub on_grid : t % flash_sector ≡ 0
  pub inside : t + flash_sector ≤ flash_total

module _ (driver : FlashDriver) where
  open driver use {erase, program, erase_inside, erase_outside, program_inside, program_outside}

  abbrev pub rewrite_sector : Flash → ℕ → BootRecord → Flash
  rewrite_sector f t r = program (erase f t flash_sector) t (page_of r)

  pub rewrite_sector-outside :
      (f : Flash) (t a : ℕ) (r : BootRecord)
      → IsSector t
      → (a < t) ⊎ (t + flash_sector ≤ a)
      → rewrite_sector f t r a ≡ f a
  rewrite_sector-outside f t a r s h =
      program_outside (erase f t flash_sector) t (page_of r) a (omega (arith, s.on_grid))
        (omega (arith, length-page_of r)) (omega (arith, length-page_of r, s.inside))
        (omega (arith, length-page_of r))
      ∙ erase_outside f t flash_sector a s.on_grid (omega arith) s.inside h

  rewrite_sector-inside :
      (f : Flash) (t i : ℕ) (r : BootRecord)
      → IsSector t
      → i < 24
      → rewrite_sector f t r (t + i) ≡ get_or (record_bytes r) i 255
  rewrite_sector-inside f t i r s h =
      program_inside (erase f t flash_sector) t (page_of r) i (omega (arith, s.on_grid))
        (omega (arith, length-page_of r)) (omega (arith, length-page_of r, s.inside))
        (omega (arith, length-page_of r))
        (erase_inside f t flash_sector (t + i) s.on_grid (omega arith) s.inside (omega arith)
          (omega arith))
      ∙ unfold page_of in
        get_or-append_left (record_bytes r) (replicate 232 0xFF) i 255
          (omega (arith, length-record_bytes r))

  rewrite_sector-bytes :
      (f : Flash) (t : ℕ) (r : BootRecord)
      → IsSector t
      → bytes_at (rewrite_sector f t r) t 24 ≡ record_bytes r
  rewrite_sector-bytes f t r s =
      ap (bytes_at (rewrite_sector f t r) t) (sym (length-record_bytes r))
      ∙ bytes_at-of_list (rewrite_sector f t r) t (record_bytes r) 255
          (λ i h. rewrite_sector-inside f t i r s (omega (arith, length-record_bytes r)))

  -- The record written is the record read.
  pub rewrite_sector-record_in :
      (f : Flash) (t : ℕ) (r : BootRecord)
      → IsSector t
      → IsRecord r
      → record_in (rewrite_sector f t r) t ≡ r
  unfolding record_in
  rewrite_sector-record_in f t r s h =
      ap record_of (rewrite_sector-bytes f t r s) ∙ record_of-record_bytes r h

  rewrite_sector-head :
      (f : Flash) (t : ℕ) (r : BootRecord)
      → IsSector t
      → bytes_at (rewrite_sector f t r) t 20 ≡ head_bytes r
  rewrite_sector-head f t r s =
      ap (bytes_at (rewrite_sector f t r) t) (sym (length-head_bytes r))
      ∙ bytes_at-of_list (rewrite_sector f t r) t (head_bytes r) 255 (λ i h.
        rewrite_sector-inside f t i r s (omega (arith, length-head_bytes r))
        ∙ (unfold record_bytes in get_or-append_left (head_bytes r) (word_bytes r.crc32) i 255 h))

  -- A stamped record passes the test of magic and checksum.
  pub rewrite_sector-rec_valid :
      (f : Flash) (t m : ℕ) (r : BootRecord)
      → IsSector t
      → IsRecord r
      → rec_valid (rewrite_sector f t (stamp m r)) t ≡ true
  unfolding rec_valid
  rewrite_sector-rec_valid f t m r s h =
      rw
        (
          rewrite_sector-head f t (stamp m r) s,
          ap record_of (rewrite_sector-bytes f t (stamp m r) s),
          record_of-record_bytes (stamp m r) (stamp-IsRecord m r h),
        )
        (stamp_passes m r)

-- Sectors that read the same are judged the same.
pub record_in_congr :
    (f g : Flash) (t : ℕ)
    → ((a : ℕ) → t ≤ a → a < t + 24 → f a ≡ g a)
    → (record_in f t ≡ record_in g t) × (rec_valid f t ≡ rec_valid g t)
unfolding rec_valid
record_in_congr f g t h =
    let all = bytes_at_congr f g t 24 h in
    let head = bytes_at_congr f g t 20 (λ a p q. h a p (omega arith)) in
    (ap record_of all, rw (all, head))
