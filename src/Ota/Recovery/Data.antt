-- ===== src/Ota/Recovery/Data.antt =====
-- DATA of firmware/bootloader/recovery.c: which chunks are taken, and what they change.
use rp2040_eth_panel.Prelude.{
  ℕ, ◌+◌, ◌-◌, ◌*◌, ◌/◌, ◌%◌, ◌^◌, ◌≤◌, ◌<◌, bit_and, ◌≡◌, ◌⊎◌, inl, inr, sym, ap, ◌∙◌, false, List,
  Option-cases, Bool-cases, length, get_or, replicate, length-append, length-replicate, add32, ◌==◌,
  arith,
}
use rp2040_eth_panel.Prelude.Bits.{bit_and_shifted, bit_and_mask}
use rp2040_eth_panel.Crc32.{ota_crc32}
use rp2040_eth_panel.Ota.Layout.{app_offset, app_max_size, chunk_size, bootstate_a_offset}
use rp2040_eth_panel.Ota.Flash.{Flash, FlashDriver}
use rp2040_eth_panel.Ota.Recovery.{
  Session, chunk_rejected, padded_len, padded, program_chunk, receive_chunk,
}
use rp2040_eth_panel.Ota.Reader.{Input, read_exact}
use rp2040_eth_panel.Ota.Recovery.Frames.{read_exact-length}

-- `program_chunk` pads to whole pages.
pub padded_len_lem : (len : ℕ) → len ≤ chunk_size → padded_len len ≡ (len + 255) / 256 * 256
unfolding padded_len
padded_len_lem len h =
    let x = add32 len 255 in
    let e : x ≡ len + 255 = omega arith in
    let s = bit_and_shifted 8 (x / 256) (x % 256) 0xFFFFFF (omega arith) in
    let m = bit_and_mask 24 (x / 256) in
    let back : x / 256 * 256 + x % 256 ≡ x = omega arith in
    ap (λ (t : ℕ). bit_and t 0xFFFFFF00) (sym back)
    ∙ s
    ∙ ap (λ (t : ℕ). t * 256) m
    ∙ omega (arith, e)

length-padded :
    (bs : List ℕ) (len : ℕ)
    → len ≤ chunk_size
    → length bs ≡ len
    → length (padded bs len) ≡ (len + 255) / 256 * 256
unfolding padded
length-padded bs len h e =
    length-append bs (replicate (padded_len len - len) 0xFF)
    ∙ omega (arith, length-replicate {A = ℕ} (padded_len len - len) 0xFF, padded_len_lem len h)

-- A request that passes the test without wrapping lies in the slot.
pub record Accepted (off len : ℕ) : Type 0 where
  pub some_bytes : 0 < len
  pub one_chunk : len ≤ chunk_size
  pub in_slot : off + len ≤ app_max_size

pub chunk_Accepted :
    (off len : ℕ) → off + len < 2 ^ 32 → chunk_rejected off len ≡ false → Accepted off len
unfolding chunk_rejected
chunk_Accepted off len h e = ground arith

pub Accepted-passes : (off len : ℕ) → Accepted off len → chunk_rejected off len ≡ false
unfolding chunk_rejected
Accepted-passes off len a = ground arith

module _ (driver : FlashDriver) where
  open driver use {program, program_inside, program_outside}

  pub program_chunk-outside :
      (off len : ℕ) (bs : List ℕ) (f : Flash) (a : ℕ)
      → Accepted off len
      → off % 256 ≡ 0
      → length bs ≡ len
      → (a < app_offset + off) ⊎ (app_offset + off + (len + 255) / 256 * 256 ≤ a)
      → program_chunk driver off bs len f a ≡ f a
  unfolding program_chunk
  program_chunk-outside off len bs f a acc grid e h =
      let l = length-padded bs len acc.one_chunk e in
      let fits : off + (len + 255) / 256 * 256 ≤ app_max_size = omega (arith, acc) in
      program_outside f (add32 app_offset off) (padded bs len) a (omega (arith, fits))
        (omega (arith, l)) (omega (arith, l, fits)) (omega (arith, l, fits))

  pub program_chunk-inside :
      (off len : ℕ) (bs : List ℕ) (f : Flash) (i : ℕ)
      → Accepted off len
      → off % 256 ≡ 0
      → length bs ≡ len
      → i < (len + 255) / 256 * 256
      → f (app_offset + off + i) ≡ 255
      → program_chunk driver off bs len f (app_offset + off + i) ≡ get_or (padded bs len) i 255
  unfolding program_chunk
  program_chunk-inside off len bs f i acc grid e h blank =
      let l = length-padded bs len acc.one_chunk e in
      let fits : off + (len + 255) / 256 * 256 ≤ app_max_size = omega (arith, acc) in
      let t : add32 app_offset off ≡ app_offset + off = omega (arith, fits) in
      ap (λ (x : ℕ). program f x (padded bs len) (app_offset + off + i)) t
      ∙ (program_inside f (app_offset + off) (padded bs len) i (omega arith) (omega (arith, l))
          (omega (arith, l, fits)) (omega (arith, l)) blank)

  -- DATA leaves all but the application slot alone: the bootloader below it and the boot state
  -- above, for every request on the page grid whose end does not wrap, whatever else arrives.
  pub receive_chunk-outside :
      (s : Session) (off len ccrc : ℕ) (inp : Input) (a : ℕ)
      → off % 256 ≡ 0
      → off + len < 2 ^ 32
      → (a < app_offset) ⊎ (bootstate_a_offset ≤ a)
      → (receive_chunk driver s off len ccrc inp).0.flash a ≡ s.flash a
  unfolding receive_chunk
  receive_chunk-outside s off len ccrc inp a grid small h =
      elim (Bool-cases (chunk_rejected off len)) [
        | inl e ↦ rw e
        | inr e ↦ elim (Option-cases (read_exact len inp).0) [
          | inl t ↦ rw (e, t)
          | inr (bs, t) ↦ elim (Bool-cases (ota_crc32 bs == ccrc)) [
            | inl c ↦
                let acc = chunk_Accepted off len small e in
                rw (e, t, c)
                  (program_chunk-outside off len bs s.flash a acc grid
                    (read_exact-length len inp bs t) (beside acc h))
            | inr c ↦ rw (e, t, c)
          ]
        ]
      ]
    where
      beside :
          Accepted off len
          → (a < app_offset) ⊎ (bootstate_a_offset ≤ a)
          → (a < app_offset + off) ⊎ (app_offset + off + (len + 255) / 256 * 256 ≤ a)
      beside acc (inl p) = inl (omega arith)
      beside acc (inr p) = inr (omega (arith, acc))

-- The test wraps: every request of one chunk at most whose end passes 2^32 is accepted, and the
-- address that it is programmed at lies below the application slot, within one chunk of it.
pub chunk_rejected_wraps :
    (off len : ℕ)
    → off < 2 ^ 32
    → 2 ^ 32 ≤ off + len
    → 0 < len
    → len ≤ chunk_size
    → (chunk_rejected off len ≡ false)
      × (add32 app_offset off < app_offset)
      × (app_offset ≤ add32 app_offset off + chunk_size)
unfolding chunk_rejected
chunk_rejected_wraps off len p q r t = (ground arith, omega arith, omega arith)
