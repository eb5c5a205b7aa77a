-- ===== src/Rings/Pixel.antt =====
-- Brightness and pixel words of firmware/src/rings/rings.c.
use rp2040_eth_panel.Prelude.{
  ℕ, zero, suc, ◌+◌, ◌*◌, ◌^◌, ◌≤◌, ◌<◌, ◌≡◌, ◌↔◌, ◌≢◌, refl, ap, ◌∙◌, bit_or, none, some, entry,
  List, length, replicate, length-replicate, All, arith,
}
use rp2040_eth_panel.Prelude.Bits.{bit_or_fields}
use rp2040_eth_panel.Rings.{
  Rings, RingOrder, grb, rgb, rings_scale, rings_pixel_word, rings_render, pack_bytes,
}

product-le : (c d : ℕ) → c < 256 → d < 256 → c * d ≤ 255 * 255
product-le c d p q = grind arith

-- A scaled channel is a byte.
pub rings_scale-lt : (c d : ℕ) → rings_scale c d < 256
unfolding rings_scale
rings_scale-lt c d = omega arith

-- For bytes, the scaled channel is `c * brightness / 255` rounded to the nearest integer: off by
-- at most 127/255. At full brightness it is the channel itself and at none it is 0, and it does
-- not fall when the channel grows.
pub rings_scale_nearest :
    (c d : ℕ)
    → c < 256
    → d < 256
    → (255 * rings_scale c d ≤ c * d + 127)
      × (c * d ≤ 255 * rings_scale c d + 127)
      × (rings_scale c 255 ≡ c)
      × (rings_scale c 0 ≡ 0)
      × ((c' : ℕ) → c ≤ c' → c' < 256 → rings_scale c d ≤ rings_scale c' d)
unfolding rings_scale
rings_scale_nearest c d p q = (
  omega (arith, product-le c d p q),
  omega (arith, product-le c d p q),
  omega arith,
  omega arith,
  λ c' h r. omega (arith, product-le c d p q, product-le c' d r q, mul_mono c' h),
)
  where
    mul_mono : (c' : ℕ) → c ≤ c' → c * d ≤ c' * d
    mul_mono c' h = grind arith

pack_bytes_sum : (x y z : ℕ) → y < 256 → z < 256 → pack_bytes x y z ≡ x * 65536 + y * 256 + z
pack_bytes_sum x y z p q =
    ap (λ (t : ℕ). bit_or t z) high ∙ bit_or_fields 8 (x * 256 + y) z q ∙ omega arith
  where
    high : bit_or (x * 2 ^ 16) (y * 2 ^ 8) ≡ (x * 256 + y) * 2 ^ 8
    high = omega (arith, bit_or_fields 16 x (y * 2 ^ 8) (omega arith))

-- A pixel word holds the three scaled channels, most significant byte first: green, red, blue for
-- a GRB chain and red, green, blue for an RGB one; nothing stands above them.
pub rings_pixel_word_bytes :
    (rs : Rings) (i : ℕ)
    → let s = entry rs.st i in
      let r = rings_scale s.r s.brightness in
      let g = rings_scale s.g s.brightness in
      let b = rings_scale s.b s.brightness in
      (rings_pixel_word rs i grb ≡ g * 65536 + r * 256 + b)
      × (rings_pixel_word rs i rgb ≡ r * 65536 + g * 256 + b)
      × (rings_pixel_word rs i grb < 2 ^ 24)
      × (rings_pixel_word rs i rgb < 2 ^ 24)
unfolding rings_pixel_word
rings_pixel_word_bytes rs i =
    let s = entry rs.st i in
    let r = rings_scale s.r s.brightness in
    let g = rings_scale s.g s.brightness in
    let b = rings_scale s.b s.brightness in
    let hr : r < 256 = rings_scale-lt s.r s.brightness in
    let hg : g < 256 = rings_scale-lt s.g s.brightness in
    let hb : b < 256 = rings_scale-lt s.b s.brightness in
    let packed_grb : pack_bytes g r b ≡ g * 65536 + r * 256 + b = pack_bytes_sum g r b hr hb in
    let packed_rgb : pack_bytes r g b ≡ r * 65536 + g * 256 + b = pack_bytes_sum r g b hg hb in
    (
      packed_grb,
      packed_rgb,
      omega (arith, packed_grb, hr, hg, hb),
      omega (arith, packed_rgb, hr, hg, hb),
    )

All-replicate : (n w : ℕ) → All (λ v. v ≡ w) (replicate n w)
All-replicate zero w = tt
All-replicate (suc n) w = (refl, All-replicate n w)

-- A frame is rendered exactly when the index is a ring's and the buffer holds its LEDs; it then
-- has one word for each LED, each the ring's pixel word.
pub rings_render_lem :
    (rs : Rings) (i : ℕ) (order : RingOrder) (max_words : ℕ)
    → ((rings_render rs i order max_words ≢ none) ↔ ((i < 2) × (entry rs.nleds i ≤ max_words)))
      × ((words : List ℕ)
          → rings_render rs i order max_words ≡ some words
          → (length words ≡ entry rs.nleds i) × All (λ w. w ≡ rings_pixel_word rs i order) words)
unfolding rings_render
rings_render_lem rs i order max_words =
    let w = rings_pixel_word rs i order in
    let n = entry rs.nleds i in
    (
      (λ h. ground arith, λ h. ground arith),
      λ words e.
          let f : words ≡ replicate n w = ground arith in
          (rw f (length-replicate n w), rw f (All-replicate n w)),
    )
