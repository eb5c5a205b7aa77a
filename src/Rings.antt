-- ===== src/Rings.antt =====
-- firmware/src/rings/rings.{h,c}: the commanded colours of the two WS2812 rings.
pub mod Set
pub mod Pixel
pub mod Flush
use rp2040_eth_panel.Prelude.{
  ℕ, zero, suc, ◌+◌, ◌*◌, ◌/◌, ◌%◌, ◌^◌, bit_or, Bool, true, false, not, ◌&&◌, ◌||◌, List, Option,
  none, some, Two, entry, update, both, ltb, leb, ◌==◌, u8, ◌<<<◌, if◌then◌else◌, replicate,
}
use rp2040_eth_panel.Prelude.Int.{ℤ, pos, negsuc, is_minus_one, in_bounds, to_nat}

-- `ring_order_t`
pub data RingOrder : Type 0 where
  grb rgb : RingOrder

-- `ring_state_t`: four `uint8_t`.
pub record RingState : Type 0 where
  pub r : ℕ
  pub g : ℕ
  pub b : ℕ
  pub brightness : ℕ

-- `rings_t`
pub record Rings : Type 0 where
  pub st : Two RingState
  pub nleds : Two ℕ
  pub dirty : Two Bool

unfoldable pub rings_init : Two ℕ → Rings
rings_init nleds = record {
  st = both (record { r = 0; g = 0; b = 0; brightness = 255 });
  nleds = nleds;
  dirty = both true;
}

unfoldable pub in_range : ℤ → Bool
in_range v = in_bounds 0 255 v

-- An argument that is present and out of range.
abbrev pub out_of_range : ℤ → Bool
out_of_range v = not (is_minus_one v) && not (in_range v)

-- `if (v != -1) field = (uint8_t)v;`
abbrev pub given_or : ℤ → ℕ → ℕ
given_or v old = if is_minus_one v then old else u8 (to_nat v)

-- The new state of a ring for the arguments of `rings_set`.
abbrev pub next_state : RingState → ℤ → ℤ → ℤ → ℤ → RingState
next_state s r g b brightness = record {
  r = given_or r s.r;
  g = given_or g s.g;
  b = given_or b s.b;
  brightness = given_or brightness s.brightness;
}

-- `memcmp(&next, &rs->st[idx], sizeof(next)) == 0`: the struct is four bytes with no padding.
abbrev pub same_state : RingState → RingState → Bool
same_state s t = s.r == t.r && s.g == t.g && s.b == t.b && s.brightness == t.brightness

-- The part of `rings_set` behind its range tests.
unfoldable pub store_state : Rings → ℕ → RingState → Rings
store_state rs i next =
    if same_state next (entry rs.st i)
    then rs
    else record rs { st = update rs.st i next; dirty = update rs.dirty i true }

unfoldable pub rings_set : Rings → ℤ → ℤ → ℤ → ℤ → ℤ → Bool × Rings
rings_set rs idx r g b brightness =
    if not (in_bounds 0 1 idx)
    then (false, rs)
    else if out_of_range r || out_of_range g || out_of_range b || out_of_range brightness
    then (false, rs)
    else (
      true,
      store_state rs (to_nat idx) (next_state (entry rs.st (to_nat idx)) r g b brightness),
    )

unfoldable pub rings_scale : ℕ → ℕ → ℕ
rings_scale c brightness = u8 ((c * brightness + 127) / 255)

-- Three bytes in wire order, the first one highest.
abbrev pack_bytes : ℕ → ℕ → ℕ → ℕ
pack_bytes x y z = bit_or (bit_or (x <<< 16) (y <<< 8)) z

unfoldable pub pixel_of : RingOrder → RingState → ℕ
pixel_of grb s =
    pack_bytes (rings_scale s.g s.brightness) (rings_scale s.r s.brightness)
      (rings_scale s.b s.brightness)
pixel_of rgb s =
    pack_bytes (rings_scale s.r s.brightness) (rings_scale s.g s.brightness)
      (rings_scale s.b s.brightness)

unfoldable pub rings_pixel_word : Rings → ℕ → RingOrder → ℕ
unfolding pixel_of
rings_pixel_word rs idx order = pixel_of order (entry rs.st idx)

-- The words written and their count's sign: `none` is -1.
unfoldable pub rings_render : Rings → ℕ → RingOrder → ℕ → Option (List ℕ)
rings_render rs idx order max_words =
    if leb 2 idx
    then none
    else if ltb max_words (entry rs.nleds idx)
    then none
    else some (replicate (entry rs.nleds idx) (rings_pixel_word rs idx order))

unfoldable pub rings_clear_dirty : Rings → ℕ → Rings
rings_clear_dirty rs idx = if ltb idx 2 then record rs { dirty = update rs.dirty idx false } else rs
