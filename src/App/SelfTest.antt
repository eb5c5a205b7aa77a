-- ===== src/App/SelfTest.antt =====
-- The self-test build of firmware/src/main.c (`RING_SELFTEST`): red, green and blue on both rings, and
-- the lamp on button 1.
pub mod Colours
use rp2040_eth_panel.Prelude.{
  ℕ, ◌+◌, ◌%◌, Bool, true, false, List, [], ◌∷◌, Two, both, get_or, if◌then◌else◌,
}
use rp2040_eth_panel.Prelude.Int.{pos}
use rp2040_eth_panel.Rings.{Rings, rings_set}
use rp2040_eth_panel.Rings.Flush.{Frame, rings_flush}
use rp2040_eth_panel.Buttons.Pins.{buttons_hw_read}

-- `cols` and `dwell`.
abbrev pub cols : List (List ℕ)
cols = (255 ∷ 0 ∷ 0 ∷ []) ∷ (0 ∷ 255 ∷ 0 ∷ []) ∷ (0 ∷ 0 ∷ 255 ∷ []) ∷ []

abbrev pub dwell : List ℕ
dwell = 1000 ∷ 2000 ∷ 4000 ∷ []

-- The variables of the block, with the rings and the lamp; `wait` is the delay behind `next`.
pub record SelfTest : Type 0 where
  pub rings : Rings
  pub lamp : Bool
  pub i : ℕ
  pub wait : ℕ
  pub last : Two Bool

-- What it starts with, behind the first flush.
abbrev pub test_start : Rings → SelfTest
test_start rs = record { rings = rs; lamp = false; i = 0; wait = 0; last = both false }

-- Both rings in colour `i`.
unfoldable pub set_both : ℕ → Rings → Rings
set_both i rs =
    let c = get_or cols i [] in
    let r = pos (get_or c 0 0) in
    let g = pos (get_or c 1 0) in
    let b = pos (get_or c 2 0) in
    let rs1 = (rings_set rs (pos 0) r g b (pos 255)).1 in (rings_set rs1 (pos 1) r g b (pos 255)).1

-- A pass of the loop: whether the deadline has passed, and the levels of the pins.
unfoldable pub test_pass : Bool → Two Bool → SelfTest → SelfTest × List Frame
test_pass due levels s =
    let s1 : SelfTest =
      if due
      then record s { rings = set_both s.i s.rings; wait = get_or dwell s.i 0; i = (s.i + 1) % 3 }
      else s in
    let (rings, frames) = rings_flush s1.rings in
    let raw = buttons_hw_read levels in
    (record s1 { rings = rings; lamp = raw.first; last = raw }, frames)
