-- ===== src/Buttons/Pins.antt =====
-- firmware/src/buttons/buttons_hw.c: the pins of the buttons, which are low while pressed.
use rp2040_eth_panel.Prelude.{Bool, not, Two}

abbrev pub buttons_hw_read : Two Bool → Two Bool
buttons_hw_read levels = record { first = not levels.first; second = not levels.second }
