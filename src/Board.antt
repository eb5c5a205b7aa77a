-- ===== src/Board.antt =====
-- The set-up of the pins that `main` of firmware/src/main.c does: `status_led_init` of
-- firmware/src/status_led/status_led.c, `buttons_hw_init` of firmware/src/buttons/buttons_hw.c and
-- `rings_hw_init` of firmware/src/rings/rings_hw.c, and then `net_init`. As in Net/Bridge, the state
-- is the trace of the calls, the newest first.
pub mod Pins
use rp2040_eth_panel.Prelude.{ℕ, suc, ◌+◌, false, List, [], ◌∷◌}
use rp2040_eth_panel.Config.{NetConfig, ring_pins, button_pins, lamp_pin, status_led_pin}
use rp2040_eth_panel.Net.Bridge.{
  Trace, gpio_init, gpio_set_input, gpio_set_output, gpio_pull_up, gpio_put, pio_add_program,
  ws2812_program_init, net_init,
}

-- The loop of `buttons_hw_init`.
unfoldable pub set_up_buttons : List ℕ → Trace → Trace
set_up_buttons [] t = t
set_up_buttons (pin ∷ pins) t =
    set_up_buttons pins (gpio_pull_up pin ∷ gpio_set_input pin ∷ gpio_init pin ∷ t)

unfoldable pub buttons_hw_init : Trace → Trace
buttons_hw_init t =
    gpio_put lamp_pin false
    ∷ gpio_set_output lamp_pin
    ∷ gpio_init lamp_pin
    ∷ set_up_buttons button_pins t

-- Where the driver lies in the program memory of a PIO, as `pio_add_program` returns it.
module _ (offset : ℕ → ℕ) where
  -- `pio0` is for the status LED and `pio1` for the rings; 800000 is the rate.
  unfoldable pub status_led_init : Trace → Trace
  status_led_init t =
      ws2812_program_init 0 0 (offset 0) status_led_pin 800000 false ∷ pio_add_program 0 ∷ t

  -- The loop of `rings_hw_init`, from a state machine on.
  unfoldable pub set_up_rings : ℕ → List ℕ → Trace → Trace
  set_up_rings sm [] t = t
  set_up_rings sm (pin ∷ pins) t =
      set_up_rings (sm + 1) pins (ws2812_program_init 1 sm (offset 1) pin 800000 false ∷ t)

  unfoldable pub rings_hw_init : Trace → Trace
  rings_hw_init t = set_up_rings 0 ring_pins (pio_add_program 1 ∷ t)

  -- All of it, in the order of `main`.
  unfoldable pub set_up : (Trace → List ℕ) → NetConfig → Trace
  set_up chip c = (net_init chip c (rings_hw_init (buttons_hw_init (status_led_init [])))).1
