-- ===== src/Net/Bridge/Line.antt =====
-- The line to the CH9120 after a trace of calls of firmware/src/net/net.c: its rate, the pins that the
-- firmware drives, and the frames that were written.
use rp2040_eth_panel.Prelude.{ℕ, ◌≡◌, Bool, true, false, List, [], ◌∷◌, ◌++◌, ◌==◌, if◌then◌else◌}
use rp2040_eth_panel.Config.{ch9120_pin_cfg, ch9120_pin_rst, ch9120_cfg_baud, ch9120_data_baud}
use rp2040_eth_panel.Net.Bridge.{
  uart_init, uart_set_baudrate, gpio_init, gpio_put, uart_write, Trace,
}

-- The baud rate of the line.
abbrev pub baud_of : Trace → ℕ
baud_of [] = 0
baud_of (uart_init baud ∷ t) = baud
baud_of (uart_set_baudrate baud ∷ t) = baud
baud_of (_ ∷ t) = baud_of t

-- The level that a pin drives; `gpio_init` clears it.
abbrev pub level_of : ℕ → Trace → Bool
level_of pin [] = false
level_of pin (gpio_put p level ∷ t) = if p == pin then level else level_of pin t
level_of pin (gpio_init p ∷ t) = if p == pin then false else level_of pin t
level_of pin (_ ∷ t) = level_of pin t

-- The frames written, in order.
abbrev pub frames_of : Trace → List (List ℕ)
frames_of [] = []
frames_of (uart_write frame ∷ t) = frames_of t ++ (frame ∷ [])
frames_of (_ ∷ t) = frames_of t

-- The chip takes commands: the fixed rate, CFG low, not in reset.
abbrev pub InConfigMode : Trace → Type 0
InConfigMode t =
    (baud_of t ≡ ch9120_cfg_baud)
    × (level_of ch9120_pin_cfg t ≡ false)
    × (level_of ch9120_pin_rst t ≡ true)

-- The line is a transparent pipe: the data rate, CFG high, not in reset.
abbrev pub InDataMode : Trace → Type 0
InDataMode t =
    (baud_of t ≡ ch9120_data_baud)
    × (level_of ch9120_pin_cfg t ≡ true)
    × (level_of ch9120_pin_rst t ≡ true)

-- Every frame was written while the chip took commands.
abbrev pub SentInConfigMode : Trace → Type 0
SentInConfigMode [] = Unit
SentInConfigMode (uart_write frame ∷ t) = InConfigMode t × SentInConfigMode t
SentInConfigMode (_ ∷ t) = SentInConfigMode t
