-- ===== src/Board/Pins.antt =====
-- What the set-up of the panel does with the pins.
use rp2040_eth_panel.Prelude.{map, ℕ, ◌≡◌, ◌≢◌, refl, Bool, true, false, List, [], ◌∷◌, All, arith}
use rp2040_eth_panel.Config.{NetConfig, lamp_pin}
use rp2040_eth_panel.Net.Bridge.{
  Trace, gpio_set_function_uart, gpio_set_output, gpio_pull_up, ws2812_program_init, net_init,
  configure, reset_chip, enter_config, exit_config, set_addresses, read_back, commit, tx_cmd,
  rd_cmd, rx_bytes,
}
use rp2040_eth_panel.Net.Bridge.Line.{level_of}
use rp2040_eth_panel.Board.{
  set_up_buttons, buttons_hw_init, status_led_init, set_up_rings, rings_hw_init, set_up,
}

-- What a pin is given to.
pub data Role : Type 0 where
  input_up output uart : Role
  chain : ℕ → ℕ → Role

-- The pins that are given to a part, with their roles, the newest first.
abbrev pub roles_of : Trace → List (ℕ × Role)
roles_of [] = []
roles_of (gpio_set_function_uart pin ∷ t) = (pin, uart) ∷ roles_of t
roles_of (gpio_pull_up pin ∷ t) = (pin, input_up) ∷ roles_of t
roles_of (gpio_set_output pin ∷ t) = (pin, output) ∷ roles_of t
roles_of (ws2812_program_init pio sm off pin freq rgbw ∷ t) = (pin, chain pio sm) ∷ roles_of t
roles_of (_ ∷ t) = roles_of t

module _ (chip : Trace → List ℕ) where
  net_init-roles :
      (c : NetConfig) (b : Bool) (t : Trace)
      → c.net_use_dhcp ≡ b
      → roles_of (net_init chip c t).1
        ≡ (17, input_up) ∷ (19, output) ∷ (18, output) ∷ (21, uart) ∷ (20, uart) ∷ roles_of t
  unfolding net_init configure reset_chip enter_config exit_config set_addresses read_back commit
      tx_cmd rd_cmd rx_bytes
  net_init-roles c true t e = rw e refl
  net_init-roles c false t e = rw e refl

  net_init-level :
      (c : NetConfig) (b : Bool) (t : Trace)
      → c.net_use_dhcp ≡ b
      → level_of lamp_pin (net_init chip c t).1 ≡ level_of lamp_pin t
  unfolding net_init configure reset_chip enter_config exit_config set_addresses read_back commit
      tx_cmd rd_cmd rx_bytes
  net_init-level c true t e = rw e refl
  net_init-level c false t e = rw e refl

-- The wiring of the board: the bridge on GPIO 17 to 21, the rings on 2 and 3, the buttons on 4 and 5,
-- the lamp on 6 and the status LED on 25, which has a PIO of its own.
abbrev pub wiring : List (ℕ × Role)
wiring =
    (17, input_up)
    ∷ (19, output)
    ∷ (18, output)
    ∷ (21, uart)
    ∷ (20, uart)
    ∷ (3, chain 1 1)
    ∷ (2, chain 1 0)
    ∷ (6, output)
    ∷ (5, input_up)
    ∷ (4, input_up)
    ∷ (25, chain 0 0)
    ∷ []

abbrev pub AreDistinct : List ℕ → Type 0
AreDistinct [] = Unit
AreDistinct (x ∷ xs) = All (λ y. x ≢ y) xs × AreDistinct xs

-- The set-up of `main`, for every network configuration, whatever the bridge answers and wherever the
-- driver is loaded: every pin of the wiring is given to its part, no pin is given twice, the two
-- rings and the status LED have three state machines, the buttons are inputs with pull-ups, and the
-- lamp is driven low.
pub set_up_lem :
    (offset : ℕ → ℕ) (chip : Trace → List ℕ) (c : NetConfig)
    → let t = set_up offset chip c in
      (roles_of t ≡ wiring)
      × AreDistinct (map (λ (r : ℕ × Role). r.0) (roles_of t))
      × (level_of lamp_pin t ≡ false)
unfolding set_up rings_hw_init set_up_rings buttons_hw_init set_up_buttons status_led_init
set_up_lem offset chip c =
    let before = rings_hw_init offset (buttons_hw_init (status_led_init offset [])) in
    let roles : roles_of (set_up offset chip c) ≡ wiring =
      net_init-roles chip c c.net_use_dhcp before refl in
    (roles, rw roles (omega arith), net_init-level chip c c.net_use_dhcp before refl)
