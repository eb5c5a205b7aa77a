-- ===== src/Config.antt =====
-- firmware/src/config.h: the values that the modelled code takes from it.
use rp2040_eth_panel.Prelude.{ℕ, Bool, true, List, [], ◌∷◌, Two, both}
use rp2040_eth_panel.Prelude.Text.{codes}

abbrev pub fw_version : List ℕ
fw_version = codes "1.0.3"

abbrev pub ch9120_pin_tx : ℕ
ch9120_pin_tx = 20

abbrev pub ch9120_pin_rx : ℕ
ch9120_pin_rx = 21

abbrev pub ch9120_pin_cfg : ℕ
ch9120_pin_cfg = 18

abbrev pub ch9120_pin_rst : ℕ
ch9120_pin_rst = 19

abbrev pub ch9120_pin_tcps : ℕ
ch9120_pin_tcps = 17

abbrev pub ch9120_cfg_baud : ℕ
ch9120_cfg_baud = 9600

abbrev pub ch9120_data_baud : ℕ
ch9120_data_baud = 115200

-- The network role and addressing that a build selects.
pub record NetConfig : Type 0 where
  pub net_mode : ℕ
  pub net_use_dhcp : Bool
  pub net_local_ip : List ℕ
  pub net_subnet : List ℕ
  pub net_gateway : List ℕ
  pub net_local_port : ℕ

-- The selection in the file.
abbrev pub net_config : NetConfig
net_config = record {
  net_mode = 0;
  net_use_dhcp = true;
  net_local_ip = 10 ∷ 74 ∷ 31 ∷ 251 ∷ [];
  net_subnet = 255 ∷ 255 ∷ 252 ∷ 0 ∷ [];
  net_gateway = 10 ∷ 74 ∷ 28 ∷ 1 ∷ [];
  net_local_port = 5005;
}

-- `RING1_PIN` and `RING2_PIN`.
abbrev pub ring_pins : List ℕ
ring_pins = 2 ∷ 3 ∷ []

-- `BUTTON1_PIN` and `BUTTON2_PIN`.
abbrev pub button_pins : List ℕ
button_pins = 4 ∷ 5 ∷ []

abbrev pub lamp_pin : ℕ
lamp_pin = 6

abbrev pub status_led_pin : ℕ
status_led_pin = 25

-- `RING1_NUM_LEDS` and `RING2_NUM_LEDS`.
abbrev pub ring_num_leds : Two ℕ
ring_num_leds = both 16

abbrev pub debounce_ms_default : ℕ
debounce_ms_default = 30
