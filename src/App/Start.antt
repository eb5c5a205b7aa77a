-- ===== src/App/Start.antt =====
-- firmware/src/main.c: from the entry of `main` to its loop.
pub mod Ready
use rp2040_eth_panel.Prelude.{
  ℕ, Bool, true, false, List, [], ◌∷◌, ◌++◌, Two, get_or, both, replicate, if◌then◌else◌,
}
use rp2040_eth_panel.Config.{NetConfig, fw_version, ring_num_leds, debounce_ms_default}
use rp2040_eth_panel.Buttons.{buttons_init, buttons_update}
use rp2040_eth_panel.Buttons.Pins.{buttons_hw_read}
use rp2040_eth_panel.Rings.{rings_init}
use rp2040_eth_panel.Rings.Flush.{Frame, rings_flush}
use rp2040_eth_panel.StatusLed.{
  StatusLed, st_pulse_on, led_off, status_led_solid, status_led_set_color, status_led_show_octet,
}
use rp2040_eth_panel.Net.{idle_port, rx_irq_enable}
use rp2040_eth_panel.Net.Bridge.{Trace, NetStatus, net_init}
use rp2040_eth_panel.Ota.Flash.{Flash, FlashDriver}
use rp2040_eth_panel.Ota.Boot.{ota_confirm}
use rp2040_eth_panel.App.{empty_line}
use rp2040_eth_panel.App.Dispatch.{Panel, Device}
use rp2040_eth_panel.App.Loop.{Station}

-- The initial values of the status LED's variables.
abbrev pub dim_green : StatusLed
dim_green = record {
  r = 0;
  g = 40;
  b = 0;
  digits = 0 ∷ 0 ∷ 0 ∷ [];
  ndigits = 1;
  di = 0;
  pulses_done = 0;
  pulses_target = 0;
  zero_digit = false;
  phase = st_pulse_on;
  wait = 0;
}

-- What `send_hello` takes from the network status.
abbrev pub device_of : NetStatus → Device
device_of st = record {
  version = fw_version;
  nleds = ring_num_leds;
  ip = record {
    first = record { first = get_or st.ip 0 0; second = get_or st.ip 1 0 };
    second = record { first = get_or st.ip 2 0; second = get_or st.ip 3 0 };
  };
}

-- Green for DHCP, amber for a static address, and the flashing of its last octet.
unfoldable pub show_network : NetStatus → StatusLed → StatusLed × List ℕ
show_network st led =
    status_led_show_octet (get_or st.ip 3 0)
      (if st.dhcp_mode then status_led_set_color 0 40 0 led else status_led_set_color 40 20 0 led)

-- The panel in front of the network: no button seen yet, the rings dark and pushed once.
unfoldable pub dark_panel : Panel × List Frame
dark_panel =
    let (rings, frames) = rings_flush (rings_init ring_num_leds) in
    (
      record {
        rings = rings;
        buttons = buttons_init debounce_ms_default;
        debounce_ms = debounce_ms_default;
        lamp = false;
        update_requested = false;
      },
      frames,
    )

-- What the start leaves: the station for the loop, the network status, the flash, and what was sent
-- to the status LED and the rings.
pub record Started : Type 0 where
  pub station : Station
  pub status : NetStatus
  pub flash : Flash
  pub led_words : List ℕ
  pub frames : List Frame

unfoldable pub start_up :
    FlashDriver → (Trace → List ℕ) → NetConfig → Two Bool → ℕ → Flash → Started
start_up driver chip config levels now_ms flash =
    let (panel, frames) = dark_panel in
    let st = (net_init chip config []).0 in
    let (led, words) = show_network st dim_green in
    let flash' = if st.responding then ota_confirm driver flash else flash in
    let buttons = (buttons_update panel.buttons (buttons_hw_read levels) now_ms 0).0 in
    record {
      station = record {
        panel = record panel { buttons = buttons };
        led = led;
        port = rx_irq_enable idle_port;
        line = empty_line;
        peer_was_connected = false;
      };
      status = st;
      flash = flash';
      led_words = led_off ∷ (status_led_solid 0 0 60 ++ words);
      frames = frames;
    }
