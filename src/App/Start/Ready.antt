-- ===== src/App/Start/Ready.antt =====
-- What the start of firmware/src/main.c leaves for its loop.
use rp2040_eth_panel.Prelude.{ℕ, ◌≡◌, refl, ◌∙◌, Bool, false, List, Two, length-replicate, arith}
use rp2040_eth_panel.Config.{NetConfig, ring_num_leds}
use rp2040_eth_panel.Rings.{rings_init}
use rp2040_eth_panel.Rings.Set.{rings_init-IsValid}
use rp2040_eth_panel.Rings.Flush.{show, rings_init-IsShown}
use rp2040_eth_panel.Net.Open.{rx_irq_enable-IsOpen}
use rp2040_eth_panel.Net.{idle_port}
use rp2040_eth_panel.Net.Bridge.{Trace}
use rp2040_eth_panel.Ota.Flash.{Flash, FlashDriver}
use rp2040_eth_panel.Buttons.{buttons_init, buttons_update}
use rp2040_eth_panel.Buttons.Pins.{buttons_hw_read}
use rp2040_eth_panel.App.Dispatch.{Panel}
use rp2040_eth_panel.App.Start.{start_up, dark_panel, device_of}
use rp2040_eth_panel.App.Loop.{Inputs, run}
use rp2040_eth_panel.App.Loop.Keeps.{
  IsStation, ShowsCommanded, flushed-IsShowing, shown_after, run-IsStation, buttons_update-debounce,
}

-- Whatever the chains showed at power-on, and whatever the bridge answers, the start ends in a state
-- between two passes, with both chains showing that the rings are off.
pub start_up-IsStation :
    (driver : FlashDriver) (chip : Trace → List ℕ) (config : NetConfig) (levels : Two Bool)
    (now_ms : ℕ) (flash : Flash) (power_on : Two (List ℕ))
    → let s = start_up driver chip config levels now_ms flash in
      IsStation (show power_on s.frames) s.station
      × ShowsCommanded (show power_on s.frames) s.station.panel.rings
unfolding start_up dark_panel
start_up-IsStation driver chip config levels now_ms flash power_on =
    let fresh : Panel = record {
      rings = rings_init ring_num_leds;
      buttons = (buttons_update (buttons_init 30) (buttons_hw_read levels) now_ms 0).0;
      debounce_ms = 30;
      lamp = false;
      update_requested = false;
    } in
    let initial : (buttons_init 30).debounce_ms ≡ 30 = unfold buttons_init in refl in
    let window =
      buttons_update-debounce (buttons_init 30) (buttons_hw_read levels) now_ms 0 ∙ initial in
    let (showing, clean) = flushed-IsShowing power_on fresh (record {
      panel_ok = record {
        rings_ok = rings_init-IsValid ring_num_leds;
        window_lo = omega arith;
        window_hi = omega arith;
        window_set = window;
      };
      leds_fit = unfold rings_init in omega arith;
      rings_shown = rings_init-IsShown ring_num_leds power_on;
    }) in
    (
      record {
        showing = showing;
        port_open = (rx_irq_enable-IsOpen idle_port (length-replicate {A = ℕ} 2048 0) refl refl).0;
        held = record { fits = omega arith; one_line = tt };
      },
      clean,
    )

-- From power-on, whatever the chains showed then, whatever the bridge answers to its configuration,
-- and whatever the pins, the clock and the network give to any number of passes of the main loop:
-- the state is one of those between two passes, with its bounds, and unless an update has been
-- requested both chains show what is commanded.
pub start_up-run :
    (driver : FlashDriver) (chip : Trace → List ℕ) (config : NetConfig) (levels : Two Bool)
    (now_ms : ℕ) (flash : Flash) (power_on : Two (List ℕ)) (is : List Inputs)
    → let s = start_up driver chip config levels now_ms flash in
      let (s', outs) = run (device_of s.status) is s.station in
      let shown = shown_after (show power_on s.frames) outs in
      IsStation shown s' × (s'.panel.update_requested ≡ false → ShowsCommanded shown s'.panel.rings)
start_up-run driver chip config levels now_ms flash power_on is =
    let s = start_up driver chip config levels now_ms flash in
    let (h, clean) = start_up-IsStation driver chip config levels now_ms flash power_on in
    run-IsStation (device_of s.status) is (show power_on s.frames) s.station h (λ _. clean)
