-- ===== src/App/Loop.antt =====
-- firmware/src/main.c: the super-loop, one function for a pass through its body.
pub mod Linger
pub mod Keeps
pub mod Connect
pub mod Drain
use rp2040_eth_panel.Prelude.{
  ℕ, Bool, true, false, not, ◌&&◌, List, [], ◌∷◌, ◌++◌, Two, if◌then◌else◌,
}
use rp2040_eth_panel.Buttons.{ButtonEvent, buttons_update}
use rp2040_eth_panel.Buttons.Pins.{buttons_hw_read}
use rp2040_eth_panel.Rings.Flush.{Frame, rings_flush}
use rp2040_eth_panel.StatusLed.{StatusLed, status_led_task}
use rp2040_eth_panel.Net.{Port, arrive, linger, net_read, net_rx_flush}
use rp2040_eth_panel.Protocol.Format.{proto_fmt_btn}
use rp2040_eth_panel.App.{LineBuf, empty_line}
use rp2040_eth_panel.App.Dispatch.{Panel, Device, send_line, send_hello, receive}

-- The variables of the parts, and those of `main`.
pub record Station : Type 0 where
  pub panel : Panel
  pub led : StatusLed
  pub port : Port
  pub line : LineBuf
  pub peer_was_connected : Bool

-- What the hardware gives to a pass: whether the LED's deadline has passed, the level of TCPS, the
-- levels of the button pins, the time, and the bytes that the network brings: those that the
-- interrupt moves into the ring before the point at which a new peer flushes the port, those that are
-- in the hardware FIFO at this point, and those that reach it afterwards and before the read. What
-- the FIFO holds at the read counts as brought to the next pass.
pub record Inputs : Type 0 where
  pub led_due : Bool
  pub tcps : Bool
  pub levels : Two Bool
  pub now_ms : ℕ
  pub early : List ℕ
  pub lingering : List ℕ
  pub late : List ℕ

-- The words to the status LED, the bytes to the peer, and the frames to the rings.
pub record Outputs : Type 0 where
  pub led_words : List ℕ
  pub sent : List ℕ
  pub frames : List Frame

-- `sizeof(rxbuf)`
abbrev pub rxbuf_size : ℕ
rxbuf_size = 128

-- The pin is low while a peer is connected.
abbrev pub net_peer_connected : Bool → Bool
net_peer_connected tcps = not tcps

-- The loop over the events of a pass.
unfoldable pub send_events : ℕ → List ButtonEvent → List ℕ
send_events now_ms [] = []
send_events now_ms (e ∷ es) =
    send_line (proto_fmt_btn 64 e.id e.pressed now_ms) ++ send_events now_ms es

-- Sample, debounce, report; the buffer holds four events.
unfoldable pub scan_buttons : Two Bool → ℕ → Panel → Panel × List ℕ
scan_buttons levels now_ms p =
    let (bs, evs) = buttons_update p.buttons (buttons_hw_read levels) now_ms 4 in
    (record p { buttons = bs }, send_events now_ms evs)

-- Behind the commands. It is not reached once an update is requested.
unfoldable pub push_frames : Panel → Panel × List Frame
push_frames p =
    let (rings, frames) = rings_flush p.rings in
    if p.update_requested then (p, []) else (record p { rings = rings }, frames)

module _ (device : Device) where
  -- A new peer: drop what the previous one left, and say hello.
  unfoldable pub greet : Bool → Station → Station × List ℕ
  greet peer s =
      if peer && not s.peer_was_connected
      then (
        record s { port = net_rx_flush s.port; line = empty_line; peer_was_connected = peer },
        send_hello device s.panel,
      )
      else (record s { peer_was_connected = peer }, [])

  unfoldable pub read_commands : Station → Station × List ℕ
  read_commands s =
      let (bytes, port) = net_read rxbuf_size s.port in
      let (panel, line, out) = receive device bytes s.line s.panel in
      (record s { panel = panel; port = port; line = line }, out)

  unfoldable pub pass : Inputs → Station → Station × Outputs
  pass i s =
      let (led, words) = status_led_task i.led_due s.led in
      let s0 : Station = record s {
        led = led;
        port = linger (arrive s.port i.early) i.lingering;
      } in
      let (s1, hello) = greet (net_peer_connected i.tcps) s0 in
      let (p2, events) = scan_buttons i.levels i.now_ms s1.panel in
      let s2 : Station = record s1 { panel = p2; port = arrive s1.port i.late } in
      let (s3, answers) = read_commands s2 in
      let (p4, frames) = push_frames s3.panel in
      (
        record s3 { panel = p4 },
        record { led_words = words; sent = hello ++ (events ++ answers); frames = frames },
      )

  -- `while (true)`, as long as inputs are given; the request of an update ends it.
  unfoldable pub run : List Inputs → Station → Station × List Outputs
  run [] s = (s, [])
  run (i ∷ is) s =
      let rest = run is (pass i s).0 in
      if s.panel.update_requested then (s, []) else (rest.0, (pass i s).1 ∷ rest.1)
