-- ===== src/App/Loop/Connect.antt =====
-- A new connection in the main loop of firmware/src/main.c: what of the previous peer is left.
use rp2040_eth_panel.Prelude.{
  ℕ, ◌≡◌, ap, ap₂, ◌∙◌, Bool, true, false, not, ◌&&◌, if◌then◌else◌, List, [], ◌++◌, take, drop,
}
use rp2040_eth_panel.Net.{arrive, net_rx_flush}
use rp2040_eth_panel.Net.Ring.{waiting, enqueue_all}
use rp2040_eth_panel.Net.Open.{IsOpen, arrive-IsOpen, net_read-IsOpen, net_rx_flush-IsOpen}
use rp2040_eth_panel.StatusLed.{status_led_task}
use rp2040_eth_panel.App.{empty_line}
use rp2040_eth_panel.App.Dispatch.{Panel, Device, send_hello, receive}
use rp2040_eth_panel.App.Loop.Linger.{pass-eq-moved_pass}
use rp2040_eth_panel.App.Loop.{
  Station, Inputs, scan_buttons, push_frames, greet, read_commands, pass, net_peer_connected,
  rxbuf_size,
}

greet_new :
    (device : Device) (peer : Bool) (s : Station)
    → peer ≡ true
    → s.peer_was_connected ≡ false
    → greet device peer s ≡ (
      record s { port = net_rx_flush s.port; line = empty_line; peer_was_connected = peer },
      send_hello device s.panel,
    )
unfolding greet
greet_new device peer s p q =
    let s1 : Station = record s {
      port = net_rx_flush s.port;
      line = empty_line;
      peer_was_connected = peer;
    } in
    let other : Station × List ℕ = (record s { peer_was_connected = peer }, []) in
    let both : Station × List ℕ = (s1, send_hello device s.panel) in
    ap (λ (c : Bool). if c then both else other) (ap₂ (λ (a b : Bool). a && not b) p q)

-- The panel and what is sent, where these bytes are read behind a fresh start of the line.
abbrev pub answered : Device → Inputs → Panel → List ℕ → Panel × List ℕ
answered device i p bytes =
    let (p1, events) = scan_buttons i.levels i.now_ms p in
    let (p2, line, answers) = receive device bytes empty_line p1 in
    ((push_frames p2).0, send_hello device p ++ (events ++ answers))

-- A pass at a new connection, on the panel alone: the hello line, the events, and the answers to
-- the bytes that are moved behind the flush.
abbrev pub fresh_pass : Device → Inputs → Panel → Panel × List ℕ
fresh_pass device i p =
    answered device i p (take rxbuf_size (enqueue_all [] (i.lingering ++ i.late)))

-- On the pass in which TCPS first shows a peer: what is sent and how the panel changes depends only
-- on the panel, the pins, the time and the bytes that the interrupt moves into the ring behind the
-- flush. What was in the ring at the flush, and a half line or an overlong line of the previous
-- connection, have no part in it. What was in the hardware FIFO at the flush has: it is not discarded
-- and comes first.
pub pass-connect :
    (device : Device) (i : Inputs) (s : Station)
    → IsOpen s.port
    → i.tcps ≡ false
    → s.peer_was_connected ≡ false
    → let (s', out) = pass device i s in
      ((s'.panel, out.sent) ≡ fresh_pass device i s.panel)
      × (s'.peer_was_connected ≡ true)
      × (waiting s'.port.rx ≡ drop rxbuf_size (enqueue_all [] (i.lingering ++ i.late)))
unfolding greet read_commands
pass-connect device i s o low new =
    let (o0, _) = arrive-IsOpen s.port o i.early in
    let (o1, emptied) = net_rx_flush-IsOpen (arrive s.port i.early) o0 in
    let flushed = net_rx_flush (arrive s.port i.early) in
    let behind = i.lingering ++ i.late in
    let (o2, queued) = arrive-IsOpen flushed o1 behind in
    let queue = queued ∙ ap (λ l. enqueue_all l behind) emptied in
    let (_, bytes, left) = net_read-IsOpen (arrive flushed behind) o2 rxbuf_size in
    let s0 : Station = record s {
      led = (status_led_task i.led_due s.led).0;
      port = arrive s.port i.early;
    } in
    rw
      (
        pass-eq-moved_pass device i s o,
        greet_new device (net_peer_connected i.tcps) s0 (ap not low) new,
      )
      (
        ap (λ l. answered device i s.panel l) (bytes ∙ ap (take rxbuf_size) queue),
        ap not low,
        left ∙ ap (drop rxbuf_size) queue,
      )
