-- ===== src/App/Loop/Linger.antt =====
-- A pass of the main loop of firmware/src/main.c, with the bytes that are in the hardware FIFO where
-- a new peer flushes the port: they are as those that come behind the flush.
use rp2040_eth_panel.Prelude.{
  ℕ, ◌≡◌, refl, ap, ◌∙◌, Bool, true, not, ◌&&◌, Bool-cases, inl, inr, List, ◌++◌,
}
use rp2040_eth_panel.Net.{Port, arrive, linger}
use rp2040_eth_panel.Net.Open.{IsOpen, arrive-IsOpen, arrive-linger, net_rx_flush-linger}
use rp2040_eth_panel.StatusLed.{status_led_task}
use rp2040_eth_panel.App.{empty_line}
use rp2040_eth_panel.App.Dispatch.{Device, send_hello}
use rp2040_eth_panel.App.Loop.{
  Station, Inputs, Outputs, scan_buttons, push_frames, greet, read_commands, pass,
  net_peer_connected,
}

abbrev with_port : (Port → Port) → Station × List ℕ → Station × List ℕ
with_port f (s, out) = (record s { port = f s.port }, out)

greet-linger :
    (device : Device) (peer : Bool) (s : Station) (xs : List ℕ)
    → s.port.irq_inited ≡ true
    → greet device peer (record s { port = linger s.port xs })
      ≡ with_port (λ p. linger p xs) (greet device peer s)
unfolding greet
greet-linger device peer s xs on = elim (Bool-cases (peer && not s.peer_was_connected)) [
  | inl e ↦ rw e (
      ap
        (λ (p : Port). (
          record s { port = p; line = empty_line; peer_was_connected = peer },
          send_hello device s.panel,
        ))
        (net_rx_flush-linger s.port xs on))
  | inr e ↦ rw e refl
]

module _ (device : Device) where
  -- Behind the greeting.
  abbrev pub rest_of_pass : Inputs → List ℕ → Station × List ℕ → Port → Station × Outputs
  rest_of_pass i words (s1, hello) port =
      let (p2, events) = scan_buttons i.levels i.now_ms s1.panel in
      let s2 : Station = record s1 { panel = p2; port = port } in
      let (s3, answers) = read_commands device s2 in
      let (p4, frames) = push_frames s3.panel in
      (
        record s3 { panel = p4 },
        record { led_words = words; sent = hello ++ (events ++ answers); frames = frames },
      )

  -- A pass in which all of it comes behind the flush.
  abbrev pub moved_pass : Inputs → Station → Station × Outputs
  moved_pass i s =
      let (led, words) = status_led_task i.led_due s.led in
      let s0 : Station = record s { led = led; port = arrive s.port i.early } in
      let greeted = greet device (net_peer_connected i.tcps) s0 in
      rest_of_pass i words greeted (arrive greeted.0.port (i.lingering ++ i.late))

  pub pass-eq-moved_pass :
      (i : Inputs) (s : Station) → IsOpen s.port → pass device i s ≡ moved_pass i s
  unfolding pass
  pass-eq-moved_pass i s o =
      let (led, words) = status_led_task i.led_due s.led in
      let peer = net_peer_connected i.tcps in
      let s0 : Station = record s { led = led; port = arrive s.port i.early } in
      let (o0, _) = arrive-IsOpen s.port o i.early in
      let (s1, hello) = greet device peer s0 in
      ap (λ (g : Station × List ℕ). rest_of_pass i words g (arrive g.0.port i.late))
        (greet-linger device peer s0 i.lingering o0.irq_on)
      ∙ ap (rest_of_pass i words (greet device peer s0)) (arrive-linger s1.port i.lingering i.late)
