-- ===== src/Tests/Loop.antt =====
-- The bridge, the start and the main loop on concrete inputs.
use rp2040_eth_panel.Prelude.{
  ℕ, ◌≡◌, refl, true, false, List, [], ◌∷◌, ◌++◌, replicate, length, take, drop, ◌-◌, get_or, All,
  ◌<◌, ◌≤◌, ◌≢◌, both, ◌==◌, if◌then◌else◌, arith, length-replicate,
}
use rp2040_eth_panel.Prelude.Text.{codes}
use rp2040_eth_panel.Config.{net_config}
use rp2040_eth_panel.Net.{Port, rx_put, arrive, flush_store, net_rx_flush}
use rp2040_eth_panel.Net.Interleave.{
  Shared, Step, outside, fetched, irq, look, load, tested, start, step, accepted, IsCoherent,
  Runs-IsCoherent,
}
use rp2040_eth_panel.Net.Queue.Race.{net_rx_flush_race}
use rp2040_eth_panel.App.Dispatch.Hello.{hello_line, send_hello_fits}
use rp2040_eth_panel.StatusLed.Flashes.{due_tasks, spelled}
use rp2040_eth_panel.StatusLed.Round.{times, octet_tasks, repeated, flash_all, status_led_rounds}
use rp2040_eth_panel.Net.Ring.{length-walk, waiting, enqueue_all}
use rp2040_eth_panel.Net.Open.{IsOpen}
use rp2040_eth_panel.Net.Bridge.{Trace, uart_write, uart_read, net_init}
use rp2040_eth_panel.Net.Bridge.Sent.{config_frames, read_frames, net_init-sends}
use rp2040_eth_panel.Net.Bridge.Line.{frames_of, SentInConfigMode, InDataMode}
use rp2040_eth_panel.Net.Bridge.Status.{net_init-reports}
use rp2040_eth_panel.StatusLed.{status_led_show_octet, octet_digits, led_on}
use rp2040_eth_panel.Rings.Flush.{show}
use rp2040_eth_panel.App.Dispatch.{Device, send_hello}
use rp2040_eth_panel.App.Loop.{Station, Inputs, pass, run}
use rp2040_eth_panel.App.Loop.Keeps.{IsStation, ShowsCommanded, shown_after}
use rp2040_eth_panel.App.Loop.Connect.{fresh_pass, pass-connect}
use rp2040_eth_panel.App.Loop.Drain.{IsQuiet, IsDrained, run_drains}
use rp2040_eth_panel.App.Start.{dim_green, dark_panel, start_up, device_of}
use rp2040_eth_panel.App.Start.Ready.{start_up-run}
use rp2040_eth_panel.Tests.Memory.{memory_driver, blank_flash}

-- A bridge that is not wired.
abbrev pub silent_chip : Trace → List ℕ
silent_chip t = []

net_init-sends_example :
    let t' = (net_init silent_chip net_config []).1 in
    (frames_of t' ≡ config_frames net_config ++ read_frames) × SentInConfigMode t' × InDataMode t'
net_init-sends_example = net_init-sends silent_chip net_config [] tt

-- A bridge that acknowledges, knows its hardware address, and answers the request for its address
-- with one byte too few.
abbrev reply_to : ℕ → List ℕ
reply_to cmd =
    if cmd == 0x81
    then 2 ∷ 0 ∷ 0 ∷ 1 ∷ 2 ∷ 3 ∷ []
    else if cmd == 0x61
    then 10 ∷ 74 ∷ 31 ∷ []
    else 0xAA ∷ []

abbrev pub short_chip : Trace → List ℕ
short_chip (uart_read n ms ∷ uart_write (a ∷ b ∷ cmd ∷ rest) ∷ t) = reply_to cmd
short_chip _ = []

net_init-reports_example : (net_init short_chip net_config []).0 ≡ record {
  responding = true;
  dhcp_mode = true;
  ip = 10 ∷ 74 ∷ 31 ∷ 0 ∷ [];
  mac = 2 ∷ 0 ∷ 0 ∷ 1 ∷ 2 ∷ 3 ∷ [];
  port = 5005;
}
net_init-reports_example =
    net_init-reports short_chip net_config [] (0xAA ∷ []) (2 ∷ 0 ∷ 0 ∷ 1 ∷ 2 ∷ 3 ∷ [])
      (10 ∷ 74 ∷ 31 ∷ []) (λ n ms t. refl) (λ n ms t. refl) (λ n ms t. refl)

-- A peer connects and asks for a lamp that is not there.
abbrev connecting : Inputs
connecting = record {
  led_due = true;
  tcps = false;
  levels = both true;
  now_ms = 1000;
  early = codes "stale";
  lingering = codes "}";
  late = codes "{\"cmd\":\"lamp\",\"on\":7}\n";
}

start_up-run_example :
    let s = start_up memory_driver short_chip net_config (both true) 900 blank_flash in
    let (s', outs) = run (device_of s.status) (connecting ∷ []) s.station in
    let shown = shown_after (show (both []) s.frames) outs in
    IsStation shown s' × (s'.panel.update_requested ≡ false → ShowsCommanded shown s'.panel.rings)
start_up-run_example =
    start_up-run memory_driver short_chip net_config (both true) 900 blank_flash (both [])
      (connecting ∷ [])

abbrev device : Device
device = record { version = codes "1.0.3"; nleds = both 16; ip = both (both 10) }

-- One byte, 7, waits in a ring that has nearly gone around.
abbrev stale_port : Port
stale_port = record {
  rx = record { ring = replicate 2048 7; head = 2047; tail = 2046; overruns = 0 };
  irq_inited = true;
  fifo = [];
}

stale_port-IsOpen : IsOpen stale_port
stale_port-IsOpen = record {
  ring_ok = record {
    size = length-replicate {A = ℕ} 2048 7;
    head_in = omega arith;
    tail_in = omega arith;
  };
  irq_on = refl;
  fifo_empty = refl;
}

abbrev station : Station
station = record {
  panel = dark_panel.0;
  led = dim_green;
  port = stale_port;
  line = record { text = codes "{\"cmd\":"; discard = false };
  peer_was_connected = false;
}

pass-connect_example :
    let (s', out) = pass device connecting station in
    ((s'.panel, out.sent) ≡ fresh_pass device connecting station.panel)
    × (s'.peer_was_connected ≡ true)
    × (waiting s'.port.rx ≡ drop 128 (enqueue_all [] (connecting.lingering ++ connecting.late)))
pass-connect_example = pass-connect device connecting station stale_port-IsOpen refl refl

abbrev quiet : Inputs
quiet = record {
  led_due = false;
  tcps = true;
  levels = both true;
  now_ms = 1000;
  early = [];
  lingering = [];
  late = [];
}

quiet-IsQuiet : IsQuiet false quiet
quiet-IsQuiet = record {
  peer_same = refl;
  none_early = refl;
  none_lingering = refl;
  none_late = refl;
}

run_drains_example : IsDrained station (run device (quiet ∷ []) station).0
run_drains_example =
    run_drains device false (quiet ∷ []) station stale_port-IsOpen refl (quiet-IsQuiet, tt)
      (omega (arith, length-walk stale_port.rx.ring 2046 1))

-- The interrupt brings a byte between the test and the load.
abbrev held : Shared
held = record { rx = stale_port.rx; reader = outside; got = [] }

abbrev looked : Shared
looked = record held { reader = tested }

held-IsCoherent : IsCoherent held
held-IsCoherent = record { ring_ok = stale_port-IsOpen.ring_ok; next_byte = tt }

abbrev interrupted : Shared
interrupted = record looked { rx = rx_put looked.rx 9 }

abbrev one_interrupt : Step looked interrupted
one_interrupt = irq 9 looked

abbrev one_load :
    Step interrupted
      (record interrupted { reader = fetched (get_or interrupted.rx.ring interrupted.rx.tail 0) })
one_load = load interrupted refl

abbrev first_look : Step held looked
first_look = look held refl (λ e. absurd (omega (arith, e)))

Runs-IsCoherent_example :
    let u : Shared = record interrupted {
      reader = fetched (get_or interrupted.rx.ring interrupted.rx.tail 0);
    } in
    IsCoherent u
    × (u.got ++ waiting u.rx
        ≡ (held.got ++ waiting held.rx)
          ++ ((([] ++ accepted first_look) ++ accepted one_interrupt) ++ accepted one_load))
Runs-IsCoherent_example =
    Runs-IsCoherent (step (step (step start first_look) one_interrupt) one_load) held-IsCoherent

net_rx_flush_race_example :
    let p' = flush_store 2047 (arrive stale_port (codes "new")) in
    (net_rx_flush stale_port ≡ flush_store 2047 stale_port)
    × IsOpen p'
    × (waiting p'.rx
        ≡ drop (length (waiting stale_port.rx)) (enqueue_all (waiting stale_port.rx) (codes "new")))
    × (waiting p'.rx
        ≡ take
            (2047 - length (waiting stale_port.rx))
            (waiting (arrive (net_rx_flush stale_port) (codes "new")).rx))
net_rx_flush_race_example = net_rx_flush_race stale_port (codes "new") stale_port-IsOpen

send_hello_fits_example : send_hello device dark_panel.0 ≡ hello_line device dark_panel.0
send_hello_fits_example = send_hello_fits device dark_panel.0 (omega arith)

-- Two rounds of 205: two pulses, one long one, five pulses.
status_led_rounds_example :
    let (s0, first) = status_led_show_octet 205 dim_green in
    let (s', out) = due_tasks (times 2 (octet_tasks 205)) s0 in
    let digits = octet_digits 205 in
    (s' ≡ s0)
    × (first ++ out ≡ repeated 2 (flash_all (led_on dim_green) digits) ++ (led_on dim_green ∷ []))
    × (spelled 0 digits ≡ 205)
    × All (λ x. x < 10) digits
    × (10 ≤ 205 → get_or digits 0 0 ≢ 0)
status_led_rounds_example = status_led_rounds 2 205 dim_green (omega arith)
