-- ===== src/Tests/Polls.antt =====
-- The polling loops of the receiver on concrete rounds.
use rp2040_eth_panel.Prelude.{
  ℕ, ◌+◌, ◌≡◌, refl, Bool, true, if◌then◌else◌, List, [], ◌∷◌, none, some, length-replicate,
  same_bytes, arith,
}
use rp2040_eth_panel.Prelude.Text.{codes}
use rp2040_eth_panel.Net.{
  Port, idle_port, rx_irq_enable, arrive, net_read, ring_read, net_rx_irq, rx_put,
}
use rp2040_eth_panel.Net.Open.{IsOpen, rx_irq_enable-IsOpen}
use rp2040_eth_panel.Ota.Reader.{Input, is_magic, read_exact, read_command}
use rp2040_eth_panel.Ota.Recovery.Polls.{Poll, Polled, waits, ended, poll_exact, poll_command}
use rp2040_eth_panel.Ota.Recovery.Polls.Exact.{heard, KeepsBytes}
use rp2040_eth_panel.Ota.Recovery.Polls.Ends.{poll_exact_ends}
use rp2040_eth_panel.Ota.Recovery.Polls.Command.{found, last_four, poll_command-heard}

abbrev port : Port
port = rx_irq_enable idle_port

port-IsOpen : IsOpen port
port-IsOpen = (rx_irq_enable-IsOpen idle_port (length-replicate {A = ℕ} 2048 0) refl refl).0

-- A byte, and then nothing.
abbrev rounds : List Poll
rounds =
    record { arrived = codes "a"; now = 5 }
    ∷ record { arrived = []; now = 10 }
    ∷ record { arrived = []; now = 15 }
    ∷ record { arrived = []; now = 20 }
    ∷ record { arrived = []; now = 25 }
    ∷ []

poll_exact_ends_example :
    (ok : Bool) × (got : List ℕ) × (port' : Port) × (ws' : List Poll) × (poll_exact 5 2
        (0 + 5)
        port
        rounds
      ≡ ended ok got port' ws')
    × ((rest : Input) → read_exact 2 (heard ok got rest) ≡ ((if ok then some got else none), rest))
    × KeepsBytes port rounds got port' ws'
poll_exact_ends_example =
    poll_exact_ends 5 5 (omega arith) 2 0 port rounds port-IsOpen (omega arith) (omega arith)

-- A stray byte, and the four bytes of a command at once.
abbrev command_rounds : List Poll
command_rounds =
    record { arrived = codes "x"; now = 1 }
    ∷ record { arrived = codes "END!"; now = 2 }
    ∷ record { arrived = []; now = 3 }
    ∷ record { arrived = []; now = 4 }
    ∷ record { arrived = []; now = 5 }
    ∷ record { arrived = []; now = 6 }
    ∷ []

abbrev end_port : Polled → Port
end_port waits = port
end_port (ended ok got port' ws') = port'

abbrev run : Polled
run = poll_command 5 0 0 0 0 0 6 port command_rounds

run_ends : run ≡ ended true (codes "xEND!") (end_port run) (record { arrived = []; now = 6 } ∷ [])
unfolding poll_command net_read arrive ring_read net_rx_irq rx_put rx_irq_enable is_magic same_bytes
run_ends = refl

poll_command-heard_example :
    ((rest : Input)
      → read_command (heard true (codes "xEND!") rest)
        ≡ (found true (last_four 0 0 0 0 (codes "xEND!")), rest))
    × KeepsBytes port command_rounds
        (codes "xEND!")
        (end_port run)
        (record { arrived = []; now = 6 } ∷ [])
poll_command-heard_example =
    poll_command-heard 5 6 port (end_port run) command_rounds
      (record { arrived = []; now = 6 } ∷ []) true (codes "xEND!") port-IsOpen run_ends
