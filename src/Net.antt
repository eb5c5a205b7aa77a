-- ===== src/Net.antt =====
-- firmware/src/net/net.c: the receive side of the UART, with the ring between its interrupt and the
-- main loop.
pub mod Queue
pub mod Interleave
pub mod Open
pub mod Ring
pub mod Bridge
use rp2040_eth_panel.Prelude.{
  ℕ, zero, suc, bit_and, Bool, true, false, List, [], ◌∷◌, ◌++◌, get_or, set, take, drop, replicate,
  ◌==◌, add32, if◌then◌else◌,
}

abbrev pub rx_ring_size : ℕ
rx_ring_size = 2048

abbrev pub rx_ring_mask : ℕ
rx_ring_mask = 2047

-- `s_rx_ring`, `s_rx_head`, `s_rx_tail` and `s_rx_overruns`.
pub record RxRing : Type 0 where
  pub ring : List ℕ
  pub head : ℕ
  pub tail : ℕ
  pub overruns : ℕ

-- The ring, `s_rx_irq_inited`, and the bytes that the hardware FIFO holds.
pub record Port : Type 0 where
  pub rx : RxRing
  pub irq_inited : Bool
  pub fifo : List ℕ

-- What the variables are at the start of the program, which zeroes them.
abbrev pub idle_port : Port
idle_port = record {
  rx = record { ring = replicate rx_ring_size 0; head = 0; tail = 0; overruns = 0 };
  irq_inited = false;
  fifo = [];
}

unfoldable pub rx_irq_enable : Port → Port
rx_irq_enable p =
    if p.irq_inited
    then p
    else record p { rx = record p.rx { head = 0; tail = 0 }; irq_inited = true }

-- One byte in the loop of `net_rx_irq`.
unfoldable pub rx_put : RxRing → ℕ → RxRing
rx_put r c =
    let next = bit_and (add32 r.head 1) rx_ring_mask in
    if next == r.tail
    then record r { overruns = add32 r.overruns 1 }
    else record r { ring = set r.ring r.head c; head = next }

-- The bytes that the hardware FIFO holds, in order.
unfoldable pub net_rx_irq : RxRing → List ℕ → RxRing
net_rx_irq r [] = r
net_rx_irq r (c ∷ cs) = net_rx_irq (rx_put r c) cs

-- The loop of `net_read` over the ring: at most `max` bytes.
unfoldable pub ring_read : ℕ → RxRing → List ℕ × RxRing
ring_read zero r = ([], r)
ring_read (suc max) r =
    let (rest, r') = ring_read max (record r { tail = bit_and (add32 r.tail 1) rx_ring_mask }) in
    if r.tail == r.head then ([], r) else (get_or r.ring r.tail 0 ∷ rest, r')

-- Before the interrupt is enabled the FIFO is read directly.
unfoldable pub net_read : ℕ → Port → List ℕ × Port
net_read max p =
    let (bytes, r) = ring_read max p.rx in
    if p.irq_inited
    then (bytes, record p { rx = r })
    else (take max p.fifo, record p { fifo = drop max p.fifo })

-- The store of `net_rx_flush`, of a head that was loaded.
unfoldable pub flush_store : ℕ → Port → Port
flush_store head p = record p { rx = record p.rx { tail = head } }

-- Where the interrupt is enabled, the hardware FIFO is left as it is.
unfoldable pub net_rx_flush : Port → Port
unfolding flush_store
net_rx_flush p = if p.irq_inited then flush_store p.rx.head p else record p { fifo = [] }

-- Bytes reach the hardware FIFO and stay there: fewer than its threshold for the interrupt, and its
-- receive timeout is not over.
unfoldable pub linger : Port → List ℕ → Port
linger p bytes = record p { fifo = p.fifo ++ bytes }

-- Bytes reach the FIFO, and the interrupt, where it is enabled, comes behind them and moves all that
-- the FIFO holds into the ring.
unfoldable pub arrive : Port → List ℕ → Port
arrive p bytes =
    if p.irq_inited
    then record p { rx = net_rx_irq p.rx (p.fifo ++ bytes); fifo = [] }
    else record p { fifo = p.fifo ++ bytes }
