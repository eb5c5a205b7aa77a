-- ===== src/Net/Open.antt =====
-- The port of firmware/src/net/net.c behind `rx_irq_enable`, between interrupts: its operations on
-- the bytes that wait.
use rp2040_eth_panel.Prelude.{
  ℕ, ◌≡◌, refl, sym, ap, ◌∙◌, Bool, true, false, if◌then◌else◌, List, [], ◌++◌, append_assoc, take,
  drop, length,
}
use rp2040_eth_panel.Net.{
  Port, arrive, linger, net_rx_irq, flush_store, net_read, net_rx_flush, rx_irq_enable,
}
use rp2040_eth_panel.Net.Queue.{
  pending, arrive-waiting, net_read-waiting, net_rx_flush-waiting, rx_irq_enable-waiting,
}
use rp2040_eth_panel.Net.Ring.{IsRing, waiting, enqueue_all}

pub record IsOpen (p : Port) : Type 0 where
  pub ring_ok : IsRing p.rx
  pub irq_on : p.irq_inited ≡ true
  pub fifo_empty : p.fifo ≡ []

pending_open : (p : Port) → p.irq_inited ≡ true → pending p ≡ waiting p.rx
pending_open p on = ap (λ (b : Bool). if b then waiting p.rx else p.fifo) on

pub rx_irq_enable-IsOpen :
    (p : Port)
    → length p.rx.ring ≡ 2048
    → p.irq_inited ≡ false
    → p.fifo ≡ []
    → IsOpen (rx_irq_enable p) × (waiting (rx_irq_enable p).rx ≡ [])
rx_irq_enable-IsOpen p size off empty =
    let (ok, none_left, on, same, _) = rx_irq_enable-waiting p size off in
    (record { ring_ok = ok; irq_on = on; fifo_empty = same ∙ empty }, none_left)

module _ (p : Port) (o : IsOpen p) where
  pub arrive-IsOpen :
      (bytes : List ℕ)
      → IsOpen (arrive p bytes) × (waiting (arrive p bytes).rx ≡ enqueue_all (waiting p.rx) bytes)
  arrive-IsOpen bytes =
      let (ok, e, on, empty) = arrive-waiting p bytes o.ring_ok o.irq_on in
      (
        record { ring_ok = ok; irq_on = on; fifo_empty = empty },
        e ∙ ap (λ l. enqueue_all (waiting p.rx) (l ++ bytes)) o.fifo_empty,
      )

  pub net_rx_flush-IsOpen : IsOpen (net_rx_flush p) × (waiting (net_rx_flush p).rx ≡ [])
  net_rx_flush-IsOpen =
      let (ok, none_left, on) = net_rx_flush-waiting p o.ring_ok in
      let on' = on ∙ o.irq_on in
      (
        record {
          ring_ok = ok;
          irq_on = on';
          fifo_empty = unfold net_rx_flush in rw o.irq_on o.fifo_empty;
        },
        sym (pending_open (net_rx_flush p) on') ∙ none_left,
      )

  pub net_read-IsOpen :
      (max : ℕ)
      → let (bytes, p') = net_read max p in
        IsOpen p' × (bytes ≡ take max (waiting p.rx)) × (waiting p'.rx ≡ drop max (waiting p.rx))
  net_read-IsOpen max =
      let (ok, bytes, left, _, on) = net_read-waiting max p o.ring_ok in
      let on' = on ∙ o.irq_on in
      (
        record {
          ring_ok = ok;
          irq_on = on';
          fifo_empty = unfold net_read in rw o.irq_on o.fifo_empty;
        },
        bytes ∙ ap (take max) (pending_open p o.irq_on),
        sym (pending_open (net_read max p).1 on') ∙ left ∙ ap (drop max) (pending_open p o.irq_on),
      )

-- The interrupt comes to bytes that stayed in the FIFO as to those behind them.
pub arrive-linger : (p : Port) (xs ys : List ℕ) → arrive (linger p xs) ys ≡ arrive p (xs ++ ys)
unfolding arrive linger
arrive-linger p xs ys =
    ap
      (λ l.
        if p.irq_inited
        then record p { rx = net_rx_irq p.rx l; fifo = [] }
        else record p { fifo = l })
      (append_assoc p.fifo xs ys)

-- With the interrupt enabled, a flush does not reach them.
pub net_rx_flush-linger :
    (p : Port) (xs : List ℕ)
    → p.irq_inited ≡ true
    → net_rx_flush (linger p xs) ≡ linger (net_rx_flush p) xs
unfolding net_rx_flush linger flush_store
net_rx_flush-linger p xs on = rw on refl
