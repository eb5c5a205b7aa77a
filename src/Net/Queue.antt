-- ===== src/Net/Queue.antt =====
-- The receive ring of firmware/src/net/net.c against the queue that holds 2047 bytes at most and drops
-- what does not fit.
pub mod Race
pub mod Abstract
use rp2040_eth_panel.Prelude.{
  ℕ, zero, suc, ◌+◌, ◌-◌, ◌%◌, ◌≤◌, ◌<◌, bit_and, ◌≡◌, ◌≢◌, inl, inr, refl, sym, ap, ap₂, ◌∙◌, true,
  false, List, [], ◌∷◌, ◌++◌, length, length-set, Bool, get_or, set, get_or-set_self, get_or-set_ne,
  take, drop, ==_iff, ==_ne, ℕ-cases, Bool-cases, ltb, add32, if◌then◌else◌, arith,
}
use rp2040_eth_panel.Prelude.Bits.{bit_and_mask}
use rp2040_eth_panel.Net.{
  RxRing, Port, rx_ring_mask, rx_put, rx_irq_enable, net_rx_irq, ring_read, net_read, net_rx_flush,
  arrive,
}
use rp2040_eth_panel.Net.Ring.{
  walk, count, waiting, IsRing, enqueue, enqueue_all, next_lem, length-walk, walk-suc, walk-set,
}

rx_put-full :
    (r : RxRing) (c : ℕ)
    → IsRing r
    → count r ≡ 2047
    → rx_put r c ≡ record r { overruns = add32 r.overruns 1 }
unfolding rx_put
rx_put-full r c ok h =
    let e = next_lem r.head ok.head_in in
    let full : bit_and (add32 r.head 1) rx_ring_mask ≡ r.tail = omega (arith, e, ok) in
    rw ((==_iff _ _).1 full)

rx_put-room :
    (r : RxRing) (c : ℕ)
    → IsRing r
    → count r ≢ 2047
    → rx_put r c ≡ record r { ring = set r.ring r.head c; head = (r.head + 1) % 2048 }
unfolding rx_put
rx_put-room r c ok h =
    let e = next_lem r.head ok.head_in in
    let room : bit_and (add32 r.head 1) rx_ring_mask ≢ r.tail =
      λ p. absurd (omega (arith, e, p, ok)) in
    let test = ==_ne _ _ room in rw (test, e) refl

-- One byte from the interrupt is one byte for the queue.
pub rx_put-waiting :
    (r : RxRing) (c : ℕ)
    → IsRing r
    → IsRing (rx_put r c) × (waiting (rx_put r c) ≡ enqueue (waiting r) c)
rx_put-waiting r c ok = elim (ℕ-cases (count r) 2047) [
  | inl e ↦
      let full : ltb (length (waiting r)) 2047 ≡ false =
        ground (arith, length-walk r.ring r.tail (count r)) in
      rw (rx_put-full r c ok e, full)
        (record { size = ok.size; head_in = ok.head_in; tail_in = ok.tail_in }, refl)
  | inr e ↦
      let room : ltb (length (waiting r)) 2047 ≡ true =
        ground (arith, length-walk r.ring r.tail (count r)) in
      let n = count r in
      let grown : (((r.head + 1) % 2048) + 2048 - r.tail) % 2048 ≡ suc n = omega (arith, ok) in
      let back : (r.tail + n) % 2048 ≡ r.head = omega (arith, ok) in
      rw (rx_put-room r c ok e, room)
        (
          record {
            size = length-set r.ring r.head c ∙ ok.size;
            head_in = omega arith;
            tail_in = ok.tail_in;
          },
          ap (walk (set r.ring r.head c) r.tail) grown
              ∙ walk-suc (set r.ring r.head c) r.tail n ok.tail_in
              ∙ ap₂ (λ l (x : ℕ). l ++ (x ∷ []))
                  (walk-set r.ring r.tail n r.head c ok.tail_in ok.head_in (omega arith))
                  (ap (λ (t : ℕ). get_or (set r.ring r.head c) t 0) back
                    ∙ get_or-set_self r.ring r.head c 0 (omega (arith, ok))),
        )
]

-- The interrupt, on a ring of 2048 bytes whose indices lie in it: whatever the FIFO holds is
-- appended to the bytes that wait, and what arrives while 2047 bytes wait is dropped, with the
-- order kept. The indices stay in the ring.
pub net_rx_irq-waiting :
    (r : RxRing) (fifo : List ℕ)
    → IsRing r
    → IsRing (net_rx_irq r fifo) × (waiting (net_rx_irq r fifo) ≡ enqueue_all (waiting r) fifo)
unfolding net_rx_irq
net_rx_irq-waiting r [] ok = (ok, refl)
net_rx_irq-waiting r (c ∷ cs) ok =
    let (ok', e) = rx_put-waiting r c ok in
    let (ok'', es) = net_rx_irq-waiting (rx_put r c) cs ok' in
    (ok'', es ∙ ap (λ q. enqueue_all q cs) e)

-- Where something waits, a round of the loop takes the oldest byte.
pub one_byte :
    (r : RxRing)
    → IsRing r
    → r.tail ≢ r.head
    → let r1 : RxRing = record r { tail = bit_and (add32 r.tail 1) rx_ring_mask } in
      IsRing r1 × (waiting r ≡ get_or r.ring r.tail 0 ∷ waiting r1)
unfolding walk
one_byte r ok e =
    let t = next_lem r.tail ok.tail_in in
    let n = (r.head + 2048 - ((r.tail + 1) % 2048)) % 2048 in
    let shrunk : count r ≡ suc n = omega (arith, ok, e) in
    rw t (
      record { size = ok.size; head_in = ok.head_in; tail_in = omega arith },
      ap (walk r.ring r.tail) shrunk,
    )

pub ring_read-waiting :
    (max : ℕ) (r : RxRing)
    → IsRing r
    → let (bytes, r') = ring_read max r in
      IsRing r'
      × (bytes ≡ take max (waiting r))
      × (waiting r' ≡ drop max (waiting r))
      × (r'.overruns ≡ r.overruns)
unfolding ring_read walk
ring_read-waiting zero r ok = (ok, refl, refl, refl)
ring_read-waiting (suc max) r ok = elim (ℕ-cases r.tail r.head) [
  | inl e ↦
      let none_left : count r ≡ 0 = omega (arith, ok, e) in
      rw ((==_iff r.tail r.head).1 e, none_left) (ok, refl, refl, refl)
  | inr e ↦
      let r1 : RxRing = record r { tail = bit_and (add32 r.tail 1) rx_ring_mask } in
      let (ok1, front) = one_byte r ok e in
      let (ok', bytes, left, same) = ring_read-waiting max r1 ok1 in
      rw (==_ne _ _ e) (
        ok',
        ap (λ l. get_or r.ring r.tail 0 ∷ l) bytes ∙ ap (take (suc max)) (sym front),
        left ∙ ap (drop (suc max)) (sym front),
        same,
      )
]

-- The bytes that a port has for the main loop: those of the ring, or of the FIFO before the
-- interrupt is enabled.
abbrev pub pending : Port → List ℕ
pending p = if p.irq_inited then waiting p.rx else p.fifo

-- Reading, on a ring of 2048 bytes whose indices lie in it: the oldest bytes that wait, `max` of
-- them at most, and they are gone afterwards; in the ring, and before the interrupt is enabled in
-- the FIFO.
pub net_read-waiting :
    (max : ℕ) (p : Port)
    → IsRing p.rx
    → let (bytes, p') = net_read max p in
      IsRing p'.rx
      × (bytes ≡ take max (pending p))
      × (pending p' ≡ drop max (pending p))
      × (p'.rx.overruns ≡ p.rx.overruns)
      × (p'.irq_inited ≡ p.irq_inited)
unfolding net_read
net_read-waiting max p ok =
    let (ok', bytes, left, same) = ring_read-waiting max p.rx ok in
    elim (Bool-cases p.irq_inited) [
      | inl e ↦ rw e (ok', bytes, left, same, refl)
      | inr e ↦ rw e (ok, refl, refl, refl, refl)
    ]

waiting_none :
    (r : RxRing)
    → IsRing r
    → IsRing (record r { tail = r.head }) × (waiting (record r { tail = r.head }) ≡ [])
waiting_none r ok =
    let none_left : (r.head + 2048 - r.head) % 2048 ≡ 0 = omega arith in
    (
      record { size = ok.size; head_in = ok.head_in; tail_in = ok.head_in },
      ap (walk r.ring r.head) none_left ∙ unfold walk in refl,
    )

-- Flushing: nothing waits.
pub net_rx_flush-waiting :
    (p : Port)
    → IsRing p.rx
    → let p' = net_rx_flush p in IsRing p'.rx × (pending p' ≡ []) × (p'.irq_inited ≡ p.irq_inited)
unfolding net_rx_flush
net_rx_flush-waiting p ok =
    let (ok', gone) = waiting_none p.rx ok in
    elim (Bool-cases p.irq_inited) [
      | inl e ↦ rw e (ok', gone, refl)
      | inr e ↦ rw e (ok, refl, refl)
    ]

-- Enabling the interrupt: the ring starts empty, and a second call changes nothing.
pub rx_irq_enable-waiting :
    (p : Port)
    → length p.rx.ring ≡ 2048
    → p.irq_inited ≡ false
    → let p' = rx_irq_enable p in
      IsRing p'.rx
      × (waiting p'.rx ≡ [])
      × (p'.irq_inited ≡ true)
      × (p'.fifo ≡ p.fifo)
      × (rx_irq_enable p' ≡ p')
unfolding rx_irq_enable walk
rx_irq_enable-waiting p size off =
    rw off
      (record { size = size; head_in = omega arith; tail_in = omega arith }, refl, refl, refl, refl)

-- Bytes that reach a port with its interrupt enabled are appended to the queue.
pub arrive-waiting :
    (p : Port) (bytes : List ℕ)
    → IsRing p.rx
    → p.irq_inited ≡ true
    → let p' = arrive p bytes in
      IsRing p'.rx
      × (waiting p'.rx ≡ enqueue_all (waiting p.rx) (p.fifo ++ bytes))
      × (p'.irq_inited ≡ true)
      × (p'.fifo ≡ [])
unfolding arrive
arrive-waiting p bytes ok on =
    let (ok', e) = net_rx_irq-waiting p.rx (p.fifo ++ bytes) ok in rw on (ok', e, refl, refl)
