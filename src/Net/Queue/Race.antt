-- ===== src/Net/Queue/Race.antt =====
-- firmware/src/net/net.c: the interrupt may run between the load and the store of `net_rx_flush`.
use rp2040_eth_panel.Prelude.{
  ℕ, zero, suc, ◌+◌, ◌-◌, ◌%◌, ◌<◌, ◌≤◌, ◌≡◌, refl, sym, ap, ap₂, ◌∙◌, List, [], ◌∷◌, inl, inr,
  length, length-append, append_assoc, append-nil, ◌++◌, take, drop, ltb, Bool-cases, arith,
}
use rp2040_eth_panel.Net.{RxRing, Port, rx_put, net_rx_irq, arrive, flush_store, net_rx_flush}
use rp2040_eth_panel.Net.Open.{IsOpen, arrive-IsOpen, net_rx_flush-IsOpen}
use rp2040_eth_panel.Net.Queue.{net_rx_irq-waiting}
use rp2040_eth_panel.Net.Ring.{IsRing, waiting, walk, count, length-walk, enqueue, enqueue_all}

rx_put-tail : (r : RxRing) (c : ℕ) → (rx_put r c).tail ≡ r.tail
unfolding rx_put
rx_put-tail r c = ground arith

net_rx_irq-tail : (r : RxRing) (fifo : List ℕ) → (net_rx_irq r fifo).tail ≡ r.tail
unfolding net_rx_irq
net_rx_irq-tail r [] = refl
net_rx_irq-tail r (c ∷ cs) = net_rx_irq-tail (rx_put r c) cs ∙ rx_put-tail r c

enqueue-le : (queue : List ℕ) (c : ℕ) → length queue ≤ length (enqueue queue c)
enqueue-le queue c = elim (Bool-cases (ltb (length queue) 2047)) [
  | inl room ↦ rw room (omega (arith, length-append queue (c ∷ [])))
  | inr full ↦ rw full (omega arith)
]

enqueue_all-le : (cs queue : List ℕ) → length queue ≤ length (enqueue_all queue cs)
enqueue_all-le [] queue = omega arith
enqueue_all-le (c ∷ cs) queue =
    omega (arith, enqueue-le queue c, enqueue_all-le cs (enqueue queue c))

drop-walk :
    (n : ℕ) (ring : List ℕ) (i m : ℕ)
    → i < 2048
    → n ≤ m
    → drop n (walk ring i m) ≡ walk ring ((i + n) % 2048) (m - n)
unfolding walk
drop-walk zero ring i m p h = ap₂ (walk ring) (omega arith) (omega arith)
drop-walk (suc n) ring i zero p h = absurd (omega arith)
drop-walk (suc n) ring i (suc m) p h =
    drop-walk n ring ((i + 1) % 2048) m (omega arith) (omega arith)
    ∙ ap₂ (walk ring) (omega arith) (omega arith)

head_stored :
    (r : RxRing) (fifo : List ℕ)
    → IsRing r
    → let flushed : RxRing = record (net_rx_irq r fifo) { tail = r.head } in
      IsRing flushed × (waiting flushed ≡ drop (length (waiting r)) (enqueue_all (waiting r) fifo))
head_stored r fifo ok =
    let r' = net_rx_irq r fifo in
    let (ok', e) = net_rx_irq-waiting r fifo ok in
    let tail = net_rx_irq-tail r fifo in
    let old = length-walk r.ring r.tail (count r) in
    let new = length-walk r'.ring r'.tail (count r') in
    let grown : count r ≤ count r' =
      omega (arith, old, new, ap length e, enqueue_all-le fifo (waiting r)) in
    let from : (r'.tail + count r) % 2048 ≡ r.head = omega (arith, tail, ok) in
    let left : count r' - count r ≡ (r'.head + 2048 - r.head) % 2048 =
      omega (arith, tail, ok, ok', grown) in
    (
      record { size = ok'.size; head_in = ok'.head_in; tail_in = ok.head_in },
      sym (
          ap₂ (λ (n : ℕ) l. drop n l) old (sym e)
          ∙ drop-walk (count r) r'.ring r'.tail (count r') ok'.tail_in grown
          ∙ ap₂ (walk r'.ring) from left),
    )

-- What the queue takes is what there is room for.
take_nothing : (n : ℕ) → take {A = ℕ} n [] ≡ []
take_nothing zero = refl
take_nothing (suc n) = refl

enqueue_all-take :
    (queue bytes : List ℕ)
    → length queue ≤ 2047
    → enqueue_all queue bytes ≡ queue ++ take (2047 - length queue) bytes
enqueue_all-take queue [] h =
    let n = 2047 - length queue in sym (ap (λ l. queue ++ l) (take_nothing n) ∙ append-nil queue)
enqueue_all-take queue (c ∷ cs) h = elim (Bool-cases (ltb (length queue) 2047)) [
  | inl room ↦
      let longer = length-append queue (c ∷ []) in
      let left : 2047 - length queue ≡ suc (2047 - length (queue ++ (c ∷ []))) =
        ground (arith, longer, room) in
      rw (room, left)
        (enqueue_all-take (queue ++ (c ∷ [])) cs (ground (arith, longer, room))
          ∙ append_assoc queue (c ∷ []) _)
  | inr full ↦
      let left : 2047 - length queue ≡ 0 = ground (arith, full) in
      rw full (enqueue_all-take queue cs h)
      ∙ ap (λ (n : ℕ). queue ++ take n cs) left
      ∙ sym (ap (λ (n : ℕ). queue ++ take n (c ∷ cs)) left)
]

take-take : (m n : ℕ) (xs : List ℕ) → m ≤ n → take m (take n xs) ≡ take m xs
take-take zero n xs h = refl
take-take (suc m) zero xs h = absurd (omega arith)
take-take (suc m) (suc n) [] h = refl
take-take (suc m) (suc n) (x ∷ xs) h = ap (λ l. x ∷ l) (take-take m n xs (omega arith))

drop-append : (xs ys : List ℕ) → drop (length xs) (xs ++ ys) ≡ ys
drop-append [] ys = refl
drop-append (x ∷ xs) ys = drop-append xs ys

arrive_open :
    (p : Port) (bytes : List ℕ)
    → IsOpen p
    → arrive p bytes ≡ record p { rx = net_rx_irq p.rx bytes; fifo = [] }
unfolding arrive
arrive_open p bytes o = rw (o.irq_on, o.fifo_empty) refl

-- `net_rx_flush` loads the head and then stores it as the tail. With any bytes coming in between, on
-- a port whose interrupt is enabled, exactly the bytes that waited before are dropped, and what waits
-- then is what would wait had they come behind the whole flush, cut to what the ring had room for
-- while the dropped bytes were in it.
pub net_rx_flush_race :
    (p : Port) (bytes : List ℕ)
    → IsOpen p
    → let p' = flush_store p.rx.head (arrive p bytes) in
      (net_rx_flush p ≡ flush_store p.rx.head p)
      × IsOpen p'
      × (waiting p'.rx ≡ drop (length (waiting p.rx)) (enqueue_all (waiting p.rx) bytes))
      × (waiting p'.rx
          ≡ take (2047 - length (waiting p.rx)) (waiting (arrive (net_rx_flush p) bytes).rx))
unfolding flush_store
net_rx_flush_race p bytes o =
    let queue = waiting p.rx in
    let few : length queue ≤ 2047 = omega (arith, length-walk p.rx.ring p.rx.tail (count p.rx)) in
    let (ok, e) = head_stored p.rx bytes o.ring_ok in
    let (flushed, empty) = net_rx_flush-IsOpen p o in
    let (_, again) = arrive-IsOpen (net_rx_flush p) flushed bytes in
    let room =
      ap (drop (length queue)) (enqueue_all-take queue bytes few)
      ∙ drop-append queue (take (2047 - length queue) bytes)
      ∙ sym (take-take (2047 - length queue) 2047 bytes (omega arith))
      ∙ ap (take (2047 - length queue)) (
          sym (
            again
            ∙ ap (λ q. enqueue_all q bytes) empty
            ∙ enqueue_all-take [] bytes (omega arith))) in
    rw (arrive_open p bytes o) (
      unfold net_rx_flush in rw o.irq_on refl,
      record { ring_ok = ok; irq_on = o.irq_on; fifo_empty = refl },
      e,
      e ∙ room,
    )
