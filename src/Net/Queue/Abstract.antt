-- ===== src/Net/Queue/Abstract.antt =====
-- The receive ring of firmware/src/net/net.c up to where in its array the bytes lie: rings in which
-- the same bytes wait are one element of a quotient, on which the interrupt and the reads act.
use rp2040_eth_panel.Prelude.{
  ℕ, ◌+◌, ◌-◌, ◌%◌, ◌≤◌, ◌<◌, ◌≡◌, refl, sym, ap, ap₂, append_assoc, ◌∙◌, List, [], ◌∷◌, ◌++◌,
  length, length-append, length-replicate, replicate, get_or, take, drop, arith,
}
use mathlib.Core.Quot
use mathlib.Core.Quot.{Quot, Quot-set}
use mathlib.Core.Equiv.{◌≃◌, Iso, iso_to_equiv}
use mathlib.Core.HLevel.{Σ_prop_path}
use native.Mathlib.Bridge.{le_prop}
use rp2040_eth_panel.Net.{RxRing, net_rx_irq, ring_read}
use rp2040_eth_panel.Net.Ring.{walk, count, waiting, IsRing, enqueue_all, length-walk}
use rp2040_eth_panel.Net.Queue.{net_rx_irq-waiting, ring_read-waiting}

-- A ring of 2048 bytes with its indices in it.
abbrev pub Ring : Type 0
Ring = (r : RxRing) × IsRing r

abbrev pub SameQueue : Ring → Ring → Type 0
SameQueue a b = waiting a.0 ≡ waiting b.0

abbrev pub Waiting : Type 0
Waiting = Quot SameQueue

-- At most 2047 bytes.
abbrev pub ShortList : Type 0
ShortList = (q : List ℕ) × (length q ≤ 2047)

ShortList-set : IsSet ShortList
ShortList-set = hlevel (le_prop)

ShortList-ext : (a b : ShortList) → a.0 ≡ b.0 → a ≡ b
ShortList-ext a b h = Σ_prop_path (λ q. le_prop) h

waiting-fits : (a : Ring) → length (waiting a.0) ≤ 2047
waiting-fits (r, ok) = omega (arith, length-walk r.ring r.tail (count r))

-- The bytes that wait.
pub bytes_of : Waiting → ShortList
bytes_of =
    Quot.lift ShortList-set (λ a. (waiting a.0, waiting-fits a))
      (λ a b h. ShortList-ext (waiting a.0, waiting-fits a) (waiting b.0, waiting-fits b) h)

-- The interrupt with what its FIFO holds.
pub put : List ℕ → Waiting → Waiting
put fifo =
    Quot.lift Quot-set (λ (r, ok). Quot.mk (net_rx_irq r fifo, (net_rx_irq-waiting r fifo ok).0))
      (λ (r, ok) (s, ok') h. Quot.sound (
        (net_rx_irq-waiting r fifo ok).1
        ∙ ap (λ q. enqueue_all q fifo) h
        ∙ sym (net_rx_irq-waiting s fifo ok').1))

-- What a read of `max` bytes hands out and what it leaves.
pub get : ℕ → Waiting → List ℕ × Waiting
get max =
    Quot.lift (hlevel (Quot-set))
      (λ (r, ok).
        let (bytes, r') = ring_read max r in (bytes, Quot.mk (r', (ring_read-waiting max r ok).0)))
      (λ (r, ok) (s, ok') h.
        let (_, taken, left, _) = ring_read-waiting max r ok in
        let (_, taken', left', _) = ring_read-waiting max s ok' in
        ap₂ (λ l (x : Waiting). (l, x)) (taken ∙ ap (take max) h ∙ sym taken')
          (Quot.sound (left ∙ ap (drop max) h ∙ sym left')))

get_or-behind : (pre rest : List ℕ) (c : ℕ) → get_or (pre ++ (c ∷ rest)) (length pre) 0 ≡ c
get_or-behind [] rest c = refl
get_or-behind (p ∷ pre) rest c = get_or-behind pre rest c

walk-list :
    (pre q rest : List ℕ)
    → length pre + length q < 2048
    → walk (pre ++ (q ++ rest)) (length pre) (length q) ≡ q
unfolding walk
walk-list pre [] rest h = refl
walk-list pre (c ∷ q) rest h =
    let pre' = pre ++ (c ∷ []) in
    let one : length pre' ≡ length pre + 1 = length-append pre (c ∷ []) in
    let next : (length pre + 1) % 2048 ≡ length pre' = omega (arith, one) in
    ap₂ ◌∷◌ (get_or-behind pre (q ++ rest) c) (
      ap₂ (λ (l : List ℕ) (i : ℕ). walk l i (length q))
        (sym (append_assoc pre (c ∷ []) (q ++ rest))) next
      ∙ walk-list pre' q rest (omega (arith, one)))

-- The bytes at the start of an array.
abbrev ring_of : List ℕ → RxRing
ring_of q = record {
  ring = q ++ replicate (2048 - length q) 0;
  head = length q;
  tail = 0;
  overruns = 0;
}

ring_of-IsRing : (q : List ℕ) → length q ≤ 2047 → IsRing (ring_of q)
ring_of-IsRing q h =
    let left = 2048 - length q in
    record {
      size = omega (arith, length-append q (replicate left 0), length-replicate {A = ℕ} left 0);
      head_in = omega arith;
      tail_in = omega arith;
    }

waiting-ring_of : (q : List ℕ) → length q ≤ 2047 → waiting (ring_of q) ≡ q
waiting-ring_of q h =
    let counted : (length q + 2048 - 0) % 2048 ≡ length q = omega arith in
    ap (λ (n : ℕ). walk (ring_of q).ring 0 n) counted
    ∙ walk-list [] q (replicate (2048 - length q) 0) (omega arith)

waiting_iso : Iso Waiting ShortList
unfolding bytes_of
waiting_iso = record {
  fun = bytes_of;
  inv = λ (q, h). Quot.mk (ring_of q, ring_of-IsRing q h);
  rinv = λ (q, h). ShortList-ext _ _ (waiting-ring_of q h);
  linv =
      Quot.ind (λ _. Quot-set _ _)
        (λ a. Quot.sound (waiting-ring_of (waiting a.0) (waiting-fits a)));
}

bytes_of-put :
    (fifo : List ℕ) (x : Waiting) → (bytes_of (put fifo x)).0 ≡ enqueue_all (bytes_of x).0 fifo
unfolding bytes_of put
bytes_of-put fifo = Quot.ind (λ _. hlevel) (λ (r, ok). (net_rx_irq-waiting r fifo ok).1)

bytes_of-get :
    (max : ℕ) (x : Waiting)
    → ((get max x).0 ≡ take max (bytes_of x).0)
      × ((bytes_of (get max x).1).0 ≡ drop max (bytes_of x).0)
unfolding bytes_of get
bytes_of-get max =
    Quot.ind (λ _. hlevel)
      (λ (r, ok). let (_, taken, left, _) = ring_read-waiting max r ok in (taken, left))

-- The receive rings of 2048 bytes with their indices in it, told apart only by the bytes that wait
-- in them, are the byte lists of length 2047 at most. On these lists the interrupt appends each byte
-- of its FIFO for which there is room, and a read takes `max` bytes at most from the front.
pub rings_as_lists :
    (e : Waiting ≃ ShortList) × ((fifo : List ℕ) (x : Waiting)
      → (e.0 (put fifo x)).0 ≡ enqueue_all (e.0 x).0 fifo)
    × ((max : ℕ) (x : Waiting)
        → ((get max x).0 ≡ take max (e.0 x).0) × ((e.0 (get max x).1).0 ≡ drop max (e.0 x).0))
unfolding bytes_of waiting_iso
rings_as_lists = (iso_to_equiv waiting_iso, bytes_of-put, bytes_of-get)
