-- ===== src/Net/Interleave.antt =====
-- firmware/src/net/net.c: the interrupt may run between any two accesses that the main loop makes to
-- the ring. A step is one byte of `net_rx_irq`, which the main loop does not interrupt, or one of the
-- three accesses in a round of `net_read`: the test of the head, the load from the ring, and the
-- store to the tail. The tail is written by the main loop only, so its loads stand in the step that
-- uses them.
use rp2040_eth_panel.Prelude.{
  ℕ, ◌≡◌, ◌≢◌, inl, inr, subst, refl, sym, ap, ◌∙◌, List, [], ◌∷◌, ◌++◌, append_assoc, append-nil,
  length, get_or, ltb, bit_and, add32, Bool-cases, if◌then◌else◌, arith,
}
use rp2040_eth_panel.Net.{RxRing, rx_put, rx_ring_mask}
use rp2040_eth_panel.Net.Queue.{rx_put-waiting, one_byte}
use rp2040_eth_panel.Net.Ring.{IsRing, waiting, enqueue, length-walk, count}

-- Where the main loop is: in front of the test, behind it, or with the byte read but the tail not
-- yet moved.
pub data Reader : Type 0 where
  outside : Reader
  tested : Reader
  fetched : ℕ → Reader

-- The ring, the reader, and what was read so far.
pub record Shared : Type 0 where
  pub rx : RxRing
  pub reader : Reader
  pub got : List ℕ

-- A byte for the interrupt, or an access of the main loop.
pub data Step : Shared → Shared → Type 0 where
  irq : (c : ℕ) (s : Shared) → Step s (record s { rx = rx_put s.rx c })
  look :
      (s : Shared)
      → s.reader ≡ outside
      → s.rx.tail ≢ s.rx.head
      → Step s (record s { reader = tested })
  load :
      (s : Shared)
      → s.reader ≡ tested
      → Step s (record s { reader = fetched (get_or s.rx.ring s.rx.tail 0) })
  advance :
      (s : Shared) (c : ℕ)
      → s.reader ≡ fetched c
      → Step s (record s {
        rx = record s.rx { tail = bit_and (add32 s.rx.tail 1) rx_ring_mask };
        reader = outside;
        got = s.got ++ (c ∷ []);
      })

-- The bytes that a step puts into the queue of 2047 bytes.
abbrev pub accepted : {s t : Shared} → Step s t → List ℕ
accepted (irq c s) = if ltb (length (waiting s.rx)) 2047 then c ∷ [] else []
accepted (look s p q) = []
accepted (load s p) = []
accepted (advance s c p) = []

-- Steps one behind the other, with the bytes that they put into the queue.
pub data Runs (s : Shared) : List ℕ → Shared → Type 0 where
  start : Runs s [] s
  step :
      {acc : List ℕ} {t u : Shared} → Runs s acc t → (a : Step t u) → Runs s (acc ++ accepted a) u

-- Behind the test a byte waits, and one that has been read is still the oldest of those that wait.
abbrev pub IsNextByte : Reader → List ℕ → Type 0
IsNextByte outside queue = Unit
IsNextByte tested queue = (c : ℕ) × (rest : List ℕ) × (queue ≡ c ∷ rest)
IsNextByte (fetched c) queue = (rest : List ℕ) × (queue ≡ c ∷ rest)

pub record IsCoherent (s : Shared) : Type 0 where
  pub ring_ok : IsRing s.rx
  pub next_byte : IsNextByte s.reader (waiting s.rx)

still_first :
    (b : ℕ) (queue : List ℕ) (c : ℕ)
    → (rest : List ℕ) × (queue ≡ b ∷ rest)
    → (rest : List ℕ) × (enqueue queue c ≡ b ∷ rest)
still_first b queue c (rest, e) = elim (Bool-cases (ltb (length queue) 2047)) [
  | inl room ↦ rw room (rest ++ (c ∷ []), ap (λ l. l ++ (c ∷ [])) e)
  | inr full ↦ rw full (rest, e)
]

enqueue-IsNextByte :
    (r : Reader) (queue : List ℕ) (c : ℕ) → IsNextByte r queue → IsNextByte r (enqueue queue c)
enqueue-IsNextByte outside queue c h = tt
enqueue-IsNextByte tested queue c (b, rest, e) =
    let (rest', e') = still_first b queue c (rest, e) in (b, rest', e')
enqueue-IsNextByte (fetched b) queue c h = still_first b queue c h

enqueue_lem :
    (queue : List ℕ) (c : ℕ)
    → enqueue queue c ≡ queue ++ (if ltb (length queue) 2047 then c ∷ [] else [])
enqueue_lem queue c = elim (Bool-cases (ltb (length queue) 2047)) [
  | inl room ↦ rw room refl
  | inr full ↦ rw full (sym (append-nil queue))
]

same_head : (a b : ℕ) (xs ys : List ℕ) → a ∷ xs ≡ b ∷ ys → a ≡ b
same_head a b xs ys e = cc

fetched_byte :
    (r : Reader) (c : ℕ) (queue : List ℕ)
    → r ≡ fetched c
    → IsNextByte r queue
    → (rest : List ℕ) × (queue ≡ c ∷ rest)
fetched_byte r c queue e h = subst (λ (x : Reader). IsNextByte x queue) e h

-- The queue starts with the byte, so the ring is not empty.
nonempty : (r : RxRing) (c : ℕ) (rest : List ℕ) → IsRing r → waiting r ≡ c ∷ rest → r.tail ≢ r.head
nonempty r c rest ok e same =
    absurd (omega (arith, same, ok, ap length e, length-walk r.ring r.tail (count r)))

Step-IsCoherent :
    {s t : Shared} (a : Step s t)
    → IsCoherent s
    → IsCoherent t × (t.got ++ waiting t.rx ≡ (s.got ++ waiting s.rx) ++ accepted a)
Step-IsCoherent (irq c s) h =
    let (ok, e) = rx_put-waiting s.rx c h.ring_ok in
    (
      record {
        ring_ok = ok;
        next_byte = rw e (enqueue-IsNextByte s.reader (waiting s.rx) c h.next_byte);
      },
      ap (λ l. s.got ++ l) (e ∙ enqueue_lem (waiting s.rx) c)
          ∙ sym (append_assoc s.got (waiting s.rx) _),
    )
Step-IsCoherent (look s p q) h =
    let (_, front) = one_byte s.rx h.ring_ok q in
    (record { ring_ok = h.ring_ok; next_byte = (_, _, front) }, sym (append-nil _))
Step-IsCoherent (load s p) h =
    let (c, rest, e) = subst (λ (x : Reader). IsNextByte x (waiting s.rx)) p h.next_byte in
    let (_, front) = one_byte s.rx h.ring_ok (nonempty s.rx c rest h.ring_ok e) in
    (record { ring_ok = h.ring_ok; next_byte = (_, front) }, sym (append-nil _))
Step-IsCoherent (advance s c p) h =
    let (rest, e) = fetched_byte s.reader c (waiting s.rx) p h.next_byte in
    let (ok, front) = one_byte s.rx h.ring_ok (nonempty s.rx c rest h.ring_ok e) in
    let left = waiting (record s.rx { tail = bit_and (add32 s.rx.tail 1) rx_ring_mask }) in
    let same = same_head (get_or s.rx.ring s.rx.tail 0) c left rest (sym front ∙ e) in
    (
      record { ring_ok = ok; next_byte = tt },
      append_assoc s.got (c ∷ []) left
          ∙ ap (λ l. s.got ++ l) (ap (λ (b : ℕ). b ∷ left) (sym same) ∙ sym front)
          ∙ sym (append-nil _),
    )

-- However the interrupt runs between the test, the load and the store of each round of `net_read`:
-- nothing that the queue took is lost, doubled or reordered. What was read so far, followed by what waits, is what it
-- was at the start, followed by the bytes taken since; and the indices stay in the ring.
pub Runs-IsCoherent :
    {s u : Shared} {acc : List ℕ}
    → Runs s acc u
    → IsCoherent s
    → IsCoherent u × (u.got ++ waiting u.rx ≡ (s.got ++ waiting s.rx) ++ acc)
Runs-IsCoherent start h = (h, sym (append-nil _))
Runs-IsCoherent {s} (step {acc} r a) h =
    let (h', e) = Runs-IsCoherent r h in
    let (h'', e') = Step-IsCoherent a h' in
    (h'', e' ∙ ap (λ l. l ++ accepted a) e ∙ append_assoc (s.got ++ waiting s.rx) acc (accepted a))
