-- ===== src/Ota/Recovery/Polls/Exact.antt =====
-- The polling loop of `read_exact` (firmware/bootloader/recovery.c) against the reader of bytes and
-- silences.
use rp2040_eth_panel.Prelude.{
  ℕ, zero, suc, ◌+◌, ◌-◌, ◌≤◌, ◌<◌, ◌≡◌, ◌⊎◌, refl, sym, ap, ap₂, ◌∙◌, Bool, true, false,
  if◌then◌else◌, List, [], ◌∷◌, ◌++◌, append_assoc, append-nil, length, length-append, length-take,
  take, drop, leb, Bool-cases, inl, inr, none, some, subst, arith,
}
use rp2040_eth_panel.Net.{Port, arrive, net_read}
use rp2040_eth_panel.Net.Ring.{waiting, enqueue, enqueue_all}
use rp2040_eth_panel.Net.Open.{IsOpen, arrive-IsOpen, net_read-IsOpen}
use rp2040_eth_panel.Ota.Reader.{Input, read_exact}
use rp2040_eth_panel.Ota.Recovery.Resync.{arriving}
use rp2040_eth_panel.Ota.Recovery.Frames.{read_exact-arriving}
use rp2040_eth_panel.Ota.Recovery.Push.Retry.{read_exact-broken}
use rp2040_eth_panel.Ota.Recovery.Polls.{Poll, Polled, waits, ended, behind, poll_exact}

-- What arrives in some rounds.
abbrev pub arrivals : List Poll → List ℕ
arrivals [] = []
arrivals (w ∷ ws) = w.arrived ++ arrivals ws

-- The loop's run as bytes and, if it timed out, a silence behind them.
abbrev pub heard : Bool → List ℕ → Input → Input
heard true got rest = arriving got ++ rest
heard false got rest = arriving got ++ (none ∷ rest)

-- Nothing is lost, repeated or reordered: the bytes taken and those left are the bytes that waited
-- and those that arrived meanwhile, as long as the ring has room for them.
abbrev pub KeepsBytes : Port → List Poll → List ℕ → Port → List Poll → Type 0
KeepsBytes port ws got port' ws' =
    (used : List Poll) × (ws ≡ used ++ ws')
    × (length (waiting port.rx) + length (arrivals ws) ≤ 2047
        → got ++ waiting port'.rx ≡ waiting port.rx ++ arrivals used)

taken_and_left : (n : ℕ) (xs : List ℕ) → take n xs ++ drop n xs ≡ xs
taken_and_left zero xs = refl
taken_and_left (suc n) [] = refl
taken_and_left (suc n) (x ∷ xs) = ap (λ l. x ∷ l) (taken_and_left n xs)

enqueue_all-fits : (q cs : List ℕ) → length q + length cs ≤ 2047 → enqueue_all q cs ≡ q ++ cs
enqueue_all-fits q [] h = sym (append-nil q)
enqueue_all-fits q (c ∷ cs) h =
    let room : enqueue q c ≡ q ++ (c ∷ []) = ground arith in
    ap (λ l. enqueue_all l cs) room
    ∙ enqueue_all-fits (q ++ (c ∷ [])) cs (omega (arith, length-append q (c ∷ [])))
    ∙ append_assoc q (c ∷ []) cs

-- One round on a port with its interrupt on.
pub one_poll :
    (max : ℕ) (port : Port) (arrived : List ℕ)
    → IsOpen port
    → let (bytes, port') = net_read max (arrive port arrived) in
      IsOpen port'
      × (length bytes ≤ max)
      × (length (waiting port.rx) + length arrived ≤ 2047
          → bytes ++ waiting port'.rx ≡ waiting port.rx ++ arrived)
one_poll max port arrived o =
    let (open1, e) = arrive-IsOpen port o arrived in
    let (open2, bytes, left) = net_read-IsOpen (arrive port arrived) open1 max in
    let q = waiting (arrive port arrived).rx in
    (
      open2,
      omega (arith, ap length bytes, length-take max q),
      λ h.
          ap₂ ◌++◌ bytes left
          ∙ taken_and_left max q
          ∙ e
          ∙ enqueue_all-fits (waiting port.rx) arrived h,
    )

-- The length of what was taken.
abbrev HasLength : ℕ → Bool → List ℕ → Type 0
HasLength n true got = length got ≡ n
HasLength n false got = length got < n

abbrev Reads : ℕ → Port → List Poll → Polled → Type 0
Reads n port ws waits = Unit
Reads n port ws (ended ok got port' ws') = HasLength n ok got × KeepsBytes port ws got port' ws'

HasLength-more :
    (n : ℕ) (ok : Bool) (bs got : List ℕ)
    → length bs ≤ n
    → HasLength (n - length bs) ok got
    → 0 < n
    → HasLength n ok (bs ++ got)
HasLength-more n true bs got h e some_left = omega (arith, e, length-append bs got)
HasLength-more n false bs got h e some_left = omega (arith, e, length-append bs got)

-- A round in front.
pub KeepsBytes-more :
    (port port1 port' : Port) (w : Poll) (ws ws' : List Poll) (bs got : List ℕ)
    → (length (waiting port.rx) + length w.arrived ≤ 2047
        → bs ++ waiting port1.rx ≡ waiting port.rx ++ w.arrived)
    → KeepsBytes port1 ws got port' ws'
    → KeepsBytes port (w ∷ ws) (bs ++ got) port' ws'
KeepsBytes-more port port1 port' w ws ws' bs got one (used, e, kept) = (
  w ∷ used,
  ap (λ l. w ∷ l) e,
  λ h.
      let room : length (waiting port.rx) + length w.arrived ≤ 2047 =
        omega (arith, h, length-append w.arrived (arrivals ws)) in
      let moved = one room in
      let sizes = ap length moved in
      let small : length (waiting port1.rx) + length (arrivals ws) ≤ 2047 = omega (
        arith,
        h,
        sizes,
        length-append bs (waiting port1.rx),
        length-append (waiting port.rx) w.arrived,
        length-append w.arrived (arrivals ws),
      ) in
      append_assoc bs got (waiting port'.rx)
      ∙ ap (λ l. bs ++ l) (kept small)
      ∙ sym (append_assoc bs (waiting port1.rx) (arrivals used))
      ∙ ap (λ l. l ++ arrivals used) moved
      ∙ append_assoc (waiting port.rx) w.arrived (arrivals used),
)

Reads-more :
    (n : ℕ) (port port1 : Port) (w : Poll) (ws : List Poll) (bs : List ℕ) (r : Polled)
    → length bs ≤ n
    → 0 < n
    → (length (waiting port.rx) + length w.arrived ≤ 2047
        → bs ++ waiting port1.rx ≡ waiting port.rx ++ w.arrived)
    → Reads (n - length bs) port1 ws r
    → Reads n port (w ∷ ws) (behind bs r)
Reads-more n port port1 w ws bs waits h some_left one reads = tt
Reads-more n port port1 w ws bs (ended ok got port' ws') h some_left one (e, kept) = (
  HasLength-more n ok bs got h e some_left,
  KeepsBytes-more port port1 port' w ws ws' bs got one kept,
)

pub behind_none : (r : Polled) → behind [] r ≡ r
behind_none waits = refl
behind_none (ended ok got port ws) = refl

pub bytes_cases : (bs : List ℕ) → (bs ≡ []) ⊎ ((b : ℕ) × (cs : List ℕ) × (bs ≡ b ∷ cs))
bytes_cases [] = inl refl
bytes_cases (b ∷ bs) = inr (b, bs, refl)

all_left : (n : ℕ) → n - 0 ≡ n
all_left n = omega arith

HasLength-heard :
    (n : ℕ) (ok : Bool) (got : List ℕ) (rest : Input)
    → HasLength n ok got
    → read_exact n (heard ok got rest) ≡ ((if ok then some got else none), rest)
HasLength-heard n true got rest e =
    subst (λ (t : ℕ). read_exact t (arriving got ++ rest) ≡ (some got, rest)) e
      (read_exact-arriving got rest)
HasLength-heard n false got rest h = read_exact-broken n got rest h

module _ (timeout : ℕ) where
  -- A round that reads nothing, and one that reads something.
  pub poll_exact-quiet :
      (n dl : ℕ) (port port1 : Port) (w : Poll) (ws : List Poll)
      → net_read (suc n) (arrive port w.arrived) ≡ ([], port1)
      → poll_exact timeout (suc n) dl port (w ∷ ws)
        ≡ (if leb dl w.now then ended false [] port1 ws else poll_exact timeout (suc n) dl port1 ws)
  unfolding poll_exact
  poll_exact-quiet n dl port port1 w ws e = ground (arith, e)

  pub poll_exact-some :
      (n dl : ℕ) (port port1 : Port) (w : Poll) (ws : List Poll) (b : ℕ) (bs : List ℕ)
      → net_read (suc n) (arrive port w.arrived) ≡ (b ∷ bs, port1)
      → poll_exact timeout (suc n) dl port (w ∷ ws)
        ≡ behind (b ∷ bs) (poll_exact timeout (suc n - length (b ∷ bs)) (w.now + timeout) port1 ws)
  unfolding poll_exact
  poll_exact-some n dl port port1 w ws b bs e = ground (arith, e)

  poll_exact-Reads :
      (n dl : ℕ) (port : Port) (ws : List Poll)
      → IsOpen port
      → Reads n port ws (poll_exact timeout n dl port ws)
  poll_exact-Reads zero dl port ws o =
      unfold poll_exact in (refl, ([], refl, λ h. sym (append-nil (waiting port.rx))))
  poll_exact-Reads (suc n) dl port [] o = unfold poll_exact in tt
  poll_exact-Reads (suc n) dl port (w ∷ ws) o =
      let (bytes, port1) = net_read (suc n) (arrive port w.arrived) in
      let (o1, short, one) = one_poll (suc n) port w.arrived o in
      let rest = poll_exact timeout (suc n) dl port1 ws in
      elim (bytes_cases bytes) [
        | inl e ↦
            let quiet = rw e at one in
            rw (poll_exact-quiet n dl port port1 w ws (ap (λ l. (l, port1)) e))
              (elim (Bool-cases (leb dl w.now)) [
                | inl late ↦ rw late (
                  omega arith,
                  KeepsBytes-more port port1 port1 w ws ws [] [] quiet
                      ([], refl, λ h. sym (append-nil (waiting port1.rx))),
                )
                | inr early ↦ rw early (
                    subst (Reads (suc n) port (w ∷ ws)) (behind_none rest) (
                      Reads-more (suc n) port port1 w ws [] rest (omega arith) (omega arith) quiet
                        (rw (all_left (suc n)) (poll_exact-Reads (suc n) dl port1 ws o1))))
              ])
        | inr (b, bs, e) ↦ rw (poll_exact-some n dl port port1 w ws b bs (ap (λ l. (l, port1)) e)) (
            Reads-more (suc n) port port1 w ws (b ∷ bs) _ (omega (arith, short, ap length e))
              (omega arith) (rw e at one)
              (poll_exact-Reads (suc n - length (b ∷ bs)) (w.now + timeout) port1 ws o1))
      ]

  -- The loop of `read_exact`, polling the port while its interrupt stores what arrives, at whatever
  -- times, is the reader of bytes and silences: where it ends with all its bytes, these are what is
  -- read; where it ends at the deadline, it has fewer bytes, and they read as bytes with a silence
  -- behind them. As long as the ring has room for what arrives, no byte is lost, repeated or
  -- reordered.
  pub poll_exact-heard :
      (n dl : ℕ) (port port' : Port) (ws ws' : List Poll) (ok : Bool) (got : List ℕ)
      → IsOpen port
      → poll_exact timeout n dl port ws ≡ ended ok got port' ws'
      → ((rest : Input)
          → read_exact n (heard ok got rest) ≡ ((if ok then some got else none), rest))
        × KeepsBytes port ws got port' ws'
  poll_exact-heard n dl port port' ws ws' ok got o run =
      let (size, kept) = subst (Reads n port ws) run (poll_exact-Reads n dl port ws o) in
      (λ rest. HasLength-heard n ok got rest size, kept)
