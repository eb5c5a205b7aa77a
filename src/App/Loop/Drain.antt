-- ===== src/App/Loop/Drain.antt =====
-- How the main loop of firmware/src/main.c works off the receive ring.
use rp2040_eth_panel.Prelude.{
  ℕ, zero, suc, ◌-◌, ◌*◌, ◌≤◌, ◌≡◌, ◌⊎◌, inl, inr, refl, sym, ap, ap₂, ◌∙◌, Bool, true, false, not,
  ◌&&◌, if◌then◌else◌, List, [], ◌∷◌, ◌++◌, length, take, drop, All, subst, Bool-cases, arith,
}
use rp2040_eth_panel.Net.{arrive, net_rx_flush}
use rp2040_eth_panel.Net.Ring.{waiting, enqueue_all}
use rp2040_eth_panel.Net.Open.{IsOpen, arrive-IsOpen, net_read-IsOpen}
use rp2040_eth_panel.StatusLed.{status_led_task}
use rp2040_eth_panel.App.{LineBuf, Outcome, empty_line, take_bytes}
use rp2040_eth_panel.App.Lines.{take_bytes-append}
use rp2040_eth_panel.App.Dispatch.{Device, receive, send_hello}
use rp2040_eth_panel.App.Loop.Linger.{pass-eq-moved_pass}
use rp2040_eth_panel.App.Loop.{
  Station, Inputs, Outputs, greet, read_commands, pass, run, net_peer_connected, rxbuf_size,
}

-- Nothing arrives, and the connection stays as it is.
pub record IsQuiet (connected : Bool) (i : Inputs) : Type 0 where
  pub peer_same : net_peer_connected i.tcps ≡ connected
  pub none_early : i.early ≡ []
  pub none_lingering : i.lingering ≡ []
  pub none_late : i.late ≡ []

take-append-drop : (n : ℕ) (xs : List ℕ) → take n xs ++ drop n xs ≡ xs
take-append-drop zero xs = refl
take-append-drop (suc n) [] = refl
take-append-drop (suc n) (x ∷ xs) = ap (λ l. x ∷ l) (take-append-drop n xs)

length-drop : (n : ℕ) (xs : List ℕ) → length (drop n xs) ≡ length xs - n
length-drop zero xs = omega arith
length-drop (suc n) [] = omega arith
length-drop (suc n) (x ∷ xs) = omega (arith, length-drop n xs)

empty_of_length : (xs : List ℕ) → length xs ≤ 0 → xs ≡ []
empty_of_length [] h = refl
empty_of_length (x ∷ xs) h = absurd (omega arith)

no_edge : (peer was : Bool) → peer ≡ was → (peer && not was) ≡ false
no_edge peer was e = ground arith

greet_same :
    (device : Device) (peer : Bool) (s : Station)
    → peer ≡ s.peer_was_connected
    → greet device peer s ≡ (record s { peer_was_connected = peer }, [])
unfolding greet
greet_same device peer s e =
    let new : Station × List ℕ = (
      record s { port = net_rx_flush s.port; line = empty_line; peer_was_connected = peer },
      send_hello device s.panel,
    ) in
    let old : Station × List ℕ = (record s { peer_was_connected = peer }, []) in
    ap (λ (c : Bool). if c then new else old) (no_edge peer s.peer_was_connected e)

no_bytes : (xs ys : List ℕ) → xs ≡ [] → ys ≡ [] → xs ++ ys ≡ []
no_bytes xs ys p q = ap₂ ◌++◌ p q

-- A pass in which nothing arrives: the oldest 128 bytes go into the line, and no others.
pass-quiet :
    (device : Device) (connected : Bool) (i : Inputs) (s : Station)
    → IsOpen s.port
    → s.peer_was_connected ≡ connected
    → IsQuiet connected i
    → let s' = (pass device i s).0 in
      IsOpen s'.port
      × (s'.peer_was_connected ≡ connected)
      × (waiting s'.port.rx ≡ drop rxbuf_size (waiting s.port.rx))
      × (s'.line ≡ (take_bytes s.line (take rxbuf_size (waiting s.port.rx))).1)
unfolding read_commands receive
pass-quiet device connected i s o was q =
    let (o0, early) = arrive-IsOpen s.port o i.early in
    let p0 = arrive s.port i.early in
    let behind = i.lingering ++ i.late in
    let (o1, late) = arrive-IsOpen p0 o0 behind in
    let (o2, bytes, left) = net_read-IsOpen (arrive p0 behind) o1 rxbuf_size in
    let same =
      late
      ∙ ap₂ enqueue_all (early ∙ ap (enqueue_all (waiting s.port.rx)) q.none_early)
          (no_bytes i.lingering i.late q.none_lingering q.none_late) in
    let s0 : Station = record s { led = (status_led_task i.led_due s.led).0; port = p0 } in
    rw
      (
        pass-eq-moved_pass device i s o,
        greet_same device (net_peer_connected i.tcps) s0 (q.peer_same ∙ sym was),
      )
      (
        o2,
        q.peer_same,
        left ∙ ap (drop rxbuf_size) same,
        ap (λ l. (take_bytes s.line l).1) (bytes ∙ ap (take rxbuf_size) same),
      )

-- An update has been requested, or all that waited has gone into the line.
abbrev pub IsDrained : Station → Station → Type 0
IsDrained s s' =
    (s'.panel.update_requested ≡ true)
    ⊎ ((waiting s'.port.rx ≡ []) × (s'.line ≡ (take_bytes s.line (waiting s.port.rx)).1))

take_none : (b : LineBuf) → (take_bytes b []).1 ≡ b
unfolding take_bytes
take_none b = refl

IsDrained-later :
    (s s1 s' : Station)
    → waiting s1.port.rx ≡ drop 128 (waiting s.port.rx)
    → s1.line ≡ (take_bytes s.line (take 128 (waiting s.port.rx))).1
    → IsDrained s1 s'
    → IsDrained s s'
IsDrained-later s s1 s' left line (inl e) = inl e
IsDrained-later s s1 s' left line (inr (none_left, held)) =
    let queue = waiting s.port.rx in
    let whole = take_bytes-append s.line (take 128 queue) (drop 128 queue) in
    inr (
      none_left,
      held
          ∙ ap₂ (λ (b : LineBuf) l. (take_bytes b l).1) line left
          ∙ sym (ap (λ (t : List Outcome × LineBuf). t.1) whole)
          ∙ ap (λ l. (take_bytes s.line l).1) (take-append-drop 128 queue),
    )

run_lem :
    (device : Device) (i : Inputs) (is : List Inputs) (s : Station) (b : Bool)
    → s.panel.update_requested ≡ b
    → let rest = run device is (pass device i s).0 in
      run device (i ∷ is) s ≡ (if b then (s, []) else (rest.0, (pass device i s).1 ∷ rest.1))
unfolding run
run_lem device i is s b e =
    let rest = run device is (pass device i s).0 in
    let other : Station × List Outputs = (rest.0, (pass device i s).1 ∷ rest.1) in
    ap (λ (c : Bool). if c then (s, []) else other) e

-- While nothing arrives and the connection stays as it is, the passes of the loop work off the
-- receive ring, 128 bytes each: after enough of them (16 for a full ring) either an update has been
-- requested, or nothing waits any more and every byte that waited has gone into the line, in order.
pub run_drains :
    (device : Device) (connected : Bool) (is : List Inputs) (s : Station)
    → IsOpen s.port
    → s.peer_was_connected ≡ connected
    → All (IsQuiet connected) is
    → length (waiting s.port.rx) ≤ 128 * length is
    → IsDrained s (run device is s).0
unfolding run
run_drains device connected [] s o was q h =
    let none_left = empty_of_length (waiting s.port.rx) (omega arith) in
    inr (none_left, sym (ap (λ l. (take_bytes s.line l).1) none_left ∙ take_none s.line))
run_drains device connected (i ∷ is) s o was (q, qs) h =
    elim (Bool-cases s.panel.update_requested) [
      | inl e ↦
          subst (IsDrained s)
            (sym (ap (λ (t : Station × List Outputs). t.0) (run_lem device i is s true e))) (inl e)
      | inr e ↦
          let s1 = (pass device i s).0 in
          let queue = waiting s.port.rx in
          let (o', was', left, line) = pass-quiet device connected i s o was q in
          let shorter = ap length left ∙ length-drop 128 queue in
          let rest = run_drains device connected is s1 o' was' qs (omega (arith, shorter)) in
          subst (IsDrained s)
            (sym (ap (λ (t : Station × List Outputs). t.0) (run_lem device i is s false e)))
            (IsDrained-later s s1 (run device is s1).0 left line rest)
    ]
