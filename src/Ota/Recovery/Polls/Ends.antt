-- ===== src/Ota/Recovery/Polls/Ends.antt =====
-- The polling loop of `read_exact` (firmware/bootloader/recovery.c) ends.
use rp2040_eth_panel.Prelude.{
  ℕ, zero, suc, ◌+◌, ◌-◌, ◌*◌, ◌≤◌, ◌<◌, ◌≡◌, refl, ap, Bool, if◌then◌else◌, List, [], ◌∷◌, length,
  leb, Bool-cases, inl, inr, none, some, arith,
}
use native.Mathlib.Nat.{suc-mul, mul-le-mul_right}
use rp2040_eth_panel.Net.{Port, arrive, net_read}
use rp2040_eth_panel.Net.Open.{IsOpen}
use rp2040_eth_panel.Ota.Reader.{Input, read_exact}
use rp2040_eth_panel.Ota.Recovery.Polls.{Poll, Polled, waits, ended, behind, poll_exact}
use rp2040_eth_panel.Ota.Recovery.Polls.Exact.{
  heard, KeepsBytes, one_poll, bytes_cases, poll_exact-quiet, poll_exact-some, poll_exact-heard,
}

-- The clock does not run backwards, and a round takes at most `gap`.
abbrev pub IsSteady : ℕ → ℕ → List Poll → Type 0
IsSteady gap t [] = Unit
IsSteady gap t (w ∷ ws) = (t ≤ w.now) × (w.now ≤ t + gap) × IsSteady gap w.now ws

-- When the rounds are over.
abbrev pub time_after : ℕ → List Poll → ℕ
time_after t [] = t
time_after t (w ∷ ws) = time_after w.now ws

abbrev IsEnded : Polled → Type 0
IsEnded waits = ⊥
IsEnded (ended ok got port ws) = Unit

IsEnded-behind : (bs : List ℕ) (r : Polled) → IsEnded r → IsEnded (behind bs r)
IsEnded-behind bs waits h = h
IsEnded-behind bs (ended ok got port ws) h = tt

module _ (timeout gap : ℕ) (positive : 0 < timeout) where
  -- The time for fewer bytes.
  fewer : (k n : ℕ) → (suc n - suc k) * (timeout + gap) ≤ n * (timeout + gap)
  fewer k n = let less : suc n - suc k ≤ n = omega arith in mul-le-mul_right (timeout + gap) less

  poll_exact-IsEnded :
      (n t dl : ℕ) (port : Port) (ws : List Poll)
      → IsOpen port
      → t ≤ dl
      → IsSteady gap t ws
      → dl + n * (timeout + gap) ≤ time_after t ws
      → IsEnded (poll_exact timeout n dl port ws)
  poll_exact-IsEnded zero t dl port ws o h steady long = unfold poll_exact in tt
  poll_exact-IsEnded (suc n) t dl port [] o h steady long =
      absurd (omega (arith, suc-mul n (timeout + gap)))
  poll_exact-IsEnded (suc n) t dl port (w ∷ ws) o h (later, soon, steady) long =
      let (bytes, port1) = net_read (suc n) (arrive port w.arrived) in
      let (o1, short, one) = one_poll (suc n) port w.arrived o in
      elim (bytes_cases bytes) [
        | inl e ↦
            rw (poll_exact-quiet timeout n dl port port1 w ws (ap (λ l. (l, port1)) e))
              (elim (Bool-cases (leb dl w.now)) [
                | inl late ↦ rw late tt
                | inr early ↦ rw early (
                    poll_exact-IsEnded (suc n) w.now dl port1 ws o1 (ground (arith, early)) steady
                      long)
              ])
        | inr (b, bs, e) ↦
            rw (poll_exact-some timeout n dl port port1 w ws b bs (ap (λ l. (l, port1)) e)) (
              IsEnded-behind (b ∷ bs) _ (
                poll_exact-IsEnded (suc n - length (b ∷ bs)) w.now (w.now + timeout) port1 ws o1
                  (omega arith) steady
                  (omega (arith, suc-mul n (timeout + gap), fewer (length bs) n))))
      ]

  ended_cases :
      (r : Polled)
      → IsEnded r
      → (ok : Bool) × (got : List ℕ) × (port' : Port) × (ws' : List Poll) × (r
          ≡ ended ok got port' ws')
  ended_cases waits h = absurd h
  ended_cases (ended ok got port' ws') h = (ok, got, port', ws', refl)

  -- `read_exact` ends, whatever arrives and whenever, while the clock does not run backwards and a
  -- round takes at most `gap`: for `n` bytes within the timeout, and once more the timeout and the
  -- gap for each byte. The port has its interrupt enabled. And what the loop then gives is what the
  -- reader of bytes and silences gives: all the bytes, or a timeout behind fewer than those. As long
  -- as the ring has room for what arrives, no byte is lost, repeated or reordered.
  pub poll_exact_ends :
      (n t : ℕ) (port : Port) (ws : List Poll)
      → IsOpen port
      → IsSteady gap t ws
      → t + timeout + n * (timeout + gap) ≤ time_after t ws
      → (ok : Bool) × (got : List ℕ) × (port' : Port) × (ws' : List Poll) × (poll_exact timeout n
            (t + timeout)
            port
            ws
          ≡ ended ok got port' ws')
        × ((rest : Input)
            → read_exact n (heard ok got rest) ≡ ((if ok then some got else none), rest))
        × KeepsBytes port ws got port' ws'
  poll_exact_ends n t port ws o steady long =
      let (ok, got, port', ws', run) =
        ended_cases (poll_exact timeout n (t + timeout) port ws)
          (poll_exact-IsEnded n t (t + timeout) port ws o (omega arith) steady long) in
      let (same, kept) = poll_exact-heard timeout n (t + timeout) port port' ws ws' ok got o run in
      (ok, got, port', ws', run, same, kept)
