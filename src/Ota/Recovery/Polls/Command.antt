-- ===== src/Ota/Recovery/Polls/Command.antt =====
-- The polling loop of `read_command` (firmware/bootloader/recovery.c) against the reader of bytes and
-- silences.
use rp2040_eth_panel.Prelude.{
  ℕ, ◌+◌, ◌≤◌, ◌≡◌, refl, sym, ap, ◌∙◌, Bool, true, false, ◌&&◌, if◌then◌else◌, List, [], ◌∷◌, ◌++◌,
  append-nil, length, leb, ltb, ◌==◌, Bool-cases, inl, inr, Option, none, some, subst, arith,
}
use rp2040_eth_panel.Net.{Port, arrive, net_read}
use rp2040_eth_panel.Net.Ring.{waiting}
use rp2040_eth_panel.Net.Open.{IsOpen}
use rp2040_eth_panel.Ota.Reader.{Input, is_magic, scan, read_command}
use rp2040_eth_panel.Ota.Recovery.Polls.{Poll, Polled, waits, ended, behind, poll_command}
use rp2040_eth_panel.Ota.Recovery.Polls.Exact.{
  heard, KeepsBytes, KeepsBytes-more, one_poll, bytes_cases,
}

-- The last four bytes that were taken.
abbrev pub last_four : ℕ → ℕ → ℕ → ℕ → List ℕ → List ℕ
last_four w0 w1 w2 w3 [] = w0 ∷ w1 ∷ w2 ∷ w3 ∷ []
last_four w0 w1 w2 w3 (b ∷ bs) = last_four w1 w2 w3 b bs

abbrev pub found : Bool → List ℕ → Option (List ℕ)
found true w = some w
found false w = none

-- The run of the loop, from a window, is the run of the scan.
abbrev Scans : ℕ → ℕ → ℕ → ℕ → ℕ → Port → List Poll → Polled → Type 0
Scans w0 w1 w2 w3 filled port ws waits = Unit
Scans w0 w1 w2 w3 filled port ws (ended ok got port' ws') =
    ((rest : Input)
      → scan w0 w1 w2 w3 filled (heard ok got rest) ≡ (found ok (last_four w0 w1 w2 w3 got), rest))
    × KeepsBytes port ws got port' ws'

-- The counter of the window, and whether the window is a command.
abbrev filled_by : ℕ → ℕ
filled_by filled = if ltb filled 4 then filled + 1 else filled

abbrev is_command : ℕ → List ℕ → Bool
is_command filled w = filled == 4 && is_magic w

module _ (w0 w1 w2 w3 filled b : ℕ) where
  scan-hit :
      (inp : Input)
      → is_command (filled_by filled) (w1 ∷ w2 ∷ w3 ∷ b ∷ []) ≡ true
      → scan w0 w1 w2 w3 filled (some b ∷ inp) ≡ (some (w1 ∷ w2 ∷ w3 ∷ b ∷ []), inp)
  unfolding scan
  scan-hit inp h =
      ap
        (λ (t : Bool). elim t [
          | true ↦ (some (w1 ∷ w2 ∷ w3 ∷ b ∷ []), inp)
          | false ↦ scan w1 w2 w3 b (filled_by filled) inp
        ])
        h

  scan-miss :
      (inp : Input)
      → is_command (filled_by filled) (w1 ∷ w2 ∷ w3 ∷ b ∷ []) ≡ false
      → scan w0 w1 w2 w3 filled (some b ∷ inp) ≡ scan w1 w2 w3 b (filled_by filled) inp
  unfolding scan
  scan-miss inp h =
      ap
        (λ (t : Bool). elim t [
          | true ↦ (some (w1 ∷ w2 ∷ w3 ∷ b ∷ []), inp)
          | false ↦ scan w1 w2 w3 b (filled_by filled) inp
        ])
        h

scan-silence :
    (w0 w1 w2 w3 filled : ℕ) (rest : Input) → scan w0 w1 w2 w3 filled (none ∷ rest) ≡ (none, rest)
unfolding scan
scan-silence w0 w1 w2 w3 filled rest = refl

-- A round in front that reads a byte and goes on.
Scans-more :
    (w0 w1 w2 w3 filled b : ℕ) (port port1 : Port) (w : Poll) (ws : List Poll) (r : Polled)
    → is_command (filled_by filled) (w1 ∷ w2 ∷ w3 ∷ b ∷ []) ≡ false
    → (length (waiting port.rx) + length w.arrived ≤ 2047
        → b ∷ waiting port1.rx ≡ waiting port.rx ++ w.arrived)
    → Scans w1 w2 w3 b (filled_by filled) port1 ws r
    → Scans w0 w1 w2 w3 filled port (w ∷ ws) (behind (b ∷ []) r)
Scans-more w0 w1 w2 w3 filled b port port1 w ws waits miss one h = tt
Scans-more w0 w1 w2 w3 filled b port port1 w ws (ended true got port' ws') miss one (same, kept) = (
  λ rest. scan-miss w0 w1 w2 w3 filled b (heard true got rest) miss ∙ same rest,
  KeepsBytes-more port port1 port' w ws ws' (b ∷ []) got one kept,
)
Scans-more w0 w1 w2 w3 filled b port port1 w ws (ended false got port' ws') miss one (same, kept) =
    (
      λ rest. scan-miss w0 w1 w2 w3 filled b (heard false got rest) miss ∙ same rest,
      KeepsBytes-more port port1 port' w ws ws' (b ∷ []) got one kept,
    )

-- A round in front that reads nothing and goes on.
Scans-idle :
    (w0 w1 w2 w3 filled : ℕ) (port port1 : Port) (w : Poll) (ws : List Poll) (r : Polled)
    → (length (waiting port.rx) + length w.arrived ≤ 2047
        → waiting port1.rx ≡ waiting port.rx ++ w.arrived)
    → Scans w0 w1 w2 w3 filled port1 ws r
    → Scans w0 w1 w2 w3 filled port (w ∷ ws) r
Scans-idle w0 w1 w2 w3 filled port port1 w ws waits one h = tt
Scans-idle w0 w1 w2 w3 filled port port1 w ws (ended ok got port' ws') one (same, kept) =
    (same, KeepsBytes-more port port1 port' w ws ws' [] got one kept)

at_most_one : (b : ℕ) (bs : List ℕ) → length (b ∷ bs) ≤ 1 → bs ≡ []
at_most_one b [] h = refl
at_most_one b (c ∷ bs) h = absurd (omega arith)

module _ (timeout : ℕ) where
  module _ (w0 w1 w2 w3 filled dl : ℕ) (port port1 : Port) (w : Poll) (ws : List Poll) where
    poll_command-quiet :
        net_read 1 (arrive port w.arrived) ≡ ([], port1)
        → poll_command timeout w0 w1 w2 w3 filled dl port (w ∷ ws) ≡ (
            if leb dl w.now
            then ended false [] port1 ws
            else poll_command timeout w0 w1 w2 w3 filled dl port1 ws)
    unfolding poll_command
    poll_command-quiet e = ground (arith, e)

    poll_command-byte :
        (b : ℕ) (bs : List ℕ)
        → net_read 1 (arrive port w.arrived) ≡ (b ∷ bs, port1)
        → poll_command timeout w0 w1 w2 w3 filled dl port (w ∷ ws)
          ≡ behind (b ∷ []) (
              if is_command (filled_by filled) (w1 ∷ w2 ∷ w3 ∷ b ∷ [])
              then ended true [] port1 ws
              else poll_command timeout w1 w2 w3 b (filled_by filled) (w.now + timeout) port1 ws)
    unfolding poll_command
    poll_command-byte b bs e = ground (arith, e)

  poll_command-Scans :
      (w0 w1 w2 w3 filled dl : ℕ) (port : Port) (ws : List Poll)
      → IsOpen port
      → Scans w0 w1 w2 w3 filled port ws (poll_command timeout w0 w1 w2 w3 filled dl port ws)
  poll_command-Scans w0 w1 w2 w3 filled dl port [] o = unfold poll_command in tt
  poll_command-Scans w0 w1 w2 w3 filled dl port (w ∷ ws) o =
      let (bytes, port1) = net_read 1 (arrive port w.arrived) in
      let (o1, short, one) = one_poll 1 port w.arrived o in
      elim (bytes_cases bytes) [
        | inl e ↦
            let quiet = rw e at one in
            rw (poll_command-quiet w0 w1 w2 w3 filled dl port port1 w ws (ap (λ l. (l, port1)) e))
              (elim (Bool-cases (leb dl w.now)) [
                | inl late ↦ rw late (
                  λ rest. scan-silence w0 w1 w2 w3 filled rest,
                  KeepsBytes-more port port1 port1 w ws ws [] [] quiet
                      ([], refl, λ h. sym (append-nil (waiting port1.rx))),
                )
                | inr early ↦ rw early (
                    Scans-idle w0 w1 w2 w3 filled port port1 w ws _ quiet
                      (poll_command-Scans w0 w1 w2 w3 filled dl port1 ws o1))
              ])
        | inr (b, bs, e) ↦
            let single : bs ≡ [] = at_most_one b bs (subst (λ l. length l ≤ 1) e short) in
            let moved = rw (e, single) at one in
            rw
              (poll_command-byte w0 w1 w2 w3 filled dl port port1 w ws b bs
                (ap (λ l. (l, port1)) e))
              (elim (Bool-cases (is_command (filled_by filled) (w1 ∷ w2 ∷ w3 ∷ b ∷ []))) [
                | inl hit ↦ rw hit (
                  λ rest. scan-hit w0 w1 w2 w3 filled b rest hit,
                  KeepsBytes-more port port1 port1 w ws ws (b ∷ []) [] moved
                      ([], refl, λ h. sym (append-nil (waiting port1.rx))),
                )
                | inr miss ↦ rw miss (
                    Scans-more w0 w1 w2 w3 filled b port port1 w ws _ miss moved (
                      poll_command-Scans w1 w2 w3 b (filled_by filled) (w.now + timeout) port1 ws
                        o1))
              ])
      ]

  -- The loop of `read_command`, polling a port with its interrupt enabled, at whatever times and
  -- whatever arrives, is the scan of bytes and silences: where it ends with a command, this is the
  -- command that is read, the last four bytes taken; where it ends at the deadline, the bytes taken
  -- read as bytes with a silence behind them. As long as the ring has room for what arrives, no byte
  -- is lost, repeated or reordered.
  pub poll_command-heard :
      (dl : ℕ) (port port' : Port) (ws ws' : List Poll) (ok : Bool) (got : List ℕ)
      → IsOpen port
      → poll_command timeout 0 0 0 0 0 dl port ws ≡ ended ok got port' ws'
      → ((rest : Input)
          → read_command (heard ok got rest) ≡ (found ok (last_four 0 0 0 0 got), rest))
        × KeepsBytes port ws got port' ws'
  unfolding read_command
  poll_command-heard dl port port' ws ws' ok got o run =
      subst (Scans 0 0 0 0 0 port ws) run (poll_command-Scans 0 0 0 0 0 dl port ws o)
