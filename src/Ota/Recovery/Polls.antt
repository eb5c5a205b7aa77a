-- ===== src/Ota/Recovery/Polls.antt =====
-- The waiting loops of firmware/bootloader/recovery.c, round by round, with the clock: `read_exact`
-- and `read_command` poll the port of firmware/src/net/net.c until they have their bytes or a
-- deadline passes.
pub mod Exact
pub mod Ends
pub mod Command
use rp2040_eth_panel.Prelude.{
  ℕ, zero, suc, ◌+◌, ◌-◌, Bool, true, false, ◌&&◌, List, [], ◌∷◌, ◌++◌, length, leb, ltb, ◌==◌,
  if◌then◌else◌,
}
use rp2040_eth_panel.Net.{Port, arrive, net_read}
use rp2040_eth_panel.Ota.Reader.{is_magic}

-- One round of a loop: the bytes that the interrupt has stored since the last one, and the time in
-- milliseconds when the round looks at the clock. The clock of the SDK has 64 bits and is taken not
-- to wrap.
pub record Poll : Type 0 where
  pub arrived : List ℕ
  pub now : ℕ

-- Whether the loop has ended, and then: its result, the bytes that it took, the port, and the rounds
-- that were not needed.
pub data Polled : Type 0 where
  waits : Polled
  ended : Bool → List ℕ → Port → List Poll → Polled

-- Bytes taken before.
abbrev pub behind : List ℕ → Polled → Polled
behind bs waits = waits
behind bs (ended ok got port ws) = ended ok (bs ++ got) port ws

module _ (timeout : ℕ) where
  -- `read_exact` with `n` bytes to go and a deadline.
  unfoldable pub poll_exact : ℕ → ℕ → Port → List Poll → Polled
  poll_exact zero dl port ws = ended true [] port ws
  poll_exact (suc n) dl port [] = waits
  poll_exact (suc n) dl port (w ∷ ws) =
      let (bytes, port') = net_read (suc n) (arrive port w.arrived) in
      elim bytes [
        | [] ↦ if leb dl w.now then ended false [] port' ws else poll_exact (suc n) dl port' ws
        | b ∷ bs ↦ behind (b ∷ bs) (poll_exact (suc n - length (b ∷ bs)) (w.now + timeout) port' ws)
      ]

  -- `read_command` with the window, how many bytes are in it, and a deadline.
  unfoldable pub poll_command : ℕ → ℕ → ℕ → ℕ → ℕ → ℕ → Port → List Poll → Polled
  poll_command w0 w1 w2 w3 filled dl port [] = waits
  poll_command w0 w1 w2 w3 filled dl port (w ∷ ws) =
      let (bytes, port') = net_read 1 (arrive port w.arrived) in
      let filled' = if ltb filled 4 then filled + 1 else filled in
      elim bytes [
        | [] ↦
            if leb dl w.now
            then ended false [] port' ws
            else poll_command w0 w1 w2 w3 filled dl port' ws
        | b ∷ bs ↦ behind (b ∷ []) (
            if filled' == 4 && is_magic (w1 ∷ w2 ∷ w3 ∷ b ∷ [])
            then ended true [] port' ws
            else poll_command w1 w2 w3 b filled' (w.now + timeout) port' ws)
      ]
