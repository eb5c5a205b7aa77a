-- ===== src/App.antt =====
-- firmware/src/main.c: the loop's assembly of command lines out of the bytes that arrive.
pub mod Lines
pub mod Dispatch
pub mod Loop
pub mod Start
pub mod SelfTest
use rp2040_eth_panel.Prelude.{
  ℕ, zero, suc, ◌-◌, Bool, true, false, List, [], ◌∷◌, ◌++◌, length, ltb, ◌==◌, if◌then◌else◌,
}

-- `sizeof(linebuf)`
abbrev pub linebuf_size : ℕ
linebuf_size = 256

-- `linebuf` up to `linelen`, and `discard`.
pub record LineBuf : Type 0 where
  pub text : List ℕ
  pub discard : Bool

-- What the loop does with the bytes: a line for `dispatch`, or the error line.
pub data Outcome : Type 0 where
  dispatched : List ℕ → Outcome
  too_long : Outcome

-- What a new connection leaves (and the start of `main`).
abbrev pub empty_line : LineBuf
empty_line = record { text = []; discard = false }

-- One byte of the loop over `rxbuf`; 10 is '\n'.
unfoldable pub take_byte : LineBuf → ℕ → List Outcome × LineBuf
take_byte b ch =
    if ch == 10
    then (
      if b.discard then [] else if ltb 0 (length b.text) then dispatched b.text ∷ [] else [],
      empty_line,
    )
    else if b.discard
    then ([], b)
    else if ltb (length b.text) (linebuf_size - 1)
    then ([], record b { text = b.text ++ (ch ∷ []) })
    else (too_long ∷ [], record { text = []; discard = true })

-- The loop over the bytes that `net_read` returned.
unfoldable pub take_bytes : LineBuf → List ℕ → List Outcome × LineBuf
take_bytes b [] = ([], b)
take_bytes b (ch ∷ chs) =
    let (out, b') = take_byte b ch in let (rest, b'') = take_bytes b' chs in (out ++ rest, b'')
