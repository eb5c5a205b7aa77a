-- ===== src/App/Dispatch/Objects.antt =====
-- A command of a host from its bytes to its effect: the loop of firmware/src/main.c over
-- `proto_parse` of firmware/src/protocol/protocol.c.
use rp2040_eth_panel.Prelude.{
  ℕ, ◌≤◌, ◌<◌, ◌≡◌, ◌≢◌, refl, ap, ◌∙◌, List, [], ◌∷◌, ◌++◌, append-nil, Option, some, and_then,
  length, All, ==_ne, if_both, arith,
}
use rp2040_eth_panel.Prelude.Text.{codes}
use rp2040_eth_panel.Protocol.{ProtoCmd, proto_parse}
use rp2040_eth_panel.Protocol.Object.{Fields, object_text}
use rp2040_eth_panel.Protocol.Object.Meaning.{field, word_of, AreSendable}
use rp2040_eth_panel.Protocol.Object.Command.{command, proto_parse-object}
use rp2040_eth_panel.App.{Outcome, LineBuf, dispatched, empty_line}
use rp2040_eth_panel.App.Lines.{IsLine, judge, take_bytes-lines}
use rp2040_eth_panel.App.Dispatch.{Panel, Device, run_parsed, dispatch, c_string, perform, receive}

-- What an object asks for, if it has a verb.
abbrev pub request : Fields → Option ProtoCmd
request fields =
    and_then (and_then (field (codes "cmd") fields) (word_of 16))
      (λ verb. some (command verb fields))

-- Text that is neither ended as a line nor as a C string.
abbrev pub IsText : List ℕ → Type 0
IsText s = All (λ c. (c ≢ 10) × (c ≢ 0)) s

IsText-IsLine : (s : List ℕ) → IsText s → IsLine s
IsText-IsLine [] h = tt
IsText-IsLine (c ∷ s) ((ne, _), h) = (ne, IsText-IsLine s h)

c_string-IsText : (s : List ℕ) → IsText s → c_string s ≡ s
unfolding c_string
c_string-IsText [] h = refl
c_string-IsText (c ∷ s) ((_, ne), h) = rw (==_ne c 0 ne) (ap (λ l. c ∷ l) (c_string-IsText s h))

perform-one :
    (device : Device) (line : List ℕ) (p : Panel)
    → perform device (dispatched line ∷ []) p ≡ dispatch device line p
unfolding perform
perform-one device line p =
    let (p', out) = dispatch device line p in
    if_both {A = Panel × List ℕ} (λ t. t ≡ (p', out)) p'.update_requested refl
      (ap (λ (l : List ℕ). (p', l)) (append-nil out))

short_line : (s : List ℕ) → 0 < length s → length s ≤ 255 → judge s ≡ dispatched s ∷ []
short_line s h h' = ground arith

-- An object of at most 255 bytes, printed without blanks and sent with its newline to a clean buffer,
-- is answered and carried out as the command that its fields mean, and the buffer is clean
-- afterwards. Keys and strings hold no quote, newline or zero byte, and numbers are below 2^31.
pub receive-object :
    (device : Device) (fields : Fields) (p : Panel)
    → AreSendable fields
    → IsText (object_text fields)
    → length (object_text fields) ≤ 255
    → receive device (object_text fields ++ (10 ∷ [])) empty_line p
      ≡ (let (p', out) = run_parsed device (request fields) p in (p', empty_line, out))
unfolding receive dispatch
receive-object device fields p sendable text short =
    let line = object_text fields in
    let cut = take_bytes-lines (line ∷ []) (IsText-IsLine line text, tt) in
    let one : judge line ++ [] ≡ dispatched line ∷ [] =
      append-nil (judge line) ∙ short_line line (starts fields) short in
    let meant =
      perform-one device line p
      ∙ ap (λ (l : List ℕ). run_parsed device (proto_parse l) p) (c_string-IsText line text)
      ∙ ap (λ (o : Option ProtoCmd). run_parsed device o p) (proto_parse-object fields sendable) in
    ap
      (λ (t : List Outcome × LineBuf).
        let (p', out) = perform device t.0 p in
        let all : Panel × LineBuf × List ℕ = (p', t.1, out) in all)
      (cut ∙ ap (λ os. (os, empty_line)) one)
    ∙ ap
        (λ (t : Panel × List ℕ). let all : Panel × LineBuf × List ℕ = (t.0, empty_line, t.1) in all)
        meant
  where
    starts : (fields : Fields) → 0 < length (object_text fields)
    starts [] = omega arith
    starts (f ∷ fields) = omega arith
