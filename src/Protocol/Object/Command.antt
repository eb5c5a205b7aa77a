-- ===== src/Protocol/Object/Command.antt =====
-- The command that `proto_parse` of firmware/src/protocol/protocol.c reads off an object.
use rp2040_eth_panel.Prelude.{
  ℕ, ◌≡◌, refl, ap, ◌∙◌, List, Option, none, some, and_then, same_bytes, if◌then◌else◌, arith,
}
use rp2040_eth_panel.Prelude.Int.{ℤ}
use rp2040_eth_panel.Prelude.Text.{codes}
use rp2040_eth_panel.Protocol.{
  ProtoCmd, blank_cmd, cmd_ring, cmd_lamp, cmd_config, cmd_ping, cmd_ota, cmd_hello, cmd_unknown,
  int_value, bool_value, string_value, int_or, bool_or, get_str, get_int, get_bool, parse_fields,
  proto_parse,
}
use rp2040_eth_panel.Protocol.Object.{Fields, object_text}
use rp2040_eth_panel.Protocol.Object.Meaning.{
  field, int_of, flag_of, word_of, IsKey, AreSendable, find_key-object, extracted, int_value-text,
  string_value-text,
}
use rp2040_eth_panel.Protocol.Object.Booleans.{bool_value-text}

-- The number, the boolean and the string of 15 bytes at most under a key; -1 where there is none.
abbrev pub number_at : List ℕ → Fields → ℤ
number_at key fields = int_or (and_then (field key fields) int_of)

abbrev pub flag_at : List ℕ → Fields → ℤ
flag_at key fields = bool_or (and_then (field key fields) flag_of)

-- What an object commands.
abbrev pub command : List ℕ → Fields → ProtoCmd
command verb fields =
    if same_bytes verb (codes "ring")
    then record blank_cmd {
      kind = cmd_ring;
      id = number_at (codes "id") fields;
      r = number_at (codes "r") fields;
      g = number_at (codes "g") fields;
      b = number_at (codes "b") fields;
      brightness = number_at (codes "brightness") fields;
    }
    else if same_bytes verb (codes "lamp")
    then record blank_cmd { kind = cmd_lamp; on = flag_at (codes "on") fields }
    else if same_bytes verb (codes "config")
    then record blank_cmd {
      kind = cmd_config;
      debounce_ms = number_at (codes "debounce_ms") fields;
    }
    else if same_bytes verb (codes "ping")
    then record blank_cmd { kind = cmd_ping }
    else if same_bytes verb (codes "ota")
    then record blank_cmd { kind = cmd_ota }
    else if same_bytes verb (codes "hello")
    then record blank_cmd { kind = cmd_hello }
    else record blank_cmd { kind = cmd_unknown }

pointwise :
    (o : Option (List ℕ)) (f g : List ℕ → ProtoCmd)
    → ((verb : List ℕ) → f verb ≡ g verb)
    → and_then o (λ verb. some (f verb)) ≡ and_then o (λ verb. some (g verb))
pointwise none f g e = refl
pointwise (some verb) f g e = ap some (e verb)

module _ (fields : Fields) (h : AreSendable fields) where
  get_int-object :
      (key : List ℕ)
      → IsKey key
      → get_int (object_text fields) key ≡ and_then (field key fields) int_of
  unfolding get_int
  get_int-object key k =
      ap (λ (o : Option (List ℕ)). and_then o int_value) (find_key-object key fields k h)
      ∙ extracted int_value int_of key fields int_value-text h

  get_bool-object :
      (key : List ℕ)
      → IsKey key
      → get_bool (object_text fields) key ≡ and_then (field key fields) flag_of
  unfolding get_bool
  get_bool-object key k =
      ap (λ (o : Option (List ℕ)). and_then o bool_value) (find_key-object key fields k h)
      ∙ extracted bool_value flag_of key fields bool_value-text h

  get_str-object :
      (key : List ℕ) (size : ℕ)
      → IsKey key
      → get_str (object_text fields) key size ≡ and_then (field key fields) (word_of size)
  unfolding get_str
  get_str-object key size k =
      ap (λ (o : Option (List ℕ)). and_then o (string_value size)) (find_key-object key fields k h)
      ∙ extracted (string_value size) (word_of size) key fields (string_value-text size) h

  parse_fields-object :
      (verb : List ℕ) → parse_fields (object_text fields) verb ≡ command verb fields
  unfolding parse_fields
  parse_fields-object verb =
      rw
        (
          get_int-object (codes "id") (omega arith),
          get_int-object (codes "r") (omega arith),
          get_int-object (codes "g") (omega arith),
          get_int-object (codes "b") (omega arith),
          get_int-object (codes "brightness") (omega arith),
          get_bool-object (codes "on") (omega arith),
          get_int-object (codes "debounce_ms") (omega arith),
        )
        refl

  -- An object of any fields in any order, printed without blanks, with keys and strings that hold no
  -- quote and numbers below 2^31, is read back: without a string under "cmd" it is refused, and otherwise the
  -- first field under each key that the verb asks for gives the command its value, also where a
  -- string reads like the key; a field of another type, or none, leaves -1. Booleans may be 1 and 0.
  pub proto_parse-object :
      proto_parse (object_text fields)
      ≡ and_then
          (and_then (field (codes "cmd") fields) (word_of 16))
          (λ verb. some (command verb fields))
  unfolding proto_parse
  proto_parse-object =
      let line = object_text fields in
      ap (λ (o : Option (List ℕ)). and_then o (λ verb. some (parse_fields line verb)))
        (get_str-object (codes "cmd") 16 (omega arith))
      ∙ pointwise (and_then (field (codes "cmd") fields) (word_of 16)) (parse_fields line)
          (λ verb. command verb fields) parse_fields-object
