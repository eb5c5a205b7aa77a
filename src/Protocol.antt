-- ===== src/Protocol.antt =====
-- firmware/src/protocol/protocol.{h,c}: the commands of the host, one JSON object per line. A C string
-- is the list of its bytes before the terminator; `int` and `long` have 32 bits on the RP2040.
pub mod Format
pub mod Numbers
pub mod Key
pub mod Object
use rp2040_eth_panel.Prelude.{
  ℕ, zero, suc, ◌+◌, ◌-◌, ◌*◌, ◌^◌, min, Bool, true, false, ◌&&◌, ◌||◌, List, [], ◌∷◌, ◌++◌, Option,
  none, some, and_then, length, same_bytes, leb, ◌==◌, if◌then◌else◌,
}
use rp2040_eth_panel.Prelude.Int.{ℤ, pos, negsuc, minus_one}
use rp2040_eth_panel.Prelude.Text.{codes}

-- '"', ':', ' ', '\t' and '-'
abbrev pub quote : ℕ
quote = 34

abbrev pub colon : ℕ
colon = 58

abbrev pub is_blank : ℕ → Bool
is_blank c = c == 32 || c == 9

abbrev pub minus : ℕ
minus = 45

abbrev pub is_digit : ℕ → Bool
is_digit c = leb 48 c && leb c 57

-- The text behind a prefix.
unfoldable pub strip_prefix : List ℕ → List ℕ → Option (List ℕ)
strip_prefix [] s = some s
strip_prefix (c ∷ p) [] = none
strip_prefix (c ∷ p) (d ∷ s) = if c == d then strip_prefix p s else none

unfoldable pub skip_blanks : List ℕ → List ℕ
skip_blanks [] = []
skip_blanks (c ∷ s) = if is_blank c then skip_blanks s else c ∷ s

-- `snprintf(pat, sizeof(pat), "\"%s\"", key)`; no key of the source is cut by the 40 bytes.
abbrev pub pattern_of : List ℕ → List ℕ
pattern_of key = quote ∷ key ++ (quote ∷ [])

-- A ':' between blanks, and the value behind it.
unfoldable pub colon_value : List ℕ → Option (List ℕ)
colon_value [] = none
colon_value (c ∷ q) = if c == colon then some (skip_blanks q) else none

unfoldable pub after_colon : List ℕ → Option (List ℕ)
after_colon s = colon_value (skip_blanks s)

-- The loop of `find_key`, with `skip` bytes to pass before the next search: a match that is no key is
-- passed whole.
unfoldable pub find_from : ℕ → List ℕ → List ℕ → Option (List ℕ)
find_from skip pat [] = none
find_from (suc skip) pat (c ∷ s) = find_from skip pat s
find_from zero pat (c ∷ s) =
    let next = find_from zero pat s in
    let past = find_from (length pat - 1) pat s in
    elim (strip_prefix pat (c ∷ s)) [
      | none ↦ next
      | some q ↦ elim (after_colon q) [ none ↦ past | some v ↦ some v ]
    ]

unfoldable pub find_key : List ℕ → List ℕ → Option (List ℕ)
find_key json key = find_from 0 (pattern_of key) json

-- The bytes before the closing '"', `n` at most.
unfoldable pub copy_str : ℕ → List ℕ → List ℕ
copy_str zero p = []
copy_str (suc n) [] = []
copy_str (suc n) (c ∷ p) = if c == quote then [] else c ∷ copy_str n p

-- `dstn` is the size of the buffer, with the terminator.
unfoldable pub string_value : ℕ → List ℕ → Option (List ℕ)
string_value dstn [] = none
string_value dstn (c ∷ p) = if c == quote then some (copy_str (dstn - 1) p) else none

unfoldable pub get_str : List ℕ → List ℕ → ℕ → Option (List ℕ)
get_str json key dstn = and_then (find_key json key) (string_value dstn)

-- The digits of `strtol`.
unfoldable pub digits_value : ℕ → List ℕ → ℕ
digits_value acc [] = acc
digits_value acc (c ∷ s) = if is_digit c then digits_value (acc * 10 + (c - 48)) s else acc

abbrev pub negative : ℕ → ℤ
negative zero = pos 0
negative (suc n) = negsuc n

-- `strtol(p, NULL, 10)` where `*p` is a '-' or a digit. It saturates.
unfoldable pub strtol : List ℕ → ℤ
strtol [] = pos 0
strtol (c ∷ s) =
    if c == minus
    then negative (min (2 ^ 31) (digits_value 0 s))
    else pos (min (2 ^ 31 - 1) (digits_value 0 (c ∷ s)))

unfoldable pub int_value : List ℕ → Option ℤ
int_value [] = none
int_value (c ∷ p) = if c == minus || is_digit c then some (strtol (c ∷ p)) else none

unfoldable pub get_int : List ℕ → List ℕ → Option ℤ
get_int json key = and_then (find_key json key) int_value

-- `strncmp(p, w, strlen(w)) == 0`
abbrev pub starts_with : List ℕ → List ℕ → Bool
starts_with w p = elim (strip_prefix w p) [ none ↦ false | some q ↦ true ]

-- One digit with no digit behind it.
unfoldable pub lone_digit : ℕ → List ℕ → Bool
lone_digit d [] = false
lone_digit d (c ∷ []) = c == d
lone_digit d (c ∷ e ∷ s) = if c == d then (if is_digit e then false else true) else false

unfoldable pub bool_value : List ℕ → Option ℕ
bool_value p =
    if starts_with (codes "true") p
    then some 1
    else if starts_with (codes "false") p
    then some 0
    else if lone_digit 49 p
    then some 1
    else if lone_digit 48 p
    then some 0
    else none

unfoldable pub get_bool : List ℕ → List ℕ → Option ℕ
get_bool json key = and_then (find_key json key) bool_value

-- `proto_cmd_type`
pub data ProtoCmdType : Type 0 where
  cmd_none cmd_ring cmd_lamp cmd_config cmd_ping cmd_ota cmd_hello cmd_unknown : ProtoCmdType

-- `proto_cmd`
pub record ProtoCmd : Type 0 where
  pub kind : ProtoCmdType
  pub id : ℤ
  pub r : ℤ
  pub g : ℤ
  pub b : ℤ
  pub brightness : ℤ
  pub on : ℤ
  pub debounce_ms : ℤ

-- `out` as `proto_parse` sets it first.
abbrev pub blank_cmd : ProtoCmd
blank_cmd = record {
  kind = cmd_none;
  id = minus_one;
  r = minus_one;
  g = minus_one;
  b = minus_one;
  brightness = minus_one;
  on = minus_one;
  debounce_ms = minus_one;
}

-- A field that `get_int` leaves alone keeps its -1.
abbrev pub int_or : Option ℤ → ℤ
int_or none = minus_one
int_or (some v) = v

abbrev pub bool_or : Option ℕ → ℤ
bool_or none = minus_one
bool_or (some n) = pos n

-- `proto_parse` behind a successful `get_str`.
unfoldable pub parse_fields : List ℕ → List ℕ → ProtoCmd
parse_fields line cmd =
    if same_bytes cmd (codes "ring")
    then record blank_cmd {
      kind = cmd_ring;
      id = int_or (get_int line (codes "id"));
      r = int_or (get_int line (codes "r"));
      g = int_or (get_int line (codes "g"));
      b = int_or (get_int line (codes "b"));
      brightness = int_or (get_int line (codes "brightness"));
    }
    else if same_bytes cmd (codes "lamp")
    then record blank_cmd { kind = cmd_lamp; on = bool_or (get_bool line (codes "on")) }
    else if same_bytes cmd (codes "config")
    then record blank_cmd {
      kind = cmd_config;
      debounce_ms = int_or (get_int line (codes "debounce_ms"));
    }
    else if same_bytes cmd (codes "ping")
    then record blank_cmd { kind = cmd_ping }
    else if same_bytes cmd (codes "ota")
    then record blank_cmd { kind = cmd_ota }
    else if same_bytes cmd (codes "hello")
    then record blank_cmd { kind = cmd_hello }
    else record blank_cmd { kind = cmd_unknown }

-- `none` is the result `false`, with which the caller does not read `out`.
unfoldable pub proto_parse : List ℕ → Option ProtoCmd
proto_parse line = and_then (get_str line (codes "cmd") 16) (λ cmd. some (parse_fields line cmd))
