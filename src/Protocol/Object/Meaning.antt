-- ===== src/Protocol/Object/Meaning.antt =====
-- What firmware/src/protocol/protocol.c extracts from an object, field by field.
use rp2040_eth_panel.Prelude.{
  ℕ, zero, suc, ◌-◌, ◌^◌, ◌<◌, ◌≡◌, ◌≢◌, refl, ap, ◌∙◌, true, false, ◌||◌, List, [], ◌∷◌, ◌++◌,
  append_assoc, Option, none, some, and_then, inl, inr, Bool-cases, length, same_bytes, take, ◌==◌,
  ==_ne, All, if◌then◌else◌, arith,
}
use rp2040_eth_panel.Prelude.Int.{ℤ, pos}
use rp2040_eth_panel.Protocol.{
  quote, colon, is_digit, minus, find_key, copy_str, string_value, int_value, strtol,
}
use rp2040_eth_panel.Protocol.Format.{decimal}
use rp2040_eth_panel.Protocol.Numbers.{
  AreDigits, NoDigit, digits-AreDigits, digits-some, strtol-decimal,
}
use rp2040_eth_panel.Protocol.Object.{
  Value, number, flag, word, text_of, Fields, fields_text, object_text, IsPlain, IsPlainValue,
  ArePlain, value_at,
}
use rp2040_eth_panel.Protocol.Object.Find.{find_from-fields}

-- The first field with a key.
abbrev pub field : List ℕ → Fields → Option Value
field key [] = none
field key ((k, v) ∷ fields) = if same_bytes k key then some v else field key fields

-- A number; a boolean, or 1 or 0 for one; a string, cut to a buffer.
abbrev pub int_of : Value → Option ℤ
int_of (number n) = some (pos n)
int_of _ = none

abbrev pub flag_of : Value → Option ℕ
flag_of (number n) = if n == 1 then some 1 else if n == 0 then some 0 else none
flag_of (flag b) = if b then some 1 else some 0
flag_of (word w) = none

abbrev pub word_of : ℕ → Value → Option (List ℕ)
word_of size (word w) = some (take (size - 1) w)
word_of size _ = none

-- Strings have no quotes, and numbers are those of an `int`.
abbrev pub IsSendable : Value → Type 0
IsSendable (number n) = n < 2 ^ 31
IsSendable (flag b) = Unit
IsSendable (word w) = IsPlain w

-- A key that the search tells from what stands behind a string.
abbrev pub IsKey : List ℕ → Type 0
IsKey [] = ⊥
IsKey (k ∷ key) = IsPlain (k ∷ key) × (k ≢ colon) × (k ≢ b',') × (k ≢ b'}')

abbrev pub AreSendable : Fields → Type 0
AreSendable fields = All (λ f. IsPlain f.0 × IsSendable f.1) fields

IsSendable-IsPlainValue : (v : Value) → IsSendable v → IsPlainValue v
IsSendable-IsPlainValue (number n) h = tt
IsSendable-IsPlainValue (flag b) h = tt
IsSendable-IsPlainValue (word w) h = h

AreSendable-ArePlain : (fields : Fields) → AreSendable fields → ArePlain fields
AreSendable-ArePlain [] h = tt
AreSendable-ArePlain ((k, v) ∷ fields) ((p, q), h) =
    ((p, IsSendable-IsPlainValue v q), AreSendable-ArePlain fields h)

pub find_key-object :
    (key : List ℕ) (fields : Fields)
    → IsKey key
    → AreSendable fields
    → find_key (object_text fields) key ≡ value_at key fields
unfolding find_key
find_key-object [] fields no_key h = elim no_key [ ]
find_key-object (k ∷ key) fields (plain, not_colon, not_comma, not_brace) h =
    find_from-fields k key plain (not_colon, not_comma, not_brace) b'{' fields (omega arith)
      (AreSendable-ArePlain fields h)

pub fields_text-NoDigit : (fields : Fields) → NoDigit (fields_text b',' fields)
fields_text-NoDigit [] = refl
fields_text-NoDigit ((k, v) ∷ fields) = refl

-- An extraction that reads a value of the first field with the key, reads it off the object.
pub extracted :
    {A : Type 0} (read : List ℕ → Option A) (meant : Value → Option A) (key : List ℕ)
    (fields : Fields)
    → ((v : Value) (more : Fields)
        → IsSendable v
        → read (text_of v ++ fields_text b',' more) ≡ meant v)
    → AreSendable fields
    → and_then (value_at key fields) read ≡ and_then (field key fields) meant
extracted read meant key [] each h = refl
extracted read meant key ((k, v) ∷ fields) each ((p, q), h) = elim (Bool-cases (same_bytes k key)) [
  | inl e ↦ rw e (each v fields q)
  | inr e ↦ rw e (extracted read meant key fields each h)
]

int_value-digits :
    (s rest : List ℕ)
    → AreDigits s
    → 0 < length s
    → int_value (s ++ rest) ≡ some (strtol (s ++ rest))
unfolding int_value
int_value-digits [] rest h some_digit = absurd (omega arith)
int_value-digits (c ∷ s) rest (d, h) some_digit = rw (digit_or_minus c d) refl
  where
    digit_or_minus : (c : ℕ) → is_digit c ≡ true → (c == minus || is_digit c) ≡ true
    digit_or_minus c d = ground arith

string_value-digits :
    (size : ℕ) (s rest : List ℕ) → AreDigits s → 0 < length s → string_value size (s ++ rest) ≡ none
unfolding string_value
string_value-digits size [] rest h some_digit = absurd (omega arith)
string_value-digits size (c ∷ s) rest (d, h) some_digit = rw (digit_no_quote c d) refl
  where
    digit_no_quote : (c : ℕ) → is_digit c ≡ true → (c == quote) ≡ false
    digit_no_quote c d = ground arith

pub int_value-text :
    (v : Value) (more : Fields)
    → IsSendable v
    → int_value (text_of v ++ fields_text b',' more) ≡ int_of v
unfolding int_value
int_value-text (number n) more h =
    int_value-digits (decimal n) (fields_text b',' more) (digits-AreDigits 10 n) (digits-some 9 n)
    ∙ ap some (strtol-decimal n (fields_text b',' more) h (fields_text-NoDigit more))
int_value-text (flag true) more h = refl
int_value-text (flag false) more h = refl
int_value-text (word w) more h = refl

copy_str-plain : (n : ℕ) (w rest : List ℕ) → IsPlain w → copy_str n (w ++ (quote ∷ rest)) ≡ take n w
unfolding copy_str
copy_str-plain zero w rest h = refl
copy_str-plain (suc n) [] rest h = refl
copy_str-plain (suc n) (c ∷ w) rest (ne, h) =
    rw (==_ne c quote ne) (ap (λ l. c ∷ l) (copy_str-plain n w rest h))

pub string_value-text :
    (size : ℕ) (v : Value) (more : Fields)
    → IsSendable v
    → string_value size (text_of v ++ fields_text b',' more) ≡ word_of size v
unfolding string_value
string_value-text size (number n) more h =
    string_value-digits size (decimal n) (fields_text b',' more) (digits-AreDigits 10 n)
      (digits-some 9 n)
string_value-text size (flag true) more h = refl
string_value-text size (flag false) more h = refl
string_value-text size (word w) more h = ap some (
    ap (copy_str (size - 1)) (append_assoc w (quote ∷ []) (fields_text b',' more))
    ∙ copy_str-plain (size - 1) w _ h)
