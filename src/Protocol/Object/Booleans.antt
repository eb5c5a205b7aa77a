-- ===== src/Protocol/Object/Booleans.antt =====
-- The booleans that firmware/src/protocol/protocol.c reads off an object, 1 and 0 included.
use rp2040_eth_panel.Prelude.{
  ℕ, ◌+◌, ◌/◌, ◌%◌, ◌<◌, ◌≡◌, refl, sym, ap₂, ◌∙◌, Bool, true, false, List, [], ◌∷◌, ◌++◌, none,
  some, inl, inr, Bool-cases, length, ltb, ltb→lt, ◌==◌, if◌then◌else◌, arith,
}
use rp2040_eth_panel.Prelude.Text.{codes}
use rp2040_eth_panel.Protocol.{quote, is_digit, strip_prefix, starts_with, lone_digit, bool_value}
use rp2040_eth_panel.Protocol.Format.{decimal, digits}
use rp2040_eth_panel.Protocol.Numbers.{AreDigits, NoDigit, digits-AreDigits, digits-some, digit_lem}
use rp2040_eth_panel.Protocol.Object.{Value, number, flag, word, text_of, Fields, fields_text}
use rp2040_eth_panel.Protocol.Object.Meaning.{IsSendable, flag_of, fields_text-NoDigit}

-- A digit starts no boolean.
no_boolean :
    (c : ℕ) (s : List ℕ)
    → is_digit c ≡ true
    → (starts_with (codes "true") (c ∷ s) ≡ false) × (starts_with (codes "false") (c ∷ s) ≡ false)
unfolding strip_prefix
no_boolean c s d = (ground arith, ground arith)

lone_digit-one :
    (e n : ℕ) (rest : List ℕ)
    → n < 10
    → NoDigit rest
    → lone_digit (48 + e) ((48 + n) ∷ rest) ≡ (n == e)
unfolding lone_digit
lone_digit-one e n [] h stop = ground arith
lone_digit-one e n (c ∷ rest) h stop = ground arith

lone_digit-more : (e c d : ℕ) (s : List ℕ) → is_digit d ≡ true → lone_digit e (c ∷ d ∷ s) ≡ false
unfolding lone_digit
lone_digit-more e c d s h = ground arith

lone_digit-other : (d c : ℕ) (s : List ℕ) → (c == d) ≡ false → lone_digit d (c ∷ s) ≡ false
unfolding lone_digit
lone_digit-other d c [] h = h
lone_digit-other d c (e ∷ s) h = rw h refl

-- Two digits at least.
lone_digit-many :
    (e x : ℕ) (s rest : List ℕ)
    → AreDigits s
    → 0 < length s
    → is_digit x ≡ true
    → lone_digit e ((s ++ (x ∷ [])) ++ rest) ≡ false
lone_digit-many e x [] rest h some_digit d = absurd (omega arith)
lone_digit-many e x (c ∷ []) rest h some_digit d = lone_digit-more e c x rest d
lone_digit-many e x (c ∷ c' ∷ s) rest (h, (h', hs)) some_digit d =
    lone_digit-more e c c' ((s ++ (x ∷ [])) ++ rest) h'

lone_digit-decimal :
    (e n : ℕ) (rest : List ℕ)
    → e < 10
    → NoDigit rest
    → lone_digit (48 + e) (decimal n ++ rest) ≡ (n == e)
unfolding digits
lone_digit-decimal e n rest h stop = elim (Bool-cases (ltb n 10)) [
  | inl small ↦ rw small (lone_digit-one e n rest (ltb→lt n 10 small) stop)
  | inr large ↦
      let other : (n == e) ≡ false = ground arith in
      let last : is_digit (48 + n % 10) ≡ true = digit_lem (n % 10) (omega arith) in
      rw large (
        lone_digit-many (48 + e) (48 + n % 10) (digits 9 (n / 10)) rest
          (digits-AreDigits 9 (n / 10)) (digits-some 8 (n / 10)) last
        ∙ sym other)
]

bool_value-digits :
    (s rest : List ℕ)
    → AreDigits s
    → 0 < length s
    → bool_value (s ++ rest) ≡ (
        if lone_digit 49 (s ++ rest)
        then some 1
        else if lone_digit 48 (s ++ rest)
        then some 0
        else none)
unfolding bool_value
bool_value-digits [] rest h some_digit = absurd (omega arith)
bool_value-digits (c ∷ s) rest (d, h) some_digit =
    let (no_true, no_false) = no_boolean c (s ++ rest) d in rw (no_true, no_false) refl

pub bool_value-text :
    (v : Value) (more : Fields)
    → IsSendable v
    → bool_value (text_of v ++ fields_text b',' more) ≡ flag_of v
bool_value-text (number n) more h =
    let rest = fields_text b',' more in
    let one = lone_digit-decimal 1 n rest (omega arith) (fields_text-NoDigit more) in
    let none_set = lone_digit-decimal 0 n rest (omega arith) (fields_text-NoDigit more) in
    bool_value-digits (decimal n) rest (digits-AreDigits 10 n) (digits-some 9 n)
    ∙ ap₂ (λ (a b : Bool). if a then some 1 else if b then some 0 else none) one none_set
bool_value-text (flag true) more h = unfold bool_value strip_prefix in refl
bool_value-text (flag false) more h = unfold bool_value strip_prefix in refl
bool_value-text (word w) more h =
    let rest = (w ++ (quote ∷ [])) ++ fields_text b',' more in
    let no_one = lone_digit-other 49 quote rest refl in
    let no_zero = lone_digit-other 48 quote rest refl in
    unfold bool_value strip_prefix in rw (no_one, no_zero) refl
