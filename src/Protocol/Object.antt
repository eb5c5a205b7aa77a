-- ===== src/Protocol/Object.antt =====
-- The objects that a host sends to firmware/src/protocol/protocol.c, printed without blanks.
pub mod Find
pub mod Meaning
pub mod Booleans
pub mod Command
use rp2040_eth_panel.Prelude.{
  ℕ, zero, suc, ◌+◌, ◌-◌, ◌≤◌, ◌<◌, ◌≡◌, ◌≢◌, refl, sym, ap, ap₂, ◌∙◌, Bool, true, false, ◌&&◌,
  List, [], ◌∷◌, ◌++◌, append_assoc, Option, none, some, inl, inr, Bool-cases, length,
  length-append, same_bytes, ◌==◌, ==_ne, ==_iff, ==_refl, All, if◌then◌else◌, arith,
}
use rp2040_eth_panel.Prelude.Text.{codes}
use rp2040_eth_panel.Protocol.{
  quote, colon, is_blank, is_digit, pattern_of, strip_prefix, skip_blanks, colon_value, after_colon,
  find_from, find_key,
}
use rp2040_eth_panel.Protocol.Format.{decimal}

-- The values of the protocol: numbers, booleans and strings.
pub data Value : Type 0 where
  number : ℕ → Value
  flag : Bool → Value
  word : List ℕ → Value

abbrev pub text_of : Value → List ℕ
text_of (number n) = decimal n
text_of (flag b) = if b then codes "true" else codes "false"
text_of (word w) = quote ∷ (w ++ (quote ∷ []))

abbrev pub Fields : Type 0
Fields = List (List ℕ × Value)

-- Fields behind a separator, up to the closing brace.
abbrev pub fields_text : ℕ → Fields → List ℕ
fields_text separator [] = b'}' ∷ []
fields_text separator ((key, v) ∷ fields) =
    separator ∷ quote ∷ (key ++ (quote ∷ colon ∷ (text_of v ++ fields_text b',' fields)))

-- The line for an object with a first field.
abbrev pub object_text : Fields → List ℕ
object_text fields = fields_text b'{' fields

-- The bytes of a string: no quote.
abbrev pub IsPlain : List ℕ → Type 0
IsPlain s = All (λ c. c ≢ quote) s

abbrev pub IsPlainValue : Value → Type 0
IsPlainValue (number n) = Unit
IsPlainValue (flag b) = Unit
IsPlainValue (word w) = IsPlain w

abbrev pub ArePlain : Fields → Type 0
ArePlain fields = All (λ f. IsPlain f.0 × IsPlainValue f.1) fields

-- The value of the first field with a key, and what follows it.
abbrev pub value_at : List ℕ → Fields → Option (List ℕ)
value_at key [] = none
value_at key ((k, v) ∷ fields) =
    if same_bytes k key then some (text_of v ++ fields_text b',' fields) else value_at key fields

pub strip_prefix-same : (p rest : List ℕ) → strip_prefix p (p ++ rest) ≡ some rest
unfolding strip_prefix
strip_prefix-same [] rest = refl
strip_prefix-same (c ∷ p) rest = rw (==_refl c) (strip_prefix-same p rest)

pub same_bytes-eq : (v w : List ℕ) → same_bytes v w ≡ true → v ≡ w
unfolding same_bytes
same_bytes-eq [] [] h = refl
same_bytes-eq [] (c ∷ w) h = cc
same_bytes-eq (c ∷ v) [] h = cc
same_bytes-eq (c ∷ v) (d ∷ w) h = elim (Bool-cases (c == d)) [
  | inl e ↦ ap₂ ◌∷◌ ((==_iff c d).0 e) (same_bytes-eq v w (rw e at h))
  | inr e ↦ cc (rw e at h)
]

-- Another quoted text does not match.
pub strip_prefix-other :
    (key w rest : List ℕ)
    → IsPlain key
    → IsPlain w
    → same_bytes w key ≡ false
    → strip_prefix (key ++ (quote ∷ [])) (w ++ (quote ∷ rest)) ≡ none
unfolding strip_prefix same_bytes
strip_prefix-other [] [] rest p q h = cc
strip_prefix-other [] (c ∷ w) rest p (ne, q) h = rw (==_ne quote c (λ e. ne (sym e))) refl
strip_prefix-other (k ∷ key) [] rest (ne, p) q h = rw (==_ne k quote ne) refl
strip_prefix-other (k ∷ key) (c ∷ w) rest (ne, p) (ne', q) h = elim (Bool-cases (k == c)) [
  | inl e ↦
      let same : (c == k) ≡ true = (==_iff c k).1 (sym ((==_iff k c).0 e)) in
      rw e (strip_prefix-other key w rest p q (rw same at h))
  | inr e ↦ rw e refl
]
