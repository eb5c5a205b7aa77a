-- ===== src/Protocol/Object/Find.antt =====
-- What `find_key` of firmware/src/protocol/protocol.c finds in an object.
use rp2040_eth_panel.Prelude.{
  ℕ, ◌-◌, ◌<◌, ◌≡◌, ◌≢◌, refl, sym, ap, ap₂, ◌∙◌, Bool, true, false, List, [], ◌∷◌, ◌++◌,
  append_assoc, none, some, inl, inr, Bool-cases, length, same_bytes, ==_ne, arith,
}
use rp2040_eth_panel.Protocol.{
  quote, colon, is_blank, is_digit, pattern_of, strip_prefix, skip_blanks, colon_value, after_colon,
  find_from,
}
use rp2040_eth_panel.Protocol.Format.{decimal}
use rp2040_eth_panel.Protocol.Numbers.{AreDigits, digits-AreDigits, digits-some}
use rp2040_eth_panel.Protocol.Key.{find_from_miss, find_from_other, find_from_hit}
use rp2040_eth_panel.Protocol.Object.{
  Value, number, flag, word, text_of, Fields, fields_text, IsPlain, IsPlainValue, ArePlain,
  value_at, strip_prefix-same, strip_prefix-other, same_bytes-eq,
}

strip_prefix-quote : (p s : List ℕ) → strip_prefix (quote ∷ p) (quote ∷ s) ≡ strip_prefix p s
unfolding strip_prefix
strip_prefix-quote p s = refl

find_from-skip : (s rest pat : List ℕ) → find_from (length s) pat (s ++ rest) ≡ find_from 0 pat rest
unfolding find_from
find_from-skip [] rest pat = refl
find_from-skip (c ∷ s) rest pat = find_from-skip s rest pat

AreDigits-IsPlain : (s : List ℕ) → AreDigits s → IsPlain s
AreDigits-IsPlain [] h = tt
AreDigits-IsPlain (c ∷ s) (d, h) = (digit_no_quote c d, AreDigits-IsPlain s h)
  where
    digit_no_quote : (c : ℕ) → is_digit c ≡ true → c ≢ quote
    digit_no_quote c d e = ground arith

decimal-IsPlain : (n : ℕ) → IsPlain (decimal n)
decimal-IsPlain n = AreDigits-IsPlain (decimal n) (digits-AreDigits 10 n)

flag-IsPlain : (b : Bool) → IsPlain (text_of (flag b))
flag-IsPlain true = omega arith
flag-IsPlain false = omega arith

skip_blanks-digits :
    (s rest : List ℕ) → AreDigits s → 0 < length s → skip_blanks (s ++ rest) ≡ s ++ rest
unfolding skip_blanks
skip_blanks-digits [] rest h some_digit = absurd (omega arith)
skip_blanks-digits (c ∷ s) rest (d, h) some_digit = rw (digit_no_blank c d) refl
  where
    digit_no_blank : (c : ℕ) → is_digit c ≡ true → is_blank c ≡ false
    digit_no_blank c d = ground arith

-- The value stands directly behind the colon.
after_colon-value :
    (v : Value) (rest : List ℕ)
    → after_colon (colon ∷ (text_of v ++ rest)) ≡ some (text_of v ++ rest)
unfolding after_colon colon_value skip_blanks
after_colon-value (number n) rest =
    ap some (skip_blanks-digits (decimal n) rest (digits-AreDigits 10 n) (digits-some 9 n))
after_colon-value (flag true) rest = refl
after_colon-value (flag false) rest = refl
after_colon-value (word w) rest = refl

find_from-nil : (pat : List ℕ) → find_from 0 pat [] ≡ none
unfolding find_from
find_from-nil pat = refl

-- The search for a key that is not empty and does not start like what follows a string.
module _ (k : ℕ) (key : List ℕ) (plain : IsPlain (k ∷ key))
    (head : (k ≢ colon) × (k ≢ b',') × (k ≢ b'}')) where
  abbrev pattern : List ℕ
  pattern = pattern_of (k ∷ key)

  miss_plain :
      (s rest : List ℕ) → IsPlain s → find_from 0 pattern (s ++ rest) ≡ find_from 0 pattern rest
  miss_plain [] rest h = refl
  miss_plain (c ∷ s) rest (ne, h) =
      find_from_miss c pattern (s ++ rest)
        (unfold strip_prefix in rw (==_ne quote c (λ e. ne (sym e))) refl)
      ∙ miss_plain s rest h

  miss_closing :
      (d : ℕ) (rest : List ℕ)
      → k ≢ d
      → find_from 0 pattern (quote ∷ d ∷ rest) ≡ find_from 0 pattern (d ∷ rest)
  miss_closing d rest ne =
      find_from_miss quote pattern (d ∷ rest) (unfold strip_prefix in rw (==_ne k d ne) refl)

  miss_other :
      (w rest : List ℕ)
      → IsPlain w
      → same_bytes w (k ∷ key) ≡ false
      → find_from 0 pattern (quote ∷ (w ++ (quote ∷ rest))) ≡ find_from 0 pattern (quote ∷ rest)
  miss_other w rest h other =
      find_from_miss quote pattern (w ++ (quote ∷ rest)) (
        strip_prefix-quote (k ∷ key ++ (quote ∷ [])) (w ++ (quote ∷ rest))
        ∙ strip_prefix-other (k ∷ key) w rest plain h other)
      ∙ miss_plain w (quote ∷ rest) h

  -- A string value that reads like the key is passed whole.
  miss_same :
      (d : ℕ) (rest : List ℕ)
      → after_colon (d ∷ rest) ≡ none
      → find_from 0 pattern (quote ∷ (k ∷ key ++ (quote ∷ d ∷ rest)))
        ≡ find_from 0 pattern (d ∷ rest)
  miss_same d rest no_colon =
      let body = k ∷ key ++ (quote ∷ []) in
      let whole = append_assoc (k ∷ key) (quote ∷ []) (d ∷ rest) in
      let counted : length pattern - 1 ≡ length body = omega arith in
      let found =
        ap (strip_prefix pattern) (ap (λ l. quote ∷ l) (sym whole))
        ∙ strip_prefix-quote body (body ++ (d ∷ rest))
        ∙ strip_prefix-same body (d ∷ rest) in
      find_from_other quote pattern (k ∷ key ++ (quote ∷ d ∷ rest)) (d ∷ rest) found no_colon
      ∙ ap₂ (λ (n : ℕ) l. find_from n pattern l) counted (sym whole)
      ∙ find_from-skip body (d ∷ rest) pattern

  -- A value is passed, if what follows it cannot start the key nor make the value one.
  miss_value :
      (v : Value) (d : ℕ) (rest : List ℕ)
      → IsPlainValue v
      → k ≢ d
      → after_colon (d ∷ rest) ≡ none
      → find_from 0 pattern (text_of v ++ (d ∷ rest)) ≡ find_from 0 pattern (d ∷ rest)
  miss_value (number n) d rest h ne no_colon = miss_plain (decimal n) (d ∷ rest) (decimal-IsPlain n)
  miss_value (flag b) d rest h ne no_colon =
      miss_plain (text_of (flag b)) (d ∷ rest) (flag-IsPlain b)
  miss_value (word w) d rest h ne no_colon =
      ap (λ l. find_from 0 pattern (quote ∷ l)) (append_assoc w (quote ∷ []) (d ∷ rest))
      ∙ elim (Bool-cases (same_bytes w (k ∷ key))) [
        | inl e ↦
            ap (λ l. find_from 0 pattern (quote ∷ (l ++ (quote ∷ d ∷ rest))))
              (same_bytes-eq w (k ∷ key) e)
            ∙ miss_same d rest no_colon
        | inr e ↦ miss_other w (d ∷ rest) h e ∙ miss_closing d rest ne
      ]

  miss_value_fields :
      (v : Value) (fields : Fields)
      → IsPlainValue v
      → find_from 0 pattern (text_of v ++ fields_text b',' fields)
        ≡ find_from 0 pattern (fields_text b',' fields)
  miss_value_fields v [] h =
      miss_value v b'}' [] h head.2 (unfold after_colon skip_blanks colon_value in refl)
  miss_value_fields v ((key', v') ∷ fields) h =
      miss_value v b','
        (quote ∷ (key' ++ (quote ∷ colon ∷ (text_of v' ++ fields_text b',' fields)))) h head.1
        (unfold after_colon skip_blanks colon_value in refl)

  hit :
      (v : Value) (more : List ℕ)
      → find_from 0 pattern (quote ∷ (k ∷ key ++ (quote ∷ colon ∷ (text_of v ++ more))))
        ≡ some (text_of v ++ more)
  hit v more =
      let body = k ∷ key ++ (quote ∷ []) in
      let rest = colon ∷ (text_of v ++ more) in
      let whole = append_assoc (k ∷ key) (quote ∷ []) rest in
      find_from_hit quote pattern (k ∷ key ++ (quote ∷ rest)) rest (text_of v ++ more)
        (ap (strip_prefix pattern) (ap (λ l. quote ∷ l) (sym whole))
          ∙ strip_prefix-quote body (body ++ rest)
          ∙ strip_prefix-same body rest)
        (after_colon-value v more)

  -- The search finds the first field with the key, wherever the key also stands as a string.
  pub find_from-fields :
      (separator : ℕ) (fields : Fields)
      → separator ≢ quote
      → ArePlain fields
      → find_from 0 pattern (fields_text separator fields) ≡ value_at (k ∷ key) fields
  find_from-fields separator [] ne h =
      miss_plain (b'}' ∷ []) [] (omega arith) ∙ find_from-nil pattern
  find_from-fields separator ((key', v) ∷ fields) ne ((plain_key, plain_value), h) =
      let more = fields_text b',' fields in
      let rest = colon ∷ (text_of v ++ more) in
      miss_plain (separator ∷ []) (quote ∷ (key' ++ (quote ∷ rest))) (ne, tt)
      ∙ elim (Bool-cases (same_bytes key' (k ∷ key))) [
        | inl e ↦ rw e (
            ap (λ l. find_from 0 pattern (quote ∷ (l ++ (quote ∷ rest))))
              (same_bytes-eq key' (k ∷ key) e)
            ∙ hit v more)
        | inr e ↦ rw e (
            miss_other key' rest plain_key e
            ∙ miss_closing colon (text_of v ++ more) head.0
            ∙ miss_plain (colon ∷ []) (text_of v ++ more) (omega arith)
            ∙ miss_value_fields v fields plain_value
            ∙ find_from-fields b',' fields (omega arith) h)
      ]
