-- ===== src/Protocol/Numbers.antt =====
-- The decimal numbers of firmware/src/protocol/protocol.c, written by `%d` and `%lu` and read by `strtol`, and the
-- room that the lines need.
use rp2040_eth_panel.Prelude.{
  ℕ, zero, suc, ◌+◌, ◌-◌, ◌*◌, ◌/◌, ◌%◌, ◌^◌, ◌≤◌, ◌<◌, min, ◌≡◌, refl, ap, ◌∙◌, Bool, true, false,
  List, [], ◌∷◌, ◌++◌, length, length-append, All, All-append, some, ltb, ◌==◌, arith,
}
use native.Mathlib.Decide.{dec_lt}
use native.Mathlib.Omega.{pow_step}
use rp2040_eth_panel.Prelude.Text.{codes}
use rp2040_eth_panel.Prelude.Int.{pos}
use rp2040_eth_panel.Protocol.{is_digit, digits_value, strtol, minus}
use rp2040_eth_panel.Protocol.Format.{digits, decimal, finish, btn_rest, proto_fmt_btn}

abbrev pub AreDigits : List ℕ → Type 0
AreDigits l = All (λ c. is_digit c ≡ true) l

-- The text does not go on with a digit.
abbrev pub NoDigit : List ℕ → Type 0
NoDigit [] = Unit
NoDigit (c ∷ s) = is_digit c ≡ false

digits_value-append :
    (acc : ℕ) (xs ys : List ℕ)
    → AreDigits xs
    → digits_value acc (xs ++ ys) ≡ digits_value (digits_value acc xs) ys
unfolding digits_value
digits_value-append acc [] ys h = refl
digits_value-append acc (x ∷ xs) ys (h, hs) =
    rw h (digits_value-append (acc * 10 + (x - 48)) xs ys hs)

digits_value-stop : (acc : ℕ) (s : List ℕ) → NoDigit s → digits_value acc s ≡ acc
unfolding digits_value
digits_value-stop acc [] h = refl
digits_value-stop acc (c ∷ s) h = rw h refl

digits_value-one : (acc d : ℕ) → d < 10 → digits_value acc ((48 + d) ∷ []) ≡ acc * 10 + d
unfolding digits_value
digits_value-one acc d h = ground arith

ltb_lt : (a b : ℕ) → a < b → ltb a b ≡ true
ltb_lt a b h = ground arith

ltb_ge : (a b : ℕ) → b ≤ a → ltb a b ≡ false
ltb_ge a b h = ground arith

pub digit_lem : (d : ℕ) → d < 10 → is_digit (48 + d) ≡ true
digit_lem d h = ground arith

pub digits-AreDigits : (n v : ℕ) → AreDigits (digits n v)
unfolding digits
digits-AreDigits zero v = tt
digits-AreDigits (suc n) v = elim (dec_lt v 10) [
  | yes p ↦ rw (ltb_lt v 10 p) (digit_lem v p, tt)
  | no p ↦ rw (ltb_ge v 10 (omega (arith, p))) (
      All-append (λ c. is_digit c ≡ true) (digits n (v / 10)) ((48 + v % 10) ∷ [])
        (digits-AreDigits n (v / 10)) (digit_lem (v % 10) (omega arith), tt))
]

digits_value-digits : (n v : ℕ) → v < 10 ^ n → digits_value 0 (digits n v) ≡ v
unfolding digits
digits_value-digits zero v h = unfold digits_value in omega arith
digits_value-digits (suc n) v h = elim (dec_lt v 10) [
  | yes p ↦ rw (ltb_lt v 10 p) (digits_value-one 0 v p ∙ omega arith)
  | no p ↦ rw (ltb_ge v 10 (omega (arith, p))) (
      digits_value-append 0 (digits n (v / 10)) ((48 + v % 10) ∷ []) (digits-AreDigits n (v / 10))
      ∙ ap (λ (t : ℕ). digits_value t ((48 + v % 10) ∷ []))
          (digits_value-digits n (v / 10) (omega (arith, pow_step 10 n)))
      ∙ digits_value-one (v / 10) (v % 10) (omega arith)
      ∙ omega arith)
]

digit_no_minus : (c : ℕ) → is_digit c ≡ true → (c == minus) ≡ false
digit_no_minus c h = ground arith

strtol-digits :
    (xs rest : List ℕ)
    → AreDigits xs
    → 0 < length xs
    → digits_value 0 xs < 2 ^ 31
    → NoDigit rest
    → strtol (xs ++ rest) ≡ pos (digits_value 0 xs)
unfolding strtol
strtol-digits [] rest h some_digit small stop = absurd (omega arith)
strtol-digits (c ∷ xs) rest (h, hs) some_digit small stop =
    let whole =
      digits_value-append 0 (c ∷ xs) rest (h, hs)
      ∙ digits_value-stop (digits_value 0 (c ∷ xs)) rest stop in
    rw (digit_no_minus c h) (ap pos (ap (min (2 ^ 31 - 1)) whole ∙ omega (arith, small)))

pub digits-some : (n v : ℕ) → 0 < length (digits (suc n) v)
unfolding digits
digits-some n v = ground (arith, length-append (digits n (v / 10)) ((48 + v % 10) ∷ []))

-- A number below 2^31 that is written is read back, whatever follows that is no digit.
pub strtol-decimal :
    (v : ℕ) (rest : List ℕ) → v < 2 ^ 31 → NoDigit rest → strtol (decimal v ++ rest) ≡ pos v
strtol-decimal v rest small stop =
    let e = digits_value-digits 10 v (omega arith) in
    strtol-digits (decimal v) rest (digits-AreDigits 10 v) (digits-some 9 v) (omega (arith, e)) stop
    ∙ ap pos e

pub digits-length : (n v : ℕ) → length (digits n v) ≤ n
unfolding digits
digits-length zero v = omega arith
digits-length (suc n) v =
    ground (arith, digits-length n (v / 10), length-append (digits n (v / 10)) ((48 + v % 10) ∷ []))

pub finish_fits : (text : List ℕ) (n : ℕ) → length text < n → finish text n ≡ some text
unfolding finish
finish_fits text n h = ground arith

btn_rest-length : (pressed : Bool) (ms : ℕ) → length (btn_rest pressed ms) ≤ 29
btn_rest-length true ms =
    omega (arith, length-append (decimal ms) (codes "}\n"), digits-length 10 ms)
btn_rest-length false ms =
    omega (arith, length-append (decimal ms) (codes "}\n"), digits-length 10 ms)

-- The event line of a button is never cut: it fits the 64 bytes of the main loop, for any number,
-- level and time of 32 bits.
pub proto_fmt_btn_fits :
    (id ms : ℕ) (pressed : Bool)
    → id < 2 ^ 32
    → ms < 2 ^ 32
    → (line : List ℕ) × (proto_fmt_btn 64 id pressed ms ≡ some line) × (length line < 64)
unfolding proto_fmt_btn
proto_fmt_btn_fits id ms pressed p q =
    let line = codes "{\"t\":\"btn\",\"id\":" ++ (decimal id ++ btn_rest pressed ms) in
    let fits : length line < 64 = omega (
      arith,
      length-append (decimal id) (btn_rest pressed ms),
      digits-length 10 id,
      btn_rest-length pressed ms,
    ) in
    (line, finish_fits line 64 fits, fits)
