-- ===== src/StatusLed/Round.antt =====
-- The whole round of the digits in firmware/src/status_led/status_led.c.
use rp2040_eth_panel.Prelude.{
  ℕ, zero, suc, ◌+◌, ◌-◌, ◌≤◌, ◌<◌, ◌≡◌, ◌≢◌, All, refl, ap, ap₂, sym, ◌∙◌, true, false, List, [],
  ◌∷◌, ◌++◌, append_assoc, append-nil, inl, inr, Bool-cases, ◌/◌, ◌%◌, get_or, leb, arith,
}
use rp2040_eth_panel.StatusLed.{
  StatusLed, led_on, begin_digit, octet_digits, digit_count, next_phase, status_led_task,
  status_led_show_octet,
}
use rp2040_eth_panel.StatusLed.Flashes.{
  due_tasks, blinks, pulses, pulse_tasks, in_gap, spelled, begin_digit-blinks, octet_digits_lem,
}

-- The state at the first pulse of a digit.
abbrev begun : ℕ → StatusLed → StatusLed
begun i s = (begin_digit i (record s { di = i })).0

-- The calls from the first pulse of digit `i`, with `more` digits behind it, to that of digit 0.
abbrev pub round_tasks : List ℕ → ℕ → ℕ → ℕ
round_tasks digits i zero = pulse_tasks (pulses (get_or digits i 0) - 1) + 2
round_tasks digits i (suc more) =
    pulse_tasks (pulses (get_or digits i 0) - 1) + suc (round_tasks digits (i + 1) more)

-- What those digits show.
abbrev pub shown_digits : ℕ → List ℕ → ℕ → ℕ → List ℕ
shown_digits colour digits i zero = blinks colour (pulses (get_or digits i 0))
shown_digits colour digits i (suc more) =
    blinks colour (pulses (get_or digits i 0)) ++ shown_digits colour digits (i + 1) more

due_tasks-add :
    (a b : ℕ) (s : StatusLed)
    → due_tasks (a + b) s
      ≡ (let (s', out) = due_tasks a s in let (s'', rest) = due_tasks b s' in (s'', out ++ rest))
unfolding due_tasks
due_tasks-add zero b s =
    let none_more : 0 + b ≡ b = omega arith in ap (λ (n : ℕ). due_tasks n s) none_more
due_tasks-add (suc a) b s =
    let s1 = (status_led_task true s).0 in
    let word = (status_led_task true s).1 in
    let one_more : suc a + b ≡ suc (a + b) = omega arith in
    let (s', out) = due_tasks a s1 in
    let (s'', rest) = due_tasks b s' in
    ap (λ (n : ℕ). due_tasks n s) one_more
    ∙ ap (λ (t : StatusLed × List ℕ). (t.0, word ++ t.1)) (due_tasks-add a b s1)
    ∙ ap (λ l. (s'', l)) (sym (append_assoc word out rest))

step_on :
    (n : ℕ) (s s' : StatusLed) (word : ℕ)
    → status_led_task true s ≡ (s', word ∷ [])
    → due_tasks (suc n) s ≡ (let (s'', rest) = due_tasks n s' in (s'', word ∷ rest))
unfolding due_tasks
step_on n s s' word e =
    ap
      (λ (t : StatusLed × List ℕ).
        let (s'', rest) = due_tasks n t.0 in
        let both : StatusLed × List ℕ = (s'', t.1 ++ rest) in both)
      e

-- From the gap: the next digit, or behind the last one the repeat gap and then digit 0.
next_digit :
    (i : ℕ) (s : StatusLed)
    → leb s.ndigits (i + 1) ≡ false
    → status_led_task true (in_gap (begun i s)) ≡ (begun (i + 1) s, led_on s ∷ [])
unfolding status_led_task next_phase begin_digit
next_digit i s h = rw h refl

last_digit :
    (i : ℕ) (s : StatusLed)
    → leb s.ndigits (i + 1) ≡ true
    → due_tasks 2 (in_gap (begun i s)) ≡ (begun 0 s, led_on s ∷ [])
unfolding due_tasks status_led_task next_phase begin_digit
last_digit i s h = rw h refl

-- The digits from `i` on, up to the first pulse of digit 0.
round_from :
    (more i : ℕ) (s : StatusLed)
    → s.ndigits ≡ i + suc more
    → let (s', out) = due_tasks (round_tasks s.digits i more) (begun i s) in
      (s' ≡ begun 0 s)
      × (led_on s ∷ out ≡ shown_digits (led_on s) s.digits i more ++ (led_on s ∷ []))
unfolding begin_digit
round_from zero i s h =
    let a = pulse_tasks (pulses (get_or s.digits i 0) - 1) in
    let (lit, gap) = begin_digit-blinks (record s { di = i }) i in
    let halves = due_tasks-add a 2 (begun i s) in
    let last = ap (due_tasks 2) gap ∙ last_digit i s (ground arith) in
    let first = (due_tasks a (begun i s)).1 in
    (
      ap (λ (t : StatusLed × List ℕ). t.0)
          (halves ∙ ap (λ (t : StatusLed × List ℕ). (t.0, first ++ t.1)) last),
      ap (λ (t : StatusLed × List ℕ). led_on s ∷ t.1)
            (halves ∙ ap (λ (t : StatusLed × List ℕ). (t.0, first ++ t.1)) last)
          ∙ ap (λ l. l ++ (led_on s ∷ [])) lit,
    )
round_from (suc more) i s h =
    let a = pulse_tasks (pulses (get_or s.digits i 0) - 1) in
    let b = round_tasks s.digits (i + 1) more in
    let (lit, gap) = begin_digit-blinks (record s { di = i }) i in
    let halves = due_tasks-add a (suc b) (begun i s) in
    let next =
      ap (due_tasks (suc b)) gap
      ∙ step_on b (in_gap (begun i s)) (begun (i + 1) s) (led_on s)
          (next_digit i s (ground arith)) in
    let first = (due_tasks a (begun i s)).1 in
    let (back, rest) = round_from more (i + 1) s (omega (arith, h)) in
    let shown = shown_digits (led_on s) s.digits (i + 1) more in
    (
      ap (λ (t : StatusLed × List ℕ). t.0)
            (halves ∙ ap (λ (t : StatusLed × List ℕ). (t.0, first ++ t.1)) next)
          ∙ back,
      ap (λ (t : StatusLed × List ℕ). led_on s ∷ t.1)
            (halves ∙ ap (λ (t : StatusLed × List ℕ). (t.0, first ++ t.1)) next)
          ∙ ap₂ ◌++◌ lit rest
          ∙ sym (
              append_assoc (blinks (led_on s) (pulses (get_or s.digits i 0))) shown
                (led_on s ∷ [])),
    )

-- Every digit of a list, one behind the other.
abbrev pub flash_all : ℕ → List ℕ → List ℕ
flash_all colour [] = []
flash_all colour (d ∷ ds) = blinks colour (pulses d) ++ flash_all colour ds

-- The same words again and again, and the calls for it.
abbrev pub repeated : ℕ → List ℕ → List ℕ
repeated zero words = []
repeated (suc n) words = words ++ repeated n words

abbrev pub times : ℕ → ℕ → ℕ
times zero n = 0
times (suc m) n = n + times m n

-- The calls of one round for an octet.
abbrev pub octet_tasks : ℕ → ℕ
octet_tasks octet = round_tasks (octet_digits octet) 0 (digit_count octet - 1)

shown_digits-octet :
    (colour octet : ℕ)
    → shown_digits colour (octet_digits octet) 0 (digit_count octet - 1)
      ≡ flash_all colour (octet_digits octet)
unfolding octet_digits digit_count
shown_digits-octet colour octet = elim (Bool-cases (leb 100 octet)) [
  | inl three ↦ rw three (
      ap
        (λ l.
          blinks colour (pulses (octet / 100)) ++ (blinks colour (pulses (octet / 10 % 10)) ++ l))
        (sym (append-nil (blinks colour (pulses (octet % 10))))))
  | inr fewer ↦ elim (Bool-cases (leb 10 octet)) [
    | inl two ↦
        rw (fewer, two)
          (ap (λ l. blinks colour (pulses (octet / 10)) ++ l)
            (sym (append-nil (blinks colour (pulses (octet % 10))))))
    | inr one ↦ rw (fewer, one) (sym (append-nil (blinks colour (pulses octet))))
  ]
]

-- Rounds behind one another.
rounds_lem :
    (m n : ℕ) (s : StatusLed) (colour : ℕ) (words : List ℕ)
    → (due_tasks n s).0 ≡ s
    → colour ∷ (due_tasks n s).1 ≡ words ++ (colour ∷ [])
    → ((due_tasks (times m n) s).0 ≡ s)
      × (colour ∷ (due_tasks (times m n) s).1 ≡ repeated m words ++ (colour ∷ []))
rounds_lem zero n s colour words back out = unfold due_tasks in (refl, refl)
rounds_lem (suc m) n s colour words back out =
    let (back', out') = rounds_lem m n s colour words back out in
    let halves = due_tasks-add n (times m n) s in
    let rest = due_tasks (times m n) in
    (
      ap (λ (t : StatusLed × List ℕ). t.0) halves ∙ ap (λ (r : StatusLed). (rest r).0) back ∙ back',
      ap (λ (t : StatusLed × List ℕ). colour ∷ t.1) halves
          ∙ ap (λ (r : StatusLed). colour ∷ ((due_tasks n s).1 ++ (rest r).1)) back
          ∙ ap (λ l. l ++ (rest s).1) out
          ∙ append_assoc words (colour ∷ []) (rest s).1
          ∙ ap (λ l. words ++ l) out'
          ∙ sym (append_assoc words (repeated m words) (colour ∷ [])),
    )

some_digits : (octet : ℕ) → 1 ≤ digit_count octet
unfolding digit_count
some_digits octet = ground arith

-- From the call that shows an octet: after `m` rounds of as many due calls of the task as the digits
-- need, the LED has flashed `m` times the decimal digits that spell the octet, with no zero in front,
-- every digit as often as it says and a zero once; and it is in the state of the first call again,
-- about to flash them once more.
pub status_led_rounds :
    (m octet : ℕ) (s : StatusLed)
    → octet < 256
    → let (s0, first) = status_led_show_octet octet s in
      let (s', out) = due_tasks (times m (octet_tasks octet)) s0 in
      let digits = octet_digits octet in
      (s' ≡ s0)
      × (first ++ out ≡ repeated m (flash_all (led_on s) digits) ++ (led_on s ∷ []))
      × (spelled 0 digits ≡ octet)
      × All (λ x. x < 10) digits
      × (10 ≤ octet → get_or digits 0 0 ≢ 0)
unfolding status_led_show_octet begin_digit
status_led_rounds m octet s h =
    let r : StatusLed = record s {
      digits = octet_digits octet;
      ndigits = digit_count octet;
      di = 0;
    } in
    let (value, _, small, no_zero) = octet_digits_lem octet h in
    let some_digit : digit_count octet ≡ 0 + suc (digit_count octet - 1) =
      omega (arith, some_digits octet) in
    let (back, out) = round_from (digit_count octet - 1) 0 r some_digit in
    let words = flash_all (led_on s) (octet_digits octet) in
    let (back', out') =
      rounds_lem m (octet_tasks octet) (begun 0 r) (led_on s) words back
        (out ∙ ap (λ l. l ++ (led_on s ∷ [])) (shown_digits-octet (led_on s) octet)) in
    (back', out', value, small, no_zero)
