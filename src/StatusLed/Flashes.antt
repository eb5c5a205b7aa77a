-- ===== src/StatusLed/Flashes.antt =====
-- What the status LED of firmware/src/status_led/status_led.c shows.
use rp2040_eth_panel.Prelude.{
  ℕ, zero, suc, ◌+◌, ◌-◌, ◌*◌, ◌≤◌, ◌<◌, ◌≡◌, ◌≢◌, refl, ap, sym, ◌∙◌, true, false, List, [], ◌∷◌,
  ◌++◌, length, get_or, All, leb, ◌==◌, if◌then◌else◌, arith,
}
use rp2040_eth_panel.StatusLed.{
  StatusLed, st_pulse_on, st_digit_gap, led_on, led_off, pulse_on_ms, digit_gap_ms, begin_digit,
  octet_digits, digit_count, next_phase, status_led_task,
}

-- The number that decimal digits spell, the highest first.
abbrev pub spelled : ℕ → List ℕ → ℕ
spelled acc [] = acc
spelled acc (x ∷ xs) = spelled (acc * 10 + x) xs

-- The digits that are flashed spell the octet, with no zero in front, and their number is the one
-- that ends the round.
pub octet_digits_lem :
    (octet : ℕ)
    → octet < 256
    → (spelled 0 (octet_digits octet) ≡ octet)
      × (length (octet_digits octet) ≡ digit_count octet)
      × All (λ x. x < 10) (octet_digits octet)
      × (10 ≤ octet → get_or (octet_digits octet) 0 0 ≢ 0)
unfolding octet_digits digit_count
octet_digits_lem octet h = ground arith

-- Calls of the task, each with its deadline passed.
unfoldable pub due_tasks : ℕ → StatusLed → StatusLed × List ℕ
due_tasks zero s = (s, [])
due_tasks (suc n) s =
    let (s', out) = status_led_task true s in let (s'', rest) = due_tasks n s' in (s'', out ++ rest)

-- Lit and dark again, `n` times.
abbrev pub blinks : ℕ → ℕ → List ℕ
blinks colour zero = []
blinks colour (suc n) = colour ∷ led_off ∷ blinks colour n

-- The calls that a digit of `k + 1` pulses takes behind `begin_digit`.
abbrev pub pulse_tasks : ℕ → ℕ
pulse_tasks zero = 1
pulse_tasks (suc k) = suc (suc (pulse_tasks k))

-- The state in the gap behind a digit.
abbrev pub in_gap : StatusLed → StatusLed
in_gap s = record s { pulses_done = s.pulses_target; phase = st_digit_gap; wait = digit_gap_ms }

last_pulse :
    (s : StatusLed)
    → s.phase ≡ st_pulse_on
    → s.pulses_target ≡ s.pulses_done + 1
    → due_tasks 1 s ≡ (in_gap s, led_off ∷ [])
unfolding due_tasks status_led_task next_phase
last_pulse s p e =
    let done : leb s.pulses_target (s.pulses_done + 1) ≡ true = ground arith in rw (p, done, e) refl

-- A pulse that is not the last one, up to the next.
one_pulse :
    (n : ℕ) (s : StatusLed)
    → s.phase ≡ st_pulse_on
    → s.pulses_done + 2 ≤ s.pulses_target
    → due_tasks (suc (suc n)) s ≡ (
        let next : StatusLed = record s {
          pulses_done = s.pulses_done + 1;
          phase = st_pulse_on;
          wait = pulse_on_ms;
        } in
        let (s', rest) = due_tasks n next in (s', led_off ∷ led_on s ∷ rest))
unfolding due_tasks status_led_task next_phase
one_pulse n s p h =
    let more : leb s.pulses_target (s.pulses_done + 1) ≡ false = ground arith in rw (p, more) refl

pub all_pulses :
    (k : ℕ) (s : StatusLed)
    → s.phase ≡ st_pulse_on
    → s.pulses_target ≡ s.pulses_done + suc k
    → let (s', out) = due_tasks (pulse_tasks k) s in
      (s' ≡ in_gap s) × (led_on s ∷ out ≡ blinks (led_on s) (suc k))
all_pulses zero s p e =
    let run = last_pulse s p e in
    (ap (λ (t : StatusLed × List ℕ). t.0) run, ap (λ (t : StatusLed × List ℕ). led_on s ∷ t.1) run)
all_pulses (suc k) s p e =
    let next : StatusLed = record s {
      pulses_done = s.pulses_done + 1;
      phase = st_pulse_on;
      wait = pulse_on_ms;
    } in
    let run = one_pulse (pulse_tasks k) s p (omega (arith, e)) in
    let (q, out) = all_pulses k next refl (omega (arith, e)) in
    rw run (q, ap (λ l. led_on s ∷ led_off ∷ l) out)

-- The pulses of a digit: 0 is one long pulse.
abbrev pub pulses : ℕ → ℕ
pulses digit = if digit == 0 then 1 else digit

-- A digit is shown as often as it says, and 0 once: behind `begin_digit`, the task lights and
-- darkens the LED that many times and then is in the gap behind the digit.
pub begin_digit-blinks :
    (s : StatusLed) (i : ℕ)
    → let n = pulses (get_or s.digits i 0) in
      let (s', first) = begin_digit i s in
      let (s'', rest) = due_tasks (pulse_tasks (n - 1)) s' in
      (first ++ rest ≡ blinks (led_on s) n) × (s'' ≡ in_gap s')
unfolding begin_digit
begin_digit-blinks s i =
    let n = pulses (get_or s.digits i 0) in
    let some_pulse : n ≡ suc (n - 1) = ground arith in
    let (q, out) = all_pulses (n - 1) (begin_digit i s).0 refl (omega (arith, some_pulse)) in
    (out ∙ ap (blinks (led_on s)) (sym some_pulse), q)
