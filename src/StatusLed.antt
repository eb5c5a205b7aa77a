-- ===== src/StatusLed.antt =====
-- firmware/src/status_led/status_led.c: the last octet of the address, flashed digit by digit. A
-- deadline is the delay that was set; whether it has passed is an argument.
pub mod Flashes
pub mod Round
use rp2040_eth_panel.Prelude.{
  ℕ, zero, suc, ◌+◌, ◌/◌, ◌%◌, bit_or, Bool, true, false, List, [], ◌∷◌, ◌++◌, get_or, leb, ◌==◌,
  u32, ◌<<<◌, if◌then◌else◌,
}

abbrev pub pulse_on_ms : ℕ
pulse_on_ms = 180

abbrev pub pulse_off_ms : ℕ
pulse_off_ms = 220

abbrev pub zero_on_ms : ℕ
zero_on_ms = 600

abbrev pub digit_gap_ms : ℕ
digit_gap_ms = 700

abbrev pub repeat_gap_ms : ℕ
repeat_gap_ms = 2200

-- `phase_t`
pub data Phase : Type 0 where
  st_pulse_on st_pulse_off st_digit_gap st_repeat_gap : Phase

-- The variables of the file; `wait` is the delay behind `s_next`.
pub record StatusLed : Type 0 where
  pub r : ℕ
  pub g : ℕ
  pub b : ℕ
  pub digits : List ℕ
  pub ndigits : ℕ
  pub di : ℕ
  pub pulses_done : ℕ
  pub pulses_target : ℕ
  pub zero_digit : Bool
  pub phase : Phase
  pub wait : ℕ

-- The word that `put_color` sends.
unfoldable pub put_color : ℕ → ℕ → ℕ → ℕ
put_color r g b = u32 (bit_or (bit_or (r <<< 16) (g <<< 8)) b <<< 8)

abbrev pub led_on : StatusLed → ℕ
led_on s = put_color s.r s.g s.b

abbrev pub led_off : ℕ
led_off = put_color 0 0 0

unfoldable pub status_led_set_color : ℕ → ℕ → ℕ → StatusLed → StatusLed
status_led_set_color r g b s = record s { r = r; g = g; b = b }

unfoldable pub status_led_solid : ℕ → ℕ → ℕ → List ℕ
status_led_solid r g b = put_color r g b ∷ []

-- The state afterwards, and the words sent.
unfoldable pub begin_digit : ℕ → StatusLed → StatusLed × List ℕ
begin_digit i s =
    let digit = get_or s.digits i 0 in
    (
      record s {
        zero_digit = digit == 0;
        pulses_target = if digit == 0 then 1 else digit;
        pulses_done = 0;
        phase = st_pulse_on;
        wait = if digit == 0 then zero_on_ms else pulse_on_ms;
      },
      led_on s ∷ [],
    )

-- The digits of an octet; of the three entries of the array only these are read.
unfoldable pub octet_digits : ℕ → List ℕ
octet_digits octet =
    if leb 100 octet
    then octet / 100 ∷ octet / 10 % 10 ∷ octet % 10 ∷ []
    else if leb 10 octet
    then octet / 10 ∷ octet % 10 ∷ []
    else octet ∷ []

unfoldable pub digit_count : ℕ → ℕ
digit_count octet = if leb 100 octet then 3 else if leb 10 octet then 2 else 1

unfoldable pub status_led_show_octet : ℕ → StatusLed → StatusLed × List ℕ
status_led_show_octet octet s =
    begin_digit 0 (record s { digits = octet_digits octet; ndigits = digit_count octet; di = 0 })

-- The `switch`, once the deadline has passed.
unfoldable pub next_phase : Phase → StatusLed → StatusLed × List ℕ
next_phase st_pulse_on s =
    let done = s.pulses_done + 1 in
    (
      if leb s.pulses_target done
          then record s { pulses_done = done; phase = st_digit_gap; wait = digit_gap_ms }
          else record s { pulses_done = done; phase = st_pulse_off; wait = pulse_off_ms },
      led_off ∷ [],
    )
next_phase st_pulse_off s = (record s { phase = st_pulse_on; wait = pulse_on_ms }, led_on s ∷ [])
next_phase st_digit_gap s =
    if leb s.ndigits (s.di + 1)
    then (record s { di = s.di + 1; phase = st_repeat_gap; wait = repeat_gap_ms }, [])
    else begin_digit (s.di + 1) (record s { di = s.di + 1 })
next_phase st_repeat_gap s = begin_digit 0 (record s { di = 0 })

unfoldable pub status_led_task : Bool → StatusLed → StatusLed × List ℕ
status_led_task false s = (s, [])
status_led_task true s = next_phase s.phase s
