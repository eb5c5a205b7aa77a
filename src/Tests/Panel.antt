-- ===== src/Tests/Panel.antt =====
-- The buttons, the rings, the status LED and the commands on concrete inputs.
use rp2040_eth_panel.Prelude.{
  ℕ, ◌≡◌, ◌≢◌, inl, inr, refl, ◌++◌, Bool, true, false, List, [], ◌∷◌, arith, entry, both,
}
use rp2040_eth_panel.Prelude.Int.{pos, minus_one}
use rp2040_eth_panel.Prelude.Text.{codes}
use rp2040_eth_panel.Buttons.{Buttons}
use rp2040_eth_panel.Buttons.Events.{replay}
use rp2040_eth_panel.Buttons.Round.{Sample, level}
use rp2040_eth_panel.Buttons.Held.{feed, feed_events, HeldBack, feed-stable, feed_events-replay}
use rp2040_eth_panel.Rings.{in_range, Rings, rings_init, rings_set}
use rp2040_eth_panel.Rings.Set.{IsValid, Effect, rings_set-Effect}
use rp2040_eth_panel.Rings.Flush.{
  Request, set_ring, flush, serve, rings_flush, show, frame_words, serve-shows,
}
use rp2040_eth_panel.StatusLed.{StatusLed, st_digit_gap}
use rp2040_eth_panel.App.{empty_line}
use rp2040_eth_panel.App.Dispatch.{Panel, Device, run_parsed, dispatch, receive}
use rp2040_eth_panel.App.Dispatch.Objects.{IsText, request, receive-object}
use rp2040_eth_panel.Protocol.Format.{digits}
use rp2040_eth_panel.Protocol.Object.{Fields, number, word, object_text}
use rp2040_eth_panel.App.Dispatch.Answers.{IsPanel, IsAnswer, receive-IsPanel, dispatch_answers}

abbrev sample : Bool → ℕ → Sample
sample level at_ms = record { raw = record { first = level; second = false }; at_ms = at_ms }

-- Released at 10 ms, held from 100 to 130 ms, with a window of 30 ms.
abbrev history : List Sample
history = sample true 100 ∷ sample false 10 ∷ []

feed-stable_example :
    let before = entry (feed 30 4 (sample true 100 ∷ sample false 10 ∷ [])).stable 0 in
    let after = entry (feed 30 4 (sample true 130 ∷ history)).stable 0 in
    (HeldBack 0 true 30 130 (sample true 130 ∷ history) → after ≡ true)
    × (after ≢ before → (after ≡ true) × HeldBack 0 true 30 130 (sample true 130 ∷ history))
feed-stable_example =
    feed-stable 30 4 0 (sample true 130) (sample true 100) (sample false 10 ∷ []) (omega arith)
      (omega arith) (omega arith)

history_held : HeldBack 0 true 30 130 (sample true 130 ∷ history)
history_held = (refl, inr (refl, inl (omega arith)))

feed_events-replay_example :
    replay (sample false 10).raw (feed_events 30 4 history) ≡ (feed 30 4 history).stable
feed_events-replay_example = feed_events-replay 30 4 (sample true 100 ∷ []) (sample false 10)

-- Both buttons are pressed for long enough.
abbrev due : Buttons
due = record {
  stable = both false;
  raw_last = both true;
  raw_since_ms = both 0;
  debounce_ms = 30;
  initialized = true;
}

abbrev dark : Rings
dark = record {
  st = both (record { r = 0; g = 0; b = 0; brightness = 255 });
  nleds = both 16;
  dirty = both true;
}

dark-IsValid : IsValid dark
dark-IsValid = omega arith

red_accepted : (rings_set dark (pos 1) (pos 255) minus_one minus_one minus_one).0 ≡ true
unfolding rings_set in_range
red_accepted = refl

rings_set-Effect_example :
    Effect 1
      (pos 255)
      minus_one
      minus_one
      minus_one
      dark
      (rings_set dark (pos 1) (pos 255) minus_one minus_one minus_one).1
rings_set-Effect_example =
    rings_set-Effect dark 1 (pos 255) minus_one minus_one minus_one (omega arith) red_accepted

-- Ring 1 is set to red, shown, and set to blue.
abbrev requests : List Request
requests =
    set_ring (pos 0) (pos 255) (pos 0) (pos 0) (pos 128)
    ∷ flush
    ∷ set_ring (pos 0) (pos 0) (pos 0) (pos 255) minus_one
    ∷ []

serve-shows_example :
    let (rs, shown) = serve (rings_init (both 16)) (both []) requests in
    let (rs', frames) = rings_flush rs in
    (rs'.st ≡ rs.st)
    × ((show shown frames).first ≡ frame_words rs 0)
    × ((show shown frames).second ≡ frame_words rs 1)
serve-shows_example = serve-shows (both 16) (both []) requests (omega arith) (omega arith)

abbrev device : Device
device = record { version = codes "1.0.0"; nleds = both 16; ip = both (both 10) }

abbrev panel : Panel
panel = record {
  rings = dark;
  buttons = due;
  debounce_ms = 30;
  lamp = false;
  update_requested = false;
}

receive-IsPanel_example :
    IsPanel (receive device (codes "{\"cmd\":\"config\",\"debounce_ms\":50}\nx") empty_line panel).0
receive-IsPanel_example =
    receive-IsPanel device (codes "{\"cmd\":\"config\",\"debounce_ms\":50}\nx") empty_line panel
      (record {
        rings_ok = dark-IsValid;
        window_lo = omega arith;
        window_hi = omega arith;
        window_set = refl;
      })

dispatch_answers_example :
    let (p', out) = dispatch device (codes "{\"cmd\":\"lamp\",\"on\":2}") panel in
    IsAnswer device panel p' out
dispatch_answers_example = dispatch_answers device panel (codes "{\"cmd\":\"lamp\",\"on\":2}")

abbrev flashing : StatusLed
flashing = record {
  r = 0;
  g = 40;
  b = 0;
  digits = 2 ∷ 0 ∷ 5 ∷ [];
  ndigits = 3;
  di = 0;
  pulses_done = 0;
  pulses_target = 0;
  zero_digit = false;
  phase = st_digit_gap;
  wait = 0;
}

abbrev lamp_on : Fields
lamp_on = (codes "cmd", word (codes "lamp")) ∷ (codes "on", number 1) ∷ []

lamp_on-IsText : IsText (object_text lamp_on)
lamp_on-IsText = unfold digits in omega arith

receive-object_example :
    receive device (object_text lamp_on ++ (10 ∷ [])) empty_line panel
    ≡ (let (p', out) = run_parsed device (request lamp_on) panel in (p', empty_line, out))
receive-object_example =
    receive-object device lamp_on panel (omega arith) lamp_on-IsText (unfold digits in omega arith)
