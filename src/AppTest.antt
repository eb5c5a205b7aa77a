-- ===== src/AppTest.antt =====
-- firmware/apptest/main.c: the application that tries the hand-over of the bootloader.
use rp2040_eth_panel.Prelude.{
  ℕ, zero, suc, ◌+◌, ◌%◌, ◌<◌, ◌≡◌, refl, ap, ◌∙◌, Bool, true, false, not, List, [], ◌∷◌, ◌++◌,
  get_or, if◌then◌else◌, ◌==◌, arith,
}
use rp2040_eth_panel.StatusLed.{led_off, put_color, status_led_solid}

-- Some rounds of the loop, by `on`: the words to the LED. A round lasts 400 ms.
unfoldable pub blink : ℕ → Bool → List ℕ
blink zero on = []
blink (suc n) on =
    (if on then status_led_solid 0 60 0 else status_led_solid 0 0 60) ++ blink n (not on)

-- With `status_led_init` in front, which shows nothing.
unfoldable pub app_test : ℕ → List ℕ
app_test rounds = led_off ∷ blink rounds false

abbrev colour_of : Bool → ℕ
colour_of on = if on then put_color 0 60 0 else put_color 0 0 60

blink_lem :
    (n k : ℕ) (on : Bool)
    → k < n
    → get_or (blink n on) k 0 ≡ (if k % 2 == 0 then colour_of on else colour_of (not on))
unfolding blink status_led_solid
blink_lem zero k on h = absurd (omega arith)
blink_lem (suc n) zero true h = refl
blink_lem (suc n) zero false h = refl
blink_lem (suc n) (suc k) true h = blink_lem n k false (omega arith) ∙ ground arith
blink_lem (suc n) (suc k) false h = blink_lem n k true (omega arith) ∙ ground arith

-- Blue and green in turn: a round with an even number is blue, the others are green.
app_test_lem :
    (n k : ℕ)
    → k < n
    → get_or (app_test n) (k + 1) 0 ≡ (if k % 2 == 0 then put_color 0 0 60 else put_color 0 60 0)
unfolding app_test
app_test_lem n k h =
    let next : k + 1 ≡ suc k = omega arith in
    ap (λ (i : ℕ). get_or (led_off ∷ blink n false) i 0) next ∙ blink_lem n k false h
