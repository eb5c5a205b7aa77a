-- ===== src/Buttons/Round.antt =====
-- What one button's round of `buttons_update` does, and what it leaves alone
-- (firmware/src/buttons/buttons.c).
use rp2040_eth_panel.Prelude.{
  ℕ, zero, suc, ◌≤◌, ◌<◌, ◌≡◌, ◌≢◌, Bool, true, List, [], Two, entry, same, length, sub32,
  if◌then◌else◌, arith,
}
use rp2040_eth_panel.Buttons.{Buttons, ButtonEvent, buttons_update, update_button}

-- One call's snapshot and time.
pub record Sample : Type 0 where
  pub raw : Two Bool
  pub at_ms : ℕ

abbrev pub level : ℕ → Sample → Bool
level i s = entry s.raw i

-- A button's round leaves the other button alone, and writes one event at most.
pub record Keeps (i : ℕ) (bs : Buttons) (bs' : Buttons) : Type 0 where
  pub ready : bs'.initialized ≡ bs.initialized
  pub window : bs'.debounce_ms ≡ bs.debounce_ms
  pub stable : entry bs'.stable i ≡ entry bs.stable i
  pub last : entry bs'.raw_last i ≡ entry bs.raw_last i
  pub start : entry bs'.raw_since_ms i ≡ entry bs.raw_since_ms i

pub first-Keeps_second :
    (raw : Two Bool) (now max : ℕ) (bs : Buttons)
    → Keeps 1 bs (update_button 0 raw now max bs []).0
      × (length (update_button 0 raw now max bs []).1 ≤ 1)
unfolding update_button
first-Keeps_second raw now max bs = ground arith

pub second-Keeps_first :
    (raw : Two Bool) (now max : ℕ) (bs : Buttons) (evs : List ButtonEvent)
    → Keeps 0 bs (update_button 1 raw now max bs evs).0
unfolding update_button
second-Keeps_first raw now max bs evs = ground arith

-- What a button's own round does to it, with room for the event.
pub record Round (i : ℕ) (s : Sample) (bs : Buttons) (bs' : Buttons) : Type 0 where
  pub ready : bs'.initialized ≡ bs.initialized
  pub window : bs'.debounce_ms ≡ bs.debounce_ms
  pub last : entry bs'.raw_last i ≡ level i s
  pub start :
      entry bs'.raw_since_ms i
      ≡ (if same (level i s) (entry bs.raw_last i) then entry bs.raw_since_ms i else s.at_ms)
  pub flips :
      bs.debounce_ms ≤ sub32 s.at_ms (entry bs'.raw_since_ms i) → entry bs'.stable i ≡ level i s
  pub only :
      entry bs'.stable i ≢ entry bs.stable i
      → (entry bs'.stable i ≡ level i s)
        × (bs.debounce_ms ≤ sub32 s.at_ms (entry bs'.raw_since_ms i))

pub first-Round :
    (s : Sample) (max : ℕ) (bs : Buttons) (evs : List ButtonEvent)
    → length evs < max
    → Round 0 s bs (update_button 0 s.raw s.at_ms max bs evs).0
unfolding update_button
first-Round s max bs evs room = ground arith

pub second-Round :
    (s : Sample) (max : ℕ) (bs : Buttons) (evs : List ButtonEvent)
    → length evs < max
    → Round 1 s bs (update_button 1 s.raw s.at_ms max bs evs).0
unfolding update_button
second-Round s max bs evs room = ground arith

pub buttons_update-ready :
    (bs : Buttons) (raw : Two Bool) (now max : ℕ)
    → bs.initialized ≡ true
    → buttons_update bs raw now max
      ≡ update_button 1 raw now max
          (update_button 0 raw now max bs []).0
          (update_button 0 raw now max bs []).1
unfolding buttons_update
buttons_update-ready bs raw now max e = simp e

pub Round-then-Keeps :
    {i : ℕ} {s : Sample} {b c d : Buttons} → Round i s b c → Keeps i c d → Round i s b d
Round-then-Keeps r k = ground (arith, r, k)

pub Keeps-then-Round :
    {i : ℕ} {s : Sample} {b c d : Buttons} → Keeps i b c → Round i s c d → Round i s b d
Keeps-then-Round k r = ground (arith, r, k)

pub update-Round :
    (s : Sample) (max : ℕ) (bs : Buttons) (i : ℕ)
    → i < 2
    → 2 ≤ max
    → bs.initialized ≡ true
    → Round i s bs (buttons_update bs s.raw s.at_ms max).0
update-Round s max bs zero small room init =
    let mid = update_button 0 s.raw s.at_ms max bs [] in
    rw (buttons_update-ready bs s.raw s.at_ms max init) (
      Round-then-Keeps (first-Round s max bs [] (omega arith))
        (second-Keeps_first s.raw s.at_ms max mid.0 mid.1))
update-Round s max bs (suc zero) small room init =
    let mid = update_button 0 s.raw s.at_ms max bs [] in
    let keeps = first-Keeps_second s.raw s.at_ms max bs in
    rw (buttons_update-ready bs s.raw s.at_ms max init)
      (Keeps-then-Round keeps.0 (second-Round s max mid.0 mid.1 (omega (arith, keeps.1))))
update-Round s max bs (suc (suc i)) small room init = absurd (omega arith)
