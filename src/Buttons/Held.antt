-- ===== src/Buttons/Held.antt =====
-- Debouncing against the whole history of samples (firmware/src/buttons/buttons.c): a level becomes
-- the stable one exactly when the samples that hold it reach back for the debounce window.
use rp2040_eth_panel.Prelude.{
  ℕ, zero, suc, ◌^◌, ◌≤◌, ◌<◌, ◌≡◌, ◌≢◌, ◌⊎◌, inl, inr, refl, sym, ◌∙◌, Bool, true, false, List, [],
  ◌∷◌, ◌++◌, ap, Two, entry, same, same_iff, sub32, if◌then◌else◌, arith, Bool-cases,
}
use rp2040_eth_panel.Buttons.Events.{apply, replay, buttons_update-replay}
use rp2040_eth_panel.Buttons.Round.{
  Sample, level, Round, first-Keeps_second, second-Keeps_first, buttons_update-ready, update-Round,
}
use rp2040_eth_panel.Buttons.{Buttons, ButtonEvent, buttons_init, buttons_update, update_button}

-- The state after the samples of a history, the newest first, from `buttons_init`.
pub feed : ℕ → ℕ → List Sample → Buttons
unfolding buttons_init
feed d max [] = buttons_init d
feed d max (s ∷ h) = (buttons_update (feed d max h) s.raw s.at_ms max).0

-- The time of the oldest sample of the newest run of equal levels.
abbrev held_since : ℕ → Sample → List Sample → ℕ
held_since i s [] = s.at_ms
held_since i s (s' ∷ h) = if same (level i s) (level i s') then held_since i s' h else s.at_ms

-- The newest samples have the level `v`, back to one that is `d` ms old at `now`.
abbrev pub HeldBack : ℕ → Bool → ℕ → ℕ → List Sample → Type 0
HeldBack i v d now [] = ⊥
HeldBack i v d now (s ∷ h) = (level i s ≡ v) × ((d ≤ sub32 now s.at_ms) ⊎ HeldBack i v d now h)

-- The clock does not go back, and does not wrap within the history.
abbrev pub IsOrdered : ℕ → List Sample → Type 0
IsOrdered now [] = now < 2 ^ 32
IsOrdered now (s ∷ h) = (s.at_ms ≤ now) × (now < 2 ^ 32) × IsOrdered s.at_ms h

record Tracks (d i since : ℕ) (v : Bool) (bs : Buttons) : Type 0 where
  ready : bs.initialized ≡ true
  window : bs.debounce_ms ≡ d
  last : entry bs.raw_last i ≡ v
  start : entry bs.raw_since_ms i ≡ since

seed-Tracks :
    (bs : Buttons) (i max : ℕ) (s : Sample)
    → bs.initialized ≡ false
    → Tracks bs.debounce_ms i s.at_ms (level i s) (buttons_update bs s.raw s.at_ms max).0
unfolding buttons_update
seed-Tracks bs zero max s e = ground arith
seed-Tracks bs (suc i) max s e = ground arith

Round-Tracks :
    {d i since : ℕ} {v : Bool} {b c : Buttons} (w : Bool) (s : Sample)
    → Tracks d i since v b
    → Round i s b c
    → Tracks d i (if same (level i s) v then since else s.at_ms) (level i s) c
Round-Tracks w s t r = ground (arith, t, r)

module _ (d max i : ℕ) (small : i < 2) (room : 2 ≤ max) where
  -- The recorded time of the last change is the start of the newest run of equal levels.
  feed-Tracks :
      (s : Sample) (h : List Sample)
      → Tracks d i (held_since i s h) (level i s) (feed d max (s ∷ h))
  unfolding feed
  feed-Tracks s [] = unfold feed buttons_init in seed-Tracks (feed d max []) i max s refl
  feed-Tracks s (s' ∷ h) =
      Round-Tracks (level i s) s (feed-Tracks s' h)
        (update-Round s max (feed d max (s' ∷ h)) i small room (feed-Tracks s' h).ready)

held_since-HeldBack :
    (i d now : ℕ) (v : Bool) (s : Sample) (h : List Sample)
    → level i s ≡ v
    → d ≤ sub32 now (held_since i s h)
    → HeldBack i v d now (s ∷ h)
held_since-HeldBack i d now v s [] e p = (e, inl p)
held_since-HeldBack i d now v s (s' ∷ h) e p = elim (Bool-cases (same (level i s) (level i s'))) [
  | inl t ↦
      let levels : level i s ≡ level i s' = (same_iff (level i s) (level i s')).0 t in
      (e, inr (held_since-HeldBack i d now v s' h (sym levels ∙ e) (rw t at p)))
  | inr t ↦ (e, inl (rw t at p))
]

held_since-le :
    (i now : ℕ) (s : Sample) (h : List Sample) → IsOrdered now (s ∷ h) → held_since i s h ≤ s.at_ms
held_since-le i now s [] p = omega arith
held_since-le i now s (s' ∷ h) p = ground (arith, held_since-le i s.at_ms s' h)

HeldBack-held_since :
    (i d now : ℕ) (v : Bool) (s : Sample) (h : List Sample)
    → IsOrdered now (s ∷ h)
    → HeldBack i v d now (s ∷ h)
    → d ≤ sub32 now (held_since i s h)
HeldBack-held_since i d now v s [] p (q, inl e) = e
HeldBack-held_since i d now v s [] p (q, inr e) = absurd e
HeldBack-held_since i d now v s (s' ∷ h) p (q, inl e) =
    omega (arith, held_since-le i now s (s' ∷ h) p)
HeldBack-held_since i d now v s (s' ∷ h) p (q, inr e) =
    rw ((same_iff (level i s) (level i s')).1 (q ∙ sym e.0))
      (HeldBack-held_since i d now v s' h (older p) e)
  where
    older : IsOrdered now (s ∷ s' ∷ h) → IsOrdered now (s' ∷ h)
    older o = (omega arith, o.1, o.2.2)

-- After any history of samples in the order of time, two at least, with room for two events in
-- the buffer: each button of `buttons_update` becomes the new sample's level if the samples reach
-- back with that level for the debounce window, and it changes only in that case.
pub feed-stable :
    (d max i : ℕ) (s s' : Sample) (h : List Sample)
    → i < 2
    → 2 ≤ max
    → IsOrdered s.at_ms (s ∷ s' ∷ h)
    → let before = entry (feed d max (s' ∷ h)).stable i in
      let after = entry (feed d max (s ∷ s' ∷ h)).stable i in
      (HeldBack i (level i s) d s.at_ms (s ∷ s' ∷ h) → after ≡ level i s)
      × (after ≢ before → (after ≡ level i s) × HeldBack i (level i s) d s.at_ms (s ∷ s' ∷ h))
unfolding feed
feed-stable d max i s s' h small room o =
    let t = feed-Tracks d max i small room s' h in
    let r = update-Round s max (feed d max (s' ∷ h)) i small room t.ready in
    let u = feed-Tracks d max i small room s (s' ∷ h) in
    (
      λ held.
          r.flips (
            rw (t.window, u.start) (HeldBack-held_since i d s.at_ms (level i s) s (s' ∷ h) o held)),
      λ ne. (
        (r.only ne).0,
        held_since-HeldBack i d s.at_ms (level i s) s (s' ∷ h) refl
            (rw (t.window, u.start) at (r.only ne).1),
      ),
    )

-- The events of a history, the oldest first.
pub feed_events : ℕ → ℕ → List Sample → List ButtonEvent
feed_events d max [] = []
feed_events d max (s ∷ h) =
    feed_events d max h ++ (buttons_update (feed d max h) s.raw s.at_ms max).1

update-initialized :
    (bs : Buttons) (raw : Two Bool) (now max : ℕ)
    → (buttons_update bs raw now max).0.initialized ≡ true
update-initialized bs raw now max = elim (Bool-cases bs.initialized) [
  | inl e ↦
      let mid = update_button 0 raw now max bs [] in
      rw (buttons_update-ready bs raw now max e) (
        (second-Keeps_first raw now max mid.0 mid.1).ready
        ∙ (first-Keeps_second raw now max bs).0.ready
        ∙ e)
  | inr e ↦ (seed-Tracks bs 0 max (record { raw = raw; at_ms = now }) e).ready
]

feed-initialized :
    (d max : ℕ) (h : List Sample) (s : Sample) → (feed d max (h ++ (s ∷ []))).initialized ≡ true
unfolding feed
feed-initialized d max [] s = update-initialized (feed d max []) s.raw s.at_ms max
feed-initialized d max (t ∷ h) s = update-initialized (feed d max (h ++ (s ∷ []))) t.raw t.at_ms max

replay-append :
    (xs ys : List ButtonEvent) (levels : Two Bool)
    → replay levels (xs ++ ys) ≡ replay (replay levels xs) ys
replay-append [] ys levels = refl
replay-append (e ∷ xs) ys levels = replay-append xs ys (apply levels e)

-- A host that knows the levels of the first sample and applies every event since then to them has
-- the levels that the device calls stable, after any history and for any room in the buffer.
pub feed_events-replay :
    (d max : ℕ) (h : List Sample) (s : Sample)
    → replay s.raw (feed_events d max (h ++ (s ∷ []))) ≡ (feed d max (h ++ (s ∷ []))).stable
unfolding feed feed_events
feed_events-replay d max [] s = unfold buttons_init buttons_update in refl
feed_events-replay d max (t ∷ h) s =
    let st = feed d max (h ++ (s ∷ [])) in
    replay-append (feed_events d max (h ++ (s ∷ []))) (buttons_update st t.raw t.at_ms max).1 s.raw
    ∙ ap (λ l. replay l (buttons_update st t.raw t.at_ms max).1) (feed_events-replay d max h s)
    ∙ (buttons_update-replay st t.raw t.at_ms max (feed-initialized d max h s)).0
