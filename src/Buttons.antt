-- ===== src/Buttons.antt =====
-- firmware/src/buttons/buttons.{h,c}: debounced edge events of the two buttons. Times are
-- `uint32_t` milliseconds, which wrap.
pub mod Events
pub mod Round
pub mod Held
pub mod Pins
use rp2040_eth_panel.Prelude.{
  ℕ, zero, suc, ◌+◌, ◌^◌, Bool, true, false, not, ◌&&◌, List, [], ◌∷◌, ◌++◌, Two, entry, update,
  both, length, same, leb, ltb, sub32, if◌then◌else◌,
}

-- `btn_event`: the 1-based button and the direction of its edge.
pub record ButtonEvent : Type 0 where
  pub id : ℕ
  pub pressed : Bool

-- `buttons_t`
pub record Buttons : Type 0 where
  pub stable : Two Bool
  pub raw_last : Two Bool
  pub raw_since_ms : Two ℕ
  pub debounce_ms : ℕ
  pub initialized : Bool

unfoldable pub buttons_init : ℕ → Buttons
buttons_init debounce_ms = record {
  stable = both false;
  raw_last = both false;
  raw_since_ms = both 0;
  debounce_ms = debounce_ms;
  initialized = false;
}

unfoldable pub buttons_set_debounce : Buttons → ℕ → Buttons
buttons_set_debounce bs debounce_ms = record bs { debounce_ms = debounce_ms }

-- The seeding branch: the first snapshot, no events.
unfoldable pub seed : Buttons → Two Bool → ℕ → Buttons
seed bs raw now_ms = record bs {
  stable = raw;
  raw_last = raw;
  raw_since_ms = both now_ms;
  initialized = true;
}

-- The first `if` of the loop body: note a change of the raw level.
unfoldable pub latch : ℕ → Two Bool → ℕ → Buttons → Buttons
latch i raw now_ms bs = if same (entry raw i) (entry bs.raw_last i) then bs else record bs {
  raw_last = update bs.raw_last i (entry raw i);
  raw_since_ms = update bs.raw_since_ms i now_ms;
}

-- The condition of the second `if`: a level other than the stable one, held for long enough.
unfoldable pub settled : ℕ → Two Bool → ℕ → Buttons → Bool
settled i raw now_ms bs =
    not (same (entry raw i) (entry bs.stable i))
    && leb bs.debounce_ms (sub32 now_ms (entry bs.raw_since_ms i))

-- The body of the second `if`: flip and report, if the buffer has room. `ne` is the length.
unfoldable pub commit : ℕ → Two Bool → ℕ → Buttons → List ButtonEvent → Buttons × List ButtonEvent
commit i raw max_events bs evs =
    if ltb (length evs) max_events
    then (
      record bs { stable = update bs.stable i (entry raw i) },
      evs ++ (record { id = i + 1; pressed = entry raw i } ∷ []),
    )
    else (bs, evs)

-- One round of the loop over the buttons.
unfoldable pub update_button :
    ℕ → Two Bool → ℕ → ℕ → Buttons → List ButtonEvent → Buttons × List ButtonEvent
unfolding latch settled commit
update_button i raw now_ms max_events bs evs =
    let latched = latch i raw now_ms bs in
    if settled i raw now_ms latched then commit i raw max_events latched evs else (latched, evs)

-- The rounds at 0 and 1.
unfoldable pub update_both : Two Bool → ℕ → ℕ → Buttons → Buttons × List ButtonEvent
unfolding update_button
update_both raw now_ms max_events bs =
    let (bs', evs) = update_button 0 raw now_ms max_events bs [] in
    update_button 1 raw now_ms max_events bs' evs

-- The new state and the events written. A negative `max_events` acts as 0.
unfoldable pub buttons_update : Buttons → Two Bool → ℕ → ℕ → Buttons × List ButtonEvent
unfolding seed update_both
buttons_update bs raw now_ms max_events =
    if bs.initialized then update_both raw now_ms max_events bs else (seed bs raw now_ms, [])

-- A 0-based index; a negative one is out of range like 2.
unfoldable pub buttons_pressed : Buttons → ℕ → Bool
buttons_pressed bs idx = if ltb idx 2 then entry bs.stable idx else false
