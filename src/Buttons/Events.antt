-- ===== src/Buttons/Events.antt =====
-- The events of `buttons_update` against the debounced state (firmware/src/buttons/buttons.c).
use rp2040_eth_panel.Prelude.{
  ℕ, zero, suc, ◌≤◌, ◌≡◌, Bool, true, not, List, [], ◌∷◌, Two, entry, length, arith,
}
use rp2040_eth_panel.Buttons.{Buttons, ButtonEvent, buttons_update}

-- A host that keeps the two levels and applies an event to them.
abbrev pub apply : Two Bool → ButtonEvent → Two Bool
apply levels e = elim e.id [
  | zero ↦ levels
  | suc zero ↦ record levels { first = e.pressed }
  | suc (suc i) ↦ record levels { second = e.pressed }
]

abbrev pub replay : Two Bool → List ButtonEvent → Two Bool
replay levels [] = levels
replay levels (e ∷ es) = replay (apply levels e) es

-- Each event tells of a real edge: the button had the other level before.
abbrev pub AreEdges : Two Bool → List ButtonEvent → Type 0
AreEdges levels [] = Unit
AreEdges levels (e ∷ es) =
    (entry levels (elim e.id [ zero ↦ 0 | suc i ↦ i ]) ≡ not e.pressed)
    × AreEdges (apply levels e) es

-- What the host has after the events is what the device calls stable, from any initialised state
-- and for any room in the event buffer; every event is an edge of the level it had before; at
-- most `max_events` are written, and at most two.
pub buttons_update-replay :
    (bs : Buttons) (raw : Two Bool) (now max : ℕ)
    → bs.initialized ≡ true
    → let (bs', evs) = buttons_update bs raw now max in
      (replay bs.stable evs ≡ bs'.stable)
      × AreEdges bs.stable evs
      × (length evs ≤ max)
      × (length evs ≤ 2)
unfolding buttons_update
buttons_update-replay bs raw now max init = ground arith
