-- ===== src/App/Loop/Keeps.antt =====
-- What holds between any two passes of the main loop of firmware/src/main.c.
use rp2040_eth_panel.Prelude.{
  ℕ, ◌≡◌, ◌≢◌, sym, ap, ◌∙◌, Bool, true, false, List, [], ◌∷◌, ◌++◌, Two, not, ◌&&◌, Bool-cases,
  inl, inr, if_both, if◌then◌else◌, arith,
}
use rp2040_eth_panel.Buttons.{Buttons, buttons_update}
use rp2040_eth_panel.Rings.{Rings}
use rp2040_eth_panel.Rings.Flush.{
  rings_flush, show, IsShown, LedsFit, Frame, frame_words_congr, frame_words, rings_flush-shows,
  rings_flush-IsShown, rings_set-IsShown, rings_set-LedsFit,
}
use rp2040_eth_panel.StatusLed.{status_led_task}
use rp2040_eth_panel.Net.{arrive, net_read}
use rp2040_eth_panel.Net.Open.{IsOpen, arrive-IsOpen, net_read-IsOpen, net_rx_flush-IsOpen}
use rp2040_eth_panel.Buttons.Pins.{buttons_hw_read}
use rp2040_eth_panel.App.{LineBuf}
use rp2040_eth_panel.App.Lines.{IsHeld, take_bytes-IsHeld}
use rp2040_eth_panel.App.Dispatch.{Panel, Device, receive}
use rp2040_eth_panel.App.Dispatch.Answers.{IsPanel, receive-IsPanel}
use rp2040_eth_panel.App.Dispatch.Kept.{receive-rings}
use rp2040_eth_panel.App.Loop.Linger.{moved_pass, pass-eq-moved_pass}
use rp2040_eth_panel.App.Loop.{
  Station, Inputs, Outputs, scan_buttons, push_frames, greet, net_peer_connected, read_commands,
  pass, run, rxbuf_size,
}

true-ne-false : true ≢ false
true-ne-false e = cc

-- The panel, with what its rings show on their chains.
pub record IsShowing (shown : Two (List ℕ)) (p : Panel) : Type 0 where
  pub panel_ok : IsPanel p
  pub leds_fit : LedsFit p.rings
  pub rings_shown : IsShown shown p.rings

pub record IsStation (shown : Two (List ℕ)) (s : Station) : Type 0 where
  pub showing : IsShowing shown s.panel
  pub port_open : IsOpen s.port
  pub held : IsHeld s.line

pub buttons_update-debounce :
    (bs : Buttons) (raw : Two Bool) (now max : ℕ)
    → (buttons_update bs raw now max).0.debounce_ms ≡ bs.debounce_ms
unfolding buttons_update
buttons_update-debounce bs raw now max = ground arith

scan_buttons-IsShowing :
    (shown : Two (List ℕ)) (levels : Two Bool) (now : ℕ) (p : Panel)
    → IsShowing shown p
    → IsShowing shown (scan_buttons levels now p).0
unfolding scan_buttons
scan_buttons-IsShowing shown levels now p h = record {
  panel_ok = record {
    rings_ok = h.panel_ok.rings_ok;
    window_lo = h.panel_ok.window_lo;
    window_hi = h.panel_ok.window_hi;
    window_set =
        buttons_update-debounce p.buttons (buttons_hw_read levels) now 4 ∙ h.panel_ok.window_set;
  };
  leds_fit = h.leds_fit;
  rings_shown = h.rings_shown;
}

receive-IsShowing :
    (device : Device) (shown : Two (List ℕ)) (bytes : List ℕ) (b : LineBuf) (p : Panel)
    → IsShowing shown p
    → IsShowing shown (receive device bytes b p).0
receive-IsShowing device shown bytes b p h = record {
  panel_ok = receive-IsPanel device bytes b p h.panel_ok;
  leds_fit = receive-rings LedsFit rings_set-LedsFit device bytes b p h.leds_fit;
  rings_shown =
      receive-rings (λ rs. IsShown shown rs) (rings_set-IsShown shown) device bytes b p
        h.rings_shown;
}

-- What the chains show is what has been commanded.
abbrev pub ShowsCommanded : Two (List ℕ) → Rings → Type 0
ShowsCommanded shown rs =
    (rs.dirty.first ≡ false)
    × (rs.dirty.second ≡ false)
    × (shown.first ≡ frame_words rs 0)
    × (shown.second ≡ frame_words rs 1)

push_frames_lem :
    (p : Panel) (b : Bool)
    → p.update_requested ≡ b
    → let (rings, frames) = rings_flush p.rings in
      push_frames p ≡ (if b then (p, []) else (record p { rings = rings }, frames))
unfolding push_frames
push_frames_lem p b e =
    let (rings, frames) = rings_flush p.rings in
    let other : Panel × List Frame = (record p { rings = rings }, frames) in
    ap (λ (c : Bool). if c then (p, []) else other) e

-- The flush keeps the panel, and leaves the rings clean.
pub flushed-IsShowing :
    (shown : Two (List ℕ)) (p : Panel)
    → IsShowing shown p
    → let (rings, frames) = rings_flush p.rings in
      IsShowing (show shown frames) (record p { rings = rings })
      × ShowsCommanded (show shown frames) rings
flushed-IsShowing shown p h =
    let (first_clean, second_clean, st, nleds, first, second, _) =
      rings_flush-shows shown p.rings h.rings_shown h.leds_fit.0 h.leds_fit.1 in
    let (shows, fit) = rings_flush-IsShown shown p.rings h.leds_fit h.rings_shown in
    let bytes = h.panel_ok.rings_ok in
    (
      record {
        panel_ok = record {
          rings_ok = record {
            first_bytes = rw st bytes.first_bytes;
            second_bytes = rw st bytes.second_bytes;
          };
          window_lo = h.panel_ok.window_lo;
          window_hi = h.panel_ok.window_hi;
          window_set = h.panel_ok.window_set;
        };
        leds_fit = fit;
        rings_shown = shows;
      },
      (
        first_clean,
        second_clean,
        first ∙ frame_words_congr p.rings (rings_flush p.rings).0 0 (sym st) (sym nleds),
        second ∙ frame_words_congr p.rings (rings_flush p.rings).0 1 (sym st) (sym nleds),
      ),
    )

-- Unless an update has been requested, a pass leaves the chains showing what is commanded.
push_frames-IsShowing :
    (shown : Two (List ℕ)) (p : Panel)
    → IsShowing shown p
    → let (p', frames) = push_frames p in
      IsShowing (show shown frames) p'
      × (p'.update_requested ≡ false → ShowsCommanded (show shown frames) p'.rings)
push_frames-IsShowing shown p h = elim (Bool-cases p.update_requested) [
  | inl e ↦ rw (push_frames_lem p true e) (h, λ f. absurd (true-ne-false (sym e ∙ f)))
  | inr e ↦
      let (kept, clean) = flushed-IsShowing shown p h in
      rw (push_frames_lem p false e) (kept, λ _. clean)
]

module _ (device : Device) where
  greet-IsStation :
      (shown : Two (List ℕ)) (peer : Bool) (s : Station)
      → IsStation shown s
      → IsStation shown (greet device peer s).0
  unfolding greet
  greet-IsStation shown peer s h =
      if_both {A = Station × List ℕ} (λ t. IsStation shown t.0) (peer && not s.peer_was_connected)
        (record {
          showing = h.showing;
          port_open = (net_rx_flush-IsOpen s.port h.port_open).0;
          held = record { fits = omega arith; one_line = tt };
        })
        (record { showing = h.showing; port_open = h.port_open; held = h.held })

  read_commands-IsStation :
      (shown : Two (List ℕ)) (s : Station)
      → IsStation shown s
      → IsStation shown (read_commands device s).0
  unfolding read_commands receive
  read_commands-IsStation shown s h =
      let bytes = (net_read rxbuf_size s.port).0 in
      record {
        showing = unfold receive in receive-IsShowing device shown bytes s.line s.panel h.showing;
        port_open = (net_read-IsOpen s.port h.port_open rxbuf_size).0;
        held = take_bytes-IsHeld s.line bytes h.held;
      }

  moved_pass-IsStation :
      (shown : Two (List ℕ)) (i : Inputs) (s : Station)
      → IsStation shown s
      → let (s', out) = moved_pass device i s in
        let shown' = show shown out.frames in
        IsStation shown' s'
        × (s'.panel.update_requested ≡ false → ShowsCommanded shown' s'.panel.rings)
  moved_pass-IsStation shown i s h =
      let behind = i.lingering ++ i.late in
      let led = (status_led_task i.led_due s.led).0 in
      let s0 : Station = record s { led = led; port = arrive s.port i.early } in
      let h0 : IsStation shown s0 = record {
        showing = h.showing;
        port_open = (arrive-IsOpen s.port h.port_open i.early).0;
        held = h.held;
      } in
      let s1 = (greet device (net_peer_connected i.tcps) s0).0 in
      let h1 = greet-IsStation shown (net_peer_connected i.tcps) s0 h0 in
      let s2 : Station = record s1 {
        panel = (scan_buttons i.levels i.now_ms s1.panel).0;
        port = arrive s1.port behind;
      } in
      let h2 : IsStation shown s2 = record {
        showing = scan_buttons-IsShowing shown i.levels i.now_ms s1.panel h1.showing;
        port_open = (arrive-IsOpen s1.port h1.port_open behind).0;
        held = h1.held;
      } in
      let h3 = read_commands-IsStation shown s2 h2 in
      let (kept, clean) =
        push_frames-IsShowing shown (read_commands device s2).0.panel h3.showing in
      (record { showing = kept; port_open = h3.port_open; held = h3.held }, clean)

  -- Between two passes: every channel of a ring is a byte, the debounce window is 1 to 1000 ms and
  -- the same in both places, the indices of the receive ring lie in it, the line buffer holds at
  -- most 255 bytes and no newline, and a ring that is not dirty shows its state. A pass keeps all
  -- of it, whatever the pins, the clock and the network give it; and unless it has requested an
  -- update, both rings are clean after it and both chains show what is commanded.
  pub pass-IsStation :
      (shown : Two (List ℕ)) (i : Inputs) (s : Station)
      → IsStation shown s
      → let (s', out) = pass device i s in
        let shown' = show shown out.frames in
        IsStation shown' s'
        × (s'.panel.update_requested ≡ false → ShowsCommanded shown' s'.panel.rings)
  pass-IsStation shown i s h =
      rw (pass-eq-moved_pass device i s h.port_open) (moved_pass-IsStation shown i s h)

-- What the chains show behind a number of passes.
abbrev pub shown_after : Two (List ℕ) → List Outputs → Two (List ℕ)
shown_after shown [] = shown
shown_after shown (out ∷ outs) = shown_after (show shown out.frames) outs

-- Unless an update has been requested, the chains show what is commanded.
abbrev pub IsClean : Two (List ℕ) → Station → Type 0
IsClean shown s = s.panel.update_requested ≡ false → ShowsCommanded shown s.panel.rings

pub run-IsStation :
    (device : Device) (is : List Inputs) (shown : Two (List ℕ)) (s : Station)
    → IsStation shown s
    → IsClean shown s
    → let (s', outs) = run device is s in
      IsStation (shown_after shown outs) s' × IsClean (shown_after shown outs) s'
unfolding run
run-IsStation device [] shown s h clean = (h, clean)
run-IsStation device (i ∷ is) shown s h clean =
    let (h', clean') = pass-IsStation device shown i s h in
    if_both {A = Station × List Outputs}
      (λ t. IsStation (shown_after shown t.1) t.0 × IsClean (shown_after shown t.1) t.0)
      s.panel.update_requested (h, clean)
      (run-IsStation device is (show shown (pass device i s).1.frames) (pass device i s).0 h'
        clean')
