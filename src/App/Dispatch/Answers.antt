-- ===== src/App/Dispatch/Answers.antt =====
-- What a command changes, and that it is answered by one line (`dispatch` of firmware/src/main.c).
use rp2040_eth_panel.Prelude.{
  length, length-append, ◌<◌, ◌++◌, ℕ, ◌≤◌, ◌≡◌, ◌⊎◌, inl, inr, refl, ap, true, false, List, [],
  ◌∷◌, Option, none, some, Bool-cases, if_both, arith,
}
use rp2040_eth_panel.Prelude.Int.{ℤ, pos, negsuc, in_bounds, pred_ℤ, to_nat}
use rp2040_eth_panel.Prelude.Text.{codes}
use rp2040_eth_panel.Rings.{Rings, rings_set}
use rp2040_eth_panel.Rings.Set.{IsValid, rings_set-IsValid}
use rp2040_eth_panel.Buttons.{buttons_set_debounce}
use rp2040_eth_panel.Protocol.{
  ProtoCmd, ProtoCmdType, cmd_none, cmd_ring, cmd_lamp, cmd_config, cmd_ping, cmd_ota, cmd_hello,
  cmd_unknown, proto_parse,
}
use rp2040_eth_panel.Protocol.Format.{proto_fmt_ack, proto_fmt_err}
use rp2040_eth_panel.Protocol.Numbers.{finish_fits}
use rp2040_eth_panel.App.{LineBuf, Outcome, dispatched, too_long, take_bytes}
use rp2040_eth_panel.App.Dispatch.{
  Panel, Device, do_ring, do_lamp, do_config, run_kind, run_parsed, dispatch, c_string, perform,
  receive, send_ack, send_err, send_hello,
}

-- The panel's invariant: the rings are valid, and the debounce window is 1 to 1000 ms and the same in
-- main.c and in the debouncer.
pub record IsPanel (p : Panel) : Type 0 where
  pub rings_ok : IsValid p.rings
  pub window_lo : 1 ≤ p.debounce_ms
  pub window_hi : p.debounce_ms ≤ 1000
  pub window_set : p.buttons.debounce_ms ≡ p.debounce_ms

in_bounds_lem : (lo hi : ℕ) (v : ℤ) → in_bounds lo hi v ≡ true → (lo ≤ to_nat v) × (to_nat v ≤ hi)
in_bounds_lem lo hi (pos n) h = ground arith
in_bounds_lem lo hi (negsuc n) h = cc

module _ (device : Device) (p : Panel) (ok : IsPanel p) where
  do_ring-IsPanel : (c : ProtoCmd) → IsPanel (do_ring device c p).0
  unfolding do_ring
  do_ring-IsPanel c =
      let (done, rings) = rings_set p.rings (pred_ℤ c.id) c.r c.g c.b c.brightness in
      if_both {A = Panel × List ℕ} (λ t. IsPanel t.0) done (kept c) (kept c)
    where
      kept :
          (c : ProtoCmd)
          → IsPanel
              (record p { rings = (rings_set p.rings (pred_ℤ c.id) c.r c.g c.b c.brightness).1 })
      kept c = record {
        rings_ok = rings_set-IsValid p.rings (pred_ℤ c.id) c.r c.g c.b c.brightness ok.rings_ok;
        window_lo = ok.window_lo;
        window_hi = ok.window_hi;
        window_set = ok.window_set;
      }

  do_config-IsPanel : (c : ProtoCmd) → IsPanel (do_config device c p).0
  unfolding do_config buttons_set_debounce
  do_config-IsPanel c = elim (Bool-cases (in_bounds 1 1000 c.debounce_ms)) [
    | inl e ↦
        let (lo, hi) = in_bounds_lem 1 1000 c.debounce_ms e in
        rw e (record { rings_ok = ok.rings_ok; window_lo = lo; window_hi = hi; window_set = refl })
    | inr e ↦ rw e ok
  ]

  do_lamp-IsPanel : (c : ProtoCmd) → IsPanel (do_lamp device c p).0
  unfolding do_lamp
  do_lamp-IsPanel c =
      if_both {A = Panel × List ℕ} (λ t. IsPanel t.0) (in_bounds 0 1 c.on)
        (record {
          rings_ok = ok.rings_ok;
          window_lo = ok.window_lo;
          window_hi = ok.window_hi;
          window_set = ok.window_set;
        })
        ok

  run_kind-IsPanel : (k : ProtoCmdType) (c : ProtoCmd) → IsPanel (run_kind device k c p).0
  unfolding run_kind
  run_kind-IsPanel cmd_ring c = do_ring-IsPanel c
  run_kind-IsPanel cmd_lamp c = do_lamp-IsPanel c
  run_kind-IsPanel cmd_config c = do_config-IsPanel c
  run_kind-IsPanel cmd_ping c = ok
  run_kind-IsPanel cmd_hello c = ok
  run_kind-IsPanel cmd_ota c = record {
    rings_ok = ok.rings_ok;
    window_lo = ok.window_lo;
    window_hi = ok.window_hi;
    window_set = ok.window_set;
  }
  run_kind-IsPanel cmd_none c = ok
  run_kind-IsPanel cmd_unknown c = ok

  run_parsed-IsPanel : (c : Option ProtoCmd) → IsPanel (run_parsed device c p).0
  unfolding run_parsed
  run_parsed-IsPanel none = ok
  run_parsed-IsPanel (some c) = run_kind-IsPanel c.kind c

  dispatch-IsPanel : (line : List ℕ) → IsPanel (dispatch device line p).0
  unfolding dispatch
  dispatch-IsPanel line = run_parsed-IsPanel (proto_parse (c_string line))

module _ (device : Device) where
  perform-IsPanel : (os : List Outcome) (p : Panel) → IsPanel p → IsPanel (perform device os p).0
  unfolding perform
  perform-IsPanel [] p ok = ok
  perform-IsPanel (dispatched line ∷ os) p ok =
      let p' = (dispatch device line p).0 in
      let ok' = dispatch-IsPanel device p ok line in
      if_both {A = Panel × List ℕ} (λ t. IsPanel t.0) p'.update_requested ok'
        (perform-IsPanel os p' ok')
  perform-IsPanel (too_long ∷ os) p ok = perform-IsPanel os p ok

  -- Whatever bytes a host sends, with whatever held of a line before, the panel's invariant is
  -- kept: every channel and brightness of a ring is a byte, and the debounce window is 1 to 1000
  -- ms and the same in both places.
  pub receive-IsPanel :
      (bytes : List ℕ) (b : LineBuf) (p : Panel) → IsPanel p → IsPanel (receive device bytes b p).0
  unfolding receive
  receive-IsPanel bytes b p ok = perform-IsPanel (take_bytes b bytes).0 p ok

-- The answers as they stand in protocol.h.
abbrev pub ack_line : List ℕ → List ℕ
ack_line cmd = codes "{\"t\":\"ack\",\"cmd\":\"" ++ (cmd ++ codes "\"}\n")

abbrev pub err_line : List ℕ → List ℕ
err_line msg = codes "{\"t\":\"err\",\"msg\":\"" ++ (msg ++ codes "\"}\n")

-- What a command may do: it is acknowledged; or refused or asks for the hello line, and then
-- nothing has changed.
abbrev pub IsAnswer : Device → Panel → Panel → List ℕ → Type 0
IsAnswer device p p' out =
    ((cmd : List ℕ) × (out ≡ ack_line cmd))
    ⊎ (((msg : List ℕ) × (out ≡ err_line msg) × (p' ≡ p))
        ⊎ ((out ≡ send_hello device p) × (p' ≡ p)))

-- The buffers of `send_ack` and `send_err` are large enough for what `dispatch` sends.
send_ack-short : (cmd : List ℕ) → length cmd < 20 → send_ack cmd ≡ ack_line cmd
unfolding proto_fmt_ack
send_ack-short cmd h =
    let fits : length (ack_line cmd) < 48 = omega (arith, length-append cmd (codes "\"}\n")) in
    rw (finish_fits (ack_line cmd) 48 fits) refl

send_err-short : (msg : List ℕ) → length msg < 50 → send_err msg ≡ err_line msg
unfolding proto_fmt_err
send_err-short msg h =
    let fits : length (err_line msg) < 80 = omega (arith, length-append msg (codes "\"}\n")) in
    rw (finish_fits (err_line msg) 80 fits) refl

rings_set_refused :
    (rs : Rings) (idx r g b brightness : ℤ)
    → (rings_set rs idx r g b brightness).0 ≡ false
    → (rings_set rs idx r g b brightness).1 ≡ rs
unfolding rings_set
rings_set_refused rs idx r g b brightness h = ground arith

module _ (device : Device) (p : Panel) where
  do_ring-IsAnswer : (c : ProtoCmd) → let (p', out) = do_ring device c p in IsAnswer device p p' out
  unfolding do_ring
  do_ring-IsAnswer c =
      let t = rings_set p.rings (pred_ℤ c.id) c.r c.g c.b c.brightness in
      elim (Bool-cases t.0) [
        | inl e ↦ rw e (inl (codes "ring", send_ack-short (codes "ring") (omega arith)))
        | inr e ↦
            let same : t.1 ≡ p.rings =
              rings_set_refused p.rings (pred_ℤ c.id) c.r c.g c.b c.brightness e in
            rw e (
              inr (
                inl (
                  codes "bad ring cmd",
                  send_err-short (codes "bad ring cmd") (omega arith),
                  ap (λ (r : Rings). record p { rings = r }) same,
                )))
      ]

  do_lamp-IsAnswer : (c : ProtoCmd) → let (p', out) = do_lamp device c p in IsAnswer device p p' out
  unfolding do_lamp
  do_lamp-IsAnswer c = elim (Bool-cases (in_bounds 0 1 c.on)) [
    | inl e ↦ rw e (inl (codes "lamp", send_ack-short (codes "lamp") (omega arith)))
    | inr e ↦ rw e (
        inr (inl (codes "bad lamp cmd", send_err-short (codes "bad lamp cmd") (omega arith), refl)))
  ]

  do_config-IsAnswer :
      (c : ProtoCmd) → let (p', out) = do_config device c p in IsAnswer device p p' out
  unfolding do_config
  do_config-IsAnswer c = elim (Bool-cases (in_bounds 1 1000 c.debounce_ms)) [
    | inl e ↦ rw e (inl (codes "config", send_ack-short (codes "config") (omega arith)))
    | inr e ↦ rw e (
        inr (
          inl (
            codes "bad debounce_ms",
            send_err-short (codes "bad debounce_ms") (omega arith),
            refl,
          )))
  ]

  run_kind-IsAnswer :
      (k : ProtoCmdType) (c : ProtoCmd)
      → let (p', out) = run_kind device k c p in IsAnswer device p p' out
  unfolding run_kind
  run_kind-IsAnswer cmd_ring c = do_ring-IsAnswer c
  run_kind-IsAnswer cmd_lamp c = do_lamp-IsAnswer c
  run_kind-IsAnswer cmd_config c = do_config-IsAnswer c
  run_kind-IsAnswer cmd_ping c = inl (codes "ping", send_ack-short (codes "ping") (omega arith))
  run_kind-IsAnswer cmd_hello c = inr (inr (refl, refl))
  run_kind-IsAnswer cmd_ota c = inl (codes "ota", send_ack-short (codes "ota") (omega arith))
  run_kind-IsAnswer cmd_none c =
      inr (inl (codes "unknown cmd", send_err-short (codes "unknown cmd") (omega arith), refl))
  run_kind-IsAnswer cmd_unknown c =
      inr (inl (codes "unknown cmd", send_err-short (codes "unknown cmd") (omega arith), refl))

  run_parsed-IsAnswer :
      (c : Option ProtoCmd) → let (p', out) = run_parsed device c p in IsAnswer device p p' out
  unfolding run_parsed
  run_parsed-IsAnswer none =
      inr (inl (codes "no cmd", send_err-short (codes "no cmd") (omega arith), refl))
  run_parsed-IsAnswer (some c) = run_kind-IsAnswer c.kind c

-- Every line that is dispatched gets one answer, whole: an acknowledgement line, an error line or
-- what `send_hello` sends; and without an acknowledgement nothing of the panel has changed.
pub dispatch_answers :
    (device : Device) (p : Panel) (line : List ℕ)
    → let (p', out) = dispatch device line p in IsAnswer device p p' out
unfolding dispatch
dispatch_answers device p line = run_parsed-IsAnswer device p (proto_parse (c_string line))
