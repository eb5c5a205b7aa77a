-- ===== src/App/Dispatch/Kept.antt =====
-- What commands leave alone of the rings (`dispatch` of firmware/src/main.c).
use rp2040_eth_panel.Prelude.{List, [], ◌∷◌, ℕ, Option, none, some, if_both}
use rp2040_eth_panel.Prelude.Int.{ℤ, in_bounds, pred_ℤ}
use rp2040_eth_panel.Rings.{Rings, rings_set}
use rp2040_eth_panel.Protocol.{
  ProtoCmd, ProtoCmdType, cmd_none, cmd_ring, cmd_lamp, cmd_config, cmd_ping, cmd_ota, cmd_hello,
  cmd_unknown, proto_parse,
}
use rp2040_eth_panel.App.{Outcome, LineBuf, dispatched, too_long, take_bytes}
use rp2040_eth_panel.App.Dispatch.{
  Panel, Device, do_ring, do_lamp, do_config, run_kind, run_parsed, dispatch, c_string, perform,
  receive,
}

-- The commands change the rings by `rings_set` alone: what that keeps, they keep.
module _ (P : Rings → Type 0)
    (keeps : (rs : Rings) (idx r g b brightness : ℤ)
      → P rs
      → P (rings_set rs idx r g b brightness).1)
    (device : Device) where
  run_kind-rings :
      (k : ProtoCmdType) (c : ProtoCmd) (p : Panel) → P p.rings → P (run_kind device k c p).0.rings
  unfolding run_kind do_ring do_lamp do_config
  run_kind-rings cmd_ring c p h =
      let rs = keeps p.rings (pred_ℤ c.id) c.r c.g c.b c.brightness h in
      if_both {A = Panel × List ℕ} (λ t. P t.0.rings)
        (rings_set p.rings (pred_ℤ c.id) c.r c.g c.b c.brightness).0 rs rs
  run_kind-rings cmd_lamp c p h =
      if_both {A = Panel × List ℕ} (λ t. P t.0.rings) (in_bounds 0 1 c.on) h h
  run_kind-rings cmd_config c p h =
      if_both {A = Panel × List ℕ} (λ t. P t.0.rings) (in_bounds 1 1000 c.debounce_ms) h h
  run_kind-rings cmd_ping c p h = h
  run_kind-rings cmd_hello c p h = h
  run_kind-rings cmd_ota c p h = h
  run_kind-rings cmd_none c p h = h
  run_kind-rings cmd_unknown c p h = h

  run_parsed-rings :
      (c : Option ProtoCmd) (p : Panel) → P p.rings → P (run_parsed device c p).0.rings
  unfolding run_parsed
  run_parsed-rings none p h = h
  run_parsed-rings (some c) p h = run_kind-rings c.kind c p h

  perform-rings : (os : List Outcome) (p : Panel) → P p.rings → P (perform device os p).0.rings
  unfolding perform dispatch
  perform-rings [] p h = h
  perform-rings (dispatched line ∷ os) p h =
      let p' = (dispatch device line p).0 in
      let h' = run_parsed-rings (proto_parse (c_string line)) p h in
      if_both {A = Panel × List ℕ} (λ t. P t.0.rings) p'.update_requested h'
        (perform-rings os p' h')
  perform-rings (too_long ∷ os) p h = perform-rings os p h

  pub receive-rings :
      (bytes : List ℕ) (b : LineBuf) (p : Panel) → P p.rings → P (receive device bytes b p).0.rings
  unfolding receive
  receive-rings bytes b p h = perform-rings (take_bytes b bytes).0 p h
