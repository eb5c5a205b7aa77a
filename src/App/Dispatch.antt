-- ===== src/App/Dispatch.antt =====
-- `dispatch` of firmware/src/main.c: one command line, its effect and its answer.
pub mod Answers
pub mod Hello
pub mod Kept
pub mod Objects
use rp2040_eth_panel.Prelude.{
  ℕ, zero, suc, ◌+◌, ◌-◌, Bool, true, false, not, ◌&&◌, ◌||◌, List, [], ◌∷◌, ◌++◌, Option, none,
  some, Two, same_bytes, leb, ◌==◌, u8, if◌then◌else◌,
}
use rp2040_eth_panel.Prelude.Int.{ℤ, pos, negsuc, in_bounds, pred_ℤ, to_nat}
use rp2040_eth_panel.Prelude.Text.{codes}
use rp2040_eth_panel.Buttons.{Buttons, buttons_set_debounce, buttons_pressed}
use rp2040_eth_panel.Rings.{Rings, rings_set}
use rp2040_eth_panel.App.{LineBuf, Outcome, dispatched, too_long, take_bytes}
use rp2040_eth_panel.Protocol.{
  ProtoCmd, ProtoCmdType, cmd_none, cmd_ring, cmd_lamp, cmd_config, cmd_ping, cmd_ota, cmd_hello,
  cmd_unknown, proto_parse,
}
use rp2040_eth_panel.Protocol.Format.{decimal, proto_fmt_ack, proto_fmt_err, proto_fmt_hello}

-- The variables of main.c, the lamp's pin, and whether `ota_request_update` was called.
pub record Panel : Type 0 where
  pub rings : Rings
  pub buttons : Buttons
  pub debounce_ms : ℕ
  pub lamp : Bool
  pub update_requested : Bool

-- `send_line`: what the formatter returned, if it did not fail.
abbrev pub send_line : Option (List ℕ) → List ℕ
send_line none = []
send_line (some line) = line

abbrev pub send_ack : List ℕ → List ℕ
send_ack cmd = send_line (proto_fmt_ack 48 cmd)

abbrev pub send_err : List ℕ → List ℕ
send_err msg = send_line (proto_fmt_err 80 msg)

-- `s_lamp_on` and the pin, which always agree.
abbrev pub lamp_hw_set : Bool → Panel → Panel
lamp_hw_set on p = record p { lamp = on }

-- `FW_VERSION`, the ring sizes and the address in the network status.
pub record Device : Type 0 where
  pub version : List ℕ
  pub nleds : Two ℕ
  pub ip : Two (Two ℕ)

-- The line reaches `dispatch` as a C string: up to its first zero byte.
unfoldable pub c_string : List ℕ → List ℕ
c_string [] = []
c_string (c ∷ s) = if c == 0 then [] else c ∷ c_string s

module _ (device : Device) where
  abbrev pub dotted : List ℕ
  dotted =
      decimal device.ip.first.first
      ++ (codes "."
          ++ (decimal device.ip.first.second
              ++ (codes "."
                  ++ (decimal device.ip.second.first
                      ++ (codes "." ++ decimal device.ip.second.second)))))

  unfoldable pub send_hello : Panel → List ℕ
  send_hello p = send_line (
      proto_fmt_hello 160 device.version device.nleds
        (record { first = buttons_pressed p.buttons 0; second = buttons_pressed p.buttons 1 })
        dotted)

  unfoldable pub do_ring : ProtoCmd → Panel → Panel × List ℕ
  do_ring c p =
      let (ok, rings) = rings_set p.rings (pred_ℤ c.id) c.r c.g c.b c.brightness in
      if ok
      then (record p { rings = rings }, send_ack (codes "ring"))
      else (record p { rings = rings }, send_err (codes "bad ring cmd"))

  unfoldable pub do_lamp : ProtoCmd → Panel → Panel × List ℕ
  do_lamp c p =
      if in_bounds 0 1 c.on
      then (lamp_hw_set (to_nat c.on == 1) p, send_ack (codes "lamp"))
      else (p, send_err (codes "bad lamp cmd"))

  unfoldable pub do_config : ProtoCmd → Panel → Panel × List ℕ
  do_config c p =
      if in_bounds 1 1000 c.debounce_ms
      then (
        record p {
          debounce_ms = to_nat c.debounce_ms;
          buttons = buttons_set_debounce p.buttons (to_nat c.debounce_ms);
        },
        send_ack (codes "config"),
      )
      else (p, send_err (codes "bad debounce_ms"))

  -- The `switch`.
  unfoldable pub run_kind : ProtoCmdType → ProtoCmd → Panel → Panel × List ℕ
  run_kind cmd_ring c p = do_ring c p
  run_kind cmd_lamp c p = do_lamp c p
  run_kind cmd_config c p = do_config c p
  run_kind cmd_ping c p = (p, send_ack (codes "ping"))
  run_kind cmd_hello c p = (p, send_hello p)
  run_kind cmd_ota c p = (record p { update_requested = true }, send_ack (codes "ota"))
  run_kind cmd_none c p = (p, send_err (codes "unknown cmd"))
  run_kind cmd_unknown c p = (p, send_err (codes "unknown cmd"))

  unfoldable pub run_parsed : Option ProtoCmd → Panel → Panel × List ℕ
  run_parsed none p = (p, send_err (codes "no cmd"))
  run_parsed (some c) p = run_kind c.kind c p

  unfoldable pub dispatch : List ℕ → Panel → Panel × List ℕ
  dispatch line p = run_parsed (proto_parse (c_string line)) p

  -- The calls of the loop over `rxbuf`, in order. The call that requests an update does not
  -- return.
  unfoldable pub perform : List Outcome → Panel → Panel × List ℕ
  perform [] p = (p, [])
  perform (dispatched line ∷ os) p =
      let (p', out) = dispatch line p in
      let (p'', rest) = perform os p' in
      if p'.update_requested then (p', out) else (p'', out ++ rest)
  perform (too_long ∷ os) p =
      let (p', rest) = perform os p in (p', send_err (codes "line too long") ++ rest)

  -- The loop over the bytes that `net_read` returned.
  unfoldable pub receive : List ℕ → LineBuf → Panel → Panel × LineBuf × List ℕ
  receive bytes b p =
      let (os, b') = take_bytes b bytes in let (p', out) = perform os p in (p', b', out)
