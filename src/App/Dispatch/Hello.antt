-- ===== src/App/Dispatch/Hello.antt =====
-- The hello line of firmware/src/main.c.
use rp2040_eth_panel.Prelude.{
  ℕ, ◌≤◌, ◌<◌, ◌≡◌, refl, Bool, true, false, List, ◌++◌, length, length-append, arith,
}
use rp2040_eth_panel.Prelude.Text.{codes}
use rp2040_eth_panel.Buttons.{buttons_pressed}
use rp2040_eth_panel.Protocol.Format.{decimal, bool_text, proto_fmt_hello}
use rp2040_eth_panel.Protocol.Numbers.{finish_fits, digits-length}
use rp2040_eth_panel.App.Dispatch.{Panel, Device, dotted, send_hello}

-- The line as it stands in protocol.h.
abbrev pub hello_line : Device → Panel → List ℕ
hello_line device p =
    codes "{\"t\":\"hello\",\"fw\":\""
    ++ (device.version
        ++ (codes "\",\"buttons\":2,\"rings\":["
            ++ (decimal device.nleds.first
                ++ (codes ","
                    ++ (decimal device.nleds.second
                        ++ (codes "],\"pressed\":["
                            ++ (bool_text (buttons_pressed p.buttons 0)
                                ++ (codes ","
                                    ++ (bool_text (buttons_pressed p.buttons 1)
                                        ++ (codes "],\"ip\":\""
                                            ++ (dotted device ++ codes "\"}\n")))))))))))

bool_text-length : (b : Bool) → length (bool_text b) ≤ 5
bool_text-length true = omega arith
bool_text-length false = omega arith

dotted-length : (device : Device) → length (dotted device) ≤ 43
dotted-length device = omega (
  arith,
  length-append {0},
  digits-length 10 device.ip.first.first,
  digits-length 10 device.ip.first.second,
  digits-length 10 device.ip.second.first,
  digits-length 10 device.ip.second.second,
)

hello_line-length :
    (device : Device) (p : Panel) → length device.version ≤ 18 → length (hello_line device p) < 160
hello_line-length device p h = omega (
  arith,
  length-append {0},
  dotted-length device,
  digits-length 10 device.nleds.first,
  digits-length 10 device.nleds.second,
  bool_text-length (buttons_pressed p.buttons 0),
  bool_text-length (buttons_pressed p.buttons 1),
)

-- The hello line is never cut: for a version of at most 18 bytes it fits the 160 bytes of the main
-- loop, so what is sent is the whole line, with the ring sizes, the debounced buttons and the
-- address.
pub send_hello_fits :
    (device : Device) (p : Panel)
    → length device.version ≤ 18
    → send_hello device p ≡ hello_line device p
unfolding send_hello proto_fmt_hello
send_hello_fits device p h =
    rw (finish_fits (hello_line device p) 160 (hello_line-length device p h)) refl
