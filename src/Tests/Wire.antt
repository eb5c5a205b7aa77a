-- ===== src/Tests/Wire.antt =====
-- The checksum, the receive ring, the command lines and the parser on concrete inputs.
use rp2040_eth_panel.Prelude.{
  ℕ, ◌≡◌, refl, true, List, [], ◌∷◌, some, replicate, length-replicate, All, arith, same_bytes,
}
use rp2040_eth_panel.Prelude.Int.{pos, negsuc}
use rp2040_eth_panel.Prelude.Text.{codes}
use rp2040_eth_panel.Crc32.{ota_crc32}
use rp2040_eth_panel.Crc32.Remainder.{ieee_crc32, ota_crc32-eq-ieee_crc32}
use rp2040_eth_panel.Crc32.Detect.{ota_crc32_burst}
use rp2040_eth_panel.Net.{RxRing, Port, net_rx_irq}
use rp2040_eth_panel.Net.Queue.{net_rx_irq-waiting}
use rp2040_eth_panel.Net.Ring.{IsRing, waiting, enqueue_all}
use rp2040_eth_panel.App.{dispatched, empty_line, take_bytes}
use rp2040_eth_panel.App.Lines.{IsLine, stream, judge_all, take_bytes-lines}
use rp2040_eth_panel.Protocol.{
  cmd_ring, find_key, find_from, strip_prefix, after_colon, colon_value, skip_blanks, string_value,
  parse_fields, copy_str, get_int, int_value, digits_value, get_str, strtol, proto_parse,
}
use rp2040_eth_panel.Protocol.Object.{Fields, number, flag, word, object_text}
use rp2040_eth_panel.Protocol.Object.Meaning.{AreSendable}
use rp2040_eth_panel.Protocol.Object.Command.{command, proto_parse-object}

-- The check value of CRC-32.
crc_check_value : ota_crc32 (codes "123456789") ≡ 0xCBF43926
unfolding ota_crc32
crc_check_value = refl

ota_crc32-eq-ieee_crc32_example : ota_crc32 (codes "RP2") ≡ ieee_crc32 (codes "RP2")
ota_crc32-eq-ieee_crc32_example = ota_crc32-eq-ieee_crc32 (codes "RP2") (omega arith)

abbrev stretch : List ℕ
stretch = 7 ∷ 8 ∷ []

ota_crc32_burst_example : stretch ≡ stretch
ota_crc32_burst_example =
    ota_crc32_burst (1 ∷ []) stretch stretch (2 ∷ []) (omega arith) (omega arith) (omega arith)
      (omega arith) refl (omega arith) refl

-- A ring that has nearly gone around.
abbrev wrapped_ring : RxRing
wrapped_ring = record { ring = replicate 2048 0; head = 2047; tail = 2046; overruns = 0 }

wrapped_ring-IsRing : IsRing wrapped_ring
wrapped_ring-IsRing = record {
  size = length-replicate {A = ℕ} 2048 0;
  head_in = omega arith;
  tail_in = omega arith;
}

net_rx_irq-waiting_example :
    IsRing (net_rx_irq wrapped_ring (codes "ab"))
    × (waiting (net_rx_irq wrapped_ring (codes "ab"))
        ≡ enqueue_all (waiting wrapped_ring) (codes "ab"))
net_rx_irq-waiting_example = net_rx_irq-waiting wrapped_ring (codes "ab") wrapped_ring-IsRing

abbrev wrapped_port : Port
wrapped_port = record { rx = wrapped_ring; irq_inited = true; fifo = [] }

-- A command, an empty line, and another command.
abbrev two_lines : List (List ℕ)
two_lines = codes "ab" ∷ [] ∷ codes "c" ∷ []

take_bytes-lines_example :
    take_bytes empty_line (stream two_lines) ≡ (judge_all two_lines, empty_line)
take_bytes-lines_example = take_bytes-lines two_lines lines
  where
    lines : All IsLine two_lines
    lines = (
      (λ e. absurd (omega (arith, e)), (λ e. absurd (omega (arith, e)), tt)),
      (tt, ((λ e. absurd (omega (arith, e)), tt), tt)),
    )

judge_all_value : judge_all two_lines ≡ dispatched (codes "ab") ∷ dispatched (codes "c") ∷ []
judge_all_value = refl

abbrev ring_line : List ℕ
ring_line = codes "{\"cmd\" : \"ring\", \"x\":\"id\", \"id\": 2, \"r\":-5}"

ring_line_parsed :
    proto_parse ring_line
    ≡ some (record {
      kind = cmd_ring;
      id = pos 2;
      r = negsuc 4;
      g = negsuc 0;
      b = negsuc 0;
      brightness = negsuc 0;
      on = negsuc 0;
      debounce_ms = negsuc 0;
    })
unfolding proto_parse get_str find_key find_from strip_prefix after_colon colon_value skip_blanks
    string_value parse_fields same_bytes copy_str get_int int_value strtol digits_value
ring_line_parsed = refl

id_found : find_key ring_line (codes "id") ≡ some (codes "2, \"r\":-5}")
unfolding find_key find_from strip_prefix after_colon colon_value skip_blanks
id_found = refl

-- `cmd[16]` with a longer verb.
abbrev long_line : List ℕ
long_line = codes "{\"cmd\":\"abcdefghijklmnopqrst\"}"

long_verb : get_str long_line (codes "cmd") 16 ≡ some (codes "abcdefghijklmno")
unfolding get_str find_key find_from strip_prefix after_colon colon_value skip_blanks string_value
    copy_str
long_verb = refl

-- The string "id" is no key, the second "id" is not read, and "g" has no number.
abbrev tricky : Fields
tricky =
    (codes "mode", word (codes "id"))
    ∷ (codes "id", number 2)
    ∷ (codes "cmd", word (codes "ring"))
    ∷ (codes "g", flag true)
    ∷ (codes "id", number 9)
    ∷ []

tricky-AreSendable : AreSendable tricky
tricky-AreSendable = omega arith

proto_parse-object_example : proto_parse (object_text tricky) ≡ some (command (codes "ring") tricky)
unfolding same_bytes
proto_parse-object_example = proto_parse-object tricky tricky-AreSendable

tricky_value : command (codes "ring") tricky ≡ record {
  kind = cmd_ring;
  id = pos 2;
  r = negsuc 0;
  g = negsuc 0;
  b = negsuc 0;
  brightness = negsuc 0;
  on = negsuc 0;
  debounce_ms = negsuc 0;
}
unfolding same_bytes
tricky_value = refl
