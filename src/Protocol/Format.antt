-- ===== src/Protocol/Format.antt =====
-- The lines that firmware/src/protocol/protocol.c writes. A formatter returns the line, or `none` for
-- -1 where the buffer of `n` bytes would have cut it.
use rp2040_eth_panel.Prelude.{
  ℕ, zero, suc, ◌+◌, ◌/◌, ◌%◌, Bool, List, [], ◌∷◌, ◌++◌, Option, none, some, Two, entry, length,
  ltb, if◌then◌else◌,
}
use rp2040_eth_panel.Prelude.Text.{codes}

-- `%d` and `%lu` of a number with at most `n` digits; ten are enough for 32 bits.
unfoldable pub digits : ℕ → ℕ → List ℕ
digits zero v = []
digits (suc n) v =
    let front = digits n (v / 10) in
    if ltb v 10 then (48 + v) ∷ [] else front ++ ((48 + v % 10) ∷ [])

abbrev pub decimal : ℕ → List ℕ
decimal v = digits 10 v

-- `finish`: the terminator has to fit too.
unfoldable pub finish : List ℕ → ℕ → Option (List ℕ)
finish text n = if ltb (length text) n then some text else none

-- The line of `proto_fmt_btn` behind the button's number.
abbrev pub btn_rest : Bool → ℕ → List ℕ
btn_rest pressed ms =
    codes ",\"e\":\""
    ++ ((if pressed then codes "down" else codes "up")
        ++ (codes "\",\"ms\":" ++ (decimal ms ++ codes "}\n")))

unfoldable pub proto_fmt_btn : ℕ → ℕ → Bool → ℕ → Option (List ℕ)
proto_fmt_btn n id pressed ms =
    finish (codes "{\"t\":\"btn\",\"id\":" ++ (decimal id ++ btn_rest pressed ms)) n

abbrev pub bool_text : Bool → List ℕ
bool_text b = if b then codes "true" else codes "false"

unfoldable pub proto_fmt_hello : ℕ → List ℕ → Two ℕ → Two Bool → List ℕ → Option (List ℕ)
proto_fmt_hello n fw nleds pressed ip =
    finish
      (codes "{\"t\":\"hello\",\"fw\":\""
        ++ (fw
            ++ (codes "\",\"buttons\":2,\"rings\":["
                ++ (decimal (entry nleds 0)
                    ++ (codes ","
                        ++ (decimal (entry nleds 1)
                            ++ (codes "],\"pressed\":["
                                ++ (bool_text (entry pressed 0)
                                    ++ (codes ","
                                        ++ (bool_text (entry pressed 1)
                                            ++ (codes "],\"ip\":\""
                                                ++ (ip ++ codes "\"}\n"))))))))))))
      n

unfoldable pub proto_fmt_ack : ℕ → List ℕ → Option (List ℕ)
proto_fmt_ack n cmd = finish (codes "{\"t\":\"ack\",\"cmd\":\"" ++ (cmd ++ codes "\"}\n")) n

unfoldable pub proto_fmt_err : ℕ → List ℕ → Option (List ℕ)
proto_fmt_err n msg = finish (codes "{\"t\":\"err\",\"msg\":\"" ++ (msg ++ codes "\"}\n")) n
