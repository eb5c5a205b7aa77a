-- ===== src/Net/Bridge/Status.antt =====
-- What `net_init` of firmware/src/net/net.c reports of the answers of the CH9120.
use rp2040_eth_panel.Prelude.{
  ℕ, suc, zero, ◌≤◌, ◌≡◌, refl, sym, ap, ◌∙◌, Bool, List, [], ◌∷◌, ◌++◌, length, take, drop,
  replicate, get_or, ◌==◌, if◌then◌else◌, arith,
}
use rp2040_eth_panel.Config.{NetConfig}
use rp2040_eth_panel.Net.Bridge.{
  Trace, uart_write, uart_read, frame_of, acked, tx_cmd, rd_cmd, rx_bytes, configure, reset_chip,
  read_back, net_init, enter_config, sleep_ms,
}

-- The chip answers a frame with these bytes, as far as the read lasts.
abbrev pub Answers : (Trace → List ℕ) → List ℕ → List ℕ → Type 0
Answers chip frame reply =
    (n timeout_ms : ℕ) (t : Trace) → chip (uart_read n timeout_ms ∷ uart_write frame ∷ t) ≡ reply

-- A reply in a field of `n` zeroed bytes.
abbrev pub padded_to : ℕ → List ℕ → List ℕ
padded_to n reply = take n (reply ++ replicate n 0)

take-replicate : (n : ℕ) → take n (replicate {A = ℕ} n 0) ≡ replicate n 0
take-replicate zero = refl
take-replicate (suc n) = ap (λ l. 0 ∷ l) (take-replicate n)

-- One more zero behind `n` of them is not read.
take_more_zeros :
    (n m : ℕ) (reply : List ℕ)
    → n ≤ m
    → take n (reply ++ replicate m 0) ≡ take n (reply ++ replicate (suc m) 0)
take_more_zeros zero m reply h = refl
take_more_zeros (suc n) zero [] h = absurd (omega arith)
take_more_zeros (suc n) (suc m) [] h = ap (λ l. 0 ∷ l) (take_more_zeros n m [] (omega arith))
take_more_zeros (suc n) m (a ∷ reply) h = ap (λ l. a ∷ l) (take_more_zeros n m reply (omega arith))

-- Bytes over zeros.
overlay :
    (n : ℕ) (reply : List ℕ)
    → take n reply ++ drop (length (take n reply)) (replicate n 0) ≡ padded_to n reply
overlay zero reply = refl
overlay (suc n) [] = ap (λ l. 0 ∷ l) (sym (take-replicate n))
overlay (suc n) (a ∷ reply) =
    ap (λ l. a ∷ l) (overlay n reply ∙ take_more_zeros n n reply (omega arith))

-- The first byte is an acknowledgement.
abbrev pub starts_acked : List ℕ → Bool
starts_acked reply = get_or reply 0 0 == 0xAA

acked-take : (reply : List ℕ) → acked (take 1 reply) ≡ starts_acked reply
acked-take [] = refl
acked-take (a ∷ reply) = refl

module _ (chip : Trace → List ℕ) where
  tx_cmd-acked :
      (cmd : ℕ) (payload reply : List ℕ) (t : Trace)
      → Answers chip (frame_of cmd payload) reply
      → (tx_cmd chip cmd payload t).0 ≡ starts_acked reply
  unfolding tx_cmd rx_bytes
  tx_cmd-acked cmd payload reply t h = ap (λ l. acked (take 1 l)) (h 1 200 _) ∙ acked-take reply

  rd_cmd-stored :
      (cmd n : ℕ) (reply : List ℕ) (t : Trace)
      → Answers chip (frame_of cmd []) reply
      → (rd_cmd chip cmd (replicate n 0) n t).1 ≡ padded_to n reply
  unfolding rd_cmd rx_bytes
  rd_cmd-stored cmd n reply t h =
      ap (λ l. take n l ++ drop (length (take n l)) (replicate n 0)) (h n 300 _) ∙ overlay n reply

-- For every chip that answers the mode command and the two requests alike whenever they come, be it
-- with too few bytes or none: the chip counts as responding exactly if the answer to the mode
-- command starts with 0xAA, and the address and the hardware address are the first 4 and 6 bytes of
-- the answers, with zeros for what is missing. The mode and port are the configured ones.
pub net_init-reports :
    (chip : Trace → List ℕ) (c : NetConfig) (t : Trace) (reply mac ip : List ℕ)
    → Answers chip (0x57 ∷ 0xAB ∷ 0x10 ∷ c.net_mode ∷ []) reply
    → Answers chip (0x57 ∷ 0xAB ∷ 0x81 ∷ []) mac
    → Answers chip (0x57 ∷ 0xAB ∷ 0x61 ∷ []) ip
    → (net_init chip c t).0 ≡ record {
      responding = starts_acked reply;
      dhcp_mode = c.net_use_dhcp;
      ip = padded_to 4 ip;
      mac = padded_to 6 mac;
      port = c.net_local_port;
    }
unfolding net_init configure read_back
net_init-reports chip c t reply mac ip alive hw addr =
    let t0 = enter_config (reset_chip t) in
    let t1 = (configure chip c (reset_chip t)).1 in
    let t2 = enter_config (if c.net_use_dhcp then sleep_ms 4000 ∷ t1 else t1) in
    let t3 = (rd_cmd chip 0x81 (replicate 6 0) 6 t2).2 in
    λ i. record {
      responding = tx_cmd-acked chip 0x10 (c.net_mode ∷ []) reply t0 alive i;
      dhcp_mode = c.net_use_dhcp;
      ip = rd_cmd-stored chip 0x61 4 ip t3 addr i;
      mac = rd_cmd-stored chip 0x81 6 mac t2 hw i;
      port = c.net_local_port;
    }
