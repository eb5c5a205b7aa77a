-- ===== src/Net/Bridge/Sent.antt =====
-- What firmware/src/net/net.c sends to the CH9120, and the state in which it leaves the line.
use rp2040_eth_panel.Prelude.{
  ℕ, ◌/◌, ◌%◌, ◌≡◌, refl, sym, ap, ◌∙◌, Bool, true, false, List, [], ◌∷◌, ◌++◌, replicate, u8,
  ◌>>>◌, bit_and, if◌then◌else◌, arith, append_assoc, append-nil,
}
use rp2040_eth_panel.Prelude.Bits.{bit_and_mask}
use rp2040_eth_panel.Config.{NetConfig, ch9120_pin_cfg, ch9120_pin_rst, ch9120_data_baud}
use rp2040_eth_panel.Net.Bridge.{
  sleep_ms, Trace, frame_of, tx_cmd, tx_u8, tx_u16, tx_u32, rd_cmd, commit, enter_config,
  exit_config, reset_chip, set_addresses, configure, read_back, net_init, net_attach_data_mode,
  rx_bytes,
}
use rp2040_eth_panel.Net.Bridge.Line.{
  level_of, frames_of, InConfigMode, InDataMode, SentInConfigMode,
}

-- An operation in configuration mode that writes `fs`.
abbrev Sends : List (List ℕ) → Trace → Trace → Type 0
Sends fs t t' =
    (InConfigMode t × SentInConfigMode t → InConfigMode t' × SentInConfigMode t')
    × (frames_of t' ≡ frames_of t ++ fs)

Sends-trans :
    (fs gs : List (List ℕ)) (t t' t'' : Trace)
    → Sends fs t t'
    → Sends gs t' t''
    → Sends (fs ++ gs) t t''
Sends-trans fs gs t t' t'' (k, e) (k', e') =
    (λ h. k' (k h), e' ∙ ap (λ l. l ++ gs) e ∙ append_assoc (frames_of t) fs gs)

module _ (chip : Trace → List ℕ) where
  tx_cmd-Sends :
      (cmd : ℕ) (payload : List ℕ) (t : Trace)
      → Sends (frame_of cmd payload ∷ []) t (tx_cmd chip cmd payload t).1
  unfolding tx_cmd rx_bytes
  tx_cmd-Sends cmd payload t = (λ h. (h.0, (h.0, h.1)), refl)

  rd_cmd-Sends :
      (cmd : ℕ) (dst : List ℕ) (n : ℕ) (t : Trace)
      → Sends (frame_of cmd [] ∷ []) t (rd_cmd chip cmd dst n t).2
  unfolding rd_cmd rx_bytes
  rd_cmd-Sends cmd dst n t = (λ h. (h.0, (h.0, h.1)), refl)

  commit-Sends : (t : Trace) → Sends (frame_of 0x0d [] ∷ frame_of 0x0e [] ∷ []) t (commit chip t).1
  unfolding commit rx_bytes
  commit-Sends t =
      let t' = (tx_cmd chip 0x0d [] t).1 in
      let (k, e) = tx_cmd-Sends 0x0d [] t in
      (
        λ h. let h' = k h in (h'.0, h'),
        ap (λ l. l ++ (frame_of 0x0e [] ∷ [])) e
            ∙ append_assoc (frames_of t) (frame_of 0x0d [] ∷ []) (frame_of 0x0e [] ∷ []),
      )

  set_addresses-Sends :
      (c : NetConfig) (t : Trace)
      → Sends
          (frame_of 0x11 c.net_local_ip
            ∷ frame_of 0x12 c.net_subnet
            ∷ frame_of 0x13 c.net_gateway
            ∷ [])
          t
          (set_addresses chip c t)
  unfolding set_addresses
  set_addresses-Sends c t =
      let t1 = (tx_cmd chip 0x11 c.net_local_ip t).1 in
      let t2 = (tx_cmd chip 0x12 c.net_subnet t1).1 in
      let t3 = (tx_cmd chip 0x13 c.net_gateway t2).1 in
      Sends-trans (frame_of 0x11 c.net_local_ip ∷ [])
        (frame_of 0x12 c.net_subnet ∷ frame_of 0x13 c.net_gateway ∷ []) t t1 t3
        (tx_cmd-Sends 0x11 c.net_local_ip t)
        (Sends-trans (frame_of 0x12 c.net_subnet ∷ []) (frame_of 0x13 c.net_gateway ∷ []) t1 t2 t3
          (tx_cmd-Sends 0x12 c.net_subnet t1) (tx_cmd-Sends 0x13 c.net_gateway t2))

-- The commands of a static build.
abbrev pub static_frames : NetConfig → List (List ℕ)
static_frames c =
    (0x57 ∷ 0xAB ∷ 0x11 ∷ c.net_local_ip)
    ∷ (0x57 ∷ 0xAB ∷ 0x12 ∷ c.net_subnet)
    ∷ (0x57 ∷ 0xAB ∷ 0x13 ∷ c.net_gateway)
    ∷ []

abbrev pub address_frames : NetConfig → List (List ℕ)
address_frames c = if c.net_use_dhcp then [] else static_frames c

-- Mode, address mode and port; the addresses of a static build; the data rate, save and execute.
-- Numbers are sent low byte first.
abbrev pub config_frames : NetConfig → List (List ℕ)
config_frames c =
    (0x57 ∷ 0xAB ∷ 0x10 ∷ c.net_mode ∷ [])
    ∷ (0x57 ∷ 0xAB ∷ 0x33 ∷ (if c.net_use_dhcp then 1 else 0) ∷ [])
    ∷ (0x57 ∷ 0xAB ∷ 0x14 ∷ c.net_local_port % 256 ∷ c.net_local_port / 256 % 256 ∷ [])
    ∷ (address_frames c
        ++ ((0x57 ∷ 0xAB ∷ 0x21 ∷ 0x00 ∷ 0xC2 ∷ 0x01 ∷ 0x00 ∷ [])
            ∷ (0x57 ∷ 0xAB ∷ 0x0D ∷ [])
            ∷ (0x57 ∷ 0xAB ∷ 0x0E ∷ [])
            ∷ []))

-- The requests for the hardware address and the address.
abbrev pub read_frames : List (List ℕ)
read_frames = (0x57 ∷ 0xAB ∷ 0x81 ∷ []) ∷ (0x57 ∷ 0xAB ∷ 0x61 ∷ []) ∷ []

-- The trace through a configuration session, which ends with CFG high.
abbrev InSession : List (List ℕ) → Trace → Trace → Type 0
InSession fs t t' =
    (frames_of t' ≡ frames_of t ++ fs)
    × (level_of ch9120_pin_rst t ≡ true
        → SentInConfigMode t
        → (level_of ch9120_pin_rst t' ≡ true)
          × (level_of ch9120_pin_cfg t' ≡ true)
          × SentInConfigMode t')

-- A session from its commands.
session :
    (fs : List (List ℕ)) (t t' : Trace)
    → Sends fs (enter_config t) t'
    → InSession fs t (exit_config t')
unfolding enter_config exit_config
session fs t t' (k, e) =
    (e, λ up sent. let ((_, _, up'), sent') = k ((refl, refl, up), sent) in (up', refl, sent'))

module _ (chip : Trace → List ℕ) where
  addresses-Sends :
      (c : NetConfig) (t : Trace) (dhcp : Bool)
      → Sends (if dhcp then [] else static_frames c) t (if dhcp then t else set_addresses chip c t)
  addresses-Sends c t true = (λ h. h, sym (append-nil (frames_of t)))
  addresses-Sends c t false = set_addresses-Sends chip c t

  tx_u16-Sends :
      (cmd v : ℕ) (t : Trace)
      → Sends ((0x57 ∷ 0xAB ∷ cmd ∷ v % 256 ∷ v / 256 % 256 ∷ []) ∷ []) t (tx_u16 chip cmd v t).1
  tx_u16-Sends cmd v t =
      let low : u8 (bit_and v 0xFF) ≡ v % 256 = omega (arith, bit_and_mask 8 v) in
      rw (← low) (tx_cmd-Sends chip cmd (u8 (bit_and v 0xFF) ∷ u8 (v >>> 8) ∷ []) t)

  configure-InSession :
      (c : NetConfig) (t : Trace) → InSession (config_frames c) t (configure chip c t).1
  unfolding configure
  configure-InSession c t =
      let t0 = enter_config t in
      let t1 = (tx_u8 chip 0x10 c.net_mode t0).1 in
      let dhcp : ℕ = if c.net_use_dhcp then 1 else 0 in
      let t2 = (tx_u8 chip 0x33 dhcp t1).1 in
      let t3 = (tx_u16 chip 0x14 c.net_local_port t2).1 in
      let t4 = if c.net_use_dhcp then t3 else set_addresses chip c t3 in
      let t5 = (tx_u32 chip 0x21 ch9120_data_baud t4).1 in
      let t6 = (commit chip t5).1 in
      let baud : List ℕ = 0x57 ∷ 0xAB ∷ 0x21 ∷ 0x00 ∷ 0xC2 ∷ 0x01 ∷ 0x00 ∷ [] in
      let save = (0x57 ∷ 0xAB ∷ 0x0D ∷ []) ∷ (0x57 ∷ 0xAB ∷ 0x0E ∷ []) ∷ [] in
      let port =
        (0x57 ∷ 0xAB ∷ 0x14 ∷ c.net_local_port % 256 ∷ c.net_local_port / 256 % 256 ∷ []) in
      session (config_frames c) t t6 (
        Sends-trans (frame_of 0x10 (c.net_mode ∷ []) ∷ []) _ t0 t1 t6
          (tx_cmd-Sends chip 0x10 (c.net_mode ∷ []) t0)
          (Sends-trans (frame_of 0x33 (dhcp ∷ []) ∷ []) _ t1 t2 t6
            (tx_cmd-Sends chip 0x33 (dhcp ∷ []) t1)
            (Sends-trans (port ∷ []) _ t2 t3 t6 (tx_u16-Sends 0x14 c.net_local_port t2) (
              Sends-trans (address_frames c) (baud ∷ save) t3 t4 t6
                (addresses-Sends c t3 c.net_use_dhcp)
                (Sends-trans (baud ∷ []) save t4 t5 t6
                  (tx_cmd-Sends chip 0x21 (0x00 ∷ 0xC2 ∷ 0x01 ∷ 0x00 ∷ []) t4)
                  (commit-Sends chip t5))))))

  read_back-InSession : (t : Trace) → InSession read_frames t (read_back chip t).2
  unfolding read_back
  read_back-InSession t =
      let t0 = enter_config t in
      let t1 = (rd_cmd chip 0x81 (replicate 6 0) 6 t0).2 in
      let t2 = (rd_cmd chip 0x61 (replicate 4 0) 4 t1).2 in
      session read_frames t t2 (
        Sends-trans (frame_of 0x81 [] ∷ []) (frame_of 0x61 [] ∷ []) t0 t1 t2
          (rd_cmd-Sends chip 0x81 (replicate 6 0) 6 t0)
          (rd_cmd-Sends chip 0x61 (replicate 4 0) 4 t1))

-- The wait for a lease touches no pin.
lease_wait :
    (fs : List (List ℕ)) (dhcp : Bool) (t0 t : Trace)
    → InSession fs t0 t
    → InSession fs t0 (if dhcp then sleep_ms 4000 ∷ t else t)
lease_wait fs true t0 t s = s
lease_wait fs false t0 t s = s

-- Whatever the CH9120 answers, and also if it is silent: `net_init` writes the configuration commands
-- and then the two requests, each once and in this order, each while CFG is low, the chip is not in
-- reset and the rate is 9600 baud; and it leaves the line as a transparent pipe, with CFG high and
-- the rate 115200 baud.
pub net_init-sends :
    (chip : Trace → List ℕ) (c : NetConfig) (t : Trace)
    → SentInConfigMode t
    → let t' = (net_init chip c t).1 in
      (frames_of t' ≡ frames_of t ++ (config_frames c ++ read_frames))
      × SentInConfigMode t'
      × InDataMode t'
unfolding net_init reset_chip
net_init-sends chip c t sent =
    let t0 = reset_chip t in
    let t1 = (configure chip c t0).1 in
    let t2 = if c.net_use_dhcp then sleep_ms 4000 ∷ t1 else t1 in
    let (e, keep) =
      lease_wait (config_frames c) c.net_use_dhcp t0 t1 (configure-InSession chip c t0) in
    let (e', keep') = read_back-InSession chip t2 in
    let (up, _, sent1) = keep refl sent in
    let (up', high, sent2) = keep' up sent1 in
    (
      e' ∙ ap (λ l. l ++ read_frames) e ∙ append_assoc (frames_of t) (config_frames c) read_frames,
      sent2,
      (refl, high, up'),
    )

-- The attachment of the recovery receiver brings the line into the same state as `net_init`, and
-- writes nothing to the chip.
pub net_attach_data_mode_lem :
    (t : Trace)
    → (frames_of (net_attach_data_mode t) ≡ frames_of t) × InDataMode (net_attach_data_mode t)
unfolding net_attach_data_mode
net_attach_data_mode_lem t = (refl, (refl, refl, refl))
