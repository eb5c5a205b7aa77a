-- ===== src/Net/Bridge.antt =====
-- firmware/src/net/net.c: the configuration of the CH9120 bridge over the UART. Every access to the
-- hardware is an action, and the state is the trace of them, the newest first.
pub mod Sent
pub mod Line
pub mod Status
use rp2040_eth_panel.Prelude.{
  ℕ, Bool, true, false, ◌&&◌, List, [], ◌∷◌, ◌++◌, length, get_or, take, drop, replicate, ◌==◌,
  bit_and, u8, ◌>>>◌, if◌then◌else◌,
}
use rp2040_eth_panel.Config.{
  NetConfig, ch9120_pin_tx, ch9120_pin_rx, ch9120_pin_cfg, ch9120_pin_rst, ch9120_pin_tcps,
  ch9120_cfg_baud, ch9120_data_baud,
}

-- The commands of the chip, and its acknowledgement.
abbrev pub cmd_save : ℕ
cmd_save = 0x0d

abbrev pub cmd_exec : ℕ
cmd_exec = 0x0e

abbrev pub cmd_mode : ℕ
cmd_mode = 0x10

abbrev pub cmd_local_ip : ℕ
cmd_local_ip = 0x11

abbrev pub cmd_subnet : ℕ
cmd_subnet = 0x12

abbrev pub cmd_gateway : ℕ
cmd_gateway = 0x13

abbrev pub cmd_local_port : ℕ
cmd_local_port = 0x14

abbrev pub cmd_baud : ℕ
cmd_baud = 0x21

abbrev pub cmd_dhcp : ℕ
cmd_dhcp = 0x33

abbrev pub cmd_read_ip : ℕ
cmd_read_ip = 0x61

abbrev pub cmd_read_mac : ℕ
cmd_read_mac = 0x81

abbrev pub ack_byte : ℕ
ack_byte = 0xAA

-- The calls of the Pico SDK, with the pins, levels, bytes, timeouts and delays given to them, and that
-- of the WS2812 driver with the PIO, the state machine, the offset, the pin, the rate and `rgbw`.
pub data Action : Type 0 where
  uart_init uart_set_baudrate : ℕ → Action
  gpio_set_function_uart gpio_init gpio_set_input gpio_set_output gpio_pull_up : ℕ → Action
  uart_set_format_8n1 uart_enable_fifo : Action
  gpio_put : ℕ → Bool → Action
  drain_rx : Action
  uart_write : List ℕ → Action
  uart_read : ℕ → ℕ → Action
  sleep_ms : ℕ → Action
  enable_rx_irq : Action
  pio_add_program : ℕ → Action
  ws2812_program_init : ℕ → ℕ → ℕ → ℕ → ℕ → Bool → Action

abbrev pub Trace : Type 0
Trace = List Action

-- `net_status_t`
pub record NetStatus : Type 0 where
  pub responding : Bool
  pub dhcp_mode : Bool
  pub ip : List ℕ
  pub mac : List ℕ
  pub port : ℕ

abbrev pub rx_flush : Trace → Trace
rx_flush t = drain_rx ∷ t

-- `CH9120_UART` with its pins, and the control pins up to the level of the reset pin.
abbrev pub set_up_uart : ℕ → Trace → Trace
set_up_uart baud t =
    uart_enable_fifo
    ∷ uart_set_format_8n1
    ∷ gpio_set_function_uart ch9120_pin_rx
    ∷ gpio_set_function_uart ch9120_pin_tx
    ∷ uart_init baud
    ∷ t

abbrev pub set_up_output : ℕ → Trace → Trace
set_up_output pin t = gpio_set_output pin ∷ gpio_init pin ∷ t

abbrev pub set_up_status_pin : Trace → Trace
set_up_status_pin t =
    gpio_pull_up ch9120_pin_tcps ∷ gpio_set_input ch9120_pin_tcps ∷ gpio_init ch9120_pin_tcps ∷ t

unfoldable pub enter_config : Trace → Trace
enter_config t =
    rx_flush (sleep_ms 200 ∷ gpio_put ch9120_pin_cfg false ∷ uart_set_baudrate ch9120_cfg_baud ∷ t)

unfoldable pub exit_config : Trace → Trace
exit_config t = sleep_ms 100 ∷ gpio_put ch9120_pin_cfg true ∷ t

-- The pins and the reset pulse.
unfoldable pub reset_chip : Trace → Trace
reset_chip t =
    let pins = set_up_status_pin (
      set_up_output ch9120_pin_rst (
        gpio_put ch9120_pin_cfg true
        ∷ set_up_output ch9120_pin_cfg (set_up_uart ch9120_cfg_baud t))) in
    sleep_ms 200 ∷ gpio_put ch9120_pin_rst true ∷ sleep_ms 50 ∷ gpio_put ch9120_pin_rst false ∷ pins

-- Whether `n` bytes came and the first one is `ACK`.
abbrev pub acked : List ℕ → Bool
acked bytes = length bytes == 1 && get_or bytes 0 0 == ack_byte

-- A frame without its first two bytes.
abbrev pub frame_of : ℕ → List ℕ → List ℕ
frame_of cmd payload = 0x57 ∷ 0xAB ∷ cmd ∷ payload

-- The bytes that become readable while a read waits, by the trace up to that read.
module _ (chip : Trace → List ℕ) where
  -- The bytes stored, `n` at most.
  unfoldable pub rx_bytes : ℕ → ℕ → Trace → List ℕ × Trace
  rx_bytes n timeout_ms t = (take n (chip (uart_read n timeout_ms ∷ t)), uart_read n timeout_ms ∷ t)

  unfoldable pub tx_cmd : ℕ → List ℕ → Trace → Bool × Trace
  unfolding rx_bytes
  tx_cmd cmd payload t =
      let (a, t') = rx_bytes 1 200 (uart_write (frame_of cmd payload) ∷ rx_flush t) in
      (acked a, sleep_ms 10 ∷ t')

  abbrev pub tx_u8 : ℕ → ℕ → Trace → Bool × Trace
  tx_u8 cmd v t = tx_cmd cmd (v ∷ []) t

  abbrev pub tx_u16 : ℕ → ℕ → Trace → Bool × Trace
  tx_u16 cmd v t = tx_cmd cmd (u8 (bit_and v 0xFF) ∷ u8 (v >>> 8) ∷ []) t

  abbrev pub tx_u32 : ℕ → ℕ → Trace → Bool × Trace
  tx_u32 cmd v t = tx_cmd cmd (u8 v ∷ u8 (v >>> 8) ∷ u8 (v >>> 16) ∷ u8 (v >>> 24) ∷ []) t

  -- What came overwrites the start of `dst`, also where it is fewer than `n` bytes.
  unfoldable pub rd_cmd : ℕ → List ℕ → ℕ → Trace → Bool × List ℕ × Trace
  unfolding rx_bytes
  rd_cmd cmd dst n t =
      let (bytes, t') = rx_bytes n 300 (uart_write (frame_of cmd []) ∷ rx_flush t) in
      (length bytes == n, bytes ++ drop (length bytes) dst, sleep_ms 10 ∷ t')

  -- Save, then execute and reset; the second answer is not looked at.
  unfoldable pub commit : Trace → Bool × Trace
  unfolding rx_bytes
  commit t =
      let (saved, t') = tx_cmd cmd_save [] t in
      let (a, t'') = rx_bytes 1 200 (uart_write (frame_of cmd_exec []) ∷ rx_flush t') in
      (saved, sleep_ms 300 ∷ t'')

  -- The addresses of a static build.
  unfoldable pub set_addresses : NetConfig → Trace → Trace
  set_addresses c t =
      let (_, t1) = tx_cmd cmd_local_ip c.net_local_ip t in
      let (_, t2) = tx_cmd cmd_subnet c.net_subnet t1 in
      let (_, t3) = tx_cmd cmd_gateway c.net_gateway t2 in t3

  -- From `enter_config` to the first `exit_config`, and whether the first command was acknowledged.
  unfoldable pub configure : NetConfig → Trace → Bool × Trace
  configure c t =
      let (alive, t1) = tx_u8 cmd_mode c.net_mode (enter_config t) in
      let (_, t2) = tx_u8 cmd_dhcp (if c.net_use_dhcp then 1 else 0) t1 in
      let (_, t3) = tx_u16 cmd_local_port c.net_local_port t2 in
      let t4 = if c.net_use_dhcp then t3 else set_addresses c t3 in
      let (_, t5) = tx_u32 cmd_baud ch9120_data_baud t4 in
      let (_, t6) = commit t5 in (alive, exit_config t6)

  -- The addresses read back, into the zeroed status.
  unfoldable pub read_back : Trace → List ℕ × List ℕ × Trace
  read_back t =
      let (_, mac, t1) = rd_cmd cmd_read_mac (replicate 6 0) 6 (enter_config t) in
      let (_, ip, t2) = rd_cmd cmd_read_ip (replicate 4 0) 4 t1 in (ip, mac, exit_config t2)

  -- The status and the trace; its `responding` is what the C function returns.
  unfoldable pub net_init : NetConfig → Trace → NetStatus × Trace
  net_init c t =
      let (alive, t1) = configure c (reset_chip t) in
      let t2 = if c.net_use_dhcp then sleep_ms 4000 ∷ t1 else t1 in
      let (ip, mac, t3) = read_back t2 in
      (
        record {
          responding = alive;
          dhcp_mode = c.net_use_dhcp;
          ip = ip;
          mac = mac;
          port = c.net_local_port;
        },
        enable_rx_irq ∷ rx_flush (uart_set_baudrate ch9120_data_baud ∷ t3),
      )

unfoldable pub net_attach_data_mode : Trace → Trace
net_attach_data_mode t =
    let cfg_high =
      gpio_put ch9120_pin_cfg true
      ∷ set_up_output ch9120_pin_cfg (set_up_uart ch9120_data_baud t) in
    enable_rx_irq
    ∷ rx_flush
        (set_up_status_pin (gpio_put ch9120_pin_rst true ∷ set_up_output ch9120_pin_rst cfg_high))

-- In data mode the bytes go to the peer as they are.
abbrev pub net_write : List ℕ → Trace → Trace
net_write buf t = uart_write buf ∷ t

-- A string is the list of the bytes in front of its zero.
abbrev pub net_write_str : List ℕ → Trace → Trace
net_write_str s t = uart_write s ∷ t
