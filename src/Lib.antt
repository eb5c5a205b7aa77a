-- ===== src/Lib.antt =====
-- rp2040-eth-panel: the firmware of a panel with two buttons, a lamp and two LED rings behind a
-- CH9120 Ethernet bridge, and the bootloader that updates it over the network.
--
-- The program has two images. The bootloader (firmware/bootloader) decides at every reset whether to
-- start the application or to receive a new one; both share the boot record, which is kept in two
-- flash sectors. The application (firmware/src) debounces the buttons, keeps the colours of the rings
-- and pushes them out, assembles command lines from the bytes of the network and answers them, and
-- confirms itself to the bootloader.
--
-- Files, and the code that they model:
--   Crc32          firmware/src/ota/crc32.c: `ota_crc32`; Remainder and Detect hold its two laws
--   Ota/Layout     firmware/src/ota/layout.h: the partition map and `boot_state_t`
--   Ota/Flash      the flash; erase and program of the Pico SDK are a record of two functions and
--                  their documented laws, `FlashDriver`
--   Ota/BootState  firmware/src/ota/boot_state.c: `boot_state_read`, `boot_state_write`
--   Ota/Boot       firmware/bootloader/main.c: `decide_boot_app`, and in Boot/Main
--                  `jump_to_app` and `main`; firmware/src/ota/ota_app.c:
--                  `ota_confirm`, `ota_request_update`
--   Ota/Reader     firmware/bootloader/recovery.c: `read_exact`, `read_command` and `read_u32`
--   Ota/Recovery   the same file: the receiver, one function for each command, and
--                  the loop as a number of rounds; Push puts a whole update together,
--                  Push/Retry adds chunks that are damaged or break off and are sent
--                  again, Push/Restart sessions that are cut and begun again, and Push/Go the
--                  reboot; Enough and Guard are about every input, Polls has
--                  the two waiting loops round by round, with the clock
--   Buttons        firmware/src/buttons/buttons.{h,c}
--   Rings          firmware/src/rings/rings.{h,c}; Rings/Flush is `rings_flush` of firmware/src/main.c
--                  with `rings_hw_push` of firmware/src/rings/rings_hw.c
--   StatusLed      firmware/src/status_led/status_led.c: the address flashed digit by digit
--   Config         firmware/src/config.h: pins, rates and the selected network settings
--   Net            firmware/src/net/net.c: the receive ring of the UART interrupt; Net/Interleave has
--                  the interrupt between the accesses of the main loop, and Net/Queue the ring as a
--                  queue, in Queue/Abstract as a quotient; Net/Bridge is `net_init` and
--                  `net_attach_data_mode`
--   AppTest        firmware/apptest/main.c: the blink program that tries the hand-over
--   Board          the set-up of the pins: `status_led_init`, `buttons_hw_init`, `rings_hw_init` of
--                  firmware/src/status_led, buttons and rings, and `net_init`
--   Protocol       firmware/src/protocol/protocol.{h,c}: extraction of fields, `proto_parse`, and the
--                  lines that are sent (Protocol/Format)
--   App            firmware/src/main.c: the assembly of lines; App/Dispatch is `dispatch`, App/Start
--                  the code in front of the loop and App/Loop a pass of the loop, App/SelfTest a
--                  pass of the self-test build; Buttons/Pins has
--                  the reads of firmware/src/buttons/buttons_hw.c
--   Life           the decision of the bootloader and the start of the application, over power cycles;
--                  Life/Reset is one reset with its recovery session, and Life/Update goes from the
--                  request of an update to the start of the new image
--   Prelude        shared names, Boolean tests, lists, words, signed integers and bit operations
--   Tests          concrete runs, with a flash driver in memory
--
-- State is passed explicitly: a C struct is a record, and a function that changes it returns the new
-- one. Integers are natural numbers with the wrap-around written out (`add32`, `sub32`, `u8`). The
-- flash is a function from offsets to bytes. What arrives from the network is a list of bytes and
-- silences, where a silence outlasts the timeout in force. A C string is the list of its bytes.
--
-- Bounds: a number is printed with at most ten digits, which hold every 32-bit value; `net_read`
-- runs on the `max` of its caller; the receiver's loop runs for a given number of rounds, one for
-- each frame that is sent, whole or not, being enough for an update, and as many as there are inputs
-- being enough for anything that arrives; the waiting loops run on the
-- rounds given, and for one of them the time is stated that is enough. All other loops are recursions
-- on their data.
--
-- The CH9120 is a parameter: a function from the trace of the calls so far to the bytes that become
-- readable during a read, so every bridge is covered, a silent or a faulty one included. The levels of
-- the pins, the clock, the times at which bytes arrive and those that stay in the hardware FIFO
-- across a flush are arguments of a pass.
--
-- Not modelled: log messages, delays that only wait, the bits of the Pico SDK that reset a peripheral (a
-- parameter), the WS2812 driver (firmware/src/status_led/ws2812.pio, a copy from the Pico examples),
-- and the programs of the host.
pub mod Prelude
pub mod Config
pub mod Board
pub mod AppTest
pub mod Crc32
pub mod Buttons
pub mod Rings
pub mod StatusLed
pub mod Net
pub mod Protocol
pub mod App
pub mod Ota
pub mod Life
pub mod Tests
