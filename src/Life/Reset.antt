-- ===== src/Life/Reset.antt =====
-- One reset of the board: `main` of firmware/bootloader/main.c, and `recovery_run` of
-- firmware/bootloader/recovery.c where it is called.
use rp2040_eth_panel.Prelude.{ℕ, Bool, false, List, []}
use rp2040_eth_panel.Net.Bridge.{Trace}
use rp2040_eth_panel.Ota.Flash.{Flash, FlashDriver}
use rp2040_eth_panel.Ota.Boot.Main.{ResetBits, Handoff, application, recovery, bootloader_main}
use rp2040_eth_panel.Ota.Recovery.{recovery_start, recovery_run}
use rp2040_eth_panel.Ota.Reader.{Input}

-- What the bootloader did: its decision, SCRATCH0 and the flash; and of recovery the calls on the
-- network chip, the bytes sent, the input left, the words to the LED, and whether it rebooted.
pub record BootRun : Type 0 where
  pub handoff : Handoff
  pub scratch : ℕ
  pub flash : Flash
  pub calls : Trace
  pub sent : List ℕ
  pub rest : Input
  pub leds : List ℕ
  pub rebooted : Bool

-- Behind the decision, with some rounds of the receiver's loop.
abbrev pub enter : FlashDriver → ℕ → Input → Handoff → ℕ → Flash → BootRun
enter driver rounds inp (application actions) scratch f = record {
  handoff = application actions;
  scratch = scratch;
  flash = f;
  calls = [];
  sent = [];
  rest = inp;
  leds = [];
  rebooted = false;
}
enter driver rounds inp recovery scratch f =
    let (calls, start) = recovery_start [] f in
    let (s, sent, rest) = recovery_run driver rounds start inp in
    record {
      handoff = recovery;
      scratch = scratch;
      flash = s.flash;
      calls = calls;
      sent = sent;
      rest = rest;
      leds = s.leds;
      rebooted = s.rebooted;
    }

unfoldable pub reset : FlashDriver → ResetBits → ℕ → ℕ → Flash → Input → BootRun
reset driver bits rounds scratch f inp =
    let (handoff, scratch', f') = bootloader_main driver bits scratch f in
    enter driver rounds inp handoff scratch' f'
