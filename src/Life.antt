-- ===== src/Life.antt =====
-- The bootloader and the application over power cycles: firmware/bootloader/main.c decides, and the
-- start of firmware/src/main.c confirms the image if the bridge answers.
pub mod Fate
pub mod Reset
pub mod Update
use rp2040_eth_panel.Prelude.{ℕ, Bool, true, false, List, [], ◌∷◌, Two, if◌then◌else◌}
use rp2040_eth_panel.Config.{NetConfig}
use rp2040_eth_panel.Net.Bridge.{Trace, net_init}
use rp2040_eth_panel.Ota.Flash.{Flash, FlashDriver}
use rp2040_eth_panel.Ota.Boot.{decide_boot_app}
use rp2040_eth_panel.App.Start.{start_up}

-- What the hardware does in one power cycle: the bridge, the button pins and the time at the start.
pub record PowerUp : Type 1 where
  pub chip : Trace → List ℕ
  pub levels : Two Bool
  pub now_ms : ℕ

module _ (driver : FlashDriver) (config : NetConfig) where
  -- Whether the bridge acknowledges its first command.
  abbrev pub responds : PowerUp → Bool
  responds u = (net_init u.chip config []).0.responding

  -- Whether the application was started, and the flash afterwards.
  unfoldable pub power_up : PowerUp → Flash → Bool × Flash
  power_up u f =
      let (started, f') = decide_boot_app driver 0 f in
      (
        started,
        (if started then (start_up driver u.chip config u.levels u.now_ms f').flash else f'),
      )

  unfoldable pub power_ups : List PowerUp → Flash → List Bool × Flash
  power_ups [] f = ([], f)
  power_ups (u ∷ us) f =
      let (started, f') = power_up u f in let (rest, f'') = power_ups us f' in (started ∷ rest, f'')
