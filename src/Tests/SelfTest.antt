-- ===== src/Tests/SelfTest.antt =====
-- The self-test on concrete inputs.
use rp2040_eth_panel.Prelude.{
  ℕ, ◌+◌, ◌*◌, ◌%◌, ◌^◌, ◌≡◌, refl, true, false, not, List, [], Two, both, replicate, arith,
}
use rp2040_eth_panel.Rings.{Rings, rings_pixel_word, pixel_of, rings_scale}
use rp2040_eth_panel.Rings.Flush.{IsShown, show}
use rp2040_eth_panel.App.SelfTest.{test_start, test_pass}
use rp2040_eth_panel.App.SelfTest.Colours.{solid, IsTesting, test_pass-IsTesting}

abbrev dark_rings : Rings
dark_rings = record {
  st = both (record { r = 0; g = 0; b = 0; brightness = 255 });
  nleds = both 16;
  dirty = both false;
}

abbrev dark_chains : Two (List ℕ)
dark_chains = both (replicate 16 0)

dark_shown : IsShown dark_chains dark_rings
unfolding rings_pixel_word pixel_of rings_scale
dark_shown = record { first_shown = λ e. refl; second_shown = λ e. refl }

dark_chains-IsTesting : IsTesting dark_chains (test_start dark_rings)
dark_chains-IsTesting = record {
  in_cols = omega arith;
  leds_fit = (omega arith, omega arith);
  shows = dark_shown;
  clean = (refl, refl);
}

test_pass-IsTesting_example :
    let (s', frames) = test_pass true (both true) (test_start dark_rings) in
    let shown' = show dark_chains frames in
    IsTesting shown' s'
    × (true ≡ true
        → (shown'.first ≡ solid 0 16)
          × (shown'.second ≡ solid 0 16)
          × (s'.i ≡ (0 + 1) % 3)
          × (s'.wait ≡ 1000 * 2 ^ 0))
    × (true ≡ false → (frames ≡ []) × (s'.i ≡ 0))
    × (s'.lamp ≡ not true)
test_pass-IsTesting_example =
    test_pass-IsTesting dark_chains true (both true) (test_start dark_rings) dark_chains-IsTesting
