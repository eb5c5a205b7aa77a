-- ===== src/App/SelfTest/Colours.antt =====
-- What the self-test of firmware/src/main.c shows.
use rp2040_eth_panel.Prelude.{
  ℕ, zero, suc, ◌+◌, ◌%◌, ◌≤◌, ◌<◌, ◌≡◌, refl, sym, ap, ap₂, ◌∙◌, Bool, true, false, not, List, [],
  ◌∷◌, Two, entry, get_or, map, replicate, u32, ◌<<<◌, ◌*◌, ◌^◌, arith,
}
use rp2040_eth_panel.Rings.{
  Rings, RingState, grb, rings_set, in_range, store_state, rings_pixel_word, pixel_of, rings_scale,
}
use rp2040_eth_panel.Rings.Set.{store_state_frame}
use rp2040_eth_panel.Rings.Flush.{
  ring_max_leds, put_words, rings_flush, show, frame_words, IsShown, rings_flush-shows,
  rings_set-IsShown,
}
use rp2040_eth_panel.App.SelfTest.{SelfTest, cols, dwell, set_both, test_pass}

-- A chain of `n` pixels in red, green or blue, as words for the driver: green, red, blue and eight
-- bits that are not sent.
abbrev pub solid : ℕ → ℕ → List ℕ
solid i n = replicate n (get_or (0x00FF0000 ∷ 0xFF000000 ∷ 0x0000FF00 ∷ []) i 0)

-- Both rings are clean and show what is commanded.
pub record IsTesting (shown : Two (List ℕ)) (s : SelfTest) : Type 0 where
  pub in_cols : s.i < 3
  pub leds_fit : (s.rings.nleds.first ≤ ring_max_leds) × (s.rings.nleds.second ≤ ring_max_leds)
  pub shows : IsShown shown s.rings
  pub clean : (s.rings.dirty.first ≡ false) × (s.rings.dirty.second ≡ false)

abbrev full : ℕ → ℕ → ℕ → RingState
full r g b = record { r = r; g = g; b = b; brightness = 255 }

abbrev colour : ℕ → RingState
colour i = let c = get_or cols i [] in full (get_or c 0 0) (get_or c 1 0) (get_or c 2 0)

set_both-stores :
    (i : ℕ) (rs : Rings)
    → i < 3
    → set_both i rs ≡ store_state (store_state rs 0 (colour i)) 1 (colour i)
unfolding set_both rings_set in_range
set_both-stores zero rs h = refl
set_both-stores (suc zero) rs h = refl
set_both-stores (suc (suc zero)) rs h = refl
set_both-stores (suc (suc (suc i))) rs h = absurd (omega arith)

set_both-IsShown :
    (shown : Two (List ℕ)) (i : ℕ) (rs : Rings) → IsShown shown rs → IsShown shown (set_both i rs)
unfolding set_both
set_both-IsShown shown i rs h =
    rings_set-IsShown shown _ _ _ _ _ _ (rings_set-IsShown shown _ _ _ _ _ _ h)

-- Both rings then have the colour.
set_both_lem :
    (i : ℕ) (rs : Rings)
    → i < 3
    → let rs' = set_both i rs in
      (rs'.st.first ≡ colour i) × (rs'.st.second ≡ colour i) × (rs'.nleds ≡ rs.nleds)
set_both_lem i rs h =
    let rs1 = store_state rs 0 (colour i) in
    let (here, leds, marks, rest) = store_state_frame rs 0 (colour i) (omega arith) in
    let (here', leds', marks', rest') = store_state_frame rs1 1 (colour i) (omega arith) in
    rw (set_both-stores i rs h)
      ((rest' 0 (omega arith) (omega arith)).0 ∙ here, here', leds' ∙ leds)

words_of_pixels : (f : ℕ → ℕ) (n a : ℕ) → map f (replicate n a) ≡ replicate n (f a)
words_of_pixels f zero a = refl
words_of_pixels f (suc n) a = ap (λ l. f a ∷ l) (words_of_pixels f n a)

wire_word : (i : ℕ) → i < 3 → replicate 1 (u32 (pixel_of grb (colour i) <<< 8)) ≡ solid i 1
unfolding pixel_of rings_scale
wire_word zero h = refl
wire_word (suc zero) h = refl
wire_word (suc (suc zero)) h = refl
wire_word (suc (suc (suc i))) h = absurd (omega arith)

frame_words-solid :
    (i : ℕ) (rs : Rings) (k : ℕ)
    → i < 3
    → entry rs.st k ≡ colour i
    → frame_words rs k ≡ solid i (entry rs.nleds k)
unfolding rings_pixel_word
frame_words-solid i rs k h e =
    let n = entry rs.nleds k in
    words_of_pixels (λ w. u32 (w <<< 8)) n (rings_pixel_word rs k grb)
    ∙ ap (λ (c : RingState). replicate n (u32 (pixel_of grb c <<< 8))) e
    ∙ ap (λ l. replicate n (get_or l 0 0)) (wire_word i h)

frame_words_congr :
    (rs rs' : Rings) (k : ℕ)
    → rs'.st ≡ rs.st
    → rs'.nleds ≡ rs.nleds
    → frame_words rs k ≡ frame_words rs' k
unfolding rings_pixel_word
frame_words_congr rs rs' k d e = sym (
    ap₂
      (λ (st : Two RingState) (n : Two ℕ).
        put_words (replicate (entry n k) (pixel_of grb (entry st k))))
      d e)

-- What a flush leaves.
flushed :
    (shown : Two (List ℕ)) (rs : Rings)
    → IsShown shown rs
    → (rs.nleds.first ≤ ring_max_leds) × (rs.nleds.second ≤ ring_max_leds)
    → let (rs', frames) = rings_flush rs in
      ((rs'.nleds.first ≤ ring_max_leds) × (rs'.nleds.second ≤ ring_max_leds))
      × IsShown (show shown frames) rs'
      × ((rs'.dirty.first ≡ false) × (rs'.dirty.second ≡ false))
flushed shown rs h (p, q) =
    let (clean, clean', st, leds, first, second, none_sent) = rings_flush-shows shown rs h p q in
    let rs' = (rings_flush rs).0 in
    (
      rw leds (p, q),
      record {
        first_shown = λ e. first ∙ frame_words_congr rs rs' 0 st leds;
        second_shown = λ e. second ∙ frame_words_congr rs rs' 1 st leds;
      },
      (clean, clean'),
    )

dwell_doubles : (i : ℕ) → i < 3 → get_or dwell i 0 ≡ 1000 * 2 ^ i
dwell_doubles zero h = refl
dwell_doubles (suc zero) h = refl
dwell_doubles (suc (suc zero)) h = refl
dwell_doubles (suc (suc (suc i))) h = absurd (omega arith)

-- A pass of the self-test. Whenever its deadline has passed, every pixel of both rings shows the next
-- colour of red, green and blue, at full brightness, and the colour is kept for one, two and four
-- seconds; otherwise the rings are sent nothing. The lamp is on while button 1 is pressed. It wants
-- chains of at most 16 pixels that are clean and show what is commanded, and leaves them so.
pub test_pass-IsTesting :
    (shown : Two (List ℕ)) (due : Bool) (levels : Two Bool) (s : SelfTest)
    → IsTesting shown s
    → let (s', frames) = test_pass due levels s in
      let shown' = show shown frames in
      IsTesting shown' s'
      × (due ≡ true
          → (shown'.first ≡ solid s.i s.rings.nleds.first)
            × (shown'.second ≡ solid s.i s.rings.nleds.second)
            × (s'.i ≡ (s.i + 1) % 3)
            × (s'.wait ≡ 1000 * 2 ^ s.i))
      × (due ≡ false → (frames ≡ []) × (s'.i ≡ s.i))
      × (s'.lamp ≡ not levels.first)
unfolding test_pass
test_pass-IsTesting shown true levels s t =
    let rs = set_both s.i s.rings in
    let (red, blue, leds) = set_both_lem s.i s.rings t.in_cols in
    let (clean, clean', st, leds', first, second, none_sent) =
      rings_flush-shows shown rs (set_both-IsShown shown s.i s.rings t.shows) (rw leds t.leds_fit.0)
        (rw leds t.leds_fit.1) in
    let (sizes, shows, marks) =
      flushed shown rs (set_both-IsShown shown s.i s.rings t.shows) (rw leds t.leds_fit) in
    (
      record { in_cols = omega arith; leds_fit = sizes; shows = shows; clean = marks },
      λ e. (
        first
            ∙ frame_words-solid s.i rs 0 t.in_cols red
            ∙ ap (λ (n : Two ℕ). solid s.i n.first) leds,
        second
            ∙ frame_words-solid s.i rs 1 t.in_cols blue
            ∙ ap (λ (n : Two ℕ). solid s.i n.second) leds,
        refl,
        dwell_doubles s.i t.in_cols,
      ),
      λ e. cc,
      refl,
    )
test_pass-IsTesting shown false levels s t =
    let (clean, clean', st, leds', first, second, none_sent) =
      rings_flush-shows shown s.rings t.shows t.leds_fit.0 t.leds_fit.1 in
    let (sizes, shows, marks) = flushed shown s.rings t.shows t.leds_fit in
    (
      record { in_cols = t.in_cols; leds_fit = sizes; shows = shows; clean = marks },
      λ e. cc,
      λ e. (none_sent t.clean.0 t.clean.1, refl),
      refl,
    )
