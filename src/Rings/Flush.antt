-- ===== src/Rings/Flush.antt =====
-- `rings_flush` of firmware/src/main.c with `rings_hw_push` of firmware/src/rings/rings_hw.c: what
-- the chains show against what has been commanded.
use rp2040_eth_panel.Prelude.{
  ℕ, zero, suc, ◌≤◌, ◌<◌, ◌≡◌, refl, sym, ◌∙◌, Bool, false, List, [], ◌∷◌, ◌++◌, map, none, some,
  Two, entry, update, u32, ◌<<<◌, replicate, if◌then◌else◌, arith, leb, if_both, not, ◌||◌,
}
use rp2040_eth_panel.Prelude.Int.{ℤ, to_nat, in_bounds}
use rp2040_eth_panel.Rings.{
  Rings, RingState, grb, rings_init, rings_set, store_state, next_state, out_of_range,
  rings_pixel_word, rings_render, rings_clear_dirty,
}

-- The words put into the FIFO of one chain.
pub record Frame : Type 0 where
  pub chain : ℕ
  pub words : List ℕ

abbrev pub ring_max_leds : ℕ
ring_max_leds = 16

-- The 24-bit pixel goes to the top of the word.
abbrev pub put_words : List ℕ → List ℕ
put_words words = map (λ w. u32 (w <<< 8)) words

-- Nothing for a chain that is not there. The latch gap is a delay only.
pub rings_hw_push : ℕ → List ℕ → List Frame
rings_hw_push idx words =
    if leb 2 idx then [] else record { chain = idx; words = put_words words } ∷ []

-- One round of the loop: a ring that is not dirty, or whose frame does not fit, is passed over.
pub flush_ring : ℕ → Rings → Rings × List Frame
unfolding rings_hw_push
flush_ring i rs =
    if entry rs.dirty i
    then elim (rings_render rs i grb ring_max_leds) [
      | none ↦ (rs, [])
      | some words ↦ (rings_clear_dirty rs i, rings_hw_push i words)
    ]
    else (rs, [])

pub rings_flush : Rings → Rings × List Frame
rings_flush rs =
    let (rs', first) = flush_ring 0 rs in
    let (rs'', second) = flush_ring 1 rs' in (rs'', first ++ second)

-- The words that the commanded state of a ring calls for.
abbrev pub frame_words : Rings → ℕ → List ℕ
frame_words rs i = put_words (replicate (entry rs.nleds i) (rings_pixel_word rs i grb))

-- The newest frame on each chain.
abbrev pub show : Two (List ℕ) → List Frame → Two (List ℕ)
show shown [] = shown
show shown (f ∷ fs) = show (update shown f.chain f.words) fs

-- A ring that is not dirty shows its commanded state.
pub record IsShown (shown : Two (List ℕ)) (rs : Rings) : Type 0 where
  pub first_shown : rs.dirty.first ≡ false → shown.first ≡ frame_words rs 0
  pub second_shown : rs.dirty.second ≡ false → shown.second ≡ frame_words rs 1

flush_ring_lem :
    (rs : Rings) (i : ℕ)
    → i < 2
    → entry rs.nleds i ≤ ring_max_leds
    → flush_ring i rs ≡ (
        if entry rs.dirty i
        then (
          record rs { dirty = update rs.dirty i false },
          record { chain = i; words = frame_words rs i } ∷ [],
        )
        else (rs, []))
unfolding flush_ring rings_render rings_clear_dirty
flush_ring_lem rs i h fits = ground arith

pixel_word_cleaned :
    (rs : Rings) (marks : Two Bool) (i : ℕ)
    → rings_pixel_word (record rs { dirty = marks }) i grb ≡ rings_pixel_word rs i grb
unfolding rings_pixel_word
pixel_word_cleaned rs marks i = refl

-- After `rings_flush` both rings show their commanded state and are clean, whatever was dirty; the
-- commanded state itself is not touched, and clean rings are sent no frame.
pub rings_flush-shows :
    (shown : Two (List ℕ)) (rs : Rings)
    → IsShown shown rs
    → rs.nleds.first ≤ ring_max_leds
    → rs.nleds.second ≤ ring_max_leds
    → let (rs', frames) = rings_flush rs in
      (rs'.dirty.first ≡ false)
      × (rs'.dirty.second ≡ false)
      × (rs'.st ≡ rs.st)
      × (rs'.nleds ≡ rs.nleds)
      × ((show shown frames).first ≡ frame_words rs 0)
      × ((show shown frames).second ≡ frame_words rs 1)
      × (rs.dirty.first ≡ false → rs.dirty.second ≡ false → frames ≡ [])
unfolding rings_flush
rings_flush-shows shown rs inv p q =
    let cleaned = record rs { dirty = update rs.dirty 0 false } in
    ground (
      arith,
      flush_ring_lem rs 0 (omega arith) p,
      flush_ring_lem rs 1 (omega arith) q,
      flush_ring_lem cleaned 1 (omega arith) q,
      pixel_word_cleaned rs (update rs.dirty 0 false) 1,
    )

store_state-IsShown :
    (shown : Two (List ℕ)) (rs : Rings) (i : ℕ) (s : RingState)
    → IsShown shown rs
    → IsShown shown (store_state rs i s)
unfolding store_state rings_pixel_word
store_state-IsShown shown rs zero s v = ground arith
store_state-IsShown shown rs (suc i) s v = ground arith

pub rings_set-IsShown :
    (shown : Two (List ℕ)) (rs : Rings) (idx r g b brightness : ℤ)
    → IsShown shown rs
    → IsShown shown (rings_set rs idx r g b brightness).1
unfolding rings_set
rings_set-IsShown shown rs idx r g b brightness v =
    let i = to_nat idx in
    if_both {A = Bool × Rings} (λ z. IsShown shown z.1) (not (in_bounds 0 1 idx)) v
      (if_both {A = Bool × Rings} (λ z. IsShown shown z.1)
        (out_of_range r || out_of_range g || out_of_range b || out_of_range brightness) v
        (store_state-IsShown shown rs i (next_state (entry rs.st i) r g b brightness) v))

pub rings_init-IsShown :
    (nleds : Two ℕ) (power_on : Two (List ℕ)) → IsShown power_on (rings_init nleds)
unfolding rings_init
rings_init-IsShown nleds power_on = record { first_shown = λ e. cc; second_shown = λ e. cc }

-- A command to the rings, or a pass of the main loop over them.
pub data Request : Type 0 where
  set_ring : ℤ → ℤ → ℤ → ℤ → ℤ → Request
  flush : Request

-- The commanded state and what the chains show, request by request.
pub serve : Rings → Two (List ℕ) → List Request → Rings × Two (List ℕ)
serve rs shown [] = (rs, shown)
serve rs shown (set_ring idx r g b brightness ∷ qs) =
    serve (rings_set rs idx r g b brightness).1 shown qs
serve rs shown (flush ∷ qs) = let (rs', frames) = rings_flush rs in serve rs' (show shown frames) qs

-- The number of LEDs of each ring fits the flush buffer.
abbrev pub LedsFit : Rings → Type 0
LedsFit rs = (rs.nleds.first ≤ ring_max_leds) × (rs.nleds.second ≤ ring_max_leds)

pub frame_words_congr :
    (rs rs' : Rings) (i : ℕ)
    → rs.st ≡ rs'.st
    → rs.nleds ≡ rs'.nleds
    → frame_words rs i ≡ frame_words rs' i
unfolding rings_pixel_word
frame_words_congr rs rs' i p q = simp (p, q)

store_state-nleds : (rs : Rings) (i : ℕ) (s : RingState) → (store_state rs i s).nleds ≡ rs.nleds
unfolding store_state
store_state-nleds rs i s = ground arith

pub rings_flush-IsShown :
    (shown : Two (List ℕ)) (rs : Rings)
    → LedsFit rs
    → IsShown shown rs
    → let (rs', frames) = rings_flush rs in IsShown (show shown frames) rs' × LedsFit rs'
rings_flush-IsShown shown rs fit v =
    let f = rings_flush-shows shown rs v fit.0 fit.1 in
    let rs' = (rings_flush rs).0 in
    (
      record {
        first_shown = λ e. f.4 ∙ frame_words_congr rs rs' 0 (sym f.2) (sym f.3);
        second_shown = λ e. f.5 ∙ frame_words_congr rs rs' 1 (sym f.2) (sym f.3);
      },
      rw f.3 fit,
    )

pub rings_set-LedsFit :
    (rs : Rings) (idx r g b brightness : ℤ)
    → LedsFit rs
    → LedsFit (rings_set rs idx r g b brightness).1
unfolding rings_set
rings_set-LedsFit rs idx r g b brightness fit =
    if_both {A = Bool × Rings} (λ z. LedsFit z.1) (not (in_bounds 0 1 idx)) fit
      (if_both {A = Bool × Rings} (λ z. LedsFit z.1)
        (out_of_range r || out_of_range g || out_of_range b || out_of_range brightness) fit
        (rw store_state-nleds fit))

serve-IsShown :
    (qs : List Request) (rs : Rings) (shown : Two (List ℕ))
    → LedsFit rs
    → IsShown shown rs
    → let (rs', shown') = serve rs shown qs in IsShown shown' rs' × LedsFit rs'
unfolding serve
serve-IsShown [] rs shown fit v = (v, fit)
serve-IsShown (set_ring idx r g b brightness ∷ qs) rs shown fit v =
    serve-IsShown qs (rings_set rs idx r g b brightness).1 shown
      (rings_set-LedsFit rs idx r g b brightness fit)
      (rings_set-IsShown shown rs idx r g b brightness v)
serve-IsShown (flush ∷ qs) rs shown fit v =
    let f = rings_flush-IsShown shown rs fit v in
    serve-IsShown qs (rings_flush rs).0 (show shown (rings_flush rs).1) f.1 f.0

-- From power-on, whatever the chains showed then, with 16 LEDs at most on each ring: every
-- sequence of ring commands and flushes that ends with a flush leaves both chains showing what
-- has been commanded.
pub serve-shows :
    (nleds : Two ℕ) (power_on : Two (List ℕ)) (qs : List Request)
    → nleds.first ≤ ring_max_leds
    → nleds.second ≤ ring_max_leds
    → let (rs, shown) = serve (rings_init nleds) power_on qs in
      let (rs', frames) = rings_flush rs in
      (rs'.st ≡ rs.st)
      × ((show shown frames).first ≡ frame_words rs 0)
      × ((show shown frames).second ≡ frame_words rs 1)
serve-shows nleds power_on qs p q =
    let start =
      serve-IsShown qs (rings_init nleds) power_on (unfold rings_init in (p, q))
        (rings_init-IsShown nleds power_on) in
    let st = serve (rings_init nleds) power_on qs in
    let f = rings_flush-shows st.1 st.0 start.0 start.1.0 start.1.1 in (f.2, f.4, f.5)
