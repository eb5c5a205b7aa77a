-- ===== src/Rings/Set.antt =====
-- What `rings_set` of firmware/src/rings/rings.c accepts and changes.
use rp2040_eth_panel.Prelude.{
  ℕ, zero, suc, ◌<◌, ◌≡◌, ◌≢◌, ◌⊎◌, ◌↔◌, inl, inr, refl, sym, ◌∙◌, Bool, true, false, Two, entry,
  ◌||◌, not, if_both, arith,
}
use rp2040_eth_panel.Prelude.Int.{ℤ, pos, negsuc, minus_one, to_nat, in_bounds}
use rp2040_eth_panel.Rings.{
  Rings, RingState, in_range, rings_init, rings_set, store_state, next_state, given_or,
  out_of_range, rings_clear_dirty,
}

-- Every stored channel is a byte.
pub record IsBytes (s : RingState) : Type 0 where
  pub r_fits : s.r < 256
  pub g_fits : s.g < 256
  pub b_fits : s.b < 256
  pub brightness_fits : s.brightness < 256

pub record IsValid (rs : Rings) : Type 0 where
  pub first_bytes : IsBytes rs.st.first
  pub second_bytes : IsBytes rs.st.second

-- An argument of a ring command: absent, or a byte.
abbrev pub IsArgument : ℤ → Type 0
IsArgument v = (v ≡ minus_one) ⊎ ((n : ℕ) × (v ≡ pos n) × (n < 256))

-- What an argument stands for, given the current value.
abbrev pub Sets : ℤ → ℕ → ℕ → Type 0
Sets v old new = (v ≡ minus_one → new ≡ old) × ((n : ℕ) → v ≡ pos n → new ≡ n)

pub rings_init-IsValid : (nleds : Two ℕ) → IsValid (rings_init nleds)
unfolding rings_init
rings_init-IsValid nleds = omega arith

next_state-IsBytes :
    (s : RingState) (r g b brightness : ℤ) → IsBytes s → IsBytes (next_state s r g b brightness)
next_state-IsBytes s r g b brightness h = record {
  r_fits = ground arith;
  g_fits = ground arith;
  b_fits = ground arith;
  brightness_fits = ground arith;
}

store_state-IsValid :
    (rs : Rings) (i : ℕ) (s : RingState) → IsBytes s → IsValid rs → IsValid (store_state rs i s)
unfolding store_state
store_state-IsValid rs zero s h v = ground arith
store_state-IsValid rs (suc i) s h v = ground arith

out_of_range-IsArgument : (v : ℤ) → (out_of_range v ≡ false) ↔ IsArgument v
unfolding in_range
out_of_range-IsArgument (pos n) =
    (λ e. inr (n, refl, ground arith), elim [ inl e ↦ cc | inr (m, e, h) ↦ ground arith ])
out_of_range-IsArgument (negsuc zero) = (λ e. inl refl, λ h. refl)
out_of_range-IsArgument (negsuc (suc n)) = (λ e. cc, elim [ inl e ↦ cc | inr (m, e, h) ↦ cc ])

index_cases : (idx : ℤ) → (in_bounds 0 1 idx ≡ true) ↔ ((idx ≡ pos 0) ⊎ (idx ≡ pos 1))
index_cases (pos zero) = (λ e. inl refl, λ h. refl)
index_cases (pos (suc zero)) = (λ e. inr refl, λ h. refl)
index_cases (pos (suc (suc n))) = (λ e. ground arith, elim [ inl e ↦ cc | inr e ↦ cc ])
index_cases (negsuc n) = (λ e. cc, elim [ inl e ↦ cc | inr e ↦ cc ])

-- `rings_set` accepts exactly the indices 0 and 1 with arguments that are absent or bytes, and
-- whatever it rejects leaves the state as it was.
pub rings_set_accepts :
    (rs : Rings) (idx r g b brightness : ℤ)
    → (((rings_set rs idx r g b brightness).0 ≡ true) ↔ (
        ((idx ≡ pos 0) ⊎ (idx ≡ pos 1))
        × IsArgument r
        × IsArgument g
        × IsArgument b
        × IsArgument brightness))
      × ((rings_set rs idx r g b brightness).0 ≡ false → (rings_set rs idx r g b brightness).1 ≡ rs)
unfolding rings_set
rings_set_accepts rs idx r g b brightness = ground (
  arith,
  index_cases idx,
  out_of_range-IsArgument r,
  out_of_range-IsArgument g,
  out_of_range-IsArgument b,
  out_of_range-IsArgument brightness,
)

-- What an accepted command does to ring `i`.
pub record Effect (i : ℕ) (r g b brightness : ℤ) (rs rs' : Rings) : Type 0 where
  pub sets_r : Sets r (entry rs.st i).r (entry rs'.st i).r
  pub sets_g : Sets g (entry rs.st i).g (entry rs'.st i).g
  pub sets_b : Sets b (entry rs.st i).b (entry rs'.st i).b
  pub sets_brightness : Sets brightness (entry rs.st i).brightness (entry rs'.st i).brightness
  pub same_leds : rs'.nleds ≡ rs.nleds
  pub dirty_if_changed :
      (entry rs'.st i ≢ entry rs.st i → entry rs'.dirty i ≡ true)
      × (entry rs'.st i ≡ entry rs.st i → entry rs'.dirty i ≡ entry rs.dirty i)
  pub other_state : (j : ℕ) → j < 2 → j ≢ i → entry rs'.st j ≡ entry rs.st j
  pub other_dirty : (j : ℕ) → j < 2 → j ≢ i → entry rs'.dirty j ≡ entry rs.dirty j

pub store_state_frame :
    (rs : Rings) (i : ℕ) (s : RingState)
    → i < 2
    → let rs' = store_state rs i s in
      (entry rs'.st i ≡ s)
      × (rs'.nleds ≡ rs.nleds)
      × ((s ≢ entry rs.st i → entry rs'.dirty i ≡ true)
          × (s ≡ entry rs.st i → entry rs'.dirty i ≡ entry rs.dirty i))
      × ((j : ℕ)
          → j < 2
          → j ≢ i
          → (entry rs'.st j ≡ entry rs.st j) × (entry rs'.dirty j ≡ entry rs.dirty j))
unfolding store_state
store_state_frame rs zero s h =
    (ground arith, ground arith, (ground arith, ground arith), λ j p q. ground arith)
store_state_frame rs (suc i) s h =
    (ground arith, ground arith, (ground arith, ground arith), λ j p q. ground arith)

given_or-Sets : (v : ℤ) (old : ℕ) → IsArgument v → Sets v old (given_or v old)
given_or-Sets (pos n) old (inl e) = cc
given_or-Sets (pos n) old (inr (m, e, h)) = (λ p. cc, λ k p. ground arith)
given_or-Sets (negsuc zero) old a = (λ p. refl, λ k p. cc)
given_or-Sets (negsuc (suc n)) old (inl e) = cc
given_or-Sets (negsuc (suc n)) old (inr (m, e, h)) = cc

rings_set_stored :
    (rs : Rings) (i : ℕ) (r g b brightness : ℤ)
    → i < 2
    → (rings_set rs (pos i) r g b brightness).0 ≡ true
    → (rings_set rs (pos i) r g b brightness).1
      ≡ store_state rs i (next_state (entry rs.st i) r g b brightness)
unfolding rings_set
rings_set_stored rs i r g b brightness h e = ground arith

-- An accepted command sets each given channel of its ring and keeps the others, marks the ring
-- dirty if that changed it and leaves the mark alone if not, and does nothing to the other ring.
pub rings_set-Effect :
    (rs : Rings) (i : ℕ) (r g b brightness : ℤ)
    → i < 2
    → (rings_set rs (pos i) r g b brightness).0 ≡ true
    → Effect i r g b brightness rs (rings_set rs (pos i) r g b brightness).1
rings_set-Effect rs i r g b brightness h e =
    let f = store_state_frame rs i (next_state (entry rs.st i) r g b brightness) h in
    let a = (rings_set_accepts rs (pos i) r g b brightness).0.0 e in
    rw (rings_set_stored rs i r g b brightness h e) (record {
      sets_r = rw f.0 (given_or-Sets r (entry rs.st i).r a.1);
      sets_g = rw f.0 (given_or-Sets g (entry rs.st i).g a.2);
      sets_b = rw f.0 (given_or-Sets b (entry rs.st i).b a.3);
      sets_brightness = rw f.0 (given_or-Sets brightness (entry rs.st i).brightness a.4);
      same_leds = f.1;
      dirty_if_changed = (λ p. f.2.0 (λ q. p (f.0 ∙ q)), λ p. f.2.1 (sym f.0 ∙ p));
      other_state = λ j p q. (f.3 j p q).0;
      other_dirty = λ j p q. (f.3 j p q).1;
    })

entry-IsBytes : (rs : Rings) (i : ℕ) → IsValid rs → IsBytes (entry rs.st i)
entry-IsBytes rs zero v = v.first_bytes
entry-IsBytes rs (suc i) v = v.second_bytes

-- Every command, accepted or not, keeps the channels within a byte.
pub rings_set-IsValid :
    (rs : Rings) (idx r g b brightness : ℤ)
    → IsValid rs
    → IsValid (rings_set rs idx r g b brightness).1
unfolding rings_set
rings_set-IsValid rs idx r g b brightness v =
    let i = to_nat idx in
    let next = next_state (entry rs.st i) r g b brightness in
    let kept =
      store_state-IsValid rs i next
        (next_state-IsBytes (entry rs.st i) r g b brightness (entry-IsBytes rs i v)) v in
    if_both {A = Bool × Rings} (λ z. IsValid z.1) (not (in_bounds 0 1 idx)) v
      (if_both {A = Bool × Rings} (λ z. IsValid z.1)
        (out_of_range r || out_of_range g || out_of_range b || out_of_range brightness) v kept)

-- Clearing a mark changes no colour.
pub rings_clear_dirty-IsValid : (rs : Rings) (i : ℕ) → IsValid rs → IsValid (rings_clear_dirty rs i)
unfolding rings_clear_dirty
rings_clear_dirty-IsValid rs zero v = ground arith
rings_clear_dirty-IsValid rs (suc i) v = ground arith
