-- ===== src/Protocol/Key.antt =====
-- Where `find_key` of firmware/src/protocol/protocol.c finds a value, and how long a string is that
-- is extracted.
use rp2040_eth_panel.Prelude.{
  ℕ, zero, suc, ◌-◌, ◌≤◌, ◌<◌, ◌≡◌, inl, inr, refl, sym, ap, ap₂, ◌∙◌, true, List, [], ◌∷◌, ◌++◌,
  none, some, some_injective, Option-cases, Bool-cases, length, ◌==◌, ==_iff, All, arith,
}
use rp2040_eth_panel.Protocol.{
  is_blank, colon, quote, strip_prefix, skip_blanks, colon_value, string_value, after_colon,
  find_from, find_key, pattern_of, copy_str, get_str,
}

strip_prefix-append : (p s q : List ℕ) → strip_prefix p s ≡ some q → s ≡ p ++ q
unfolding strip_prefix
strip_prefix-append [] s q h = some_injective h
strip_prefix-append (c ∷ p) [] q h = cc
strip_prefix-append (c ∷ p) (d ∷ s) q h = elim (Bool-cases (c == d)) [
  | inl e ↦ ap₂ ◌∷◌ (sym ((==_iff c d).0 e)) (strip_prefix-append p s q (rw e at h))
  | inr e ↦ cc (rw e at h)
]

-- Blanks only.
abbrev pub AreBlanks : List ℕ → Type 0
AreBlanks l = All (λ c. is_blank c ≡ true) l

skip_blanks_lem : (s : List ℕ) → (l : List ℕ) × AreBlanks l × (s ≡ l ++ skip_blanks s)
unfolding skip_blanks
skip_blanks_lem [] = ([], tt, refl)
skip_blanks_lem (c ∷ s) =
    let (l, blanks, e) = skip_blanks_lem s in
    elim (Bool-cases (is_blank c)) [
      | inl h ↦ rw h (c ∷ l, (h, blanks), ap (λ t. c ∷ t) e)
      | inr h ↦ rw h ([], tt, refl)
    ]

-- The value `v` stands behind a key and its ':'.
abbrev pub IsValueOf : List ℕ → List ℕ → List ℕ → Type 0
IsValueOf pat s v =
    (before : List ℕ) × (l : List ℕ) × (m : List ℕ) × AreBlanks l
    × AreBlanks m
    × (s ≡ before ++ (pat ++ (l ++ (colon ∷ (m ++ v)))))

colon_value-append :
    (t v : List ℕ) → colon_value t ≡ some v → (m : List ℕ) × AreBlanks m × (t ≡ colon ∷ (m ++ v))
unfolding colon_value
colon_value-append [] v h = cc
colon_value-append (c ∷ q) v h = elim (Bool-cases (c == colon)) [
  | inl e ↦
      let (m, blanks, k) = skip_blanks_lem q in
      let same : skip_blanks q ≡ v = some_injective (rw e at h) in
      (m, blanks, ap₂ ◌∷◌ ((==_iff c colon).0 e) (k ∙ ap (λ t. m ++ t) same))
  | inr e ↦ cc (rw e at h)
]

after_colon-append :
    (s v : List ℕ)
    → after_colon s ≡ some v
    → (l : List ℕ) × (m : List ℕ) × AreBlanks l × AreBlanks m × (s ≡ l ++ (colon ∷ (m ++ v)))
unfolding after_colon
after_colon-append s v h =
    let (l, p, e) = skip_blanks_lem s in
    let (m, q, k) = colon_value-append (skip_blanks s) v h in (l, m, p, q, e ∙ ap (λ t. l ++ t) k)

module _ (c : ℕ) (pat s : List ℕ) where
  pub find_from_miss :
      strip_prefix pat (c ∷ s) ≡ none → find_from zero pat (c ∷ s) ≡ find_from zero pat s
  unfolding find_from
  find_from_miss e = ground arith

  pub find_from_other :
      (q : List ℕ)
      → strip_prefix pat (c ∷ s) ≡ some q
      → after_colon q ≡ none
      → find_from zero pat (c ∷ s) ≡ find_from (length pat - 1) pat s
  unfolding find_from
  find_from_other q e t = ground arith

  pub find_from_hit :
      (q v : List ℕ)
      → strip_prefix pat (c ∷ s) ≡ some q
      → after_colon q ≡ some v
      → find_from zero pat (c ∷ s) ≡ some v
  unfolding find_from
  find_from_hit q v e t = ground arith

later_value : (c : ℕ) (pat s v : List ℕ) → IsValueOf pat s v → IsValueOf pat (c ∷ s) v
later_value c pat s v (before, l, m, p, q, e) = (c ∷ before, l, m, p, q, ap (λ t. c ∷ t) e)

find_from-IsValueOf :
    (skip : ℕ) (pat s v : List ℕ) → find_from skip pat s ≡ some v → IsValueOf pat s v
unfolding find_from
find_from-IsValueOf skip pat [] v h = cc
find_from-IsValueOf (suc skip) pat (c ∷ s) v h =
    later_value c pat s v (find_from-IsValueOf skip pat s v h)
find_from-IsValueOf zero pat (c ∷ s) v h = elim (Option-cases (strip_prefix pat (c ∷ s))) [
  | inl e ↦
      later_value c pat s v (find_from-IsValueOf zero pat s v (sym (find_from_miss c pat s e) ∙ h))
  | inr (q, e) ↦ elim (Option-cases (after_colon q)) [
    | inl t ↦
        later_value c pat s v
          (find_from-IsValueOf (length pat - 1) pat s v (sym (find_from_other c pat s q e t) ∙ h))
    | inr (w, t) ↦
        let same : w ≡ v = some_injective (sym (find_from_hit c pat s q w e t) ∙ h) in
        let (l, m, p, r, k) = after_colon-append q v (t ∙ ap some same) in
        ([], l, m, p, r, strip_prefix-append pat (c ∷ s) q e ∙ ap (λ z. pat ++ z) k)
  ]
]

-- What is taken for a value stands behind the quoted key and a ':', with blanks at most between
-- them.
pub find_key-IsValueOf :
    (json key v : List ℕ) → find_key json key ≡ some v → IsValueOf (pattern_of key) json v
unfolding find_key
find_key-IsValueOf json key v h = find_from-IsValueOf 0 (pattern_of key) json v h

copy_str-length : (n : ℕ) (p : List ℕ) → length (copy_str n p) ≤ n
unfolding copy_str
copy_str-length zero p = omega arith
copy_str-length (suc n) [] = omega arith
copy_str-length (suc n) (c ∷ p) = ground (arith, copy_str-length n p)

string_value-length :
    (dstn : ℕ) (p w : List ℕ) → 0 < dstn → string_value dstn p ≡ some w → length w < dstn
unfolding string_value
string_value-length dstn [] w room h = cc
string_value-length dstn (c ∷ p) w room h = elim (Bool-cases (c == quote)) [
  | inl e ↦ omega (arith, copy_str-length (dstn - 1) p, ap length (some_injective (rw e at h)))
  | inr e ↦ cc (rw e at h)
]

-- A string that is extracted fits its buffer with the terminator.
pub get_str-length :
    (json key w : List ℕ) (dstn : ℕ) → 0 < dstn → get_str json key dstn ≡ some w → length w < dstn
unfolding get_str
get_str-length json key w dstn room h = elim (Option-cases (find_key json key)) [
  | inl e ↦ cc (rw e at h)
  | inr (p, e) ↦ string_value-length dstn p w room (rw e at h)
]
