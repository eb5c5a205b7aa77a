-- ===== src/Prelude/Bits.antt =====
-- `&`, `|` and `^` as arithmetic: one equation for the lowest digit of each, and from it the laws
-- of fields and masks at every width, and in Bits/Xor those of exclusive or.
pub mod Xor
use Prim.Native.Nat.{
  ℕ, zero, suc, ◌+◌, ◌-◌, ◌*◌, ◌/◌, ◌%◌, ◌^◌, ◌≤◌, ◌<◌, min, max, digits, bitwise, differ, bit_and,
  bit_or, bit_xor, bit_and-bitwise, bit_or-bitwise, bit_xor-bitwise,
}
use mathlib.Core.Path.{◌≡◌, refl, ap, ◌∙◌}
use native.Mathlib.Nat.{pow-suc, one-le-pow}
use native.Mathlib.Omega.{arith}

-- The recursion on binary digits that the three operations stand for, with `pair` on two digits and
-- `rest` where the first number is used up.
module _ (rest : ℕ → ℕ) (pair : ℕ → ℕ → ℕ) where
  -- One unit of fuel more than the first number needs changes nothing.
  spare_fuel :
      (b fuel a : ℕ) → a ≤ fuel → digits rest pair (suc fuel) a b ≡ digits rest pair fuel a b
  spare_fuel b zero a h = ap (λ (t : ℕ). digits rest pair 1 t b) (none_left a h)
    where
      none_left : (x : ℕ) → x ≤ 0 → x ≡ 0
      none_left x e = omega arith
  spare_fuel b (suc fuel) zero h = refl
  spare_fuel b (suc fuel) (suc a) h =
      ap (λ (t : ℕ). t * 2 + pair (suc a % 2) (b % 2))
        (spare_fuel (b / 2) fuel (suc a / 2) (omega arith))

  enough_fuel : (b extra a : ℕ) → digits rest pair (extra + a) a b ≡ bitwise rest pair a b
  enough_fuel b zero a = ap (λ (t : ℕ). digits rest pair t a b) (omega arith)
  enough_fuel b (suc extra) a =
      ap (λ (t : ℕ). digits rest pair t a b) (add_suc extra a)
      ∙ spare_fuel b (extra + a) a (omega arith)
      ∙ enough_fuel b extra a
    where
      add_suc : (x y : ℕ) → suc x + y ≡ suc (x + y)
      add_suc x y = omega arith

  -- The lowest digit, and what is above it.
  lowest_digit :
      ((y : ℕ) → rest y ≡ rest (y / 2) * 2 + pair 0 (y % 2))
      → (a b : ℕ)
      → bitwise rest pair a b ≡ bitwise rest pair (a / 2) (b / 2) * 2 + pair (a % 2) (b % 2)
  lowest_digit law zero b = law b
  lowest_digit law (suc a) b =
      let half = suc a / 2 in
      let fuel : a ≡ (a - half) + half = omega arith in
      ap (λ (t : ℕ). t * 2 + pair (suc a % 2) (b % 2))
        (ap (λ (t : ℕ). digits rest pair t half (b / 2)) fuel ∙ enough_fuel (b / 2) (a - half) half)

differ_digits : (x y : ℕ) → x < 2 → y < 2 → differ x y ≡ (x + y) % 2
differ_digits zero y p q = omega arith
differ_digits (suc zero) zero p q = refl
differ_digits (suc zero) (suc zero) p q = refl
differ_digits (suc zero) (suc (suc y)) p q = absurd (omega arith)
differ_digits (suc (suc x)) y p q = absurd (omega arith)

bit_or_step : (x y : ℕ) → bit_or x y ≡ bit_or (x / 2) (y / 2) * 2 + max (x % 2) (y % 2)
bit_or_step x y = simp bit_or-bitwise (lowest_digit (λ t. t) max (λ t. omega arith) x y)

bit_and_step : (x y : ℕ) → bit_and x y ≡ bit_and (x / 2) (y / 2) * 2 + min (x % 2) (y % 2)
bit_and_step x y = simp bit_and-bitwise (lowest_digit (λ t. 0) min (λ t. omega arith) x y)

bit_xor_step_raw : (a b : ℕ) → bit_xor a b ≡ bit_xor (a / 2) (b / 2) * 2 + differ (a % 2) (b % 2)
bit_xor_step_raw a b = simp bit_xor-bitwise (lowest_digit (λ t. t) differ (λ t. tail t) a b)
  where
    tail : (t : ℕ) → t ≡ t / 2 * 2 + differ 0 (t % 2)
    tail t = omega (arith, differ_digits 0 (t % 2) (omega arith) (omega arith))

pub bit_xor_step : (a b : ℕ) → bit_xor a b ≡ bit_xor (a / 2) (b / 2) * 2 + (a + b) % 2
bit_xor_step a b =
    omega (arith, bit_xor_step_raw a b, differ_digits (a % 2) (b % 2) (omega arith) (omega arith))

-- Every number fits some width.
own_width : (x : ℕ) → x < 2 ^ x
own_width zero = omega arith
own_width (suc x) = omega (arith, own_width x, pow-suc 2 x)

-- Zero as the second number, at a width.
zero_right : (w x : ℕ) → x < 2 ^ w → (bit_or x 0 ≡ x) × (bit_and x 0 ≡ 0) × (bit_xor x 0 ≡ x)
zero_right w zero h = (refl, refl, refl)
zero_right zero (suc x) h = absurd (omega arith)
zero_right (suc w) (suc x) h =
    let (o, n, e) = zero_right w (suc x / 2) (omega (arith, pow-suc 2 w)) in
    (
      omega (arith, bit_or_step (suc x) 0, o),
      omega (arith, bit_and_step (suc x) 0, n),
      omega (arith, bit_xor_step (suc x) 0, e),
    )

pub bit_and-zero : (x : ℕ) → bit_and x 0 ≡ 0
bit_and-zero x = (zero_right x x (own_width x)).1

pub bit_xor-zero : (x : ℕ) → bit_xor x 0 ≡ x
bit_xor-zero x = (zero_right x x (own_width x)).2

pub next_width : (hi w : ℕ) → hi * 2 ^ suc w ≡ 2 * (hi * 2 ^ w)
next_width hi w = let power = pow-suc 2 w in omega (arith, ap (λ (t : ℕ). hi * t) power)

-- A field of `w` bits below `hi`: `|` puts it there, and the mask of `w` ones takes it out again.
fields :
    (w hi lo : ℕ)
    → lo < 2 ^ w
    → (bit_or (hi * 2 ^ w) lo ≡ hi * 2 ^ w + lo) × (bit_and (hi * 2 ^ w + lo) (2 ^ w - 1) ≡ lo)
fields zero hi lo h =
    (ground (arith, (zero_right hi hi (own_width hi)).0), rw bit_and-zero (omega arith))
fields (suc w) hi lo h =
    let (o, n) = fields w hi (lo / 2) (omega arith) in
    let wide = next_width hi w in
    (
      ground (arith, wide, o, bit_or_step (hi * 2 ^ suc w) lo),
      ground (arith, wide, n, pow-suc 2 w, bit_and_step (hi * 2 ^ suc w + lo) (2 ^ suc w - 1)),
    )

pub bit_or_fields : (w hi lo : ℕ) → lo < 2 ^ w → bit_or (hi * 2 ^ w) lo ≡ hi * 2 ^ w + lo
bit_or_fields w hi lo h = (fields w hi lo h).0

-- The mask takes the remainder.
pub bit_and_mask : (w x : ℕ) → bit_and x (2 ^ w - 1) ≡ x % 2 ^ w
bit_and_mask w x =
    let low : x % 2 ^ w < 2 ^ w = ground (arith, one-le-pow w 2) in
    ground (arith, one-le-pow w 2, (fields w (x / 2 ^ w) (x % 2 ^ w) low).1)

-- Under a mask whose `k` low bits are clear, the `k` low bits drop out.
pub bit_and_shifted :
    (k q r m : ℕ) → r < 2 ^ k → bit_and (q * 2 ^ k + r) (m * 2 ^ k) ≡ bit_and q m * 2 ^ k
bit_and_shifted zero q zero m h = ground (arith)
bit_and_shifted zero q (suc r) m h = absurd (omega arith)
bit_and_shifted (suc k) q r m h = ground (
  arith,
  bit_and_step (q * 2 ^ suc k + r) (m * 2 ^ suc k),
  next_width q k,
  next_width m k,
  next_width (bit_and q m) k,
  pow-suc 2 k,
  bit_and_shifted k q (r / 2) m (omega arith),
)
