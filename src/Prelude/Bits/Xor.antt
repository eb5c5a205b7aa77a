-- ===== src/Prelude/Bits/Xor.antt =====
-- The laws of `^`.
use Prim.Native.Nat.{ℕ, zero, suc, ◌+◌, ◌*◌, ◌/◌, ◌^◌, ◌<◌, bit_xor, bit_xor-bitwise}
use mathlib.Core.Path.{◌≡◌, refl, ap, ◌∙◌}
use native.Mathlib.Nat.{pow-suc}
use native.Mathlib.Omega.{arith}
use rp2040_eth_panel.Prelude.Bits.{bit_xor_step, next_width}

pub bit_xor-lt : (k a b : ℕ) → a < 2 ^ k → b < 2 ^ k → bit_xor a b < 2 ^ k
bit_xor-lt zero zero zero p q = omega arith
bit_xor-lt zero (suc a) b p q = absurd (omega arith)
bit_xor-lt zero zero (suc b) p q = absurd (omega arith)
bit_xor-lt (suc k) a b p q = omega (
  arith,
  pow-suc 2 k,
  bit_xor_step a b,
  bit_xor-lt k (a / 2) (b / 2) (omega (arith, pow-suc 2 k)) (omega (arith, pow-suc 2 k)),
)

-- Exclusive or with the same word twice gives the first word back.
pub bit_xor_cancel : (k a b : ℕ) → a < 2 ^ k → b < 2 ^ k → bit_xor (bit_xor a b) b ≡ a
bit_xor_cancel zero zero zero p q = refl
bit_xor_cancel zero (suc a) b p q = absurd (omega arith)
bit_xor_cancel zero zero (suc b) p q = absurd (omega arith)
bit_xor_cancel (suc k) a b p q =
    let half : bit_xor a b / 2 ≡ bit_xor (a / 2) (b / 2) = omega (arith, bit_xor_step a b) in
    let ih : bit_xor (bit_xor a b / 2) (b / 2) ≡ a / 2 = rw half (
      bit_xor_cancel k (a / 2) (b / 2) (omega (arith, pow-suc 2 k)) (omega (arith, pow-suc 2 k))) in
    omega (arith, bit_xor_step (bit_xor a b) b, bit_xor_step a b, ih)

-- A top bit that only one word has stays.
pub bit_xor_high : (k a b : ℕ) → a < 2 ^ k → b < 2 ^ k → bit_xor a (2 ^ k + b) ≡ 2 ^ k + bit_xor a b
bit_xor_high zero zero zero p q = refl
bit_xor_high zero (suc a) b p q = absurd (omega arith)
bit_xor_high zero zero (suc b) p q = absurd (omega arith)
bit_xor_high (suc k) a b p q =
    let half : (2 ^ suc k + b) / 2 ≡ 2 ^ k + b / 2 = omega (arith, pow-suc 2 k) in
    let ih : bit_xor (a / 2) ((2 ^ suc k + b) / 2) ≡ 2 ^ k + bit_xor (a / 2) (b / 2) =
      rw half (
        bit_xor_high k (a / 2) (b / 2) (omega (arith, pow-suc 2 k)) (omega (arith, pow-suc 2 k))) in
    omega (arith, bit_xor_step a (2 ^ suc k + b), bit_xor_step a b, ih, pow-suc 2 k)

pub bit_xor_right_comm :
    (k a b c : ℕ)
    → a < 2 ^ k
    → b < 2 ^ k
    → c < 2 ^ k
    → bit_xor (bit_xor a b) c ≡ bit_xor (bit_xor a c) b
bit_xor_right_comm zero zero zero zero p q r = refl
bit_xor_right_comm zero (suc a) b c p q r = absurd (omega arith)
bit_xor_right_comm zero zero (suc b) c p q r = absurd (omega arith)
bit_xor_right_comm zero zero zero (suc c) p q r = absurd (omega arith)
bit_xor_right_comm (suc k) a b c p q r =
    let hb : bit_xor a b / 2 ≡ bit_xor (a / 2) (b / 2) = omega (arith, bit_xor_step a b) in
    let hc : bit_xor a c / 2 ≡ bit_xor (a / 2) (c / 2) = omega (arith, bit_xor_step a c) in
    let ih : bit_xor (bit_xor a b / 2) (c / 2) ≡ bit_xor (bit_xor a c / 2) (b / 2) =
      rw (hb, hc)
        (bit_xor_right_comm k (a / 2) (b / 2) (c / 2) (omega (arith, pow-suc 2 k))
          (omega (arith, pow-suc 2 k)) (omega (arith, pow-suc 2 k))) in
    omega (
      arith,
      bit_xor_step (bit_xor a b) c,
      bit_xor_step (bit_xor a c) b,
      bit_xor_step a b,
      bit_xor_step a c,
      ih,
    )

-- Disjoint fields: exclusive or is a sum.
pub bit_xor_fields : (k q r : ℕ) → r < 2 ^ k → bit_xor r (q * 2 ^ k) ≡ q * 2 ^ k + r
bit_xor_fields zero q zero fits = ground (arith, bit_xor-bitwise 0 q)
bit_xor_fields zero q (suc r) fits = absurd (omega arith)
bit_xor_fields (suc k) q r fits = ground (
  arith,
  bit_xor_step r (q * 2 ^ suc k),
  next_width q k,
  bit_xor_fields k q (r / 2) (omega arith),
)

pub bit_xor_comm : (k a b : ℕ) → a < 2 ^ k → b < 2 ^ k → bit_xor a b ≡ bit_xor b a
bit_xor_comm zero zero zero p q = refl
bit_xor_comm zero (suc a) b p q = absurd (omega arith)
bit_xor_comm zero zero (suc b) p q = absurd (omega arith)
bit_xor_comm (suc k) a b p q = omega (
  arith,
  bit_xor_step a b,
  bit_xor_step b a,
  bit_xor_comm k (a / 2) (b / 2) (omega (arith, pow-suc 2 k)) (omega (arith, pow-suc 2 k)),
)

pub bit_xor_assoc :
    (k a b c : ℕ)
    → a < 2 ^ k
    → b < 2 ^ k
    → c < 2 ^ k
    → bit_xor (bit_xor a b) c ≡ bit_xor a (bit_xor b c)
bit_xor_assoc k a b c p q r =
    ap (λ (t : ℕ). bit_xor t c) (bit_xor_comm k a b p q)
    ∙ bit_xor_right_comm k b a c q p r
    ∙ bit_xor_comm k (bit_xor b c) a (bit_xor-lt k b c q r) p
