-- ===== src/Crc32/Step.antt =====
-- One round of the CRC is a bijection on words, and is linear above the digits that it reads.
use native.Mathlib.Nat.{pow-suc}
use rp2040_eth_panel.Prelude.{
  ℕ, zero, suc, ◌+◌, ◌*◌, ◌/◌, ◌%◌, ◌^◌, ◌<◌, bit_xor, ◌≡◌, refl, ap, ◌∙◌, sym, ◌⊎◌, inl, inr,
  arith,
}
use rp2040_eth_panel.Prelude.Bits.{bit_and_mask, bit_xor-zero, bit_xor_step}
use rp2040_eth_panel.Prelude.Bits.Xor.{bit_xor-lt, bit_xor_cancel, bit_xor_high, bit_xor_right_comm}
use rp2040_eth_panel.Crc32.{poly, crc_bit, crc_bits}

-- What is folded in: the polynomial if the lowest bit is set.
abbrev pub folded : ℕ → ℕ
folded zero = 0
folded (suc b) = poly

crc_bit-folded : (x b : ℕ) → b < 2 → x % 2 ≡ b → crc_bit x ≡ bit_xor (x / 2) (folded b)
unfolding crc_bit
crc_bit-folded x zero h e = rw (bit_and_mask 1 x, e)
crc_bit-folded x (suc zero) h e = rw (bit_and_mask 1 x, e)
crc_bit-folded x (suc (suc b)) h e = absurd (omega arith)

pub crc_bit_lem : (x : ℕ) → crc_bit x ≡ bit_xor (x / 2) (folded (x % 2))
crc_bit_lem x = crc_bit-folded x (x % 2) (omega arith) refl

folded-lt : (b : ℕ) → folded b < 2 ^ 32
folded-lt zero = omega arith
folded-lt (suc b) = omega arith

pub crc_bit-lt : (x : ℕ) → x < 2 ^ 32 → crc_bit x < 2 ^ 32
crc_bit-lt x h =
    rw crc_bit_lem (bit_xor-lt 32 (x / 2) (folded (x % 2)) (omega arith) (folded-lt (x % 2)))

pub crc_bits-lt : (k x : ℕ) → x < 2 ^ 32 → crc_bits k x < 2 ^ 32
unfolding crc_bits
crc_bits-lt zero x h = h
crc_bits-lt (suc k) x h = crc_bits-lt k (crc_bit x) (crc_bit-lt x h)

-- The polynomial without its top bit.
abbrev low_poly : ℕ
low_poly = 0x6DB88320

crc_bit-even : (x : ℕ) → x % 2 ≡ 0 → crc_bit x ≡ x / 2
crc_bit-even x e = crc_bit-folded x 0 (omega arith) e ∙ bit_xor-zero (x / 2)

crc_bit-odd : (x : ℕ) → x < 2 ^ 32 → x % 2 ≡ 1 → crc_bit x ≡ 2 ^ 31 + bit_xor (x / 2) low_poly
crc_bit-odd x h e =
    crc_bit-folded x 1 (omega arith) e
    ∙ bit_xor_high 31 (x / 2) low_poly (omega arith) (omega arith)

-- The top bit of the result tells which case it was, so a round loses nothing.
pub crc_bit_injective : (x y : ℕ) → x < 2 ^ 32 → y < 2 ^ 32 → crc_bit x ≡ crc_bit y → x ≡ y
crc_bit_injective x y hx hy e = split (digit x) (digit y)
  where
    digit : (n : ℕ) → (n % 2 ≡ 0) ⊎ (n % 2 ≡ 1)
    digit n = omega arith

    low : (n : ℕ) → n < 2 ^ 32 → bit_xor (bit_xor (n / 2) low_poly) low_poly ≡ n / 2
    low n h = bit_xor_cancel 31 (n / 2) low_poly (omega arith) (omega arith)

    small : (n : ℕ) → n < 2 ^ 32 → bit_xor (n / 2) low_poly < 2 ^ 31
    small n h = bit_xor-lt 31 (n / 2) low_poly (omega arith) (omega arith)

    split : (x % 2 ≡ 0) ⊎ (x % 2 ≡ 1) → (y % 2 ≡ 0) ⊎ (y % 2 ≡ 1) → x ≡ y
    split (inl p) (inl q) = omega (arith, crc_bit-even x p, crc_bit-even y q, e)
    split (inl p) (inr q) = absurd (omega (arith, crc_bit-even x p, crc_bit-odd y hy q, e))
    split (inr p) (inl q) = absurd (omega (arith, crc_bit-odd x hx p, crc_bit-even y q, e))
    split (inr p) (inr q) =
        let m : bit_xor (x / 2) low_poly ≡ bit_xor (y / 2) low_poly =
          omega (arith, crc_bit-odd x hx p, crc_bit-odd y hy q, e) in
        let h : x / 2 ≡ y / 2 = sym (low x hx) ∙ ap (λ (t : ℕ). bit_xor t low_poly) m ∙ low y hy in
        omega arith

pub crc_bits_injective : (k x y : ℕ) → x < 2 ^ 32 → y < 2 ^ 32 → crc_bits k x ≡ crc_bits k y → x ≡ y
unfolding crc_bits
crc_bits_injective zero x y hx hy e = e
crc_bits_injective (suc k) x y hx hy e =
    crc_bit_injective x y hx hy
      (crc_bits_injective k (crc_bit x) (crc_bit y) (crc_bit-lt x hx) (crc_bit-lt y hy) e)

-- Digits from the `k`-th on pass through `k` rounds unchanged, moved down by `k`.
pub crc_bits_linear :
    (k a h : ℕ)
    → a < 2 ^ 32
    → h * 2 ^ k < 2 ^ 32
    → crc_bits k (bit_xor a (h * 2 ^ k)) ≡ bit_xor (crc_bits k a) h
unfolding crc_bits
crc_bits_linear zero a h p q = ap (λ (t : ℕ). bit_xor a t) (omega arith)
crc_bits_linear (suc k) a h p q =
    ap (crc_bits k) round ∙ crc_bits_linear k (crc_bit a) h (crc_bit-lt a p) (omega (arith, twice))
  where
    twice : h * 2 ^ suc k ≡ 2 * (h * 2 ^ k)
    twice = omega (arith, ap (λ (t : ℕ). h * t) (pow-suc 2 k))

    halves : bit_xor a (h * 2 ^ suc k) / 2 ≡ bit_xor (a / 2) (h * 2 ^ k)
    halves =
        let e : h * 2 ^ suc k / 2 ≡ h * 2 ^ k = omega (arith, twice) in
        omega (arith, bit_xor_step a (h * 2 ^ suc k), ap (λ (t : ℕ). bit_xor (a / 2) t) e)

    digit : bit_xor a (h * 2 ^ suc k) % 2 ≡ a % 2
    digit = omega (arith, bit_xor_step a (h * 2 ^ suc k), twice)

    round : crc_bit (bit_xor a (h * 2 ^ suc k)) ≡ bit_xor (crc_bit a) (h * 2 ^ k)
    round =
        rw (crc_bit_lem (bit_xor a (h * 2 ^ suc k)), crc_bit_lem a, halves, digit)
          (bit_xor_right_comm 32 (a / 2) (h * 2 ^ k) (folded (a % 2)) (omega arith)
            (omega (arith, twice)) (folded-lt (a % 2)))
