-- ===== src/Crc32/Remainder.antt =====
-- The CRC-32 of IEEE 802.3 as a remainder of polynomials over the field of two elements, and its
-- agreement with the word-wise loop of firmware/src/ota/crc32.c.
use rp2040_eth_panel.Prelude.{
  ℕ, zero, suc, ◌+◌, ◌*◌, ◌/◌, ◌%◌, ◌^◌, ◌<◌, bit_xor, Bool, true, false, List, [], ◌∷◌, ◌++◌,
  length, replicate, ◌==◌, ◌||◌, ◌≡◌, refl, sym, ap, ap₂, ◌∙◌, arith, length-append,
}
use native.Mathlib.Nat.{pow-suc}
use rp2040_eth_panel.Prelude.Bits.{bit_xor_step, bit_xor-zero}
use rp2040_eth_panel.Prelude.Bits.Xor.{bit_xor_right_comm}
use rp2040_eth_panel.Crc32.{poly, all_ones, crc_bit, crc_bits, crc_byte, crc_bytes, ota_crc32}
use rp2040_eth_panel.Crc32.Step.{folded, crc_bit_lem}
use rp2040_eth_panel.Crc32.Bytes.{IsBytes}

-- The exponents of the generator below x^32.
abbrev is_term : ℕ → Bool
is_term n =
    n == 26
    || n == 23
    || n == 22
    || n == 16
    || n == 12
    || n == 11
    || n == 10
    || n == 8
    || n == 7
    || n == 5
    || n == 4
    || n == 2
    || n == 1
    || n == 0

-- Coefficients, those of x^(n - 1) first.
abbrev Poly : Type 0
Poly = List Bool

abbrev coefficients : (ℕ → Bool) → ℕ → Poly
coefficients f zero = []
coefficients f (suc n) = f n ∷ coefficients f n

abbrev generator : Poly
generator = coefficients is_term 32

abbrev plus : Bool → Bool → Bool
plus false b = b
plus true false = true
plus true true = false

abbrev add : Poly → Poly → Poly
add [] q = []
add (a ∷ p) [] = a ∷ p
add (a ∷ p) (b ∷ q) = plus a b ∷ add p q

-- A power x^32 in front is taken away with the generator.
abbrev reduce : Bool → Poly → Poly
reduce false r = r
reduce true r = add r generator

-- The remainder of r·x + m·x^32 by the generator, from a remainder r of degree below 32.
abbrev append_bit : Poly → Bool → Poly
append_bit [] m = []
append_bit (c ∷ r) m = reduce (plus c m) (r ++ (false ∷ []))

abbrev append_bits : Poly → List Bool → Poly
append_bits r [] = r
append_bits r (m ∷ ms) = append_bits (append_bit r m) ms

-- The bits of a byte, the lowest first, and of a message.
abbrev is_odd : ℕ → Bool
is_odd n = n % 2 == 1

abbrev low_bits : ℕ → ℕ → List Bool
low_bits zero b = []
low_bits (suc k) b = is_odd b ∷ low_bits k (b / 2)

abbrev message_bits : List ℕ → List Bool
message_bits [] = []
message_bits (b ∷ bs) = low_bits 8 b ++ message_bits bs

abbrev ones : Poly
ones = replicate 32 true

-- The word whose lowest bit is the coefficient of the highest power.
abbrev digit : Bool → ℕ
digit false = 0
digit true = 1

abbrev reflected : Poly → ℕ
reflected [] = 0
reflected (c ∷ r) = digit c + 2 * reflected r

-- The register starts with ones, and is complemented at the end.
abbrev pub ieee_crc32 : List ℕ → ℕ
ieee_crc32 bs = reflected (add (append_bits ones (message_bits bs)) ones)

reflected-generator : reflected generator ≡ poly
reflected-generator = refl

plus-digit : (a b : Bool) → digit (plus a b) ≡ (digit a + digit b) % 2
plus-digit false false = refl
plus-digit false true = refl
plus-digit true false = refl
plus-digit true true = refl

digit-lt : (a : Bool) → digit a < 2
digit-lt false = omega arith
digit-lt true = omega arith

reflected-add :
    (p q : Poly) → length p ≡ length q → reflected (add p q) ≡ bit_xor (reflected p) (reflected q)
reflected-add [] [] h = refl
reflected-add [] (b ∷ q) h = absurd (omega (arith, h))
reflected-add (a ∷ p) [] h = absurd (omega (arith, h))
reflected-add (a ∷ p) (b ∷ q) h =
    let x = digit a + 2 * reflected p in
    let y = digit b + 2 * reflected q in
    let above_x : x / 2 ≡ reflected p = omega (arith, digit-lt a) in
    let above_y : y / 2 ≡ reflected q = omega (arith, digit-lt b) in
    let above : bit_xor (x / 2) (y / 2) ≡ bit_xor (reflected p) (reflected q) =
      ap₂ bit_xor above_x above_y in
    omega (arith, bit_xor_step x y, above, reflected-add p q (omega (arith, h)), plus-digit a b)

length-add : (p q : Poly) → length (add p q) ≡ length p
length-add [] q = refl
length-add (a ∷ p) [] = refl
length-add (a ∷ p) (b ∷ q) = ap suc (length-add p q)

reflected-shifted : (r : Poly) → reflected (r ++ (false ∷ [])) ≡ reflected r
reflected-shifted [] = refl
reflected-shifted (c ∷ r) = ap (λ (n : ℕ). digit c + 2 * n) (reflected-shifted r)

reflected-lt : (r : Poly) → reflected r < 2 ^ length r
reflected-lt [] = omega arith
reflected-lt (c ∷ r) = omega (arith, reflected-lt r, digit-lt c, pow-suc 2 (length r))

length-reduce : (b : Bool) (r : Poly) → length (reduce b r) ≡ length r
length-reduce false r = refl
length-reduce true r = length-add r generator

length-append_bit : (r : Poly) (m : Bool) → length (append_bit r m) ≡ length r
length-append_bit [] m = refl
length-append_bit (c ∷ r) m =
    length-reduce (plus c m) (r ++ (false ∷ [])) ∙ omega (arith, length-append r (false ∷ []))

is_odd-digit : (b : ℕ) → digit (is_odd b) ≡ b % 2
is_odd-digit b = ground arith

-- What a round folds in is the generator, where a power x^32 has come up.
fold_lem :
    (r : Poly) (b : Bool) (z : ℕ)
    → length r ≡ 31
    → z < 2 ^ 32
    → bit_xor (bit_xor (reflected r) z) (folded (digit b))
      ≡ bit_xor (reflected (reduce b (r ++ (false ∷ [])))) z
fold_lem r false z h p =
    bit_xor-zero (bit_xor (reflected r) z) ∙ ap (λ (n : ℕ). bit_xor n z) (sym (reflected-shifted r))
fold_lem r true z h p =
    let small : reflected r < 2 ^ 32 =
      let power : 2 ^ length r ≡ 2 ^ 31 = ap (λ (n : ℕ). 2 ^ n) h in
      omega (arith, reflected-lt r, power) in
    let long : length (r ++ (false ∷ [])) ≡ 32 = omega (arith, h, length-append r (false ∷ [])) in
    bit_xor_right_comm 32 (reflected r) z poly small p (omega arith)
    ∙ ap (λ (n : ℕ). bit_xor n z)
        (ap (λ (n : ℕ). bit_xor n poly) (sym (reflected-shifted r))
          ∙ sym (reflected-add (r ++ (false ∷ [])) generator long))

-- A round on a register with the bits of `b` in it.
crc_bit-append_bit :
    (r : Poly) (b : ℕ)
    → length r ≡ 32
    → b < 2 ^ 32
    → crc_bit (bit_xor (reflected r) b) ≡ bit_xor (reflected (append_bit r (is_odd b))) (b / 2)
crc_bit-append_bit [] b h p = absurd (omega (arith, h))
crc_bit-append_bit (c ∷ r) b h p =
    let x = digit c + 2 * reflected r in
    let front = plus c (is_odd b) in
    let xor = bit_xor_step x b in
    let above_x : x / 2 ≡ reflected r = omega (arith, digit-lt c) in
    let above : bit_xor x b / 2 ≡ bit_xor (reflected r) (b / 2) =
      omega (arith, xor, ap (λ (n : ℕ). bit_xor n (b / 2)) above_x) in
    let lowest : bit_xor x b % 2 ≡ digit front =
      omega (arith, xor, plus-digit c (is_odd b), is_odd-digit b) in
    crc_bit_lem (bit_xor x b)
    ∙ ap₂ (λ (m n : ℕ). bit_xor m (folded n)) above lowest
    ∙ fold_lem r front (b / 2) (omega (arith, h)) (omega arith)

crc_bits-append_bits :
    (k : ℕ) (r : Poly) (b : ℕ)
    → length r ≡ 32
    → b < 2 ^ k
    → b < 2 ^ 32
    → crc_bits k (bit_xor (reflected r) b) ≡ reflected (append_bits r (low_bits k b))
unfolding crc_bits
crc_bits-append_bits zero r b h p q =
    let none_left : b ≡ 0 = omega arith in
    ap (bit_xor (reflected r)) none_left ∙ bit_xor-zero (reflected r)
crc_bits-append_bits (suc k) r b h p q =
    ap (crc_bits k) (crc_bit-append_bit r b h q)
    ∙ crc_bits-append_bits k (append_bit r (is_odd b)) (b / 2) (length-append_bit r (is_odd b) ∙ h)
        (omega (arith, pow-suc 2 k)) (omega arith)

append_bits-append :
    (r : Poly) (ms ns : List Bool) → append_bits r (ms ++ ns) ≡ append_bits (append_bits r ms) ns
append_bits-append r [] ns = refl
append_bits-append r (m ∷ ms) ns = append_bits-append (append_bit r m) ms ns

length-append_bits : (r : Poly) (ms : List Bool) → length (append_bits r ms) ≡ length r
length-append_bits r [] = refl
length-append_bits r (m ∷ ms) = length-append_bits (append_bit r m) ms ∙ length-append_bit r m

crc_bytes-append_bits :
    (r : Poly) (bs : List ℕ)
    → length r ≡ 32
    → IsBytes bs
    → crc_bytes (reflected r) bs ≡ reflected (append_bits r (message_bits bs))
unfolding crc_bytes crc_byte
crc_bytes-append_bits r [] h ok = refl
crc_bytes-append_bits r (b ∷ bs) h (byte, ok) =
    let next = append_bits r (low_bits 8 b) in
    ap (λ (c : ℕ). crc_bytes c bs) (crc_bits-append_bits 8 r b h byte (omega arith))
    ∙ crc_bytes-append_bits next bs (length-append_bits r (low_bits 8 b) ∙ h) ok
    ∙ ap reflected (sym (append_bits-append r (low_bits 8 b) (message_bits bs)))

-- On every byte string, `ota_crc32` is the CRC-32 of IEEE 802.3, which zlib computes: the remainder
-- starts with 32 ones; each bit m of the message, the lowest of a byte first, turns r into the
-- remainder of r·x + m·x^32 by x^32 + x^26 + x^23 + x^22 + x^16 + x^12 + x^11 + x^10 + x^8 + x^7 + x^5
-- + x^4 + x^2 + x + 1; and the last one is complemented and read with its highest power as the lowest
-- bit.
pub ota_crc32-eq-ieee_crc32 : (bs : List ℕ) → IsBytes bs → ota_crc32 bs ≡ ieee_crc32 bs
unfolding ota_crc32
ota_crc32-eq-ieee_crc32 bs ok =
    let r = append_bits ones (message_bits bs) in
    ap (λ (c : ℕ). bit_xor c all_ones) (crc_bytes-append_bits ones bs refl ok)
    ∙ sym (reflected-add r ones (length-append_bits ones (message_bits bs)))
