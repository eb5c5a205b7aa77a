-- ===== src/Crc32/Detect.antt =====
-- What the CRC of firmware/src/ota/crc32.c detects: every change confined to four bytes in a row.
use rp2040_eth_panel.Prelude.{
  ℕ, suc, ◌+◌, ◌*◌, ◌^◌, ◌≤◌, ◌<◌, bit_xor, List, [], ◌∷◌, ◌++◌, ◌≡◌, refl, ap, ap₂, ◌∙◌, sym,
  length, arith,
}
use rp2040_eth_panel.Prelude.Bits.{bit_xor-zero}
use rp2040_eth_panel.Prelude.Bits.Xor.{
  bit_xor-lt, bit_xor_cancel, bit_xor_comm, bit_xor_assoc, bit_xor_fields,
}
use rp2040_eth_panel.Crc32.{all_ones, crc_bits, crc_byte, crc_bytes, ota_crc32}
use rp2040_eth_panel.Crc32.Step.{crc_bits_linear, crc_bits_injective}
use rp2040_eth_panel.Crc32.Bytes.{IsBytes, crc_byte-lt, crc_bytes-lt}

bit_xor_left_injective :
    (k s x y : ℕ) → s < 2 ^ k → x < 2 ^ k → y < 2 ^ k → bit_xor s x ≡ bit_xor s y → x ≡ y
bit_xor_left_injective k s x y p q r e =
    sym (bit_xor_cancel k x s q p)
    ∙ ap (λ (t : ℕ). bit_xor t s) (bit_xor_comm k x s q p ∙ e ∙ bit_xor_comm k s y p r)
    ∙ bit_xor_cancel k y s r p

bit_xor_right_injective :
    (k x y s : ℕ) → x < 2 ^ k → y < 2 ^ k → s < 2 ^ k → bit_xor x s ≡ bit_xor y s → x ≡ y
bit_xor_right_injective k x y s p q r e =
    sym (bit_xor_cancel k x s p r) ∙ ap (λ (t : ℕ). bit_xor t s) e ∙ bit_xor_cancel k y s q r

-- The state before a suffix can be told from the state behind it.
crc_bytes_injective :
    (bs : List ℕ) (c d : ℕ)
    → c < 2 ^ 32
    → d < 2 ^ 32
    → IsBytes bs
    → crc_bytes c bs ≡ crc_bytes d bs
    → c ≡ d
unfolding crc_bytes crc_byte
crc_bytes_injective [] c d p q h e = e
crc_bytes_injective (b ∷ bs) c d p q h e =
    let wide : b < 2 ^ 32 = omega arith in
    let behind =
      crc_bytes_injective bs (crc_byte c b) (crc_byte d b) (crc_byte-lt c b p wide)
        (crc_byte-lt d b q wide) h.1 e in
    bit_xor_right_injective 32 c d b p q wide (
      crc_bits_injective 8 (bit_xor c b) (bit_xor d b) (bit_xor-lt 32 c b p wide)
        (bit_xor-lt 32 d b q wide) behind)

crc_bytes-append : (xs ys : List ℕ) (c : ℕ) → crc_bytes c (xs ++ ys) ≡ crc_bytes (crc_bytes c xs) ys
unfolding crc_bytes
crc_bytes-append [] ys c = refl
crc_bytes-append (x ∷ xs) ys c = crc_bytes-append xs ys (crc_byte c x)

-- The little-endian number of some bytes, and the rounds that they take.
pub little_endian : List ℕ → ℕ
little_endian [] = 0
little_endian (b ∷ bs) = little_endian bs * 2 ^ 8 + b

abbrev rounds : List ℕ → ℕ
rounds [] = 0
rounds (b ∷ bs) = suc (suc (suc (suc (suc (suc (suc (suc (rounds bs))))))))

little_endian_injective :
    (xs ys : List ℕ)
    → length xs ≡ length ys
    → IsBytes xs
    → IsBytes ys
    → little_endian xs ≡ little_endian ys
    → xs ≡ ys
unfolding little_endian
little_endian_injective [] [] e p q h = refl
little_endian_injective [] (y ∷ ys) e p q h = absurd (omega arith)
little_endian_injective (x ∷ xs) [] e p q h = absurd (omega arith)
little_endian_injective (x ∷ xs) (y ∷ ys) e p q h =
    ap₂ ◌∷◌ (omega arith) (little_endian_injective xs ys (omega arith) p.1 q.1 (omega arith))

rounds-length : (xs ys : List ℕ) → length xs ≡ length ys → rounds xs ≡ rounds ys
rounds-length [] [] e = refl
rounds-length [] (y ∷ ys) e = absurd (omega arith)
rounds-length (x ∷ xs) [] e = absurd (omega arith)
rounds-length (x ∷ xs) (y ∷ ys) e = omega (arith, rounds-length xs ys (omega arith))

-- Up to four bytes are folded in as one word.
crc_bytes_word :
    (s : ℕ) (bs : List ℕ)
    → s < 2 ^ 32
    → IsBytes bs
    → little_endian bs < 2 ^ 32
    → crc_bytes s bs ≡ crc_bits (rounds bs) (bit_xor s (little_endian bs))
unfolding crc_bytes crc_bits crc_byte little_endian
crc_bytes_word s [] p h q = sym (bit_xor-zero s)
crc_bytes_word s (b ∷ bs) p h q =
    crc_bytes_word (crc_byte s b) bs (crc_byte-lt s b p wide) h.1 (omega arith)
    ∙ ap (crc_bits (rounds bs)) (sym joined ∙ ap (crc_bits 8) regrouped)
  where
    wide : b < 2 ^ 32
    wide = omega arith

    joined :
        crc_bits 8 (bit_xor (bit_xor s b) (little_endian bs * 2 ^ 8))
        ≡ bit_xor (crc_byte s b) (little_endian bs)
    joined =
        crc_bits_linear 8 (bit_xor s b) (little_endian bs) (bit_xor-lt 32 s b p wide) (omega arith)

    regrouped :
        bit_xor (bit_xor s b) (little_endian bs * 2 ^ 8) ≡ bit_xor s (little_endian bs * 2 ^ 8 + b)
    regrouped =
        bit_xor_assoc 32 s b (little_endian bs * 2 ^ 8) p wide (omega arith)
        ∙ ap (bit_xor s) (bit_xor_fields 8 (little_endian bs) b (omega arith))

little_endian_four : (bs : List ℕ) → length bs ≤ 4 → IsBytes bs → little_endian bs < 2 ^ 32
unfolding little_endian
little_endian_four [] p h = omega arith
little_endian_four (a ∷ []) p h = omega arith
little_endian_four (a ∷ b ∷ []) p h = omega arith
little_endian_four (a ∷ b ∷ c ∷ []) p h = omega arith
little_endian_four (a ∷ b ∷ c ∷ d ∷ []) p h = omega arith
little_endian_four (a ∷ b ∷ c ∷ d ∷ e ∷ r) p h = absurd (omega arith)

module _ (s : ℕ) (ps : s < 2 ^ 32) where
  crc_bytes_burst :
      (xs ys : List ℕ)
      → length xs ≡ length ys
      → length xs ≤ 4
      → IsBytes xs
      → IsBytes ys
      → crc_bytes s xs ≡ crc_bytes s ys
      → xs ≡ ys
  crc_bytes_burst xs ys e four p q same =
      let lx = little_endian_four xs four p in
      let ly = little_endian_four ys (omega arith) q in
      let words : crc_bits (rounds xs) (bit_xor s (little_endian xs))
          ≡ crc_bits (rounds xs) (bit_xor s (little_endian ys)) =
        sym (crc_bytes_word s xs ps p lx)
        ∙ same
        ∙ crc_bytes_word s ys ps q ly
        ∙ ap (λ (t : ℕ). crc_bits t (bit_xor s (little_endian ys))) (sym (rounds-length xs ys e)) in
      little_endian_injective xs ys e p q (
        bit_xor_left_injective 32 s (little_endian xs) (little_endian ys) ps lx ly (
          crc_bits_injective (rounds xs) (bit_xor s (little_endian xs))
            (bit_xor s (little_endian ys)) (bit_xor-lt 32 s (little_endian xs) ps lx)
            (bit_xor-lt 32 s (little_endian ys) ps ly) words))

-- Two byte strings that differ only within four bytes in a row have different checksums: with
-- equal checksums, the two stretches `xs` and `ys` of the same length, at most four, are equal.
pub ota_crc32_burst :
    (before xs ys after : List ℕ)
    → IsBytes before
    → IsBytes after
    → IsBytes xs
    → IsBytes ys
    → length xs ≡ length ys
    → length xs ≤ 4
    → ota_crc32 (before ++ (xs ++ after)) ≡ ota_crc32 (before ++ (ys ++ after))
    → xs ≡ ys
unfolding ota_crc32
ota_crc32_burst before xs ys after hb ha hx hy e four same =
    let s = crc_bytes all_ones before in
    let ps = crc_bytes-lt all_ones before (omega arith) hb in
    crc_bytes_burst s ps xs ys e four hx hy (
      crc_bytes_injective after (crc_bytes s xs) (crc_bytes s ys) (crc_bytes-lt s xs ps hx)
        (crc_bytes-lt s ys ps hy) ha (sym (parts xs) ∙ states ∙ parts ys))
  where
    parts :
        (zs : List ℕ)
        → crc_bytes all_ones (before ++ (zs ++ after))
          ≡ crc_bytes (crc_bytes (crc_bytes all_ones before) zs) after
    parts zs =
        crc_bytes-append before (zs ++ after) all_ones
        ∙ crc_bytes-append zs after (crc_bytes all_ones before)

    bounded : (zs : List ℕ) → IsBytes zs → crc_bytes all_ones (before ++ (zs ++ after)) < 2 ^ 32
    bounded zs hz = rw (parts zs) (
        crc_bytes-lt (crc_bytes (crc_bytes all_ones before) zs) after
          (crc_bytes-lt (crc_bytes all_ones before) zs
            (crc_bytes-lt all_ones before (omega arith) hb) hz)
          ha)

    states :
        crc_bytes all_ones (before ++ (xs ++ after)) ≡ crc_bytes all_ones (before ++ (ys ++ after))
    states =
        bit_xor_right_injective 32 (crc_bytes all_ones (before ++ (xs ++ after)))
          (crc_bytes all_ones (before ++ (ys ++ after))) all_ones (bounded xs hx) (bounded ys hy)
          (omega arith) same
