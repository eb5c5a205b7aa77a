-- ===== src/Crc32/Bytes.antt =====
-- The checksum of bytes is a word (firmware/src/ota/crc32.c).
use rp2040_eth_panel.Prelude.{ℕ, ◌^◌, ◌<◌, bit_xor, List, [], ◌∷◌, All, arith}
use rp2040_eth_panel.Prelude.Bits.Xor.{bit_xor-lt}
use rp2040_eth_panel.Crc32.{all_ones, crc_byte, crc_bytes, ota_crc32}
use rp2040_eth_panel.Crc32.Step.{crc_bits-lt}

abbrev pub IsBytes : List ℕ → Type 0
IsBytes bs = All (λ b. b < 256) bs

pub crc_byte-lt : (c b : ℕ) → c < 2 ^ 32 → b < 2 ^ 32 → crc_byte c b < 2 ^ 32
unfolding crc_byte
crc_byte-lt c b p q = crc_bits-lt 8 (bit_xor c b) (bit_xor-lt 32 c b p q)

pub crc_bytes-lt : (c : ℕ) (bs : List ℕ) → c < 2 ^ 32 → IsBytes bs → crc_bytes c bs < 2 ^ 32
unfolding crc_bytes
crc_bytes-lt c [] p h = p
crc_bytes-lt c (b ∷ bs) p h = crc_bytes-lt (crc_byte c b) bs (crc_byte-lt c b p (omega arith)) h.1

pub ota_crc32-lt : (bs : List ℕ) → IsBytes bs → ota_crc32 bs < 2 ^ 32
unfolding ota_crc32
ota_crc32-lt bs h =
    bit_xor-lt 32 (crc_bytes all_ones bs) all_ones (crc_bytes-lt all_ones bs (omega arith) h)
      (omega arith)
