-- ===== src/Crc32.antt =====
-- firmware/src/ota/crc32.c: `ota_crc32`, the reflected CRC-32 computed bit by bit.
pub mod Step
pub mod Bytes
pub mod Remainder
pub mod Detect
use rp2040_eth_panel.Prelude.{ℕ, zero, suc, ◌^◌, ◌-◌, bit_and, bit_xor, List, [], ◌∷◌, sub32, ◌>>>◌}

abbrev pub poly : ℕ
poly = 0xEDB88320

abbrev pub all_ones : ℕ
all_ones = 0xFFFFFFFF

-- One round: `crc = (crc >> 1) ^ (poly & (uint32_t)(-(int32_t)(crc & 1u)))`.
unfoldable pub crc_bit : ℕ → ℕ
crc_bit crc = bit_xor (crc >>> 1) (bit_and poly (sub32 0 (bit_and crc 1)))

-- `k` rounds of the inner loop.
unfoldable pub crc_bits : ℕ → ℕ → ℕ
unfolding crc_bit
crc_bits zero crc = crc
crc_bits (suc k) crc = crc_bits k (crc_bit crc)

-- One byte: `crc ^= data[i]` and the inner loop.
unfoldable pub crc_byte : ℕ → ℕ → ℕ
unfolding crc_bits
crc_byte crc b = crc_bits 8 (bit_xor crc b)

unfoldable pub crc_bytes : ℕ → List ℕ → ℕ
unfolding crc_byte
crc_bytes crc [] = crc
crc_bytes crc (b ∷ bs) = crc_bytes (crc_byte crc b) bs

unfoldable pub ota_crc32 : List ℕ → ℕ
unfolding crc_bytes
ota_crc32 bs = bit_xor (crc_bytes all_ones bs) all_ones
