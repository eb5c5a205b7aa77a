-- ===== src/Ota/BootState/Codec.antt =====
-- The boot-state record as bytes (firmware/src/ota/layout.h) and back.
use rp2040_eth_panel.Prelude.{ℕ, ◌^◌, ◌<◌, ◌≡◌, refl, length, u8, arith}
use rp2040_eth_panel.Crc32.Bytes.{IsBytes}
use rp2040_eth_panel.Ota.Layout.{
  BootRecord, IsRecord, record_of, record_bytes, head_bytes, word_bytes, word_at,
}

pub length-record_bytes : (r : BootRecord) → length (record_bytes r) ≡ 24
unfolding record_bytes
length-record_bytes r = refl

pub head_bytes-IsBytes : (r : BootRecord) → IsBytes (head_bytes r)
unfolding head_bytes
head_bytes-IsBytes r = omega arith

word_split : (v : ℕ) → v < 2 ^ 32 → word_at (word_bytes v) 0 ≡ v
word_split v h = omega arith

byte_kept : (v : ℕ) → v < 256 → u8 v ≡ v
byte_kept v h = omega arith

-- A record whose fields fit their types is read back from its bytes.
pub record_of-record_bytes : (r : BootRecord) → IsRecord r → record_of (record_bytes r) ≡ r
unfolding record_of record_bytes
record_of-record_bytes r h = λ i. record {
  magic = word_split r.magic h.magic_fits i;
  seq = word_split r.seq h.seq_fits i;
  app_len = word_split r.app_len h.len_fits i;
  app_crc32 = word_split r.app_crc32 h.app_crc_fits i;
  app_valid = byte_kept r.app_valid h.valid_fits i;
  app_confirmed = byte_kept r.app_confirmed h.confirmed_fits i;
  boot_attempts = byte_kept r.boot_attempts h.attempts_fits i;
  pad = byte_kept r.pad h.pad_fits i;
  crc32 = word_split r.crc32 h.crc_fits i;
}
