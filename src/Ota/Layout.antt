-- ===== src/Ota/Layout.antt =====
-- firmware/src/ota/layout.h: the partition map, the limits and the boot-state record.
use rp2040_eth_panel.Prelude.{ℕ, ◌+◌, ◌-◌, List, [], ◌∷◌, ◌++◌, get_or, u8, ◌>>>◌, ◌*◌, ◌<◌, ◌^◌}

abbrev pub xip_base_addr : ℕ
xip_base_addr = 0x10000000

abbrev pub flash_total : ℕ
flash_total = 4194304

abbrev pub flash_sector : ℕ
flash_sector = 4096

-- FLASH_PAGE_SIZE of the Pico SDK.
abbrev pub flash_page_size : ℕ
flash_page_size = 256

abbrev pub bootloader_size : ℕ
bootloader_size = 0x040000

abbrev pub app_offset : ℕ
app_offset = 0x040000

abbrev pub app_xip_addr : ℕ
app_xip_addr = xip_base_addr + app_offset

abbrev pub app_vtable_addr : ℕ
app_vtable_addr = app_xip_addr + 0x100

abbrev pub bootstate_a_offset : ℕ
bootstate_a_offset = 0x3FE000

abbrev pub bootstate_b_offset : ℕ
bootstate_b_offset = 0x3FF000

abbrev pub app_max_size : ℕ
app_max_size = bootstate_a_offset - app_offset

abbrev pub enter_update_magic : ℕ
enter_update_magic = 0x0B00B1E5

abbrev pub max_boot_attempts : ℕ
max_boot_attempts = 3

abbrev pub chunk_size : ℕ
chunk_size = 1024

abbrev pub boot_state_magic : ℕ
boot_state_magic = 0x31545342

-- `boot_state_t`
pub record BootRecord : Type 0 where
  pub magic : ℕ
  pub seq : ℕ
  pub app_len : ℕ
  pub app_crc32 : ℕ
  pub app_valid : ℕ
  pub app_confirmed : ℕ
  pub boot_attempts : ℕ
  pub pad : ℕ
  pub crc32 : ℕ

-- A `uint32_t` in memory, least significant byte first.
abbrev pub word_bytes : ℕ → List ℕ
word_bytes v = u8 v ∷ u8 (v >>> 8) ∷ u8 (v >>> 16) ∷ u8 (v >>> 24) ∷ []

abbrev pub word_at : List ℕ → ℕ → ℕ
word_at bs i =
    get_or bs i 0
    + get_or bs (i + 1) 0 * 2 ^ 8
    + get_or bs (i + 2) 0 * 2 ^ 16
    + get_or bs (i + 3) 0 * 2 ^ 24

-- The bytes before the `crc32` field: `offsetof(boot_state_t, crc32)` is 20.
unfoldable pub head_bytes : BootRecord → List ℕ
head_bytes r =
    word_bytes r.magic
    ++ (word_bytes r.seq
        ++ (word_bytes r.app_len
            ++ (word_bytes r.app_crc32
                ++ (u8 r.app_valid ∷ u8 r.app_confirmed ∷ u8 r.boot_attempts ∷ u8 r.pad ∷ []))))

-- The struct in memory, 24 bytes.
unfoldable pub record_bytes : BootRecord → List ℕ
unfolding head_bytes
record_bytes r = head_bytes r ++ word_bytes r.crc32

-- The struct that some bytes are read as.
unfoldable pub record_of : List ℕ → BootRecord
record_of bs = record {
  magic = word_at bs 0;
  seq = word_at bs 4;
  app_len = word_at bs 8;
  app_crc32 = word_at bs 12;
  app_valid = get_or bs 16 0;
  app_confirmed = get_or bs 17 0;
  boot_attempts = get_or bs 18 0;
  pad = get_or bs 19 0;
  crc32 = word_at bs 20;
}

-- The fields fit their types.
pub record IsRecord (r : BootRecord) : Type 0 where
  pub magic_fits : r.magic < 2 ^ 32
  pub seq_fits : r.seq < 2 ^ 32
  pub len_fits : r.app_len < 2 ^ 32
  pub app_crc_fits : r.app_crc32 < 2 ^ 32
  pub valid_fits : r.app_valid < 256
  pub confirmed_fits : r.app_confirmed < 256
  pub attempts_fits : r.boot_attempts < 256
  pub pad_fits : r.pad < 256
  pub crc_fits : r.crc32 < 2 ^ 32
