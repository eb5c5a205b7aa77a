-- ===== src/Ota.antt =====
-- firmware/src/ota: the flash layout, the flash driver that the code calls, and the boot-state
-- record in its two sectors; firmware/bootloader: the decision at a reset, and the receiver.
pub mod Layout
pub mod Flash
pub mod BootState
pub mod Boot
pub mod Reader
pub mod Recovery
