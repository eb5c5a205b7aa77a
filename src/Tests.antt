-- ===== src/Tests.antt =====
-- Runs of the model on concrete inputs.
pub mod Memory
mod Ota
mod Receiver
pub mod Update
pub mod Loop
mod SelfTest
mod Life
mod Polls
mod Panel
mod Wire
