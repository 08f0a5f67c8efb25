-- ===== src/Wiring.antt =====
-- src/main.rs: the parts of `start_ldk` that decide something themselves.
pub mod Seed
pub mod Tasks
pub mod Shutdown
pub mod Start
pub mod Started
pub mod Restart
pub mod Network
use yuv_lightning_ldk_sample.Prelude.{ℕ}
