-- ===== src/Tests.antt =====
-- Runs of the code at concrete inputs, and the libraries that they run with.
mod Sample
mod PaymentFiles
mod Sweeps
mod Texts
mod Peering
mod Commanding
mod Starting
mod Sessions
mod Wirings
mod Restarting
mod Nodes
mod Opening
use yuv_lightning_ldk_sample.Prelude.{ℕ}
