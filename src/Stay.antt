-- ===== src/Stay.antt =====
-- backend/internal/store/stay.go and expiry.go: the stay lifecycle, its capacity, and the expiry worker.
pub mod Model
pub mod Inventory
pub mod Rows
pub mod Ops
pub mod Changes
pub mod Conserved
pub mod History
pub mod Expiry
pub mod Progress
pub mod Lifecycle
mod Examples
