-- ===== src/Booking.antt =====
-- backend/internal/httpserver/stay_handlers.go with the parts of backend/internal/store that its two
-- writing handlers call: the idempotency keys, the revalidation of a commitment and the stays.
pub mod Keys
pub mod Tables
pub mod Authority
pub mod Requests
pub mod Handlers
pub mod Events
pub mod Replay
pub mod Settled
pub mod Outcomes
pub mod History
pub mod Once
pub mod Accounts
pub mod Fit
pub mod Commitments
mod Examples
