-- ===== src/Queue.antt =====
-- backend/internal/offlinequeue: the durable queue of unconfirmed offline writes.
pub mod Operation
pub mod Store
pub mod Worker
mod Examples
