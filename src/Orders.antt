-- ===== src/Orders.antt =====
-- The life of an order: src/modules/orders/orders.service.ts after its creation.
pub mod Transitions
pub mod Triage
pub mod Writes
pub mod Frame
pub mod Fulfillment
pub mod Payment
pub mod Expiry
pub mod History
pub mod Freed
pub mod Runs
mod Tests
