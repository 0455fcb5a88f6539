-- ===== src/Pricing.antt =====
-- The money calculations that a cart view, a checkout quote and an order share.
pub mod Allocation
pub mod Coupons
pub mod Schedule
pub mod View
pub mod Bundles
pub mod CartView
mod Tests
