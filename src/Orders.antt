-- ===== src/Orders.antt =====
-- packages/api/src/services/orderService.ts, a module for each group of its functions.
pub mod Notes
pub mod Confirm
pub mod Status
pub mod Cancel
pub mod Item
pub mod Create
pub mod Reprice
pub mod Measurements
pub mod Pay
pub mod Webhook
mod Tests
