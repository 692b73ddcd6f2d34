-- ===== src/Orders.antt =====
-- modules/order/order-status.ts, order-validation.ts and order-service.ts, with the queries of
-- infra/db/order-repository.ts that they use.
pub mod Status
pub mod Table
pub mod Cancel
pub mod Service
mod Samples
