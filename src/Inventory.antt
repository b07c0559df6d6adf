-- ===== src/Inventory.antt =====
-- src/modules/inventory: stock movements, batches, low-stock alerts.
pub mod Types
pub mod Repositories
pub mod Alerts
pub mod Movement
pub mod Stock
pub mod Counts
pub mod Service
mod Tests
