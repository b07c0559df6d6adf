-- ===== src/Inventory/Stock.antt =====
-- What the tables of src/modules/inventory satisfy between two operations, and the proofs that
-- stock movements keep it. An item's quantity is compared with the sum of its batches, as
-- `sumQuantity` of inventory-batches.repository.ts is there to do.
pub mod Sums
pub mod Labels
pub mod Fifo
pub mod Snapshot
pub mod Sound
pub mod Outflow
pub mod StockOut
pub mod Progress
pub mod Inflow
pub mod StockIn
pub mod Adjusting
pub mod Desync
use radha_backend.Prelude.{ℕ, ◌≡◌, none, some, Option}
use radha_backend.Prelude.Int.{ℤ, pos, ◌-ℤ◌, ◌≤ℤ◌}
use radha_backend.Prelude.{All}
