-- ===== src/Sync.antt =====
-- src/modules/sync: the batches that an offline client sends.
pub mod Lamport
pub mod Payload
pub mod Batch
