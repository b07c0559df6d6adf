-- ===== src/Expiry.antt =====
-- src/modules/expiry: the classification of a batch by its date of expiry.
pub mod Rules
