-- ===== src/Products.antt =====
-- src/modules/products: barcodes.
pub mod Ean
