-- ===== src/Did.antt =====
-- Seller identities: app/trust/identity.py. Bytes and characters are numbers.
pub mod Digits
pub mod Base58
pub mod Key
