-- ===== src/Types.antt =====
-- bcws/blockchain_types.py: transactions and blocks, their text form and their hash.
pub mod Transaction
pub mod Block
pub mod RoundTrip
pub mod Parsed
pub mod Signing
pub mod Json
