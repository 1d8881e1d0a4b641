-- ===== src/Decrypt.antt =====
-- The batch decryption (`src/decrypt`).
pub mod Record
pub mod Slots
pub mod Pipeline
pub mod Batch
mod Tests
