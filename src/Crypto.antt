-- ===== src/Crypto.antt =====
-- The crypto layer (`src/crypto`).
pub mod Base64
pub mod Hex
pub mod KeyFile
pub mod Provider
pub mod Sm4Cipher
pub mod HmacSm3
pub mod Primitives
pub mod KeyManager
pub mod CryptoService
pub mod Sample
mod Tests
