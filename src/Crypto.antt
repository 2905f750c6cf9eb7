-- ===== src/Crypto.antt =====
-- pdo::crypto (common/crypto), as far as it is more than calls of OpenSSL.
pub mod Skenc
pub mod Keys
