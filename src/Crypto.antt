-- ===== src/Crypto.antt =====
-- src/crypto.rs: the key store, and its parts that need no token.
pub mod Signature
pub mod Pkcs11
pub mod Objects
pub mod Store
pub mod KeyStore
pub mod Token
pub mod Slots
pub mod Globals
