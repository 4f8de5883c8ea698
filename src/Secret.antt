-- ===== src/Secret.antt =====
-- Keys and secrets (marie-core/src/secret): the manager of key epochs and the vault over it.
pub mod Manager
pub mod Rotation
pub mod Vault
pub mod VaultLaws
mod Examples
