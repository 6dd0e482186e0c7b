-- ===== src/Format.antt =====
-- crates/farewell_format/src: the vault format.
pub mod Error
pub mod Manifest
pub mod World
pub mod Buffer
pub mod Chunk
pub mod Disk
pub mod Draws
pub mod Fido2
pub mod Metadata
pub mod Slot
pub mod Vault
mod Examples
