-- ===== src/Format/Vault.antt =====
-- crates/farewell_format/src/vault.rs: an open vault, its content tree and its chunks on disk.
pub mod State
pub mod Raw
pub mod Queries
pub mod Files
pub mod Ranges
pub mod Paths
pub mod Folders
pub mod Keeps
pub mod Allocation
pub mod Spares
pub mod Mutations
pub mod Poisoned
pub mod Quiet
pub mod Overwrite
pub mod Growth
pub mod Stripes
pub mod ReadBack
pub mod Refusal
pub mod Publish
pub mod Commits
