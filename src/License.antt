-- ===== src/License.antt =====
-- crates/farewell_license/src: the signed payload of a license, its text as a key,
-- and what makes a license valid.
pub mod Error
pub mod Key
pub mod Payload
pub mod Verify
mod Examples
