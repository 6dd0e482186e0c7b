-- ===== src/Lib.antt =====
-- A model of the vault format of Farewell and of its licenses, with the theorems that make them
-- correct.
--
-- A vault is one file: a salt, a slot that wraps the keys, a metadata blob, and a region of chunks
-- of one size, each encrypted under a key of its own. One chunk holds the manifest, the tree of
-- files and folders; a file is a list of chunks.
--
-- What models what (paths from the repository's root):
--   * Format/Error.antt: crates/farewell_format/src/error.rs. `Result` has a third case, `panic`,
--     for an index out of range. Messages are constructors.
--   * Format/Disk.antt: the vault file as a whole, and the profiles of
--     crates/farewell_crypto/src/kdf.rs. Disk/Build.antt is `VaultBuilder`, Disk/Open.antt
--     `Vault::open`, Disk/Keys.antt the methods of vault.rs on the hardware keys of a file that is
--     not open. The slots region holds one slot.
--   * Format/Slot.antt: crates/farewell_format/src/slot.rs. Slot/Wrap.antt is `WrappedSlot::wrap`,
--     Slot/Unwrap.antt `try_unwrap` and `try_unwrap_all`, Slot/Keys.antt `read_enrollment`,
--     Slot/Enroll.antt `add_credential` and `remove_credential`. An authenticator of
--     crates/farewell_fido2/src/lib.rs is a function from candidates and a salt.
--     Slot/Contents.antt is the abstract view: a list of keys, and what the slot protects.
--   * Format/Fido2.antt: the trait and the mock of crates/farewell_fido2/src/lib.rs, and
--     `enroll_hw_key` of vault.rs.
--   * Format/Metadata.antt, Metadata/Seal.antt: crates/farewell_format/src/metadata.rs.
--   * Format/Buffer.antt: buffers that are read and written at offsets, where a write out of range
--     panics. Format/Draws.antt: code that draws random bytes and keeps no other state.
--   * Format/Manifest.antt, Format/Manifest/Codec.antt: crates/farewell_format/src/manifest.rs,
--     the tree in memory and its bytes. Codec/Parser.antt is `ManifestParser`.
--   * Format/Chunk.antt: crates/farewell_format/src/chunk.rs.
--   * Format/World.antt: what the crate calls and does not implement. The cipher, the hashes,
--     Argon2id, ML-DSA, the random source and the outcomes of file calls are fields of a record,
--     and `IsLawful` says what the code relies on. Calls whose outcome is chosen outside are
--     numbered by the vault's clock. A write that fails leaves a block of any content.
--   * Format/Vault/State.antt: `Vault` and `MountedLevel` of crates/farewell_format/src/vault.rs,
--     with the chunks region as a function from indices to blocks. An action returns the state
--     beside its result, for methods that fail have changed the state.
--   * Format/Vault/Raw.antt: the internals (`ensure_mutable`, `destructive_phase`,
--     `publish_manifest`, `allocate_chunks`, raw chunk I/O). Queries.antt, Files.antt,
--     Ranges.antt, Folders.antt: the methods, each whole, under the source's names. Paths.antt:
--     the helpers on paths.
--   * Format/Vault/Mutations.antt: the mutating methods as data, for statements on all of them.
--   * Format/Vault/Stripes.antt: where vault.rs puts a level's manifest.
--   * License.antt, License/Payload.antt, License/Verify.antt, License/Key.antt: payload.rs,
--     error.rs, verify.rs and key.rs of crates/farewell_license/src. The ECDSA library is a record
--     of tests; verification is modelled from the payload and the signature on that the token
--     holds. An i64 is an integer with its two's complement written out.
--   * Bytes.antt, Bytes/Utf8.antt and Bytes/Utf8/Lossy.antt: little-endian words, the test of
--     UTF-8 and the lossy reading of text, which the source takes from `byteorder` and from the
--     language.
--   * Prelude.antt: shared tests on numbers, lists, byte strings.
--   * Format/Examples.antt: a lawful world, small vaults, and runs.
-- The other files hold lemmas: Keeps, Quiet, Refusal and Poisoned on what an action leaves
-- alone, Allocation on what `allocate_chunks` hands out, Overwrite on `add_file` over a file
-- that exists, ReadBack on `read_file` behind `add_file`, Growth on the loop that grows a
-- file, Spares on what an action may overwrite before its destructive phase, Publish and
-- Commits on what a mutation that succeeds has done. Below Commits, Counter is on the counter
-- of the tree, Tree on any mutation that commits, Durable and Rollback on what the next
-- opening finds and on an older file put in place, Below, Emptied, Removed and Renamed on what
-- deleting and renaming a folder make of the tree. Below Format/Slot, Written, Layers, Payload
-- and Wrapped lead from `wrap` to the contents, Opened and Observed from the contents to what
-- the readers return, Labels is on labels, Kept, Added, Shifted and Removed on the changes of
-- a slot. Below Format/Disk, Whole says what a vault file holds and opens to, Prepared, First
-- and Built lead from `build` to it, Reopened is on opening what was built, Fido2/Opens on
-- opening with a key that the mock enrolled, Changed on the changes of its keys, and Laws
-- takes actions apart.
--
-- Numbers are natural numbers. A cast to fewer bits is written with its remainder, and a
-- subtraction that the source saturates is one that stops at 0. The counter is a u64 that
-- wraps. Two loops are on fuel. The growing of a file writes a byte at least in a round, so as
-- many rounds as bytes are missing are enough. The inner loop of the base 32 of a license key
-- has 12 bits at most and takes 5 of them in a round, so it is given two rounds.
--
-- Not modelled: the migration of vaults, the authenticator over USB, the state that an
-- authenticator keeps while it answers, the erasing of buffers, capacities of vectors, the
-- progress of a build, the dotted text form of licenses, and the crates on top of the format.
pub mod Bytes
pub mod Format
pub mod License
pub mod Prelude
