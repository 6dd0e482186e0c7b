-- ===== src/Format/Metadata.antt =====
-- crates/farewell_format/src/metadata.rs: the encrypted metadata of a vault and its attestation.
pub mod Seal
pub mod RoundTrip
pub mod Attested
use farewell.Prelude.{
  ℕ, ◌+◌, Bool, true, false, not, List, [], ◌∷◌, ◌++◌, Bytes, codes, length, replicate, ltb, ◌==◌,
  bytes_eq, if◌then◌else◌,
}
use farewell.Bytes.{from_le, write_u16, write_u64}
use farewell.Format.Error.{
  Result, ok, err, too_small, manifest, metadata_length_mismatch, not_a_vault, unsupported_version,
  header_signature_invalid, crypto, require, ◌>>=◌, ◌>>◌,
}
use farewell.Format.World.{World, nonce_len, tag_len}
use farewell.Format.Chunk.{crypto_result}
use farewell.Format.Buffer.{read, write}

abbrev pub format_version : ℕ
format_version = 6

abbrev pub metadata_magic : Bytes
metadata_magic = codes "FRWL"

-- The identifiers of the algorithms: AEAD, KDF, KEM and signature.
abbrev pub algorithm_ids : Bytes
algorithm_ids = 1 ∷ 1 ∷ 1 ∷ 1 ∷ []

abbrev pub metadata_aad : Bytes
metadata_aad = codes "farewell.metadata.v6"

abbrev pub signed_message_domain : Bytes
signed_message_domain = codes "farewell.metadata.sig.v6"

-- The offsets in the plaintext.
abbrev pub off_version : ℕ
off_version = 4

abbrev pub off_ids : ℕ
off_ids = 6

abbrev pub off_total_chunks : ℕ
off_total_chunks = 10

abbrev pub off_vk : ℕ
off_vk = 18

-- The lengths are those of crates/farewell_crypto/src/sign.rs.
abbrev pub mldsa_vk_len : ℕ
mldsa_vk_len = 2592

abbrev pub mldsa_sig_len : ℕ
mldsa_sig_len = 4627

abbrev pub off_sig : ℕ
off_sig = off_vk + mldsa_vk_len

abbrev pub metadata_plaintext_len : ℕ
metadata_plaintext_len = off_sig + mldsa_sig_len

abbrev pub metadata_blob_len : ℕ
metadata_blob_len = nonce_len + metadata_plaintext_len + tag_len

pub record Metadata : Type 0 where
  pub version : ℕ
  pub total_chunks : ℕ
  pub mldsa_vk : Bytes
  pub mldsa_sig : Bytes

unfoldable pub signed_metadata_message : ℕ → ℕ → Bytes → Bytes → Bytes
signed_metadata_message version total_chunks salt mldsa_vk =
    signed_message_domain
    ++ (write_u16 version ++ (algorithm_ids ++ (write_u64 total_chunks ++ (salt ++ mldsa_vk))))

-- `Metadata::new`
unfoldable pub new : ℕ → Bytes → Bytes → Metadata
new total_chunks mldsa_vk mldsa_sig = record {
  version = format_version;
  total_chunks = total_chunks;
  mldsa_vk = mldsa_vk;
  mldsa_sig = mldsa_sig;
}

-- The plaintext: the fields, written at the offsets.
unfoldable pub write_metadata : Metadata → Result Bytes
unfolding write
write_metadata m = do
  p1 ← write 0 metadata_magic (replicate metadata_plaintext_len 0)
  p2 ← write off_version (write_u16 m.version) p1
  p3 ← write off_ids algorithm_ids p2
  p4 ← write off_total_chunks (write_u64 m.total_chunks) p3
  p5 ← write off_vk m.mldsa_vk p4
  write off_sig m.mldsa_sig p5

-- What the plaintext says, read at the offsets.
unfoldable pub read_metadata : Bytes → Metadata
unfolding read from_le
read_metadata plain = record {
  version = from_le (read off_version 2 plain);
  total_chunks = from_le (read off_total_chunks 8 plain);
  mldsa_vk = read off_vk mldsa_vk_len plain;
  mldsa_sig = read off_sig mldsa_sig_len plain;
}

module _ (w : World) where
  -- The one-shot attestation.
  unfoldable pub verify_attestation : Metadata → Bytes → Result (Unit {0})
  unfolding signed_metadata_message
  verify_attestation m salt = do
    require (w.mldsa_is_key m.mldsa_vk) crypto
    require
        (w.mldsa_verify m.mldsa_vk
          (signed_metadata_message m.version m.total_chunks salt m.mldsa_vk) m.mldsa_sig)
        header_signature_invalid

  -- `Metadata::open`. The length of the plaintext is tested, so no read is out of range.
  unfoldable pub open_blob : Bytes → Bytes → Bytes → Result Metadata
  unfolding crypto_result bytes_eq read
  open_blob blob metadata_key salt =
      if ltb (length blob) metadata_blob_len then err (too_small (length blob)) else do
        plain ← crypto_result (
            w.unseal metadata_key (read 0 nonce_len blob) metadata_aad
              (read nonce_len (metadata_plaintext_len + tag_len) blob))
        require (length plain == metadata_plaintext_len) (manifest metadata_length_mismatch)
        require (bytes_eq (read 0 4 plain) metadata_magic) not_a_vault
        let m = read_metadata plain
        require (m.version == format_version) (unsupported_version m.version)
        verify_attestation m salt
        ok m

  -- `fingerprint_from_vk`
  unfoldable pub fingerprint_from_vk : Bytes → Bytes
  fingerprint_from_vk mldsa_vk = w.derive_key_in (codes "farewell.vault.fingerprint.v5") mldsa_vk
