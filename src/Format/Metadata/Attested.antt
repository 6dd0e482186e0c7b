-- ===== src/Format/Metadata/Attested.antt =====
-- What the opening of a metadata blob has verified (metadata.rs).
use farewell.Prelude.{
  ℕ, ◌+◌, ◌≡◌, Bool, true, false, Bytes, ◌==◌, length, bytes_eq, arith, ltb, if◌then◌else◌,
}
use mathlib.Core.Path.{subst}
use farewell.Format.Error.{
  Result, ok, err, FormatError, require, crypto, not_a_vault, unsupported_version, manifest,
  metadata_length_mismatch, header_signature_invalid, too_small, >>=-eq-ok, require-eq-ok,
}
use farewell.Format.World.{World, nonce_len, tag_len}
use farewell.Format.Chunk.{crypto_result}
use farewell.Format.Buffer.{read}
use farewell.Format.Metadata.{
  Metadata, format_version, metadata_aad, metadata_blob_len, metadata_plaintext_len, metadata_magic,
  read_metadata, verify_attestation, signed_metadata_message, open_blob,
}

-- The metadata is of this version, and its signature under its own key is of the message for the
-- salt.
pub record IsAttested (w : World) (salt : Bytes) (m : Metadata) : Type 0 where
  pub version : m.version ≡ format_version
  pub is_key : w.mldsa_is_key m.mldsa_vk ≡ true
  pub signed :
      w.mldsa_verify m.mldsa_vk
        (signed_metadata_message m.version m.total_chunks salt m.mldsa_vk)
        m.mldsa_sig
      ≡ true

refused-eq-ok {ℓ} :
    {A : Type ℓ} (b : Bool) (e : FormatError) (r : Result A) {a : A}
    → (if b then err e else r) ≡ ok a
    → r ≡ ok a
refused-eq-ok false e r h = h
refused-eq-ok true e r h = cc

same_number : (a b : ℕ) → (a == b) ≡ true → a ≡ b
same_number a b h = ground (arith, h)

-- Metadata that a blob opens to is of this version, and its signature verifies under its own key for
-- the salt of the vault.
pub open_blob-IsAttested :
    (w : World) (blob metadata_key salt : Bytes) (m : Metadata)
    → open_blob w blob metadata_key salt ≡ ok m
    → IsAttested w salt m
unfolding open_blob verify_attestation
open_blob-IsAttested w blob metadata_key salt m h =
    let long = refused-eq-ok (ltb (length blob) metadata_blob_len) (too_small (length blob)) _ h in
    let (plain, opens, h1) =
      >>=-eq-ok
        (crypto_result (
          w.unseal metadata_key (read 0 nonce_len blob) metadata_aad
            (read nonce_len (metadata_plaintext_len + tag_len) blob)))
        _ long in
    let x = read_metadata plain in
    let (u1, right, h2) =
      >>=-eq-ok
        (require (length plain == metadata_plaintext_len) (manifest metadata_length_mismatch)) _
        h1 in
    let (u2, magic, h3) =
      >>=-eq-ok (require (bytes_eq (read 0 4 plain) metadata_magic) not_a_vault) _ h2 in
    let (u3, current, h4) =
      >>=-eq-ok (require (x.version == format_version) (unsupported_version x.version)) _ h3 in
    let (u4, attested, last) = >>=-eq-ok (verify_attestation w x salt) _ h4 in
    let (u5, is_key, verified) =
      >>=-eq-ok (require (w.mldsa_is_key x.mldsa_vk) crypto) _ attested in
    let same : x ≡ m = cc in
    let version : (x.version == format_version) ≡ true =
      require-eq-ok (x.version == format_version) (unsupported_version x.version) current in
    subst (IsAttested w salt) same (record {
      version = same_number x.version format_version version;
      is_key = require-eq-ok (w.mldsa_is_key x.mldsa_vk) crypto is_key;
      signed = require-eq-ok _ header_signature_invalid verified;
    })
