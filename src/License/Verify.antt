-- ===== src/License/Verify.antt =====
-- crates/farewell_license/src/verify.rs, from the payload and the signature that the token holds.
pub mod Laws
use farewell.Prelude.{
  ℕ, Bool, true, false, not, List, [], ◌∷◌, Bytes, length, ◌==◌, if◌then◌else◌, bytes_eq, any,
}
use farewell.License.Error.{
  Result, ok, err, ◌>>=◌, public_key_length, signature_length, invalid_signature,
  major_version_mismatch, unbound_license, serial_not_authorized,
}
use farewell.License.Payload.{Payload, from_bytes, major_version_current}

-- What the crate calls: `VerifyingKey::from_sec1_bytes` and `Signature::from_der`, whether they accept
-- their bytes, and `verify` on a key, a payload and a signature.
pub record Ecdsa : Type 0 where
  pub is_sec1 : Bytes → Bool
  pub is_der : Bytes → Bool
  pub verify : Bytes → Bytes → Bytes → Bool

module _ (ecdsa : Ecdsa) where
  -- `verify_token` behind `parse_token`.
  unfoldable pub verify_parts : Bytes → Bytes → Bytes → Result Payload
  verify_parts public_key payload_bytes signature_bytes =
      if not (ecdsa.is_sec1 public_key)
      then err (public_key_length (length public_key))
      else if not (ecdsa.is_der signature_bytes)
      then err (signature_length (length signature_bytes))
      else if not (ecdsa.verify public_key payload_bytes signature_bytes)
      then err invalid_signature
      else (from_bytes payload_bytes >>= λ payload.
          if not (payload.major_version == major_version_current)
          then err (major_version_mismatch payload.major_version major_version_current)
          else ok payload)

  -- `verify_for_this_mac` behind `parse_token`; `serial` is what the reader returns.
  unfoldable pub verify_parts_for_this_mac : Bytes → Bytes → Bytes → Result Bytes → Result Payload
  unfolding verify_parts
  verify_parts_for_this_mac public_key payload_bytes signature_bytes serial =
      verify_parts public_key payload_bytes signature_bytes >>= λ p.
      if length p.bound_serials == 0
      then err unbound_license
      else (serial >>= λ this_sn.
          if not (any (λ s. bytes_eq s this_sn) p.bound_serials)
          then err (serial_not_authorized this_sn p.bound_serials)
          else ok p)
