-- ===== src/License/Verify/Laws.antt =====
-- Which licenses verify.rs accepts.
use farewell.Prelude.{
  ◌≡◌, refl, ap, ◌∙◌, sym, Bool, true, false, not, List, [], ◌∷◌, Bytes, length, ◌==◌, bytes_eq,
  any, arith, append-nil,
}
use mathlib.Core.Path.{subst}
use farewell.License.Error.{Result, ok, bind-eq-ok, passed}
use farewell.License.Payload.{Payload, from_bytes, to_bytes, major_version_current}
use farewell.License.Payload.RoundTrip.{IsPayload, from_bytes-to_bytes}
use farewell.License.Verify.{Ecdsa, verify_parts, verify_parts_for_this_mac}

not-false : (b : Bool) → not b ≡ false → b ≡ true
not-false true h = refl
not-false false h = cc

any-length : (f : Bytes → Bool) (xs : List Bytes) → any f xs ≡ true → (length xs == 0) ≡ false
unfolding any
any-length f [] h = cc
any-length f (x ∷ xs) h = ground arith

-- A license that this Mac accepts.
pub record IsAccepted (ecdsa : Ecdsa) (public_key payload_bytes signature_bytes this_sn : Bytes)
    (p : Payload) : Type 0 where
  pub key_read : ecdsa.is_sec1 public_key ≡ true
  pub signature_read : ecdsa.is_der signature_bytes ≡ true
  pub signed : ecdsa.verify public_key payload_bytes signature_bytes ≡ true
  pub parsed : from_bytes payload_bytes ≡ ok p
  pub current : (p.major_version == major_version_current) ≡ true
  pub bound : any (λ s. bytes_eq s this_sn) p.bound_serials ≡ true

module _ (ecdsa : Ecdsa) (public_key payload_bytes signature_bytes : Bytes) where
  verify_parts-eq-ok :
      (p : Payload)
      → verify_parts ecdsa public_key payload_bytes signature_bytes ≡ ok p
      → (ecdsa.is_sec1 public_key ≡ true)
        × (ecdsa.is_der signature_bytes ≡ true)
        × (ecdsa.verify public_key payload_bytes signature_bytes ≡ true)
        × (from_bytes payload_bytes ≡ ok p)
        × ((p.major_version == major_version_current) ≡ true)
  unfolding verify_parts
  verify_parts-eq-ok p h =
      let (key, h1) = passed (not (ecdsa.is_sec1 public_key)) _ _ h in
      let (der, h2) = passed (not (ecdsa.is_der signature_bytes)) _ _ h1 in
      let (signed, h3) =
        passed (not (ecdsa.verify public_key payload_bytes signature_bytes)) _ _ h2 in
      let (q, parsed, h4) = bind-eq-ok (from_bytes payload_bytes) _ h3 in
      let (current, h5) = passed (not (q.major_version == major_version_current)) _ _ h4 in
      let same : q ≡ p = cc h5 in
      (
        not-false _ key,
        not-false _ der,
        not-false _ signed,
        parsed ∙ ap ok same,
        ap (λ t. t.major_version == major_version_current) (sym same) ∙ not-false _ current,
      )

  -- A license that is accepted on a Mac has a valid signature over the payload that is returned, is
  -- for the current major version, and names the Mac's serial number.
  pub verify_parts_for_this_mac-IsAccepted :
      (serial : Result Bytes) (p : Payload)
      → verify_parts_for_this_mac ecdsa public_key payload_bytes signature_bytes serial ≡ ok p
      → (this_sn : Bytes) × (serial ≡ ok this_sn)
        × IsAccepted ecdsa public_key payload_bytes signature_bytes this_sn p
  unfolding verify_parts_for_this_mac
  verify_parts_for_this_mac-IsAccepted serial p h =
      let (q, verified, h1) =
        bind-eq-ok (verify_parts ecdsa public_key payload_bytes signature_bytes) _ h in
      let (some', h2) = passed (length q.bound_serials == 0) _ _ h1 in
      let (this_sn, read, h3) = bind-eq-ok serial _ h2 in
      let (bound, h4) = passed (not (any (λ s. bytes_eq s this_sn) q.bound_serials)) _ _ h3 in
      let same : q ≡ p = cc h4 in
      let (key, der, signed, parsed, current) = verify_parts-eq-ok q verified in
      (
        this_sn,
        read,
        subst (IsAccepted ecdsa public_key payload_bytes signature_bytes this_sn) same (record {
          key_read = key;
          signature_read = der;
          signed = signed;
          parsed = parsed;
          current = current;
          bound = not-false _ bound;
        }),
      )

  -- A license that was issued for the current major version and a list of serial numbers, and signed
  -- under the key, is accepted on a Mac whose serial number is in the list.
  pub verify_parts_for_this_mac-to_bytes :
      (p : Payload) (this_sn : Bytes)
      → IsPayload p
      → to_bytes p ≡ ok payload_bytes
      → ecdsa.is_sec1 public_key ≡ true
      → ecdsa.is_der signature_bytes ≡ true
      → ecdsa.verify public_key payload_bytes signature_bytes ≡ true
      → p.major_version ≡ major_version_current
      → any (λ s. bytes_eq s this_sn) p.bound_serials ≡ true
      → verify_parts_for_this_mac ecdsa public_key payload_bytes signature_bytes (ok this_sn) ≡ ok p
  unfolding verify_parts_for_this_mac verify_parts
  verify_parts_for_this_mac-to_bytes p this_sn typed written key der signed current bound =
      let parsed : from_bytes payload_bytes ≡ ok p =
        ap from_bytes (sym (append-nil payload_bytes))
        ∙ from_bytes-to_bytes p payload_bytes [] typed written in
      let version : (p.major_version == major_version_current) ≡ true = ground arith in
      rw (key, der, signed, parsed, version, any-length _ p.bound_serials bound, bound)
