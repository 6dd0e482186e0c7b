-- ===== src/License/Examples.antt =====
-- A license, issued and accepted.
use farewell.Prelude.{codes, ◌≡◌, refl, true, [], ◌∷◌, ◌++◌, Bytes, replicate, arith, any, bytes_eq}
use farewell.Bytes.Utf8.{is_utf8}
use farewell.License.Error.{Result, ok, err}
use farewell.License.Payload.{Payload, LicenseType, to_bytes, from_bytes}
use farewell.License.Payload.Reader.{ℤ}
use farewell.License.Payload.RoundTrip.{IsPayload, from_bytes-to_bytes}
use farewell.License.Verify.{Ecdsa, verify_parts_for_this_mac}
use farewell.License.Verify.Laws.{
  IsAccepted, verify_parts_for_this_mac-IsAccepted, verify_parts_for_this_mac-to_bytes,
}
use farewell.License.Key.{encode_key, decode_key}
use farewell.License.Key.RoundTrip.{decode_key-encode_key}

-- Signatures of one byte.
abbrev ecdsa : Ecdsa
ecdsa = record {
  is_sec1 = λ key. true;
  is_der = λ signature. true;
  verify = λ key payload signature. bytes_eq signature (1 ∷ []);
}

abbrev license : Payload
license = record {
  license_type = LicenseType.duo;
  major_version = 1;
  purchased_unix = ℤ.negsuc 4;
  license_id = replicate 16 7;
  email = b'a' ∷ b'@' ∷ b'b' ∷ [];
  bound_serials = (b'S' ∷ b'1' ∷ []) ∷ (b'S' ∷ b'2' ∷ []) ∷ [];
}

abbrev serial : Result Bytes
serial = ok (b'S' ∷ b'2' ∷ [])

abbrev value : Result Bytes → Bytes
value (ok bytes) = bytes
value (err e) = []

abbrev license_bytes : Bytes
license_bytes = value (to_bytes license)

written : to_bytes license ≡ ok license_bytes
unfolding to_bytes
written = refl

typed : IsPayload license
unfolding is_utf8 replicate
typed = record {
  major_u32 = omega arith;
  purchased_i64 = omega arith;
  id_16 = refl;
  email_utf8 = refl;
}

from_bytes-to_bytes_example : from_bytes (license_bytes ++ (9 ∷ [])) ≡ ok license
from_bytes-to_bytes_example = from_bytes-to_bytes license license_bytes (9 ∷ []) typed written

signed : ecdsa.verify [] license_bytes (1 ∷ []) ≡ true
unfolding bytes_eq
signed = refl

named : any (λ s. bytes_eq s (b'S' ∷ b'2' ∷ [])) license.bound_serials ≡ true
unfolding any bytes_eq
named = refl

verify_parts_for_this_mac-to_bytes_example :
    verify_parts_for_this_mac ecdsa [] license_bytes (1 ∷ []) (ok (b'S' ∷ b'2' ∷ [])) ≡ ok license
verify_parts_for_this_mac-to_bytes_example =
    verify_parts_for_this_mac-to_bytes ecdsa [] license_bytes (1 ∷ []) license (b'S' ∷ b'2' ∷ [])
      typed written refl refl signed refl named

accepted :
    verify_parts_for_this_mac ecdsa [] license_bytes (1 ∷ []) (ok (b'S' ∷ b'2' ∷ [])) ≡ ok license
accepted =
    verify_parts_for_this_mac-to_bytes ecdsa [] license_bytes (1 ∷ []) license (b'S' ∷ b'2' ∷ [])
      typed written refl refl signed refl named

verify_parts_for_this_mac-IsAccepted_example :
    (this_sn : Bytes) × (serial ≡ ok this_sn)
    × IsAccepted ecdsa [] license_bytes (1 ∷ []) this_sn license
verify_parts_for_this_mac-IsAccepted_example =
    verify_parts_for_this_mac-IsAccepted ecdsa [] license_bytes (1 ∷ []) (ok (b'S' ∷ b'2' ∷ []))
      license accepted

decode_key-encode_key_example :
    decode_key (encode_key (b'F' ∷ 0 ∷ 255 ∷ []) (1 ∷ 2 ∷ []))
    ≡ ok (b'F' ∷ 0 ∷ 255 ∷ [], 1 ∷ 2 ∷ [])
decode_key-encode_key_example =
    decode_key-encode_key (b'F' ∷ 0 ∷ 255 ∷ []) (1 ∷ 2 ∷ [])
      (omega arith, (omega arith, (omega arith, tt))) (omega arith, (omega arith, tt)) (omega arith)
      (omega arith)

-- `o-Bl` and ` 0b 1`
abbrev text : Bytes
text = codes "000GB-Z1A"

-- Small letters, look-alikes, a space for the dash, and a line feed.
abbrev retyped : Bytes
retyped = codes "oO0gb Z" ++ (10 ∷ b'l' ∷ b'A' ∷ [])
