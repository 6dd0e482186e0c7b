-- ===== src/License/Payload.antt =====
-- crates/farewell_license/src/payload.rs: the payload and its bytes.
pub mod Reader
pub mod RoundTrip
use farewell.Prelude.{
  ℕ, zero, suc, ◌+◌, ◌-◌, ◌^◌, Bool, true, false, not, List, [], ◌∷◌, ◌++◌, Bytes, length, ltb, leb,
  ◌==◌, if◌then◌else◌, bytes_eq, any,
}
use farewell.Bytes.{to_le}
use farewell.Bytes.Utf8.{is_utf8}
use farewell.License.Error
use farewell.License.Error.{
  LicenseError, Result, ok, err, bad_magic, payload_version, truncated, unknown_license_type,
  email_not_utf8, serial_not_ascii,
}
use farewell.License.Payload.Reader.{
  R, pure, fail, lift, ◌>>=◌, ℤ, read_exact, read_u8, read_u16, read_u32, read_i64, write_i64,
}

abbrev pub payload_magic : Bytes
payload_magic = b'F' ∷ b'L' ∷ b'W' ∷ b'1' ∷ []

abbrev pub major_version_current : ℕ
major_version_current = 1

abbrev pub supported_version : ℕ
supported_version = 1

pub data LicenseType : Type 0 where
  single duo quintet grant : LicenseType

-- The discriminant, `as u8`.
abbrev pub discriminant : LicenseType → ℕ
discriminant LicenseType.single = 0
discriminant LicenseType.duo = 1
discriminant LicenseType.quintet = 2
discriminant LicenseType.grant = 3

unfoldable pub from_u8 : ℕ → Result LicenseType
from_u8 v =
    if v == 0
    then ok LicenseType.single
    else if v == 1
    then ok LicenseType.duo
    else if v == 2
    then ok LicenseType.quintet
    else if v == 3
    then ok LicenseType.grant
    else err (unknown_license_type v)

abbrev pub max_devices_hint : LicenseType → ℕ
max_devices_hint LicenseType.single = 1
max_devices_hint LicenseType.duo = 2
max_devices_hint LicenseType.quintet = 5
max_devices_hint LicenseType.grant = 1

abbrev pub min_devices : LicenseType → ℕ
min_devices t = 1

pub record Payload : Type 0 where
  pub license_type : LicenseType
  pub major_version : ℕ
  pub purchased_unix : ℤ
  pub license_id : Bytes
  pub email : Bytes
  pub bound_serials : List Bytes

-- `is_ascii`
unfoldable pub is_ascii : Bytes → Bool
unfolding any
is_ascii bytes = not (any (λ b. leb 0x80 b) bytes)

unfoldable pub write_serials : List Bytes → Result Bytes
unfolding is_ascii
write_serials [] = ok []
write_serials (sn ∷ sns) =
    let more = write_serials sns in
    if not (is_ascii sn)
    then err serial_not_ascii
    else if ltb 255 (length sn)
    then err (truncated 0)
    else Error.◌>>=◌ more (λ rest. ok (length sn ∷ (sn ++ rest)))

-- The output once the serials are known.
abbrev pub layout : Payload → Bytes → Bytes
layout p serials =
    payload_magic
    ++ (supported_version
        ∷ (discriminant p.license_type
            ∷ (to_le 4 p.major_version
                ++ (write_i64 p.purchased_unix
                    ++ (p.license_id
                        ++ (to_le 2 (length p.email)
                            ++ (p.email ++ (length p.bound_serials ∷ serials))))))))

unfoldable pub to_bytes : Payload → Result Bytes
unfolding write_serials write_i64
to_bytes p =
    if ltb 65535 (length p.email)
    then err (truncated 0)
    else if ltb 255 (length p.bound_serials)
    then err (truncated 0)
    else Error.◌>>=◌ (write_serials p.bound_serials) (λ serials. ok (layout p serials))

unfoldable pub read_serials : ℕ → R (List Bytes)
unfolding is_ascii read_exact
read_serials zero = pure []
read_serials (suc n) = do
  sn_len ← read_u8
  sn ← read_exact sn_len
  if not (is_ascii sn) then fail serial_not_ascii else do sns ← read_serials n; pure (sn ∷ sns)

-- The part behind the version byte.
unfoldable pub read_fields : R Payload
unfolding from_u8 read_serials read_exact read_i64
read_fields = do
  lt_byte ← read_u8
  license_type ← lift (from_u8 lt_byte)
  major_version ← read_u32
  purchased_unix ← read_i64
  license_id ← read_exact 16
  email_len ← read_u16
  email ← read_exact email_len
  if not (is_utf8 email) then fail email_not_utf8 else do
    n_serials ← read_u8
    bound_serials ← read_serials n_serials
    pure (record {
      license_type = license_type;
      major_version = major_version;
      purchased_unix = purchased_unix;
      license_id = license_id;
      email = email;
      bound_serials = bound_serials;
    })

unfoldable pub read_payload : R Payload
unfolding read_fields read_exact
read_payload = do
  magic ← read_exact 4
  if not (bytes_eq magic payload_magic) then fail (bad_magic magic) else do
    payload_ver ← read_u8
    if not (payload_ver == supported_version)
        then fail (payload_version payload_ver supported_version)
        else read_fields

unfoldable pub from_bytes : Bytes → Result Payload
unfolding read_payload
from_bytes bytes = Error.◌>>=◌ (read_payload bytes) (λ r. ok r.0)
