-- ===== src/License/Error.antt =====
-- crates/farewell_license/src/error.rs, and results of fallible code.
use farewell.Prelude.{ℕ, Bytes, List, Bool, true, false, ◌≡◌, refl, if◌then◌else◌}

-- What a foreign error or a message holds is left out.
pub data LicenseError : Type 0 where
  malformed_token base64 email_not_utf8 serial_not_ascii invalid_signature : LicenseError
  unbound_license serial_read_failed io : LicenseError
  bad_magic : Bytes → LicenseError
  payload_version : ℕ → ℕ → LicenseError
  truncated unknown_license_type signature_length public_key_length : ℕ → LicenseError
  major_version_mismatch : ℕ → ℕ → LicenseError
  serial_not_authorized : Bytes → List Bytes → LicenseError

pub data Result {ℓ} (A : Type ℓ) : Type ℓ where
  err : LicenseError → Result A
  ok : A → Result A

-- `?`
module _ {ℓ κ} {A : Type ℓ} {B : Type κ} where
  infixl 5 ◌>>=◌
  abbrev pub ◌>>=◌ : Result A → (A → Result B) → Result B
  err e >>= next = err e
  ok a >>= next = next a

  pub bind-eq-ok :
      (first : Result A) (next : A → Result B) {b : B}
      → (first >>= next) ≡ ok b
      → (a : A) × (first ≡ ok a) × (next a ≡ ok b)
  bind-eq-ok (err e) next h = cc
  bind-eq-ok (ok a) next h = (a, refl, h)

-- What succeeds has passed the test in front of it.
pub passed {ℓ} :
    {A : Type ℓ} (b : Bool) (e : LicenseError) (r : Result A) {a : A}
    → (if b then err e else r) ≡ ok a
    → (b ≡ false) × (r ≡ ok a)
passed true e r h = cc
passed false e r h = (refl, h)
