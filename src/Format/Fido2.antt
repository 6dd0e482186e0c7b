-- ===== src/Format/Fido2.antt =====
-- crates/farewell_fido2/src/lib.rs: the trait of authenticators and the mock that implements it; and
-- `enroll_hw_key` of crates/farewell_format/src/vault.rs, which takes one.
pub mod Laws
pub mod Opens
use farewell.Prelude.{
  ℕ, ◌+◌, Bool, Option, none, some, List, [], ◌∷◌, Bytes, length, bytes_eq, if◌then◌else◌,
}
use farewell.Format.Error.{Result, ok, err, panic, manifest, fido2_enroll, fido2_challenge}
use farewell.Format.World.{World}
use farewell.Format.Draws.{D, pure, lift, ◌>>=◌}
use farewell.Format.Slot.{fido_salt_from_vault_salt}
use farewell.Format.Slot.Unwrap.{FidoError, no_matching_credential, Answer, recognized, failed}

-- What `enroll` returns.
pub data Enrolled : Type 0 where
  enrolled : Bytes → Enrolled
  refused : FidoError → Enrolled

-- `trait Authenticator`: `enroll` of a user handle, and `challenge_response` to candidates and a salt.
pub record Device {ℓ} (A : Type ℓ) : Type ℓ where
  pub enroll : A → Bytes → D (Enrolled × A)
  pub challenge_response : A → List Bytes → Bytes → Answer

-- `MockAuthenticator`: the map from credentials to keys has each credential once.
pub record MockAuthenticator : Type 0 where
  pub rp_id : Bytes
  pub creds : List (Bytes × Bytes)

-- `creds.get`
unfoldable pub get_cred : Bytes → List (Bytes × Bytes) → Option Bytes
get_cred cred [] = none
get_cred cred ((c, key) ∷ rest) =
    let later = get_cred cred rest in if bytes_eq c cred then some key else later

unfoldable pub drop_cred : Bytes → List (Bytes × Bytes) → List (Bytes × Bytes)
drop_cred cred [] = []
drop_cred cred ((c, key) ∷ rest) =
    let kept = drop_cred cred rest in if bytes_eq c cred then kept else (c, key) ∷ kept

-- `creds.insert`
abbrev pub insert_cred : Bytes → Bytes → List (Bytes × Bytes) → List (Bytes × Bytes)
insert_cred cred key creds = (cred, key) ∷ drop_cred cred creds

unfoldable pub new_mock : Bytes → MockAuthenticator
new_mock rp_id = record { rp_id = rp_id; creds = [] }

unfoldable pub enrolled_count : MockAuthenticator → ℕ
enrolled_count mock = length mock.creds

abbrev or_panic : Option Bytes → Result Bytes
or_panic none = panic
or_panic (some b) = ok b

module _ (w : World) where
  -- `Rng::fill`, which panics where the source fails.
  unfoldable pub fill_or_panic : ℕ → D Bytes
  fill_or_panic n t = (or_panic (w.fill t n), t + 1)

  -- `enroll` of the mock: a random credential of 64 bytes, and a random key.
  unfoldable pub mock_enroll : MockAuthenticator → Bytes → D (Enrolled × MockAuthenticator)
  mock_enroll mock user_handle = do
    cred ← fill_or_panic 64
    key ← fill_or_panic 32
    pure (enrolled cred, record mock { creds = insert_cred cred key mock.creds })

  abbrev answer_with : Bytes → Bytes → Option Bytes → Answer → Answer
  answer_with cand salt none later = later
  answer_with cand salt (some key) later = recognized cand (w.keyed_hash key salt)

  -- `challenge_response` of the mock: the first candidate that it has.
  unfoldable pub mock_challenge : MockAuthenticator → List Bytes → Bytes → Answer
  mock_challenge mock [] salt = failed no_matching_credential
  mock_challenge mock (cand ∷ rest) salt =
      answer_with cand salt (get_cred cand mock.creds) (mock_challenge mock rest salt)

  abbrev pub mock_device : Device MockAuthenticator
  mock_device = record { enroll = mock_enroll; challenge_response = mock_challenge }

abbrev cred_of : Enrolled → Result Bytes
cred_of (enrolled cred) = ok cred
cred_of (refused e) = err (manifest fido2_enroll)

abbrev output_of : Answer → Result Bytes
output_of (recognized cred out) = ok out
output_of (failed e) = err (manifest fido2_challenge)

-- `enroll_hw_key`: the credential and its output, and the authenticator.
unfoldable pub enroll_hw_key {ℓ} :
    {A : Type ℓ} → World → Device A → A → Bytes → Bytes → D ((Bytes × Bytes) × A)
enroll_hw_key w device a vault_salt user_handle = do
  (r, a') ← device.enroll a user_handle
  cred ← lift (cred_of r)
  out ← lift (
      output_of (device.challenge_response a' (cred ∷ []) (fido_salt_from_vault_salt w vault_salt)))
  pure ((cred, out), a')
