-- ===== src/Format/Error.antt =====
-- crates/farewell_format/src/error.rs, and results of fallible code. Where the source formats a
-- message into a `String`, the model has a constructor with the values that the message shows.
use farewell.Prelude.{ℕ, Bytes, Bool, true, false, ◌≡◌, refl}

pub data Message : Type 0 where
  truncated bad_manifest_magic non_utf8_name non_utf8_folder non_utf8_owner owner_too_long : Message
  unsupported_manifest_version : ℕ → Message
  no_level_mounted chunk_list_inconsistent : Message
  chunk_payload_too_large : ℕ → Message
  chunk_plaintext_length_mismatch chunk_declared_length_out_of_range : Message
  rename_would_overwrite : Bytes → Message
  slot_index_out_of_range credential_too_long invalid_hw_key_count : ℕ → Message
  invalid_credential_length key_index_out_of_range : ℕ → ℕ → Message
  too_many_hw_keys inner_length_mismatch master_length_mismatch master_tag_mismatch : Message
  unknown_credential kwk_length_mismatch invalid_new_credential no_free_hw_slot : Message
  enrolled_key_required last_hw_key metadata_length_mismatch : Message
  transport : Bytes → Message
  fido2_enroll fido2_challenge : Message
  expected_levels : ℕ → Message

-- `crypto` and `io` carry foreign errors, which are not told apart.
pub data FormatError : Type 0 where
  too_small unsupported_version : ℕ → FormatError
  not_a_vault wiped header_signature_invalid hardware_key_required already_locked : FormatError
  crypto io full invalid_name overflow session_poisoned manifest_overflow : FormatError
  manifest : Message → FormatError
  invalid_chunk : ℕ → FormatError
  file_not_found already_exists : Bytes → FormatError
  counter_rollback : ℕ → ℕ → FormatError

-- `panic` is a slice index out of range, which unwinds past every handler of the crate.
pub data Result {ℓ} (A : Type ℓ) : Type ℓ where
  ok : A → Result A
  err : FormatError → Result A
  panic : Result A

module _ {ℓ κ} {A : Type ℓ} {B : Type κ} where
  infixl 5 ◌>>=◌ ◌>>◌
  abbrev pub ◌>>=◌ : Result A → (A → Result B) → Result B
  panic >>= next = panic
  err e >>= next = err e
  ok a >>= next = next a

  -- What succeeds as a whole has succeeded step by step.
  pub >>=-eq-ok :
      (first : Result A) (next : A → Result B) {b : B}
      → (first >>= next) ≡ ok b
      → (a : A) × (first ≡ ok a) × (next a ≡ ok b)
  >>=-eq-ok panic next h = cc
  >>=-eq-ok (err e) next h = cc
  >>=-eq-ok (ok a) next h = (a, refl, h)

  abbrev pub ◌>>◌ : Result A → Result B → Result B
  first >> second = first >>= λ a. second

-- `if !test { return Err(e) }`
abbrev pub require : Bool → FormatError → Result (Unit {0})
require false e = err e
require true e = ok tt

pub require-eq-ok : (b : Bool) (e : FormatError) {u : Unit {0}} → require b e ≡ ok u → b ≡ true
require-eq-ok false e h = cc
require-eq-ok true e h = refl
