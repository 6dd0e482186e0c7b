-- ===== src/Format/Slot/Unwrap.antt =====
-- `WrappedSlot::try_unwrap` and `try_unwrap_all` of slot.rs, with an authenticator as a parameter.
use farewell.Prelude.{
  ℕ, zero, suc, ◌+◌, ◌-◌, Bool, true, false, Option, none, some, List, [], ◌∷◌, Bytes, length, take,
  drop, bytes_eq, ◌==◌, if◌then◌else◌,
}
use farewell.Bytes.{from_le}
use farewell.Format.Error.{
  Result, ok, err, panic, FormatError, crypto, manifest, hardware_key_required, require, transport,
  unknown_credential, kwk_length_mismatch, master_length_mismatch, master_tag_mismatch, ◌>>=◌, ◌>>◌,
}
use farewell.Format.World.{World, nonce_len}
use farewell.Format.Chunk.{crypto_result}
use farewell.Format.Buffer.{read}
use farewell.Format.Slot.{
  master_wrap_offset, master_wrap_len, master_wrap_payload_len, metadata_key_offset, kwk_len,
  master_key_len, metadata_key_len, master_aad, combine_key, no_hw_kwk, fido_salt_from_vault_salt,
  decrypt_outer, read_count, read_credential, unseal_kwk,
}

-- `Fido2Error`. The protocol code and the size are not told apart by the caller.
pub data FidoError : Type 0 where
  no_matching_credential user_cancelled protocol credential_too_large : FidoError
  transport_failed : Bytes → FidoError

-- What `challenge_response` returns: the credential and its hmac-secret output.
pub data Answer : Type 0 where
  recognized : Bytes → Bytes → Answer
  failed : FidoError → Answer

-- `Authenticator::challenge_response`: candidates, salt.
abbrev pub Authenticator : Type 0
Authenticator = List Bytes → Bytes → Answer

unfoldable pub map_fido_error : FidoError → FormatError
map_fido_error (transport_failed msg) = manifest (transport msg)
map_fido_error _ = crypto

unfoldable pub answered : Answer → Result (Bytes × Bytes)
unfolding map_fido_error
answered (recognized used_cred hw_output) = ok (used_cred, hw_output)
answered (failed e) = err (map_fido_error e)

pub record UnwrappedSlot : Type 0 where
  pub master_key : Bytes
  pub metadata_key : Bytes
  pub slot : ℕ
  pub num_hw_keys : ℕ

-- The candidates of `k` entries from entry `i` on.
unfoldable pub read_candidates : Bytes → ℕ → ℕ → Result (List Bytes)
unfolding read_credential
read_candidates inner i zero = ok []
read_candidates inner i (suc k) = do
  cred ← read_credential inner i
  rest ← read_candidates inner (i + 1) k
  ok (cred ∷ rest)

-- `candidates.iter().position(|c| c == &used_cred)`, from place `i` on.
unfoldable pub position_of : Bytes → ℕ → List Bytes → Result ℕ
unfolding bytes_eq
position_of used i [] = err (manifest unknown_credential)
position_of used i (c ∷ cs) =
    let later = position_of used (i + 1) cs in if bytes_eq c used then ok i else later

-- One round of the loop of `try_unwrap_all`, `later` being the rounds behind it.
abbrev pub tally :
    ℕ
    → Result UnwrappedSlot
    → Result (List UnwrappedSlot × Bool)
    → Result (List UnwrappedSlot × Bool)
tally idx panic later = panic
tally idx (ok u) later = later >>= λ r. ok (record u { slot = idx } ∷ r.0, r.1)
tally idx (err hardware_key_required) later = later >>= λ r. ok (r.0, true)
tally idx (err e) later = later

module _ (w : World) where
  unfoldable pub unwrap_kwk_via_authenticator :
      Bytes → Bytes → ℕ → Bytes → Authenticator → Result Bytes
  unfolding read_candidates answered position_of unseal_kwk combine_key crypto_result
      fido_salt_from_vault_salt
  unwrap_kwk_via_authenticator passphrase_key vault_salt k inner authenticator = do
    candidates ← read_candidates inner 0 k
    (used_cred, hw_output) ←
        answered (authenticator candidates (fido_salt_from_vault_salt w vault_salt))
    matched ← position_of used_cred 0 candidates
    kwk ← crypto_result (unseal_kwk w (combine_key w passphrase_key hw_output) inner matched)
    require (length kwk == kwk_len) (manifest kwk_length_mismatch)
    ok kwk

  -- `authenticator.ok_or(HardwareKeyRequired)?`
  unfoldable pub with_authenticator :
      Bytes → Bytes → ℕ → Bytes → Option Authenticator → Result Bytes
  unfolding unwrap_kwk_via_authenticator
  with_authenticator passphrase_key vault_salt k inner none = err hardware_key_required
  with_authenticator passphrase_key vault_salt k inner (some authenticator) =
      unwrap_kwk_via_authenticator passphrase_key vault_salt k inner authenticator

  unfoldable pub recover_kwk : Bytes → Bytes → Bytes → Option Authenticator → Result Bytes
  unfolding no_hw_kwk with_authenticator read_count
  recover_kwk passphrase_key vault_salt inner authenticator =
      if read_count inner == 0
      then ok (no_hw_kwk w passphrase_key)
      else with_authenticator passphrase_key vault_salt (read_count inner) inner authenticator

  -- The master key under the KWK, and the metadata key.
  unfoldable pub open_master : Bytes → Bytes → Result UnwrappedSlot
  unfolding crypto_result read from_le read_count
  open_master kwk inner = do
    payload ← crypto_result (
        w.unseal kwk (read master_wrap_offset nonce_len inner) master_aad
          (read (master_wrap_offset + nonce_len) (master_wrap_len - nonce_len) inner))
    require (length payload == master_wrap_payload_len) (manifest master_length_mismatch)
    require (from_le (drop master_key_len payload) == master_key_len) (manifest master_tag_mismatch)
    ok (record {
      master_key = take master_key_len payload;
      metadata_key = read metadata_key_offset metadata_key_len inner;
      slot = 0;
      num_hw_keys = read_count inner;
    })

  unfoldable pub try_unwrap : Bytes → Bytes → Bytes → Option Authenticator → Result UnwrappedSlot
  unfolding decrypt_outer recover_kwk open_master
  try_unwrap slot passphrase_key vault_salt authenticator = do
    inner ← decrypt_outer w slot passphrase_key
    kwk ← recover_kwk passphrase_key vault_salt inner authenticator
    open_master kwk inner

  -- The loop of `try_unwrap_all` over the slots from index `idx` on: the successes, and whether a
  -- slot needs a hardware key.
  unfoldable pub unwrap_each :
      ℕ → List Bytes → Bytes → Bytes → Option Authenticator → Result (List UnwrappedSlot × Bool)
  unfolding try_unwrap
  unwrap_each idx [] passphrase_key vault_salt authenticator = ok ([], false)
  unwrap_each idx (slot ∷ slots) passphrase_key vault_salt authenticator =
      tally idx (try_unwrap slot passphrase_key vault_salt authenticator)
        (unwrap_each (idx + 1) slots passphrase_key vault_salt authenticator)

  unfoldable pub unique : List UnwrappedSlot × Bool → Result UnwrappedSlot
  unique (u ∷ [], needs_hw) = ok u
  unique ([], true) = err hardware_key_required
  unique _ = err crypto

  unfoldable pub try_unwrap_all :
      List Bytes → Bytes → Bytes → Option Authenticator → Result UnwrappedSlot
  unfolding unwrap_each unique
  try_unwrap_all slots passphrase_key vault_salt authenticator = do
    r ← unwrap_each 0 slots passphrase_key vault_salt authenticator
    unique r
