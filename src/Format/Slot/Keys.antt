-- ===== src/Format/Slot/Keys.antt =====
-- What slot.rs reads of the hardware keys of a slot, under the passphrase alone or with the output of
-- a key that is present.
use farewell.Prelude.{
  ℕ, zero, suc, ◌+◌, Option, none, some, List, [], ◌∷◌, Bytes, length, ◌==◌, if◌then◌else◌,
}
use farewell.Format.Error.{Result, ok, err, crypto, manifest, enrolled_key_required, ◌>>=◌}
use farewell.Format.World.{World}
use farewell.Format.Buffer.{read}
use farewell.Format.Slot.{
  label_len, label_offset, kwk_len, combine_key, no_hw_kwk, decode_label, decrypt_outer, read_count,
  read_credential, unseal_kwk,
}

-- The credentials and the labels of `k` entries from entry `i` on.
unfoldable pub read_keys : Bytes → ℕ → ℕ → Result (List Bytes × List Bytes)
unfolding read_credential decode_label read
read_keys inner i zero = ok ([], [])
read_keys inner i (suc k) = do
  cred ← read_credential inner i
  (creds, labels) ← read_keys inner (i + 1) k
  ok (cred ∷ creds, decode_label (read (label_offset i) label_len inner) ∷ labels)

-- A KWK that was decrypted, if it has the right length, else what follows.
abbrev pub accept : Option Bytes → Result Bytes → Result Bytes
accept none later = later
accept (some pt) later = if length pt == kwk_len then ok pt else later

module _ (w : World) where
  -- The number of keys, their credentials and their labels.
  unfoldable pub read_enrollment : Bytes → Bytes → Result (ℕ × List Bytes × List Bytes)
  unfolding decrypt_outer read_count read_keys
  read_enrollment slot passphrase_key = do
    inner ← decrypt_outer w slot passphrase_key
    (creds, labels) ← read_keys inner 0 (read_count inner)
    ok (read_count inner, creds, labels)

  -- The loop of `recover_kwk_with_hmac` over `k` entries from entry `i` on.
  unfoldable pub try_entries : Bytes → Bytes → ℕ → ℕ → Result Bytes
  try_entries combined inner i zero = err crypto
  try_entries combined inner i (suc k) =
      accept (unseal_kwk w combined inner i) (try_entries combined inner (i + 1) k)

  unfoldable pub recover_kwk_with_hmac : Bytes → ℕ → Bytes → Bytes → Result Bytes
  unfolding try_entries combine_key
  recover_kwk_with_hmac passphrase_key k inner hmac =
      try_entries (combine_key w passphrase_key hmac) inner 0 k

  -- `recover_hmac.ok_or_else(…)?`, and the recovery.
  unfoldable pub recover_present : Bytes → Bytes → Option Bytes → Result Bytes
  unfolding recover_kwk_with_hmac read_count
  recover_present passphrase_key inner none = err (manifest enrolled_key_required)
  recover_present passphrase_key inner (some hmac) =
      recover_kwk_with_hmac passphrase_key (read_count inner) inner hmac

  -- The KWK in `add_credential`.
  unfoldable pub present_kwk : Bytes → Bytes → Option Bytes → Result Bytes
  unfolding no_hw_kwk recover_present read_count
  present_kwk passphrase_key inner recover_hmac =
      if read_count inner == 0
      then ok (no_hw_kwk w passphrase_key)
      else recover_present passphrase_key inner recover_hmac
