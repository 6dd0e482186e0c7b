-- ===== src/Format/Disk/Keys.antt =====
-- The methods of vault.rs on the hardware keys of a vault file that is not open.
use farewell.Prelude.{ℕ, Option, List, [], ◌∷◌, Bytes}
use farewell.Format.Error
use farewell.Format.Error.{Result, ok, err, panic, crypto}
use farewell.Format.World.{World}
use farewell.Format.Slot.{Entry, fido_salt_from_vault_salt}
use farewell.Format.Slot.Wrap.{wrap}
use farewell.Format.Slot.Unwrap.{Authenticator, try_unwrap}
use farewell.Format.Slot.Keys.{read_enrollment}
use farewell.Format.Slot.Enroll.{add_credential, remove_credential}
use farewell.Format.Disk.{
  S, KdfParams, kdf_candidates, kdf_pp, kdf_hw, derive, pure, lift, draw, read_region, write_region,
  put_slot, sync_disk, ◌>>=◌, ◌>>◌,
}

abbrev pub Enrollment : Type 0
Enrollment = ℕ × List Bytes × List Bytes

-- A profile under whose key the enrollment reads is taken, with what it reads.
abbrev pub or_other :
    Bytes → Result Enrollment → Result (Bytes × Enrollment) → Result (Bytes × Enrollment)
or_other key panic later = panic
or_other key (ok e) later = ok (key, e)
or_other key (err e) later = later

-- `new_params` of `reenroll_slot`: the profile that fits an enrollment.
abbrev pub params_for : List Entry → KdfParams
params_for [] = kdf_pp
params_for (e ∷ es) = kdf_hw

module _ (w : World) where
  -- The loop over the profiles that the four methods share.
  unfoldable pub find_key : List KdfParams → Bytes → Bytes → Bytes → Result (Bytes × Enrollment)
  find_key [] passphrase salt slot = err crypto
  find_key (cand ∷ rest) passphrase salt slot =
      Error.◌>>=◌ (derive w passphrase salt cand) (λ pp_key.
        or_other pp_key (read_enrollment w slot pp_key) (find_key rest passphrase salt slot))

  -- How the four methods begin: the file is opened and locked, salt and slot are read, and the
  -- profile is found.
  unfoldable pub with_key {ℓ} :
      {A : Type ℓ} → Result (Unit {0}) → Bytes → (Bytes → Bytes → Bytes → Enrollment → S A) → S A
  with_key opened passphrase f = do
    lift opened
    salt ← read_region w (λ d. d.salt)
    slot ← read_region w (λ d. d.slot)
    (pp_key, enrolled) ← lift (find_key kdf_candidates passphrase salt slot)
    f salt slot pp_key enrolled

  unfoldable pub slot_enrollment_info :
      Result (Unit {0}) → Bytes → S (Bytes × List Bytes × List Bytes × ℕ)
  slot_enrollment_info opened passphrase = with_key opened passphrase (λ salt slot pp_key enrolled.
      let (k, creds, labels) = enrolled in
      pure (fido_salt_from_vault_salt w salt, creds, labels, k))

  -- How the methods that write a slot end.
  unfoldable pub write_slot : Bytes → S (Unit {0})
  write_slot new_slot = write_region w put_slot new_slot >> sync_disk w

  unfoldable pub add_hw_credential :
      Result (Unit {0}) → Bytes → Option Bytes → Bytes → Bytes → Bytes → S (Unit {0})
  add_hw_credential opened passphrase recover_hmac new_cred new_hmac new_label =
      with_key opened passphrase (λ salt slot pp_key enrolled. do
        new_slot ← draw (add_credential w slot pp_key recover_hmac new_cred new_hmac new_label)
        write_slot new_slot)

  unfoldable pub remove_hw_credential : Result (Unit {0}) → Bytes → ℕ → S (Unit {0})
  remove_hw_credential opened passphrase index =
      with_key opened passphrase (λ salt slot pp_key enrolled. do
        new_slot ← draw (remove_credential w slot pp_key index)
        write_slot new_slot)

  unfoldable pub reenroll_slot :
      Result (Unit {0}) → Bytes → Option Authenticator → List Entry → S (Unit {0})
  reenroll_slot opened passphrase present_auth new_enrollment =
      with_key opened passphrase (λ salt slot pp_key enrolled. do
        unwrapped ← lift (try_unwrap w slot pp_key salt present_auth)
        new_pp ← lift (derive w passphrase salt (params_for new_enrollment))
        new_slot ← draw (wrap w new_pp unwrapped.master_key unwrapped.metadata_key new_enrollment)
        write_slot new_slot)
