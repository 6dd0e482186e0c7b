-- ===== src/Format/Disk/Open.antt =====
-- `Vault::open` of vault.rs.
use farewell.Prelude.{ℕ, false, Option, some, List, [], ◌∷◌, Bytes}
use farewell.Format.Error
use farewell.Format.Error.{Result, ok, err, panic, crypto, hardware_key_required}
use farewell.Format.Manifest.{Manifest, empty}
use farewell.Format.World.{World}
use farewell.Format.Metadata.{open_blob, fingerprint_from_vk}
use farewell.Format.Slot.Unwrap.{Authenticator, UnwrappedSlot, try_unwrap_all}
use farewell.Format.Vault.State.{MountedLevel}
use farewell.Format.Vault.Raw.{read_chunk_raw}
use farewell.Format.Vault.Commits.Reopen.{read_manifest}
use farewell.Format.Disk.{
  Session, S, KdfParams, kdf_candidates, derive, lift, on_chunks, read_region, manifest_chunk_of,
  ◌>>=◌, ◌>>◌,
}

-- What a candidate's unwrapping means to the loop, `later` being the rounds behind it.
abbrev pub or_next : Result UnwrappedSlot → Result UnwrappedSlot → Result UnwrappedSlot
or_next panic later = panic
or_next (ok u) later = ok u
or_next (err hardware_key_required) later = err hardware_key_required
or_next (err e) later = later

module _ (w : World) where
  -- The loop over the profiles, which are tried in turn.
  unfoldable pub unlock :
      List KdfParams → Bytes → Bytes → List Bytes → Option Authenticator → Result UnwrappedSlot
  unlock [] passphrase salt slots authenticator = err crypto
  unlock (cand ∷ rest) passphrase salt slots authenticator =
      Error.◌>>=◌ (derive w passphrase salt cand) (λ pp_key.
        or_next (try_unwrap_all w slots pp_key salt authenticator)
          (unlock rest passphrase salt slots authenticator))

  -- The level that an unwrapped slot mounts, with a content tree.
  abbrev pub level_of : Bytes → ℕ → ℕ → Manifest → MountedLevel
  level_of master slot total_chunks manifest = record {
    master = master;
    slot = slot;
    manifest_chunk = manifest_chunk_of w master slot total_chunks;
    manifest = manifest;
    off_limits = [];
  }

  -- `open_inner`. The first argument is what opening and locking the file returns.
  unfoldable pub open_inner : Result (Unit {0}) → Bytes → Option Authenticator → S Session
  open_inner opened passphrase authenticator = do
    lift opened
    salt ← read_region w (λ d. d.salt)
    slot ← read_region w (λ d. d.slot)
    metadata_blob ← read_region w (λ d. d.metadata_blob)
    primary ← lift (unlock kdf_candidates passphrase salt (slot ∷ []) authenticator)
    metadata ← lift (open_blob w metadata_blob primary.metadata_key salt)
    let total = metadata.total_chunks
    let mc = manifest_chunk_of w primary.master_key primary.slot total
    stored ← on_chunks total (read_chunk_raw w mc)
    manifest ← lift (read_manifest w (level_of primary.master_key primary.slot total empty) stored)
    λ d. (
      ok (record {
        vault = record {
          file = d.chunks;
          clock = d.clock;
          total_chunks = total;
          mounted = some (level_of primary.master_key primary.slot total manifest);
          poisoned = false;
        };
        metadata = metadata;
        hw_key_count = some primary.num_hw_keys;
      }),
      d,
    )

  -- `Vault::fingerprint`
  unfoldable pub fingerprint : Session → Bytes
  fingerprint s = fingerprint_from_vk w s.metadata.mldsa_vk

-- `Vault::hw_key_count`
unfoldable pub hw_key_count : Session → Option ℕ
hw_key_count s = s.hw_key_count
