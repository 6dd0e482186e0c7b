-- ===== src/Format/Disk/Build.antt =====
-- `VaultBuilder` of vault.rs.
use farewell.Prelude.{
  ℕ, zero, suc, ◌+◌, ◌*◌, false, ◌||◌, Option, none, some, List, [], ◌∷◌, Bytes, length, ltb, max,
  if◌then◌else◌, ◌==◌,
}
use farewell.Format.Error.{Result, ok, err, panic, manifest, expected_levels}
use farewell.Format.Manifest.{Manifest, ChunkIndex, empty, validate_owner}
use farewell.Format.Manifest.Codec.{serialize}
use farewell.Format.World.{World}
use farewell.Format.Chunk.{chunk_stored_len, derive_chunk_key}
use farewell.Format.Draws
use farewell.Format.Draws.{D, fill}
use farewell.Format.Metadata.{Metadata, format_version, signed_metadata_message}
use farewell.Format.Metadata
use farewell.Format.Metadata.Seal.{seal}
use farewell.Format.Slot.{Entry, master_key_len, metadata_key_len}
use farewell.Format.Slot.Wrap.{wrap, fill_indistinguishable}
use farewell.Format.Vault.State
use farewell.Format.Vault.State.{Vault, M}
use farewell.Format.Vault.Raw.{num_slots, encrypt_chunk, write_chunk_raw}
use farewell.Format.Disk.{
  Disk, Session, S, KdfParams, kdf_hw, kdf_pp, derive, pure, lift, draw, on_chunks, tick,
  write_region, sync_disk, put_salt, put_slot, put_metadata, manifest_chunk_of, ◌>>=◌, ◌>>◌,
}
use farewell.Format.Disk.Open.{level_of}

pub record LevelSpec : Type 0 where
  pub passphrase : Bytes
  pub enrollment : List Entry

-- `VaultBuilder` but its path.
pub record Builder : Type 0 where
  pub levels : List LevelSpec
  pub capacity : ℕ
  pub explicit_salt : Option Bytes
  pub creator : Option Bytes

abbrev fresh : List LevelSpec → Builder
fresh levels = record { levels = levels; capacity = 16; explicit_salt = none; creator = none }

-- `VaultBuilder::new`
unfoldable pub builder : List LevelSpec → Result Builder
builder levels =
    if length levels == 0 || ltb num_slots (length levels)
    then err (manifest (expected_levels (length levels)))
    else ok (fresh levels)

unfoldable pub single_passphrase : Bytes → Builder
single_passphrase passphrase = fresh (record { passphrase = passphrase; enrollment = [] } ∷ [])

-- `owner.filter(|s| !s.is_empty())`
abbrev pub filled : Option Bytes → Option Bytes
filled none = none
filled (some []) = none
filled (some (c ∷ cs)) = some (c ∷ cs)

-- `VaultBuilder::owner`, `with_salt` and `total_chunks`
unfoldable pub with_owner : Builder → Option Bytes → Builder
with_owner b owner = record b { creator = filled owner }

unfoldable pub with_salt : Builder → Bytes → Builder
with_salt b salt = record b { explicit_salt = some salt }

unfoldable pub with_total_chunks : Builder → ℕ → Builder
with_total_chunks b n = record b { capacity = max n (2 * length b.levels) }

-- The light profile if a level enrolls a hardware key.
unfoldable pub build_kdf_params : List LevelSpec → KdfParams
build_kdf_params [] = kdf_pp
build_kdf_params (l ∷ ls) =
    let rest = build_kdf_params ls in if length l.enrollment == 0 then rest else kdf_hw

abbrev pub check_owner : Option Bytes → Result (Unit {0})
check_owner none = ok tt
check_owner (some o) = validate_owner o

-- `Manifest::empty` with an owner.
abbrev pub first_manifest : Option Bytes → Manifest
first_manifest owner = record empty { owner = owner }

module _ (w : World) where
  abbrev pub choose_salt : Option Bytes → D Bytes
  choose_salt none = fill w 32
  choose_salt (some s) = Draws.pure s

  -- The loop over the levels: the slot, and the master key of the level. A second level is an index
  -- out of range.
  unfoldable pub wrap_levels : KdfParams → Bytes → Bytes → List LevelSpec → S (Bytes × Option Bytes)
  wrap_levels params salt metadata_key [] = do
    slot ← draw (fill_indistinguishable w)
    pure (slot, none)
  wrap_levels params salt metadata_key (spec ∷ []) = do
    passphrase_key ← lift (derive w spec.passphrase salt params)
    master ← draw (fill w master_key_len)
    slot ← draw (wrap w passphrase_key master metadata_key spec.enrollment)
    pure (slot, some master)
  wrap_levels params salt metadata_key (spec ∷ _ ∷ _) = lift panic

  -- The loop that fills the chunks with random bytes, from chunk `i` on.
  unfoldable pub fill_chunks : ℕ → ChunkIndex → S (Unit {0})
  fill_chunks zero i = pure tt
  fill_chunks (suc rest) i = do
    block ← draw (fill w chunk_stored_len)
    write_region w (λ b d. (ok tt, record d { chunks = λ j. if j == i then b else d.chunks j }))
        block
    fill_chunks rest (i + 1)

  unfoldable pub write_empty_manifest_for : ℕ → Bytes → Option Bytes → ℕ → M (Unit {0})
  write_empty_manifest_for slot master owner total_chunks =
      State.◌>>=◌ (State.lift (serialize (first_manifest owner))) (λ bytes.
        let mc = manifest_chunk_of w master slot total_chunks in
        State.◌>>=◌ (encrypt_chunk w (derive_chunk_key w master mc) mc bytes)
          (λ stored. write_chunk_raw w mc stored))

  -- The manifest of the level that was wrapped, if there is one.
  abbrev pub write_first_manifest : Option Bytes → Option Bytes → ℕ → S (Unit {0})
  write_first_manifest none owner total = pure tt
  write_first_manifest (some master) owner total =
      on_chunks total (write_empty_manifest_for 0 master owner total)

  -- The vault that is returned, with the level mounted if there is one.
  abbrev pub session_of : Metadata → Option Bytes → Option Bytes → Disk → Session
  session_of metadata master owner d = record {
    vault = record {
      file = d.chunks;
      clock = d.clock;
      total_chunks = metadata.total_chunks;
      mounted = elim master [
        | none ↦ none
        | some m ↦ some (level_of w m 0 metadata.total_chunks (first_manifest owner))
      ];
      poisoned = false;
    };
    metadata = metadata;
    hw_key_count = none;
  }

  -- The vault's parts, drawn before the file is created: salt, slot, master key, metadata and blob.
  unfoldable pub prepare : Builder → S (Bytes × Bytes × Option Bytes × Metadata × Bytes)
  prepare b = do
    lift (check_owner b.creator)
    salt ← draw (choose_salt b.explicit_salt)
    metadata_key ← draw (fill w metadata_key_len)
    t ← tick
    let vk = (w.mldsa_generate t).1
    let signature =
        w.mldsa_sign (w.mldsa_generate t).0
          (signed_metadata_message format_version b.capacity salt vk)
    let metadata = Metadata.new b.capacity vk signature
    metadata_blob ← draw (seal w metadata metadata_key)
    (slot, master) ← wrap_levels (build_kdf_params b.levels) salt metadata_key b.levels
    pure (salt, slot, master, metadata, metadata_blob)

  -- `build_with_progress`. The first argument is what creating and locking the file returns; the disk
  -- that it starts on is the new file.
  unfoldable pub build : Result (Unit {0}) → Builder → S Session
  build created b = do
    (salt, slot, master, metadata, metadata_blob) ← prepare b
    lift created
    write_region w put_salt salt
    write_region w put_slot slot
    write_region w put_metadata metadata_blob
    fill_chunks b.capacity 0
    sync_disk w
    write_first_manifest master b.creator metadata.total_chunks
    sync_disk w
    λ d. (ok (session_of metadata master b.creator d), d)
