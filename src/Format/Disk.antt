-- ===== src/Format/Disk.antt =====
-- The vault file of crates/farewell_format/src/vault.rs as a whole: salt, slots, metadata blob, chunks;
-- and actions on it, with the profiles of the key derivation.
pub mod Build
pub mod Open
pub mod Keys
pub mod Prepared
pub mod First
pub mod Built
pub mod Reopened
pub mod Whole
pub mod Changed
pub mod Laws
use farewell.Prelude.{
  ℕ, ◌+◌, ◌*◌, Bool, false, Option, none, some, List, [], ◌∷◌, Bytes, codes, not, if◌then◌else◌,
}
use farewell.Format.Error
use farewell.Format.Error.{Result, ok, err, panic, FormatError, io, crypto, hardware_key_required}
use farewell.Format.World.{World}
use farewell.Format.Chunk.{crypto_result}
use farewell.Format.Draws.{D}
use farewell.Format.Manifest.{ChunkIndex}
use farewell.Format.Metadata.{Metadata}
use farewell.Format.Slot.{Entry}
use farewell.Format.Slot.Unwrap.{Authenticator, UnwrappedSlot, try_unwrap_all}
use farewell.Format.Slot.Keys.{read_enrollment}
use farewell.Format.Vault.State.{Vault, M}
use farewell.Format.Vault.Stripes.{manifest_chunk_for_slot}

-- `slot` is the slots region, which holds one slot. `clock` numbers the calls whose outcome is chosen
-- outside.
pub record Disk : Type 0 where
  pub salt : Bytes
  pub slot : Bytes
  pub metadata_blob : Bytes
  pub chunks : ChunkIndex → Bytes
  pub clock : ℕ

-- The whole of `Vault` but its path.
pub record Session : Type 0 where
  pub vault : Vault
  pub metadata : Metadata
  pub hw_key_count : Option ℕ

abbrev pub S {ℓ} : Type ℓ → Type ℓ
S A = Disk → Result A × Disk

module _ {ℓ} {A : Type ℓ} where
  abbrev pub pure : A → S A
  pure a d = (ok a, d)

  abbrev pub fail : FormatError → S A
  fail e d = (err e, d)

  -- `?` on a value that does not come from the disk.
  abbrev pub lift : Result A → S A
  lift r d = (r, d)

  -- Code that draws random bytes.
  abbrev pub draw : D A → S A
  draw m d = let (r, t) = m d.clock in (r, record d { clock = t })

  -- Code on the chunks of a vault of a number of chunks with no level mounted.
  abbrev pub on_chunks : ℕ → M A → S A
  on_chunks total_chunks m d =
      let (r, v) = m (record {
        file = d.chunks;
        clock = d.clock;
        total_chunks = total_chunks;
        mounted = none;
        poisoned = false;
      }) in
      (r, record d { chunks = v.file; clock = v.clock })

module _ {ℓ κ} {A : Type ℓ} {B : Type κ} where
  abbrev pub continue : Result A → (A → S B) → S B
  continue (ok a) f d = f a d
  continue (err e) f d = (err e, d)
  continue panic f d = (panic, d)

  infixl 5 ◌>>=◌ ◌>>◌
  abbrev pub ◌>>=◌ : S A → (A → S B) → S B
  ◌>>=◌ m f d = let (r, d') = m d in continue r f d'

  abbrev pub ◌>>◌ : S A → S B → S B
  m >> k = m >>= λ _. k

-- The time of the next outside call.
unfoldable pub tick : S ℕ
tick d = (ok d.clock, record d { clock = d.clock + 1 })

-- `put_slot` writes the slot, as the others write their region.
abbrev pub put_salt : Bytes → S (Unit {0})
put_salt b d = (ok tt, record d { salt = b })

abbrev pub put_slot : Bytes → S (Unit {0})
put_slot b d = (ok tt, record d { slot = b })

abbrev pub put_metadata : Bytes → S (Unit {0})
put_metadata b d = (ok tt, record d { metadata_blob = b })

module _ (w : World) where
  -- `seek` and `read_exact` of a region.
  unfoldable pub read_region : (Disk → Bytes) → S Bytes
  unfolding tick
  read_region region = tick >>= λ t. if w.read_exact t then (λ d. (ok (region d), d)) else fail io

  -- `write_all` of a region. A write that fails leaves any bytes there.
  unfoldable pub write_region : (Bytes → S (Unit {0})) → Bytes → S (Unit {0})
  unfolding tick
  write_region put block =
      tick >>= λ t. elim (w.write_all t) [ none ↦ put block | some torn ↦ put torn >> fail io ]

  -- `sync_all` and `durable_sync_file`
  unfoldable pub sync_disk : S (Unit {0})
  unfolding tick
  sync_disk = tick >>= λ t. if w.sync_all t then pure tt else fail io

  -- `manifest_chunk_for_slot`, from the master key on.
  unfoldable pub manifest_chunk_of : Bytes → ℕ → ℕ → ChunkIndex
  unfolding manifest_chunk_for_slot
  manifest_chunk_of master slot total_chunks =
      manifest_chunk_for_slot (w.derive_key_in (codes "farewell.manifest.chunk.v4") master) slot
        total_chunks

-- `KdfParams`
pub record KdfParams : Type 0 where
  pub memory_kib : ℕ
  pub iterations : ℕ
  pub parallelism : ℕ

abbrev pub production_params : KdfParams
production_params = record { memory_kib = 1024 * 1024; iterations = 4; parallelism = 4 }

abbrev pub dev_params : KdfParams
dev_params = record { memory_kib = 32 * 1024; iterations = 2; parallelism = 1 }

-- The profile of vaults without hardware keys, in a build that is neither a test nor `dev-kdf`.
abbrev pub kdf_pp : KdfParams
kdf_pp = production_params

abbrev pub kdf_hw : KdfParams
kdf_hw = dev_params

abbrev pub kdf_candidates : List KdfParams
kdf_candidates = kdf_hw ∷ kdf_pp ∷ []

module _ (w : World) where
  -- `kdf::derive`
  unfoldable pub derive : Bytes → Bytes → KdfParams → Result Bytes
  unfolding crypto_result
  derive passphrase salt params =
      crypto_result
        (w.argon2id params.memory_kib params.iterations params.parallelism passphrase salt)
