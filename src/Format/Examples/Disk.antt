-- ===== src/Format/Examples/Disk.antt =====
-- A vault file, built, opened, and with its hardware keys changed.
use farewell.Prelude.{
  ◌≡◌, ◌<◌, refl, inl, inr, true, false, none, some, [], ◌∷◌, Bytes, codes, replicate, arith,
  bytes_eq, take, drop,
}
use farewell.Bytes.{to_le, from_le}
use farewell.Bytes.Utf8.{is_utf8}
use farewell.Bytes.Utf8.Lossy.{from_utf8_lossy}
use farewell.Format.Error.{Result, ok}
use farewell.Format.Manifest.{empty}
use farewell.Format.Manifest.Codec.{serialize}
use farewell.Format.Metadata.{Metadata}
use farewell.Format.Slot.{Entry, unseal_kwk}
use farewell.Format.Slot.Wrap.{wrap}
use farewell.Format.Slot.Unwrap.{Authenticator, recognized, try_unwrap}
use farewell.Format.Slot.Enroll.{add_credential, remove_credential}
use farewell.Format.Slot.Contents.{Contents, IsKey}
use farewell.Format.Slot.Opened.{Unlocks, first_with}
use farewell.Format.Disk.{Disk, Session, derive, read_region, write_region, sync_disk, tick}
use farewell.Format.Disk.Build.{
  LevelSpec, Builder, build, build_kdf_params, fill_chunks, first_manifest, prepare, wrap_levels,
  write_empty_manifest_for,
}
use farewell.Format.Disk.Open.{open_inner}
use farewell.Format.Disk.Keys.{
  add_hw_credential, remove_hw_credential, reenroll_slot, with_key, write_slot, find_key,
  params_for,
}
use farewell.Format.Disk.Prepared.{built_contents, IsBuilder}
use farewell.Format.Disk.First.{IsOwner}
use farewell.Format.Disk.Built.{IsBuilt, build-IsBuilt}
use farewell.Format.Disk.Whole.{IsVault, IsKeyOf, after_reads, session_on, open_inner-IsVault}
use farewell.Format.Disk.Reopened.{IsReopened, open_inner-build}
use farewell.Format.Disk.Changed.{
  remove_hw_credential-IsVault, add_hw_credential-IsVault, reenroll_slot-IsVault,
}
use farewell.Format.Examples.{calm, world-IsLawful}

abbrev key_a : Entry
key_a = record { credential_id = 9 ∷ []; hmac_output = replicate 32 5; label = codes "blue" }

abbrev key_b : Entry
key_b = record { credential_id = 8 ∷ 8 ∷ []; hmac_output = replicate 32 6; label = codes "red" }

abbrev spec : LevelSpec
spec = record { passphrase = codes "horse"; enrollment = key_a ∷ key_b ∷ [] }

abbrev ada_builder : Builder
ada_builder = record {
  levels = spec ∷ [];
  capacity = 4;
  explicit_salt = some (replicate 32 4);
  creator = some (codes "ada");
}

abbrev blank : Disk
blank = record { salt = []; slot = []; metadata_blob = []; chunks = λ i. []; clock = 0 }

abbrev built_disk : Disk
built_disk = (build calm (ok tt) ada_builder blank).1

abbrev nothing : Session
nothing = record {
  vault = record { file = λ i. []; clock = 0; total_chunks = 0; mounted = none; poisoned = false };
  metadata = record { version = 0; total_chunks = 0; mldsa_vk = []; mldsa_sig = [] };
  hw_key_count = none;
}

abbrev session_in : Result Session → Session
session_in (ok s) = s
session_in _ = nothing

abbrev session : Session
session = session_in (build calm (ok tt) ada_builder blank).0

returned {ℓ} : {A : Type ℓ} (p : Result A × Disk) {r : Result A} → p.0 ≡ r → p ≡ (r, p.1)
returned p h = λ i. (h i, p.1)

built : build calm (ok tt) ada_builder blank ≡ (ok session, built_disk)
unfolding build prepare wrap_levels wrap fill_chunks write_empty_manifest_for serialize replicate
    take drop to_le from_le tick derive write_region sync_disk build_kdf_params
    farewell.Format.Manifest.validate_owner farewell.Format.Metadata.Seal.seal
    farewell.Format.Metadata.new farewell.Format.Vault.Raw.encrypt_chunk
    farewell.Format.Vault.Raw.write_chunk_raw farewell.Format.Disk.manifest_chunk_of
    farewell.Format.Vault.Stripes.manifest_chunk_for_slot
built = returned (build calm (ok tt) ada_builder blank) refl

usable : (IsKey key_a) × (IsKey key_b) × Unit {0}
usable = (
  record { not_empty = omega arith; fits = omega arith },
  record { not_empty = omega arith; fits = omega arith },
  tt,
)

ada-IsBuilder : IsBuilder ada_builder spec
ada-IsBuilder = record {
  one_level = refl;
  capacity_u64 = omega arith;
  few = omega arith;
  usable = (usable.0, (usable.1, tt));
}

ada-IsOwner : IsOwner (some (codes "ada"))
unfolding is_utf8
ada-IsOwner = record { text = refl; filled = refl }

vault_built : IsBuilt calm ada_builder spec session built_disk
vault_built =
    build-IsBuilt calm (world-IsLawful (λ t. none) true) (ok tt) ada_builder spec session blank
      built_disk ada-IsBuilder ada-IsOwner built

build-IsBuilt_example : IsBuilt calm ada_builder spec session built_disk
build-IsBuilt_example =
    build-IsBuilt calm (world-IsLawful (λ t. none) true) (ok tt) ada_builder spec session blank
      built_disk ada-IsBuilder ada-IsOwner built

abbrev contents : Contents
contents =
    built_contents spec.enrollment vault_built.kwk vault_built.master_key vault_built.metadata_key

-- The light profile comes first.
found : IsKeyOf calm spec.passphrase built_disk.salt built_disk.slot vault_built.key
unfolding build_kdf_params
found = IsKeyOf.light vault_built.derived

-- The authenticator that holds the second key.
abbrev holds_b : Authenticator
holds_b creds salt = recognized key_b.credential_id key_b.hmac_output

unlocks :
    Unlocks calm
      (world-IsLawful (λ t. none) true)
      vault_built.key
      built_disk.salt
      spec.enrollment
      (some holds_b)
unfolding first_with bytes_eq
unlocks = Unlocks.present holds_b key_b refl (λ h. cc h) refl refl

open_inner-IsVault_example : open_inner calm (ok tt) spec.passphrase (some holds_b) built_disk ≡ (
  ok (
      session_on calm contents session.metadata
        (first_manifest (some (codes "ada")))
        (after_reads built_disk)),
  after_reads built_disk,
)
open_inner-IsVault_example =
    open_inner-IsVault calm (world-IsLawful (λ t. none) true) spec.passphrase vault_built.key
      contents session.metadata (first_manifest (some (codes "ada"))) built_disk (some holds_b)
      (λ t. refl) vault_built.is_vault found unlocks

abbrev reduced_disk : Disk
reduced_disk = (remove_hw_credential calm (ok tt) spec.passphrase 0 built_disk).1

reduced : remove_hw_credential calm (ok tt) spec.passphrase 0 built_disk ≡ (ok tt, reduced_disk)
unfolding build prepare wrap_levels wrap fill_chunks write_empty_manifest_for serialize replicate
    take drop to_le from_le tick derive write_region sync_disk build_kdf_params
    farewell.Format.Manifest.validate_owner farewell.Format.Metadata.Seal.seal
    farewell.Format.Metadata.new farewell.Format.Vault.Raw.encrypt_chunk
    farewell.Format.Vault.Raw.write_chunk_raw farewell.Format.Disk.manifest_chunk_of
    farewell.Format.Vault.Stripes.manifest_chunk_for_slot read_region with_key find_key write_slot
    farewell.Format.Slot.Keys.read_enrollment farewell.Format.Slot.until_zero from_utf8_lossy
    is_utf8 remove_hw_credential remove_credential
reduced = returned (remove_hw_credential calm (ok tt) spec.passphrase 0 built_disk) refl

remove_hw_credential-IsVault_example :
    (0 < 2)
    × (1 < 2)
    × IsVault calm vault_built.key
        (record contents { entries = key_b ∷ [] })
        session.metadata
        (first_manifest (some (codes "ada")))
        reduced_disk
remove_hw_credential-IsVault_example =
    remove_hw_credential-IsVault calm (world-IsLawful (λ t. none) true) spec.passphrase
      vault_built.key contents (ok tt) 0 session.metadata (first_manifest (some (codes "ada")))
      built_disk reduced_disk vault_built.is_vault found reduced

abbrev key_c : Entry
key_c = record { credential_id = 7 ∷ []; hmac_output = replicate 32 7; label = [] }

abbrev extended_disk : Disk
extended_disk =
    (add_hw_credential calm (ok tt) spec.passphrase (some key_a.hmac_output) key_c.credential_id
      key_c.hmac_output key_c.label built_disk).1

extended :
    add_hw_credential calm
      (ok tt)
      spec.passphrase
      (some key_a.hmac_output)
      key_c.credential_id
      key_c.hmac_output
      key_c.label
      built_disk
    ≡ (ok tt, extended_disk)
unfolding build prepare wrap_levels wrap fill_chunks write_empty_manifest_for serialize replicate
    take drop to_le from_le tick derive write_region sync_disk build_kdf_params
    farewell.Format.Manifest.validate_owner farewell.Format.Metadata.Seal.seal
    farewell.Format.Metadata.new farewell.Format.Vault.Raw.encrypt_chunk
    farewell.Format.Vault.Raw.write_chunk_raw farewell.Format.Disk.manifest_chunk_of
    farewell.Format.Vault.Stripes.manifest_chunk_for_slot read_region with_key find_key write_slot
    farewell.Format.Slot.Keys.read_enrollment farewell.Format.Slot.until_zero from_utf8_lossy
    is_utf8 add_hw_credential add_credential unseal_kwk
extended =
    returned
      (add_hw_credential calm (ok tt) spec.passphrase (some key_a.hmac_output) key_c.credential_id
        key_c.hmac_output key_c.label built_disk)
      refl

add_hw_credential-IsVault_example :
    IsVault calm vault_built.key
      (record contents { entries = key_a ∷ key_b ∷ key_c ∷ [] })
      session.metadata
      (first_manifest (some (codes "ada")))
      extended_disk
add_hw_credential-IsVault_example =
    add_hw_credential-IsVault calm (world-IsLawful (λ t. none) true) spec.passphrase vault_built.key
      contents (ok tt) (some key_a.hmac_output) key_c session.metadata
      (first_manifest (some (codes "ada"))) built_disk extended_disk vault_built.is_vault found
      (inr (key_a.hmac_output, refl, inl refl)) extended

-- The vault, turned into one that its passphrase alone opens.
abbrev plain_disk : Disk
plain_disk = (reenroll_slot calm (ok tt) spec.passphrase (some holds_b) [] built_disk).1

turned_plain :
    reenroll_slot calm (ok tt) spec.passphrase (some holds_b) [] built_disk ≡ (ok tt, plain_disk)
unfolding build prepare wrap_levels wrap fill_chunks write_empty_manifest_for serialize replicate
    take drop to_le from_le tick derive write_region sync_disk build_kdf_params
    farewell.Format.Manifest.validate_owner farewell.Format.Metadata.Seal.seal
    farewell.Format.Metadata.new farewell.Format.Vault.Raw.encrypt_chunk
    farewell.Format.Vault.Raw.write_chunk_raw farewell.Format.Disk.manifest_chunk_of
    farewell.Format.Vault.Stripes.manifest_chunk_for_slot read_region with_key find_key write_slot
    farewell.Format.Slot.Keys.read_enrollment farewell.Format.Slot.until_zero from_utf8_lossy
    is_utf8 reenroll_slot try_unwrap unseal_kwk
turned_plain =
    returned (reenroll_slot calm (ok tt) spec.passphrase (some holds_b) [] built_disk) refl

reenroll_slot-IsVault_example :
    (key' : Bytes) × (kwk : Bytes) × (derive calm spec.passphrase built_disk.salt (params_for [])
      ≡ ok key')
    × IsVault calm key'
        (record contents { entries = []; kwk = kwk })
        session.metadata
        (first_manifest (some (codes "ada")))
        plain_disk
reenroll_slot-IsVault_example =
    reenroll_slot-IsVault calm (world-IsLawful (λ t. none) true) spec.passphrase vault_built.key
      contents (ok tt) (some holds_b) [] session.metadata (first_manifest (some (codes "ada")))
      built_disk plain_disk vault_built.is_vault found unlocks (omega arith) tt turned_plain

open_inner-build_example :
    (s' : Session) × (open_inner calm (ok tt) spec.passphrase (some holds_b) built_disk
      ≡ (ok s', after_reads built_disk))
    × IsReopened session s'
open_inner-build_example =
    open_inner-build calm (world-IsLawful (λ t. none) true) (ok tt) ada_builder spec vault_built.key
      session (some holds_b) blank built_disk ada-IsBuilder ada-IsOwner built (λ t. refl)
      vault_built.derived found unlocks
