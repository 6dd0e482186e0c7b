-- ===== src/Format/Examples/Fido2.antt =====
-- A key that is enrolled on the mock, and a vault that is built with it.
use farewell.Prelude.{
  ◌≡◌, refl, true, false, bytes_eq, none, some, [], ◌∷◌, Bytes, codes, replicate, take, drop, arith,
}
use farewell.Bytes.{to_le, from_le}
use farewell.Bytes.Utf8.{is_utf8}
use farewell.Format.Error.{Result, ok}
use farewell.Format.Manifest.Codec.{serialize}
use farewell.Format.Slot.{Entry}
use farewell.Format.Slot.Wrap.{wrap}
use farewell.Format.Disk.{Disk, Session, derive, write_region, sync_disk, tick}
use farewell.Format.Disk.Open.{open_inner}
use farewell.Format.Disk.Build.{
  Builder, build, build_kdf_params, fill_chunks, prepare, wrap_levels, write_empty_manifest_for,
}
use farewell.Format.Disk.Whole.{after_reads}
use farewell.Format.Disk.Reopened.{IsReopened}
use farewell.Format.Fido2.{
  MockAuthenticator, get_cred, drop_cred, fill_or_panic, mock_enroll, mock_challenge, mock_device,
  enroll_hw_key,
}
use farewell.Format.Fido2.Opens.{with_one_key, open_inner-enroll_hw_key}
use farewell.Format.Examples.{calm, world-IsLawful}

abbrev salt : Bytes
salt = replicate 32 4

abbrev enrolled_key : Entry
enrolled_key = record {
  credential_id = replicate 64 0;
  hmac_output = replicate 32 0;
  label = codes "mock";
}

abbrev empty_mock : MockAuthenticator
empty_mock = record { rp_id = codes "farewell.foundation"; creds = [] }

abbrev mock : MockAuthenticator
mock = record empty_mock { creds = (replicate 64 0, replicate 32 0) ∷ [] }

mock_enrolled :
    (enroll_hw_key calm (mock_device calm) empty_mock salt (codes "vault") 0).0
    ≡ ok ((enrolled_key.credential_id, enrolled_key.hmac_output), mock)
unfolding enroll_hw_key mock_enroll mock_challenge get_cred fill_or_panic replicate take bytes_eq
    drop_cred
mock_enrolled = refl

abbrev key_builder : Builder
key_builder = record {
  levels = with_one_key (codes "horse") enrolled_key ∷ [];
  capacity = 2;
  explicit_salt = some salt;
  creator = none;
}

abbrev blank : Disk
blank = record { salt = []; slot = []; metadata_blob = []; chunks = λ i. []; clock = 0 }

abbrev nothing : Session
nothing = record {
  vault = record { file = λ i. []; clock = 0; total_chunks = 0; mounted = none; poisoned = false };
  metadata = record { version = 0; total_chunks = 0; mldsa_vk = []; mldsa_sig = [] };
  hw_key_count = none;
}

abbrev session_in : Result Session → Session
session_in (ok s) = s
session_in _ = nothing

built :
    (build calm (ok tt) key_builder blank).0
    ≡ ok (session_in (build calm (ok tt) key_builder blank).0)
unfolding build prepare wrap_levels wrap fill_chunks write_empty_manifest_for serialize replicate
    take drop to_le from_le tick derive write_region sync_disk build_kdf_params
    farewell.Format.Manifest.validate_owner farewell.Format.Metadata.Seal.seal
    farewell.Format.Metadata.new farewell.Format.Vault.Raw.encrypt_chunk
    farewell.Format.Vault.Raw.write_chunk_raw farewell.Format.Disk.manifest_chunk_of
    farewell.Format.Vault.Stripes.manifest_chunk_for_slot
built = refl

open_inner-enroll_hw_key_example :
    (s' : Session) × (open_inner calm
        (ok tt)
        (codes "horse")
        (some (mock_challenge calm mock))
        (build calm (ok tt) key_builder blank).1
      ≡ (ok s', after_reads (build calm (ok tt) key_builder blank).1))
    × IsReopened (session_in (build calm (ok tt) key_builder blank).0) s'
unfolding replicate is_utf8
open_inner-enroll_hw_key_example =
    open_inner-enroll_hw_key calm (world-IsLawful (λ t. none) true) (ok tt) key_builder
      (codes "horse") salt (codes "vault") enrolled_key empty_mock mock
      (session_in (build calm (ok tt) key_builder blank).0) 0 blank
      (build calm (ok tt) key_builder blank).1 mock_enrolled
      (record {
        one_level = refl;
        capacity_u64 = omega arith;
        few = omega arith;
        usable = (record { not_empty = omega arith; fits = omega arith }, tt);
      })
      (record { text = refl; filled = refl }) refl
      (λ i. (built i, (build calm (ok tt) key_builder blank).1)) (λ t. refl)
