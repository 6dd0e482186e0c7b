-- ===== src/Format/Fido2/Opens.antt =====
-- The use of `enroll_hw_key` that its comment shows: a key is enrolled for a salt, and a vault is
-- built with the key and the salt (vault.rs).
use farewell.Prelude.{ℕ, ◌≡◌, refl, inl, true, some, [], ◌∷◌, Bytes, bytes_eq_refl}
use mathlib.Core.Path.{subst}
use farewell.Format.Error.{Result, ok}
use farewell.Format.World.{World, IsLawful}
use farewell.Format.Slot.{Entry}
use farewell.Format.Slot.Opened.{Unlocks, first_with}
use farewell.Format.Disk.{Disk, Session}
use farewell.Format.Disk.Open.{open_inner}
use farewell.Format.Disk.Build.{LevelSpec, Builder, build_kdf_params, choose_salt, build}
use farewell.Format.Disk.Prepared.{IsBuilder}
use farewell.Format.Disk.First.{IsOwner}
use farewell.Format.Disk.Built.{build-IsBuilt}
use farewell.Format.Disk.Whole.{IsKeyOf, after_reads}
use farewell.Format.Disk.Reopened.{IsReopened, open_inner-build}
use farewell.Format.Fido2.{MockAuthenticator, mock_challenge, mock_device, enroll_hw_key}
use farewell.Format.Fido2.Laws.{enroll_hw_key-Unlocks}

-- A level with one hardware key.
abbrev pub with_one_key : Bytes → Entry → LevelSpec
with_one_key passphrase e = record { passphrase = passphrase; enrollment = e ∷ [] }

first_with-here : (e : Entry) → first_with e.credential_id (e ∷ []) ≡ some e
unfolding first_with
first_with-here e = rw (bytes_eq_refl e.credential_id) refl

-- In a lawful world, a vault that was built with the salt and the key that was enrolled on the mock
-- for it opens with its passphrase and the mock, in a world where no read of the disk fails. The
-- session is on the same metadata, level, tree and chunks as the one that the build returned.
pub open_inner-enroll_hw_key :
    (w : World) (lawful : IsLawful w) (created : Result (Unit {0})) (b : Builder)
    (passphrase salt handle : Bytes) (e : Entry) (mock mock' : MockAuthenticator) (s : Session)
    (t : ℕ) (d d' : Disk)
    → (enroll_hw_key w (mock_device w) mock salt handle t).0
      ≡ ok ((e.credential_id, e.hmac_output), mock')
    → IsBuilder b (with_one_key passphrase e)
    → IsOwner b.creator
    → b.explicit_salt ≡ some salt
    → build w created b d ≡ (ok s, d')
    → ((t' : ℕ) → w.read_exact t' ≡ true)
    → (s' : Session) × (open_inner w (ok tt) passphrase (some (mock_challenge w mock')) d'
        ≡ (ok s', after_reads d'))
      × IsReopened s s'
unfolding build_kdf_params
open_inner-enroll_hw_key w lawful created b passphrase salt handle e mock mock' s t d d' enrolled
      typed owned given h reads =
    let built = build-IsBuilt w lawful created b (with_one_key passphrase e) s d d' typed owned h in
    let (t0, chosen) = built.chosen in
    let same : salt ≡ d'.salt =
      cc (subst (λ x. (choose_salt w x t0).0 ≡ ok d'.salt) given chosen) in
    let unlocks =
      enroll_hw_key-Unlocks w lawful built.key mock mock' salt handle e (e ∷ []) t enrolled
        (inl refl, tt) (first_with-here e) in
    open_inner-build w lawful created b (with_one_key passphrase e) built.key s
      (some (mock_challenge w mock')) d d' typed owned h reads built.derived
      (IsKeyOf.light built.derived)
      (subst (λ x. Unlocks w lawful built.key x (e ∷ []) (some (mock_challenge w mock'))) same
        unlocks)
