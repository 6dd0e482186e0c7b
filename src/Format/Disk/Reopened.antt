-- ===== src/Format/Disk/Reopened.antt =====
-- Building a vault, and opening it (vault.rs).
use farewell.Prelude.{◌≡◌, refl, sym, ◌∙◌, true, Option, [], ◌∷◌, Bytes}
use mathlib.Core.Path.{subst}
use farewell.Format.Error.{Result, ok}
use farewell.Format.World.{World, IsLawful}
use farewell.Format.Slot.Unwrap.{Authenticator}
use farewell.Format.Slot.Opened.{Unlocks}
use farewell.Format.Disk.{Disk, Session, derive}
use farewell.Format.Disk.Open.{open_inner}
use farewell.Format.Disk.Build.{LevelSpec, Builder, build_kdf_params, first_manifest, build}
use farewell.Format.Disk.Prepared.{built_contents, IsBuilder}
use farewell.Format.Disk.First.{IsOwner}
use farewell.Format.Disk.Built.{build-IsBuilt}
use farewell.Format.Disk.Whole.{IsVault, IsKeyOf, session_on, after_reads, open_inner-IsVault}

-- Two sessions on the same vault.
pub record IsReopened (s s' : Session) : Type 0 where
  pub metadata : s'.metadata ≡ s.metadata
  pub mounted : s'.vault.mounted ≡ s.vault.mounted
  pub file : s'.vault.file ≡ s.vault.file
  pub total_chunks : s'.vault.total_chunks ≡ s.metadata.total_chunks

module _ (w : World) (lawful : IsLawful w) where
  -- In a lawful world, a vault of one level that was built opens with its passphrase and an
  -- authenticator that holds an enrolled key, or with the passphrase alone where none is enrolled,
  -- in a world where no read of the disk fails. The key of the vault's profile is the first that
  -- decrypts the slot. The session is on the same metadata, level, tree and chunks as the one that
  -- the build returned.
  pub open_inner-build :
      (created : Result (Unit {0})) (b : Builder) (spec : LevelSpec) (key : Bytes) (s : Session)
      (a : Option Authenticator) (d d' : Disk)
      → IsBuilder b spec
      → IsOwner b.creator
      → build w created b d ≡ (ok s, d')
      → ((t : _) → w.read_exact t ≡ true)
      → derive w spec.passphrase d'.salt (build_kdf_params (spec ∷ [])) ≡ ok key
      → IsKeyOf w spec.passphrase d'.salt d'.slot key
      → Unlocks w lawful key d'.salt spec.enrollment a
      → (s' : Session) × (open_inner w (ok tt) spec.passphrase a d' ≡ (ok s', after_reads d'))
        × IsReopened s s'
  open_inner-build created b spec key s a d d' typed owned h reads derived found unlocks =
      let built = build-IsBuilt w lawful created b spec s d d' typed owned h in
      let same : built.key ≡ key = cc (sym built.derived ∙ derived) in
      let c = built_contents spec.enrollment built.kwk built.master_key built.metadata_key in
      let tree = first_manifest b.creator in
      let vault = subst (λ k. IsVault w k c s.metadata tree d') same built.is_vault in
      (
        session_on w c s.metadata tree (after_reads d'),
        open_inner-IsVault w lawful spec.passphrase key c s.metadata tree d' a reads vault found
            unlocks,
        record {
          metadata = refl;
          mounted = sym built.mounted;
          file = sym built.same_chunks;
          total_chunks = refl;
        },
      )
