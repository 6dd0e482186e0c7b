-- ===== src/Format/Vault/Commits.antt =====
-- What the mutations of the content tree have done where they succeed.
pub mod Below
pub mod Counter
pub mod Durable
pub mod Folders
pub mod Emptied
pub mod Removed
pub mod Renamed
pub mod Reopen
pub mod Tree
pub mod View
pub mod Rollback
use farewell.Prelude.{
  ℕ, ◌+◌, ◌≡◌, ◌≢◌, refl, sym, ap, ◌∙◌, ◌⊎◌, inl, inr, Bool, true, false, Option, none, some, List,
  [], ◌∷◌, ◌++◌, Bytes, arith, length, ◌==◌, contains, if◌then◌else◌, Bool-cases, Option-cases,
  bytes_eq, bytes_eq→eq, any,
}
use mathlib.Core.Path.{subst}
use farewell.Format.Error.{Result, ok, err, panic, FormatError}
use farewell.Format.Manifest.{
  Manifest, FileEntry, ChunkIndex, find, upsert, remove, validate_name, validate_folder_path,
}
use farewell.Format.Manifest.Codec.{serialize}
use farewell.Format.World.{World, IsLawful}
use farewell.Format.Vault.State.{Vault, MountedLevel, M, continue, ◌>>=◌, ◌>>◌, lift, pure, fail}
use farewell.Format.Vault.Raw.{
  ensure_mutable, mounted_level, candidate_manifest, destructive_phase, publish_manifest, shred,
  chunks_of,
}
use farewell.Format.Vault.Queries.{find_or_fail}
use farewell.Format.Vault.Files.{
  is_some, chunks_or_none, lookup_entry, create_empty_entry, create_file, create_file_exclusive,
  rename_file, delete_file,
}
use farewell.Format.Vault.Folders.{
  valid_or_fail, create_folder, delete_folder, rename_folder, without_folder, with_folder_renamed,
}
use farewell.Format.Vault.Paths.{normalize_folder}
use farewell.Format.Vault.Keeps.{at_level}
use farewell.Format.Vault.Publish.{
  continue-eq-ok, bind-eq-ok, destructive_phase-eq-ok, IsCommitted, publish-IsCommitted,
  shred_publish-IsCommitted,
}

-- A mutation that succeeds was made on a session that is not poisoned.
pub ensure_mutable-eq-ok {ℓ} :
    {B : Type ℓ} (k : M B) (v : Vault) {b : B} {v' : Vault}
    → (ensure_mutable >> k) v ≡ (ok b, v')
    → (v.poisoned ≡ false) × (k v ≡ (ok b, v'))
unfolding ensure_mutable
ensure_mutable-eq-ok k v h = elim (Bool-cases v.poisoned) [
  | inl yes' ↦ absurd (cc (ap (λ p. p.0) (rw yes' at h)))
  | inr no' ↦ (no', simp no' at h)
]

find_or_fail-eq-ok :
    (name : Bytes) (o : Option FileEntry) {e : FileEntry} → find_or_fail name o ≡ ok e → o ≡ some e
unfolding find_or_fail
find_or_fail-eq-ok name none h = cc
find_or_fail-eq-ok name (some e) h = ground arith

module _ (w : World) (lawful : IsLawful w) (v v' : Vault) (m : MountedLevel)
    (mounted : v.mounted ≡ some m) where
  -- The common tail: serialize, shred, publish.
  commit :
      (candidate : Manifest) (freed : List ChunkIndex) (durable : Bool)
      → (lift (serialize candidate) >>= λ bytes.
            destructive_phase (shred w freed >> publish_manifest w candidate bytes durable))
          (record v { mounted = some m })
        ≡ (ok tt, v')
      → IsCommitted w m candidate freed v v'
  commit candidate freed durable h =
      let here : Vault = record v { mounted = some m } in
      let (bytes, ser, h1) = continue-eq-ok (serialize candidate) _ here h in
      subst (λ t. IsCommitted w m candidate freed t v') (sym (at_level v m mounted))
        (shred_publish-IsCommitted w lawful m candidate freed bytes durable here v' refl ser
          (destructive_phase-eq-ok _ here h1))

  -- The same with nothing to shred.
  commit_tree :
      (candidate : Manifest) (durable : Bool)
      → (lift (serialize candidate) >>= λ bytes.
            destructive_phase (publish_manifest w candidate bytes durable))
          (record v { mounted = some m })
        ≡ (ok tt, v')
      → IsCommitted w m candidate [] v v'
  commit_tree candidate durable h =
      let here : Vault = record v { mounted = some m } in
      let (bytes, ser, h1) = continue-eq-ok (serialize candidate) _ here h in
      subst (λ t. IsCommitted w m candidate [] t v') (sym (at_level v m mounted))
        (publish-IsCommitted w lawful m candidate bytes durable here v' refl ser
          (destructive_phase-eq-ok _ here h1))

  -- In a lawful world, deleting a file that succeeds has found the file; its entry is gone from the
  -- tree in memory and on disk, every chunk of it, but the manifest's, holds random bytes that were
  -- drawn since then, each chunk's at a time of its own, and every other block is as it was.
  pub delete_file-IsCommitted :
      (name : Bytes)
      → delete_file w name v ≡ (ok tt, v')
      → (e : FileEntry) × ((remove m.manifest name).1 ≡ some e)
        × IsCommitted w m (remove m.manifest name).0 e.chunks v v'
  unfolding delete_file candidate_manifest mounted_level
  delete_file-IsCommitted name h =
      let (live, h1) = ensure_mutable-eq-ok _ v h in
      let (e, found, h2) =
        continue-eq-ok (find_or_fail name (remove m.manifest name).1) _ _ (rw mounted at h1) in
      (e, find_or_fail-eq-ok name _ found, commit (remove m.manifest name).0 e.chunks true h2)

  -- An exclusive creation that succeeds was of a valid name that stood for no file; an empty entry
  -- of that name joins the tree, and no block but the manifest's is touched.
  pub create_file_exclusive-IsCommitted :
      (name : Bytes)
      → create_file_exclusive w name v ≡ (ok tt, v')
      → (validate_name name ≡ ok tt)
        × (find m.manifest name ≡ none)
        × IsCommitted w m
            (upsert m.manifest (record { name = name; size = 0; chunks = [] }))
            []
            v
            v'
  unfolding create_file_exclusive create_empty_entry candidate_manifest mounted_level
  create_file_exclusive-IsCommitted name h =
      let (live, h1) = ensure_mutable-eq-ok _ v h in
      let (u, valid, h2) = continue-eq-ok (validate_name name) _ v h1 in
      elim (Option-cases (find m.manifest name)) [
        | inl absent ↦ (valid, absent, commit_tree _ false (rw (mounted, absent) at h2))
        | inr (e, there) ↦ absurd (cc (ap (λ p. p.0) (rw (mounted, there) at h2)))
      ]

  -- In a lawful world, a rename that succeeds and is not of a name to itself has found the file
  -- under a name that is not empty. The tree has the entry under the valid new name in place of
  -- both; the chunks of a file that stood under the new name, but the manifest's, hold random bytes
  -- that were drawn since then, each chunk's at a time of its own, and every other block is as it
  -- was.
  pub rename_file-IsCommitted :
      (old_name new_name : Bytes)
      → bytes_eq old_name new_name ≡ false
      → rename_file w old_name new_name v ≡ (ok tt, v')
      → (e : FileEntry) × (validate_name new_name ≡ ok tt)
        × (find m.manifest old_name ≡ some e)
        × IsCommitted w m
            (upsert
              (remove (remove m.manifest old_name).0 new_name).0
              (record e { name = new_name }))
            (chunks_or_none (find m.manifest new_name))
            v
            v'
  unfolding rename_file lookup_entry candidate_manifest mounted_level
  rename_file-IsCommitted old_name new_name ne h =
      let (live, h1) = ensure_mutable-eq-ok _ v h in
      let (u, valid, h2) = continue-eq-ok (validate_name new_name) _ v h1 in
      elim (Bool-cases (length old_name == 0)) [
        | inl empty ↦ absurd (cc (ap (λ p. p.0) (rw empty at h2)))
        | inr there ↦
            let (e, found, h3) =
              continue-eq-ok (find_or_fail old_name (find m.manifest old_name)) _ _
                (rw (there, ne, mounted) at h2) in
            (e, valid, find_or_fail-eq-ok old_name _ found, commit _ _ false h3)
      ]
