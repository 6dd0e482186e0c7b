-- ===== src/Format/Vault/Commits/Tree.antt =====
-- Any mutation of the tree that succeeds: it has found its work done and changed nothing,
-- or committed one manifest.
use farewell.Prelude.{
  ◌<◌, ◌≡◌, sym, ap, ◌∙◌, ◌⊎◌, inl, inr, true, false, refl, Option, none, any, bytes_eq→eq, some,
  List, [], Bytes, arith, ◌==◌, length, bytes_eq, Bool-cases,
}
use mathlib.Core.Path.{subst}
use farewell.Format.Error.{ok}
use farewell.Format.Manifest.{Manifest, FileEntry, ChunkIndex, find, upsert, remove, validate_name}
use farewell.Format.World.{World, IsLawful}
use farewell.Format.Vault.State.{Vault, MountedLevel}
use farewell.Format.Vault.Raw.{mounted_level, candidate_manifest}
use farewell.Format.Vault.Files.{is_some, create_file, create_empty_entry, rename_file}
use farewell.Format.Vault.Paths.{normalize_folder}
use farewell.Format.Vault.Keeps.{at_level, if_case}
use farewell.Format.Vault.Publish.{continue-eq-ok, IsCommitted}
use farewell.Format.Vault.Mutations.{TreeMutation, run_tree}
use farewell.Format.Vault.Commits.{
  ensure_mutable-eq-ok, commit_tree, delete_file-IsCommitted, create_file_exclusive-IsCommitted,
  rename_file-IsCommitted,
}
use farewell.Format.Vault.Commits.Counter.{
  HasRoom, counter-upsert, counter-remove, counter-remove_found, counter-without_folder,
  counter-with_folder_renamed,
}
use farewell.Format.Vault.Commits.Folders.{
  create_folder-IsCommitted, delete_folder-IsCommitted, rename_folder-IsCommitted,
}

-- What the mutation asks for is so: the file or the folder is there, or the new name is the old one.
pub data IsDone (tree : Manifest) : TreeMutation → Type 0 where
  file_exists :
      (name : Bytes) (e : FileEntry)
      → find tree name ≡ some e
      → IsDone tree (TreeMutation.create_file name)
  same_name : (name : Bytes) → IsDone tree (TreeMutation.rename_file name name)
  folder_exists :
      (path norm : Bytes)
      → normalize_folder path ≡ some norm
      → any (λ f. bytes_eq f norm) tree.folders ≡ true
      → IsDone tree (TreeMutation.create_folder path)
  same_folder :
      (old new norm : Bytes)
      → normalize_folder old ≡ some norm
      → normalize_folder new ≡ some norm
      → IsDone tree (TreeMutation.rename_folder old new)

is_some→some : (o : Option FileEntry) → is_some o ≡ true → (e : FileEntry) × (o ≡ some e)
is_some→some none h = absurd (cc h)
is_some→some (some e) h = (e, refl)

-- One manifest is committed, of a higher counter where the counter has not wrapped.
pub record Commit (w : World) (m : MountedLevel) (v v' : Vault) : Type 0 where
  pub candidate : Manifest
  pub freed : List ChunkIndex
  pub higher : HasRoom m.manifest → m.manifest.counter < candidate.counter
  pub done : IsCommitted w m candidate freed v v'

module _ (w : World) (lawful : IsLawful w) (v v' : Vault) (m : MountedLevel)
    (mounted : v.mounted ≡ some m) where
  committed :
      (op : TreeMutation) (candidate : Manifest) (freed : List ChunkIndex)
      → (HasRoom m.manifest → m.manifest.counter < candidate.counter)
      → IsCommitted w m candidate freed v v'
      → (IsDone m.manifest op × (v' ≡ v)) ⊎ Commit w m v v'
  committed op candidate freed higher done =
      inr (record { candidate = candidate; freed = freed; higher = higher; done = done })

  create_file-Commit :
      (name : Bytes)
      → create_file w name v ≡ (ok tt, v')
      → (IsDone m.manifest (TreeMutation.create_file name) × (v' ≡ v)) ⊎ Commit w m v v'
  unfolding create_file create_empty_entry candidate_manifest mounted_level
  create_file-Commit name h =
      let here : Vault = record v { mounted = some m } in
      let back = sym (at_level v m mounted) in
      let h0 = subst (λ t. create_file w name t ≡ (ok tt, v')) (at_level v m mounted) h in
      let (live, h1) = ensure_mutable-eq-ok _ here h0 in
      let (u, valid, h2) = continue-eq-ok (validate_name name) _ here h1 in
      let e : FileEntry = record { name = name; size = 0; chunks = [] } in
      elim (if_case (is_some (find m.manifest name)) _ _ here h2) [
        | inl (there, h3) ↦
            let (e', found) = is_some→some (find m.manifest name) there in
            inl (file_exists name e' found, sym (ap (λ p. p.1) h3) ∙ back)
        | inr (absent, h3) ↦
            committed (TreeMutation.create_file name) (upsert m.manifest e) []
              (λ room. omega (arith, counter-upsert m.manifest e (omega arith)))
              (commit_tree w lawful v v' m mounted (upsert m.manifest e) false h3)
      ]

  rename_file-Commit :
      (old_name new_name : Bytes)
      → rename_file w old_name new_name v ≡ (ok tt, v')
      → (IsDone m.manifest (TreeMutation.rename_file old_name new_name) × (v' ≡ v))
        ⊎ Commit w m v v'
  unfolding rename_file
  rename_file-Commit old_name new_name h = elim (Bool-cases (bytes_eq old_name new_name)) [
    | inl same ↦
        let (live, h1) = ensure_mutable-eq-ok _ v h in
        let (u, valid, h2) = continue-eq-ok (validate_name new_name) _ v h1 in
        elim (if_case (length old_name == 0) _ _ v h2) [
          | inl (empty, h3) ↦ absurd (cc (ap (λ p. p.0) h3))
          | inr (there, h3) ↦ elim (if_case (bytes_eq old_name new_name) _ _ v h3) [
            | inl (same', h4) ↦ inl (
              subst (λ t. IsDone m.manifest (TreeMutation.rename_file old_name t))
                  (bytes_eq→eq old_name new_name same) (same_name old_name),
              sym (ap (λ p. p.1) h4),
            )
            | inr (other, h4) ↦ absurd (cc)
          ]
        ]
    | inr other ↦
        let (e, valid, found, done) =
          rename_file-IsCommitted w lawful v v' m mounted old_name new_name other h in
        let m1 = (remove m.manifest old_name).0 in
        let m2 = (remove m1 new_name).0 in
        committed _ _ _
          (λ room.
            let (lo1, hi1) = counter-remove m.manifest old_name (omega arith) in
            let (lo2, hi2) = counter-remove m1 new_name (omega arith) in
            omega (arith, counter-upsert m2 (record e { name = new_name }) (omega arith)))
          done
  ]

  pub run_tree-Commit :
      (op : TreeMutation)
      → run_tree w op v ≡ (ok tt, v')
      → (IsDone m.manifest op × (v' ≡ v)) ⊎ Commit w m v v'
  unfolding run_tree
  run_tree-Commit (TreeMutation.create_file name) h = create_file-Commit name h
  run_tree-Commit (TreeMutation.create_file_exclusive name) h =
      let (valid, absent, done) =
        create_file_exclusive-IsCommitted w lawful v v' m mounted name h in
      committed _ _ _ (λ room. omega (arith, counter-upsert m.manifest _ (omega arith))) done
  run_tree-Commit (TreeMutation.rename_file old_name new_name) h =
      rename_file-Commit old_name new_name h
  run_tree-Commit (TreeMutation.delete_file name) h =
      let (e, found, done) = delete_file-IsCommitted w lawful v v' m mounted name h in
      committed _ _ _ (λ room. counter-remove_found m.manifest name e (omega arith) found) done
  run_tree-Commit (TreeMutation.create_folder path) h =
      let (norm, valid, result) = create_folder-IsCommitted w lawful v v' m mounted path h in
      elim result [
        | inl (there, same) ↦ inl (folder_exists path norm valid there, same)
        | inr done ↦ committed _ _ _ (λ room. omega arith) done
      ]
  run_tree-Commit (TreeMutation.delete_folder path) h =
      let (norm, valid, done) = delete_folder-IsCommitted w lawful v v' m mounted path h in
      committed _ _ _ (counter-without_folder m.manifest norm) done
  run_tree-Commit (TreeMutation.rename_folder old new) h =
      let (old_n, new_n, valid, valid', result) =
        rename_folder-IsCommitted w lawful v v' m mounted old new h in
      elim result [
        | inl (equal, same) ↦ inl (
          same_folder old new new_n (valid ∙ ap some (bytes_eq→eq old_n new_n equal)) valid',
          same,
        )
        | inr (candidate, renamed, done) ↦
            committed _ candidate []
              (λ room.
                omega (arith, counter-with_folder_renamed m.manifest old_n new_n candidate renamed))
              done
      ]
