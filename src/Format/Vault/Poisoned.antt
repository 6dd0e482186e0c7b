-- ===== src/Format/Vault/Poisoned.antt =====
-- A session that is poisoned (`ensure_mutable` of vault.rs) refuses every mutation.
use farewell.Prelude.{◌≡◌, ◌∙◌, ap, refl, true, List, [], ◌∷◌}
use farewell.Format.Error.{err, session_poisoned}
use farewell.Format.World.{World}
use farewell.Format.Vault.State.{Vault, M, ◌>>◌}
use farewell.Format.Vault.Raw.{ensure_mutable}
use farewell.Format.Vault.Files.{
  create_file, create_file_exclusive, rename_file, delete_file, add_file,
}
use farewell.Format.Vault.Ranges.{write_file_range, truncate_file}
use farewell.Format.Vault.Folders.{create_folder, delete_folder, rename_folder}
use farewell.Format.Vault.Mutations.{TreeMutation, Mutation, run_tree, run, run_all}

ensure_mutable-poisoned {ℓ} :
    {A : Type ℓ} (k : M A) (v : Vault)
    → v.poisoned ≡ true
    → (ensure_mutable >> k) v ≡ (err session_poisoned, v)
unfolding ensure_mutable
ensure_mutable-poisoned k v p = rw p

module _ (w : World) where
  run_tree-poisoned :
      (op : TreeMutation) (v : Vault)
      → v.poisoned ≡ true
      → run_tree w op v ≡ (err session_poisoned, v)
  unfolding run_tree create_file create_file_exclusive rename_file delete_file create_folder
      delete_folder rename_folder
  run_tree-poisoned (TreeMutation.create_file name) v p = ensure_mutable-poisoned _ v p
  run_tree-poisoned (TreeMutation.create_file_exclusive name) v p = ensure_mutable-poisoned _ v p
  run_tree-poisoned (TreeMutation.rename_file old_name new_name) v p = ensure_mutable-poisoned _ v p
  run_tree-poisoned (TreeMutation.delete_file name) v p = ensure_mutable-poisoned _ v p
  run_tree-poisoned (TreeMutation.create_folder path) v p = ensure_mutable-poisoned _ v p
  run_tree-poisoned (TreeMutation.delete_folder path) v p = ensure_mutable-poisoned _ v p
  run_tree-poisoned (TreeMutation.rename_folder old new) v p = ensure_mutable-poisoned _ v p

  -- On a poisoned session every mutation fails with `SessionPoisoned` and changes nothing at all.
  pub run-poisoned :
      (op : Mutation) (v : Vault) → v.poisoned ≡ true → run w op v ≡ (err session_poisoned, v)
  unfolding run add_file write_file_range truncate_file
  run-poisoned (Mutation.tree op) v p = run_tree-poisoned op v p
  run-poisoned (Mutation.add_file name plaintext) v p = ensure_mutable-poisoned _ v p
  run-poisoned (Mutation.write_file_range name offset bytes) v p = ensure_mutable-poisoned _ v p
  run-poisoned (Mutation.truncate_file name new_size) v p = ensure_mutable-poisoned _ v p

  -- No sequence of mutations changes a poisoned vault, whatever each of them returns.
  run_all-poisoned : (ops : List Mutation) (v : Vault) → v.poisoned ≡ true → run_all w ops v ≡ v
  unfolding run_all
  run_all-poisoned [] v p = refl
  run_all-poisoned (op ∷ ops) v p =
      ap (λ r. run_all w ops r.1) (run-poisoned op v p) ∙ run_all-poisoned ops v p
