-- ===== src/Format/Vault/Mutations.antt =====
-- The mutations of the content that vault.rs offers, as data, and runs of several of them.
use farewell.Prelude.{ℕ, List, [], ◌∷◌, Bytes}
use farewell.Format.World.{World}
use farewell.Format.Vault.State.{Vault, M}
use farewell.Format.Vault.Files
use farewell.Format.Vault.Ranges
use farewell.Format.Vault.Folders

-- The methods that rewrite the tree and shred what falls out of it.
pub data TreeMutation : Type 0 where
  create_file : Bytes → TreeMutation
  create_file_exclusive : Bytes → TreeMutation
  rename_file : Bytes → Bytes → TreeMutation
  delete_file : Bytes → TreeMutation
  create_folder : Bytes → TreeMutation
  delete_folder : Bytes → TreeMutation
  rename_folder : Bytes → Bytes → TreeMutation

pub data Mutation : Type 0 where
  tree : TreeMutation → Mutation
  add_file : Bytes → Bytes → Mutation
  write_file_range : Bytes → ℕ → Bytes → Mutation
  truncate_file : Bytes → ℕ → Mutation

module _ (w : World) where
  unfoldable pub run_tree : TreeMutation → M (Unit {0})
  run_tree (create_file name) = Files.create_file w name
  run_tree (create_file_exclusive name) = Files.create_file_exclusive w name
  run_tree (rename_file old_name new_name) = Files.rename_file w old_name new_name
  run_tree (delete_file name) = Files.delete_file w name
  run_tree (create_folder path) = Folders.create_folder w path
  run_tree (delete_folder path) = Folders.delete_folder w path
  run_tree (rename_folder old new) = Folders.rename_folder w old new

  unfoldable pub run : Mutation → M (Unit {0})
  unfolding run_tree
  run (tree op) = run_tree op
  run (add_file name plaintext) = Files.add_file w name plaintext
  run (write_file_range name offset bytes) = Ranges.write_file_range w name offset bytes
  run (truncate_file name new_size) = Ranges.truncate_file w name new_size

  -- The vault after a sequence of calls, whatever each of them returns.
  unfoldable pub run_all : List Mutation → Vault → Vault
  unfolding run
  run_all [] v = v
  run_all (op ∷ ops) v = run_all ops (run op v).1
