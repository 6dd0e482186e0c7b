-- ===== src/Format/Vault/Refusal.antt =====
-- A mutation of the content tree that fails leaves the vault as it was, or poisons the session.
use farewell.Prelude.{ℕ, ◌+◌, ◌≡◌, ◌⊎◌, true, List, [], ◌∷◌, ◌++◌, Bytes}
use farewell.Format.Error.{err, FormatError}
use farewell.Format.World.{World}
use farewell.Format.Vault.State.{Vault, lift}
use farewell.Format.Vault.Keeps.{
  Unchanged, IsQuiet, IsQuiet-bind, IsQuiet-lift, IsQuiet-pure, Refuses, quiet_rules,
}
use farewell.Format.Vault.Raw.{read_chunk_raw}
use farewell.Format.Vault.Quiet.{reads, IsQuiet-read_chunk_raw}
use farewell.Format.Vault.Files
use farewell.Format.Vault.Files.{lookup_entry, create_empty_entry, read_file, read_chunks}
use farewell.Format.Vault.Ranges.{read_file_range, read_window, window_part}
use farewell.Format.Vault.Folders
use farewell.Format.Vault.Mutations.{TreeMutation, run_tree}

module _ (w : World) where
  create_empty_entry-Refuses : (name : Bytes) → Refuses (create_empty_entry w name)
  unfolding create_empty_entry
  create_empty_entry-Refuses name = search reads depth 12

  create_file-Refuses : (name : Bytes) → Refuses (Files.create_file w name)
  unfolding Files.create_file
  create_file-Refuses name = search (reads, create_empty_entry-Refuses) depth 12

  create_file_exclusive-Refuses : (name : Bytes) → Refuses (Files.create_file_exclusive w name)
  unfolding Files.create_file_exclusive
  create_file_exclusive-Refuses name = search (reads, create_empty_entry-Refuses) depth 12

  rename_file-Refuses :
      (old_name new_name : Bytes) → Refuses (Files.rename_file w old_name new_name)
  unfolding Files.rename_file
  rename_file-Refuses old_name new_name = search reads depth 12

  delete_file-Refuses : (name : Bytes) → Refuses (Files.delete_file w name)
  unfolding Files.delete_file
  delete_file-Refuses name = search reads depth 12

  create_folder-Refuses : (path : Bytes) → Refuses (Folders.create_folder w path)
  unfolding Folders.create_folder
  create_folder-Refuses path = search reads depth 12

  delete_folder-Refuses : (path : Bytes) → Refuses (Folders.delete_folder w path)
  unfolding Folders.delete_folder
  delete_folder-Refuses path = search reads depth 12

  rename_folder-Refuses : (old new : Bytes) → Refuses (Folders.rename_folder w old new)
  unfolding Folders.rename_folder
  rename_folder-Refuses old new = search reads depth 14

  IsQuiet-read_chunks : (key : Bytes) (cs : List ℕ) → IsQuiet (read_chunks w key cs)
  unfolding read_chunks
  IsQuiet-read_chunks key [] = search quiet_rules
  IsQuiet-read_chunks key (c ∷ cs) =
      IsQuiet-bind (read_chunk_raw w c) _ (IsQuiet-read_chunk_raw w c) λ stored.
        IsQuiet-bind (lift _) _ (IsQuiet-lift _) λ pt.
          IsQuiet-bind (read_chunks w key cs) _ (IsQuiet-read_chunks key cs) λ out. IsQuiet-pure _

  IsQuiet-read_window :
      (key : Bytes) (offset end_byte i : ℕ) (cs : List ℕ)
      → IsQuiet (read_window w key offset end_byte i cs)
  unfolding read_window
  IsQuiet-read_window key offset end_byte i [] = search quiet_rules
  IsQuiet-read_window key offset end_byte i (c ∷ cs) =
      IsQuiet-bind (read_chunk_raw w c) _ (IsQuiet-read_chunk_raw w c) λ stored.
        IsQuiet-bind (lift (window_part w key offset end_byte i c stored)) _ (IsQuiet-lift _)
          λ part.
            IsQuiet-bind (read_window w key offset end_byte (i + 1) cs) _
              (IsQuiet-read_window key offset end_byte (i + 1) cs) λ out. IsQuiet-pure (part ++ out)

  IsQuiet-read_file : (name : Bytes) → IsQuiet (read_file w name)
  unfolding read_file
  IsQuiet-read_file name = search (reads, IsQuiet-read_chunks) depth 12

  IsQuiet-read_file_range :
      (name : Bytes) (offset len : ℕ) → IsQuiet (read_file_range w name offset len)
  unfolding read_file_range
  IsQuiet-read_file_range name offset len = search (reads, IsQuiet-read_window) depth 12

  -- A mutation of the tree that returns an error has changed neither the file tree nor any block, or
  -- has poisoned the session.
  pub run_tree-refuses :
      (op : TreeMutation) (v : Vault) (e : FormatError)
      → (run_tree w op v).0 ≡ err e
      → Unchanged v (run_tree w op v).1 ⊎ ((run_tree w op v).1.poisoned ≡ true)
  unfolding run_tree
  run_tree-refuses (TreeMutation.create_file name) v e h = (create_file-Refuses name).at v e h
  run_tree-refuses (TreeMutation.create_file_exclusive name) v e h =
      (create_file_exclusive-Refuses name).at v e h
  run_tree-refuses (TreeMutation.rename_file old_name new_name) v e h =
      (rename_file-Refuses old_name new_name).at v e h
  run_tree-refuses (TreeMutation.delete_file name) v e h = (delete_file-Refuses name).at v e h
  run_tree-refuses (TreeMutation.create_folder path) v e h = (create_folder-Refuses path).at v e h
  run_tree-refuses (TreeMutation.delete_folder path) v e h = (delete_folder-Refuses path).at v e h
  run_tree-refuses (TreeMutation.rename_folder old new) v e h =
      (rename_folder-Refuses old new).at v e h

  -- Reading a file or a range of it changes nothing, whether it succeeds, fails or panics.
  pub reads_are_quiet :
      (v : Vault) (name : Bytes) (offset len : ℕ)
      → Unchanged v (read_file w name v).1 × Unchanged v (read_file_range w name offset len v).1
  reads_are_quiet v name offset len =
      ((IsQuiet-read_file name).at v, (IsQuiet-read_file_range name offset len).at v)
