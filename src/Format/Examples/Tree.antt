-- ===== src/Format/Examples/Tree.antt =====
-- The mutations of the tree, run on a small vault.
use farewell.Prelude.{
  ◌+◌, ◌%◌, ◌^◌, ◌≡◌, ◌⊎◌, refl, true, false, none, some, List, [], ◌∷◌, ◌++◌, Bytes, bytes_eq, any,
  length, arith, ◌<◌,
}
use farewell.Format.Error.{ok, err, session_poisoned, io}
use farewell.Format.Manifest.{
  Manifest, FileEntry, ChunkIndex, find, upsert, remove, validate_name, validate_folder_path,
}
use farewell.Format.Manifest.Codec.{serialize}
use farewell.Format.Manifest.Codec.RoundTrip.{IsManifest}
use farewell.Bytes.Utf8.{is_utf8}
use farewell.Format.Manifest.Laws.{is_listed, HasUniqueNames}
use farewell.Bytes.{to_le}
use farewell.Format.Vault.State.{Vault}
use farewell.Format.Vault.Files.{delete_file, create_file_exclusive, rename_file, chunks_or_none}
use farewell.Format.Vault.Folders.{create_folder, delete_folder, rename_folder}
use farewell.Format.Vault.Paths.{normalize_folder}
use farewell.Format.Vault.Keeps.{Unchanged}
use farewell.Format.Vault.Mutations.{Mutation, TreeMutation, run, run_tree}
use farewell.Format.Vault.Poisoned.{run-poisoned}
use farewell.Format.Vault.Refusal.{run_tree-refuses}
use farewell.Format.Vault.Publish.{IsCommitted}
use farewell.Format.Vault.Commits.{delete_file-IsCommitted, rename_file-IsCommitted}
use farewell.Format.Vault.Commits.Folders.{create_folder-IsCommitted}
use farewell.Format.Vault.Commits.Emptied.{IsEmptied, delete_folder-IsEmptied}
use farewell.Format.Vault.Commits.Counter.{HasRoom}
use farewell.Format.Vault.Commits.Durable.{IsDurable, run_tree-IsDurable}
use farewell.Format.Vault.Commits.Tree.{IsDone}
use farewell.Format.Vault.Commits.Rollback.{IsNewer, run_tree-IsNewer}
use farewell.Format.Vault.Commits.View.{
  HasView, update, delete_file-HasView, create_file_exclusive-HasView, rename_file-HasView,
}
use farewell.Format.Examples.{calm, faulty, world-IsLawful, vault, level, tree, returned}

abbrev name_a : Bytes
name_a = b'a' ∷ []

abbrev name_c : Bytes
name_c = b'c' ∷ []

abbrev after_delete : Vault
after_delete = (delete_file calm name_a (vault false)).1

deleted : delete_file calm name_a (vault false) ≡ (ok tt, after_delete)
unfolding delete_file remove bytes_eq serialize to_le
deleted = returned (delete_file calm name_a (vault false)) refl

delete_file-IsCommitted_example :
    (e : FileEntry) × ((remove tree name_a).1 ≡ some e)
    × IsCommitted calm level (remove tree name_a).0 e.chunks (vault false) after_delete
delete_file-IsCommitted_example =
    delete_file-IsCommitted calm (world-IsLawful (λ t. none) true) (vault false) after_delete level
      refl name_a deleted

distinct : HasUniqueNames tree.entries
unfolding is_listed bytes_eq
distinct = (refl, (refl, (refl, (refl, tt))))

viewed : HasView (vault false) (find tree)
viewed = record { level = level; mounted = refl; unique = distinct; finds = λ name. refl }

delete_file-HasView_example :
    (e : FileEntry) × (find tree name_a ≡ some e)
    × HasView after_delete (update (find tree) name_a none)
delete_file-HasView_example =
    delete_file-HasView calm (world-IsLawful (λ t. none) true) (find tree) (vault false)
      after_delete viewed name_a deleted

abbrev after_create : Vault
after_create = (create_file_exclusive calm name_c (vault false)).1

created : create_file_exclusive calm name_c (vault false) ≡ (ok tt, after_create)
unfolding create_file_exclusive validate_name find bytes_eq serialize upsert to_le
created = returned (create_file_exclusive calm name_c (vault false)) refl

create_file_exclusive-HasView_example :
    (find tree name_c ≡ none)
    × HasView after_create
        (update (find tree) name_c (some (record { name = name_c; size = 0; chunks = [] })))
create_file_exclusive-HasView_example =
    create_file_exclusive-HasView calm (world-IsLawful (λ t. none) true) (find tree) (vault false)
      after_create viewed name_c created

abbrev after_rename : Vault
after_rename = (rename_file calm name_a (b'b' ∷ []) (vault false)).1

renamed : rename_file calm name_a (b'b' ∷ []) (vault false) ≡ (ok tt, after_rename)
unfolding rename_file validate_name bytes_eq find serialize upsert remove to_le
renamed = returned (rename_file calm name_a (b'b' ∷ []) (vault false)) refl

apart : bytes_eq name_a (b'b' ∷ []) ≡ false
unfolding bytes_eq
apart = refl

rename_file-HasView_example :
    (e : FileEntry) × (find tree name_a ≡ some e)
    × HasView after_rename
        (update (update (find tree) name_a none) (b'b' ∷ []) (some (record e { name = b'b' ∷ [] })))
rename_file-HasView_example =
    rename_file-HasView calm (world-IsLawful (λ t. none) true) (find tree) (vault false)
      after_rename viewed name_a (b'b' ∷ []) apart renamed

rename_file-IsCommitted_example :
    (e : FileEntry) × (validate_name (b'b' ∷ []) ≡ ok tt)
    × (find tree name_a ≡ some e)
    × IsCommitted calm level
        (upsert (remove (remove tree name_a).0 (b'b' ∷ [])).0 (record e { name = b'b' ∷ [] }))
        (chunks_or_none (find tree (b'b' ∷ [])))
        (vault false)
        after_rename
rename_file-IsCommitted_example =
    rename_file-IsCommitted calm (world-IsLawful (λ t. none) true) (vault false) after_rename level
      refl name_a (b'b' ∷ []) apart renamed

abbrev after_delete_folder : Vault
after_delete_folder = (delete_folder calm (b'd' ∷ []) (vault false)).1

folder_deleted : delete_folder calm (b'd' ∷ []) (vault false) ≡ (ok tt, after_delete_folder)
unfolding delete_folder normalize_folder validate_folder_path serialize bytes_eq to_le
folder_deleted = returned (delete_folder calm (b'd' ∷ []) (vault false)) refl

delete_folder-IsEmptied_example :
    (norm : Bytes) × (candidate : Manifest) × (freed : List ChunkIndex) × (normalize_folder
        (b'd' ∷ [])
      ≡ some norm)
    × IsEmptied norm tree candidate freed
    × IsCommitted calm level candidate freed (vault false) after_delete_folder
delete_folder-IsEmptied_example =
    delete_folder-IsEmptied calm (world-IsLawful (λ t. none) true) (vault false) after_delete_folder
      level refl distinct (b'd' ∷ []) folder_deleted

abbrev after_rename_folder : Vault
after_rename_folder = (rename_folder calm (b'd' ∷ []) (b'f' ∷ []) (vault false)).1

abbrev after_create_folder : Vault
after_create_folder = (create_folder calm (b'g' ∷ []) (vault false)).1

folder_created : create_folder calm (b'g' ∷ []) (vault false) ≡ (ok tt, after_create_folder)
unfolding create_folder normalize_folder validate_folder_path bytes_eq serialize to_le
folder_created = returned (create_folder calm (b'g' ∷ []) (vault false)) refl

create_folder-IsCommitted_example :
    (norm : Bytes) × (normalize_folder (b'g' ∷ []) ≡ some norm)
    × (((any (λ f. bytes_eq f norm) tree.folders ≡ true) × (after_create_folder ≡ vault false))
        ⊎ IsCommitted calm level
            (record tree {
              folders = tree.folders ++ (norm ∷ []);
              counter = (tree.counter + 1) % 2 ^ 64;
            })
            []
            (vault false)
            after_create_folder)
create_folder-IsCommitted_example =
    create_folder-IsCommitted calm (world-IsLawful (λ t. none) true) (vault false)
      after_create_folder level refl (b'g' ∷ []) folder_created

refused : (run_tree faulty (TreeMutation.delete_file name_a) (vault false)).0 ≡ err io
unfolding run_tree delete_file remove bytes_eq serialize to_le
refused = refl

run_tree-refuses_example :
    Unchanged (vault false) (run_tree faulty (TreeMutation.delete_file name_a) (vault false)).1
    ⊎ ((run_tree faulty (TreeMutation.delete_file name_a) (vault false)).1.poisoned ≡ true)
run_tree-refuses_example =
    run_tree-refuses faulty (TreeMutation.delete_file name_a) (vault false) io refused

run-poisoned_example :
    run calm (Mutation.add_file name_c (1 ∷ [])) (vault true) ≡ (err session_poisoned, vault true)
run-poisoned_example = run-poisoned calm (Mutation.add_file name_c (1 ∷ [])) (vault true) refl

typed : IsManifest (remove tree name_a).0
unfolding remove bytes_eq is_utf8
typed = record {
  counter_u64 = omega arith;
  entries_typed = (
    (refl, omega arith, (omega arith, tt)),
    ((refl, omega arith, (omega arith, tt)), ((refl, omega arith, tt), tt)),
  );
  child_slots_u8 = tt;
  folders_utf8 = (refl, tt);
  owner_utf8 = refl;
}

few_slots : length (remove tree name_a).0.child_slots < 256
unfolding remove bytes_eq
few_slots = omega arith

installed : after_delete.mounted ≡ some (record level { manifest = (remove tree name_a).0 })
unfolding delete_file remove bytes_eq serialize to_le
installed = refl

ran : run_tree calm (TreeMutation.delete_file name_a) (vault false) ≡ (ok tt, after_delete)
unfolding run_tree
ran = deleted

room : HasRoom tree
room = omega arith

run_tree-IsNewer_example :
    (IsDone tree (TreeMutation.delete_file name_a) × (after_delete ≡ vault false))
    ⊎ IsNewer (vault false) after_delete
run_tree-IsNewer_example =
    run_tree-IsNewer calm (world-IsLawful (λ t. none) true) (vault false) after_delete level refl
      room (TreeMutation.delete_file name_a) ran

run_tree-IsDurable_example :
    (IsDone tree (TreeMutation.delete_file name_a) × (after_delete ≡ vault false))
    ⊎ IsDurable calm level (record level { manifest = (remove tree name_a).0 }) after_delete
run_tree-IsDurable_example =
    run_tree-IsDurable calm (world-IsLawful (λ t. none) true) (vault false) after_delete level
      (record level { manifest = (remove tree name_a).0 }) refl installed typed few_slots
      (TreeMutation.delete_file name_a) ran
