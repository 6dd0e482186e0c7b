-- ===== src/Format/Vault/Commits/Emptied.antt =====
-- What `delete_folder` of vault.rs makes of the tree, name by name and folder by folder.
use farewell.Prelude.{
  ◌≡◌, ◌≢◌, ap, ◌∙◌, inl, inr, true, false, ◌&&◌, none, some, List, [], ◌∷◌, ◌++◌, Bytes, arith,
  contains, bytes_eq_refl, bytes_eq-false, Option-cases,
}
use farewell.Format.Error.{ok}
use farewell.Format.Manifest.{FileEntry, Manifest, ChunkIndex, find}
use farewell.Format.Manifest.Laws.{HasUniqueNames}
use farewell.Format.World.{World, IsLawful}
use farewell.Format.Vault.State.{Vault, MountedLevel}
use farewell.Format.Vault.Raw.{chunks_of}
use farewell.Format.Vault.Paths.{slash, normalize_folder}
use farewell.Format.Vault.Folders.{names_under, remove_all, without_folder, delete_folder}
use farewell.Format.Vault.Publish.{IsCommitted}
use farewell.Format.Vault.Commits.Below.{IsBelow, starts_with-IsBelow, starts_with-not-IsBelow}
use farewell.Format.Vault.Commits.Folders.{delete_folder-IsCommitted}
use farewell.Format.Vault.Commits.Removed.{
  is_among, is_outside, find-remove_all, remove_all-rest, remove_all-freed_from,
  remove_all-freed_all, is_among-names_under-not, is_among-retain_outside, among-IsBelow,
  IsBelow-among,
}

-- The names below the folder stand for no file and all others for what they stood for; the folder
-- and those below it are no folders and all others are as before; and the freed chunks are those of
-- the files below it.
pub record IsEmptied (norm : Bytes) (live candidate : Manifest) (freed : List ChunkIndex)
    : Type 0 where
  pub gone : (name : Bytes) → IsBelow norm name → find candidate name ≡ none
  pub kept : (name : Bytes) → ¬ IsBelow norm name → find candidate name ≡ find live name
  pub itself_gone : is_among norm candidate.folders ≡ false
  pub folders_gone : (f : Bytes) → IsBelow norm f → is_among f candidate.folders ≡ false
  pub folders_kept :
      (f : Bytes)
      → f ≢ norm
      → ¬ IsBelow norm f
      → is_among f candidate.folders ≡ is_among f live.folders
  pub freed_from :
      (i : ChunkIndex)
      → contains freed i ≡ true
      → (name : Bytes) × (e : FileEntry) × IsBelow norm name
        × (find live name ≡ some e)
        × (contains e.chunks i ≡ true)
  pub freed_all :
      (name : Bytes) (e : FileEntry) (i : ChunkIndex)
      → IsBelow norm name
      → find live name ≡ some e
      → contains e.chunks i ≡ true
      → contains freed i ≡ true
  pub same_child_slots : candidate.child_slots ≡ live.child_slots
  pub same_owner : candidate.owner ≡ live.owner

without_folder-IsEmptied :
    (live : Manifest) (norm : Bytes)
    → HasUniqueNames live.entries
    → IsEmptied norm live (without_folder live norm).0 (chunks_of (without_folder live norm).1)
unfolding without_folder find
without_folder-IsEmptied live norm u =
    let prefix = norm ++ (slash ∷ []) in
    let names = names_under prefix live.entries in
    let (folders, child_slots, owner) = remove_all-rest live names in
    let finds = λ (name : Bytes). find-remove_all live names name u in
    let left = λ (f : Bytes).
      is_among-retain_outside norm prefix f (remove_all live names).0.folders
      ∙ ap (λ fs. is_outside norm prefix f && is_among f fs) folders in
    record {
      gone = λ name b. elim (Option-cases (find live name)) [
        | inl absent ↦ ground (arith, finds name, absent)
        | inr (e, there) ↦ rw (IsBelow-among live norm name e b there) at (finds name)
      ];
      kept = λ name no'.
          let among =
            is_among-names_under-not prefix name live.entries
              (starts_with-not-IsBelow norm name no') in
          rw among at (finds name);
      itself_gone = ground (arith, left norm, bytes_eq_refl norm);
      folders_gone = λ f b. ground (arith, left f, starts_with-IsBelow norm f b);
      folders_kept = λ f apart no'.
          let other = bytes_eq-false f norm apart in
          ground (arith, left f, starts_with-not-IsBelow norm f no', other);
      freed_from = λ i has.
          let (name, e, among, there, has') = remove_all-freed_from live names i u has in
          (name, e, among-IsBelow norm name live.entries among, there, has');
      freed_all = λ name e i b there has.
          remove_all-freed_all live names name e i u (IsBelow-among live norm name e b there) there
            has;
      same_child_slots = child_slots;
      same_owner = owner;
    }

-- In a lawful world, where names are unique, deleting a folder that succeeds has found its
-- normalized path, and leaves the tree without what lies below it: no name below it stands for a
-- file, it and the folders below it are no folders, and all else stands as before. That tree is in
-- memory and encrypted in the manifest chunk; every chunk of the deleted files, but the manifest's,
-- holds random bytes drawn since then at a time of its own; and every other block is as it was.
pub delete_folder-IsEmptied :
    (w : World)
    → IsLawful w
    → (v v' : Vault) (m : MountedLevel) → v.mounted ≡ some m
    → HasUniqueNames m.manifest.entries
    → (path : Bytes) → delete_folder w path v ≡ (ok tt, v')
    → (norm : Bytes) × (candidate : Manifest) × (freed : List ChunkIndex) × (normalize_folder path
        ≡ some norm)
      × IsEmptied norm m.manifest candidate freed
      × IsCommitted w m candidate freed v v'
delete_folder-IsEmptied w lawful v v' m mounted u path h =
    let (norm, valid, done) = delete_folder-IsCommitted w lawful v v' m mounted path h in
    (norm, _, _, valid, without_folder-IsEmptied m.manifest norm u, done)
