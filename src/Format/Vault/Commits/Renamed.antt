-- ===== src/Format/Vault/Commits/Renamed.antt =====
-- What `rename_folder` of vault.rs makes of the tree, entry by entry and folder by folder.
use farewell.Prelude.{◌+◌, ◌%◌, ◌^◌, ◌≡◌, ◌≢◌, false, List, [], ◌∷◌, ◌++◌, Bytes}
use farewell.Format.Error
use farewell.Format.Error.{Result, ok}
use farewell.Format.Manifest.{FileEntry, Manifest, validate_name}
use farewell.Format.Manifest.Laws.{is_listed}
use farewell.Format.World.{World}
use farewell.Format.Vault.State.{Vault}
use farewell.Format.Vault.Paths.{slash}
use farewell.Format.Vault.Commits.Below.{IsBelow}

-- Two lists of one length, related item by item.
pub data Pairs {A : Type 0} (R : A → A → Type 0) : List A → List A → Type 0 where
  nil : Pairs R [] []
  cons : {x y : A} {xs ys : List A} → R x y → Pairs R xs ys → Pairs R (x ∷ xs) (y ∷ ys)

-- A file below the folder moves to a valid name that no file of the tree had; any other stays.
pub data FileMoved (old_n new_n : Bytes) (es : List FileEntry) (e e' : FileEntry) : Type 0 where
  moved :
      (rest : Bytes)
      → e.name ≡ old_n ++ (slash ∷ rest)
      → is_listed (new_n ++ (slash ∷ rest)) es ≡ false
      → validate_name (new_n ++ (slash ∷ rest)) ≡ ok tt
      → e' ≡ record e { name = new_n ++ (slash ∷ rest) }
      → FileMoved old_n new_n es e e'
  stays : ¬ IsBelow old_n e.name → e' ≡ e → FileMoved old_n new_n es e e'

-- The folder gets the new path, those below it move with it, and any other stays.
pub data FolderMoved (old_n new_n : Bytes) (f f' : Bytes) : Type 0 where
  itself : f ≡ old_n → f' ≡ new_n → FolderMoved old_n new_n f f'
  moved :
      (rest : Bytes)
      → f ≡ old_n ++ (slash ∷ rest)
      → f' ≡ new_n ++ (slash ∷ rest)
      → FolderMoved old_n new_n f f'
  stays : f ≢ old_n → ¬ IsBelow old_n f → f' ≡ f → FolderMoved old_n new_n f f'

pub record IsRenamed (old_n new_n : Bytes) (live candidate : Manifest) : Type 0 where
  pub files : Pairs (FileMoved old_n new_n live.entries) live.entries candidate.entries
  pub folders : Pairs (FolderMoved old_n new_n) live.folders candidate.folders
  pub counter : candidate.counter ≡ (live.counter + 1) % 2 ^ 64
  pub same_child_slots : candidate.child_slots ≡ live.child_slots
  pub same_owner : candidate.owner ≡ live.owner
