-- ===== src/Format/Vault/Folders.antt =====
-- The methods of vault.rs on folders.
use farewell.Prelude.{
  ◌+◌, ◌%◌, ◌^◌, true, false, ◌&&◌, not, Option, none, some, List, [], ◌∷◌, ◌++◌, Bytes,
  if◌then◌else◌, bytes_eq, any,
}
use farewell.Format.Error
use farewell.Format.Error.{Result, ok, err, panic, invalid_name, manifest, rename_would_overwrite}
use farewell.Format.Manifest.{FileEntry, Manifest, validate_name, validate_folder_path, remove}
use farewell.Format.Manifest.Codec.{serialize}
use farewell.Format.World.{World}
use farewell.Format.Vault.State.{Vault, M, pure, lift, ◌>>=◌, ◌>>◌}
use farewell.Format.Vault.Raw.{
  mounted_level, ensure_mutable, destructive_phase, candidate_manifest, publish_manifest, shred,
  chunks_of,
}
use farewell.Format.Vault.Paths.{
  slash, normalize_folder, parent_folder, ancestor_paths, insert_all, strip_prefix, starts_with,
}

-- `.ok_or(FormatError::InvalidName)`
unfoldable pub valid_or_fail : Option Bytes → Result Bytes
valid_or_fail none = err invalid_name
valid_or_fail (some p) = ok p

unfoldable pub insert_folders : List Bytes → List Bytes → List Bytes
unfolding insert_all ancestor_paths
insert_folders [] set = set
insert_folders (f ∷ fs) set = insert_folders fs (insert_all (ancestor_paths f) set)

unfoldable pub insert_implied : List FileEntry → List Bytes → List Bytes
unfolding insert_all ancestor_paths parent_folder
insert_implied [] set = set
insert_implied (e ∷ es) set =
    insert_implied es
      (elim (parent_folder e.name) [ none ↦ set | some p ↦ insert_all (ancestor_paths p) set ])

unfoldable pub folders : Vault → List Bytes
unfolding insert_folders insert_implied
folders v = elim v.mounted [
  | none ↦ []
  | some m ↦ insert_implied m.manifest.entries (insert_folders m.manifest.folders [])
]

-- The names under a prefix, in the order of the entries.
unfoldable pub names_under : Bytes → List FileEntry → List Bytes
unfolding starts_with
names_under prefix [] = []
names_under prefix (e ∷ es) =
    let rest = names_under prefix es in if starts_with prefix e.name then e.name ∷ rest else rest

-- `names.iter().filter_map(|n| candidate.remove(n))`: the manifest left, and the removed entries.
unfoldable pub remove_all : Manifest → List Bytes → Manifest × List FileEntry
unfolding remove
remove_all m [] = (m, [])
remove_all m (n ∷ ns) =
    let (m', removed) = remove m n in
    let (m'', victims) = remove_all m' ns in
    (m'', elim removed [ none ↦ victims | some e ↦ e ∷ victims ])

-- `folders.retain(|f| f != norm && !f.starts_with(prefix))`
unfoldable pub retain_outside : Bytes → Bytes → List Bytes → List Bytes
unfolding starts_with
retain_outside norm prefix [] = []
retain_outside norm prefix (f ∷ fs) =
    let rest = retain_outside norm prefix fs in
    if not (bytes_eq f norm) && not (starts_with prefix f) then f ∷ rest else rest

-- The candidate of `delete_folder`, and the victims.
unfoldable pub without_folder : Manifest → Bytes → Manifest × List FileEntry
unfolding names_under remove_all retain_outside
without_folder live norm =
    let prefix = norm ++ (slash ∷ []) in
    let (m, victims) = remove_all live (names_under prefix live.entries) in
    (
      record m {
        folders = retain_outside norm prefix m.folders;
        counter = (m.counter + 1) % 2 ^ 64;
      },
      victims,
    )

abbrev pub names_of : List FileEntry → List Bytes
names_of [] = []
names_of (e ∷ es) = e.name ∷ names_of es

-- The collision check of `rename_folder`: no re-prefixed name is one of `existing`.
unfoldable pub check_collisions : List Bytes → Bytes → Bytes → List FileEntry → Result (Unit {0})
unfolding strip_prefix any
check_collisions existing old_prefix new_prefix [] = ok tt
check_collisions existing old_prefix new_prefix (e ∷ es) =
    let rest = check_collisions existing old_prefix new_prefix es in
    elim (strip_prefix old_prefix e.name) [
      | none ↦ rest
      | some tail ↦
          if any (λ n. bytes_eq n (new_prefix ++ tail)) existing
          then err (manifest (rename_would_overwrite (new_prefix ++ tail)))
          else rest
    ]

unfoldable pub rename_entries : Bytes → Bytes → List FileEntry → Result (List FileEntry)
unfolding strip_prefix validate_name
rename_entries old_prefix new_prefix [] = ok []
rename_entries old_prefix new_prefix (e ∷ es) =
    let rest = rename_entries old_prefix new_prefix es in
    elim (strip_prefix old_prefix e.name) [
      | none ↦ Error.◌>>=◌ rest (λ es'. ok (e ∷ es'))
      | some tail ↦
          Error.◌>>=◌ (validate_name (new_prefix ++ tail))
            (λ _. Error.◌>>=◌ rest (λ es'. ok (record e { name = new_prefix ++ tail } ∷ es')))
    ]

unfoldable pub rename_folders : Bytes → Bytes → List Bytes → Result (List Bytes)
unfolding strip_prefix validate_folder_path
rename_folders old_n new_n [] = ok []
rename_folders old_n new_n (f ∷ fs) =
    let rest = rename_folders old_n new_n fs in
    if bytes_eq f old_n
    then Error.◌>>=◌ rest (λ fs'. ok (new_n ∷ fs'))
    else elim (strip_prefix (old_n ++ (slash ∷ [])) f) [
      | none ↦ Error.◌>>=◌ rest (λ fs'. ok (f ∷ fs'))
      | some tail ↦
          let target = new_n ++ (slash ∷ tail) in
          Error.◌>>=◌ (validate_folder_path target)
            (λ _. Error.◌>>=◌ rest (λ fs'. ok (target ∷ fs')))
    ]

-- The candidate of `rename_folder`.
unfoldable pub with_folder_renamed : Manifest → Bytes → Bytes → Result Manifest
unfolding check_collisions rename_entries rename_folders
with_folder_renamed live old_n new_n =
    let old_prefix = old_n ++ (slash ∷ []) in
    let new_prefix = new_n ++ (slash ∷ []) in
    Error.◌>>=◌ (check_collisions (names_of live.entries) old_prefix new_prefix live.entries) (λ _.
      Error.◌>>=◌ (rename_entries old_prefix new_prefix live.entries) (λ entries.
        Error.◌>>=◌ (rename_folders old_n new_n live.folders) (λ fs. ok (record live {
          entries = entries;
          folders = fs;
          counter = (live.counter + 1) % 2 ^ 64;
        }))))

module _ (w : World) where
  unfoldable pub create_folder : Bytes → M (Unit {0})
  unfolding ensure_mutable mounted_level candidate_manifest destructive_phase publish_manifest
      valid_or_fail
  create_folder path = do
    ensure_mutable
    norm ← lift (valid_or_fail (normalize_folder path))
    lift (validate_folder_path norm)
    m ← mounted_level
    if any (λ f. bytes_eq f norm) m.manifest.folders then pure tt else do
      live ← candidate_manifest
      let candidate = record live {
        folders = live.folders ++ (norm ∷ []);
        counter = (live.counter + 1) % 2 ^ 64;
      }
      cand_bytes ← lift (serialize candidate)
      destructive_phase (publish_manifest w candidate cand_bytes false)

  unfoldable pub delete_folder : Bytes → M (Unit {0})
  unfolding ensure_mutable candidate_manifest without_folder destructive_phase shred
      publish_manifest valid_or_fail
  delete_folder path = do
    ensure_mutable
    norm ← lift (valid_or_fail (normalize_folder path))
    lift (validate_folder_path norm)
    live ← candidate_manifest
    let candidate = (without_folder live norm).0
    cand_bytes ← lift (serialize candidate)
    destructive_phase (do
      shred w (chunks_of (without_folder live norm).1)
      publish_manifest w candidate cand_bytes true)

  unfoldable pub rename_folder : Bytes → Bytes → M (Unit {0})
  unfolding ensure_mutable candidate_manifest with_folder_renamed destructive_phase publish_manifest
      valid_or_fail
  rename_folder old new = do
    ensure_mutable
    old_n ← lift (valid_or_fail (normalize_folder old))
    new_n ← lift (valid_or_fail (normalize_folder new))
    lift (validate_folder_path new_n)
    if bytes_eq old_n new_n then pure tt else do
      live ← candidate_manifest
      candidate ← lift (with_folder_renamed live old_n new_n)
      cand_bytes ← lift (serialize candidate)
      destructive_phase (publish_manifest w candidate cand_bytes false)
