-- ===== src/Format/Vault/Commits/Counter.antt =====
-- How the operations of manifest.rs and vault.rs on the tree raise its counter, a u64 that wraps.
use farewell.Prelude.{
  ◌+◌, ◌%◌, ◌^◌, ◌<◌, ◌≤◌, ◌≡◌, sym, ap, some, List, [], ◌∷◌, ◌++◌, Bytes, arith, length,
}
use farewell.Format.Error
use farewell.Format.Error.{Result, ok}
use farewell.Format.Manifest.{Manifest, FileEntry, upsert, remove}
use farewell.Format.Vault.Folders.{
  names_of, names_under, remove_all, without_folder, with_folder_renamed, check_collisions,
  rename_entries, rename_folders,
}
use farewell.Format.Vault.Paths.{slash}

-- The counter is far enough from its wrap for any one operation: each removes or adds three entries
-- at most, or removes the entries below a folder.
abbrev pub HasRoom : Manifest → Type 0
HasRoom m = m.counter + length m.entries + 3 < 2 ^ 64

pub counter-upsert :
    (m : Manifest) (e : FileEntry) → m.counter + 1 < 2 ^ 64 → (upsert m e).counter ≡ m.counter + 1
unfolding upsert
counter-upsert m e h = omega arith

pub counter-remove :
    (m : Manifest) (name : Bytes)
    → m.counter + 1 < 2 ^ 64
    → (m.counter ≤ (remove m name).0.counter) × ((remove m name).0.counter ≤ m.counter + 1)
unfolding remove
counter-remove m name h = ground arith

pub counter-remove_found :
    (m : Manifest) (name : Bytes) (e : FileEntry)
    → m.counter + 1 < 2 ^ 64
    → (remove m name).1 ≡ some e
    → m.counter < (remove m name).0.counter
unfolding remove
counter-remove_found m name e room h = ground arith

counter-remove_all :
    (m : Manifest) (names : List Bytes)
    → m.counter + length names < 2 ^ 64
    → (m.counter ≤ (remove_all m names).0.counter)
      × ((remove_all m names).0.counter ≤ m.counter + length names)
unfolding remove_all
counter-remove_all m [] h = (omega arith, omega arith)
counter-remove_all m (n ∷ ns) h =
    let (lo, hi) = counter-remove m n (omega arith) in
    let (lo', hi') = counter-remove_all (remove m n).0 ns (omega arith) in
    (omega arith, omega arith)

length-names_under :
    (prefix : Bytes) (es : List FileEntry) → length (names_under prefix es) ≤ length es
unfolding names_under
length-names_under prefix [] = omega arith
length-names_under prefix (e ∷ es) = let ih = length-names_under prefix es in ground arith

pub counter-without_folder :
    (m : Manifest) (norm : Bytes) → HasRoom m → m.counter < (without_folder m norm).0.counter
unfolding without_folder
counter-without_folder m norm room =
    let short = length-names_under (norm ++ (slash ∷ [])) m.entries in
    let (lo, hi) =
      counter-remove_all m (names_under (norm ++ (slash ∷ [])) m.entries) (omega arith) in
    omega arith

pub counter-with_folder_renamed :
    (m : Manifest) (old_n new_n : Bytes) (candidate : Manifest)
    → with_folder_renamed m old_n new_n ≡ ok candidate
    → candidate.counter ≡ (m.counter + 1) % 2 ^ 64
unfolding with_folder_renamed
counter-with_folder_renamed m old_n new_n candidate h =
    let old_prefix = old_n ++ (slash ∷ []) in
    let new_prefix = new_n ++ (slash ∷ []) in
    let (u, free, h1) =
      Error.>>=-eq-ok (check_collisions (names_of m.entries) old_prefix new_prefix m.entries) _ h in
    let (es, entries, h2) = Error.>>=-eq-ok (rename_entries old_prefix new_prefix m.entries) _ h1 in
    let (fs, folders, h3) = Error.>>=-eq-ok (rename_folders old_n new_n m.folders) _ h2 in
    let made : record m { entries = es; folders = fs; counter = (m.counter + 1) % 2 ^ 64 }
        ≡ candidate =
      cc h3 in
    ap (λ t. t.counter) (sym made)
