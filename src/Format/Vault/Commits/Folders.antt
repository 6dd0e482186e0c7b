-- ===== src/Format/Vault/Commits/Folders.antt =====
-- What the folder methods of vault.rs have done where they succeed.
use farewell.Prelude.{
  ◌+◌, ◌%◌, ◌^◌, ◌≡◌, sym, ap, ◌∙◌, ◌⊎◌, inl, inr, Bool, true, false, Option, none, some, [], ◌∷◌,
  ◌++◌, Bytes, Bool-cases, bytes_eq, any, if◌then◌else◌,
}
use mathlib.Core.Path.{subst}
use farewell.Format.Error.{Result, ok}
use farewell.Format.Manifest.{Manifest, validate_folder_path}
use farewell.Format.World.{World, IsLawful}
use farewell.Format.Vault.State.{Vault, MountedLevel, M, pure}
use farewell.Format.Vault.Raw.{mounted_level, candidate_manifest, chunks_of}
use farewell.Format.Vault.Folders.{
  valid_or_fail, create_folder, delete_folder, rename_folder, without_folder, with_folder_renamed,
}
use farewell.Format.Vault.Paths.{normalize_folder}
use farewell.Format.Vault.Keeps.{at_level}
use farewell.Format.Vault.Publish.{continue-eq-ok, IsCommitted}
use farewell.Format.Vault.Commits.{ensure_mutable-eq-ok, commit, commit_tree}

valid_or_fail-eq-ok : (o : Option Bytes) {p : Bytes} → valid_or_fail o ≡ ok p → o ≡ some p
unfolding valid_or_fail
valid_or_fail-eq-ok none h = cc
valid_or_fail-eq-ok (some q) h = cc

if_false-eq {ℓ} :
    {B : Type ℓ} (b : Bool) (yes' no' : M B) (v : Vault) {r : Result B × Vault}
    → b ≡ false
    → (if b then yes' else no') v ≡ r
    → no' v ≡ r
if_false-eq true yes' no' v e h = absurd cc
if_false-eq false yes' no' v e h = h

if_true-pure :
    (b : Bool) (no' : M (Unit {0})) (v : Vault) {v' : Vault}
    → b ≡ true
    → (if b then pure tt else no') v ≡ (ok tt, v')
    → v' ≡ v
if_true-pure true no' v e h = sym (ap (λ p. p.1) h)
if_true-pure false no' v e h = absurd cc

module _ (w : World) (lawful : IsLawful w) (v v' : Vault) (m : MountedLevel)
    (mounted : v.mounted ≡ some m) where
  -- Deleting a folder commits the candidate of its normalized path.
  pub delete_folder-IsCommitted :
      (path : Bytes)
      → delete_folder w path v ≡ (ok tt, v')
      → (norm : Bytes) × (normalize_folder path ≡ some norm)
        × IsCommitted w m
            (without_folder m.manifest norm).0
            (chunks_of (without_folder m.manifest norm).1)
            v
            v'
  unfolding delete_folder candidate_manifest mounted_level
  delete_folder-IsCommitted path h =
      let here : Vault = record v { mounted = some m } in
      let h0 = subst (λ t. delete_folder w path t ≡ (ok tt, v')) (at_level v m mounted) h in
      let (live, h1) = ensure_mutable-eq-ok _ here h0 in
      let (norm, valid, h2) = continue-eq-ok (valid_or_fail (normalize_folder path)) _ here h1 in
      let (u, short, h3) = continue-eq-ok (validate_folder_path norm) _ here h2 in
      (norm, valid_or_fail-eq-ok _ valid, commit w lawful v v' m mounted _ _ true h3)

  -- Renaming a folder changes nothing, or commits the candidate of two normalized paths.
  pub rename_folder-IsCommitted :
      (old new : Bytes)
      → rename_folder w old new v ≡ (ok tt, v')
      → (old_n : Bytes) × (new_n : Bytes) × (normalize_folder old ≡ some old_n)
        × (normalize_folder new ≡ some new_n)
        × (((bytes_eq old_n new_n ≡ true) × (v' ≡ v))
            ⊎ ((candidate : Manifest) × (with_folder_renamed m.manifest old_n new_n ≡ ok candidate)
                × IsCommitted w m candidate [] v v'))
  unfolding rename_folder candidate_manifest mounted_level
  rename_folder-IsCommitted old new h =
      let here : Vault = record v { mounted = some m } in
      let h0 = subst (λ t. rename_folder w old new t ≡ (ok tt, v')) (at_level v m mounted) h in
      let (live, h1) = ensure_mutable-eq-ok _ here h0 in
      let (old_n, valid, h2) = continue-eq-ok (valid_or_fail (normalize_folder old)) _ here h1 in
      let (new_n, valid', h3) = continue-eq-ok (valid_or_fail (normalize_folder new)) _ here h2 in
      let (u, short, h4) = continue-eq-ok (validate_folder_path new_n) _ here h3 in
      (
        old_n,
        new_n,
        valid_or_fail-eq-ok _ valid,
        valid_or_fail-eq-ok _ valid',
        elim (Bool-cases (bytes_eq old_n new_n)) [
          | inl same ↦ inl (same, if_true-pure _ _ here same h4 ∙ sym (at_level v m mounted))
          | inr other ↦
              let (candidate, renamed, h5) =
                continue-eq-ok (with_folder_renamed m.manifest old_n new_n) _ here
                  (if_false-eq _ (pure tt) _ here other h4) in
              inr (candidate, renamed, commit_tree w lawful v v' m mounted candidate false h5)
        ],
      )

  -- Creating a folder that succeeds leaves its normalized path among the folders: it was there, and
  -- nothing has changed, or it joins the tree, and no block but the manifest's is touched.
  pub create_folder-IsCommitted :
      (path : Bytes)
      → create_folder w path v ≡ (ok tt, v')
      → (norm : Bytes) × (normalize_folder path ≡ some norm)
        × (((any (λ f. bytes_eq f norm) m.manifest.folders ≡ true) × (v' ≡ v))
            ⊎ IsCommitted w m
                (record m.manifest {
                  folders = m.manifest.folders ++ (norm ∷ []);
                  counter = (m.manifest.counter + 1) % 2 ^ 64;
                })
                []
                v
                v')
  unfolding create_folder candidate_manifest mounted_level
  create_folder-IsCommitted path h =
      let here : Vault = record v { mounted = some m } in
      let h0 = subst (λ t. create_folder w path t ≡ (ok tt, v')) (at_level v m mounted) h in
      let (live, h1) = ensure_mutable-eq-ok _ here h0 in
      let (norm, valid, h2) = continue-eq-ok (valid_or_fail (normalize_folder path)) _ here h1 in
      let (u, short, h3) = continue-eq-ok (validate_folder_path norm) _ here h2 in
      (
        norm,
        valid_or_fail-eq-ok _ valid,
        elim (Bool-cases (any (λ f. bytes_eq f norm) m.manifest.folders)) [
          | inl there ↦ inl (there, if_true-pure _ _ here there h3 ∙ sym (at_level v m mounted))
          | inr absent ↦ inr (
              commit_tree w lawful v v' m mounted _ false
                (if_false-eq _ (pure tt) _ here absent h3))
        ],
      )
