-- ===== src/Format/Vault/Commits/Durable.antt =====
-- What the next `open` finds in the manifest chunk behind any mutation of the tree.
use farewell.Prelude.{◌<◌, ◌≡◌, sym, ap, ◌∙◌, ◌⊎◌, inl, inr, some, length}
use mathlib.Core.Path.{subst}
use farewell.Format.Error.{ok}
use farewell.Format.Manifest.Codec.RoundTrip.{IsManifest, stored}
use farewell.Format.World.{World, IsLawful}
use farewell.Format.Vault.State.{Vault, MountedLevel}
use farewell.Format.Vault.Mutations.{TreeMutation, run_tree}
use farewell.Format.Vault.Commits.Reopen.{read_manifest, read_manifest-IsCommitted}
use farewell.Format.Vault.Commits.Tree.{IsDone, run_tree-Commit}

-- The level in memory is the one of before but for its tree, and the manifest chunk on disk decrypts
-- under its key and parses to that tree.
pub record IsDurable (w : World) (m m' : MountedLevel) (v' : Vault) : Type 0 where
  pub same_key : m'.master ≡ m.master
  pub same_chunk : m'.manifest_chunk ≡ m.manifest_chunk
  pub on_disk : read_manifest w m (v'.file m.manifest_chunk) ≡ ok (stored m'.manifest)

some-inj {ℓ} : {A : Type ℓ} {a b : A} → some a ≡ some b → a ≡ b
some-inj h = cc h

-- In a lawful world, a mutation of the tree that succeeds has found its work done (the file or
-- folder to create is there, the new name is the old one) and has changed nothing, or the manifest
-- chunk on disk decrypts under the key of before, and parses to the tree that is in memory now,
-- where that tree is one of Rust's types with fewer than 256 child slots; an owner that is the
-- empty string comes back as none.
pub run_tree-IsDurable :
    (w : World)
    → IsLawful w
    → (v v' : Vault) (m m' : MountedLevel) → v.mounted ≡ some m
    → v'.mounted ≡ some m'
    → IsManifest m'.manifest
    → length m'.manifest.child_slots < 256
    → (op : TreeMutation) → run_tree w op v ≡ (ok tt, v')
    → (IsDone m.manifest op × (v' ≡ v)) ⊎ IsDurable w m m' v'
run_tree-IsDurable w lawful v v' m m' mounted mounted' typed slots op h =
    elim (run_tree-Commit w lawful v v' m mounted op h) [
      | inl same ↦ inl same
      | inr c ↦
          let now : m' ≡ record m { manifest = c.candidate } =
            some-inj (sym mounted' ∙ c.done.installed) in
          let tree : m'.manifest ≡ c.candidate = ap (λ t. t.manifest) now in
          inr (record {
            same_key = ap (λ t. t.master) now;
            same_chunk = ap (λ t. t.manifest_chunk) now;
            on_disk =
                read_manifest-IsCommitted w m c.candidate c.freed v v' (subst IsManifest tree typed)
                  (subst (λ t. length t.child_slots < 256) tree slots) c.done
                ∙ ap (λ t. ok (stored t)) (sym tree);
          })
    ]
