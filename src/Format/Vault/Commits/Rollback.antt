-- ===== src/Format/Vault/Commits/Rollback.antt =====
-- The counter of the manifest as the guard against an older file put in place
-- (`require_counter_at_least` of vault.rs).
use farewell.Prelude.{ℕ, ◌<◌, ◌≡◌, ◌⊎◌, inl, inr, true, false, some, List, arith, ltb}
use farewell.Format.Error.{ok, err, counter_rollback}
use farewell.Format.Manifest.{Manifest, ChunkIndex}
use farewell.Format.World.{World, IsLawful}
use farewell.Format.Vault.State.{Vault, MountedLevel}
use farewell.Format.Vault.Queries.{counter, require_counter_at_least}
use farewell.Format.Vault.Publish.{IsCommitted}
use farewell.Format.Vault.Mutations.{TreeMutation, run_tree}
use farewell.Format.Vault.Commits.Counter.{HasRoom}
use farewell.Format.Vault.Commits.Tree.{IsDone, run_tree-Commit}

-- Whoever has recorded the counter of the newer vault refuses the older one, and not the newer one.
pub record IsNewer (v v' : Vault) : Type 0 where
  pub recorded : ℕ
  pub old : ℕ
  pub newer_counter : counter v' ≡ some recorded
  pub refuses_old : require_counter_at_least v recorded ≡ err (counter_rollback recorded old)
  pub accepts_new : require_counter_at_least v' recorded ≡ ok tt

committed-IsNewer :
    (w : World) (m : MountedLevel) (candidate : Manifest) (freed : List ChunkIndex) (v v' : Vault)
    → v.mounted ≡ some m
    → m.manifest.counter < candidate.counter
    → IsCommitted w m candidate freed v v'
    → IsNewer v v'
unfolding require_counter_at_least counter
committed-IsNewer w m candidate freed v v' mounted more done =
    let below : ltb m.manifest.counter candidate.counter ≡ true = ground arith in
    let same : ltb candidate.counter candidate.counter ≡ false = ground arith in
    record {
      recorded = candidate.counter;
      old = m.manifest.counter;
      newer_counter = rw done.installed;
      refuses_old = rw (mounted, below);
      accepts_new = rw (done.installed, same);
    }

-- In a lawful world, a mutation of the tree that succeeds has found its work done (the file or
-- folder to create is there, the new name is the old one) and has changed nothing, or has raised
-- the counter, where the counter is further from 2 ^ 64 than the number of files and 3: with the
-- new counter on record, the older vault is refused as a rollback and the newer one is not.
pub run_tree-IsNewer :
    (w : World)
    → IsLawful w
    → (v v' : Vault) (m : MountedLevel) → v.mounted ≡ some m
    → HasRoom m.manifest
    → (op : TreeMutation) → run_tree w op v ≡ (ok tt, v')
    → (IsDone m.manifest op × (v' ≡ v)) ⊎ IsNewer v v'
run_tree-IsNewer w lawful v v' m mounted room op h =
    elim (run_tree-Commit w lawful v v' m mounted op h) [
      | inl same ↦ inl same
      | inr c ↦ inr (committed-IsNewer w m c.candidate c.freed v v' mounted (c.higher room) c.done)
    ]
