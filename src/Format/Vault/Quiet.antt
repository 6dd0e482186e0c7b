-- ===== src/Format/Vault/Quiet.antt =====
-- The internals of vault.rs that only read the state.
use farewell.Prelude.{ℕ, List, Bytes, arith, length, take, ◌==◌}
use farewell.Format.Error.{full}
use farewell.Format.Manifest.{ChunkIndex}
use farewell.Format.World.{World}
use farewell.Format.Vault.Keeps.{
  Unchanged, Unchanged-refl, IsQuiet, IsQuiet-bind, IsQuiet-lift, IsQuiet-pure, IsQuiet-if,
  IsQuiet-fail, IsQuiet-tick, quiet_rules, refusal_rules,
}
use farewell.Format.Vault.Raw.{
  mounted_level, ensure_mutable, master_key_view, candidate_manifest, read_chunk_raw, tick,
  encrypt_chunk, allocate_chunks,
}
use farewell.Format.Vault.Files.{lookup_entry}

pub IsQuiet-mounted_level : IsQuiet mounted_level
unfolding mounted_level
IsQuiet-mounted_level = record { at = λ v. ground arith }

pub IsQuiet-ensure_mutable : IsQuiet ensure_mutable
unfolding ensure_mutable
IsQuiet-ensure_mutable = record { at = λ v. ground arith }

pub IsQuiet-master_key_view : IsQuiet master_key_view
unfolding master_key_view
IsQuiet-master_key_view = search (quiet_rules, IsQuiet-mounted_level)

pub IsQuiet-candidate_manifest : IsQuiet candidate_manifest
unfolding candidate_manifest
IsQuiet-candidate_manifest = search (quiet_rules, IsQuiet-mounted_level)

pub IsQuiet-lookup_entry : (name : Bytes) → IsQuiet (lookup_entry name)
unfolding lookup_entry
IsQuiet-lookup_entry name = search (quiet_rules, IsQuiet-mounted_level)

pub ruleset reads = (
  quiet_rules, refusal_rules, IsQuiet-mounted_level, IsQuiet-ensure_mutable,
  IsQuiet-master_key_view, IsQuiet-candidate_manifest, IsQuiet-lookup_entry,
)

module _ (w : World) where
  pub IsQuiet-read_chunk_raw : (idx : ℕ) → IsQuiet (read_chunk_raw w idx)
  unfolding read_chunk_raw tick
  IsQuiet-read_chunk_raw idx = record { at = λ v. ground arith }

  pub IsQuiet-encrypt_chunk :
      (key : Bytes) (idx : ChunkIndex) (plaintext : Bytes)
      → IsQuiet (encrypt_chunk w key idx plaintext)
  unfolding encrypt_chunk
  IsQuiet-encrypt_chunk key idx plaintext = IsQuiet-bind tick _ IsQuiet-tick (λ t. IsQuiet-lift _)

  pub IsQuiet-allocate_chunks :
      (n : ℕ) (reusable : List ChunkIndex) → IsQuiet (allocate_chunks w n reusable)
  unfolding allocate_chunks
  IsQuiet-allocate_chunks n reusable = record {
    at = λ v.
        (IsQuiet-bind mounted_level _ IsQuiet-mounted_level λ m.
            IsQuiet-if (length (take n reusable) == n) _ _ (IsQuiet-pure (take n reusable)) (
              IsQuiet-bind tick _ IsQuiet-tick
                λ t. IsQuiet-if _ _ _ (IsQuiet-fail full) (IsQuiet-pure _))).at
          v;
  }
