-- ===== src/Format/Vault/Files.antt =====
-- The methods of vault.rs on whole files.
use farewell.Prelude.{
  ℕ, ◌+◌, ◌-◌, ◌*◌, ◌/◌, Bool, true, false, ◌||◌, Option, none, some, List, [], ◌∷◌, ◌++◌, Bytes,
  length, take, drop, ltb, ◌==◌, if◌then◌else◌, contains, bytes_eq, min, max,
}
use farewell.Format.Error.{Result, ok, panic, invalid_name, already_exists}
use farewell.Format.Manifest.{FileEntry, ChunkIndex, validate_name, find, upsert, remove}
use farewell.Format.Manifest.{chunk_plaintext_len}
use farewell.Format.Manifest.Codec.{serialize}
use farewell.Format.World.{World}
use farewell.Format.Chunk.{derive_chunk_key, decrypt_chunk}
use farewell.Format.Vault.State.{M, pure, fail, lift, ◌>>=◌, ◌>>◌}
use farewell.Format.Vault.Raw.{
  mounted_level, ensure_mutable, destructive_phase, master_key_view, candidate_manifest,
  encrypt_chunk, write_chunk_raw, read_chunk_raw, publish_manifest, shred, allocate_chunks,
}
use farewell.Format.Vault.Queries.{find_or_fail}

-- `&xs[start..end]`
unfoldable pub slice : ℕ → ℕ → Bytes → Result Bytes
slice start end xs =
    if ltb end start || ltb (length xs) end then panic else ok (take (end - start) (drop start xs))

-- `.map(|e| e.chunks.clone()).unwrap_or_default()`
abbrev pub chunks_or_none : Option FileEntry → List ChunkIndex
chunks_or_none none = []
chunks_or_none (some e) = e.chunks

-- The old chunks that were not taken over.
unfoldable pub not_in : List ChunkIndex → List ChunkIndex → List ChunkIndex
not_in allocated [] = []
not_in allocated (c ∷ cs) =
    let rest = not_in allocated cs in if contains allocated c then rest else c ∷ rest

-- `Option::is_some`
abbrev pub is_some {ℓ} : {A : Type ℓ} → Option A → Bool
is_some none = false
is_some (some a) = true

-- `entry(name)` of the mounted manifest, or the error.
unfoldable pub lookup_entry : Bytes → M FileEntry
unfolding mounted_level find_or_fail
lookup_entry name = do m ← mounted_level; lift (find_or_fail name (find m.manifest name))

module _ (w : World) where
  -- The loop of `add_file` from round `i` on.
  unfoldable pub write_plaintext : Bytes → Bytes → ℕ → List ChunkIndex → M (Unit {0})
  unfolding slice encrypt_chunk write_chunk_raw
  write_plaintext master_key plaintext i [] = pure tt
  write_plaintext master_key plaintext i (chunk_idx ∷ rest) = do
    s ← lift (
        slice (i * chunk_plaintext_len) (min ((i + 1) * chunk_plaintext_len) (length plaintext))
          plaintext)
    stored ← encrypt_chunk w (derive_chunk_key w master_key chunk_idx) chunk_idx s
    write_chunk_raw w chunk_idx stored
    write_plaintext master_key plaintext (i + 1) rest

  unfoldable pub add_file : Bytes → Bytes → M (Unit {0})
  unfolding ensure_mutable mounted_level allocate_chunks candidate_manifest master_key_view
      write_plaintext destructive_phase shred publish_manifest not_in
  add_file name plaintext = do
    ensure_mutable
    lift (validate_name name)
    m ← mounted_level
    let existing_chunks = chunks_or_none (find m.manifest name)
    let needed = max ((length plaintext + (chunk_plaintext_len - 1)) / chunk_plaintext_len) 1
    allocated ← allocate_chunks w needed existing_chunks
    live ← candidate_manifest
    let entry : FileEntry = record { name = name; size = length plaintext; chunks = allocated }
    let candidate = upsert live entry
    cand_bytes ← lift (serialize candidate)
    master_key ← master_key_view
    write_plaintext master_key plaintext 0 allocated
    destructive_phase (do
      shred w (not_in allocated existing_chunks)
      publish_manifest w candidate cand_bytes false)

  -- The loop of `read_file`: the plaintexts of the chunks, one behind the other.
  unfoldable pub read_chunks : Bytes → List ChunkIndex → M Bytes
  unfolding read_chunk_raw
  read_chunks master_key [] = pure []
  read_chunks master_key (chunk_idx ∷ rest) = do
    stored ← read_chunk_raw w chunk_idx
    pt ← lift (decrypt_chunk w (derive_chunk_key w master_key chunk_idx) chunk_idx stored)
    out ← read_chunks master_key rest
    pure (pt ++ out)

  unfoldable pub read_file : Bytes → M Bytes
  unfolding lookup_entry master_key_view read_chunks
  read_file name = do
    entry ← lookup_entry name
    master_key ← master_key_view
    out ← read_chunks master_key entry.chunks
    pure (take entry.size out)

  unfoldable pub create_empty_entry : Bytes → M (Unit {0})
  unfolding candidate_manifest destructive_phase publish_manifest
  create_empty_entry name = do
    live ← candidate_manifest
    let entry : FileEntry = record { name = name; size = 0; chunks = [] }
    let candidate = upsert live entry
    cand_bytes ← lift (serialize candidate)
    destructive_phase (publish_manifest w candidate cand_bytes false)

  unfoldable pub create_file : Bytes → M (Unit {0})
  unfolding ensure_mutable mounted_level create_empty_entry
  create_file name = do
    ensure_mutable
    lift (validate_name name)
    m ← mounted_level
    if is_some (find m.manifest name) then pure tt else create_empty_entry name

  unfoldable pub create_file_exclusive : Bytes → M (Unit {0})
  unfolding ensure_mutable mounted_level create_empty_entry
  create_file_exclusive name = do
    ensure_mutable
    lift (validate_name name)
    m ← mounted_level
    if is_some (find m.manifest name) then fail (already_exists name) else create_empty_entry name

  unfoldable pub rename_file : Bytes → Bytes → M (Unit {0})
  unfolding ensure_mutable lookup_entry mounted_level candidate_manifest destructive_phase shred
      publish_manifest
  rename_file old_name new_name = do
    ensure_mutable
    lift (validate_name new_name)
    if length old_name == 0
        then fail invalid_name
        else if bytes_eq old_name new_name
        then pure tt
        else do
          old_entry ← lookup_entry old_name
          m ← mounted_level
          let renamed : FileEntry = record old_entry { name = new_name }
          let displaced_chunks = chunks_or_none (find m.manifest new_name)
          live ← candidate_manifest
          let candidate = upsert (remove (remove live old_name).0 new_name).0 renamed
          cand_bytes ← lift (serialize candidate)
          destructive_phase
              (do shred w displaced_chunks; publish_manifest w candidate cand_bytes false)

  unfoldable pub delete_file : Bytes → M (Unit {0})
  unfolding ensure_mutable candidate_manifest destructive_phase shred publish_manifest find_or_fail
  delete_file name = do
    ensure_mutable
    live ← candidate_manifest
    entry ← lift (find_or_fail name (remove live name).1)
    let candidate = (remove live name).0
    cand_bytes ← lift (serialize candidate)
    destructive_phase (do shred w entry.chunks; publish_manifest w candidate cand_bytes true)
