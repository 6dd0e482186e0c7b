-- ===== src/Format/Vault/Ranges.antt =====
-- The methods of vault.rs on byte ranges of a file.
use farewell.Prelude.{
  ℕ, zero, suc, ◌+◌, ◌-◌, ◌*◌, ◌/◌, ◌^◌, Bool, true, false, ◌||◌, not, Option, none, some, List, [],
  ◌∷◌, ◌++◌, Bytes, length, take, drop, replicate, set, get_elem?, ltb, leb, ◌==◌, if◌then◌else◌,
  min, max,
}
use farewell.Format.Error
use farewell.Format.Error.{
  Result, ok, err, panic, overflow, full, manifest, chunk_list_inconsistent,
}
use farewell.Format.Manifest.{FileEntry, ChunkIndex, validate_name, upsert, chunk_plaintext_len}
use farewell.Format.Manifest.Codec.{serialize}
use farewell.Format.World.{World}
use farewell.Format.Chunk.{derive_chunk_key, decrypt_chunk}
use farewell.Format.Vault.State.{M, pure, fail, lift, ◌>>=◌, ◌>>◌}
use farewell.Format.Vault.Raw.{
  ensure_mutable, destructive_phase, master_key_view, candidate_manifest, encrypt_chunk,
  write_chunk_raw, read_chunk_raw, publish_manifest, shred, allocate_chunks,
}
use farewell.Format.Vault.Queries.{space}
use farewell.Format.Vault.Files.{slice, lookup_entry}

-- The chunks that hold `n` bytes.
abbrev pub chunks_for : ℕ → ℕ
chunks_for n = (n + (chunk_plaintext_len - 1)) / chunk_plaintext_len

abbrev pub u64_max : ℕ
u64_max = 2 ^ 64 - 1

-- `u64::checked_add`
unfoldable pub checked_add : ℕ → ℕ → Result ℕ
checked_add a b = if ltb u64_max (a + b) then err overflow else ok (a + b)

-- `xs[start..].copy_from_slice(part)` for a part that fits.
unfoldable pub copy_at : ℕ → Bytes → Bytes → Bytes
copy_at start part xs = take start xs ++ (part ++ drop (start + length part) xs)

-- `first_dirty`: the first chunk that a write must encrypt again.
unfoldable pub first_dirty : ℕ → ℕ → ℕ
first_dirty current_size offset =
    if current_size == 0
    then 0
    else if leb offset current_size
    then offset / chunk_plaintext_len
    else (current_size - 1) / chunk_plaintext_len

-- A read or write window: the file's size before and after, and the range.
pub record Window : Type 0 where
  pub offset : ℕ
  pub end_byte : ℕ
  pub current_size : ℕ
  pub new_size : ℕ

-- What the write data puts over the chunk that begins at `start`.
unfoldable pub overlay : Window → Bytes → ℕ → ℕ → Bytes → Result Bytes
unfolding slice copy_at
overlay r bytes start chunk_real_end plaintext =
    let overlap_start = max r.offset start in
    let overlap_end = min r.end_byte chunk_real_end in
    if ltb overlap_start overlap_end
    then Error.◌>>=◌ (slice (overlap_start - r.offset) (overlap_end - r.offset) bytes)
        (λ part. ok (copy_at (overlap_start - start) part plaintext))
    else ok plaintext

-- `if let Some((_, free)) = self.space() { if bytes > free … }`
unfoldable pub exceeds : ℕ → Option (ℕ × ℕ) → Bool
exceeds bytes none = false
exceeds bytes (some (total, free)) = ltb free bytes

-- `xs[i]`
unfoldable pub index_or_panic {ℓ} : {A : Type ℓ} → Option A → Result A
index_or_panic none = panic
index_or_panic (some a) = ok a

abbrev pub grow_window : ℕ
grow_window = 64 * chunk_plaintext_len

module _ (w : World) where
  -- The part of the window that lies in logical chunk `i`, whose stored block was read.
  unfoldable pub window_part : Bytes → ℕ → ℕ → ℕ → ChunkIndex → Bytes → Result Bytes
  unfolding slice
  window_part master_key offset end_byte i chunk_idx stored =
      let start = i * chunk_plaintext_len in
      Error.◌>>=◌ (decrypt_chunk w (derive_chunk_key w master_key chunk_idx) chunk_idx stored)
        (λ pt.
          slice (if ltb start offset then offset - start else 0)
            (min (end_byte - start) (length pt)) pt)

  -- The loop of `read_file_range` over the chunks of the window, from logical chunk `i` on.
  unfoldable pub read_window : Bytes → ℕ → ℕ → ℕ → List ChunkIndex → M Bytes
  unfolding read_chunk_raw window_part
  read_window master_key offset end_byte i [] = pure []
  read_window master_key offset end_byte i (chunk_idx ∷ rest) = do
    stored ← read_chunk_raw w chunk_idx
    part ← lift (window_part master_key offset end_byte i chunk_idx stored)
    out ← read_window master_key offset end_byte (i + 1) rest
    pure (part ++ out)

  unfoldable pub read_file_range : Bytes → ℕ → ℕ → M Bytes
  unfolding lookup_entry master_key_view read_window
  read_file_range name offset len = do
    entry ← lookup_entry name
    if leb entry.size offset || len == 0 then pure [] else do
      let effective_len = min len (entry.size - offset)
      let end_byte = offset + effective_len
      let first_chunk = offset / chunk_plaintext_len
      let last_chunk_exclusive = min (chunks_for end_byte) (length entry.chunks)
      if leb last_chunk_exclusive first_chunk then fail (manifest chunk_list_inconsistent) else do
        master_key ← master_key_view
        read_window master_key offset end_byte first_chunk
            (take (last_chunk_exclusive - first_chunk) (drop first_chunk entry.chunks))

  -- The old content of the chunk at a position, in the prefix of its new plaintext.
  unfoldable pub preserve : Bytes → Option ChunkIndex → ℕ → ℕ → Bytes → M Bytes
  unfolding read_chunk_raw copy_at
  preserve master_key none start old_real_end plaintext = pure plaintext
  preserve master_key (some old) start old_real_end plaintext =
      if not (ltb start old_real_end) then pure plaintext else do
        stored ← read_chunk_raw w old
        old_pt ← lift (decrypt_chunk w (derive_chunk_key w master_key old) old stored)
        let preserved = min (length old_pt) (length plaintext)
        pure (copy_at 0 (take preserved old_pt) plaintext)

  -- The loop of `write_file_range` over the fresh chunks, the first of them at position `i`.
  unfoldable pub write_window :
      Bytes → Window → Bytes → List ChunkIndex → ℕ → List ChunkIndex → M (Unit {0})
  unfolding preserve overlay encrypt_chunk write_chunk_raw
  write_window master_key r bytes current_chunks i [] = pure tt
  write_window master_key r bytes current_chunks i (fresh_idx ∷ rest) = do
    let start = i * chunk_plaintext_len
    let end_cap = start + chunk_plaintext_len
    let chunk_real_end = min r.new_size end_cap
    kept ←
        preserve master_key (get_elem? current_chunks i) start (min end_cap r.current_size)
          (replicate (chunk_real_end - start) 0)
    plaintext ← lift (overlay r bytes start chunk_real_end kept)
    stored ← encrypt_chunk w (derive_chunk_key w master_key fresh_idx) fresh_idx plaintext
    write_chunk_raw w fresh_idx stored
    write_window master_key r bytes current_chunks (i + 1) rest

  unfoldable pub write_file_range : Bytes → ℕ → Bytes → M (Unit {0})
  unfolding ensure_mutable lookup_entry checked_add first_dirty allocate_chunks master_key_view
      candidate_manifest write_window destructive_phase shred publish_manifest
  write_file_range name offset bytes = do
    ensure_mutable
    lift (validate_name name)
    if length bytes == 0 then pure tt else do
      entry ← lookup_entry name
      end_byte ← lift (checked_add offset (length bytes))
      let new_size = max end_byte entry.size
      rounded ← lift (checked_add new_size (chunk_plaintext_len - 1))
      let new_chunk_count = rounded / chunk_plaintext_len
      if ltb (2 ^ 32 - 1) new_chunk_count then fail overflow else do
        let dirty = first_dirty entry.size offset
        fresh ← allocate_chunks w (new_chunk_count - dirty) []
        master_key ← master_key_view
        let new_chunks_list = take dirty entry.chunks ++ fresh
        live ← candidate_manifest
        let written : FileEntry = record { name = name; size = new_size; chunks = new_chunks_list }
        let candidate = upsert live written
        cand_bytes ← lift (serialize candidate)
        let to_free = take (length fresh) (drop dirty entry.chunks)
        let window : Window = record {
          offset = offset;
          end_byte = end_byte;
          current_size = entry.size;
          new_size = new_size;
        }
        write_window master_key window bytes entry.chunks dirty fresh
        destructive_phase (do shred w to_free; publish_manifest w candidate cand_bytes false)

  -- The loop of the grow path. A round writes one byte at least, so `new_size - cursor` rounds are
  -- enough; `panic` stands for a loop that runs on.
  unfoldable pub grow : ℕ → Bytes → ℕ → ℕ → ℕ → M (Unit {0})
  unfolding write_file_range
  grow zero name window cursor new_size = if ltb cursor new_size then lift panic else pure tt
  grow (suc fuel) name window cursor new_size =
      let n = min window (new_size - cursor) in
      let rest = grow fuel name window (cursor + n) new_size in
      if ltb cursor new_size
      then (write_file_range name cursor (replicate n 0) >> rest)
      else pure tt

  -- The capacity check and the loop.
  unfoldable pub grow_path : Bytes → ℕ → ℕ → M (Unit {0})
  unfolding grow exceeds space
  grow_path name current_size new_size v =
      if exceeds (new_size - current_size) (space v)
      then (err full, v)
      else grow (new_size - current_size) name (min grow_window (new_size - current_size))
          current_size new_size v

  -- The straddled last chunk of a shrunk file is encrypted again: the chunk list with it, and the
  -- chunk that it replaces.
  unfoldable pub shorten_last : List ChunkIndex → ℕ → ℕ → M (List ChunkIndex × List ChunkIndex)
  unfolding master_key_view read_chunk_raw slice allocate_chunks encrypt_chunk write_chunk_raw
  shorten_last kept last new_last_real_len = do
    master_key ← master_key_view
    old_idx ← lift (index_or_panic (get_elem? kept last))
    stored ← read_chunk_raw w old_idx
    old_pt ← lift (decrypt_chunk w (derive_chunk_key w master_key old_idx) old_idx stored)
    truncated ← lift (slice 0 new_last_real_len old_pt)
    allocated ← allocate_chunks w 1 []
    fresh ← lift (index_or_panic (get_elem? allocated 0))
    new_stored ← encrypt_chunk w (derive_chunk_key w master_key fresh) fresh truncated
    write_chunk_raw w fresh new_stored
    pure (set kept last fresh, old_idx ∷ [])

  -- The chunk list of the shrunk file, and what is to be freed besides the dropped chunks.
  unfoldable pub shrink_last : ℕ → ℕ → ℕ → List ChunkIndex → M (List ChunkIndex × List ChunkIndex)
  unfolding shorten_last
  shrink_last current_size new_size new_chunk_count kept =
      if new_chunk_count == 0
      then pure (kept, [])
      else (let last = new_chunk_count - 1 in
          let start = last * chunk_plaintext_len in
          let old_last_real_len = min ((last + 1) * chunk_plaintext_len) current_size - start in
          let new_last_real_len = new_size - start in
          if new_last_real_len == old_last_real_len
          then pure (kept, [])
          else shorten_last kept last new_last_real_len)

  unfoldable pub shrink : Bytes → FileEntry → ℕ → M (Unit {0})
  unfolding shrink_last candidate_manifest destructive_phase shred publish_manifest
  shrink name entry new_size = do
    let new_chunk_count = chunks_for new_size
    if ltb (length entry.chunks) new_chunk_count then lift panic else do
      (new_chunks_list, replaced) ←
          shrink_last entry.size new_size new_chunk_count (take new_chunk_count entry.chunks)
      let to_free = drop new_chunk_count entry.chunks ++ replaced
      live ← candidate_manifest
      let shrunk : FileEntry = record { name = name; size = new_size; chunks = new_chunks_list }
      let candidate = upsert live shrunk
      cand_bytes ← lift (serialize candidate)
      destructive_phase (do shred w to_free; publish_manifest w candidate cand_bytes true)

  unfoldable pub truncate_file : Bytes → ℕ → M (Unit {0})
  unfolding ensure_mutable lookup_entry grow_path shrink
  truncate_file name new_size = do
    ensure_mutable
    lift (validate_name name)
    entry ← lookup_entry name
    if new_size == entry.size
        then pure tt
        else if ltb entry.size new_size
        then grow_path name entry.size new_size
        else shrink name entry new_size
