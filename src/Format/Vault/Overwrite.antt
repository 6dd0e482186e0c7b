-- ===== src/Format/Vault/Overwrite.antt =====
-- `add_file` of vault.rs over a file that exists writes into that file's chunks before the
-- destructive phase.
use farewell.Prelude.{
  ℕ, ◌+◌, ◌-◌, ◌/◌, ◌≡◌, ◌≤◌, ◌<◌, refl, sym, append-nil, take-append, ap, ◌∙◌, false, some, [],
  ◌∷◌, Bytes, length, take, drop, min, max, arith, if◌then◌else◌, ◌==◌, leb, ltb,
}
use farewell.Format.Error.{ok, err, io, FormatError}
use farewell.Format.Manifest.{
  ChunkIndex, FileEntry, upsert, find, validate_name, chunk_plaintext_len,
}
use farewell.Format.Manifest.Codec.{serialize}
use farewell.Format.Chunk
use farewell.Format.Chunk.{derive_chunk_key}
use farewell.Format.World.{World, nonce_len}
use farewell.Format.Vault.State.{Vault, MountedLevel, M, lift, continue, ◌>>=◌}
use farewell.Format.Vault.Raw.{
  mounted_level, ensure_mutable, master_key_view, candidate_manifest, tick, put_block,
  encrypt_chunk, allocate_chunks, write_chunk_raw,
}
use farewell.Format.Vault.Files.{slice, write_plaintext, add_file, chunks_or_none}

module _ {ℓ κ} {A : Type ℓ} {B : Type κ} (act : M A) (f : A → M B) (v : Vault) where
  pub bind-ok : {a : A} {v' : Vault} → act v ≡ (ok a, v') → (act >>= f) v ≡ f a v'
  bind-ok h = ap (λ r. continue r.0 f r.1) h

  pub bind-err : {e : FormatError} {v' : Vault} → act v ≡ (err e, v') → (act >>= f) v ≡ (err e, v')
  bind-err h = ap (λ r. continue r.0 f r.1) h

pub mounted_level-ok :
    (v : Vault) (m : MountedLevel) → v.mounted ≡ some m → mounted_level v ≡ (ok m, v)
unfolding mounted_level
mounted_level-ok v m mounted = rw mounted

ensure_mutable-ok : (v : Vault) → v.poisoned ≡ false → ensure_mutable v ≡ (ok tt, v)
unfolding ensure_mutable
ensure_mutable-ok v p = rw p

one_chunk :
    (n : ℕ)
    → n ≤ chunk_plaintext_len
    → max ((n + (chunk_plaintext_len - 1)) / chunk_plaintext_len) 1 ≡ 1
one_chunk n h = omega arith

slice-all : (xs : Bytes) → slice 0 (length xs) xs ≡ ok xs
unfolding slice drop
slice-all xs =
    let whole : take (length xs) xs ≡ xs =
      ap (take (length xs)) (sym (append-nil xs)) ∙ take-append (length xs) xs [] refl in
    let first : ltb (length xs) 0 ≡ false = ground arith in
    let last : ltb (length xs) (length xs) ≡ false = ground arith in
    let width : length xs - 0 ≡ length xs = omega arith in rw (first, last, width, whole)

slice-whole :
    (xs : Bytes)
    → length xs ≤ chunk_plaintext_len
    → slice 0 (min chunk_plaintext_len (length xs)) xs ≡ ok xs
slice-whole xs h =
    let fits : min chunk_plaintext_len (length xs) ≡ length xs = omega arith in
    ap (λ n. slice 0 n xs) fits ∙ slice-all xs

module _ (w : World) where
  reuse_one :
      (v : Vault) (m : MountedLevel) (c : ChunkIndex)
      → v.mounted ≡ some m
      → allocate_chunks w 1 (c ∷ []) v ≡ (ok (c ∷ []), v)
  unfolding allocate_chunks mounted_level take
  reuse_one v m c mounted = rw mounted

  write_chunk_raw-torn :
      (v : Vault) (c : ChunkIndex) (block torn : Bytes)
      → c < v.total_chunks
      → w.write_all v.clock ≡ some torn
      → write_chunk_raw w c block v
        ≡ (err io, record v { file = λ i. if i == c then torn else v.file i; clock = v.clock + 1 })
  unfolding write_chunk_raw tick put_block
  write_chunk_raw-torn v c block torn inside fault =
      let within : leb v.total_chunks c ≡ false = ground arith in rw (within, fault)

  write_plaintext-torn :
      (master plaintext : Bytes) (c : ChunkIndex) (stored torn : Bytes) (v : Vault)
      → length plaintext ≤ chunk_plaintext_len
      → c < v.total_chunks
      → Chunk.encrypt_chunk w (w.fill v.clock nonce_len) (derive_chunk_key w master c) c plaintext
        ≡ ok stored
      → w.write_all (v.clock + 1) ≡ some torn
      → write_plaintext w master plaintext 0 (c ∷ []) v ≡ (
        err io,
        record v { file = λ i. if i == c then torn else v.file i; clock = v.clock + 1 + 1 },
      )
  unfolding write_plaintext encrypt_chunk tick
  write_plaintext-torn master plaintext c stored torn v short inside enc fault =
      let next : Vault = record v { clock = v.clock + 1 } in
      bind-ok (lift (slice 0 (min chunk_plaintext_len (length plaintext)) plaintext)) _ v
        (ap (λ r. (r, v)) (slice-whole plaintext short))
      ∙ bind-ok (encrypt_chunk w (derive_chunk_key w master c) c plaintext) _ v
          (ap (λ r. (r, next)) enc)
      ∙ bind-err (write_chunk_raw w c stored) _ next
          (write_chunk_raw-torn next c stored torn inside fault)

  -- Adding a file of one chunk over a file of one chunk, where the write of the block fails, returns
  -- the I/O error and leaves what the failed write left in the block of the old file, while the
  -- tree still names the old file, and the session is not poisoned.
  pub add_file-tears :
      (name plaintext : Bytes) (v : Vault) (m : MountedLevel) (old : FileEntry) (c : ChunkIndex)
      (bytes stored torn : Bytes)
      → v.poisoned ≡ false
      → v.mounted ≡ some m
      → validate_name name ≡ ok tt
      → find m.manifest name ≡ some old
      → old.chunks ≡ c ∷ []
      → length plaintext ≤ chunk_plaintext_len
      → c < v.total_chunks
      → serialize
          (upsert m.manifest (record { name = name; size = length plaintext; chunks = c ∷ [] }))
        ≡ ok bytes
      → Chunk.encrypt_chunk w (w.fill v.clock nonce_len) (derive_chunk_key w m.master c) c plaintext
        ≡ ok stored
      → w.write_all (v.clock + 1) ≡ some torn
      → add_file w name plaintext v ≡ (
        err io,
        record v { file = λ i. if i == c then torn else v.file i; clock = v.clock + 1 + 1 },
      )
  unfolding add_file candidate_manifest master_key_view
  add_file-tears name plaintext v m old c bytes stored torn p mounted valid found chunks short
        inside ser enc fault =
      let needed = max ((length plaintext + (chunk_plaintext_len - 1)) / chunk_plaintext_len) 1 in
      let entry : FileEntry = record { name = name; size = length plaintext; chunks = c ∷ [] } in
      let take_over : allocate_chunks w needed (chunks_or_none (find m.manifest name)) v
          ≡ (ok (c ∷ []), v) =
        ap (λ n. allocate_chunks w n (chunks_or_none (find m.manifest name)) v)
          (one_chunk (length plaintext) short)
        ∙ ap (λ o. allocate_chunks w 1 (chunks_or_none o) v) found
        ∙ ap (λ cs. allocate_chunks w 1 cs v) chunks
        ∙ reuse_one v m c mounted in
      bind-ok ensure_mutable _ v (ensure_mutable-ok v p)
      ∙ bind-ok (lift (validate_name name)) _ v (ap (λ r. (r, v)) valid)
      ∙ bind-ok mounted_level _ v (mounted_level-ok v m mounted)
      ∙ bind-ok (allocate_chunks w needed (chunks_or_none (find m.manifest name))) _ v take_over
      ∙ bind-ok candidate_manifest _ v (bind-ok mounted_level _ v (mounted_level-ok v m mounted))
      ∙ bind-ok (lift (serialize (upsert m.manifest entry))) _ v (ap (λ r. (r, v)) ser)
      ∙ bind-ok master_key_view _ v (bind-ok mounted_level _ v (mounted_level-ok v m mounted))
      ∙ bind-err (write_plaintext w m.master plaintext 0 (c ∷ [])) _ v
          (write_plaintext-torn m.master plaintext c stored torn v short inside enc fault)
