-- ===== src/Format/Vault/Spares/Writes.antt =====
-- The methods of vault.rs that write data: what an error of theirs has left alone.
use farewell.Prelude.{
  ℕ, zero, suc, ◌+◌, ◌-◌, ◌*◌, ◌/◌, true, false, none, some, List, [], ◌∷◌, ◌≡◌, ◌⊎◌, arith, ◌==◌,
  All, Bytes, take, set, length, min, max, get_elem?, ap, sym, ◌∙◌,
}
use mathlib.Core.Path.{subst}
use farewell.Format.Error.{ok, err, panic, FormatError}
use farewell.Format.Manifest.{
  ChunkIndex, FileEntry, upsert, find, validate_name, chunk_plaintext_len,
}
use farewell.Format.Manifest.Codec.{serialize}
use farewell.Format.Chunk.{derive_chunk_key, decrypt_chunk}
use farewell.Format.World.{World, IsLawful}
use farewell.Format.Vault.State.{Vault, MountedLevel, M, pure, lift, ◌>>=◌}
use farewell.Format.Vault.Raw.{
  mounted_level, ensure_mutable, master_key_view, candidate_manifest, encrypt_chunk,
  allocate_chunks, write_chunk_raw, read_chunk_raw,
}
use farewell.Format.Vault.Files.{slice, write_plaintext, add_file, chunks_or_none}
use farewell.Format.Vault.Ranges.{
  index_or_panic, chunks_for, write_file_range, shorten_last, shrink_last, shrink,
}
use farewell.Format.Vault.Keeps.{IsQuiet, IsQuiet-lift, IsQuiet-pure}
use farewell.Format.Vault.Quiet.{
  IsQuiet-ensure_mutable, IsQuiet-mounted_level, IsQuiet-master_key_view,
  IsQuiet-candidate_manifest, IsQuiet-read_chunk_raw, IsQuiet-encrypt_chunk,
  IsQuiet-allocate_chunks,
}
use farewell.Format.Vault.Spares.{
  is_live, Spares, IsSparing, IsCareful, IsSparing-quiet, IsSparing-bind, IsSparing-bind_with,
  IsSparing-if, IsCareful-bind, IsCareful-bind_with, IsCareful-if, IsCareful-destructive_phase,
  IsSparing-write_chunk_raw,
}
use farewell.Format.Vault.Spares.Ranges.{
  allocated-free, IsCareful-quiet, IsCareful-bind_quiet, IsCareful-allocate_chunks,
  write_file_range-IsCareful,
}

module _ (w : World) (lawful : IsLawful w) (m : MountedLevel) where
  IsSparing-bind_quiet {ℓ κ} :
      {A : Type ℓ} {B : Type κ} (act : M A) (f : A → M B)
      → IsQuiet act
      → ((a : A) → IsSparing m (f a))
      → IsSparing m (act >>= f)
  IsSparing-bind_quiet act f h k = IsSparing-bind m act f (IsSparing-quiet m act h) k

  index-free :
      (i : ℕ) (cs : List ChunkIndex) (c : ChunkIndex)
      → All (λ c. is_live m c ≡ false) cs
      → index_or_panic (get_elem? cs i) ≡ ok c
      → is_live m c ≡ false
  unfolding index_or_panic
  index-free i [] c free h = cc
  index-free zero (x ∷ xs) c (free, frees) h =
      let same : x ≡ c = cc in subst (λ j. is_live m j ≡ false) same free
  index-free (suc i) (x ∷ xs) c (free, frees) h = index-free i xs c frees h

  IsSparing-shorten_last :
      (kept : List ChunkIndex) (last new_last_real_len : ℕ)
      → IsSparing m (shorten_last w kept last new_last_real_len)
  unfolding shorten_last
  IsSparing-shorten_last kept last new_last_real_len =
      IsSparing-bind_quiet master_key_view _ IsQuiet-master_key_view λ key.
        IsSparing-bind_quiet (lift (index_or_panic (get_elem? kept last))) _ (IsQuiet-lift _)
          λ old_idx.
            IsSparing-bind_quiet (read_chunk_raw w old_idx) _ (IsQuiet-read_chunk_raw w old_idx)
              λ stored.
                IsSparing-bind_quiet
                  (lift (decrypt_chunk w (derive_chunk_key w key old_idx) old_idx stored)) _
                  (IsQuiet-lift _)
                  λ old_pt.
                    IsSparing-bind_quiet (lift (slice 0 new_last_real_len old_pt)) _
                      (IsQuiet-lift _)
                      λ truncated.
                        IsSparing-bind_with m (allocate_chunks w 1 []) _
                          (IsSparing-quiet m _ (IsQuiet-allocate_chunks w 1 []))
                          λ v allocated mounted r.
                            IsSparing-bind_with m (lift (index_or_panic (get_elem? allocated 0))) _
                              (IsSparing-quiet m _ (IsQuiet-lift _))
                              λ v' fresh mounted' r'.
                                IsSparing-bind_quiet
                                  (encrypt_chunk w (derive_chunk_key w key fresh) fresh truncated) _
                                  (IsQuiet-encrypt_chunk w (derive_chunk_key w key fresh) fresh
                                    truncated)
                                  λ new_stored.
                                    IsSparing-bind m (write_chunk_raw w fresh new_stored) _
                                      (IsSparing-write_chunk_raw w m fresh new_stored (
                                        index-free 0 allocated fresh
                                          (allocated-free w lawful m 1 v allocated mounted r) r'))
                                      λ u.
                                        IsSparing-quiet m _
                                          (IsQuiet-pure (set kept last fresh, old_idx ∷ []))

  IsSparing-shrink_last :
      (current_size new_size new_chunk_count : ℕ) (kept : List ChunkIndex)
      → IsSparing m (shrink_last w current_size new_size new_chunk_count kept)
  unfolding shrink_last
  IsSparing-shrink_last current_size new_size new_chunk_count kept =
      let last = new_chunk_count - 1 in
      let same = IsSparing-quiet m (pure (kept, [])) (IsQuiet-pure (kept, [])) in
      IsSparing-if m (new_chunk_count == 0) _ _ same (
        IsSparing-if m _ _ _ same
          (IsSparing-shorten_last kept last (new_size - last * chunk_plaintext_len)))

  shrink-IsCareful :
      (name : Bytes) (entry : FileEntry) (new_size : ℕ) → IsCareful m (shrink w name entry new_size)
  unfolding shrink
  shrink-IsCareful name entry new_size =
      let count = chunks_for new_size in
      let kept = take count entry.chunks in
      IsCareful-if m _ _ _ (IsCareful-quiet w lawful m (lift panic) (IsQuiet-lift panic)) (
        IsCareful-bind m (shrink_last w entry.size new_size count kept) _
          (IsSparing-shrink_last entry.size new_size count kept)
          λ p.
            IsCareful-bind_quiet w lawful m candidate_manifest _ IsQuiet-candidate_manifest λ live.
              let shrunk : FileEntry = record { name = name; size = new_size; chunks = p.0 } in
              IsCareful-bind_quiet w lawful m (lift (serialize (upsert live shrunk))) _
                (IsQuiet-lift _) λ cand_bytes. IsCareful-destructive_phase m _)

  mounted_level-eq-ok :
      (v : Vault) (m' : MountedLevel) → v.mounted ≡ some m → (mounted_level v).0 ≡ ok m' → m ≡ m'
  unfolding mounted_level
  mounted_level-eq-ok v m' mounted h = ground arith

  IsSparing-write_plaintext :
      (key plaintext : Bytes) (i : ℕ) (cs : List ChunkIndex)
      → All (λ c. is_live m c ≡ false) cs
      → IsSparing m (write_plaintext w key plaintext i cs)
  unfolding write_plaintext
  IsSparing-write_plaintext key plaintext i [] free = IsSparing-quiet m _ (IsQuiet-pure tt)
  IsSparing-write_plaintext key plaintext i (c ∷ cs) (free, frees) =
      IsSparing-bind_quiet
        (lift (
          slice (i * chunk_plaintext_len) (min ((i + 1) * chunk_plaintext_len) (length plaintext))
            plaintext))
        _ (IsQuiet-lift _)
        λ s.
          IsSparing-bind_quiet (encrypt_chunk w (derive_chunk_key w key c) c s) _
            (IsQuiet-encrypt_chunk w (derive_chunk_key w key c) c s)
            λ stored.
              IsSparing-bind m (write_chunk_raw w c stored) _
                (IsSparing-write_chunk_raw w m c stored free)
                λ u. IsSparing-write_plaintext key plaintext (i + 1) cs frees

  IsCareful-allocate_none {ℓ} :
      {B : Type ℓ} (n : ℕ) (reusable : List ChunkIndex) (f : List ChunkIndex → M B)
      → reusable ≡ []
      → ((fresh : List ChunkIndex) → All (λ c. is_live m c ≡ false) fresh → IsCareful m (f fresh))
      → IsCareful m (allocate_chunks w n reusable >>= f)
  IsCareful-allocate_none n reusable f e k =
      subst (λ r. IsCareful m (allocate_chunks w n r >>= f)) (sym e)
        (IsCareful-allocate_chunks w lawful m n f k)

  add_file-IsCareful :
      (name plaintext : Bytes)
      → find m.manifest name ≡ none
      → IsCareful m (add_file w name plaintext)
  unfolding add_file
  add_file-IsCareful name plaintext absent =
      let needed = max ((length plaintext + (chunk_plaintext_len - 1)) / chunk_plaintext_len) 1 in
      IsCareful-bind_quiet w lawful m ensure_mutable _ IsQuiet-ensure_mutable λ u.
        IsCareful-bind_quiet w lawful m (lift (validate_name name)) _ (IsQuiet-lift _) λ u'.
          IsCareful-bind_with m mounted_level _ (IsSparing-quiet m _ IsQuiet-mounted_level)
            λ v m' mounted r.
              IsCareful-allocate_none needed (chunks_or_none (find m'.manifest name)) _
                (ap (λ t. chunks_or_none (find t.manifest name))
                    (sym (mounted_level-eq-ok v m' mounted r))
                  ∙ ap chunks_or_none absent)
                λ allocated free.
                  let entry : FileEntry = record {
                    name = name;
                    size = length plaintext;
                    chunks = allocated;
                  } in
                  IsCareful-bind_quiet w lawful m candidate_manifest _ IsQuiet-candidate_manifest
                    λ live.
                      IsCareful-bind_quiet w lawful m (lift (serialize (upsert live entry))) _
                        (IsQuiet-lift _)
                        λ cand_bytes.
                          IsCareful-bind_quiet w lawful m master_key_view _ IsQuiet-master_key_view
                            λ key.
                              IsCareful-bind m (write_plaintext w key plaintext 0 allocated) _
                                (IsSparing-write_plaintext key plaintext 0 allocated free)
                                λ u''. IsCareful-destructive_phase m _

  -- A range write that returns an error has left the tree in memory, and every block that holds the
  -- manifest or a part of a file, as they were, or has poisoned the session.
  pub write_file_range-Spares :
      (name : Bytes) (offset : ℕ) (bytes : Bytes) (v : Vault) (e : FormatError)
      → v.mounted ≡ some m
      → (write_file_range w name offset bytes v).0 ≡ err e
      → Spares m v (write_file_range w name offset bytes v).1
        ⊎ ((write_file_range w name offset bytes v).1.poisoned ≡ true)
  write_file_range-Spares name offset bytes v e mounted h =
      (write_file_range-IsCareful w lawful m name offset bytes).at v e mounted h

  -- Shrinking a file, where it returns an error, has left the tree in memory, and every block that
  -- holds the manifest or a part of a file, as they were, or has poisoned the session.
  pub shrink-Spares :
      (name : Bytes) (entry : FileEntry) (new_size : ℕ) (v : Vault) (e : FormatError)
      → v.mounted ≡ some m
      → (shrink w name entry new_size v).0 ≡ err e
      → Spares m v (shrink w name entry new_size v).1
        ⊎ ((shrink w name entry new_size v).1.poisoned ≡ true)
  shrink-Spares name entry new_size v e mounted h =
      (shrink-IsCareful name entry new_size).at v e mounted h

  -- Adding a file under a name that stood for none, where it returns an error, has left the tree in
  -- memory, and every block that holds the manifest or a part of a file, as they were, or has poisoned
  -- the session.
  pub add_file-Spares :
      (name plaintext : Bytes) (v : Vault) (e : FormatError)
      → v.mounted ≡ some m
      → find m.manifest name ≡ none
      → (add_file w name plaintext v).0 ≡ err e
      → Spares m v (add_file w name plaintext v).1
        ⊎ ((add_file w name plaintext v).1.poisoned ≡ true)
  add_file-Spares name plaintext v e mounted absent h =
      (add_file-IsCareful name plaintext absent).at v e mounted h
