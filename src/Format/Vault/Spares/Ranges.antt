-- ===== src/Format/Vault/Spares/Ranges.antt =====
-- `write_file_range` and the shrinking of `truncate_file` (vault.rs) copy before they destroy.
use farewell.Prelude.{
  ℕ, zero, suc, ◌+◌, ◌-◌, ◌*◌, ◌/◌, ◌%◌, ◌^◌, false, Option, none, some, List, [], ◌∷◌, ◌++◌, ◌≡◌,
  ap, ◌∙◌, refl, arith, ◌==◌, All, Bytes, take, length, min, max, get_elem?, sym, ltb,
}
use mathlib.Core.Path.{subst}
use farewell.Format.Error.{ok, overflow}
use farewell.Format.Manifest.{ChunkIndex, FileEntry, upsert, validate_name, chunk_plaintext_len}
use farewell.Format.Manifest.Codec.{serialize}
use farewell.Format.Chunk.{derive_chunk_key}
use farewell.Format.World.{World, IsLawful}
use farewell.Format.Vault.State.{Vault, MountedLevel, M, pure, fail, lift, ◌>>=◌}
use farewell.Format.Vault.Raw.{
  ensure_mutable, master_key_view, candidate_manifest, encrypt_chunk, allocate_chunks,
  write_chunk_raw, read_chunk_raw,
}
use farewell.Format.Vault.Files.{lookup_entry}
use farewell.Format.Vault.Ranges.{
  Window, checked_add, first_dirty, overlay, preserve, write_window, write_file_range,
}
use farewell.Format.Vault.Allocation.{IsFree, All-map, allocate_chunks-IsAllocated}
use farewell.Format.Vault.Keeps.{
  IsQuiet, IsQuiet-lift, IsQuiet-pure, IsQuiet-if, IsQuiet-fail, IsQuiet-bind,
}
use farewell.Format.Vault.Quiet.{
  IsQuiet-ensure_mutable, IsQuiet-lookup_entry, IsQuiet-master_key_view, IsQuiet-candidate_manifest,
  IsQuiet-read_chunk_raw, IsQuiet-encrypt_chunk, IsQuiet-allocate_chunks,
}
use farewell.Format.Vault.Spares.{
  is_live, IsSparing, IsCareful, IsSparing-quiet, IsSparing-bind, IsCareful-bind,
  IsCareful-bind_with, IsCareful-if, IsCareful-sparing, IsCareful-destructive_phase,
  IsSparing-write_chunk_raw,
}

pub take-nil {ℓ} : {A : Type ℓ} (n : ℕ) → take {A = A} n [] ≡ []
unfolding take
take-nil zero = refl
take-nil (suc n) = refl

module _ (w : World) (lawful : IsLawful w) (m : MountedLevel) where
  IsFree→not_live : (total c : ℕ) → IsFree m [] total c → is_live m c ≡ false
  unfolding is_live
  IsFree→not_live total c h = let a = h.not_manifest in let b = h.of_no_file in ground (arith, a, b)

  -- Chunks allocated with nothing to reuse are not live.
  pub allocated-free :
      (n : ℕ) (v : Vault) (out : List ChunkIndex)
      → v.mounted ≡ some m
      → (allocate_chunks w n [] v).0 ≡ ok out
      → All (λ c. is_live m c ≡ false) out
  allocated-free n v out mounted h =
      let v' = (allocate_chunks w n [] v).1 in
      let pair : allocate_chunks w n [] v ≡ (ok out, v') = λ i. (h i, v') in
      let alloc = (allocate_chunks-IsAllocated w lawful n [] out m v v' mounted pair).0 in
      let all' = All-map alloc.fresh (IsFree→not_live (v.total_chunks % 2 ^ 32)) alloc.free in
      subst (All (λ c. is_live m c ≡ false))
        (sym (alloc.reuses_first ∙ ap (λ t. t ++ alloc.fresh) (take-nil n))) all'

  IsQuiet-preserve :
      (key : Bytes) (old : Option ChunkIndex) (start end : ℕ) (plaintext : Bytes)
      → IsQuiet (preserve w key old start end plaintext)
  unfolding preserve
  IsQuiet-preserve key none start end plaintext = IsQuiet-pure plaintext
  IsQuiet-preserve key (some old) start end plaintext = IsQuiet-if _ _ _ (IsQuiet-pure plaintext) (
      IsQuiet-bind (read_chunk_raw w old) _ (IsQuiet-read_chunk_raw w old)
        λ stored. IsQuiet-bind (lift _) _ (IsQuiet-lift _) λ old_pt. IsQuiet-pure _)

  IsSparing-write_window :
      (key : Bytes) (r : Window) (bytes : Bytes) (current : List ChunkIndex) (i : ℕ)
      (fresh : List ChunkIndex)
      → All (λ c. is_live m c ≡ false) fresh
      → IsSparing m (write_window w key r bytes current i fresh)
  unfolding write_window
  IsSparing-write_window key r bytes current i [] free = IsSparing-quiet m _ (IsQuiet-pure tt)
  IsSparing-write_window key r bytes current i (c ∷ cs) (free, frees) =
      let start = i * chunk_plaintext_len in
      let real_end = min r.new_size (start + chunk_plaintext_len) in
      IsSparing-bind m (preserve w key (get_elem? current i) _ _ _) _
        (IsSparing-quiet m _ (IsQuiet-preserve key (get_elem? current i) _ _ _))
        λ kept.
          IsSparing-bind m (lift (overlay r bytes start real_end kept)) _
            (IsSparing-quiet m _ (IsQuiet-lift _))
            λ plaintext.
              IsSparing-bind m (encrypt_chunk w (derive_chunk_key w key c) c plaintext) _
                (IsSparing-quiet m _
                  (IsQuiet-encrypt_chunk w (derive_chunk_key w key c) c plaintext))
                λ stored.
                  IsSparing-bind m (write_chunk_raw w c stored) _
                    (IsSparing-write_chunk_raw w m c stored free)
                    λ u. IsSparing-write_window key r bytes current (i + 1) cs frees

  pub IsCareful-quiet {ℓ} : {A : Type ℓ} (act : M A) → IsQuiet act → IsCareful m act
  IsCareful-quiet act h = IsCareful-sparing m act (IsSparing-quiet m act h)

  pub IsCareful-bind_quiet {ℓ κ} :
      {A : Type ℓ} {B : Type κ} (act : M A) (f : A → M B)
      → IsQuiet act
      → ((a : A) → IsCareful m (f a))
      → IsCareful m (act >>= f)
  IsCareful-bind_quiet act f h k = IsCareful-bind m act f (IsSparing-quiet m act h) k

  -- What follows an allocation may overwrite what it has handed out.
  pub IsCareful-allocate_chunks {ℓ} :
      {B : Type ℓ} (n : ℕ) (f : List ChunkIndex → M B)
      → ((fresh : List ChunkIndex) → All (λ c. is_live m c ≡ false) fresh → IsCareful m (f fresh))
      → IsCareful m (allocate_chunks w n [] >>= f)
  IsCareful-allocate_chunks n f k =
      IsCareful-bind_with m (allocate_chunks w n []) f
        (IsSparing-quiet m _ (IsQuiet-allocate_chunks w n []))
        (λ v fresh mounted r. k fresh (allocated-free n v fresh mounted r))

  pub write_file_range-IsCareful :
      (name : Bytes) (offset : ℕ) (bytes : Bytes)
      → IsCareful m (write_file_range w name offset bytes)
  unfolding write_file_range
  write_file_range-IsCareful name offset bytes =
      IsCareful-bind_quiet ensure_mutable _ IsQuiet-ensure_mutable λ u.
        IsCareful-bind_quiet (lift (validate_name name)) _ (IsQuiet-lift _) λ u'.
          IsCareful-if m (length bytes == 0) _ _ (IsCareful-quiet (pure tt) (IsQuiet-pure tt)) (
            IsCareful-bind_quiet (lookup_entry name) _ (IsQuiet-lookup_entry name) λ entry.
              IsCareful-bind_quiet (lift (checked_add offset (length bytes))) _ (IsQuiet-lift _)
                λ end_byte.
                  let new_size = max end_byte entry.size in
                  IsCareful-bind_quiet (lift (checked_add new_size (chunk_plaintext_len - 1))) _
                    (IsQuiet-lift _)
                    λ rounded.
                      let count = rounded / chunk_plaintext_len in
                      IsCareful-if m (ltb (2 ^ 32 - 1) count) _ _
                        (IsCareful-quiet (fail overflow) (IsQuiet-fail overflow))
                        (let dirty = first_dirty entry.size offset in
                          let window : Window = record {
                            offset = offset;
                            end_byte = end_byte;
                            current_size = entry.size;
                            new_size = new_size;
                          } in
                          IsCareful-allocate_chunks (count - dirty) _ λ fresh free.
                            let kept = take dirty entry.chunks in
                            let written : FileEntry = record {
                              name = name;
                              size = new_size;
                              chunks = kept ++ fresh;
                            } in
                            IsCareful-bind_quiet master_key_view _ IsQuiet-master_key_view λ key.
                              IsCareful-bind_quiet candidate_manifest _ IsQuiet-candidate_manifest
                                λ live.
                                  IsCareful-bind_quiet (lift (serialize (upsert live written))) _
                                    (IsQuiet-lift _)
                                    λ cand_bytes.
                                      IsCareful-bind m
                                        (write_window w key window bytes entry.chunks dirty fresh) _
                                        (IsSparing-write_window key window bytes entry.chunks dirty
                                          fresh free)
                                        λ u''. IsCareful-destructive_phase m _))
