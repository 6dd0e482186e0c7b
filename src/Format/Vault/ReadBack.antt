-- ===== src/Format/Vault/ReadBack.antt =====
-- `read_file` of vault.rs returns what `add_file` stored.
pub mod Pieces
use farewell.Prelude.{
  ℕ, ◌+◌, ◌-◌, ◌*◌, ◌/◌, ◌%◌, ◌^◌, ◌<◌, ◌≡◌, refl, sym, ap, ◌∙◌, inl, inr, true, false, Option,
  none, some, List, [], ◌∷◌, ◌++◌, Bytes, arith, length, take, drop, contains, max, All, IsDistinct,
  Bool-cases, ◌==◌, bytes_eq, bytes_eq_refl, if◌then◌else◌,
}
use mathlib.Core.Path.{subst}
use farewell.Format.Error.{ok, err}
use farewell.Format.Manifest.{
  ChunkIndex, FileEntry, find, upsert, validate_name, chunk_plaintext_len,
}
use farewell.Format.Manifest.Codec.{serialize}
use farewell.Format.Manifest.Laws.{find-upsert}
use farewell.Format.World.{World, IsLawful}
use farewell.Format.Vault.State.{Vault, MountedLevel, M, pure, lift, continue, ◌>>=◌, ◌>>◌}
use farewell.Format.Vault.Raw.{
  mounted_level, candidate_manifest, destructive_phase, master_key_view, allocate_chunks, shred,
  publish_manifest, chunks_of,
}
use farewell.Format.Vault.Queries.{find_or_fail}
use farewell.Format.Vault.Files.{
  add_file, read_file, lookup_entry, write_plaintext, read_chunks, not_in, chunks_or_none,
}
use farewell.Format.Vault.Keeps.{Unchanged, at_level}
use farewell.Format.Vault.Publish.{
  continue-eq-ok, bind-eq-ok, destructive_phase-eq-ok, Fate, IsCommitted, shred_publish-IsCommitted,
}
use farewell.Format.Vault.Commits.{ensure_mutable-eq-ok}
use farewell.Format.Vault.Allocation.{IsFree, IsAllocated, All-map, allocate_chunks-IsAllocated}
use farewell.Format.Vault.Spares.Ranges.{take-nil}
use farewell.Format.Vault.ReadBack.Pieces.{
  take-all, continue-pure, joined, joined-eq-take, Holds, Holds-same, read_chunks-Holds, IsWritten,
  write_plaintext-IsWritten,
}

-- The number of chunks that `add_file` asks for.
abbrev needed_for : Bytes → ℕ
needed_for plaintext = max ((length plaintext + (chunk_plaintext_len - 1)) / chunk_plaintext_len) 1

abbrev entry_of : Bytes → Bytes → List ChunkIndex → FileEntry
entry_of name plaintext cs = record { name = name; size = length plaintext; chunks = cs }

module _ (w : World) (lawful : IsLawful w) (m : MountedLevel) (name plaintext : Bytes) where
  -- The new file as it stands behind `add_file`.
  record IsStored (v' : Vault) : Type 0 where
    cs : List ChunkIndex
    enough : length cs ≡ needed_for plaintext
    inside : All (λ c. c < v'.total_chunks) cs
    installed :
        v'.mounted ≡ some (record m { manifest = upsert m.manifest (entry_of name plaintext cs) })
    holds : Holds w m.master v'.file plaintext cs

  -- Chunks handed out with nothing to reuse.
  fresh_only :
      (total n : ℕ) (cs : List ChunkIndex)
      → IsAllocated m [] total n cs
      → IsDistinct cs × All (IsFree m [] total) cs
  fresh_only total n cs a =
      let same : a.fresh ≡ cs = sym (a.reuses_first ∙ ap (λ t. t ++ a.fresh) (take-nil n)) in
      (subst IsDistinct same a.distinct, subst (All (IsFree m [] total)) same a.free)

  -- A publication with nothing to shred leaves a block that is free.
  committed_block :
      (candidate : _) (total : ℕ) (v v' : Vault) (c : ChunkIndex)
      → IsCommitted w m candidate [] v v'
      → IsFree m [] total c
      → v'.file c ≡ v.file c
  unfolding contains
  committed_block candidate total v v' c done free = elim (done.blocks c) [
    | Fate.manifest e ↦ let no' = free.not_manifest in absurd (ground arith)
    | Fate.shredded n r ↦ absurd cc
    | Fate.kept n same ↦ same
  ]

  IsStored-committed :
      (cs : List ChunkIndex) (v v2 v' : Vault)
      → IsAllocated m [] (v.total_chunks % 2 ^ 32) (needed_for plaintext) cs
      → IsWritten w lawful m.master plaintext 0 cs v v2
      → IsCommitted w m (upsert m.manifest (entry_of name plaintext cs)) [] v2 v'
      → IsStored v'
  unfolding drop
  IsStored-committed cs v v2 v' a written done =
      let total = v.total_chunks % 2 ^ 32 in
      let (distinct, free) = fresh_only total (needed_for plaintext) cs a in
      let same : v'.total_chunks ≡ v.total_chunks = done.same_total ∙ written.same_total in
      record {
        cs = cs;
        enough = a.enough;
        inside = All-map cs (λ c f. let r = f.in_range in omega (arith, r, same)) free;
        installed = done.installed;
        holds =
            Holds-same w m.master v2.file v'.file plaintext cs
              (All-map cs (λ c f. committed_block _ total v2 v' c done f) free) written.holds;
      }

  -- What `add_file` does with the chunks it was handed.
  abbrev write_and_commit : List ChunkIndex → M (Unit {0})
  write_and_commit cs = do
    live ← candidate_manifest
    cand_bytes ← lift (serialize (upsert live (entry_of name plaintext cs)))
    master_key ← master_key_view
    write_plaintext w master_key plaintext 0 cs
    destructive_phase (do
      shred w (not_in cs [])
      publish_manifest w (upsert live (entry_of name plaintext cs)) cand_bytes false)

  write_and_commit-IsStored :
      (cs : List ChunkIndex) (v v' : Vault)
      → v.mounted ≡ some m
      → IsAllocated m [] (v.total_chunks % 2 ^ 32) (needed_for plaintext) cs
      → write_and_commit cs v ≡ (ok tt, v')
      → IsStored v'
  unfolding candidate_manifest master_key_view mounted_level not_in
  write_and_commit-IsStored cs v v' mounted a h =
      let here : Vault = record v { mounted = some m } in
      let entry = entry_of name plaintext cs in
      let h1 = subst (λ t. write_and_commit cs t ≡ (ok tt, v')) (at_level v m mounted) h in
      let (bytes, ser, h2) = continue-eq-ok (serialize (upsert m.manifest entry)) _ here h1 in
      let (u, v2, wrote, h3) = bind-eq-ok (write_plaintext w m.master plaintext 0 cs) _ here h2 in
      let (distinct, free) = fresh_only _ (needed_for plaintext) cs a in
      let written =
        write_plaintext-IsWritten w lawful m.master plaintext 0 cs here v2 distinct wrote in
      IsStored-committed cs here v2 v' a written (
        shred_publish-IsCommitted w lawful m (upsert m.manifest entry) [] bytes false v2 v'
          written.same_mounted ser (destructive_phase-eq-ok _ v2 h3))

  add_file-IsStored :
      (v v' : Vault)
      → v.mounted ≡ some m
      → find m.manifest name ≡ none
      → add_file w name plaintext v ≡ (ok tt, v')
      → IsStored v'
  unfolding add_file candidate_manifest master_key_view mounted_level not_in
  add_file-IsStored v v' mounted absent h =
      let here : Vault = record v { mounted = some m } in
      let (live, h1) =
        ensure_mutable-eq-ok _ here
          (subst (λ t. add_file w name plaintext t ≡ (ok tt, v')) (at_level v m mounted) h) in
      let (u, valid, h2) = continue-eq-ok (validate_name name) _ here h1 in
      let h3 = rw absent at h2 in
      let (cs, v1, alloc, h4) =
        bind-eq-ok (allocate_chunks w (needed_for plaintext) []) _ here h3 in
      let (a, quiet) =
        allocate_chunks-IsAllocated w lawful (needed_for plaintext) [] cs m here v1 refl alloc in
      write_and_commit-IsStored cs v1 v' quiet.same_mounted
        (subst (λ n. IsAllocated m [] (n % 2 ^ 32) (needed_for plaintext) cs) (sym quiet.same_total)
          a)
        h4

  joined_all :
      (cs : List ChunkIndex)
      → length cs ≡ needed_for plaintext
      → take (length plaintext) (joined (length cs) plaintext) ≡ plaintext
  joined_all cs enough =
      let size = length cs * chunk_plaintext_len in
      ap (take (length plaintext)) (
        joined-eq-take (length cs) size plaintext refl
        ∙ take-all size plaintext (omega (arith, enough)))
      ∙ take-all (length plaintext) plaintext (omega arith)

  -- `read_file` behind the look-up.
  abbrev read_entry : FileEntry → M Bytes
  read_entry e = do
    master_key ← master_key_view
    out ← read_chunks w master_key e.chunks
    pure (take e.size out)

  read_file-IsStored :
      (v' : Vault)
      → ((t : ℕ) → w.read_exact t ≡ true)
      → IsStored v'
      → (read_file w name v').0 ≡ ok plaintext
  unfolding read_file lookup_entry master_key_view mounted_level find_or_fail
  read_file-IsStored v' readable s =
      let entry = entry_of name plaintext s.cs in
      let level : MountedLevel = record m { manifest = upsert m.manifest entry } in
      let here : Vault = record v' { mounted = some level } in
      let found : find (upsert m.manifest entry) name ≡ some entry =
        find-upsert m.manifest entry name
        ∙ ap (λ b. if b then some entry else find m.manifest name) (bytes_eq_refl name) in
      let read = read_chunks-Holds w m.master s.cs plaintext here readable s.inside s.holds in
      ap (λ t. (read_file w name t).0) (at_level v' level s.installed)
      ∙ ap (λ o. (continue (find_or_fail name o) read_entry here).0) found
      ∙ continue-pure (read_chunks w m.master s.cs here).0 (λ out. take (length plaintext) out) _
          read
      ∙ ap ok (joined_all s.cs s.enough)

  -- With a lawful cipher and random source and no read of the disk that fails: what `add_file` of a
  -- name that stood for no file stored where it succeeded, `read_file` returns from the vault that it
  -- left.
  pub read_file-add_file :
      (v v' : Vault)
      → v.mounted ≡ some m
      → find m.manifest name ≡ none
      → ((t : ℕ) → w.read_exact t ≡ true)
      → add_file w name plaintext v ≡ (ok tt, v')
      → (read_file w name v').0 ≡ ok plaintext
  read_file-add_file v v' mounted absent readable h =
      read_file-IsStored v' readable (add_file-IsStored v v' mounted absent h)
