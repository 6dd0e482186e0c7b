-- ===== src/Format/Examples/Data.antt =====
-- Allocation and the methods that write data, run on a small vault.
use farewell.Prelude.{
  ◌+◌, ◌%◌, ◌^◌, ◌≡◌, ◌<◌, ◌⊎◌, refl, true, false, none, some, [], ◌∷◌, Bytes, arith, if◌then◌else◌,
  ◌==◌, bytes_eq, take, drop, replicate,
}
use farewell.Bytes.{to_le}
use farewell.Format.Error.{Result, ok, err, io}
use farewell.Format.Manifest.{FileEntry, Manifest, find, upsert, validate_name}
use farewell.Format.Manifest.Codec.{serialize}
use farewell.Format.World.{nonce_len}
use farewell.Format.Chunk
use farewell.Format.Chunk.{derive_chunk_key}
use farewell.Format.Vault.Raw.{allocate_chunks}
use farewell.Format.Vault.Files.{add_file, read_file}
use farewell.Format.Vault.Ranges.{index_or_panic, write_file_range, shrink, grow, read_file_range}
use farewell.Format.Vault.Keeps.{Unchanged}
use farewell.Format.Vault.Refusal.{reads_are_quiet}
use farewell.Format.Vault.Allocation.{IsAllocated, allocate_chunks-IsAllocated}
use farewell.Format.Vault.Spares.{Spares}
use farewell.Format.Vault.Spares.Writes.{write_file_range-Spares, shrink-Spares, add_file-Spares}
use farewell.Format.Vault.Overwrite.{add_file-tears}
use farewell.Format.Vault.Stripes.{manifest_chunk_for_slot, manifest_chunk_for_slot-lt}
use farewell.Format.Vault.Raw.{num_slots}
use farewell.Format.Vault.ReadBack.{read_file-add_file}
use farewell.Format.Vault.Growth.{grow_fuel}
use farewell.Format.Examples.{calm, faulty, world-IsLawful, vault, level, tree, returned}

-- Chunks 4 and 6: chunk 5 is off limits.
allocated :
    allocate_chunks calm 3 (1 ∷ []) (vault false)
    ≡ (ok (1 ∷ 4 ∷ 6 ∷ []), (allocate_chunks calm 3 (1 ∷ []) (vault false)).1)
unfolding allocate_chunks take
allocated = returned (allocate_chunks calm 3 (1 ∷ []) (vault false)) refl

allocate_chunks-IsAllocated_example :
    IsAllocated level (1 ∷ []) (8 % 2 ^ 32) 3 (1 ∷ 4 ∷ 6 ∷ [])
    × Unchanged (vault false) (allocate_chunks calm 3 (1 ∷ []) (vault false)).1
allocate_chunks-IsAllocated_example =
    allocate_chunks-IsAllocated calm (world-IsLawful (λ t. none) true) 3 (1 ∷ []) (1 ∷ 4 ∷ 6 ∷ [])
      level (vault false) (allocate_chunks calm 3 (1 ∷ []) (vault false)).1 refl allocated

range_failed : (write_file_range faulty (b'e' ∷ []) 1 (8 ∷ 9 ∷ []) (vault false)).0 ≡ err io
unfolding write_file_range validate_name find bytes_eq take serialize upsert to_le replicate drop
range_failed = refl

write_file_range-Spares_example :
    Spares level (vault false) (write_file_range faulty (b'e' ∷ []) 1 (8 ∷ 9 ∷ []) (vault false)).1
    ⊎ ((write_file_range faulty (b'e' ∷ []) 1 (8 ∷ 9 ∷ []) (vault false)).1.poisoned ≡ true)
write_file_range-Spares_example =
    write_file_range-Spares faulty (world-IsLawful (λ t. some []) false) level (b'e' ∷ []) 1
      (8 ∷ 9 ∷ []) (vault false) io refl range_failed

abbrev entry_a : FileEntry
entry_a = record { name = b'a' ∷ []; size = 3; chunks = 1 ∷ [] }

shrink_failed : (shrink faulty (b'a' ∷ []) entry_a 2 (vault false)).0 ≡ err io
unfolding shrink index_or_panic take
shrink_failed = refl

shrink-Spares_example :
    Spares level (vault false) (shrink faulty (b'a' ∷ []) entry_a 2 (vault false)).1
    ⊎ ((shrink faulty (b'a' ∷ []) entry_a 2 (vault false)).1.poisoned ≡ true)
shrink-Spares_example =
    shrink-Spares faulty (world-IsLawful (λ t. some []) false) level (b'a' ∷ []) entry_a 2
      (vault false) io refl shrink_failed

absent : find tree (b'n' ∷ []) ≡ none
unfolding find bytes_eq
absent = refl

add_failed : (add_file faulty (b'n' ∷ []) (9 ∷ []) (vault false)).0 ≡ err io
unfolding add_file validate_name find bytes_eq take serialize upsert to_le replicate drop
add_failed = refl

add_file-Spares_example :
    Spares level (vault false) (add_file faulty (b'n' ∷ []) (9 ∷ []) (vault false)).1
    ⊎ ((add_file faulty (b'n' ∷ []) (9 ∷ []) (vault false)).1.poisoned ≡ true)
add_file-Spares_example =
    add_file-Spares faulty (world-IsLawful (λ t. some []) false) level (b'n' ∷ []) (9 ∷ [])
      (vault false) io refl absent add_failed

abbrev value : Result Bytes → Bytes
value (ok bytes) = bytes
value _ = []

abbrev rewritten : Manifest
rewritten = upsert tree (record { name = b'a' ∷ []; size = 1; chunks = 1 ∷ [] })

valid : validate_name (b'a' ∷ []) ≡ ok tt
unfolding validate_name
valid = refl

there : find tree (b'a' ∷ []) ≡ some entry_a
unfolding find bytes_eq
there = refl

serialized : serialize rewritten ≡ ok (value (serialize rewritten))
unfolding serialize upsert to_le bytes_eq
serialized = refl

abbrev block : Bytes
block = value (
    Chunk.encrypt_chunk faulty (faulty.fill 0 nonce_len) (derive_chunk_key faulty (7 ∷ []) 1) 1
      (9 ∷ []))

encrypted :
    Chunk.encrypt_chunk faulty
      (faulty.fill 0 nonce_len)
      (derive_chunk_key faulty (7 ∷ []) 1)
      1
      (9 ∷ [])
    ≡ ok block
unfolding Chunk.encrypt_chunk
encrypted = refl

add_file-tears_example :
    add_file faulty (b'a' ∷ []) (9 ∷ []) (vault false)
    ≡ (err io, record (vault false) { file = λ i. if i == 1 then [] else []; clock = 0 + 1 + 1 })
add_file-tears_example =
    add_file-tears faulty (b'a' ∷ []) (9 ∷ []) (vault false) level entry_a 1
      (value (serialize rewritten)) block [] refl refl valid there refl (omega arith) (omega arith)
      serialized encrypted refl

reads_are_quiet_example :
    Unchanged (vault false) (read_file faulty (b'a' ∷ []) (vault false)).1
    × Unchanged (vault false) (read_file_range faulty (b'a' ∷ []) 1 2 (vault false)).1
reads_are_quiet_example = reads_are_quiet faulty (vault false) (b'a' ∷ []) 1 2

grow_fuel_example : grow calm 9 (b'e' ∷ []) 2 0 5 ≡ grow calm 12 (b'e' ∷ []) 2 0 5
grow_fuel_example = grow_fuel calm (b'e' ∷ []) 2 5 9 12 0 (omega arith) (omega arith) (omega arith)

manifest_chunk_for_slot-lt_example :
    (manifest_chunk_for_slot (9 ∷ 1 ∷ []) 0 16 < 16)
    × (manifest_chunk_for_slot (9 ∷ 1 ∷ []) 0 16 % num_slots ≡ 0)
manifest_chunk_for_slot-lt_example =
    manifest_chunk_for_slot-lt (9 ∷ 1 ∷ []) 0 16 (omega arith) (omega arith) (omega arith)

added :
    add_file calm (b'n' ∷ []) (9 ∷ 8 ∷ []) (vault false)
    ≡ (ok tt, (add_file calm (b'n' ∷ []) (9 ∷ 8 ∷ []) (vault false)).1)
unfolding add_file validate_name find bytes_eq take serialize upsert to_le replicate drop
added = returned (add_file calm (b'n' ∷ []) (9 ∷ 8 ∷ []) (vault false)) refl

read_file-add_file_example :
    (read_file calm (b'n' ∷ []) (add_file calm (b'n' ∷ []) (9 ∷ 8 ∷ []) (vault false)).1).0
    ≡ ok (9 ∷ 8 ∷ [])
read_file-add_file_example =
    read_file-add_file calm (world-IsLawful (λ t. none) true) level (b'n' ∷ []) (9 ∷ 8 ∷ [])
      (vault false) (add_file calm (b'n' ∷ []) (9 ∷ 8 ∷ []) (vault false)).1 refl absent (λ t. refl)
      added
