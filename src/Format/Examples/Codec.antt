-- ===== src/Format/Examples/Codec.antt =====
-- The codec and the tree in memory, run on a small manifest.
use farewell.Prelude.{
  ◌≡◌, refl, true, none, some, [], ◌∷◌, ◌++◌, Bytes, arith, if◌then◌else◌, bytes_eq,
}
use farewell.Bytes.{to_le}
use farewell.Bytes.Utf8.{is_utf8}
use farewell.Format.Error.{Result, ok}
use farewell.Format.Manifest.{FileEntry, find, upsert, remove}
use farewell.Format.Manifest.Laws.{
  HasUniqueNames, is_listed, find-upsert, find-remove, upsert-HasUniqueNames,
}
use farewell.Format.Manifest.Codec.{serialize, parse}
use farewell.Format.Manifest.Codec.RoundTrip.{IsManifest, stored, parse-serialize}
use farewell.Format.World.{nonce_len}
use farewell.Format.Chunk.{encrypt_chunk, decrypt_chunk}
use farewell.Format.Chunk.RoundTrip.{decrypt_chunk-encrypt_chunk}
use farewell.Format.Examples.{calm, world-IsLawful, tree}

-- The value of a result that is known to be one.
abbrev value : Result Bytes → Bytes
value (ok bytes) = bytes
value _ = []

abbrev tree_bytes : Bytes
tree_bytes = value (serialize tree)

typed : IsManifest tree
unfolding is_utf8
typed = record {
  counter_u64 = omega arith;
  entries_typed = (
    (refl, omega arith, (omega arith, tt)),
    (
      (refl, omega arith, (omega arith, tt)),
      ((refl, omega arith, (omega arith, tt)), ((refl, omega arith, tt), tt)),
    ),
  );
  child_slots_u8 = tt;
  folders_utf8 = (refl, tt);
  owner_utf8 = refl;
}

serialized : serialize tree ≡ ok tree_bytes
unfolding serialize to_le
serialized = refl

parse-serialize_example : parse (tree_bytes ++ (0 ∷ 0 ∷ [])) ≡ ok (stored tree)
parse-serialize_example =
    parse-serialize tree tree_bytes (0 ∷ 0 ∷ []) typed (omega arith) serialized

abbrev block : Bytes
block = value (encrypt_chunk calm (calm.fill 0 nonce_len) (7 ∷ []) 3 (b'h' ∷ b'i' ∷ []))

encrypted : encrypt_chunk calm (calm.fill 0 nonce_len) (7 ∷ []) 3 (b'h' ∷ b'i' ∷ []) ≡ ok block
unfolding encrypt_chunk
encrypted = refl

decrypt_chunk-encrypt_chunk_example : decrypt_chunk calm (7 ∷ []) 3 block ≡ ok (b'h' ∷ b'i' ∷ [])
decrypt_chunk-encrypt_chunk_example =
    decrypt_chunk-encrypt_chunk calm (world-IsLawful (λ t. none) true) 0 (7 ∷ []) 3
      (b'h' ∷ b'i' ∷ []) block encrypted

abbrev entry_a : FileEntry
entry_a = record { name = b'a' ∷ []; size = 9; chunks = 6 ∷ [] }

unique : HasUniqueNames tree.entries
unfolding is_listed bytes_eq
unique = (refl, (refl, (refl, (refl, tt))))

find-upsert_example :
    find (upsert tree entry_a) (b'b' ∷ [])
    ≡ (if bytes_eq (b'a' ∷ []) (b'b' ∷ []) then some entry_a else find tree (b'b' ∷ []))
find-upsert_example = find-upsert tree entry_a (b'b' ∷ [])

find-remove_example :
    ((remove tree (b'a' ∷ [])).1 ≡ find tree (b'a' ∷ []))
    × (find (remove tree (b'a' ∷ [])).0 (b'b' ∷ [])
        ≡ (if bytes_eq (b'a' ∷ []) (b'b' ∷ []) then none else find tree (b'b' ∷ [])))
find-remove_example = find-remove tree (b'a' ∷ []) (b'b' ∷ []) unique

upsert-HasUniqueNames_example :
    HasUniqueNames (upsert tree entry_a).entries
    × HasUniqueNames (remove tree (b'a' ∷ [])).0.entries
upsert-HasUniqueNames_example = upsert-HasUniqueNames tree entry_a (b'a' ∷ []) unique
