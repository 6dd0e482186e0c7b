-- ===== src/Format/Manifest/Codec/Lengths.antt =====
-- How long the serialized parts are, and what their validation says of them.
use farewell.Prelude.{
  ℕ, ◌+◌, ◌*◌, ◌%◌, ◌^◌, ap, ◌≤◌, ◌≡◌, refl, List, [], ◌∷◌, ◌++◌, Bytes, length, length-append,
  arith, ltb, ◌==◌, ◌||◌, false,
}
use farewell.Bytes.{to_le, write_u16, write_u32, write_u64, length-to_le}
use farewell.Format.Error.{ok, >>=-eq-ok}
use farewell.Format.Manifest.{FileEntry, ChunkIndex}
use farewell.Format.Manifest.{
  validate_name, validate_folder_path, max_name_len, max_folder_path_len,
}
use farewell.Format.Manifest.Codec.{write_chunks, write_entry, serialize_entries, serialize_folders}

pub length-write_chunks : (cs : List ChunkIndex) → length (write_chunks cs) ≡ 4 * length cs
unfolding write_chunks
length-write_chunks [] = refl
length-write_chunks (c ∷ cs) =
    omega
      (arith, length-append (to_le 4 c) (write_chunks cs), length-to_le 4 c, length-write_chunks cs)

-- A name that passes is not empty and fits its length byte.
pub validate_name-length :
    (name : Bytes)
    → validate_name name ≡ ok tt
    → (length name == 0 || ltb max_name_len (length name)) ≡ false
unfolding validate_name
validate_name-length name h = ground arith

pub validate_folder_path-length :
    (path : Bytes)
    → validate_folder_path path ≡ ok tt
    → (length path == 0 || ltb max_folder_path_len (length path)) ≡ false
unfolding validate_folder_path
validate_folder_path-length path h = ground arith

pub length-write_entry :
    (e : FileEntry) → length (write_entry e) ≡ 13 + length e.name + 4 * length e.chunks
unfolding write_entry
length-write_entry e = omega (
  arith,
  length-append e.name
      (write_u64 e.size ++ (write_u32 (length e.chunks % 2 ^ 32) ++ write_chunks e.chunks)),
  length-append (write_u64 e.size) (write_u32 (length e.chunks % 2 ^ 32) ++ write_chunks e.chunks),
  length-append (write_u32 (length e.chunks % 2 ^ 32)) (write_chunks e.chunks),
  length-to_le 8 e.size,
  length-to_le 4 (length e.chunks % 2 ^ 32),
  length-write_chunks e.chunks,
)

-- A successful loop over the entries, taken apart.
pub serialize_entries-cons :
    (e : FileEntry) (es : List FileEntry) (bytes : Bytes)
    → serialize_entries (e ∷ es) ≡ ok bytes
    → (rest : Bytes) × (validate_name e.name ≡ ok tt)
      × (serialize_entries es ≡ ok rest)
      × (bytes ≡ write_entry e ++ rest)
unfolding serialize_entries
serialize_entries-cons e es bytes h =
    let (u, valid, h') = >>=-eq-ok (validate_name e.name) _ h in
    let (rest, more, eq) = >>=-eq-ok (serialize_entries es) _ h' in (rest, valid, more, cc)

pub serialize_folders-cons :
    (f : Bytes) (fs : List Bytes) (bytes : Bytes)
    → serialize_folders (f ∷ fs) ≡ ok bytes
    → (rest : Bytes) × (validate_folder_path f ≡ ok tt)
      × (serialize_folders fs ≡ ok rest)
      × (bytes ≡ write_u16 (length f % 2 ^ 16) ++ (f ++ rest))
unfolding serialize_folders
serialize_folders-cons f fs bytes h =
    let (u, valid, h') = >>=-eq-ok (validate_folder_path f) _ h in
    let (rest, more, eq) = >>=-eq-ok (serialize_folders fs) _ h' in (rest, valid, more, cc)

-- A list of entries that serializes is shorter than its bytes.
pub length-serialize_entries :
    (es : List FileEntry) (bytes : Bytes)
    → serialize_entries es ≡ ok bytes
    → length es ≤ length bytes
length-serialize_entries [] bytes h = omega arith
length-serialize_entries (e ∷ es) bytes h =
    let (rest, valid, more, eq) = serialize_entries-cons e es bytes h in
    omega (
      arith,
      ap (length {A = ℕ}) eq,
      length-append (write_entry e) rest,
      length-write_entry e,
      length-serialize_entries es rest more,
    )

pub length-serialize_folders :
    (fs : List Bytes) (bytes : Bytes)
    → serialize_folders fs ≡ ok bytes
    → 2 * length fs ≤ length bytes
length-serialize_folders [] bytes h = omega arith
length-serialize_folders (f ∷ fs) bytes h =
    let (rest, valid, more, eq) = serialize_folders-cons f fs bytes h in
    omega (
      arith,
      ap (length {A = ℕ}) eq,
      length-append (write_u16 (length f % 2 ^ 16)) (f ++ rest),
      length-append f rest,
      length-to_le 2 (length f % 2 ^ 16),
      length-serialize_folders fs rest more,
    )
