-- ===== src/Format/Manifest/Codec.antt =====
-- `Manifest::serialize` and `Manifest::parse`: the little-endian form of a manifest.
pub mod Parser
pub mod Reads
pub mod Lengths
pub mod RoundTrip
use farewell.Prelude.{
  ℕ, zero, suc, ◌+◌, ◌*◌, ◌%◌, ◌^◌, Bool, true, false, ◌||◌, not, Option, none, some, List, [], ◌∷◌,
  ◌++◌, Bytes, length, ltb, leb, ◌==◌, if◌then◌else◌, bytes_eq,
}
use farewell.Bytes.{write_u16, write_u32, write_u64}
use farewell.Bytes.Utf8.{is_utf8}
use farewell.Format.Error.{Result, ok, err, invalid_name, manifest, manifest_overflow}
use farewell.Format.Error.{bad_manifest_magic, unsupported_manifest_version, owner_too_long}
use farewell.Format.Error.{Message, non_utf8_name, non_utf8_folder, non_utf8_owner}
use farewell.Format.Error
use farewell.Format.Manifest.{FileEntry, Manifest, ChunkIndex, validate_name, validate_folder_path}
use farewell.Format.Manifest.{manifest_magic, manifest_version, manifest_version_min}
use farewell.Format.Manifest.{max_name_len, max_folder_path_len, max_owner_len, chunk_plaintext_len}
use Parser.{P, pure, fail, ◌>>=◌, ◌>>◌, take, read_u8, read_u16, read_u32, read_u64, new}

unfoldable pub write_chunks : List ChunkIndex → Bytes
write_chunks [] = []
write_chunks (c ∷ cs) = write_u32 c ++ write_chunks cs

-- What the loop over `entries` appends for one entry, its name being valid.
unfoldable pub write_entry : FileEntry → Bytes
unfolding write_chunks
write_entry e =
    (length e.name % 2 ^ 8)
    ∷ (e.name
        ++ (write_u64 e.size ++ (write_u32 (length e.chunks % 2 ^ 32) ++ write_chunks e.chunks)))

unfoldable pub serialize_entries : List FileEntry → Result Bytes
unfolding validate_name write_entry
serialize_entries [] = ok []
serialize_entries (e ∷ es) =
    Error.◌>>=◌ (validate_name e.name)
      (λ _. Error.◌>>=◌ (serialize_entries es) (λ rest. ok (write_entry e ++ rest)))

unfoldable pub serialize_folders : List Bytes → Result Bytes
unfolding validate_folder_path
serialize_folders [] = ok []
serialize_folders (f ∷ fs) = Error.◌>>=◌ (validate_folder_path f) (λ _.
    Error.◌>>=◌ (serialize_folders fs) (λ rest. ok (write_u16 (length f % 2 ^ 16) ++ (f ++ rest))))

-- `self.owner.as_deref().unwrap_or("")`
abbrev pub owner_bytes : Option Bytes → Bytes
owner_bytes none = []
owner_bytes (some o) = o

-- The output buffer once every part is known.
abbrev pub layout : Manifest → Bytes → Bytes → Bytes
layout m entries folders =
    manifest_magic
    ++ (write_u16 manifest_version
        ++ (0
            ∷ 0
            ∷ (write_u64 m.counter
                ++ (write_u32 (length m.entries % 2 ^ 32)
                    ++ (entries
                        ++ ((length m.child_slots % 2 ^ 8)
                            ∷ (m.child_slots
                                ++ (write_u16 (length m.folders % 2 ^ 16)
                                    ++ (folders
                                        ++ (write_u16 (length (owner_bytes m.owner) % 2 ^ 16)
                                            ++ owner_bytes m.owner))))))))))

unfoldable pub serialize : Manifest → Result Bytes
unfolding serialize_entries serialize_folders
serialize m = Error.◌>>=◌ (serialize_entries m.entries) (λ entries.
    Error.◌>>=◌ (serialize_folders m.folders) (λ folders.
      if ltb max_owner_len (length (owner_bytes m.owner))
      then err invalid_name
      else if ltb chunk_plaintext_len (length (layout m entries folders))
      then err manifest_overflow
      else ok (layout m entries folders)))

-- `String::from_utf8(bytes).map_err(|_| …)`
unfoldable pub from_utf8 : Bytes → Message → P Bytes
from_utf8 bytes m = if is_utf8 bytes then pure bytes else fail (manifest m)

unfoldable pub parse_chunks : ℕ → P (List ChunkIndex)
parse_chunks zero = pure []
parse_chunks (suc n) = do c ← read_u32; cs ← parse_chunks n; pure (c ∷ cs)

unfoldable pub parse_entry : P FileEntry
unfolding parse_chunks from_utf8
parse_entry = do
  name_len ← read_u8
  if name_len == 0 || ltb max_name_len name_len then fail invalid_name else do
    name_bytes ← take name_len
    name ← from_utf8 name_bytes non_utf8_name
    size ← read_u64
    chunk_count ← read_u32
    chunks ← parse_chunks chunk_count
    pure (record { name = name; size = size; chunks = chunks })

unfoldable pub parse_entries : ℕ → P (List FileEntry)
unfolding parse_entry
parse_entries zero = pure []
parse_entries (suc n) = do e ← parse_entry; es ← parse_entries n; pure (e ∷ es)

unfoldable pub parse_child_slots : ℕ → P (List ℕ)
parse_child_slots zero = pure []
parse_child_slots (suc n) = do c ← read_u8; cs ← parse_child_slots n; pure (c ∷ cs)

unfoldable pub parse_folders : ℕ → P (List Bytes)
unfolding from_utf8
parse_folders zero = pure []
parse_folders (suc n) = do
  len ← read_u16
  if len == 0 || ltb max_folder_path_len len then fail invalid_name else do
    bytes ← take len
    path ← from_utf8 bytes non_utf8_folder
    paths ← parse_folders n
    pure (path ∷ paths)

-- The branch of a version that has the owner field.
unfoldable pub read_owner : P (Option Bytes)
unfolding from_utf8
read_owner = do
  olen ← read_u16
  if olen == 0
      then pure none
      else if ltb max_owner_len olen
      then fail (manifest owner_too_long)
      else do bytes ← take olen; o ← from_utf8 bytes non_utf8_owner; pure (some o)

unfoldable pub parse_owner : ℕ → P (Option Bytes)
unfolding read_owner
parse_owner version = if leb 4 version then read_owner else pure none

-- The part behind the version word.
unfoldable pub parse_body : ℕ → P Manifest
unfolding parse_entries parse_child_slots parse_folders parse_owner
parse_body version = do
  take 2
  counter ← read_u64
  entry_count ← read_u32
  entries ← parse_entries entry_count
  child_count ← read_u8
  child_slots ← parse_child_slots child_count
  folder_count ← read_u16
  folders ← parse_folders folder_count
  owner ← parse_owner version
  pure (record {
    counter = counter;
    entries = entries;
    child_slots = child_slots;
    folders = folders;
    owner = owner;
  })

unfoldable pub parse_manifest : P Manifest
unfolding parse_body
parse_manifest = do
  magic ← take 4
  if not (bytes_eq magic manifest_magic) then fail (manifest bad_manifest_magic) else do
    version ← read_u16
    if ltb version manifest_version_min || ltb manifest_version version
        then fail (manifest (unsupported_manifest_version version))
        else parse_body version

unfoldable pub parse : Bytes → Result Manifest
unfolding parse_manifest
parse buf = Error.◌>>=◌ (parse_manifest (new buf)) (λ r. ok r.0)
