-- ===== src/Format/Manifest.antt =====
-- crates/farewell_format/src/manifest.rs: the file tree of a vault, its naming rules and the
-- operations on the tree in memory. The codec is below.
pub mod Codec
pub mod Laws
mod Tests
use farewell.Prelude.{
  ℕ, ◌+◌, ◌*◌, ◌%◌, ◌^◌, Bool, true, false, ◌&&◌, ◌||◌, not, Option, none, some, List, [], ◌∷◌,
  ◌++◌, Bytes, length, ltb, leb, ◌==◌, if◌then◌else◌, bytes_eq, any,
}
use farewell.Format.Error.{Result, ok, err, invalid_name, ◌>>=◌, ◌>>◌}

-- The limits of manifest.rs, and the plaintext capacity of the chunk that holds the manifest.
abbrev pub chunk_plaintext_len : ℕ
chunk_plaintext_len = 64 * 1024

abbrev pub manifest_magic : Bytes
manifest_magic = b'M' ∷ b'F' ∷ b'S' ∷ b'T' ∷ []

abbrev pub manifest_version : ℕ
manifest_version = 4

abbrev pub manifest_version_min : ℕ
manifest_version_min = 3

abbrev pub max_name_len : ℕ
max_name_len = 255

abbrev pub max_folder_path_len : ℕ
max_folder_path_len = 1024

abbrev pub max_owner_len : ℕ
max_owner_len = 256

-- `u8::is_ascii_control`
unfoldable pub is_ascii_control : ℕ → Bool
is_ascii_control b = ltb b 0x20 || b == 0x7f

unfoldable pub validate_name : Bytes → Result (Unit {0})
unfolding any is_ascii_control
validate_name name =
    if length name == 0 || ltb max_name_len (length name)
    then err invalid_name
    else if any is_ascii_control name
    then err invalid_name
    else ok tt

unfoldable pub validate_folder_path : Bytes → Result (Unit {0})
unfolding any is_ascii_control
validate_folder_path path =
    if length path == 0 || ltb max_folder_path_len (length path)
    then err invalid_name
    else if any is_ascii_control path
    then err invalid_name
    else ok tt

unfoldable pub validate_owner : Bytes → Result (Unit {0})
validate_owner owner = if ltb max_owner_len (length owner) then err invalid_name else ok tt

-- A `ChunkIndex` is a u32.
abbrev pub ChunkIndex : Type 0
ChunkIndex = ℕ

pub record FileEntry : Type 0 where
  pub name : Bytes
  pub size : ℕ
  pub chunks : List ChunkIndex

pub record FileStat : Type 0 where
  pub name : Bytes
  pub size : ℕ

-- `impl From<&FileEntry> for FileStat`
abbrev pub file_stat : FileEntry → FileStat
file_stat e = record { name = e.name; size = e.size }

pub record Manifest : Type 0 where
  pub counter : ℕ
  pub entries : List FileEntry
  pub child_slots : List ℕ
  pub folders : List Bytes
  pub owner : Option Bytes

abbrev pub empty : Manifest
empty = record { counter = 0; entries = []; child_slots = []; folders = []; owner = none }

-- The counter is a u64: `+= 1` wraps.
unfoldable pub add_child_slot : Manifest → ℕ → Manifest
unfolding any
add_child_slot m slot =
    if any (λ s. s == slot) m.child_slots
    then m
    else record m { child_slots = m.child_slots ++ (slot ∷ []); counter = (m.counter + 1) % 2 ^ 64 }

-- The first entry of a name.
unfoldable pub find_entry : Bytes → List FileEntry → Option FileEntry
find_entry name [] = none
find_entry name (e ∷ es) = if bytes_eq e.name name then some e else find_entry name es

unfoldable pub find : Manifest → Bytes → Option FileEntry
unfolding find_entry
find m name = find_entry name m.entries

-- `retain(|e| e.name != name)`
unfoldable pub retain_other : Bytes → List FileEntry → List FileEntry
retain_other name [] = []
retain_other name (e ∷ es) =
    let rest = retain_other name es in if bytes_eq e.name name then rest else e ∷ rest

unfoldable pub upsert : Manifest → FileEntry → Manifest
unfolding retain_other
upsert m entry = record m {
  entries = retain_other entry.name m.entries ++ (entry ∷ []);
  counter = (m.counter + 1) % 2 ^ 64;
}

-- `Vec::remove` at the position of the first entry of the name.
unfoldable pub remove_first : Bytes → List FileEntry → List FileEntry
remove_first name [] = []
remove_first name (e ∷ es) = if bytes_eq e.name name then es else e ∷ remove_first name es

-- The manifest after the call, and what the call returns.
unfoldable pub remove : Manifest → Bytes → Manifest × Option FileEntry
unfolding find_entry remove_first
remove m name = elim (find_entry name m.entries) [
  | none ↦ (m, none)
  | some e ↦ (
    record m { entries = remove_first name m.entries; counter = (m.counter + 1) % 2 ^ 64 },
    some e,
  )
]
