-- ===== src/Format/Vault/Queries.antt =====
-- The methods of vault.rs that read the mounted manifest and no chunk.
use farewell.Prelude.{
  ℕ, ◌+◌, ◌-◌, ◌*◌, Option, none, some, List, [], ◌∷◌, map, Bytes, length, ltb, ◌==◌, if◌then◌else◌,
}
use farewell.Format.Error.{
  Result, ok, err, counter_rollback, file_not_found, manifest, no_level_mounted, ◌>>=◌,
}
use farewell.Format.Manifest.{FileEntry, FileStat, file_stat, find, chunk_plaintext_len}
use farewell.Format.Vault.State.{Vault}

unfoldable pub list : Vault → List FileEntry
list v = elim v.mounted [ none ↦ [] | some m ↦ m.manifest.entries ]

unfoldable pub readdir : Vault → List FileStat
readdir v = elim v.mounted [ none ↦ [] | some m ↦ map file_stat m.manifest.entries ]

unfoldable pub owner : Vault → Option Bytes
owner v = elim v.mounted [ none ↦ none | some m ↦ m.manifest.owner ]

unfoldable pub counter : Vault → Option ℕ
counter v = elim v.mounted [ none ↦ none | some m ↦ some m.manifest.counter ]

-- `ok_or_else(|| FileNotFound(name))`
unfoldable pub find_or_fail : Bytes → Option FileEntry → Result FileEntry
find_or_fail name none = err (file_not_found name)
find_or_fail name (some e) = ok e

unfoldable pub stat_file : Vault → Bytes → Result FileStat
unfolding find_or_fail
stat_file v name = elim v.mounted [
  | none ↦ err (manifest no_level_mounted)
  | some m ↦ do e ← find_or_fail name (find m.manifest name); ok (file_stat e)
]

-- `used_file_chunks`: the sum of the lengths of the chunk lists.
unfoldable pub count_chunks : List FileEntry → ℕ
count_chunks [] = 0
count_chunks (e ∷ es) = length e.chunks + count_chunks es

-- Total and free bytes.
unfoldable pub space : Vault → Option (ℕ × ℕ)
unfolding count_chunks
space v = elim v.mounted [
  | none ↦ none
  | some m ↦
      if v.total_chunks == 0
      then some (0, 0)
      else (let usable_chunks = v.total_chunks - 1 in
          let free_chunks = usable_chunks - count_chunks m.manifest.entries in
          some (usable_chunks * chunk_plaintext_len, free_chunks * chunk_plaintext_len))
]

unfoldable pub require_counter_at_least : Vault → ℕ → Result (Unit {0})
unfolding counter
require_counter_at_least v expected = elim (counter v) [
  | none ↦ ok tt
  | some actual ↦ if ltb actual expected then err (counter_rollback expected actual) else ok tt
]
