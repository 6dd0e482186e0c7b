-- ===== src/Format/Manifest/Tests.antt =====
-- Runs of manifest.rs.
use farewell.Prelude.{◌≡◌, refl, Bytes, [], ◌∷◌, ◌++◌, some}
use farewell.Format.Error.{ok}
use farewell.Format.Manifest.{Manifest}
use farewell.Format.Manifest.Codec.{serialize, parse}
use farewell.Format.Manifest.Codec.Parser.{read_le, new}
use farewell.Bytes.{to_le, from_le}
use farewell.Bytes.Utf8.{is_utf8}
use farewell.Prelude.{bytes_eq, take, drop}

abbrev sample : Manifest
sample = record {
  counter = 7;
  entries = record { name = b'a' ∷ []; size = 300; chunks = 5 ∷ 70000 ∷ [] } ∷ [];
  child_slots = 3 ∷ [];
  folders = (b'd' ∷ b'/' ∷ b'e' ∷ []) ∷ [];
  owner = some (0xc3 ∷ 0xa9 ∷ []);
}

abbrev sample_bytes : Bytes
sample_bytes =
    b'M' ∷ b'F' ∷ b'S' ∷ b'T' ∷ 4 ∷ 0 ∷ 0 ∷ 0 ∷ 7 ∷ 0 ∷ 0 ∷ 0 ∷ 0 ∷ 0 ∷ 0 ∷ 0 ∷ 1 ∷ 0 ∷ 0 ∷ 0 ∷ 1
    ∷ b'a' ∷ 44 ∷ 1 ∷ 0 ∷ 0 ∷ 0 ∷ 0 ∷ 0 ∷ 0 ∷ 2 ∷ 0 ∷ 0 ∷ 0 ∷ 5 ∷ 0 ∷ 0 ∷ 0 ∷ 0x70 ∷ 0x11 ∷ 1 ∷ 0
    ∷ 1 ∷ 3 ∷ 1 ∷ 0 ∷ 3 ∷ 0 ∷ b'd' ∷ b'/' ∷ b'e' ∷ 2 ∷ 0 ∷ 0xc3 ∷ 0xa9 ∷ []

sample_serialized : serialize sample ≡ ok sample_bytes
unfolding serialize to_le
sample_serialized = refl

sample_parsed : parse (sample_bytes ++ 0 ∷ 0 ∷ []) ≡ ok sample
unfolding parse new read_le from_le is_utf8 bytes_eq take drop
sample_parsed = refl
