-- ===== src/Format/Buffer.antt =====
-- Byte buffers that are read and written at offsets, as the fixed layouts of slot.rs and metadata.rs
-- are.
pub mod Laws
use farewell.Prelude.{ℕ, ◌+◌, ◌++◌, Bytes, length, take, drop, ltb, if◌then◌else◌}
use farewell.Format.Error.{Result, ok, panic}

-- `buffer[off..off + n]`, where the buffer is long enough.
unfoldable pub read : ℕ → ℕ → Bytes → Bytes
read off n buffer = take n (drop off buffer)

-- `buffer[off..off + bytes.len()].copy_from_slice(bytes)`
unfoldable pub write : ℕ → Bytes → Bytes → Result Bytes
write off bytes buffer =
    if ltb (length buffer) (off + length bytes)
    then panic
    else ok (take off buffer ++ (bytes ++ drop (off + length bytes) buffer))
