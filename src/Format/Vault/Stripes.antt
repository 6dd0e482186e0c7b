-- ===== src/Format/Vault/Stripes.antt =====
-- Where vault.rs puts the manifest of a level (`manifest_chunk_for_slot`).
use farewell.Prelude.{
  ℕ, ◌+◌, ◌-◌, ◌*◌, ◌/◌, ◌%◌, ◌^◌, ◌<◌, ◌≤◌, ◌≡◌, Bytes, take, leb, if◌then◌else◌, max, arith,
  false,
}
use native.Mathlib.Nat.{mod-lt}
use farewell.Bytes.{from_le}
use farewell.Format.Manifest.{ChunkIndex}
use farewell.Format.Vault.Raw.{num_slots}

-- The number of chunks of a slot's stripe.
unfoldable pub stripe_len : ℕ → ℕ → ℕ
stripe_len slot total_chunks =
    if leb total_chunks slot then 0 else (total_chunks - slot + (num_slots - 1)) / num_slots

unfoldable pub stripe_chunk : ℕ → ℕ → ChunkIndex
stripe_chunk slot ordinal = (slot + ordinal * num_slots) % 2 ^ 32

-- `derived` is the BLAKE3 key that is derived from the master key for this purpose.
unfoldable pub manifest_chunk_for_slot : Bytes → ℕ → ℕ → ChunkIndex
unfolding stripe_len stripe_chunk
manifest_chunk_for_slot derived slot total_chunks =
    let len = max (stripe_len slot total_chunks) 1 in
    let n = from_le (take 8 derived) in stripe_chunk slot (n % len)

-- The manifest of a slot that exists lies in the file and in the slot's stripe, where the file's
-- chunks are numbered by a u32.
pub manifest_chunk_for_slot-lt :
    (derived : Bytes) (slot total_chunks : ℕ)
    → slot < num_slots
    → slot < total_chunks
    → total_chunks ≤ 2 ^ 32
    → (manifest_chunk_for_slot derived slot total_chunks < total_chunks)
      × (manifest_chunk_for_slot derived slot total_chunks % num_slots ≡ slot)
unfolding manifest_chunk_for_slot
manifest_chunk_for_slot-lt derived slot total_chunks hs inside small =
    let open' : leb total_chunks slot ≡ false = ground arith in
    let len = max (stripe_len slot total_chunks) 1 in
    let ordinal = from_le (take 8 derived) % len in
    let wide : len ≡ total_chunks - slot = rw open' (omega arith) in
    let low : ordinal < len = mod-lt (from_le (take 8 derived)) (omega (arith, wide)) in
    (omega (arith, low, wide), omega (arith, low, wide))
