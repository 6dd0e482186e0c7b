-- ===== src/Format/Chunk.antt =====
-- crates/farewell_format/src/chunk.rs: fixed-size encrypted chunks.
pub mod RoundTrip
use farewell.Prelude.{
  ℕ, ◌+◌, ◌-◌, ◌*◌, ◌%◌, ◌^◌, Bool, Option, none, some, List, [], ◌∷◌, ◌++◌, Bytes, length, take,
  drop, replicate, ltb, ◌==◌, not, if◌then◌else◌,
}
use farewell.Bytes.{write_u32, from_le}
use farewell.Format.Error.{Result, ok, err, crypto, manifest, require, ◌>>=◌, ◌>>◌}
use farewell.Format.Error.{chunk_payload_too_large, chunk_plaintext_length_mismatch}
use farewell.Format.Error.{chunk_declared_length_out_of_range}
use farewell.Format.Manifest.{ChunkIndex, chunk_plaintext_len}
use farewell.Format.World.{World, nonce_len, tag_len}

abbrev pub chunk_stored_len : ℕ
chunk_stored_len = nonce_len + chunk_plaintext_len + 4 + tag_len

-- `.map_err(CryptoError)?` of a foreign call.
unfoldable pub crypto_result {ℓ} : {A : Type ℓ} → Option A → Result A
crypto_result none = err crypto
crypto_result (some a) = ok a

unfoldable pub offset_in_region : ChunkIndex → ℕ
offset_in_region index = index * chunk_stored_len

unfoldable pub chunk_aad : ChunkIndex → Bytes
chunk_aad index = b'c' ∷ b'h' ∷ b'k' ∷ b'1' ∷ write_u32 index

-- The zero-padded payload with its length behind it.
unfoldable pub padded : Bytes → Bytes
padded plaintext =
    (plaintext ++ replicate (chunk_plaintext_len - length plaintext) 0)
    ++ write_u32 (length plaintext % 2 ^ 32)

module _ (w : World) where
  unfoldable pub derive_chunk_key : Bytes → ChunkIndex → Bytes
  derive_chunk_key master index = w.derive_key (master ++ write_u32 index)

  -- `drawn` is what `rng::fill` returns for the nonce.
  unfoldable pub encrypt_chunk : Option Bytes → Bytes → ChunkIndex → Bytes → Result Bytes
  unfolding crypto_result chunk_aad padded
  encrypt_chunk drawn key index plaintext =
      if ltb chunk_plaintext_len (length plaintext)
      then err (manifest (chunk_payload_too_large (length plaintext)))
      else do
        nonce ← crypto_result drawn
        ct ← crypto_result (w.seal key nonce (chunk_aad index) (padded plaintext))
        ok (nonce ++ ct)

  unfoldable pub decrypt_chunk : Bytes → ChunkIndex → Bytes → Result Bytes
  unfolding crypto_result chunk_aad
  decrypt_chunk key index stored = do
    pt ←
        crypto_result
          (w.unseal key (take nonce_len stored) (chunk_aad index) (drop nonce_len stored))
    require (length pt == chunk_plaintext_len + 4) (manifest chunk_plaintext_length_mismatch)
    let real_len = from_le (drop chunk_plaintext_len pt)
    require (not (ltb chunk_plaintext_len real_len)) (manifest chunk_declared_length_out_of_range)
    ok (take real_len pt)
