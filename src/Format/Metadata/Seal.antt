-- ===== src/Format/Metadata/Seal.antt =====
-- `Metadata::seal` of metadata.rs.
use farewell.Prelude.{Bytes, replicate}
use farewell.Format.World.{World, nonce_len}
use farewell.Format.Chunk.{crypto_result}
use farewell.Format.Buffer.{write}
use farewell.Format.Draws.{D, lift, fill, ◌>>=◌}
use farewell.Format.Metadata.{Metadata, metadata_aad, metadata_blob_len, write_metadata}

unfoldable pub seal : World → Metadata → Bytes → D Bytes
unfolding write_metadata fill crypto_result write
seal w m metadata_key = do
  plain ← lift (write_metadata m)
  nonce ← fill w nonce_len
  ct ← lift (crypto_result (w.seal metadata_key nonce metadata_aad plain))
  blob ← lift (write 0 nonce (replicate metadata_blob_len 0))
  lift (write nonce_len ct blob)
