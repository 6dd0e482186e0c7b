-- ===== src/Format/Vault/Commits/Reopen.antt =====
-- What the next `open` finds in the manifest chunk.
use farewell.Prelude.{◌<◌, ◌≡◌, List, [], Bytes, length, append-nil}
use farewell.Format.Error
use farewell.Format.Error.{Result, ok}
use farewell.Format.Manifest.{Manifest, ChunkIndex}
use farewell.Format.Manifest.Codec.{parse}
use farewell.Format.Manifest.Codec.RoundTrip.{IsManifest, stored, parse-serialize}
use farewell.Format.World.{World}
use farewell.Format.Chunk.{derive_chunk_key, decrypt_chunk}
use farewell.Format.Vault.State.{Vault, MountedLevel}
use farewell.Format.Vault.Publish.{IsCommitted}

-- The end of `open_inner`: the manifest chunk is decrypted under its key, and parsed.
unfoldable pub read_manifest : World → MountedLevel → Bytes → Result Manifest
read_manifest w m block =
    Error.◌>>=◌
      (decrypt_chunk w (derive_chunk_key w m.master m.manifest_chunk) m.manifest_chunk block) parse

-- What was committed is what `open` reads, where the tree is one of Rust's types with fewer than 256
-- child slots.
pub read_manifest-IsCommitted :
    (w : World) (m : MountedLevel) (candidate : Manifest) (freed : List ChunkIndex) (v v' : Vault)
    → IsManifest candidate
    → length candidate.child_slots < 256
    → IsCommitted w m candidate freed v v'
    → read_manifest w m (v'.file m.manifest_chunk) ≡ ok (stored candidate)
unfolding read_manifest
read_manifest-IsCommitted w m candidate freed v v' typed slots c =
    rw c.on_disk (rw append-nil at (parse-serialize candidate c.bytes [] typed slots c.serialized))
