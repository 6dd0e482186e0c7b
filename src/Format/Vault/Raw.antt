-- ===== src/Format/Vault/Raw.antt =====
-- The internals of vault.rs: the guard of mutations, the destructive phase, raw chunk I/O and the
-- publication of a manifest.
use farewell.Prelude.{
  ℕ, zero, suc, ◌+◌, ◌-◌, ◌%◌, ◌^◌, Bool, true, ◌&&◌, ◌||◌, not, none, some, List, [], ◌∷◌, ◌++◌,
  Bytes, length, take, ltb, leb, ◌==◌, if◌then◌else◌, contains,
}
use farewell.Format.Error.{Result, ok, err, panic, io, full, session_poisoned}
use farewell.Format.Error.{manifest, invalid_chunk, no_level_mounted}
use farewell.Format.Manifest.{FileEntry, Manifest, ChunkIndex}
use farewell.Format.World.{World, nonce_len}
use farewell.Format.Chunk
use farewell.Format.Chunk.{chunk_stored_len, derive_chunk_key, crypto_result}
use farewell.Format.Vault.State.{MountedLevel, Vault, M, pure, fail, lift, ◌>>=◌, ◌>>◌}

-- `self.mounted.as_ref().ok_or_else(…)?`
unfoldable pub mounted_level : M MountedLevel
mounted_level v = elim v.mounted [
  | none ↦ (err (manifest no_level_mounted), v)
  | some m ↦ (ok m, v)
]

unfoldable pub ensure_mutable : M (Unit {0})
ensure_mutable v = if v.poisoned then (err session_poisoned, v) else (ok tt, v)

abbrev pub poison {ℓ} : {A : Type ℓ} → Result A × Vault → Result A × Vault
poison (ok a, v) = (ok a, v)
poison (err e, v) = (err e, record v { poisoned = true })
poison (panic, v) = (panic, v)

unfoldable pub destructive_phase {ℓ} : {A : Type ℓ} → M A → M A
destructive_phase f v = poison (f v)

unfoldable pub master_key_view : M Bytes
unfolding mounted_level
master_key_view = do m ← mounted_level; pure m.master

unfoldable pub candidate_manifest : M Manifest
unfolding mounted_level
candidate_manifest = do m ← mounted_level; pure m.manifest

-- The time of the next outside call.
unfoldable pub tick : M ℕ
tick v = (ok v.clock, record v { clock = v.clock + 1 })

unfoldable pub put_block : ChunkIndex → Bytes → M (Unit {0})
put_block idx block v = (ok tt, record v { file = λ i. if i == idx then block else v.file i })

-- `self.mounted.as_mut().expect(…).manifest = candidate`
unfoldable pub install_manifest : Manifest → M (Unit {0})
install_manifest candidate v = elim v.mounted [
  | none ↦ (panic, v)
  | some m ↦ (ok tt, record v { mounted = some (record m { manifest = candidate }) })
]

abbrev pub chunks_of : List FileEntry → List ChunkIndex
chunks_of [] = []
chunks_of (e ∷ es) = e.chunks ++ chunks_of es

abbrev pub num_slots : ℕ
num_slots = 1

-- The indices from `c` on, `n` of them.
unfoldable pub indices : ℕ → ℕ → List ℕ
indices c zero = []
indices c (suc n) = c ∷ indices (c + 1) n

unfoldable pub filter_free : (ℕ → Bool) → List ℕ → List ℕ
filter_free p [] = []
filter_free p (c ∷ cs) = let rest = filter_free p cs in if p c then c ∷ rest else rest

-- `used` of `allocate_chunks`: the chunks of the level, less the reusable ones.
unfoldable pub is_used : MountedLevel → List ChunkIndex → ℕ → Bool
unfolding contains
is_used m reusable c =
    (c == m.manifest_chunk || contains (chunks_of m.manifest.entries) c)
    && not (contains reusable c)

unfoldable pub is_candidate : MountedLevel → List ChunkIndex → ℕ → Bool
unfolding is_used
is_candidate m reusable c =
    c % num_slots == m.slot
    && (not (is_used m reusable c) && (not (contains m.off_limits c) && not (contains reusable c)))

module _ (w : World) where
  unfoldable pub encrypt_chunk : Bytes → ChunkIndex → Bytes → M Bytes
  unfolding Chunk.encrypt_chunk tick
  encrypt_chunk key index plaintext = do
    t ← tick
    lift (Chunk.encrypt_chunk w (w.fill t nonce_len) key index plaintext)

  unfoldable pub random_chunk : M Bytes
  unfolding crypto_result tick
  random_chunk = do t ← tick; lift (crypto_result (w.fill t chunk_stored_len))

  unfoldable pub write_chunk_raw : ChunkIndex → Bytes → M (Unit {0})
  unfolding tick put_block
  write_chunk_raw idx block v =
      if leb v.total_chunks idx
      then (err (invalid_chunk idx), v)
      else (tick >>= λ t. elim (w.write_all t) [
        | none ↦ put_block idx block
        | some torn ↦ put_block idx torn >> fail io
      ])
          v

  unfoldable pub read_chunk_raw : ChunkIndex → M Bytes
  unfolding tick
  read_chunk_raw idx v =
      if leb v.total_chunks idx
      then (err (invalid_chunk idx), v)
      else (tick >>= λ t. if w.read_exact t then (λ u. (ok (u.file idx), u)) else fail io) v

  -- `durable_sync` and `sync_all`: the outcome alone matters to the state.
  unfoldable pub sync : Bool → M (Unit {0})
  unfolding tick
  sync durable = do t ← tick; if w.sync_all t then pure tt else fail io

  unfoldable pub write_manifest_chunk : Bytes → M (Unit {0})
  unfolding master_key_view mounted_level encrypt_chunk write_chunk_raw derive_chunk_key
  write_manifest_chunk bytes = do
    master_key ← master_key_view
    m ← mounted_level
    stored ← encrypt_chunk (derive_chunk_key w master_key m.manifest_chunk) m.manifest_chunk bytes
    write_chunk_raw m.manifest_chunk stored

  unfoldable pub publish_manifest : Manifest → Bytes → Bool → M (Unit {0})
  unfolding write_manifest_chunk install_manifest sync
  publish_manifest candidate bytes durable = do
    write_manifest_chunk bytes
    install_manifest candidate
    sync durable

  -- `v.write_chunk_raw(old, &random_chunk()?)?` for each of a list.
  unfoldable pub shred : List ChunkIndex → M (Unit {0})
  unfolding random_chunk write_chunk_raw
  shred [] = pure tt
  shred (old ∷ rest) = do block ← random_chunk; write_chunk_raw old block; shred rest

  unfoldable pub allocate_chunks : ℕ → List ChunkIndex → M (List ChunkIndex)
  unfolding mounted_level is_candidate indices filter_free tick
  allocate_chunks n reusable v =
      (do
        m ← mounted_level
        let out = take n reusable
        if length out == n then pure out else do
          t ← tick
          let candidates =
              filter_free (is_candidate m reusable) (indices 0 (v.total_chunks % 2 ^ 32))
          let needed = n - length out
          let picked = w.choose_multiple t candidates needed
          if ltb (length picked) needed then fail full else pure (out ++ picked))
        v
