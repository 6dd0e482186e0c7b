-- ===== src/Format/Chunk/RoundTrip.antt =====
-- `decrypt_chunk` returns what `encrypt_chunk` was given.
use farewell.Prelude.{
  ℕ, ◌+◌, ◌-◌, ◌%◌, ◌^◌, ◌≤◌, ◌≡◌, refl, sym, ◌++◌, Option, none, some, Bytes, length, take, drop,
  replicate, length-append, length-replicate, append_assoc, take-append, drop-append, Bool-cases,
  inl, inr, arith, ltb,
}
use farewell.Bytes.{from_le, length-to_le, from_le-to_le}
use farewell.Format.Error.{ok, >>=-eq-ok}
use farewell.Format.Manifest.{ChunkIndex, chunk_plaintext_len}
use farewell.Format.World.{World, IsLawful, nonce_len}
use farewell.Format.Chunk.{crypto_result, chunk_aad, padded, encrypt_chunk, decrypt_chunk}

-- The plaintext of a chunk has one size.
length-padded :
    (pt : Bytes) → length pt ≤ chunk_plaintext_len → length (padded pt) ≡ chunk_plaintext_len + 4
unfolding padded
length-padded pt h = simp (length-append, length-replicate, length-to_le) (omega arith)

-- What the length tag behind the padding says, and the prefix that it cuts off.
padded_tag :
    (pt : Bytes)
    → length pt ≤ chunk_plaintext_len
    → from_le (drop chunk_plaintext_len (padded pt)) ≡ length pt
unfolding padded
padded_tag pt h =
    rw
      (drop-append chunk_plaintext_len (pt ++ replicate (chunk_plaintext_len - length pt) 0) _
        (simp (length-append, length-replicate) (omega arith)))
      (let same : length pt % 2 ^ 32 ≡ length pt = omega arith in
        rw same (from_le-to_le 4 (length pt) (omega arith)))

padded_prefix : (pt : Bytes) → take (length pt) (padded pt) ≡ pt
unfolding padded
padded_prefix pt = rw append_assoc (take-append (length pt) pt _ refl)

pub crypto_result-eq-ok {ℓ} :
    {A : Type ℓ} (o : Option A) {a : A} → crypto_result o ≡ ok a → o ≡ some a
unfolding crypto_result
crypto_result-eq-ok none h = cc
crypto_result-eq-ok (some a) h = ground arith

-- An encryption that succeeds, taken apart.
pub encrypt_chunk-eq-ok :
    (w : World) (drawn : Option Bytes) (key : Bytes) (index : ChunkIndex) (pt stored : Bytes)
    → encrypt_chunk w drawn key index pt ≡ ok stored
    → (nonce : Bytes) × (ct : Bytes) × (drawn ≡ some nonce)
      × (w.seal key nonce (chunk_aad index) (padded pt) ≡ some ct)
      × (stored ≡ nonce ++ ct)
      × (length pt ≤ chunk_plaintext_len)
unfolding encrypt_chunk
encrypt_chunk-eq-ok w drawn key index pt stored h =
    elim (Bool-cases (ltb chunk_plaintext_len (length pt))) [
      | inl big ↦ absurd (cc (rw big at h))
      | inr fits ↦
          let (nonce, e, h') = >>=-eq-ok (crypto_result drawn) _ (rw fits at h) in
          let (ct, e', h2) =
            >>=-eq-ok (crypto_result (w.seal key nonce (chunk_aad index) (padded pt))) _ h' in
          (nonce, ct, crypto_result-eq-ok drawn e, crypto_result-eq-ok _ e', cc, ground arith)
    ]

module _ (w : World) (lawful : IsLawful w) where
  -- With a lawful cipher and random source, a payload that `encrypt_chunk` accepts is what
  -- `decrypt_chunk` reads back from the block, under the same key and at the same index.
  pub decrypt_chunk-encrypt_chunk :
      (t : ℕ) (key : Bytes) (index : ChunkIndex) (pt stored : Bytes)
      → encrypt_chunk w (w.fill t nonce_len) key index pt ≡ ok stored
      → decrypt_chunk w key index stored ≡ ok pt
  unfolding decrypt_chunk crypto_result
  decrypt_chunk-encrypt_chunk t key index pt stored h =
      let (nonce, ct, drawn, sealed, eq, fits) =
        encrypt_chunk-eq-ok w (w.fill t nonce_len) key index pt stored h in
      let room : nonce_len ≡ length nonce = sym (lawful.length-fill t nonce_len nonce drawn) in
      rw
        (
          eq,
          take-append nonce_len nonce ct room,
          drop-append nonce_len nonce ct room,
          lawful.unseal-seal key nonce (chunk_aad index) (padded pt) ct sealed,
        )
        (ground (arith, length-padded pt fits, padded_tag pt fits, padded_prefix pt))
