-- ===== src/Format/World.antt =====
-- What crates/farewell_format calls and does not implement: the AEAD cipher, BLAKE3, Argon2id and
-- ML-DSA behind crates/farewell_crypto, the random source of the operating system, and the outcomes of file
-- system calls. Calls whose outcome is chosen outside are numbered by a clock.
use farewell.Prelude.{
  ℕ, ◌+◌, ◌≡◌, Bool, true, Option, some, List, Bytes, length, min, contains, All, IsDistinct,
}

pub record World : Type 0 where
  -- `Aes256GcmSiv::encrypt` and `decrypt`: key, nonce, associated data, message.
  pub seal : Bytes → Bytes → Bytes → Bytes → Option Bytes
  pub unseal : Bytes → Bytes → Bytes → Bytes → Option Bytes
  -- `blake3::derive_key` under the context of chunk keys.
  pub derive_key : Bytes → Bytes
  -- `blake3::derive_key`: context, material.
  pub derive_key_in : Bytes → Bytes → Bytes
  -- `blake3::Hasher::new_keyed`: key, message.
  pub keyed_hash : Bytes → Bytes → Bytes
  -- `argon2` under a number of KiB, of iterations and of lanes: passphrase, salt.
  pub argon2id : ℕ → ℕ → ℕ → Bytes → Bytes → Option Bytes
  -- `mldsa_generate` at a time: the signing key and the encoded verifying key. `mldsa_sign`: signing
  -- key, message.
  pub mldsa_generate : ℕ → Bytes × Bytes
  pub mldsa_sign : Bytes → Bytes → Bytes
  -- Whether bytes are a verifying key, and whether it verifies a message and its signature.
  pub mldsa_is_key : Bytes → Bool
  pub mldsa_verify : Bytes → Bytes → Bytes → Bool
  -- `OsRng::try_fill_bytes` at a time, for a number of bytes.
  pub fill : ℕ → ℕ → Option Bytes
  -- `choose_multiple` of an iterator's items at a time.
  pub choose_multiple : ℕ → List ℕ → ℕ → List ℕ
  -- `seek` and `write_all` of one block: `none` if it is written, else the block that is left.
  pub write_all : ℕ → Option Bytes
  -- Whether `seek` and `read_exact` of one block, and a sync, succeed.
  pub read_exact : ℕ → Bool
  pub sync_all : ℕ → Bool

abbrev pub nonce_len : ℕ
nonce_len = 12

abbrev pub tag_len : ℕ
tag_len = 16

-- What the code relies on.
pub record IsLawful (w : World) : Type 0 where
  pub unseal-seal : (k n a m c : Bytes) → w.seal k n a m ≡ some c → w.unseal k n a c ≡ some m
  pub length-seal : (k n a m c : Bytes) → w.seal k n a m ≡ some c → length c ≡ length m + tag_len
  pub length-derive_key_in : (c m : Bytes) → length (w.derive_key_in c m) ≡ 32
  pub mldsa_is_key-generate : (t : ℕ) → w.mldsa_is_key (w.mldsa_generate t).1 ≡ true
  pub mldsa_verify-sign :
      (t : ℕ) (m : Bytes)
      → w.mldsa_verify (w.mldsa_generate t).1 m (w.mldsa_sign (w.mldsa_generate t).0 m) ≡ true
  pub length-mldsa_generate : (t : ℕ) → length (w.mldsa_generate t).1 ≡ 2592
  pub length-mldsa_sign : (k m : Bytes) → length (w.mldsa_sign k m) ≡ 4627
  pub length-fill : (t n : ℕ) (b : Bytes) → w.fill t n ≡ some b → length b ≡ n
  pub choose_multiple-from :
      (t : ℕ) (cs : List ℕ) (n : ℕ) → All (λ c. contains cs c ≡ true) (w.choose_multiple t cs n)
  pub choose_multiple-IsDistinct :
      (t : ℕ) (cs : List ℕ) (n : ℕ) → IsDistinct cs → IsDistinct (w.choose_multiple t cs n)
  pub length-choose_multiple :
      (t : ℕ) (cs : List ℕ) (n : ℕ) → length (w.choose_multiple t cs n) ≡ min n (length cs)
