-- ===== src/Format/Vault/ReadBack/Pieces.antt =====
-- The plaintext of a file as pieces of one chunk each: how `add_file` writes them and `read_file`
-- puts them together again (vault.rs).
use farewell.Prelude.{
  ℕ, zero, suc, ◌+◌, ◌-◌, ◌*◌, ◌<◌, ◌≤◌, ◌≡◌, refl, sym, ap, ◌∙◌, ◌⊎◌, inl, inr, true, false, List,
  [], ◌∷◌, ◌++◌, Bytes, length, length-drop, take, drop, ltb, leb, ◌==◌, ◌||◌, min, arith, All,
  IsDistinct, contains, Bool-cases,
}
use mathlib.Core.Path.{subst}
use farewell.Format.Error.{Result, ok}
use farewell.Format.Manifest.{ChunkIndex, chunk_plaintext_len}
use farewell.Format.Manifest.Codec.Reads.{drop-drop}
use farewell.Format.World.{World, IsLawful, nonce_len}
use farewell.Format.Chunk
use farewell.Format.Chunk.{derive_chunk_key, decrypt_chunk}
use farewell.Format.Chunk.RoundTrip.{decrypt_chunk-encrypt_chunk}
use farewell.Format.Vault.State.{Vault, M, pure, continue}
use farewell.Format.Vault.Raw.{encrypt_chunk, write_chunk_raw, read_chunk_raw, tick}
use farewell.Format.Vault.Files.{slice, write_plaintext, read_chunks}
use farewell.Format.Vault.Publish.{
  continue-eq-ok, bind-eq-ok, encrypt_chunk-eq-ok, write_chunk_raw-eq-ok, written,
}
use farewell.Format.Vault.Spares.Ranges.{take-nil}
use farewell.Format.Vault.Overwrite.{bind-ok}

take-short : {A : Type 0} (n a : ℕ) (xs : List A) → n ≡ min a (length xs) → take n xs ≡ take a xs
unfolding take
take-short zero zero xs h = refl
take-short zero (suc a) [] h = refl
take-short zero (suc a) (x ∷ xs) h = absurd (omega arith)
take-short (suc n) zero xs h = absurd (omega arith)
take-short (suc n) (suc a) [] h = refl
take-short (suc n) (suc a) (x ∷ xs) h = ap (λ t. x ∷ t) (take-short n a xs (omega arith))

take-add :
    {A : Type 0} (n a b : ℕ) (xs : List A) → n ≡ a + b → take n xs ≡ take a xs ++ take b (drop a xs)
unfolding take drop
take-add n zero b xs h = ap (λ t. take t xs) (omega arith)
take-add zero (suc a) b xs h = absurd (omega arith)
take-add (suc n) (suc a) b [] h = sym (take-nil b)
take-add (suc n) (suc a) b (x ∷ xs) h = ap (λ t. x ∷ t) (take-add n a b xs (omega arith))

pub take-all : {A : Type 0} (n : ℕ) (xs : List A) → length xs ≤ n → take n xs ≡ xs
unfolding take
take-all zero [] h = refl
take-all (suc n) [] h = refl
take-all zero (x ∷ xs) h = absurd (omega arith)
take-all (suc n) (x ∷ xs) h = ap (λ t. x ∷ t) (take-all n xs (omega arith))

-- The first pieces of a byte string, put together.
abbrev pub joined : ℕ → Bytes → Bytes
joined zero xs = []
joined (suc n) xs = take chunk_plaintext_len xs ++ joined n (drop chunk_plaintext_len xs)

pub joined-eq-take : (n k : ℕ) (xs : Bytes) → k ≡ n * chunk_plaintext_len → joined n xs ≡ take k xs
unfolding take
joined-eq-take zero zero xs h = refl
joined-eq-take zero (suc k) xs h = absurd (omega arith)
joined-eq-take (suc n) k xs h =
    ap (λ t. take chunk_plaintext_len xs ++ t)
      (joined-eq-take n (k - chunk_plaintext_len) (drop chunk_plaintext_len xs) (omega arith))
    ∙ sym (take-add k chunk_plaintext_len (k - chunk_plaintext_len) xs (omega arith))

slice-eq-ok :
    (start end : ℕ) (xs : Bytes) {s : Bytes}
    → slice start end xs ≡ ok s
    → s ≡ take (end - start) (drop start xs)
unfolding slice
slice-eq-ok start end xs h = elim (Bool-cases (ltb end start || ltb (length xs) end)) [
  | inl out ↦ absurd (cc (rw out at h))
  | inr inside ↦ sym (cc (rw inside at h))
]

-- What the loop of `add_file` writes in round `i`.
piece :
    (i : ℕ) (xs : Bytes) {s : Bytes}
    → slice (i * chunk_plaintext_len) (min ((i + 1) * chunk_plaintext_len) (length xs)) xs ≡ ok s
    → s ≡ take chunk_plaintext_len (drop (i * chunk_plaintext_len) xs)
piece i xs h =
    slice-eq-ok (i * chunk_plaintext_len) (min ((i + 1) * chunk_plaintext_len) (length xs)) xs h
    ∙ take-short _ chunk_plaintext_len (drop (i * chunk_plaintext_len) xs)
        (omega (arith, length-drop (i * chunk_plaintext_len) xs))

module _ {ℓ κ} {A : Type ℓ} {B : Type κ} where
  continue-ok :
      (r : Result A) (f : A → M B) (v : Vault) {a : A} → r ≡ ok a → (continue r f v).0 ≡ (f a v).0
  continue-ok r f v h = ap (λ t. (continue t f v).0) h

  pub continue-pure :
      (r : Result A) (g : A → B) (v : Vault) {a : A}
      → r ≡ ok a
      → (continue r (λ x. pure (g x)) v).0 ≡ ok (g a)
  continue-pure r g v h = ap (λ t. (continue t (λ x. pure (g x)) v).0) h

module _ (w : World) (master : Bytes) where
  -- The chunks hold the pieces of a byte string, in order.
  abbrev pub Holds : (ChunkIndex → Bytes) → Bytes → List ChunkIndex → Type 0
  Holds file xs [] = Unit
  Holds file xs (c ∷ cs) =
      (decrypt_chunk w (derive_chunk_key w master c) c (file c) ≡ ok (take chunk_plaintext_len xs))
      × Holds file (drop chunk_plaintext_len xs) cs

  pub Holds-same :
      (f g : ChunkIndex → Bytes) (xs : Bytes) (cs : List ChunkIndex)
      → All (λ c. g c ≡ f c) cs
      → Holds f xs cs
      → Holds g xs cs
  Holds-same f g xs [] same h = tt
  Holds-same f g xs (c ∷ cs) (here, there) (first, rest) = (
    ap (decrypt_chunk w (derive_chunk_key w master c) c) here ∙ first,
    Holds-same f g (drop chunk_plaintext_len xs) cs there rest,
  )

  read_one :
      (c : ChunkIndex) (v : Vault)
      → ((t : ℕ) → w.read_exact t ≡ true)
      → c < v.total_chunks
      → read_chunk_raw w c v ≡ (ok (v.file c), record v { clock = v.clock + 1 })
  unfolding read_chunk_raw tick
  read_one c v readable here =
      let inside : leb v.total_chunks c ≡ false = ground arith in rw (inside, readable v.clock)

  -- Reading what the chunks hold, where no read of the file fails.
  pub read_chunks-Holds :
      (cs : List ChunkIndex) (xs : Bytes) (v : Vault)
      → ((t : ℕ) → w.read_exact t ≡ true)
      → All (λ c. c < v.total_chunks) cs
      → Holds v.file xs cs
      → (read_chunks w master cs v).0 ≡ ok (joined (length cs) xs)
  unfolding read_chunks
  read_chunks-Holds [] xs v readable inside h = refl
  read_chunks-Holds (c ∷ cs) xs v readable (here, there) (first, rest) =
      let next : Vault = record v { clock = v.clock + 1 } in
      let ih = read_chunks-Holds cs (drop chunk_plaintext_len xs) next readable there rest in
      let stored : read_chunk_raw w c v ≡ (ok (v.file c), next) = read_one c v readable here in
      ap (λ p. p.0) (bind-ok (read_chunk_raw w c) _ v stored)
      ∙ continue-ok (decrypt_chunk w (derive_chunk_key w master c) c (v.file c)) _ next first
      ∙ continue-pure (read_chunks w master cs next).0 _ (read_chunks w master cs next).1 ih

module _ (w : World) (lawful : IsLawful w) (master plaintext : Bytes) where
  -- What the loop of `add_file` leaves.
  pub record IsWritten (i : ℕ) (cs : List ChunkIndex) (v v' : Vault) : Type 0 where
    pub same_total : v'.total_chunks ≡ v.total_chunks
    pub same_mounted : v'.mounted ≡ v.mounted
    pub others : (x : ChunkIndex) → (contains cs x ≡ true) ⊎ (v'.file x ≡ v.file x)
    pub holds : Holds w master v'.file (drop (i * chunk_plaintext_len) plaintext) cs

  IsWritten-cons :
      (i : ℕ) (c : ChunkIndex) (cs : List ChunkIndex) (v v' : Vault) (s stored : Bytes)
      → contains cs c ≡ false
      → s ≡ take chunk_plaintext_len (drop (i * chunk_plaintext_len) plaintext)
      → Chunk.encrypt_chunk w (w.fill v.clock nonce_len) (derive_chunk_key w master c) c s
        ≡ ok stored
      → IsWritten (i + 1) cs (written (record v { clock = v.clock + 1 }) c stored) v'
      → IsWritten i (c ∷ cs) v v'
  unfolding contains
  IsWritten-cons i c cs v v' s stored fresh whole enc ih =
      let key = derive_chunk_key w master c in
      let put : v'.file c ≡ stored = elim (ih.others c) [
        | inl again ↦ absurd (cc)
        | inr same ↦ ground (arith, same)
      ] in
      let left : drop ((i + 1) * chunk_plaintext_len) plaintext
          ≡ drop chunk_plaintext_len (drop (i * chunk_plaintext_len) plaintext) =
        ap (λ (n : ℕ). drop n plaintext) (omega arith)
        ∙ drop-drop (i * chunk_plaintext_len) chunk_plaintext_len plaintext in
      record {
        same_total = ih.same_total;
        same_mounted = ih.same_mounted;
        others = λ x. elim (ih.others x) [
          | inl later ↦ inl (ground arith)
          | inr same ↦ elim (Bool-cases (x == c)) [
            | inl first ↦ inl (ground arith)
            | inr other ↦ inr (ground (arith, same))
          ]
        ];
        holds = (
          ap (decrypt_chunk w key c) put
              ∙ decrypt_chunk-encrypt_chunk w lawful v.clock key c s stored enc
              ∙ ap ok whole,
          subst (λ t. Holds w master v'.file t cs) left ih.holds,
        );
      }

  pub write_plaintext-IsWritten :
      (i : ℕ) (cs : List ChunkIndex) (v v' : Vault)
      → IsDistinct cs
      → write_plaintext w master plaintext i cs v ≡ (ok tt, v')
      → IsWritten i cs v v'
  unfolding write_plaintext contains
  write_plaintext-IsWritten i [] v v' distinct h =
      let same : v ≡ v' = ap (λ p. p.1) h in
      subst (IsWritten i [] v) same
        (record { same_total = refl; same_mounted = refl; others = λ x. inr refl; holds = tt })
  write_plaintext-IsWritten i (c ∷ cs) v v' (fresh, distinct) h =
      let key = derive_chunk_key w master c in
      let (s, cut, h1) =
        continue-eq-ok
          (slice (i * chunk_plaintext_len) (min ((i + 1) * chunk_plaintext_len) (length plaintext))
            plaintext)
          _ v h in
      let (stored, v1, sealed, h2) = bind-eq-ok (encrypt_chunk w key c s) _ v h1 in
      let (u, v2, put, h3) = bind-eq-ok (write_chunk_raw w c stored) _ v1 h2 in
      let (enc, moved) = encrypt_chunk-eq-ok w key c s v sealed in
      let (inside, now) = write_chunk_raw-eq-ok w c stored v1 v2 put in
      let next : Vault = written (record v { clock = v.clock + 1 }) c stored in
      let there : v2 ≡ next = now ∙ ap (λ t. written t c stored) moved in
      let ih =
        write_plaintext-IsWritten (i + 1) cs next v' distinct
          (subst (λ t. write_plaintext w master plaintext (i + 1) cs t ≡ (ok tt, v')) there h3) in
      IsWritten-cons i c cs v v' s stored fresh (piece i plaintext cut) enc ih
