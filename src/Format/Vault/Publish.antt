-- ===== src/Format/Vault/Publish.antt =====
-- What a destructive phase that succeeds has done to the tree and to the disk.
use farewell.Prelude.{
  ℕ, ◌+◌, ◌≤◌, ◌≡◌, ◌≢◌, refl, sym, ap, ◌∙◌, inl, inr, Bool, true, false, some, List, [], ◌∷◌,
  Bytes, arith, contains, leb, ◌==◌, if◌then◌else◌, Bool-cases, Option-cases, ◌<◌,
}
use mathlib.Core.Path.{subst}
use farewell.Format.Error.{Result, ok, err, panic}
use farewell.Format.Manifest.{Manifest, ChunkIndex}
use farewell.Format.Manifest.Codec.{serialize}
use farewell.Format.World.{World, IsLawful, nonce_len}
use farewell.Format.Chunk
use farewell.Format.Chunk.{derive_chunk_key, decrypt_chunk, chunk_stored_len, crypto_result}
use farewell.Format.Chunk.RoundTrip.{decrypt_chunk-encrypt_chunk, crypto_result-eq-ok}
use farewell.Format.Vault.State.{Vault, MountedLevel, M, continue, ◌>>=◌, ◌>>◌}
use farewell.Format.Vault.Raw.{
  mounted_level, master_key_view, destructive_phase, poison, tick, put_block, install_manifest,
  encrypt_chunk, random_chunk, write_chunk_raw, sync, write_manifest_chunk, publish_manifest, shred,
}

pub continue-eq-ok {ℓ κ} :
    {A : Type ℓ} {B : Type κ} (r : Result A) (f : A → M B) (v : Vault) {b : B} {v2 : Vault}
    → continue r f v ≡ (ok b, v2)
    → (a : A) × (r ≡ ok a) × (f a v ≡ (ok b, v2))
continue-eq-ok (ok a) f v h = (a, refl, h)
continue-eq-ok (err e) f v h = absurd (cc (ap (λ p. p.0) h))
continue-eq-ok panic f v h = absurd (cc (ap (λ p. p.0) h))

-- A sequence that succeeds, taken apart.
pub bind-eq-ok {ℓ κ} :
    {A : Type ℓ} {B : Type κ} (m : M A) (f : A → M B) (v : Vault) {b : B} {v2 : Vault}
    → (m >>= f) v ≡ (ok b, v2)
    → (a : A) × (v' : Vault) × (m v ≡ (ok a, v')) × (f a v' ≡ (ok b, v2))
bind-eq-ok m f v h =
    let (a, e, h') = continue-eq-ok (m v).0 f (m v).1 h in (a, (m v).1, λ i. (e i, (m v).1), h')

poison-eq-ok {ℓ} :
    {A : Type ℓ} (p : Result A × Vault) {a : A} {v' : Vault}
    → poison p ≡ (ok a, v')
    → p ≡ (ok a, v')
poison-eq-ok (ok a, v) h = h
poison-eq-ok (err e, v) h = absurd (cc (ap (λ p. p.0) h))
poison-eq-ok (panic, v) h = absurd (cc (ap (λ p. p.0) h))

pub destructive_phase-eq-ok {ℓ} :
    {A : Type ℓ} (f : M A) (v : Vault) {a : A} {v' : Vault}
    → destructive_phase f v ≡ (ok a, v')
    → f v ≡ (ok a, v')
unfolding destructive_phase
destructive_phase-eq-ok f v h = poison-eq-ok (f v) h

-- The vault behind a write that succeeded.
abbrev pub written : Vault → ChunkIndex → Bytes → Vault
written v idx block = record v {
  file = λ i. if i == idx then block else v.file i;
  clock = v.clock + 1;
}

module _ (w : World) where
  -- A block that was written stands at its index, and every other block stands as before.
  pub write_chunk_raw-eq-ok :
      (idx : ChunkIndex) (block : Bytes) (v v' : Vault)
      → write_chunk_raw w idx block v ≡ (ok tt, v')
      → (idx < v.total_chunks) × (v' ≡ written v idx block)
  unfolding write_chunk_raw tick put_block
  write_chunk_raw-eq-ok idx block v v' h = elim (Bool-cases (leb v.total_chunks idx)) [
    | inl out ↦ absurd (cc (ap (λ p. p.0) (rw out at h)))
    | inr inside ↦ elim (Option-cases (w.write_all v.clock)) [
      | inl done ↦ (ground arith, sym (ap (λ p. p.1) (rw (inside, done) at h)))
      | inr (torn, fault) ↦ absurd (cc (ap (λ p. p.0) (rw (inside, fault) at h)))
    ]
  ]

  pub encrypt_chunk-eq-ok :
      (key : Bytes) (index : ChunkIndex) (pt : Bytes) (v : Vault) {stored : Bytes} {v' : Vault}
      → encrypt_chunk w key index pt v ≡ (ok stored, v')
      → (Chunk.encrypt_chunk w (w.fill v.clock nonce_len) key index pt ≡ ok stored)
        × (v' ≡ record v { clock = v.clock + 1 })
  unfolding encrypt_chunk tick
  encrypt_chunk-eq-ok key index pt v h = (ap (λ p. p.0) h, sym (ap (λ p. p.1) h))

  random_chunk-eq-ok :
      (v : Vault) {block : Bytes} {v' : Vault}
      → random_chunk w v ≡ (ok block, v')
      → (w.fill v.clock chunk_stored_len ≡ some block) × (v' ≡ record v { clock = v.clock + 1 })
  unfolding random_chunk tick
  random_chunk-eq-ok v h = (crypto_result-eq-ok _ (ap (λ p. p.0) h), sym (ap (λ p. p.1) h))

  -- A block is what the random source gave at a time between the two states.
  pub record IsDrawn (v v' : Vault) (time : ℕ) (i : ChunkIndex) : Type 0 where
    pub since : v.clock ≤ time
    pub before : time < v'.clock
    pub fill : w.fill time chunk_stored_len ≡ some (v'.file i)

  -- Every listed chunk holds random bytes, drawn at a time since then that is its own; every other
  -- block stands as before.
  pub record IsShredded (cs : List ChunkIndex) (v v' : Vault) : Type 0 where
    pub same_total : v'.total_chunks ≡ v.total_chunks
    pub same_mounted : v'.mounted ≡ v.mounted
    pub same_poisoned : v'.poisoned ≡ v.poisoned
    pub others : (i : ChunkIndex) → contains cs i ≡ false → v'.file i ≡ v.file i
    pub later : v.clock ≤ v'.clock
    pub drawn : ChunkIndex → ℕ
    pub random : (i : ChunkIndex) → contains cs i ≡ true → IsDrawn v v' (drawn i) i
    pub apart :
        (i j : ChunkIndex) → contains cs i ≡ true → contains cs j ≡ true → i ≢ j → drawn i ≢ drawn j

  shred_step :
      (old : ChunkIndex) (rest : List ChunkIndex) (v : Vault) {v' : Vault}
      → shred w (old ∷ rest) v ≡ (ok tt, v')
      → (block : Bytes) × (w.fill v.clock chunk_stored_len ≡ some block)
        × (shred w rest (written (record v { clock = v.clock + 1 }) old block) ≡ (ok tt, v'))
  unfolding shred
  shred_step old rest v {v'} h =
      let (block, v1, drawn, h1) = bind-eq-ok (random_chunk w) _ v h in
      let (u, v2, wrote, h2) = bind-eq-ok (write_chunk_raw w old block) _ v1 h1 in
      let (fill, moved) = random_chunk-eq-ok v drawn in
      let (inside, e) = write_chunk_raw-eq-ok old block v1 v2 wrote in
      let now : v2 ≡ written (record v { clock = v.clock + 1 }) old block =
        e ∙ ap (λ u. written u old block) moved in
      (block, fill, subst (λ u. shred w rest u ≡ (ok tt, v')) now h2)

  pub shred-IsShredded :
      (cs : List ChunkIndex) (v v' : Vault) → shred w cs v ≡ (ok tt, v') → IsShredded cs v v'
  unfolding shred contains
  shred-IsShredded [] v v' h =
      subst (λ t. IsShredded [] v t) (ap (λ p. p.1) h)
        (record {
          same_total = refl;
          same_mounted = refl;
          same_poisoned = refl;
          others = λ i n. refl;
          later = omega arith;
          drawn = λ i. 0;
          random = λ i n. absurd (cc n);
          apart = λ i j n n' ne. absurd (cc n);
        })
  shred-IsShredded (old ∷ rest) v v' h =
      let (block, drawn, h') = shred_step old rest v h in
      let ih = shred-IsShredded rest (written (record v { clock = v.clock + 1 }) old block) v' h' in
      record {
        same_total = ih.same_total;
        same_mounted = ih.same_mounted;
        same_poisoned = ih.same_poisoned;
        others = λ i n. ground (arith, ih.others i);
        later = omega (arith, ih.later);
        drawn = λ i. if contains rest i then ih.drawn i else v.clock;
        random = λ i n. elim (Bool-cases (contains rest i)) [
          | inl again ↦
              let d = ih.random i again in
              record {
                since = ground (arith, again, d.since);
                before = ground (arith, again, d.before);
                fill =
                    ap (λ b. w.fill (if b then ih.drawn i else v.clock) chunk_stored_len) again
                    ∙ d.fill;
              }
          | inr last ↦ record {
            since = ground (arith, last);
            before = ground (arith, last, ih.later);
            fill =
                ap (λ b. w.fill (if b then ih.drawn i else v.clock) chunk_stored_len) last
                ∙ drawn
                ∙ ap some (ground (arith, ih.others i));
          }
        ];
        apart = λ i j n n' ne same. elim (Bool-cases (contains rest i)) [
          | inl a ↦ elim (Bool-cases (contains rest j)) [
            | inl b ↦ ih.apart i j a b ne (rw (a, b) at same)
            | inr b ↦ omega (arith, (ih.random i a).since, rw (a, b) at same)
          ]
          | inr a ↦ elim (Bool-cases (contains rest j)) [
            | inl b ↦ omega (arith, (ih.random j b).since, rw (a, b) at same)
            | inr b ↦ ne (ground (arith, n, n', a, b))
          ]
        ];
      }

  sync-eq-ok :
      (durable : Bool) (v : Vault) {v' : Vault}
      → sync w durable v ≡ (ok tt, v')
      → v' ≡ record v { clock = v.clock + 1 }
  unfolding sync tick
  sync-eq-ok durable v h = elim (Bool-cases (w.sync_all v.clock)) [
    | inl done ↦ sym (ap (λ p. p.1) (rw done at h))
    | inr fault ↦ absurd (cc (ap (λ p. p.0) (rw fault at h)))
  ]

  -- The vault behind a publication, its manifest chunk holding `stored`.
  abbrev published : MountedLevel → Manifest → Vault → Bytes → Vault
  published m candidate v stored =
      record (written (record v { clock = v.clock + 1 }) m.manifest_chunk stored) {
        clock = v.clock + 1 + 1 + 1;
        mounted = some (record m { manifest = candidate });
      }

  publish_steps :
      (m : MountedLevel) (candidate : Manifest) (bytes : Bytes) (durable : Bool) (v v' : Vault)
      → publish_manifest w candidate bytes durable (record v { mounted = some m }) ≡ (ok tt, v')
      → (stored : Bytes) × (Chunk.encrypt_chunk w
            (w.fill v.clock nonce_len)
            (derive_chunk_key w m.master m.manifest_chunk)
            m.manifest_chunk
            bytes
          ≡ ok stored)
        × (v' ≡ published m candidate v stored)
  unfolding publish_manifest write_manifest_chunk master_key_view mounted_level install_manifest
  publish_steps m candidate bytes durable v v' h =
      let here : Vault = record v { mounted = some m } in
      let key : Bytes = derive_chunk_key w m.master m.manifest_chunk in
      let (u, v1, wrote, h1) = bind-eq-ok (write_manifest_chunk w bytes) _ here h in
      let (stored, v2, encrypted, put) =
        bind-eq-ok (encrypt_chunk w key m.manifest_chunk bytes) _ here wrote in
      let (same, moved) = encrypt_chunk-eq-ok key m.manifest_chunk bytes here encrypted in
      let (inside, e) = write_chunk_raw-eq-ok m.manifest_chunk stored v2 v1 put in
      let now : v1 ≡ written (record here { clock = v.clock + 1 }) m.manifest_chunk stored =
        e ∙ ap (λ t. written t m.manifest_chunk stored) moved in
      let h2 = subst (λ t. (install_manifest candidate >> sync w durable) t ≡ (ok tt, v')) now h1 in
      (stored, same, sync-eq-ok durable _ h2)

-- What has become of a block: it is the manifest's, or its chunk was freed and it was drawn at
-- random since then, or it is as before.
pub data Fate (w : World) (m : MountedLevel) (freed : List ChunkIndex) (drawn : ChunkIndex → ℕ)
    (v v' : Vault) (i : ChunkIndex) : Type 0 where
  manifest : i ≡ m.manifest_chunk → Fate w m freed drawn v v' i
  shredded : contains freed i ≡ true → IsDrawn w v v' (drawn i) i → Fate w m freed drawn v v' i
  kept : contains freed i ≡ false → v'.file i ≡ v.file i → Fate w m freed drawn v v' i

-- What a mutation that succeeds leaves: the candidate in memory, and encrypted in the manifest
-- chunk; the freed chunks random, each drawn at a time of its own since then; all else as before.
pub record IsCommitted (w : World) (m : MountedLevel) (candidate : Manifest)
    (freed : List ChunkIndex) (v v' : Vault) : Type 0 where
  pub same_total : v'.total_chunks ≡ v.total_chunks
  pub same_poisoned : v'.poisoned ≡ v.poisoned
  pub installed : v'.mounted ≡ some (record m { manifest = candidate })
  pub bytes : Bytes
  pub serialized : serialize candidate ≡ ok bytes
  pub on_disk :
      decrypt_chunk w
        (derive_chunk_key w m.master m.manifest_chunk)
        m.manifest_chunk
        (v'.file m.manifest_chunk)
      ≡ ok bytes
  pub later : v.clock ≤ v'.clock
  pub drawn : ChunkIndex → ℕ
  pub apart :
      (i j : ChunkIndex)
      → contains freed i ≡ true
      → contains freed j ≡ true
      → i ≢ j
      → drawn i ≢ drawn j
  pub blocks : (i : ChunkIndex) → Fate w m freed drawn v v' i

module _ (w : World) (lawful : IsLawful w) where
  pub publish-IsCommitted :
      (m : MountedLevel) (candidate : Manifest) (bytes : Bytes) (durable : Bool) (v v' : Vault)
      → v.mounted ≡ some m
      → serialize candidate ≡ ok bytes
      → publish_manifest w candidate bytes durable v ≡ (ok tt, v')
      → IsCommitted w m candidate [] v v'
  unfolding contains
  publish-IsCommitted m candidate bytes durable v v' e ser h =
      let here : v ≡ record v { mounted = some m } = λ i. record v { mounted = e i } in
      let (stored, enc, now) =
        publish_steps w m candidate bytes durable v v'
          (subst (λ t. publish_manifest w candidate bytes durable t ≡ (ok tt, v')) here h) in
      let key : Bytes = derive_chunk_key w m.master m.manifest_chunk in
      let put : (published w m candidate v stored).file m.manifest_chunk ≡ stored = ground arith in
      subst (λ t. IsCommitted w m candidate [] v t) (sym now)
        (record {
          same_total = refl;
          same_poisoned = refl;
          installed = refl;
          bytes = bytes;
          serialized = ser;
          on_disk =
              ap (decrypt_chunk w key m.manifest_chunk) put
              ∙ decrypt_chunk-encrypt_chunk w lawful v.clock key m.manifest_chunk bytes stored enc;
          later = omega arith;
          drawn = λ i. 0;
          apart = λ i j n n' ne. absurd (cc n);
          blocks = λ i. elim (Bool-cases (i == m.manifest_chunk)) [
            | inl same' ↦ Fate.manifest (ground arith)
            | inr other ↦ Fate.kept refl (ground (arith, other))
          ];
        })

  pub shred_publish-IsCommitted :
      (m : MountedLevel) (candidate : Manifest) (freed : List ChunkIndex) (bytes : Bytes)
      (durable : Bool) (v v' : Vault)
      → v.mounted ≡ some m
      → serialize candidate ≡ ok bytes
      → (shred w freed >> publish_manifest w candidate bytes durable) v ≡ (ok tt, v')
      → IsCommitted w m candidate freed v v'
  unfolding contains
  shred_publish-IsCommitted m candidate freed bytes durable v v' e ser h =
      let (u, v1, shr, pub') = bind-eq-ok (shred w freed) _ v h in
      let s = shred-IsShredded w freed v v1 shr in
      let p = publish-IsCommitted m candidate bytes durable v1 v' (s.same_mounted ∙ e) ser pub' in
      record {
        same_total = p.same_total ∙ s.same_total;
        same_poisoned = p.same_poisoned ∙ s.same_poisoned;
        installed = p.installed;
        bytes = p.bytes;
        serialized = p.serialized;
        on_disk = p.on_disk;
        later = omega (arith, s.later, p.later);
        drawn = s.drawn;
        apart = s.apart;
        blocks = λ i. elim (p.blocks i) [
          | Fate.manifest e' ↦ Fate.manifest e'
          | Fate.shredded n r ↦ absurd cc
          | Fate.kept n same ↦ elim (Bool-cases (contains freed i)) [
            | inl yes' ↦
                let d = s.random i yes' in
                Fate.shredded yes' (record {
                  since = d.since;
                  before = omega (arith, d.before, p.later);
                  fill = d.fill ∙ ap some (sym same);
                })
            | inr no' ↦ Fate.kept no' (same ∙ s.others i no')
          ]
        ];
      }
