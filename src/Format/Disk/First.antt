-- ===== src/Format/Disk/First.antt =====
-- The header, the chunks and the first manifest of a vault that is built, as they are written
-- (vault.rs).
use farewell.Prelude.{
  ℕ, zero, suc, ◌+◌, ◌<◌, ◌≡◌, sym, ap, ◌∙◌, true, false, Option, none, some, [], Bytes, arith,
  append-nil,
}
use mathlib.Core.Path.{subst}
use farewell.Bytes.Utf8.{is_utf8}
use farewell.Format.Error.{ok}
use farewell.Format.Manifest.{ChunkIndex, empty}
use farewell.Format.Manifest.Codec.{serialize, parse, owner_bytes}
use farewell.Format.Manifest.Codec.RoundTrip.{stored, stored_owner, parse-serialize}
use farewell.Format.World.{World, IsLawful}
use farewell.Format.Chunk.{chunk_stored_len, derive_chunk_key, decrypt_chunk}
use farewell.Format.Chunk.RoundTrip.{decrypt_chunk-encrypt_chunk}
use farewell.Format.Draws.{fill}
use farewell.Format.Vault.State
use farewell.Format.Vault.State.{Vault}
use farewell.Format.Vault.Raw.{encrypt_chunk}
use farewell.Format.Vault.Publish
use farewell.Format.Vault.Publish.{written, write_chunk_raw-eq-ok, encrypt_chunk-eq-ok}
use farewell.Format.Vault.Commits.Reopen.{read_manifest}
use farewell.Format.Disk.{
  Disk, draw, write_region, put_salt, put_slot, put_metadata, manifest_chunk_of,
}
use farewell.Format.Disk.Open.{level_of}
use farewell.Format.Disk.Build.{
  fill_chunks, first_manifest, write_empty_manifest_for, write_first_manifest,
}
use farewell.Format.Disk.Laws.{bind-eq-ok, draw-eq-ok, write_region-eq-ok, IsSame}

-- An owner that the builder keeps: text that is not empty, or none.
pub record IsOwner (owner : Option Bytes) : Type 0 where
  pub text : is_utf8 (owner_bytes owner) ≡ true
  pub filled : stored_owner owner ≡ owner

-- What stands in front of the chunks.
pub record HasHeader (salt slot blob : Bytes) (d : Disk) : Type 0 where
  pub has_salt : d.salt ≡ salt
  pub has_slot : d.slot ≡ slot
  pub has_blob : d.metadata_blob ≡ blob

pub HasHeader-IsSame :
    (salt slot blob : Bytes) (d d' : Disk)
    → IsSame d d'
    → HasHeader salt slot blob d
    → HasHeader salt slot blob d'
HasHeader-IsSame salt slot blob d d' s h = record {
  has_salt = s.salt ∙ h.has_salt;
  has_slot = s.slot ∙ h.has_slot;
  has_blob = s.metadata_blob ∙ h.has_blob;
}

module _ (w : World) where
  -- The header, written to the new file.
  pub header_written :
      (salt slot blob : Bytes) (d0 d1 d2 d3 : Disk) {u1 u2 u3 : Unit {0}}
      → write_region w put_salt salt d0 ≡ (ok u1, d1)
      → write_region w put_slot slot d1 ≡ (ok u2, d2)
      → write_region w put_metadata blob d2 ≡ (ok u3, d3)
      → HasHeader salt slot blob d3
  header_written salt slot blob d0 d1 d2 d3 h1 h2 h3 =
      let e1 = ap (λ p. p.1) (write_region-eq-ok w put_salt salt d0 h1) in
      let e2 = ap (λ p. p.1) (write_region-eq-ok w put_slot slot d1 h2) in
      let e3 = ap (λ p. p.1) (write_region-eq-ok w put_metadata blob d2 h3) in
      record {
        has_salt =
            ap (λ x. x.salt) (sym e3) ∙ ap (λ x. x.salt) (sym e2) ∙ ap (λ x. x.salt) (sym e1);
        has_slot = ap (λ x. x.slot) (sym e3) ∙ ap (λ x. x.slot) (sym e2);
        has_blob = ap (λ x. x.metadata_blob) (sym e3);
      }

  -- Filling the chunks leaves the header.
  pub fill_chunks-HasHeader :
      (salt slot blob : Bytes) (rest : ℕ) (i : ChunkIndex) (d d' : Disk) {u : Unit {0}}
      → HasHeader salt slot blob d
      → fill_chunks w rest i d ≡ (ok u, d')
      → HasHeader salt slot blob d'
  unfolding fill_chunks
  fill_chunks-HasHeader salt slot blob zero i d d' here h =
      subst (HasHeader salt slot blob) (ap (λ p. p.1) h) here
  fill_chunks-HasHeader salt slot blob (suc rest) i d d' here h =
      let (block, d1, drawn, h1) = bind-eq-ok (draw (fill w chunk_stored_len)) _ d h in
      let same = (draw-eq-ok (fill w chunk_stored_len) d drawn).1 in
      let (u, d2, put, h2) = bind-eq-ok (write_region w _ block) _ d1 h1 in
      let now = ap (λ p. p.1) (write_region-eq-ok w _ block d1 put) in
      let here1 = HasHeader-IsSame salt slot blob d d1 same here in
      let here2 : HasHeader salt slot blob d2 = record {
        has_salt = ap (λ x. x.salt) (sym now) ∙ here1.has_salt;
        has_slot = ap (λ x. x.slot) (sym now) ∙ here1.has_slot;
        has_blob = ap (λ x. x.metadata_blob) (sym now) ∙ here1.has_blob;
      } in
      fill_chunks-HasHeader salt slot blob rest (i + 1) d2 d' here2 h2

module _ (w : World) (lawful : IsLawful w) where
  -- The first manifest, read from the chunk that it was written to.
  first_manifest-reads :
      (master : Bytes) (owner : Option Bytes) (v v' : Vault)
      → IsOwner owner
      → write_empty_manifest_for w 0 master owner v.total_chunks v ≡ (ok tt, v')
      → (manifest_chunk_of w master 0 v.total_chunks < v.total_chunks)
        × (read_manifest w
              (level_of w master 0 v.total_chunks empty)
              (v'.file (manifest_chunk_of w master 0 v.total_chunks))
            ≡ ok (first_manifest owner))
  unfolding write_empty_manifest_for read_manifest
  first_manifest-reads master owner v v' typed h =
      let mc = manifest_chunk_of w master 0 v.total_chunks in
      let key = derive_chunk_key w master mc in
      let (bytes, v0, ser, h0) =
        Publish.bind-eq-ok (State.lift (serialize (first_manifest owner))) _ v h in
      let same0 = ap (λ p. p.1) ser in
      let (block, v1, enc, put) = Publish.bind-eq-ok (encrypt_chunk w key mc bytes) _ v0 h0 in
      let (sealed, same1) = encrypt_chunk-eq-ok w key mc bytes v0 enc in
      let (inside, same2) = write_chunk_raw-eq-ok w mc block v1 v' put in
      let total : v1.total_chunks ≡ v.total_chunks =
        ap (λ x. x.total_chunks) same1 ∙ ap (λ x. x.total_chunks) (sym same0) in
      let here : (written v1 mc block).file mc ≡ block = ground arith in
      let found : v'.file mc ≡ block = ap (λ x. x.file mc) same2 ∙ here in
      let opens : decrypt_chunk w key mc (v'.file mc) ≡ ok bytes =
        ap (decrypt_chunk w key mc) found
        ∙ decrypt_chunk-encrypt_chunk w lawful v0.clock key mc bytes block sealed in
      let parses : parse bytes ≡ ok (stored (first_manifest owner)) =
        ap parse (sym (append-nil bytes))
        ∙ parse-serialize (first_manifest owner) bytes []
            (record {
              counter_u64 = omega arith;
              entries_typed = tt;
              child_slots_u8 = tt;
              folders_utf8 = tt;
              owner_utf8 = typed.text;
            })
            (omega arith) (ap (λ p. p.0) ser) in
      (
        subst (λ n. mc < n) total inside,
        rw opens (parses ∙ ap (λ o. ok (first_manifest o)) typed.filled),
      )

  -- The write of the first manifest: it reads back, and the header stands as before.
  pub manifest_written :
      (master : Bytes) (owner : Option Bytes) (total : ℕ) (d d' : Disk) {u : Unit {0}}
      → IsOwner owner
      → write_first_manifest w (some master) owner total d ≡ (ok u, d')
      → (manifest_chunk_of w master 0 total < total)
        × (read_manifest w
              (level_of w master 0 total empty)
              (d'.chunks (manifest_chunk_of w master 0 total))
            ≡ ok (first_manifest owner))
        × HasHeader d.salt d.slot d.metadata_blob d'
  manifest_written master owner total d d' typed h =
      let v : Vault = record {
        file = d.chunks;
        clock = d.clock;
        total_chunks = total;
        mounted = none;
        poisoned = false;
      } in
      let m = write_empty_manifest_for w 0 master owner total in
      let now = ap (λ p. p.1) h in
      let (inside, reads) =
        first_manifest-reads master owner v (m v).1 typed (λ i. (ap (λ p. p.0) h i, (m v).1)) in
      (
        inside,
        ap
              (λ x.
                read_manifest w (level_of w master 0 total empty)
                  (x.chunks (manifest_chunk_of w master 0 total)))
              (sym now)
            ∙ reads,
        record {
          has_salt = ap (λ x. x.salt) (sym now);
          has_slot = ap (λ x. x.slot) (sym now);
          has_blob = ap (λ x. x.metadata_blob) (sym now);
        },
      )
