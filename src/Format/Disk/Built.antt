-- ===== src/Format/Disk/Built.antt =====
-- What building a vault leaves on the disk (vault.rs).
use farewell.Prelude.{ℕ, ◌≡◌, refl, sym, ap, ◌∙◌, Option, none, some, [], ◌∷◌, Bytes}
use mathlib.Core.Path.{subst}
use farewell.Format.Error.{Result, ok}
use farewell.Format.World.{World, IsLawful}
use farewell.Format.Metadata.{Metadata}
use farewell.Format.Slot.Contents.{IsSlot}
use farewell.Format.Disk.{
  Disk, Session, derive, lift, write_region, sync_disk, put_salt, put_slot, put_metadata,
}
use farewell.Format.Disk.Open.{level_of}
use farewell.Format.Disk.Build.{
  LevelSpec, Builder, build_kdf_params, choose_salt, fill_chunks, first_manifest,
  write_first_manifest, session_of, prepare, build,
}
use farewell.Format.Disk.Whole.{IsVault}
use farewell.Format.Disk.Prepared.{built_contents, IsBuilder, IsPrepared, prepare-IsPrepared}
use farewell.Format.Disk.Laws.{bind-eq-ok, sync_disk-eq-ok, IsSame}
use farewell.Format.Disk.First.{
  IsOwner, HasHeader, HasHeader-IsSame, header_written, fill_chunks-HasHeader, manifest_written,
}

-- What a vault that was built is: the disk holds it, with an empty tree and its owner, under the key
-- of its profile, its salt is the given one or was drawn, and the session has the level mounted.
pub record IsBuilt (w : World) (b : Builder) (spec : LevelSpec) (s : Session) (d : Disk)
    : Type 0 where
  pub key : Bytes
  pub kwk : Bytes
  pub master_key : Bytes
  pub metadata_key : Bytes
  pub chosen : (t : ℕ) × ((choose_salt w b.explicit_salt t).0 ≡ ok d.salt)
  pub derived : derive w spec.passphrase d.salt (build_kdf_params (spec ∷ [])) ≡ ok key
  pub is_vault :
      IsVault w key
        (built_contents spec.enrollment kwk master_key metadata_key)
        s.metadata
        (first_manifest b.creator)
        d
  pub capacity : s.metadata.total_chunks ≡ b.capacity
  pub mounted :
      s.vault.mounted
      ≡ some (level_of w master_key 0 s.metadata.total_chunks (first_manifest b.creator))
  pub same_chunks : s.vault.file ≡ d.chunks

module _ (w : World) (lawful : IsLawful w) where
  put_together :
      (b : Builder) (spec : LevelSpec) (salt slot blob : Bytes) (master : Option Bytes)
      (m : Metadata) (d d1 d2 : Disk) {u : Unit {0}}
      → IsOwner b.creator
      → IsPrepared w b spec salt slot blob master m
      → HasHeader salt slot blob d
      → write_first_manifest w master b.creator m.total_chunks d ≡ (ok u, d1)
      → IsSame d1 d2
      → IsBuilt w b spec (session_of w m master b.creator d2) d2
  put_together b spec salt slot blob master m d d1 d2 {u} typed p header h after =
      let h' =
        subst (λ x. write_first_manifest w x b.creator m.total_chunks d ≡ (ok u, d1)) p.mounted h in
      let (inside, reads, kept) =
        manifest_written w lawful p.master_key b.creator m.total_chunks d d1 typed h' in
      let now_salt : salt ≡ d2.salt = sym header.has_salt ∙ sym kept.has_salt ∙ sym after.salt in
      let now_slot : slot ≡ d2.slot = sym header.has_slot ∙ sym kept.has_slot ∙ sym after.slot in
      let now_blob : blob ≡ d2.metadata_blob =
        sym header.has_blob ∙ sym kept.has_blob ∙ sym after.metadata_blob in
      let contents = built_contents spec.enrollment p.kwk p.master_key p.metadata_key in
      record {
        key = p.key;
        kwk = p.kwk;
        master_key = p.master_key;
        metadata_key = p.metadata_key;
        chosen =
            subst (λ x. (t : ℕ) × ((choose_salt w b.explicit_salt t).0 ≡ ok x)) now_salt p.chosen;
        derived =
            subst (λ x. derive w spec.passphrase x (build_kdf_params (spec ∷ [])) ≡ ok p.key)
              now_salt p.derived;
        is_vault = record {
          slot = subst (IsSlot w p.key contents) now_slot p.is_slot;
          attested = rw (sym now_blob, sym now_salt) p.opens;
          inside = inside;
          readable = rw after.chunks reads;
        };
        capacity = p.capacity;
        mounted =
            ap
              (λ x. elim x [
                | none ↦ none
                | some k ↦ some (level_of w k 0 m.total_chunks (first_manifest b.creator))
              ])
              p.mounted;
        same_chunks = refl;
      }

  ended :
      (b : Builder) (spec : LevelSpec) {x y : Session} {d e : Disk}
      → ◌≡◌ {A = Result Session × Disk} (ok x, d) (ok y, e)
      → IsBuilt w b spec x d
      → IsBuilt w b spec y e
  ended b spec {x} {y} {d} {e} h p =
      let same : x ≡ y = cc (ap (λ q. q.0) h) in
      subst (λ z. IsBuilt w b spec z e) same (subst (λ z. IsBuilt w b spec x z) (ap (λ q. q.1) h) p)

  -- In a lawful world, a vault of one level that was built stands on the disk: its slot holds the
  -- enrolled keys, its metadata is attested for the salt, and its manifest chunk lies in the file
  -- and reads as the empty tree with the owner. The key is derived under the profile of the
  -- enrollment, the salt is the given one or was drawn, and the session has the level mounted.
  pub build-IsBuilt :
      (created : Result (Unit {0})) (b : Builder) (spec : LevelSpec) (s : Session) (d d' : Disk)
      → IsBuilder b spec
      → IsOwner b.creator
      → build w created b d ≡ (ok s, d')
      → IsBuilt w b spec s d'
  unfolding build
  build-IsBuilt created b spec s d d' typed owned h =
      let ((salt, slot, master, m, blob), d0, prepared, h0) = bind-eq-ok (prepare w b) _ d h in
      let p = prepare-IsPrepared w lawful b spec salt slot blob master m d d0 typed prepared in
      let (u1, d1, e1, h1) = bind-eq-ok (lift created) _ d0 h0 in
      let (u2, d2, e2, h2) = bind-eq-ok (write_region w put_salt salt) _ d1 h1 in
      let (u3, d3, e3, h3) = bind-eq-ok (write_region w put_slot slot) _ d2 h2 in
      let (u4, d4, e4, h4) = bind-eq-ok (write_region w put_metadata blob) _ d3 h3 in
      let (u5, d5, e5, h5) = bind-eq-ok (fill_chunks w b.capacity 0) _ d4 h4 in
      let (u6, d6, e6, h6) = bind-eq-ok (sync_disk w) _ d5 h5 in
      let (u7, d7, e7, h7) =
        bind-eq-ok (write_first_manifest w master b.creator m.total_chunks) _ d6 h6 in
      let (u8, d8, e8, h8) = bind-eq-ok (sync_disk w) _ d7 h7 in
      let header = HasHeader-IsSame salt slot blob d5 d6 (sync_disk-eq-ok w d5 e6) (
        fill_chunks-HasHeader w salt slot blob b.capacity 0 d4 d5
          (header_written w salt slot blob d1 d2 d3 d4 e2 e3 e4) e5) in
      let built =
        put_together b spec salt slot blob master m d6 d7 d8 owned p header e7
          (sync_disk-eq-ok w d7 e8) in
      ended b spec h8 built
