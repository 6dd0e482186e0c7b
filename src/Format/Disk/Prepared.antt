-- ===== src/Format/Disk/Prepared.antt =====
-- The parts of a vault that is built, before the file is created (vault.rs).
use farewell.Prelude.{
  ℕ, ◌^◌, ◌<◌, ◌≤◌, ◌≡◌, refl, sym, ap, ◌∙◌, Option, some, List, [], ◌∷◌, Bytes, length, All, arith,
}
use mathlib.Core.Path.{subst}
use farewell.Format.Error.{ok}
use farewell.Format.World.{World, IsLawful}
use farewell.Format.Draws.{fill}
use farewell.Format.Draws.Laws.{length-fill}
use farewell.Format.Metadata
use farewell.Format.Metadata.{Metadata, format_version, signed_metadata_message, open_blob}
use farewell.Format.Metadata.Seal.{seal}
use farewell.Format.Metadata.RoundTrip.{open_blob-seal}
use farewell.Format.Slot.{Entry, max_hw_keys_per_level, master_key_len, metadata_key_len}
use farewell.Format.Slot.Wrap.{wrap}
use farewell.Format.Slot.Contents.{Contents, IsKey, IsSlot}
use farewell.Format.Slot.Wrapped.{wrap-IsSlot}
use farewell.Format.Disk.{Disk, KdfParams, derive, tick, lift, draw}
use farewell.Format.Disk.Build.{
  LevelSpec, Builder, build_kdf_params, check_owner, choose_salt, wrap_levels, prepare,
}
use farewell.Format.Disk.Laws.{bind-eq-ok, lift-eq-ok, draw-eq-ok}

-- What the level of a vault that is built protects.
abbrev pub built_contents : List Entry → Bytes → Bytes → Bytes → Contents
built_contents es kwk master_key metadata_key = record {
  entries = es;
  kwk = kwk;
  master_key = master_key;
  metadata_key = metadata_key;
}

-- A builder for one level, of Rust's types, with keys that a slot can hold.
pub record IsBuilder (b : Builder) (spec : LevelSpec) : Type 0 where
  pub one_level : b.levels ≡ spec ∷ []
  pub capacity_u64 : b.capacity < 2 ^ 64
  pub few : length spec.enrollment ≤ max_hw_keys_per_level
  pub usable : All IsKey spec.enrollment

-- The parts fit together.
pub record IsPrepared (w : World) (b : Builder) (spec : LevelSpec) (salt slot blob : Bytes)
    (master : Option Bytes) (m : Metadata) : Type 0 where
  pub key : Bytes
  pub kwk : Bytes
  pub master_key : Bytes
  pub metadata_key : Bytes
  pub chosen : (t : ℕ) × ((choose_salt w b.explicit_salt t).0 ≡ ok salt)
  pub derived : derive w spec.passphrase salt (build_kdf_params (spec ∷ [])) ≡ ok key
  pub mounted : master ≡ some master_key
  pub is_slot : IsSlot w key (built_contents spec.enrollment kwk master_key metadata_key) slot
  pub opens : open_blob w blob metadata_key salt ≡ ok m
  pub capacity : m.total_chunks ≡ b.capacity

module _ (w : World) (lawful : IsLawful w) where
  wrap_levels-eq-ok :
      (params : KdfParams) (salt metadata_key : Bytes) (spec : LevelSpec) (d : Disk)
      {r : Bytes × Option Bytes} {d' : Disk}
      → wrap_levels w params salt metadata_key (spec ∷ []) d ≡ (ok r, d')
      → (key : Bytes) × (master : Bytes) × (t : ℕ) × (derive w spec.passphrase salt params ≡ ok key)
        × (length master ≡ master_key_len)
        × ((wrap w key master metadata_key spec.enrollment t).0 ≡ ok r.0)
        × (r.1 ≡ some master)
  unfolding wrap_levels
  wrap_levels-eq-ok params salt metadata_key spec d {r} h =
      let (key, d1, de, h1) = bind-eq-ok (lift (derive w spec.passphrase salt params)) _ d h in
      let (master, d2, dm, h2) = bind-eq-ok (draw (fill w master_key_len)) _ d1 h1 in
      let wraps = wrap w key master metadata_key spec.enrollment in
      let (slot, d3, dw, h3) = bind-eq-ok (draw wraps) _ d2 h2 in
      let same : (slot, some master) ≡ r = cc (ap (λ p. p.0) h3) in
      (
        key,
        master,
        d2.clock,
        (lift-eq-ok (derive w spec.passphrase salt params) d de).0,
        length-fill w lawful master_key_len d1.clock (draw-eq-ok (fill w master_key_len) d1 dm).0,
        (draw-eq-ok wraps d2 dw).0 ∙ ap (λ p. ok p.0) same,
        sym (ap (λ p. p.1) same),
      )

  -- The metadata of a new vault opens: it is signed under the key that it carries.
  new_metadata-opens :
      (t0 total : ℕ) (salt metadata_key blob : Bytes) (t : ℕ)
      → total < 2 ^ 64
      → (seal w
          (Metadata.new total (w.mldsa_generate t0).1 (
            w.mldsa_sign
              (w.mldsa_generate t0).0
              (signed_metadata_message format_version total salt (w.mldsa_generate t0).1)))
          metadata_key
          t).0
        ≡ ok blob
      → open_blob w blob metadata_key salt
        ≡ ok (
            Metadata.new total (w.mldsa_generate t0).1 (
              w.mldsa_sign
                (w.mldsa_generate t0).0
                (signed_metadata_message format_version total salt (w.mldsa_generate t0).1)))
  unfolding Metadata.new
  new_metadata-opens t0 total salt metadata_key blob t small h =
      open_blob-seal w lawful _ metadata_key salt blob t
        (record {
          version = omega arith;
          total_chunks = small;
          length_vk = lawful.length-mldsa_generate t0;
          length_sig = lawful.length-mldsa_sign _ _;
        })
        refl (lawful.mldsa_is_key-generate t0) (lawful.mldsa_verify-sign t0 _) h

  -- The level, wrapped.
  wrapped_level :
      (b : Builder) (spec : LevelSpec) (salt mdk : Bytes) (d : Disk) {r : Bytes × Option Bytes}
      {d' : Disk}
      → IsBuilder b spec
      → length mdk ≡ metadata_key_len
      → wrap_levels w (build_kdf_params b.levels) salt mdk b.levels d ≡ (ok r, d')
      → (key : Bytes) × (kwk : Bytes) × (mk : Bytes) × (derive w spec.passphrase salt
            (build_kdf_params (spec ∷ []))
          ≡ ok key)
        × (r.1 ≡ some mk)
        × IsSlot w key (built_contents spec.enrollment kwk mk mdk) r.0
  wrapped_level b spec salt mdk d {r} {d'} typed room h =
      let one =
        subst (λ ls. wrap_levels w (build_kdf_params ls) salt mdk ls d ≡ (ok r, d')) typed.one_level
          h in
      let (key, mk, t, derived, long, wrapped, mounted) =
        wrap_levels-eq-ok (build_kdf_params (spec ∷ [])) salt mdk spec d one in
      let (kwk, s) =
        wrap-IsSlot w lawful key mk mdk spec.enrollment t r.0 long room typed.few typed.usable
          wrapped in
      (key, kwk, mk, derived, mounted, s)

  -- The parts that are returned are those that were made.
  returned :
      (b : Builder) (spec : LevelSpec)
      (made parts : Bytes × Bytes × Option Bytes × Metadata × Bytes)
      → ok made ≡ ok parts
      → IsPrepared w b spec made.0 made.1 made.4 made.2 made.3
      → IsPrepared w b spec parts.0 parts.1 parts.4 parts.2 parts.3
  returned b spec made parts h p =
      let same : made ≡ parts = cc h in subst (λ x. IsPrepared w b spec x.0 x.1 x.4 x.2 x.3) same p

  pub prepare-IsPrepared :
      (b : Builder) (spec : LevelSpec) (salt slot blob : Bytes) (master : Option Bytes)
      (m : Metadata) (d d' : Disk)
      → IsBuilder b spec
      → prepare w b d ≡ (ok (salt, slot, master, m, blob), d')
      → IsPrepared w b spec salt slot blob master m
  unfolding prepare Metadata.new
  prepare-IsPrepared b spec salt slot blob master m d d' typed h =
      let (u, d0, owned, h0) = bind-eq-ok (lift (check_owner b.creator)) _ d h in
      let (salt', d1, ds, h1) = bind-eq-ok (draw (choose_salt w b.explicit_salt)) _ d0 h0 in
      let (mdk, d2, dk, h2) = bind-eq-ok (draw (fill w metadata_key_len)) _ d1 h1 in
      let (t, d3, dt, h3) = bind-eq-ok tick _ d2 h2 in
      let vk = (w.mldsa_generate t).1 in
      let signature =
        w.mldsa_sign (w.mldsa_generate t).0
          (signed_metadata_message format_version b.capacity salt' vk) in
      let made = Metadata.new b.capacity vk signature in
      let (blob', d4, db, h4) = bind-eq-ok (draw (seal w made mdk)) _ d3 h3 in
      let (r, d5, dl, h5) =
        bind-eq-ok (wrap_levels w (build_kdf_params b.levels) salt' mdk b.levels) _ d4 h4 in
      let room =
        length-fill w lawful metadata_key_len d1.clock
          (draw-eq-ok (fill w metadata_key_len) d1 dk).0 in
      let (key, kwk, mk, derived, mounted, s) = wrapped_level b spec salt' mdk d4 typed room dl in
      returned b spec (salt', r.0, r.1, made, blob') (salt, slot, master, m, blob)
        (ap (λ p. p.0) h5)
        (record {
          key = key;
          kwk = kwk;
          master_key = mk;
          metadata_key = mdk;
          chosen = (d0.clock, (draw-eq-ok (choose_salt w b.explicit_salt) d0 ds).0);
          derived = derived;
          mounted = mounted;
          is_slot = s;
          opens =
              new_metadata-opens t b.capacity salt' mdk blob' d3.clock typed.capacity_u64
                (draw-eq-ok (seal w made mdk) d3 db).0;
          capacity = refl;
        })
