-- ===== src/Format/Disk/Changed.antt =====
-- What the methods on the hardware keys of a vault file make of it (vault.rs).
use farewell.Prelude.{
  ℕ, ◌<◌, ◌≤◌, ◌≡◌, sym, ap, ◌∙◌, Option, List, [], ◌∷◌, ◌++◌, Bytes, length, All, arith,
}
use mathlib.Core.Path.{subst}
use farewell.Format.Error.{Result, ok}
use farewell.Format.Manifest.{Manifest}
use farewell.Format.World.{World, IsLawful}
use farewell.Format.Metadata.{Metadata}
use farewell.Format.Buffer.Laws.{length-read}
use farewell.Format.Slot.{Entry, max_hw_keys_per_level, metadata_key_len, metadata_key_offset}
use farewell.Format.Slot.Wrap.{wrap}
use farewell.Format.Slot.Unwrap.{Authenticator, UnwrappedSlot, try_unwrap}
use farewell.Format.Slot.Enroll.{add_credential, remove_credential}
use farewell.Format.Slot.Contents.{Contents, IsKey, IsSlot}
use farewell.Format.Slot.Wrapped.{wrap-IsSlot}
use farewell.Format.Slot.Opened.{Unlocks, credentials}
use farewell.Format.Slot.Observed.{try_unwrap-IsSlot, shown_labels}
use farewell.Format.Slot.Added.{Present, add_credential-IsSlot}
use farewell.Format.Slot.Removed.{without, remove_credential-IsSlot}
use farewell.Format.Disk.{
  Disk, S, kdf_candidates, derive, lift, draw, read_region, write_region, put_slot,
}
use farewell.Format.Disk.Keys.{
  Enrollment, params_for, find_key, with_key, write_slot, add_hw_credential, remove_hw_credential,
  reenroll_slot,
}
use farewell.Format.Disk.Whole.{IsVault, IsKeyOf, find_key-IsKeyOf}
use farewell.Format.Disk.Laws.{
  bind-eq-ok, lift-eq-ok, draw-eq-ok, read_region-eq-ok, sync_disk-eq-ok, write_region-eq-ok,
  IsSame, IsSame-trans,
}

-- The slot is a new one, the rest of the file as it was.
record IsRewritten (new_slot : Bytes) (d d' : Disk) : Type 0 where
  slot : d'.slot ≡ new_slot
  salt : d'.salt ≡ d.salt
  metadata_blob : d'.metadata_blob ≡ d.metadata_blob
  chunks : d'.chunks ≡ d.chunks

module _ (w : World) where
  write_slot-IsRewritten :
      (new_slot : Bytes) (d0 d d' : Disk)
      → IsSame d0 d
      → write_slot w new_slot d ≡ (ok tt, d')
      → IsRewritten new_slot d0 d'
  unfolding write_slot
  write_slot-IsRewritten new_slot d0 d d' same h =
      let (u, d1, put, synced) = bind-eq-ok (write_region w put_slot new_slot) _ d h in
      let now = ap (λ p. p.1) (write_region-eq-ok w put_slot new_slot d put) in
      let after = sync_disk-eq-ok w d1 synced in
      record {
        slot = after.slot ∙ ap (λ x. x.slot) (sym now);
        salt = after.salt ∙ ap (λ x. x.salt) (sym now) ∙ same.salt;
        metadata_blob =
            after.metadata_blob ∙ ap (λ x. x.metadata_blob) (sym now) ∙ same.metadata_blob;
        chunks = after.chunks ∙ ap (λ x. x.chunks) (sym now) ∙ same.chunks;
      }

  rewritten-IsVault :
      (key key' : Bytes) (c : Contents) (es : List Entry) (kwk new_slot : Bytes) (m : Metadata)
      (tree : Manifest) (d d' : Disk)
      → IsVault w key c m tree d
      → IsSlot w key' (record c { entries = es; kwk = kwk }) new_slot
      → IsRewritten new_slot d d'
      → IsVault w key' (record c { entries = es; kwk = kwk }) m tree d'
  rewritten-IsVault key key' c es kwk new_slot m tree d d' v s r = record {
    slot = subst (IsSlot w key' (record c { entries = es; kwk = kwk })) (sym r.slot) s;
    attested = rw (r.metadata_blob, r.salt) v.attested;
    inside = v.inside;
    readable = rw r.chunks v.readable;
  }

module _ (w : World) (lawful : IsLawful w) (passphrase key : Bytes) (c : Contents) where
  goes_on {ℓ} :
      {A : Type ℓ} (f : Bytes → Bytes → Bytes → Enrollment → S A) (salt slot : Bytes)
      (got : Bytes × Enrollment) (d d1 : Disk) {r : Result A × Disk}
      → IsSlot w key c d.slot
      → IsKeyOf w passphrase d.salt d.slot key
      → d.salt ≡ salt
      → d.slot ≡ slot
      → find_key w kdf_candidates passphrase salt slot ≡ ok got
      → f salt slot got.0 got.1 d1 ≡ r
      → (e : Enrollment) × (f d.salt d.slot key e d1 ≡ r)
  goes_on f salt slot got d d1 {r} s found e1 e2 g h =
      let e : Enrollment = (length c.entries, credentials c.entries, shown_labels c.entries) in
      let first = find_key-IsKeyOf w lawful passphrase d.salt d.slot key c found s in
      let again : find_key w kdf_candidates passphrase d.salt d.slot ≡ ok got = rw (e1, e2) g in
      let same : got ≡ (key, e) = cc (sym again ∙ first) in
      (e, rw (e1, e2) (subst (λ p. f salt slot p.0 p.1 d1 ≡ r) same h))

  -- How a method begins on a vault file: it goes on with the key and the slot.
  with_key-eq-ok {ℓ} :
      {A : Type ℓ} (opened : Result (Unit {0})) (f : Bytes → Bytes → Bytes → Enrollment → S A)
      (d : Disk) {a : A} {d' : Disk}
      → IsSlot w key c d.slot
      → IsKeyOf w passphrase d.salt d.slot key
      → with_key w opened passphrase f d ≡ (ok a, d')
      → (e : Enrollment) × (d1 : Disk) × IsSame d d1 × (f d.salt d.slot key e d1 ≡ (ok a, d'))
  unfolding with_key
  with_key-eq-ok opened f d {a} {d'} s found h =
      let (u, d0, o, h0) = bind-eq-ok (lift opened) _ d h in
      let same0 = (lift-eq-ok opened d o).1 in
      let (salt, d1, r1, h1) = bind-eq-ok (read_region w (λ x. x.salt)) _ d0 h0 in
      let (e1, same1) = read_region-eq-ok w (λ x. x.salt) d0 r1 in
      let (slot, d2, r2, h2) = bind-eq-ok (read_region w (λ x. x.slot)) _ d1 h1 in
      let (e2, same2) = read_region-eq-ok w (λ x. x.slot) d1 r2 in
      let (got, d3, r3, h3) =
        bind-eq-ok (lift (find_key w kdf_candidates passphrase salt slot)) _ d2 h2 in
      let (e3, same3) = lift-eq-ok (find_key w kdf_candidates passphrase salt slot) d2 r3 in
      let (e, h4) =
        goes_on f salt slot got d d3 s found (sym same0.salt ∙ e1)
          (sym same0.slot ∙ sym same1.slot ∙ e2) e3 h3 in
      (
        e,
        d3,
        IsSame-trans d d0 d3 same0
            (IsSame-trans d0 d1 d3 same1 (IsSame-trans d1 d2 d3 same2 same3)),
        h4,
      )

  -- In a lawful world, a removal that succeeds was of a key of the vault, which had others. The
  -- file is a vault file with the same metadata and tree, under the same keys, and has every other
  -- key.
  pub remove_hw_credential-IsVault :
      (opened : Result (Unit {0})) (index : ℕ) (m : Metadata) (tree : Manifest) (d d' : Disk)
      → IsVault w key c m tree d
      → IsKeyOf w passphrase d.salt d.slot key
      → remove_hw_credential w opened passphrase index d ≡ (ok tt, d')
      → (index < length c.entries)
        × (1 < length c.entries)
        × IsVault w key (record c { entries = without index c.entries }) m tree d'
  unfolding remove_hw_credential
  remove_hw_credential-IsVault opened index m tree d d' v found h =
      let (e, d1, same, h1) = with_key-eq-ok opened _ d v.slot found h in
      let (new_slot, d2, drawn, h2) =
        bind-eq-ok (draw (remove_credential w d.slot key index)) _ d1 h1 in
      let (removed, same') = draw-eq-ok (remove_credential w d.slot key index) d1 drawn in
      let (there, others, s) =
        remove_credential-IsSlot w lawful key c d.slot new_slot index d1.clock v.slot removed in
      (
        there,
        others,
        rewritten-IsVault w key key c (without index c.entries) c.kwk new_slot m tree d d' v s
            (write_slot-IsRewritten w new_slot d d2 d' (IsSame-trans d d1 d2 same same') h2),
      )

  -- In a lawful world, an addition that succeeds, with the output of a key of the vault or to a
  -- vault without keys, leaves a vault file with the same metadata and tree, under the same keys,
  -- and with the new key behind the others.
  pub add_hw_credential-IsVault :
      (opened : Result (Unit {0})) (recover_hmac : Option Bytes) (new : Entry) (m : Metadata)
      (tree : Manifest) (d d' : Disk)
      → IsVault w key c m tree d
      → IsKeyOf w passphrase d.salt d.slot key
      → Present w lawful key c recover_hmac
      → add_hw_credential w opened passphrase recover_hmac new.credential_id new.hmac_output
          new.label d
        ≡ (ok tt, d')
      → IsVault w key (record c { entries = c.entries ++ (new ∷ []) }) m tree d'
  unfolding add_hw_credential
  add_hw_credential-IsVault opened recover_hmac new m tree d d' v found present h =
      let (e, d1, same, h1) = with_key-eq-ok opened _ d v.slot found h in
      let add =
        add_credential w d.slot key recover_hmac new.credential_id new.hmac_output new.label in
      let (new_slot, d2, drawn, h2) = bind-eq-ok (draw add) _ d1 h1 in
      let (added, same') = draw-eq-ok add d1 drawn in
      let s =
        add_credential-IsSlot w lawful key c d.slot new_slot recover_hmac new d1.clock v.slot
          present added in
      rewritten-IsVault w key key c (c.entries ++ (new ∷ [])) c.kwk new_slot m tree d d' v s
        (write_slot-IsRewritten w new_slot d d2 d' (IsSame-trans d d1 d2 same same') h2)

  -- In a lawful world, a new enrollment that succeeds, with an authenticator that holds a key of
  -- the vault where it has keys, leaves a vault file with the same master key, metadata and tree
  -- and with the new keys, under the key that the profile for the new enrollment derives.
  pub reenroll_slot-IsVault :
      (opened : Result (Unit {0})) (a : Option Authenticator) (new : List Entry) (m : Metadata)
      (tree : Manifest) (d d' : Disk)
      → IsVault w key c m tree d
      → IsKeyOf w passphrase d.salt d.slot key
      → Unlocks w lawful key d.salt c.entries a
      → length new ≤ max_hw_keys_per_level
      → All IsKey new
      → reenroll_slot w opened passphrase a new d ≡ (ok tt, d')
      → (key' : Bytes) × (kwk : Bytes) × (derive w passphrase d.salt (params_for new) ≡ ok key')
        × IsVault w key' (record c { entries = new; kwk = kwk }) m tree d'
  unfolding reenroll_slot
  reenroll_slot-IsVault opened a new m tree d d' v found unlocks few usable h =
      let slot = v.slot in
      let inner = slot.is_inner in
      let whole = inner.whole in
      let long : length c.metadata_key ≡ metadata_key_len =
        ap length (sym inner.metadata)
        ∙ length-read metadata_key_offset metadata_key_len slot.inner (omega (arith, whole)) in
      let (e, d1, same, h1) = with_key-eq-ok opened _ d slot found h in
      let (u, d2, un, h2) = bind-eq-ok (lift (try_unwrap w d.slot key d.salt a)) _ d1 h1 in
      let (e2, same2) = lift-eq-ok (try_unwrap w d.slot key d.salt a) d1 un in
      let right : UnwrappedSlot = record {
        master_key = c.master_key;
        metadata_key = c.metadata_key;
        slot = 0;
        num_hw_keys = length c.entries;
      } in
      let same_u : u ≡ right =
        cc (sym e2 ∙ try_unwrap-IsSlot w lawful key c d.slot d.salt a slot unlocks) in
      let (key', d3, de, h3) =
        bind-eq-ok (lift (derive w passphrase d.salt (params_for new))) _ d2 h2 in
      let (e3, same3) = lift-eq-ok (derive w passphrase d.salt (params_for new)) d2 de in
      let wraps = wrap w key' u.master_key u.metadata_key new in
      let (new_slot, d4, drawn, h4) = bind-eq-ok (draw wraps) _ d3 h3 in
      let (wrapped, same4) = draw-eq-ok wraps d3 drawn in
      let wrapped' =
        subst (λ x. (wrap w key' x.master_key x.metadata_key new d3.clock).0 ≡ ok new_slot) same_u
          wrapped in
      let (kwk, s) =
        wrap-IsSlot w lawful key' c.master_key c.metadata_key new d3.clock new_slot
          inner.length_master long few usable wrapped' in
      let same' =
        IsSame-trans d d1 d4 same
          (IsSame-trans d1 d2 d4 same2 (IsSame-trans d2 d3 d4 same3 same4)) in
      (
        key',
        kwk,
        e3,
        rewritten-IsVault w key key' c new kwk new_slot m tree d d' v s
            (write_slot-IsRewritten w new_slot d d4 d' same' h4),
      )
