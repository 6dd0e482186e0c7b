-- ===== src/Format/Disk/Whole.antt =====
-- What a vault file holds: the abstract view of it, and what opening makes of it (vault.rs).
use farewell.Prelude.{
  ℕ, ◌+◌, ◌<◌, ◌≡◌, refl, true, false, Option, none, some, [], ◌∷◌, Bytes, length, arith, leb,
}
use farewell.Format.Error.{ok, err, crypto}
use farewell.Format.Manifest.{Manifest, empty}
use farewell.Format.World.{World, IsLawful, nonce_len}
use farewell.Format.Buffer.{read}
use farewell.Format.Metadata.{Metadata, open_blob}
use farewell.Format.Slot.{slot_aad, inner_ciphertext_len, decrypt_outer}
use farewell.Format.Slot.Unwrap.{Authenticator, UnwrappedSlot, try_unwrap_all}
use farewell.Format.Slot.Keys.{read_enrollment}
use farewell.Format.Slot.Contents.{Contents, IsSlot}
use farewell.Format.Slot.Opened.{Unlocks, credentials}
use farewell.Format.Slot.Observed.{
  try_unwrap_all-IsSlot, read_enrollment-IsSlot, shown_labels, outer_refused, unwrap_refused,
}
use farewell.Format.Vault.Raw.{read_chunk_raw, tick}
use farewell.Format.Vault.Commits.Reopen.{read_manifest}
use farewell.Format.Disk
use farewell.Format.Disk.{
  Disk, Session, kdf_hw, kdf_pp, kdf_candidates, derive, read_region, manifest_chunk_of,
}
use farewell.Format.Disk.Open.{level_of, unlock, open_inner}
use farewell.Format.Disk.Keys.{find_key}

-- The slot has the contents under the passphrase key, the blob opens to the metadata under the
-- metadata key, and the manifest chunk to the tree under the master key.
pub record IsVault (w : World) (passphrase_key : Bytes) (c : Contents) (m : Metadata)
    (tree : Manifest) (d : Disk) : Type 0 where
  pub slot : IsSlot w passphrase_key c d.slot
  pub attested : open_blob w d.metadata_blob c.metadata_key d.salt ≡ ok m
  pub inside : manifest_chunk_of w c.master_key 0 m.total_chunks < m.total_chunks
  pub readable :
      read_manifest w
        (level_of w c.master_key 0 m.total_chunks empty)
        (d.chunks (manifest_chunk_of w c.master_key 0 m.total_chunks))
      ≡ ok tree

-- The key is the first that the profiles derive of the passphrase and the salt that decrypts the
-- slot.
pub data IsKeyOf (w : World) (passphrase salt slot key : Bytes) : Type 0 where
  light : derive w passphrase salt kdf_hw ≡ ok key → IsKeyOf w passphrase salt slot key
  hardened :
      (other : Bytes)
      → derive w passphrase salt kdf_hw ≡ ok other
      → w.unseal other (read 0 nonce_len slot) slot_aad (read nonce_len inner_ciphertext_len slot)
        ≡ none
      → derive w passphrase salt kdf_pp ≡ ok key
      → IsKeyOf w passphrase salt slot key

module _ (w : World) where
  enrollment_refused :
      (other slot : Bytes)
      → decrypt_outer w slot other ≡ err crypto
      → read_enrollment w slot other ≡ err crypto
  unfolding read_enrollment
  enrollment_refused other slot h = rw h refl

  pub unlock-IsKeyOf :
      (passphrase salt slot key : Bytes) (a : Option Authenticator) (u : UnwrappedSlot)
      → IsKeyOf w passphrase salt slot key
      → try_unwrap_all w (slot ∷ []) key salt a ≡ ok u
      → unlock w kdf_candidates passphrase salt (slot ∷ []) a ≡ ok u
  unfolding unlock
  unlock-IsKeyOf passphrase salt slot key a u (IsKeyOf.light h) t = rw (h, t) refl
  unlock-IsKeyOf passphrase salt slot key a u (IsKeyOf.hardened other h no' h') t =
      rw (h, unwrap_refused w other slot salt a (outer_refused w other slot no'), h', t) refl

  pub find_key-IsKeyOf :
      (lawful : IsLawful w) (passphrase salt slot key : Bytes) (c : Contents)
      → IsKeyOf w passphrase salt slot key
      → IsSlot w key c slot
      → find_key w kdf_candidates passphrase salt slot
        ≡ ok (key, (length c.entries, credentials c.entries, shown_labels c.entries))
  unfolding find_key
  find_key-IsKeyOf lawful passphrase salt slot key c (IsKeyOf.light h) s =
      rw (h, read_enrollment-IsSlot w lawful key c slot s) refl
  find_key-IsKeyOf lawful passphrase salt slot key c (IsKeyOf.hardened other h no' h') s =
      rw
        (
          h,
          enrollment_refused other slot (outer_refused w other slot no'),
          h',
          read_enrollment-IsSlot w lawful key c slot s,
        )
        refl

-- The disk after the four reads of an opening.
abbrev pub after_reads : Disk → Disk
after_reads d = record d { clock = d.clock + 1 + 1 + 1 + 1 }

-- The session on a vault file.
abbrev pub session_on : World → Contents → Metadata → Manifest → Disk → Session
session_on w c m tree d = record {
  vault = record {
    file = d.chunks;
    clock = d.clock;
    total_chunks = m.total_chunks;
    mounted = some (level_of w c.master_key 0 m.total_chunks tree);
    poisoned = false;
  };
  metadata = m;
  hw_key_count = some (length c.entries);
}

module _ (w : World) (lawful : IsLawful w) where
  -- In a lawful world, a vault file opens with its passphrase and an authenticator that holds a key
  -- of it, or with the passphrase alone where it has no keys, in a world where no read of the disk
  -- fails. The session has the metadata, the tree, the chunks and the number of keys of the file,
  -- and the file is as before.
  pub open_inner-IsVault :
      (passphrase key : Bytes) (c : Contents) (m : Metadata) (tree : Manifest) (d : Disk)
      (a : Option Authenticator)
      → ((t : ℕ) → w.read_exact t ≡ true)
      → IsVault w key c m tree d
      → IsKeyOf w passphrase d.salt d.slot key
      → Unlocks w lawful key d.salt c.entries a
      → open_inner w (ok tt) passphrase a d
        ≡ (ok (session_on w c m tree (after_reads d)), after_reads d)
  unfolding open_inner read_region Disk.tick read_chunk_raw tick
  open_inner-IsVault passphrase key c m tree d a reads v found unlocks =
      let slot = v.slot in
      let primary =
        unlock-IsKeyOf w passphrase d.salt d.slot key a _ found
          (try_unwrap_all-IsSlot w lawful key c d.slot d.salt a slot unlocks) in
      let inside = v.inside in
      let there : leb m.total_chunks (manifest_chunk_of w c.master_key 0 m.total_chunks) ≡ false =
        ground arith in
      rw
        (
          reads d.clock,
          reads (d.clock + 1),
          reads (d.clock + 1 + 1),
          primary,
          v.attested,
          there,
          reads (d.clock + 1 + 1 + 1),
          v.readable,
        )
        refl
