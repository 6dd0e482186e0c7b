-- ===== src/Format/Slot/Observed.antt =====
-- What slot.rs returns from a slot that holds given contents.
use farewell.Prelude.{
  ℕ, ◌+◌, ◌≡◌, ◌≢◌, refl, sym, ap, ◌∙◌, true, false, Option, none, some, List, [], ◌∷◌, Bytes,
  length, arith, All, ◌==◌,
}
use farewell.Format.Error.{ok, err, crypto, hardware_key_required, ◌>>=◌}
use farewell.Format.World.{World, IsLawful, nonce_len}
use farewell.Format.Buffer.{read}
use farewell.Format.Chunk.{crypto_result}
use farewell.Format.Slot.{
  Entry, decode_label, encode_label, read_count, unseal_kwk, combine_key, kwk_len,
  fido_salt_from_vault_salt, slot_aad, inner_ciphertext_len, decrypt_outer,
}
use farewell.Format.Slot.Unwrap.{
  Authenticator, recognized, answered, read_candidates, position_of, unwrap_kwk_via_authenticator,
  with_authenticator, recover_kwk, try_unwrap, tally, unwrap_each, unique, try_unwrap_all,
}
use farewell.Format.Slot.Keys.{read_keys, read_enrollment}
use farewell.Format.Slot.Contents.{Contents, IsKey, Indexed, HasEntry, HasLabel, IsInner, IsSlot}
use farewell.Format.Slot.Opened.{
  credentials, Unlocks, passphrase_alone, present, decrypt_outer-IsSlot, read_credential-HasEntry,
  read_candidates-Indexed, position_of-first, unseal_kwk-HasEntry, open_master-IsInner,
}

abbrev pub shown_labels : List Entry → List Bytes
shown_labels [] = []
shown_labels (e ∷ es) = decode_label (encode_label e.label) ∷ shown_labels es

not_empty : (es : List Entry) → es ≢ [] → (length es == 0) ≡ false
not_empty [] h = absurd (h refl)
not_empty (e ∷ es) h = ground arith

module _ (w : World) where
  pub outer_refused :
      (other slot : Bytes)
      → w.unseal other (read 0 nonce_len slot) slot_aad (read nonce_len inner_ciphertext_len slot)
        ≡ none
      → decrypt_outer w slot other ≡ err crypto
  unfolding decrypt_outer crypto_result
  outer_refused other slot h = rw h refl

  pub unwrap_refused :
      (other slot salt : Bytes) (a : Option Authenticator)
      → decrypt_outer w slot other ≡ err crypto
      → try_unwrap_all w (slot ∷ []) other salt a ≡ err crypto
  unfolding try_unwrap_all unwrap_each unique try_unwrap
  unwrap_refused other slot salt a h = rw h refl

module _ (w : World) (lawful : IsLawful w) (passphrase_key : Bytes) where
  -- The authenticator's entry gives the KWK.
  via_key :
      (kwk inner vault_salt : Bytes) (k j : ℕ) (es : List Entry) (authenticator : Authenticator)
      (e : Entry)
      → length kwk ≡ kwk_len
      → read_candidates inner 0 k ≡ ok (credentials es)
      → authenticator (credentials es) (fido_salt_from_vault_salt w vault_salt)
        ≡ recognized e.credential_id e.hmac_output
      → position_of e.credential_id 0 (credentials es) ≡ ok j
      → unseal_kwk w (combine_key w passphrase_key e.hmac_output) inner j ≡ some kwk
      → unwrap_kwk_via_authenticator w passphrase_key vault_salt k inner authenticator ≡ ok kwk
  unfolding unwrap_kwk_via_authenticator crypto_result answered
  via_key kwk inner vault_salt k j es authenticator e long candidates answer matched found =
      let right : (length kwk == kwk_len) ≡ true = ground arith in
      rw (candidates, answer, matched, found, right)

  recover_kwk-Unlocks :
      (c : Contents) (inner vault_salt : Bytes) (a : Option Authenticator)
      → IsInner w passphrase_key c inner
      → Unlocks w lawful passphrase_key vault_salt c.entries a
      → recover_kwk w passphrase_key vault_salt inner a ≡ ok c.kwk
  unfolding recover_kwk
  recover_kwk-Unlocks c inner vault_salt a i (passphrase_alone e) =
      let zero' : (read_count inner == 0) ≡ true = ap (λ n. n == 0) (i.count ∙ ap length e) in
      rw zero' (ap ok (sym (i.without_keys e)))
  recover_kwk-Unlocks c inner vault_salt a i (present authenticator e which some' first answer) =
      let more : (read_count inner == 0) ≡ false =
        ap (λ n. n == 0) i.count ∙ not_empty c.entries some' in
      let candidates =
        read_candidates-Indexed w lawful passphrase_key c.kwk inner 0 c.entries i.usable i.keys in
      let (j, matched, entry) =
        position_of-first w lawful passphrase_key (HasEntry w passphrase_key c.kwk inner)
          e.credential_id 0 c.entries e i.keys first in
      let kwk = unseal_kwk-HasEntry w lawful passphrase_key c.kwk inner j e entry in
      rw (more, which, i.count)
        (via_key c.kwk inner vault_salt (length c.entries) j c.entries authenticator e i.length_kwk
          candidates answer matched kwk)

  -- A slot opens, by the passphrase alone where no key is enrolled, and by any enrolled key that is
  -- present otherwise: to the master key and the metadata key it holds, and the number of its keys.
  pub try_unwrap-IsSlot :
      (c : Contents) (slot vault_salt : Bytes) (a : Option Authenticator)
      → IsSlot w passphrase_key c slot
      → Unlocks w lawful passphrase_key vault_salt c.entries a
      → try_unwrap w slot passphrase_key vault_salt a
        ≡ ok (record {
          master_key = c.master_key;
          metadata_key = c.metadata_key;
          slot = 0;
          num_hw_keys = length c.entries;
        })
  unfolding try_unwrap
  try_unwrap-IsSlot c slot vault_salt a s unlocked =
      rw
        (
          decrypt_outer-IsSlot w lawful passphrase_key c slot s,
          recover_kwk-Unlocks c s.inner vault_salt a s.is_inner unlocked,
        )
        (open_master-IsInner w lawful passphrase_key c s.inner s.is_inner)

  -- The one slot of a vault, among all of them.
  pub try_unwrap_all-IsSlot :
      (c : Contents) (slot vault_salt : Bytes) (a : Option Authenticator)
      → IsSlot w passphrase_key c slot
      → Unlocks w lawful passphrase_key vault_salt c.entries a
      → try_unwrap_all w (slot ∷ []) passphrase_key vault_salt a
        ≡ ok (record {
          master_key = c.master_key;
          metadata_key = c.metadata_key;
          slot = 0;
          num_hw_keys = length c.entries;
        })
  unfolding try_unwrap_all unwrap_each unique
  try_unwrap_all-IsSlot c slot vault_salt a s unlocked =
      ap (λ r. tally 0 r (ok ([], false)) >>= unique w)
        (try_unwrap-IsSlot c slot vault_salt a s unlocked)

  -- In a lawful world, of a slot with keys enrolled, the right passphrase without an authenticator is
  -- told that a hardware key is required; a passphrase whose key does not decrypt the slot is told
  -- only that decryption failed, whatever authenticator is at hand.
  pub try_unwrap-no-key :
      (c : Contents) (slot vault_salt : Bytes)
      → IsSlot w passphrase_key c slot
      → c.entries ≢ []
      → (other : Bytes) (a : Option Authenticator)
      → w.unseal other (read 0 nonce_len slot) slot_aad (read nonce_len inner_ciphertext_len slot)
        ≡ none
      → (try_unwrap_all w (slot ∷ []) passphrase_key vault_salt none ≡ err hardware_key_required)
        × (try_unwrap_all w (slot ∷ []) other vault_salt a ≡ err crypto)
  unfolding try_unwrap_all unwrap_each unique try_unwrap recover_kwk with_authenticator
  try_unwrap-no-key c slot vault_salt s some' other a wrong =
      let i = s.is_inner in
      let more : (read_count s.inner == 0) ≡ false =
        ap (λ n. n == 0) i.count ∙ not_empty c.entries some' in
      let required : try_unwrap w slot passphrase_key vault_salt none ≡ err hardware_key_required =
        rw (decrypt_outer-IsSlot w lawful passphrase_key c slot s, more) in
      (
        ap (λ r. tally 0 r (ok ([], false)) >>= unique w) required,
        unwrap_refused w other slot vault_salt a (outer_refused w other slot wrong),
      )

  read_keys-Indexed :
      (kwk inner : Bytes) (i : ℕ) (es : List Entry)
      → All IsKey es
      → Indexed (HasEntry w passphrase_key kwk inner) i es
      → Indexed (HasLabel inner) i es
      → read_keys inner i (length es) ≡ ok (credentials es, shown_labels es)
  unfolding read_keys
  read_keys-Indexed kwk inner i [] usable h l = refl
  read_keys-Indexed kwk inner i (e ∷ es) (usable, rest) (here, there) (label, labels) = rw (
    read_credential-HasEntry w lawful passphrase_key kwk inner i e usable here,
    read_keys-Indexed kwk inner (i + 1) es rest there labels,
    label,
  )

  -- The enrollment that is read of a slot, with the passphrase alone, is that of the keys it holds:
  -- their number, their credentials in order, and their labels as far as the field holds them.
  pub read_enrollment-IsSlot :
      (c : Contents) (slot : Bytes)
      → IsSlot w passphrase_key c slot
      → read_enrollment w slot passphrase_key
        ≡ ok (length c.entries, credentials c.entries, shown_labels c.entries)
  unfolding read_enrollment
  read_enrollment-IsSlot c slot s =
      let i = s.is_inner in
      rw (
        decrypt_outer-IsSlot w lawful passphrase_key c slot s,
        i.count,
        read_keys-Indexed c.kwk s.inner 0 c.entries i.usable i.keys i.labels,
      )
