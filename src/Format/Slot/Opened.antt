-- ===== src/Format/Slot/Opened.antt =====
-- What slot.rs reads of a slot, in terms of what it holds.
use farewell.Prelude.{
  ℕ, ◌+◌, ◌≡◌, ◌≢◌, refl, sym, ◌∙◌, inl, inr, true, false, Option, none, some, List, [], ◌∷◌, ◌++◌,
  Bytes, length, take, drop, arith, All, ltb, leb, ◌==◌, ◌||◌, if◌then◌else◌, Bool-cases, bytes_eq,
  length-append, take-append, drop-append,
}
use mathlib.Core.Path.{subst}
use farewell.Bytes.{from_le, write_u32, length-to_le, from_le-to_le}
use farewell.Format.Error.{ok}
use farewell.Format.World.{World, IsLawful}
use farewell.Format.Chunk.{crypto_result}
use farewell.Format.Slot.{
  Entry, read_count, read_credential, unseal_kwk, decrypt_outer, combine_key,
  fido_salt_from_vault_salt, hw_slot_aad,
}
use farewell.Format.Slot.Unwrap.{
  Authenticator, recognized, read_candidates, position_of, open_master,
}
use farewell.Format.Slot.Contents.{Contents, IsKey, Indexed, HasEntry, IsInner, IsSlot}

abbrev pub credentials : List Entry → List Bytes
credentials [] = []
credentials (e ∷ es) = e.credential_id ∷ credentials es

-- The first entry with a credential.
unfoldable pub first_with : Bytes → List Entry → Option Entry
unfolding bytes_eq
first_with used [] = none
first_with used (e ∷ es) =
    let later = first_with used es in if bytes_eq e.credential_id used then some e else later

module _ (w : World) (lawful : IsLawful w) (passphrase_key : Bytes) where
  pub decrypt_outer-IsSlot :
      (c : Contents) (slot : Bytes) (s : IsSlot w passphrase_key c slot)
      → decrypt_outer w slot passphrase_key ≡ ok s.inner
  unfolding decrypt_outer crypto_result
  decrypt_outer-IsSlot c slot s =
      let i = s.is_inner in
      let whole = i.whole in
      let count = i.count in
      let few = i.few in
      let long : length s.inner == 1195 ≡ true = ground arith in
      let small : leb (read_count s.inner) 3 ≡ true = ground arith in rw (s.opens, long, small)

  -- The inner payload that a method has decrypted holds the contents.
  pub decrypt_outer-IsInner :
      (c : Contents) (slot inner : Bytes)
      → IsSlot w passphrase_key c slot
      → decrypt_outer w slot passphrase_key ≡ ok inner
      → IsInner w passphrase_key c inner
  decrypt_outer-IsInner c slot inner s h =
      let same : s.inner ≡ inner = cc (sym (decrypt_outer-IsSlot c slot s) ∙ h) in
      subst (IsInner w passphrase_key c) same s.is_inner

  pub read_credential-HasEntry :
      (kwk inner : Bytes) (i : ℕ) (e : Entry)
      → IsKey e
      → HasEntry w passphrase_key kwk inner i e
      → read_credential inner i ≡ ok e.credential_id
  unfolding read_credential
  read_credential-HasEntry kwk inner i e key h =
      let more = key.not_empty in
      let fits = key.fits in
      let usable : (length e.credential_id == 0 || ltb 256 (length e.credential_id)) ≡ false =
        ground arith in
      rw (h.cred_len, usable, h.cred)

  pub read_candidates-Indexed :
      (kwk inner : Bytes) (i : ℕ) (es : List Entry)
      → All IsKey es
      → Indexed (HasEntry w passphrase_key kwk inner) i es
      → read_candidates inner i (length es) ≡ ok (credentials es)
  unfolding read_candidates
  read_candidates-Indexed kwk inner i [] usable h = refl
  read_candidates-Indexed kwk inner i (e ∷ es) (usable, rest) (here, there) = rw (
    read_credential-HasEntry kwk inner i e usable here,
    read_candidates-Indexed kwk inner (i + 1) es rest there,
  )

  -- The place that `position` finds is that of the first entry with the credential.
  pub position_of-first :
      (P : ℕ → Entry → Type 0) (used : Bytes) (i : ℕ) (es : List Entry) (e : Entry)
      → Indexed P i es
      → first_with used es ≡ some e
      → (j : ℕ) × (position_of used i (credentials es) ≡ ok j) × P j e
  unfolding position_of first_with
  position_of-first P used i [] e h found = absurd (cc)
  position_of-first P used i (x ∷ es) e (here, there) found =
      elim (Bool-cases (bytes_eq x.credential_id used)) [
        | inl same ↦
            let this : x ≡ e = cc (rw same at found) in (i, rw same, subst (λ t. P i t) this here)
        | inr other ↦
            let (j, at_j, p) = position_of-first P used (i + 1) es e there (rw other at found) in
            (j, rw other at_j, p)
      ]

  pub unseal_kwk-HasEntry :
      (kwk inner : Bytes) (i : ℕ) (e : Entry)
      → HasEntry w passphrase_key kwk inner i e
      → unseal_kwk w (combine_key w passphrase_key e.hmac_output) inner i ≡ some kwk
  unfolding unseal_kwk
  unseal_kwk-HasEntry kwk inner i e h =
      lawful.unseal-seal (combine_key w passphrase_key e.hmac_output) _ hw_slot_aad kwk _ h.sealed

  -- What unlocks the slot: no key where none is enrolled, or an authenticator that answers the
  -- challenge with the credential and the output of an entry.
  pub data Unlocks (vault_salt : Bytes) (es : List Entry) (a : Option Authenticator) : Type 0 where
    passphrase_alone : es ≡ [] → Unlocks vault_salt es a
    present :
        (authenticator : Authenticator) (e : Entry)
        → a ≡ some authenticator
        → es ≢ []
        → first_with e.credential_id es ≡ some e
        → authenticator (credentials es) (fido_salt_from_vault_salt w vault_salt)
          ≡ recognized e.credential_id e.hmac_output
        → Unlocks vault_salt es a

  pub open_master-IsInner :
      (c : Contents) (inner : Bytes)
      → IsInner w passphrase_key c inner
      → open_master w c.kwk inner
        ≡ ok (record {
          master_key = c.master_key;
          metadata_key = c.metadata_key;
          slot = 0;
          num_hw_keys = length c.entries;
        })
  unfolding open_master crypto_result
  open_master-IsInner c inner i =
      let lm = i.length_master in
      let whole : length (c.master_key ++ write_u32 32) == 36 ≡ true =
        let e = length-append c.master_key (write_u32 32) in
        let f = length-to_le 4 32 in ground arith in
      let tag : drop 32 (c.master_key ++ write_u32 32) ≡ write_u32 32 =
        drop-append 32 c.master_key (write_u32 32) (sym lm) in
      let key : take 32 (c.master_key ++ write_u32 32) ≡ c.master_key =
        take-append 32 c.master_key (write_u32 32) (sym lm) in
      let size : from_le (write_u32 32) ≡ 32 = from_le-to_le 4 32 (omega arith) in
      rw (i.master, whole, tag, size, key, i.metadata, i.count)
