-- ===== src/Format/Slot/Contents.antt =====
-- What a slot holds: the abstract view of slot.rs. The keys are a list, the layout is forgotten.
use farewell.Prelude.{
  ℕ, ◌+◌, ◌≤◌, ◌<◌, ◌-◌, ◌≡◌, refl, sym, ap, ◌∙◌, some, List, [], ◌∷◌, ◌++◌, Bytes, length, arith,
  All,
}
use mathlib.Core.Path.{subst}
use farewell.Bytes.{from_le, write_u32}
use farewell.Format.World.{World, nonce_len, tag_len}
use farewell.Format.Buffer.{read}
use farewell.Format.Slot.{
  Entry, max_cred_id_len, hw_slot_len, entry_offset, label_offset, label_len, master_wrap_offset,
  master_wrap_len, metadata_key_offset, metadata_key_len, kwk_len, inner_plaintext_len,
  inner_ciphertext_len, max_hw_keys_per_level, hw_slot_aad, slot_aad, master_aad, combine_key,
  no_hw_kwk, encode_label, read_count,
}

-- The keys that are enrolled, and what the slot protects.
pub record Contents : Type 0 where
  pub entries : List Entry
  pub kwk : Bytes
  pub master_key : Bytes
  pub metadata_key : Bytes

-- A credential that the layout can hold and the reader accepts.
pub record IsKey (e : Entry) : Type 0 where
  pub not_empty : 0 < length e.credential_id
  pub fits : length e.credential_id ≤ max_cred_id_len

-- A region of `n` bytes at `s` of `a` stands at `s'` of `b`.
abbrev pub Moved : ℕ → Bytes → ℕ → Bytes → ℕ → Type 0
Moved s a s' b n = (o o' k p : ℕ) → o ≡ s + p → o' ≡ s' + p → p + k ≤ n → read o' k b ≡ read o k a

-- Key `i`, `i + 1` and so on.
abbrev pub Indexed : (ℕ → Entry → Type 0) → ℕ → List Entry → Type 0
Indexed P i [] = Unit
Indexed P i (e ∷ es) = P i e × Indexed P (i + 1) es

pub Indexed-map :
    (P Q : ℕ → Entry → Type 0) (i n : ℕ) (es : List Entry)
    → i + length es ≤ n
    → ((j : ℕ) (e : Entry) → i ≤ j → j < n → P j e → Q j e)
    → Indexed P i es
    → Indexed Q i es
Indexed-map P Q i n [] h f ps = tt
Indexed-map P Q i n (e ∷ es) h f (p, ps) = (
  f i e (omega arith) (omega arith) p,
  Indexed-map P Q (i + 1) n es (omega arith) (λ j e below above. f j e (omega arith) above) ps,
)

pub Indexed-append :
    (P : ℕ → Entry → Type 0) (i n : ℕ) (es : List Entry) (e : Entry)
    → n ≡ i + length es
    → Indexed P i es
    → P n e
    → Indexed P i (es ++ (e ∷ []))
Indexed-append P i n [] e h ps p =
    let same : n ≡ i = omega arith in (subst (λ (k : ℕ). P k e) same p, tt)
Indexed-append P i n (x ∷ es) e h (q, ps) p =
    (q, Indexed-append P (i + 1) n es e (omega arith) ps p)

module _ (w : World) (passphrase_key kwk : Bytes) where
  -- The entry at `s` is the key's: its credential, and the KWK under the combined key.
  pub record HasEntryAt (s : ℕ) (inner : Bytes) (e : Entry) : Type 0 where
    pub cred_len : from_le (read s 2 inner) ≡ length e.credential_id
    pub cred : read (s + 2) (length e.credential_id) inner ≡ e.credential_id
    pub sealed :
        w.seal
          (combine_key w passphrase_key e.hmac_output)
          (read (s + 2 + max_cred_id_len) nonce_len inner)
          hw_slot_aad
          kwk
        ≡ some (read (s + 2 + max_cred_id_len + nonce_len) (kwk_len + tag_len) inner)

  pub HasEntryAt-move :
      (s s' : ℕ) (a b : Bytes) (e : Entry)
      → length e.credential_id ≤ max_cred_id_len
      → Moved s a s' b hw_slot_len
      → HasEntryAt s a e
      → HasEntryAt s' b e
  HasEntryAt-move s s' a b e fits m h = record {
    cred_len = ap from_le (m s s' 2 0 (omega arith) (omega arith) (omega arith)) ∙ h.cred_len;
    cred = m (s + 2) (s' + 2) (length e.credential_id) 2 refl refl (omega arith) ∙ h.cred;
    sealed =
        ap (λ n. w.seal (combine_key w passphrase_key e.hmac_output) n hw_slot_aad kwk)
          (m (s + 2 + max_cred_id_len) (s' + 2 + max_cred_id_len) nonce_len 258 (omega arith)
            (omega arith) (omega arith))
        ∙ h.sealed
        ∙ ap some (
            sym (
              m (s + 2 + max_cred_id_len + nonce_len) (s' + 2 + max_cred_id_len + nonce_len)
                (kwk_len + tag_len) 270 (omega arith) (omega arith) (omega arith)));
  }

  abbrev pub HasEntry : Bytes → ℕ → Entry → Type 0
  HasEntry inner i e = HasEntryAt (entry_offset i) inner e

abbrev pub HasLabel : Bytes → ℕ → Entry → Type 0
HasLabel inner i e = read (label_offset i) label_len inner ≡ encode_label e.label

-- The inner payload holds the contents.
pub record IsInner (w : World) (passphrase_key : Bytes) (c : Contents) (inner : Bytes)
    : Type 0 where
  pub whole : length inner ≡ inner_plaintext_len
  pub count : read_count inner ≡ length c.entries
  pub few : length c.entries ≤ max_hw_keys_per_level
  pub usable : All IsKey c.entries
  pub keys : Indexed (HasEntry w passphrase_key c.kwk inner) 0 c.entries
  pub labels : Indexed (HasLabel inner) 0 c.entries
  pub master :
      w.unseal c.kwk
        (read master_wrap_offset nonce_len inner)
        master_aad
        (read (master_wrap_offset + nonce_len) (master_wrap_len - nonce_len) inner)
      ≡ some (c.master_key ++ write_u32 32)
  pub metadata : read metadata_key_offset metadata_key_len inner ≡ c.metadata_key
  pub length_kwk : length c.kwk ≡ kwk_len
  pub length_master : length c.master_key ≡ 32
  pub without_keys : c.entries ≡ [] → c.kwk ≡ no_hw_kwk w passphrase_key

-- The slot holds the contents under the passphrase key.
pub record IsSlot (w : World) (passphrase_key : Bytes) (c : Contents) (slot : Bytes) : Type 0 where
  pub inner : Bytes
  pub opens :
      w.unseal passphrase_key
        (read 0 nonce_len slot)
        slot_aad
        (read nonce_len inner_ciphertext_len slot)
      ≡ some inner
  pub is_inner : IsInner w passphrase_key c inner
