-- ===== src/Format/Slot/Added.antt =====
-- `WrappedSlot::add_credential` of slot.rs enrolls one key more and keeps the others.
use farewell.Prelude.{
  ℕ, ◌+◌, ◌%◌, ◌^◌, ◌≤◌, ◌<◌, ◌≡◌, sym, ap, ◌∙◌, ◌⊎◌, inl, inr, true, false, not, Option, none,
  some, List, [], ◌∷◌, ◌++◌, Bytes, length, arith, All, ltb, leb, ◌==◌, ◌||◌, length-append,
}
use mathlib.Core.Path.{subst}
use farewell.Format.Error.{ok, manifest, require, require-eq-ok}
use farewell.Format.Error.{invalid_new_credential, no_free_hw_slot}
use farewell.Format.World.{World, IsLawful, nonce_len}
use farewell.Format.Buffer.{read, write}
use farewell.Format.Buffer.Laws.{read-here, IsWritten, write-eq-ok}
use farewell.Format.Draws.{lift}
use farewell.Format.Draws.Laws.{bind-eq-ok}
use farewell.Format.Slot.{
  Entry, kwk_len, label_offset, label_len, metadata_key_len, hw_slot_aad, master_aad, combine_key,
  unseal_kwk, encode_label, decrypt_outer, read_count, max_cred_id_len, max_hw_keys_per_level,
  master_wrap_offset,
}
use farewell.Format.Slot.Keys.{
  accept, try_entries, recover_kwk_with_hmac, recover_present, present_kwk,
}
use farewell.Format.Slot.Wrap.{write_entry, assemble}
use farewell.Format.Slot.Enroll.{add_credential}
use farewell.Format.Slot.Contents.{
  Contents, IsKey, Indexed, Indexed-append, HasEntry, HasLabel, IsInner, IsSlot,
}
use farewell.Format.Slot.Written.{IsEntryWritten, write_entry-IsEntryWritten}
use farewell.Format.Slot.Layers.{length-encode_label, assemble-opens}
use farewell.Format.Slot.Wrapped.{count_written}
use farewell.Format.Slot.Opened.{decrypt_outer-IsInner, unseal_kwk-HasEntry}
use farewell.Format.Slot.Kept.{keys_keep, labels_keep}

pub All-snoc :
    (P : Entry → Type 0) (es : List Entry) (e : Entry) → All P es → P e → All P (es ++ (e ∷ []))
All-snoc P [] e h p = (p, tt)
All-snoc P (x ∷ es) e (q, h) p = (q, All-snoc P es e h p)

module _ (w : World) (lawful : IsLawful w) (passphrase_key : Bytes) where
  -- What an entry wraps does not decrypt under the key that a given output combines to.
  abbrev pub Rejects : Bytes → Bytes → Entry → Type 0
  Rejects kwk hmac e =
      (n ct : Bytes)
      → w.seal (combine_key w passphrase_key e.hmac_output) n hw_slot_aad kwk ≡ some ct
      → w.unseal (combine_key w passphrase_key hmac) n hw_slot_aad ct ≡ none

  -- The output is that of an enrolled key, and the entries before it reject it.
  abbrev pub Recovers : Bytes → Bytes → List Entry → Type 0
  Recovers kwk hmac [] = ⊥
  Recovers kwk hmac (e ∷ es) = (e.hmac_output ≡ hmac) ⊎ (Rejects kwk hmac e × Recovers kwk hmac es)

  refused_at :
      (kwk hmac inner : Bytes) (i : ℕ) (e : Entry)
      → HasEntry w passphrase_key kwk inner i e
      → Rejects kwk hmac e
      → unseal_kwk w (combine_key w passphrase_key hmac) inner i ≡ none
  unfolding unseal_kwk
  refused_at kwk hmac inner i e here rejects = rejects _ _ here.sealed

  try_entries-Recovers :
      (kwk hmac inner : Bytes) (i : ℕ) (es : List Entry)
      → length kwk ≡ kwk_len
      → Indexed (HasEntry w passphrase_key kwk inner) i es
      → Recovers kwk hmac es
      → try_entries w (combine_key w passphrase_key hmac) inner i (length es) ≡ ok kwk
  unfolding try_entries
  try_entries-Recovers kwk hmac inner i [] long h r = absurd r
  try_entries-Recovers kwk hmac inner i (e ∷ es) long (here, there) (inl same) =
      let found : unseal_kwk w (combine_key w passphrase_key hmac) inner i ≡ some kwk =
        subst (λ t. unseal_kwk w (combine_key w passphrase_key t) inner i ≡ some kwk) same
          (unseal_kwk-HasEntry w lawful passphrase_key kwk inner i e here) in
      let right : (length kwk == kwk_len) ≡ true = ground arith in
      ap
        (λ o.
          accept o (try_entries w (combine_key w passphrase_key hmac) inner (i + 1) (length es)))
        found
      ∙ rw right
  try_entries-Recovers kwk hmac inner i (e ∷ es) long (here, there) (inr (rejects, later)) =
      let refused : unseal_kwk w (combine_key w passphrase_key hmac) inner i ≡ none =
        refused_at kwk hmac inner i e here rejects in
      ap
        (λ o.
          accept o (try_entries w (combine_key w passphrase_key hmac) inner (i + 1) (length es)))
        refused
      ∙ try_entries-Recovers kwk hmac inner (i + 1) es long there later

  -- What recovers the KWK: the passphrase where no key is enrolled, an enrolled key otherwise.
  abbrev pub Present : Contents → Option Bytes → Type 0
  Present c recover_hmac =
      (c.entries ≡ [])
      ⊎ ((hmac : Bytes) × (recover_hmac ≡ some hmac) × Recovers c.kwk hmac c.entries)

  occupied : (kwk hmac : Bytes) (es : List Entry) → Recovers kwk hmac es → (length es == 0) ≡ false
  occupied kwk hmac [] r = absurd r
  occupied kwk hmac (e ∷ es) r = ground arith

  present_kwk-Present :
      (c : Contents) (inner : Bytes) (recover_hmac : Option Bytes)
      → IsInner w passphrase_key c inner
      → Present c recover_hmac
      → present_kwk w passphrase_key inner recover_hmac ≡ ok c.kwk
  unfolding present_kwk recover_present recover_kwk_with_hmac
  present_kwk-Present c inner recover_hmac i (inl e) =
      let none' : (read_count inner == 0) ≡ true = ap (λ n. n == 0) (i.count ∙ ap length e) in
      rw none' (ap ok (sym (i.without_keys e)))
  present_kwk-Present c inner recover_hmac i (inr (hmac, e, r)) =
      let tried = try_entries-Recovers c.kwk hmac inner 0 c.entries i.length_kwk i.keys r in
      let more : (read_count inner == 0) ≡ false =
        ap (λ n. n == 0) i.count ∙ occupied c.kwk hmac c.entries r in
      rw (more, e, i.count) tried

  -- The writes of `add_credential` into the inner payload, put together.
  IsInner-added :
      (c : Contents) (e : Entry) (k : ℕ) (a0 a1 a2 a3 : Bytes)
      → IsInner w passphrase_key c a0
      → k ≡ length c.entries
      → k < max_hw_keys_per_level
      → IsKey e
      → IsEntryWritten w lawful passphrase_key c.kwk k e a0 a1
      → IsWritten (label_offset k) (encode_label e.label) a1 a2
      → IsWritten 0 ((k + 1) % 2 ^ 8 ∷ []) a2 a3
      → IsInner w passphrase_key (record c { entries = c.entries ++ (e ∷ []) }) a3
  unfolding read_count
  IsInner-added c e k a0 a1 a2 a3 i at_end room key put lab cnt =
      let long = length-encode_label e.label in
      let more : length (c.entries ++ (e ∷ [])) ≡ k + 1 =
        omega (arith, length-append c.entries (e ∷ [])) in
      let later =
        λ (o n : ℕ) (q : 1 ≤ o) (r : o + n ≤ label_offset k). cnt.after o n q ∙ lab.before o n r in
      let behind = λ (o n : ℕ) (q : master_wrap_offset ≤ o) (r : o + n ≤ label_offset k).
        later o n (omega arith) r ∙ put.touched.after o n (omega arith) in
      record {
        whole = cnt.same_length ∙ lab.same_length ∙ put.touched.same_length ∙ i.whole;
        count = count_written w lawful (k + 1) a2 a3 (omega arith) cnt ∙ sym more;
        few = omega (arith, more);
        usable = All-snoc IsKey c.entries e i.usable key;
        keys =
            Indexed-append (HasEntry w passphrase_key c.kwk a3) 0 k c.entries e (omega arith)
              (keys_keep w passphrase_key c.kwk 0 c.entries a0 a3 i.usable
                (λ o n below above.
                  later o n (omega arith) (omega arith) ∙ put.touched.before o n (omega arith))
                i.keys)
              (let moved =
                  keys_keep w passphrase_key c.kwk k (e ∷ []) a1 a3 (key, tt)
                    (λ o n below above. later o n (omega arith) (omega arith)) (put.entry, tt) in
                moved.0);
        labels =
            Indexed-append (HasLabel a3) 0 k c.entries e (omega arith)
              (labels_keep 0 c.entries a0 a3
                (λ o n below above. behind o n (omega arith) (omega arith)) i.labels)
              (cnt.after (label_offset k) label_len (omega arith)
                ∙ read-here (label_offset k) label_len lab (sym long));
        master =
            ap (λ n. w.unseal c.kwk n master_aad (read 967 52 a3))
              (behind master_wrap_offset nonce_len (omega arith) (omega arith))
            ∙ ap (w.unseal c.kwk (read master_wrap_offset nonce_len a0) master_aad)
                (behind 967 52 (omega arith) (omega arith))
            ∙ i.master;
        metadata = behind 1019 metadata_key_len (omega arith) (omega arith) ∙ i.metadata;
        length_kwk = i.length_kwk;
        length_master = i.length_master;
        without_keys = λ empty. absurd (omega (arith, more, ap length empty));
      }

  IsSlot-added :
      (c : Contents) (kwk : Bytes) (e : Entry) (k t : ℕ) (a0 a1 a2 a3 slot' : Bytes)
      → IsInner w passphrase_key c a0
      → k ≡ length c.entries
      → k < max_hw_keys_per_level
      → IsKey e
      → c.kwk ≡ kwk
      → IsEntryWritten w lawful passphrase_key kwk k e a0 a1
      → IsWritten (label_offset k) (encode_label e.label) a1 a2
      → IsWritten 0 ((k + 1) % 2 ^ 8 ∷ []) a2 a3
      → (assemble w passphrase_key a3 t).0 ≡ ok slot'
      → IsSlot w passphrase_key (record c { entries = c.entries ++ (e ∷ []) }) slot'
  IsSlot-added c kwk e k t a0 a1 a2 a3 slot' i at_end room key same put lab cnt h =
      let put' = subst (λ x. IsEntryWritten w lawful passphrase_key x k e a0 a1) (sym same) put in
      let inner = IsInner-added c e k a0 a1 a2 a3 i at_end room key put' lab cnt in
      record {
        inner = a3;
        opens = assemble-opens w lawful passphrase_key a3 t inner.whole h;
        is_inner = inner;
      }

  new_credential :
      (cred : Bytes)
      → not (length cred == 0 || ltb max_cred_id_len (length cred)) ≡ true
      → (0 < length cred) × (length cred ≤ max_cred_id_len)
  new_credential cred h = (ground arith, ground arith)

  room_left : (k : ℕ) → not (leb max_hw_keys_per_level k) ≡ true → k < max_hw_keys_per_level
  room_left k h = ground arith

  -- A key that was added to a slot, under the passphrase and an enrolled key that is present if there
  -- is one, stands behind the others; these, the master key, the metadata key and the key-wrapping key
  -- are as before.
  pub add_credential-IsSlot :
      (c : Contents) (slot slot' : Bytes) (recover_hmac : Option Bytes) (e : Entry) (t : ℕ)
      → IsSlot w passphrase_key c slot
      → Present c recover_hmac
      → (add_credential w slot passphrase_key recover_hmac e.credential_id e.hmac_output e.label
          t).0
        ≡ ok slot'
      → IsSlot w passphrase_key (record c { entries = c.entries ++ (e ∷ []) }) slot'
  unfolding add_credential
  add_credential-IsSlot c slot slot' recover_hmac e t s present h =
      let cred = e.credential_id in
      let (u, t1, tested, h1) =
        bind-eq-ok
          (lift (
            require (not (length cred == 0 || ltb max_cred_id_len (length cred)))
              (manifest invalid_new_credential)))
          _ t h in
      let (a0, t2, opened, h2) = bind-eq-ok (lift (decrypt_outer w slot passphrase_key)) _ t1 h1 in
      let k = read_count a0 in
      let (u', t3, room, h3) =
        bind-eq-ok (lift (require (not (leb max_hw_keys_per_level k)) (manifest no_free_hw_slot))) _
          t2 h2 in
      let (kwk, t4, recovered, h4) =
        bind-eq-ok (lift (present_kwk w passphrase_key a0 recover_hmac)) _ t3 h3 in
      let (a1, t5, put, h5) =
        bind-eq-ok (write_entry w passphrase_key kwk k cred e.hmac_output a0) _ t4 h4 in
      let (a2, t6, lab, h6) =
        bind-eq-ok (lift (write (label_offset k) (encode_label e.label) a1)) _ t5 h5 in
      let (a3, t7, cnt, h7) = bind-eq-ok (lift (write 0 ((k + 1) % 2 ^ 8 ∷ []) a2)) _ t6 h6 in
      let i = decrypt_outer-IsInner w lawful passphrase_key c slot a0 s opened in
      let kept : c.kwk ≡ kwk = cc (present_kwk-Present c a0 recover_hmac i present) in
      let (more, fits) = new_credential cred (require-eq-ok _ _ tested) in
      let few = room_left k (require-eq-ok _ _ room) in
      let key : IsKey e = record { not_empty = more; fits = fits } in
      let long : length kwk ≡ kwk_len = ap length (sym kept) ∙ i.length_kwk in
      IsSlot-added c kwk e k t7 a0 a1 a2 a3 slot' i i.count few key kept
        (write_entry-IsEntryWritten w lawful passphrase_key kwk k t4 e a0 long put)
        (write-eq-ok (label_offset k) (encode_label e.label) a1 lab)
        (write-eq-ok 0 ((k + 1) % 2 ^ 8 ∷ []) a2 cnt) h7
