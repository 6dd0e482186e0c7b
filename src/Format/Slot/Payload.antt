-- ===== src/Format/Slot/Payload.antt =====
-- The entries and the master key that slot.rs writes into the inner payload.
use farewell.Prelude.{
  ℕ, zero, suc, ◌+◌, ◌-◌, ◌≤◌, ◌≡◌, sym, ap, ◌∙◌, List, [], ◌∷◌, ◌++◌, Bytes, length, arith, some,
  length-append,
}
use mathlib.Core.Path.{subst}
use farewell.Bytes.{write_u32, length-to_le}
use farewell.Format.Error.{ok}
use farewell.Format.World.{World, IsLawful, nonce_len}
use farewell.Format.Chunk.{crypto_result}
use farewell.Format.Chunk.RoundTrip.{crypto_result-eq-ok}
use farewell.Format.Buffer.{read, write}
use farewell.Format.Buffer.Laws.{read-here, write-eq-ok}
use farewell.Format.Draws.{lift, fill}
use farewell.Format.Draws.Laws.{bind-eq-ok, length-fill}
use farewell.Format.Slot.{
  Entry, hw_slot_len, max_cred_id_len, kwk_len, entry_offset, master_wrap_offset, master_wrap_len,
  metadata_key_offset, metadata_key_len, labels_offset, master_aad,
}
use farewell.Format.Slot.Wrap.{write_entry, write_entries, write_master}
use farewell.Format.Slot.Contents.{Indexed, HasEntry, HasEntryAt-move}
use farewell.Format.Slot.Written.{
  Touched, Touched-refl, Touched-trans, IsWritten→Touched, IsEntryWritten,
  write_entry-IsEntryWritten,
}

-- An entry stands where nothing before the end of its place has changed.
pub HasEntry-before :
    (w : World) (passphrase_key kwk : Bytes) (lo hi i : ℕ) (e : Entry) (a b : Bytes)
    → length e.credential_id ≤ max_cred_id_len
    → entry_offset (i + 1) ≤ lo
    → Touched lo hi a b
    → HasEntry w passphrase_key kwk a i e
    → HasEntry w passphrase_key kwk b i e
HasEntry-before w passphrase_key kwk lo hi i e a b fits below t h =
    HasEntryAt-move w passphrase_key kwk (entry_offset i) (entry_offset i) a b e fits
      (λ o o' k p q q' r.
        let same : o' ≡ o = q' ∙ sym q in
        ap (λ (x : ℕ). read x k b) same ∙ t.before o k (omega arith))
      h

-- An entry stands where only what lies in front of it has changed.
pub HasEntry-after :
    (w : World) (passphrase_key kwk : Bytes) (lo hi i : ℕ) (e : Entry) (a b : Bytes)
    → length e.credential_id ≤ max_cred_id_len
    → hi ≤ entry_offset i
    → Touched lo hi a b
    → HasEntry w passphrase_key kwk a i e
    → HasEntry w passphrase_key kwk b i e
HasEntry-after w passphrase_key kwk lo hi i e a b fits above t h =
    HasEntryAt-move w passphrase_key kwk (entry_offset i) (entry_offset i) a b e fits
      (λ o o' k p q q' r.
        let same : o' ≡ o = q' ∙ sym q in
        ap (λ (x : ℕ). read x k b) same ∙ t.after o k (omega arith))
      h

abbrev pub Fits : Entry → Type 0
Fits e = length e.credential_id ≤ max_cred_id_len

module _ (w : World) (lawful : IsLawful w) where
  -- The entries that were written.
  pub record IsEnrolled (passphrase_key kwk : Bytes) (i places : ℕ) (es : List Entry) (a b : Bytes)
      : Type 0 where
    pub touched : Touched (entry_offset i) (entry_offset (i + places)) a b
    pub keys : Indexed (HasEntry w passphrase_key kwk b) i es

  entry_first :
      (passphrase_key kwk : Bytes) (i places : ℕ) (e : Entry) (es : List Entry) (a next b : Bytes)
      → IsEntryWritten w lawful passphrase_key kwk i e a next
      → IsEnrolled passphrase_key kwk (i + 1) places es next b
      → IsEnrolled passphrase_key kwk i (suc places) (e ∷ es) a b
  entry_first passphrase_key kwk i places e es a next b put rest = record {
    touched =
        Touched-trans (entry_offset i) (entry_offset (i + suc places))
          (record {
            same_length = put.touched.same_length;
            before = λ o n q. put.touched.before o n q;
            after = λ o n q. put.touched.after o n (omega arith);
          })
          (record {
            same_length = rest.touched.same_length;
            before = λ o n q. rest.touched.before o n (omega arith);
            after = λ o n q. rest.touched.after o n (omega arith);
          });
    keys = (
      HasEntry-before w passphrase_key kwk (entry_offset (i + 1)) (entry_offset (i + 1 + places)) i
          e next b put.fits (omega arith) rest.touched put.entry,
      rest.keys,
    );
  }

  pub write_entries-IsEnrolled :
      (passphrase_key kwk : Bytes) (places i t : ℕ) (es : List Entry) (a : Bytes) {b : Bytes}
      → length kwk ≡ kwk_len
      → length es ≤ places
      → (write_entries w passphrase_key kwk places i es a t).0 ≡ ok b
      → IsEnrolled passphrase_key kwk i places es a b
  unfolding write_entries
  write_entries-IsEnrolled passphrase_key kwk zero i t [] a {b} key few h =
      let same : a ≡ b = cc in
      subst (IsEnrolled passphrase_key kwk i 0 [] a) same
        (record { touched = Touched-refl _ _ a; keys = tt })
  write_entries-IsEnrolled passphrase_key kwk zero i t (e ∷ es) a key few h = absurd (omega arith)
  write_entries-IsEnrolled passphrase_key kwk (suc places) i t [] a key few h =
      let (random, t1, draw, h1) = bind-eq-ok (fill w hw_slot_len) _ t h in
      let (next, t2, put, h2) = bind-eq-ok (lift (write (entry_offset i) random a)) _ t1 h1 in
      let rest =
        write_entries-IsEnrolled passphrase_key kwk places (i + 1) t2 [] next key (omega arith)
          h2 in
      let long = length-fill w lawful hw_slot_len t draw in
      let lo = entry_offset i in
      let hi = entry_offset (i + suc places) in
      record {
        touched =
            Touched-trans lo hi
              (IsWritten→Touched lo hi lo (write-eq-ok lo random a put) (omega arith)
                (omega (arith, long)))
              (record {
                same_length = rest.touched.same_length;
                before = λ o n q. rest.touched.before o n (omega arith);
                after = λ o n q. rest.touched.after o n (omega arith);
              });
        keys = tt;
      }
  write_entries-IsEnrolled passphrase_key kwk (suc places) i t (e ∷ es) a {b} key few h =
      let (next, t1, put, h1) =
        bind-eq-ok (write_entry w passphrase_key kwk i e.credential_id e.hmac_output a) _ t h in
      entry_first passphrase_key kwk i places e es a next b
        (write_entry-IsEntryWritten w lawful passphrase_key kwk i t e a key put)
        (write_entries-IsEnrolled passphrase_key kwk places (i + 1) t1 es next key (omega arith) h1)

  -- The wrap of the master key and the metadata key, as they were written.
  pub record IsMasterWritten (kwk master_key metadata_key a b : Bytes) : Type 0 where
    pub touched : Touched master_wrap_offset labels_offset a b
    pub master :
        w.unseal kwk
          (read master_wrap_offset nonce_len b)
          master_aad
          (read (master_wrap_offset + nonce_len) (master_wrap_len - nonce_len) b)
        ≡ some (master_key ++ write_u32 32)
    pub metadata : read metadata_key_offset metadata_key_len b ≡ metadata_key

  pub write_master-IsMasterWritten :
      (kwk master_key metadata_key : Bytes) (t : ℕ) (a : Bytes) {b : Bytes}
      → length master_key ≡ 32
      → length metadata_key ≡ metadata_key_len
      → (write_master w kwk master_key metadata_key a t).0 ≡ ok b
      → IsMasterWritten kwk master_key metadata_key a b
  unfolding write_master
  write_master-IsMasterWritten kwk master_key metadata_key t a {b} lm lk h =
      let payload = master_key ++ write_u32 32 in
      let (nonce, t1, draw, h1) = bind-eq-ok (fill w nonce_len) _ t h in
      let (ct, t2, enc, h2) =
        bind-eq-ok (lift (crypto_result (w.seal kwk nonce master_aad payload))) _ t1 h1 in
      let (a1, t3, put1, h3) = bind-eq-ok (lift (write master_wrap_offset nonce a)) _ t2 h2 in
      let (a2, t4, put2, put3) =
        bind-eq-ok (lift (write (master_wrap_offset + nonce_len) ct a1)) _ t3 h3 in
      let sealed = crypto_result-eq-ok (w.seal kwk nonce master_aad payload) enc in
      let long : length ct ≡ 52 = omega (
        arith,
        lawful.length-seal kwk nonce master_aad payload ct sealed,
        length-append master_key (write_u32 32),
        length-to_le 4 32,
      ) in
      let ln = length-fill w lawful nonce_len t draw in
      let w1 = write-eq-ok master_wrap_offset nonce a put1 in
      let w2 = write-eq-ok (master_wrap_offset + nonce_len) ct a1 put2 in
      let w3 = write-eq-ok metadata_key_offset metadata_key a2 put3 in
      let lo = master_wrap_offset in
      let hi = labels_offset in
      let front : read master_wrap_offset nonce_len b ≡ nonce =
        w3.before lo nonce_len (omega arith)
        ∙ w2.before lo nonce_len (omega arith)
        ∙ read-here lo nonce_len w1 (sym ln) in
      let back : read (master_wrap_offset + nonce_len) (master_wrap_len - nonce_len) b ≡ ct =
        w3.before (lo + nonce_len) 52 (omega arith) ∙ read-here (lo + nonce_len) 52 w2 (sym long) in
      record {
        touched =
            Touched-trans lo hi (IsWritten→Touched lo hi lo w1 (omega arith) (omega (arith, ln))) (
              Touched-trans lo hi
                (IsWritten→Touched lo hi (lo + nonce_len) w2 (omega arith) (omega (arith, long)))
                (IsWritten→Touched lo hi metadata_key_offset w3 (omega arith) (omega (arith, lk))));
        master =
            ap
              (λ n.
                w.unseal kwk n master_aad
                  (read (master_wrap_offset + nonce_len) (master_wrap_len - nonce_len) b))
              front
            ∙ ap (w.unseal kwk nonce master_aad) back
            ∙ lawful.unseal-seal kwk nonce master_aad payload ct sealed;
        metadata = read-here metadata_key_offset metadata_key_len w3 (sym lk);
      }
