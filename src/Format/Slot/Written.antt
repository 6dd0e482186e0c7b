-- ===== src/Format/Slot/Written.antt =====
-- What the writers of slot.rs leave in the inner payload.
use farewell.Prelude.{
  ℕ, ◌+◌, ◌-◌, ◌%◌, ◌^◌, ◌≤◌, ◌≡◌, refl, sym, ap, ◌∙◌, inl, inr, Bytes, length, arith, ltb,
  if◌then◌else◌, Bool-cases, some,
}
use farewell.Bytes.{from_le, write_u16, from_le-to_le, length-to_le}
use farewell.Format.Error.{Result, ok, panic}
use farewell.Format.World.{World, IsLawful, nonce_len, tag_len}
use farewell.Format.Chunk.{crypto_result}
use farewell.Format.Chunk.RoundTrip.{crypto_result-eq-ok}
use farewell.Format.Buffer.{read, write}
use farewell.Format.Buffer.Laws.{IsWritten, write-eq-ok, read-here}
use farewell.Format.Draws.{lift, fill}
use farewell.Format.Draws.Laws.{bind-eq-ok, length-fill}
use farewell.Format.Slot.{
  Entry, hw_slot_len, max_cred_id_len, kwk_len, hw_slot_aad, combine_key, entry_offset,
}
use farewell.Format.Slot.Wrap.{write_entry}
use farewell.Format.Slot.Contents.{HasEntry}

-- Only the bytes from `lo` up to `hi` may have changed.
pub record Touched (lo hi : ℕ) (a b : Bytes) : Type 0 where
  pub same_length : length b ≡ length a
  pub before : (o n : ℕ) → o + n ≤ lo → read o n b ≡ read o n a
  pub after : (o n : ℕ) → hi ≤ o → read o n b ≡ read o n a

pub Touched-refl : (lo hi : ℕ) (a : Bytes) → Touched lo hi a a
Touched-refl lo hi a = record { same_length = refl; before = λ o n h. refl; after = λ o n h. refl }

pub Touched-trans :
    (lo hi : ℕ) {a b c : Bytes} → Touched lo hi a b → Touched lo hi b c → Touched lo hi a c
Touched-trans lo hi p q = record {
  same_length = q.same_length ∙ p.same_length;
  before = λ o n h. q.before o n h ∙ p.before o n h;
  after = λ o n h. q.after o n h ∙ p.after o n h;
}

-- A write, as a change of a region around it.
pub IsWritten→Touched :
    (lo hi off : ℕ) {bytes a b : Bytes}
    → IsWritten off bytes a b
    → lo ≤ off
    → off + length bytes ≤ hi
    → Touched lo hi a b
IsWritten→Touched lo hi off h below above = record {
  same_length = h.same_length;
  before = λ o n q. h.before o n (omega arith);
  after = λ o n q. h.after o n (omega arith);
}

fits_or_panic :
    (cred : Bytes) (r : Result Bytes) {b : Bytes}
    → (if ltb max_cred_id_len (length cred) then panic else r) ≡ ok b
    → (length cred ≤ max_cred_id_len) × (r ≡ ok b)
fits_or_panic cred r h = elim (Bool-cases (ltb max_cred_id_len (length cred))) [
  | inl long ↦ absurd (cc (rw long at h))
  | inr short ↦ (ground arith, rw short at h)
]

module _ (w : World) (lawful : IsLawful w) (passphrase_key kwk : Bytes) where
  -- An entry that was written.
  pub record IsEntryWritten (i : ℕ) (e : Entry) (a b : Bytes) : Type 0 where
    pub fits : length e.credential_id ≤ max_cred_id_len
    pub touched : Touched (entry_offset i) (entry_offset i + hw_slot_len) a b
    pub entry : HasEntry w passphrase_key kwk b i e

  -- The five writes of an entry.
  IsEntryWritten-writes :
      (i : ℕ) (e : Entry) (a a1 a2 a3 a4 b tail nonce ct : Bytes)
      → length e.credential_id ≤ max_cred_id_len
      → length tail ≡ max_cred_id_len - length e.credential_id
      → length nonce ≡ nonce_len
      → length ct ≡ kwk_len + tag_len
      → w.seal (combine_key w passphrase_key e.hmac_output) nonce hw_slot_aad kwk ≡ some ct
      → IsWritten (entry_offset i) (write_u16 (length e.credential_id % 2 ^ 16)) a a1
      → IsWritten (entry_offset i + 2) e.credential_id a1 a2
      → IsWritten (entry_offset i + 2 + length e.credential_id) tail a2 a3
      → IsWritten (entry_offset i + 2 + max_cred_id_len) nonce a3 a4
      → IsWritten (entry_offset i + 2 + max_cred_id_len + nonce_len) ct a4 b
      → IsEntryWritten i e a b
  IsEntryWritten-writes i e a a1 a2 a3 a4 b tail nonce ct fits lt ln lc enc w1 w2 w3 w4 w5 =
      let lo = entry_offset i in
      let hi = entry_offset i + hw_slot_len in
      let cred = e.credential_id in
      let two : length (write_u16 (length cred % 2 ^ 16)) ≡ 2 =
        length-to_le 2 (length cred % 2 ^ 16) in
      let back = λ (o n : ℕ) (q : o + n ≤ lo + 2 + max_cred_id_len).
        w5.before o n (omega arith) ∙ w4.before o n q in
      record {
        fits = fits;
        touched =
            Touched-trans lo hi (IsWritten→Touched lo hi lo w1 (omega arith) (omega (arith, two))) (
              Touched-trans lo hi (IsWritten→Touched lo hi (lo + 2) w2 (omega arith) (omega arith))
                (Touched-trans lo hi
                  (IsWritten→Touched lo hi (lo + 2 + length cred) w3 (omega arith) (omega arith))
                  (Touched-trans lo hi
                    (IsWritten→Touched lo hi (lo + 2 + max_cred_id_len) w4 (omega arith)
                      (omega arith))
                    (IsWritten→Touched lo hi (lo + 2 + max_cred_id_len + nonce_len) w5 (omega arith)
                      (omega arith)))));
        entry = record {
          cred_len =
              ap from_le (
                back lo 2 (omega arith)
                ∙ w3.before lo 2 (omega arith)
                ∙ w2.before lo 2 (omega arith)
                ∙ read-here lo 2 w1 (sym two))
              ∙ from_le-to_le 2 (length cred % 2 ^ 16) (omega arith)
              ∙ small;
          cred =
              back (lo + 2) (length cred) (omega arith)
              ∙ w3.before (lo + 2) (length cred) (omega arith)
              ∙ read-here (lo + 2) (length cred) w2 refl;
          sealed =
              ap (λ n. w.seal (combine_key w passphrase_key e.hmac_output) n hw_slot_aad kwk)
                (w5.before (lo + 2 + max_cred_id_len) nonce_len (omega arith)
                  ∙ read-here (lo + 2 + max_cred_id_len) nonce_len w4 (omega arith))
              ∙ enc
              ∙ ap some (
                  sym (
                    read-here (lo + 2 + max_cred_id_len + nonce_len) (kwk_len + tag_len) w5
                      (omega arith)));
        };
      }
    where
      small : length e.credential_id % 2 ^ 16 ≡ length e.credential_id
      small = omega arith

  pub write_entry-IsEntryWritten :
      (i t : ℕ) (e : Entry) (a : Bytes) {b : Bytes}
      → length kwk ≡ kwk_len
      → (write_entry w passphrase_key kwk i e.credential_id e.hmac_output a t).0 ≡ ok b
      → IsEntryWritten i e a b
  unfolding write_entry
  write_entry-IsEntryWritten i t e a {b} key h =
      let start = entry_offset i in
      let cred = e.credential_id in
      let (a1, t1, put1, h1) =
        bind-eq-ok (lift (write start (write_u16 (length cred % 2 ^ 16)) a)) _ t h in
      let (a2, t2, put2, h2) =
        bind-eq-ok
          (lift (if ltb max_cred_id_len (length cred) then panic else write (start + 2) cred a1)) _
          t1 h1 in
      let (tail, t3, draw3, h3) = bind-eq-ok (fill w (max_cred_id_len - length cred)) _ t2 h2 in
      let (a3, t4, put3, h4) =
        bind-eq-ok (lift (write (start + 2 + length cred) tail a2)) _ t3 h3 in
      let (nonce, t5, draw4, h5) = bind-eq-ok (fill w nonce_len) _ t4 h4 in
      let (a4, t6, put4, h6) =
        bind-eq-ok (lift (write (start + 2 + max_cred_id_len) nonce a3)) _ t5 h5 in
      let (ct, t7, enc, put5) =
        bind-eq-ok
          (lift (
            crypto_result
              (w.seal (combine_key w passphrase_key e.hmac_output) nonce hw_slot_aad kwk)))
          _ t6 h6 in
      let (fits, put2') = fits_or_panic cred (write (start + 2) cred a1) put2 in
      let sealed =
        crypto_result-eq-ok
          (w.seal (combine_key w passphrase_key e.hmac_output) nonce hw_slot_aad kwk) enc in
      let long =
        lawful.length-seal (combine_key w passphrase_key e.hmac_output) nonce hw_slot_aad kwk ct
          sealed in
      IsEntryWritten-writes i e a a1 a2 a3 a4 b tail nonce ct fits
        (length-fill w lawful (max_cred_id_len - length cred) t2 draw3)
        (length-fill w lawful nonce_len t4 draw4) (omega (arith, long, key)) sealed
        (write-eq-ok start (write_u16 (length cred % 2 ^ 16)) a put1)
        (write-eq-ok (start + 2) cred a1 put2') (write-eq-ok (start + 2 + length cred) tail a2 put3)
        (write-eq-ok (start + 2 + max_cred_id_len) nonce a3 put4)
        (write-eq-ok (start + 2 + max_cred_id_len + nonce_len) ct a4 put5)
