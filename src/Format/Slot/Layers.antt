-- ===== src/Format/Slot/Layers.antt =====
-- The labels and the outer layer that slot.rs writes.
use farewell.Prelude.{
  ℕ, zero, suc, ◌+◌, ◌-◌, ◌≤◌, ◌≡◌, sym, ap, ◌∙◌, List, [], ◌∷◌, Bytes, length, take, replicate,
  arith, some, min, length-append, length-take, length-replicate,
}
use mathlib.Core.Path.{subst}
use farewell.Format.Error.{ok}
use farewell.Format.World.{World, IsLawful, nonce_len}
use farewell.Format.Chunk.{crypto_result}
use farewell.Format.Chunk.RoundTrip.{crypto_result-eq-ok}
use farewell.Format.Buffer.{read, write}
use farewell.Format.Buffer.Laws.{read-here, IsWritten, write-eq-ok}
use farewell.Format.Draws.{lift, fill}
use farewell.Format.Draws.Laws.{bind-eq-ok, length-fill}
use farewell.Format.Slot.{
  Entry, label_offset, label_len, char_floor, encode_label, slot_aad, slot_len, inner_plaintext_len,
  inner_ciphertext_len,
}
use farewell.Format.Slot.Wrap.{write_labels, assemble}
use farewell.Format.Slot.Contents.{Indexed, HasLabel}
use farewell.Format.Slot.Written.{Touched, Touched-refl, Touched-trans, IsWritten→Touched}

char_floor-le : (label : Bytes) (n : ℕ) → char_floor label n ≤ n
unfolding char_floor
char_floor-le label zero = omega arith
char_floor-le label (suc n) = ground (arith, char_floor-le label n)

pub length-encode_label : (label : Bytes) → length (encode_label label) ≡ label_len
unfolding encode_label
length-encode_label label =
    let n = char_floor label (min (length label) label_len) in
    omega (
      arith,
      char_floor-le label (min (length label) label_len),
      length-append (take n label) (replicate (label_len - n) 0),
      length-take n label,
      length-replicate {A = ℕ} (label_len - n) 0,
    )

module _ (w : World) (lawful : IsLawful w) where
  -- The labels that were written.
  pub record IsLabelled (i places : ℕ) (es : List Entry) (a b : Bytes) : Type 0 where
    pub touched : Touched (label_offset i) (label_offset (i + places)) a b
    pub labels : Indexed (HasLabel b) i es

  -- What is written behind a label leaves it.
  label_first :
      (i places : ℕ) (e : Entry) (es : List Entry) (a next b : Bytes)
      → IsWritten (label_offset i) (encode_label e.label) a next
      → IsLabelled (i + 1) places es next b
      → IsLabelled i (suc places) (e ∷ es) a b
  label_first i places e es a next b put rest =
      let lo = label_offset i in
      let hi = label_offset (i + suc places) in
      let long = length-encode_label e.label in
      record {
        touched =
            Touched-trans lo hi (IsWritten→Touched lo hi lo put (omega arith) (omega (arith, long)))
              (record {
                same_length = rest.touched.same_length;
                before = λ o n q. rest.touched.before o n (omega arith);
                after = λ o n q. rest.touched.after o n (omega arith);
              });
        labels = (
          rest.touched.before lo label_len (omega arith) ∙ read-here lo label_len put (sym long),
          rest.labels,
        );
      }

  pub write_labels-IsLabelled :
      (places i t : ℕ) (es : List Entry) (a : Bytes) {b : Bytes}
      → length es ≤ places
      → (write_labels w places i es a t).0 ≡ ok b
      → IsLabelled i places es a b
  unfolding write_labels
  write_labels-IsLabelled zero i t [] a {b} few h =
      let same : a ≡ b = cc in
      subst (IsLabelled i 0 [] a) same (record { touched = Touched-refl _ _ a; labels = tt })
  write_labels-IsLabelled zero i t (e ∷ es) a few h = absurd (omega arith)
  write_labels-IsLabelled (suc places) i t [] a few h =
      let (random, t1, draw, h1) = bind-eq-ok (fill w label_len) _ t h in
      let (next, t2, put, h2) = bind-eq-ok (lift (write (label_offset i) random a)) _ t1 h1 in
      let rest = write_labels-IsLabelled places (i + 1) t2 [] next (omega arith) h2 in
      let long = length-fill w lawful label_len t draw in
      let lo = label_offset i in
      let hi = label_offset (i + suc places) in
      record {
        touched =
            Touched-trans lo hi
              (IsWritten→Touched lo hi lo (write-eq-ok lo random a put) (omega arith)
                (omega (arith, long)))
              (record {
                same_length = rest.touched.same_length;
                before = λ o n q. rest.touched.before o n (omega arith);
                after = λ o n q. rest.touched.after o n (omega arith);
              });
        labels = tt;
      }
  write_labels-IsLabelled (suc places) i t (e ∷ es) a {b} few h =
      let (next, t1, put, h1) =
        bind-eq-ok (lift (write (label_offset i) (encode_label e.label) a)) _ t h in
      label_first i places e es a next b (write-eq-ok (label_offset i) (encode_label e.label) a put)
        (write_labels-IsLabelled places (i + 1) t1 es next (omega arith) h1)

  -- The outer layer decrypts to what was put in.
  pub assemble-opens :
      (passphrase_key inner : Bytes) (t : ℕ) {slot : Bytes}
      → length inner ≡ inner_plaintext_len
      → (assemble w passphrase_key inner t).0 ≡ ok slot
      → w.unseal passphrase_key
          (read 0 nonce_len slot)
          slot_aad
          (read nonce_len inner_ciphertext_len slot)
        ≡ some inner
  unfolding assemble
  assemble-opens passphrase_key inner t {slot} whole h =
      let (nonce, t1, draw, h1) = bind-eq-ok (fill w nonce_len) _ t h in
      let (ct, t2, enc, h2) =
        bind-eq-ok (lift (crypto_result (w.seal passphrase_key nonce slot_aad inner))) _ t1 h1 in
      let (s1, t3, put1, h3) = bind-eq-ok (lift (write 0 nonce (replicate slot_len 0))) _ t2 h2 in
      let (s2, t4, put2, h4) = bind-eq-ok (lift (write nonce_len ct s1)) _ t3 h3 in
      let (padding, t5, draw2, put3) =
        bind-eq-ok (fill w (slot_len - (nonce_len + length ct))) _ t4 h4 in
      let sealed = crypto_result-eq-ok (w.seal passphrase_key nonce slot_aad inner) enc in
      let long = lawful.length-seal passphrase_key nonce slot_aad inner ct sealed in
      let ln = length-fill w lawful nonce_len t draw in
      let w1 = write-eq-ok 0 nonce (replicate slot_len 0) put1 in
      let w2 = write-eq-ok nonce_len ct s1 put2 in
      let w3 = write-eq-ok (nonce_len + length ct) padding s2 put3 in
      let front : read 0 nonce_len slot ≡ nonce =
        w3.before 0 nonce_len (omega arith)
        ∙ w2.before 0 nonce_len (omega arith)
        ∙ read-here 0 nonce_len w1 (sym ln) in
      let back : read nonce_len inner_ciphertext_len slot ≡ ct =
        w3.before nonce_len inner_ciphertext_len (omega (arith, long, whole))
        ∙ read-here nonce_len inner_ciphertext_len w2 (omega (arith, long, whole)) in
      ap (λ n. w.unseal passphrase_key n slot_aad (read nonce_len inner_ciphertext_len slot)) front
      ∙ ap (w.unseal passphrase_key nonce slot_aad) back
      ∙ lawful.unseal-seal passphrase_key nonce slot_aad inner ct sealed
