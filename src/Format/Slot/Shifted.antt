-- ===== src/Format/Slot/Shifted.antt =====
-- The loop of `WrappedSlot::remove_credential` of slot.rs moves entries and labels down by one place.
use farewell.Prelude.{
  ℕ, zero, suc, ◌+◌, ◌≤◌, ◌<◌, ◌≡◌, refl, sym, ap, ◌∙◌, List, [], ◌∷◌, Bytes, length, arith, All,
}
use mathlib.Core.Path.{subst}
use farewell.Format.Error.{ok}
use farewell.Format.World.{World}
use farewell.Format.Buffer.{read, write}
use farewell.Format.Buffer.Laws.{read-here, IsWritten, write-eq-ok, length-read, read-read}
use farewell.Format.Draws.{lift}
use farewell.Format.Draws.Laws.{bind-eq-ok}
use farewell.Format.Slot.{
  Entry, entry_offset, label_offset, label_len, hw_slot_len, inner_plaintext_len,
}
use farewell.Format.Slot.Enroll.{shift_down}
use farewell.Format.Slot.Contents.{IsKey, Indexed, HasEntry, HasEntryAt-move, HasLabel}
use farewell.Format.Slot.Kept.{keys_keep, labels_keep}

module _ (w : World) (passphrase_key kwk : Bytes) where
  -- What the loop leaves from place `i` on, for `n` places.
  pub record IsShifted (i n : ℕ) (a b : Bytes) : Type 0 where
    pub same_length : length b ≡ length a
    pub front : (o k : ℕ) → o + k ≤ entry_offset i → read o k b ≡ read o k a
    pub middle :
        (o k : ℕ) → entry_offset (i + n) ≤ o → o + k ≤ label_offset i → read o k b ≡ read o k a
    pub keys :
        (es : List Entry)
        → length es ≡ n
        → All IsKey es
        → Indexed (HasEntry w passphrase_key kwk a) (i + 1) es
        → Indexed (HasEntry w passphrase_key kwk b) i es
    pub labels :
        (es : List Entry)
        → length es ≡ n
        → Indexed (HasLabel a) (i + 1) es
        → Indexed (HasLabel b) i es

  no_keys :
      (i : ℕ) (a : Bytes) (es : List Entry)
      → length es ≡ 0
      → All IsKey es
      → Indexed (HasEntry w passphrase_key kwk a) (i + 1) es
      → Indexed (HasEntry w passphrase_key kwk a) i es
  no_keys i a [] e usable h = tt
  no_keys i a (x ∷ es) e usable h = absurd (omega arith)

  no_labels :
      (i : ℕ) (a : Bytes) (es : List Entry)
      → length es ≡ 0
      → Indexed (HasLabel a) (i + 1) es
      → Indexed (HasLabel a) i es
  no_labels i a [] e h = tt
  no_labels i a (x ∷ es) e h = absurd (omega arith)

  IsShifted-refl : (i : ℕ) (a : Bytes) → IsShifted i 0 a a
  IsShifted-refl i a = record {
    same_length = refl;
    front = λ o k q. refl;
    middle = λ o k q r. refl;
    keys = no_keys i a;
    labels = no_labels i a;
  }

  -- An entry that was moved, and a label.
  moved_key :
      (i : ℕ) (e : Entry) (a a1 a2 b : Bytes)
      → length a ≡ inner_plaintext_len
      → i < 2
      → IsKey e
      → IsWritten (entry_offset i) (read (entry_offset (i + 1)) hw_slot_len a) a a1
      → IsWritten (label_offset i) (read (label_offset (i + 1)) label_len a1) a1 a2
      → ((o k : ℕ) → o + k ≤ entry_offset (i + 1) → read o k b ≡ read o k a2)
      → HasEntry w passphrase_key kwk a (i + 1) e
      → HasEntry w passphrase_key kwk b i e
  moved_key i e a a1 a2 b whole room key w1 w2 front h =
      let fits = key.fits in
      let src = entry_offset (i + 1) in
      let long : length (read src hw_slot_len a) ≡ hw_slot_len =
        length-read src hw_slot_len a (omega (arith, whole)) in
      HasEntryAt-move w passphrase_key kwk src (entry_offset i) a b e fits
        (λ o o' k p q q' r.
          let eq' : src + p ≡ o = sym q in
          front o' k (omega arith)
          ∙ w2.before o' k (omega arith)
          ∙ w1.here o' p k q' (omega (arith, long))
          ∙ read-read src hw_slot_len p k a r
          ∙ ap (λ (x : ℕ). read x k a) eq')
        h

  moved_label :
      (i : ℕ) (e : Entry) (a a1 a2 b : Bytes)
      → length a ≡ inner_plaintext_len
      → i < 2
      → IsWritten (entry_offset i) (read (entry_offset (i + 1)) hw_slot_len a) a a1
      → IsWritten (label_offset i) (read (label_offset (i + 1)) label_len a1) a1 a2
      → read (label_offset i) label_len b ≡ read (label_offset i) label_len a2
      → HasLabel a (i + 1) e
      → HasLabel b i e
  moved_label i e a a1 a2 b whole room w1 w2 same h =
      let src = label_offset (i + 1) in
      let long1 : length (read (entry_offset (i + 1)) hw_slot_len a) ≡ hw_slot_len =
        length-read (entry_offset (i + 1)) hw_slot_len a (omega (arith, whole)) in
      let long : length (read src label_len a1) ≡ label_len =
        length-read src label_len a1 (omega (arith, whole, w1.same_length)) in
      same
      ∙ read-here (label_offset i) label_len w2 (sym long)
      ∙ w1.after src label_len (omega (arith, long1))
      ∙ h

  step_keys :
      (i n : ℕ) (a a1 a2 b : Bytes)
      → length a ≡ inner_plaintext_len
      → i + suc n < 3
      → IsWritten (entry_offset i) (read (entry_offset (i + 1)) hw_slot_len a) a a1
      → IsWritten (label_offset i) (read (label_offset (i + 1)) label_len a1) a1 a2
      → length (read (entry_offset (i + 1)) hw_slot_len a) ≡ hw_slot_len
      → IsShifted (i + 1) n a2 b
      → (es : List Entry) → length es ≡ suc n
      → All IsKey es
      → Indexed (HasEntry w passphrase_key kwk a) (i + 1) es
      → Indexed (HasEntry w passphrase_key kwk b) i es
  step_keys i n a a1 a2 b whole room w1 w2 long1 rest [] q usable h = absurd (omega arith)
  step_keys i n a a1 a2 b whole room w1 w2 long1 rest (e ∷ es) q (key, keys) (here, there) = (
    moved_key i e a a1 a2 b whole (omega arith) key w1 w2 rest.front here,
    rest.keys es (omega arith) keys (
        keys_keep w passphrase_key kwk (i + 1 + 1) es a a2 keys
          (λ o k below above. w2.before o k (omega arith) ∙ w1.after o k (omega (arith, long1)))
          there),
  )

  step_labels :
      (i n : ℕ) (a a1 a2 b : Bytes)
      → length a ≡ inner_plaintext_len
      → i + suc n < 3
      → IsWritten (entry_offset i) (read (entry_offset (i + 1)) hw_slot_len a) a a1
      → IsWritten (label_offset i) (read (label_offset (i + 1)) label_len a1) a1 a2
      → length (read (entry_offset (i + 1)) hw_slot_len a) ≡ hw_slot_len
      → length (read (label_offset (i + 1)) label_len a1) ≡ label_len
      → IsShifted (i + 1) n a2 b
      → (es : List Entry) → length es ≡ suc n
      → Indexed (HasLabel a) (i + 1) es
      → Indexed (HasLabel b) i es
  step_labels i n a a1 a2 b whole room w1 w2 long1 long2 rest [] q h = absurd (omega arith)
  step_labels i n a a1 a2 b whole room w1 w2 long1 long2 rest (e ∷ es) q (here, there) = (
    moved_label i e a a1 a2 b whole (omega arith) w1 w2
        (rest.middle (label_offset i) label_len (omega arith) (omega arith)) here,
    rest.labels es (omega arith) (
        labels_keep (i + 1 + 1) es a a2
          (λ o k below above.
            w2.after o k (omega (arith, long2)) ∙ w1.after o k (omega (arith, long1)))
          there),
  )

  -- One round of the loop in front of the others.
  IsShifted-step :
      (i n : ℕ) (a a1 a2 b : Bytes)
      → length a ≡ inner_plaintext_len
      → i + suc n < 3
      → IsWritten (entry_offset i) (read (entry_offset (i + 1)) hw_slot_len a) a a1
      → IsWritten (label_offset i) (read (label_offset (i + 1)) label_len a1) a1 a2
      → IsShifted (i + 1) n a2 b
      → IsShifted i (suc n) a b
  IsShifted-step i n a a1 a2 b whole room w1 w2 rest =
      let long1 : length (read (entry_offset (i + 1)) hw_slot_len a) ≡ hw_slot_len =
        length-read (entry_offset (i + 1)) hw_slot_len a (omega (arith, whole)) in
      let long2 : length (read (label_offset (i + 1)) label_len a1) ≡ label_len =
        length-read (label_offset (i + 1)) label_len a1 (omega (arith, whole, w1.same_length)) in
      record {
        same_length = rest.same_length ∙ w2.same_length ∙ w1.same_length;
        front =
            λ o k q. rest.front o k (omega arith) ∙ w2.before o k (omega arith) ∙ w1.before o k q;
        middle = λ o k q r.
            rest.middle o k (omega arith) (omega arith)
            ∙ w2.before o k r
            ∙ w1.after o k (omega (arith, long1));
        keys = step_keys i n a a1 a2 b whole room w1 w2 long1 rest;
        labels = step_labels i n a a1 a2 b whole room w1 w2 long1 long2 rest;
      }

  pub shift_down-IsShifted :
      (n i t : ℕ) (a b : Bytes)
      → length a ≡ inner_plaintext_len
      → i + n < 3
      → (shift_down n i a t).0 ≡ ok b
      → IsShifted i n a b
  unfolding shift_down
  shift_down-IsShifted zero i t a b whole room h =
      let same : a ≡ b = cc in subst (IsShifted i 0 a) same (IsShifted-refl i a)
  shift_down-IsShifted (suc n) i t a b whole room h =
      let (a1, t1, put1, h1) =
        bind-eq-ok (lift (write (entry_offset i) (read (entry_offset (i + 1)) hw_slot_len a) a)) _ t
          h in
      let (a2, t2, put2, h2) =
        bind-eq-ok (lift (write (label_offset i) (read (label_offset (i + 1)) label_len a1) a1)) _
          t1 h1 in
      let w1 = write-eq-ok (entry_offset i) (read (entry_offset (i + 1)) hw_slot_len a) a put1 in
      let w2 = write-eq-ok (label_offset i) (read (label_offset (i + 1)) label_len a1) a1 put2 in
      IsShifted-step i n a a1 a2 b whole room w1 w2 (
        shift_down-IsShifted n (i + 1) t2 a2 b (w2.same_length ∙ w1.same_length ∙ whole)
          (omega arith) h2)
