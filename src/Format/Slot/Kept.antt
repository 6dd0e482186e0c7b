-- ===== src/Format/Slot/Kept.antt =====
-- What a change of the inner payload elsewhere leaves of the entries and the labels.
use farewell.Prelude.{ℕ, ◌+◌, ◌≤◌, ◌≡◌, sym, ap, ◌∙◌, List, [], ◌∷◌, Bytes, length, arith, All}
use farewell.Format.World.{World}
use farewell.Format.Buffer.{read}
use farewell.Format.Slot.{Entry, entry_offset, label_offset, label_len}
use farewell.Format.Slot.Contents.{IsKey, Indexed, HasEntry, HasEntryAt-move, HasLabel}

-- The entries from `i` on stand where their places have not changed.
pub keys_keep :
    (w : World) (passphrase_key kwk : Bytes) (i : ℕ) (es : List Entry) (a b : Bytes)
    → All IsKey es
    → ((o k : ℕ)
        → entry_offset i ≤ o
        → o + k ≤ entry_offset (i + length es)
        → read o k b ≡ read o k a)
    → Indexed (HasEntry w passphrase_key kwk a) i es
    → Indexed (HasEntry w passphrase_key kwk b) i es
keys_keep w passphrase_key kwk i [] a b usable same h = tt
keys_keep w passphrase_key kwk i (e ∷ es) a b (usable, rest) same (first, later) = (
  let fits = usable.fits in
      HasEntryAt-move w passphrase_key kwk (entry_offset i) (entry_offset i) a b e fits
        (λ o o' k p q q' r.
          let eq' : o' ≡ o = q' ∙ sym q in
          ap (λ (x : ℕ). read x k b) eq' ∙ same o k (omega arith) (omega arith))
        first,
  keys_keep w passphrase_key kwk (i + 1) es a b rest
      (λ o k below above. same o k (omega arith) (omega arith)) later,
)

pub labels_keep :
    (i : ℕ) (es : List Entry) (a b : Bytes)
    → ((o k : ℕ)
        → label_offset i ≤ o
        → o + k ≤ label_offset (i + length es)
        → read o k b ≡ read o k a)
    → Indexed (HasLabel a) i es
    → Indexed (HasLabel b) i es
labels_keep i [] a b same h = tt
labels_keep i (e ∷ es) a b same (first, later) = (
  same (label_offset i) label_len (omega arith) (omega arith) ∙ first,
  labels_keep (i + 1) es a b (λ o k below above. same o k (omega arith) (omega arith)) later,
)
