-- ===== src/Format/Slot/Labels.antt =====
-- A label that fits its field reads back (slot.rs).
use farewell.Prelude.{
  ℕ, zero, suc, ◌-◌, ◌≤◌, ◌≡◌, refl, ap, ◌∙◌, true, false, List, [], ◌∷◌, ◌++◌, Bytes, length, take,
  replicate, min, arith, All, ◌==◌,
}
use farewell.Bytes.Utf8.{is_utf8}
use farewell.Bytes.Utf8.Lossy.{from_utf8_lossy, from_utf8_lossy-eq_self}
use farewell.Format.Slot.{
  Entry, label_len, is_char_boundary, char_floor, encode_label, until_zero, decode_label,
}
use farewell.Format.Slot.Observed.{shown_labels}

-- Text without a NUL that fits the field.
pub record IsLabel (label : Bytes) : Type 0 where
  pub fits : length label ≤ label_len
  pub text : is_utf8 label ≡ true
  pub no_nul : All (λ b. (b == 0) ≡ false) label

char_floor-length : (label : Bytes) (n : ℕ) → n ≡ length label → char_floor label n ≡ n
unfolding char_floor is_char_boundary
char_floor-length label zero h = refl
char_floor-length label (suc n) h =
    let end : (suc n == length label) ≡ true = ground arith in ground (arith, end)

take_whole : (n : ℕ) (xs : Bytes) → n ≡ length xs → take n xs ≡ xs
unfolding take
take_whole zero [] h = refl
take_whole (suc n) [] h = absurd (omega arith)
take_whole zero (x ∷ xs) h = absurd (omega arith)
take_whole (suc n) (x ∷ xs) h = ap (λ t. x ∷ t) (take_whole n xs (omega arith))

until_zero-padded :
    (label : Bytes) (n : ℕ)
    → All (λ b. (b == 0) ≡ false) label
    → until_zero (label ++ replicate n 0) ≡ label
unfolding until_zero replicate
until_zero-padded [] zero h = refl
until_zero-padded [] (suc n) h = refl
until_zero-padded (b ∷ bs) n (here, there) =
    rw here (ap (λ t. b ∷ t) (until_zero-padded bs n there))

pub decode_label-encode_label :
    (label : Bytes) → IsLabel label → decode_label (encode_label label) ≡ label
unfolding encode_label decode_label
decode_label-encode_label label h =
    let fits = h.fits in
    let whole : min (length label) label_len ≡ length label = omega arith in
    let floor : char_floor label (min (length label) label_len) ≡ length label =
      ap (char_floor label) whole ∙ char_floor-length label (length label) refl in
    ap (λ n. from_utf8_lossy (until_zero (take n label ++ replicate (label_len - n) 0))) floor
    ∙ ap (λ t. from_utf8_lossy (until_zero (t ++ replicate (label_len - length label) 0)))
        (take_whole (length label) label refl)
    ∙ ap from_utf8_lossy (until_zero-padded label (label_len - length label) h.no_nul)
    ∙ from_utf8_lossy-eq_self label h.text

abbrev pub labels_of : List Entry → List Bytes
labels_of [] = []
labels_of (e ∷ es) = e.label ∷ labels_of es

-- The labels that are shown are the labels, where they fit.
pub shown_labels-eq :
    (es : List Entry) → All (λ e. IsLabel e.label) es → shown_labels es ≡ labels_of es
shown_labels-eq [] h = refl
shown_labels-eq (e ∷ es) (here, there) =
    ap (λ l. l ∷ shown_labels es) (decode_label-encode_label e.label here)
    ∙ ap (λ ls. e.label ∷ ls) (shown_labels-eq es there)
