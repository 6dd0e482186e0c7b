-- ===== src/License/Key/RoundTrip.antt =====
-- What the base 32 of key.rs writes, it reads back.
use farewell.Prelude.{
  ℕ, ◌+◌, ◌-◌, ◌*◌, ◌/◌, ◌%◌, ◌^◌, ◌<◌, ◌≡◌, refl, sym, ap, ◌∙◌, inl, inr, true, false, ◌&&◌, [],
  ◌∷◌, ◌++◌, Bytes, All, length, length-append, take-append, drop-append, leb, ltb, ◌==◌,
  if◌then◌else◌, arith, contains, Bool-cases,
}
use farewell.Bytes.{IsByte}
use farewell.License.Error.{Result, ok, err, ◌>>=◌}
use farewell.License.Key.{
  digit_char, emit, base32_encode, digit, read_char, decode_class, prepend, base32_decode, grouped,
  group, encode_key, split_blob, decode_key,
}
use farewell.License.Key.Digits.{read_char-digit_char}

-- Decoding a digit where a byte gets full, and where none does.
decode_full :
    (v : ℕ) (cs : Bytes) (buffer bits left next byte : ℕ) (out : Bytes)
    → bits + 5 ≡ 8 + left
    → next ≡ buffer * 32 % 2 ^ 32 + v % 32
    → byte ≡ next / 2 ^ left % 256
    → base32_decode cs next left ≡ ok out
    → base32_decode (digit_char v ∷ cs) buffer bits ≡ ok (byte ∷ out)
unfolding base32_decode
decode_full v cs buffer bits left next byte out hl hn hb h =
    let class : read_char (digit_char v) ≡ digit (v % 32) = read_char-digit_char v in
    let full : leb 8 (bits + 5) ≡ true = ground arith in
    let width : bits + 5 - 8 ≡ left = omega arith in rw (class, full, width, sym hn, h, sym hb)

prepend-false : (byte : ℕ) (r : Result Bytes) → prepend false byte r ≡ r
prepend-false byte (ok out) = refl
prepend-false byte (err e) = refl

decode_part :
    (v : ℕ) (cs : Bytes) (buffer bits next : ℕ) (r : Result Bytes)
    → bits < 3
    → next ≡ buffer * 32 % 2 ^ 32 + v % 32
    → base32_decode cs next (bits + 5) ≡ r
    → base32_decode (digit_char v ∷ cs) buffer bits ≡ r
unfolding base32_decode
decode_part v cs buffer bits next r hl hn h =
    let class : read_char (digit_char v) ≡ digit (v % 32) = read_char-digit_char v in
    let part : leb 8 (bits + 5) ≡ false = ground arith in
    ap (λ c. decode_class c (base32_decode cs) buffer bits) class
    ∙ rw (part, sym hn, h) (prepend-false 0 r)

-- The bits that the encoder has left, and those that the decoder has, while a byte is under way:
-- together the byte.
data Pending (eb db : ℕ) : ℕ → ℕ → Bytes → Type 0 where
  none_left : Pending eb db 0 0 []
  three : (x : ℕ) → x ≡ db % 32 * 8 + eb % 8 → Pending eb db 3 5 (x ∷ [])
  one : (x : ℕ) → x ≡ db % 128 * 2 + eb % 2 → Pending eb db 1 7 (x ∷ [])
  four : (x : ℕ) → x ≡ db % 16 * 16 + eb % 16 → Pending eb db 4 4 (x ∷ [])
  two : (x : ℕ) → x ≡ db % 64 * 4 + eb % 4 → Pending eb db 2 6 (x ∷ [])

-- The buffers behind a byte and behind a digit.
abbrev fed : ℕ → ℕ → ℕ
fed eb b = eb * 256 % 2 ^ 32 + b

abbrev taken : ℕ → ℕ → ℕ
taken db v = db * 32 % 2 ^ 32 + v % 32

decode-encode :
    (bs : Bytes) (eb e db d : ℕ) (pending : Bytes)
    → All IsByte bs
    → Pending eb db e d pending
    → base32_decode (base32_encode bs eb e) db d ≡ ok (pending ++ bs)
unfolding base32_encode base32_decode emit
decode-encode [] eb e db d pending h none_left = refl
decode-encode [] eb e db d pending h (three x p) =
    decode_full (eb * 4 % 2 ^ 32) [] db 5 2 _ x [] refl refl (omega arith) refl
decode-encode [] eb e db d pending h (one x p) =
    decode_full (eb * 16 % 2 ^ 32) [] db 7 4 _ x [] refl refl (omega arith) refl
decode-encode [] eb e db d pending h (four x p) =
    decode_full (eb * 2 % 2 ^ 32) [] db 4 1 _ x [] refl refl (omega arith) refl
decode-encode [] eb e db d pending h (two x p) =
    decode_full (eb * 8 % 2 ^ 32) [] db 6 3 _ x [] refl refl (omega arith) refl
decode-encode (b ∷ bs) eb e db d pending (byte, h) none_left =
    let eb' = fed eb b in
    decode_part (eb' / 8) _ db 0 _ _ (omega arith) refl
      (decode-encode bs eb' 3 (taken db (eb' / 8)) 5 (b ∷ []) h (three b (omega arith)))
decode-encode (b ∷ bs) eb e db d pending (byte, h) (three x p) =
    let eb' = fed eb b in
    let db' = taken db (eb' / 64) in
    decode_full (eb' / 64) (digit_char (eb' / 2) ∷ base32_encode bs eb' 1) db 5 2 _ x (b ∷ bs) refl
      refl (omega arith)
      (decode_part (eb' / 2) _ db' 2 _ _ (omega arith) refl
        (decode-encode bs eb' 1 (taken db' (eb' / 2)) 7 (b ∷ []) h (one b (omega arith))))
decode-encode (b ∷ bs) eb e db d pending (byte, h) (one x p) =
    let eb' = fed eb b in
    decode_full (eb' / 16) _ db 7 4 _ x (b ∷ bs) refl refl (omega arith)
      (decode-encode bs eb' 4 (taken db (eb' / 16)) 4 (b ∷ []) h (four b (omega arith)))
decode-encode (b ∷ bs) eb e db d pending (byte, h) (four x p) =
    let eb' = fed eb b in
    let db' = taken db (eb' / 128) in
    decode_full (eb' / 128) (digit_char (eb' / 4) ∷ base32_encode bs eb' 2) db 4 1 _ x (b ∷ bs) refl
      refl (omega arith)
      (decode_part (eb' / 4) _ db' 1 _ _ (omega arith) refl
        (decode-encode bs eb' 2 (taken db' (eb' / 4)) 6 (b ∷ []) h (two b (omega arith))))
decode-encode (b ∷ bs) eb e db d pending (byte, h) (two x p) =
    let eb' = fed eb b in
    let db' = taken db (eb' / 32) in
    decode_full (eb' / 32) (digit_char (eb' / 1) ∷ base32_encode bs eb' 0) db 6 3 _ x (b ∷ bs) refl
      refl (omega arith)
      (decode_full (eb' / 1) _ db' 3 0 _ b bs refl refl (omega arith)
        (decode-encode bs eb' 0 (taken db' (eb' / 1)) 0 [] h none_left))

dashed :
    (cs : Bytes) (buffer bits : ℕ)
    → base32_decode (b'-' ∷ cs) buffer bits ≡ base32_decode cs buffer bits
unfolding base32_decode read_char contains
dashed cs buffer bits = refl

-- The decoder takes no notice of the dashes.
base32_decode-grouped :
    (cs : Bytes) (i buffer bits : ℕ)
    → base32_decode (grouped i cs) buffer bits ≡ base32_decode cs buffer bits
unfolding base32_decode grouped
base32_decode-grouped [] i buffer bits = refl
base32_decode-grouped (c ∷ cs) i buffer bits =
    let later : base32_decode (grouped (i + 1) cs) ≡ base32_decode cs =
      λ j b n. base32_decode-grouped cs (i + 1) b n j in
    let tail = ap (λ f. decode_class (read_char c) f buffer bits) later in
    elim (Bool-cases (ltb 0 i && i % group == 0)) [
      | inl dash ↦
          ap
            (λ t.
              base32_decode (if t then b'-' ∷ c ∷ grouped (i + 1) cs else c ∷ grouped (i + 1) cs)
                buffer bits)
            dash
          ∙ dashed (c ∷ grouped (i + 1) cs) buffer bits
          ∙ tail
      | inr none' ↦
          ap
            (λ t.
              base32_decode (if t then b'-' ∷ c ∷ grouped (i + 1) cs else c ∷ grouped (i + 1) cs)
                buffer bits)
            none'
          ∙ tail
    ]

All-append : (xs ys : Bytes) → All IsByte xs → All IsByte ys → All IsByte (xs ++ ys)
All-append [] ys h k = k
All-append (x ∷ xs) ys (h, hs) k = (h, All-append xs ys hs k)

split_blob-joined :
    (payload signature : Bytes) (hi lo : ℕ)
    → hi * 256 + lo ≡ length payload
    → 0 < length signature
    → split_blob (hi ∷ lo ∷ payload ++ signature) ≡ ok (payload, signature)
unfolding split_blob
split_blob-joined payload signature hi lo e there =
    let long = length-append payload signature in
    let enough : leb (length (payload ++ signature)) (length payload) ≡ false =
      let n : length payload < length (payload ++ signature) = omega (arith, long) in
      ground arith in
    rw (
      e,
      enough,
      take-append (length payload) payload signature refl,
      drop-append (length payload) payload signature refl,
    )

-- The key of a payload of fewer than 2^16 bytes and of a signature of one byte or more, each number
-- below 256, decodes to the two, dashes and all.
pub decode_key-encode_key :
    (payload signature : Bytes)
    → All IsByte payload
    → All IsByte signature
    → length payload < 2 ^ 16
    → 0 < length signature
    → decode_key (encode_key payload signature) ≡ ok (payload, signature)
unfolding decode_key encode_key
decode_key-encode_key payload signature h k short there =
    let plen = length payload % 2 ^ 16 in
    let blob : Bytes = plen / 256 ∷ plen % 256 ∷ payload ++ signature in
    let bytes : All IsByte blob = (omega arith, (omega arith, All-append payload signature h k)) in
    ap (λ r. r >>= split_blob)
      (base32_decode-grouped (base32_encode blob 0 0) 0 0 0
        ∙ decode-encode blob 0 0 0 0 [] bytes none_left)
    ∙ split_blob-joined payload signature (plen / 256) (plen % 256) (omega arith) there
