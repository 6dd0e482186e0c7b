-- ===== src/License/Payload/RoundTrip.antt =====
-- `from_bytes` reads back what `to_bytes` wrote.
use farewell.Prelude.{
  ℕ, suc, ◌-◌, ◌^◌, ◌<◌, ◌≡◌, refl, sym, ap, ◌∙◌, Bool, true, false, not, List, [], ◌∷◌, ◌++◌,
  Bytes, length, length-append, take-append, drop-append, append_assoc, ltb, if◌then◌else◌, arith,
  bytes_eq,
}
use mathlib.Core.Path.{subst}
use farewell.Bytes.{to_le, from_le, length-to_le, from_le-to_le}
use farewell.Bytes.Utf8.{is_utf8}
use farewell.License.Error
use farewell.License.Error.{Result, ok, err, bind-eq-ok, passed}
use farewell.License.Payload.Reader.{
  R, pure, lift, ◌>>=◌, ℤ, read_bytes, read_exact, read_number, read_i64, write_i64, to_signed,
}
use farewell.License.Payload.{
  Payload, LicenseType, discriminant, from_u8, is_ascii, write_serials, layout, to_bytes,
  read_serials, read_fields, read_payload, from_bytes, payload_magic, supported_version,
}

-- Wherever `xs` comes first, `m` returns `a` and leaves what follows.
record Reads {ℓ} {A : Type ℓ} (m : R A) (xs : Bytes) (a : A) : Type ℓ where
  at : (rest : Bytes) → m (xs ++ rest) ≡ ok (a, rest)

Reads-pure {ℓ} : {A : Type ℓ} (a : A) → Reads (pure a) [] a
Reads-pure a = record { at = λ rest. refl }

Reads-bind {ℓ κ} :
    {A : Type ℓ} {B : Type κ} (m : R A) (f : A → R B) {xs ys : Bytes} {a : A} {b : B}
    → Reads m xs a
    → Reads (f a) ys b
    → Reads (m >>= f) (xs ++ ys) b
Reads-bind m f {xs} {ys} {a} {b} hm hf = record {
  at = λ rest. rw (append_assoc xs ys rest, hm.at (ys ++ rest), ◌>>=◌) (hf.at rest);
}

-- The last read, whose value is put into a record.
Reads-map {ℓ κ} :
    {A : Type ℓ} {B : Type κ} (m : R A) (f : A → B) {xs : Bytes} {a : A}
    → Reads m xs a
    → Reads (m >>= λ x. pure (f x)) xs (f a)
Reads-map m f {xs} {a} hm = record { at = λ rest. rw (hm.at rest, ◌>>=◌) }

Reads-if_false {ℓ} :
    {A : Type ℓ} (t : Bool) (n m : R A) {xs : Bytes} {a : A}
    → t ≡ false
    → Reads m xs a
    → Reads (if t then n else m) xs a
Reads-if_false t n m e h = rw e h

Reads-read_bytes : (needed n : ℕ) (xs : Bytes) → n ≡ length xs → Reads (read_bytes needed n) xs xs
unfolding read_bytes
Reads-read_bytes needed n xs e = record {
  at = λ rest.
      let total = length-append xs rest in
      let enough : ltb (length (xs ++ rest)) n ≡ false = ground (arith, total) in
      rw (enough, take-append n xs rest e, drop-append n xs rest e);
}

Reads-read_number : (k n : ℕ) → n < 256 ^ k → Reads (read_number k) (to_le k n) n
unfolding read_number
Reads-read_number k n h =
    let bytes : Reads (read_number k) (to_le k n) (from_le (to_le k n)) =
      Reads-map (read_bytes 1 k) from_le
        (Reads-read_bytes 1 k (to_le k n) (sym (length-to_le k n))) in
    rw (from_le-to_le k n h) at bytes

Reads-byte : (b : ℕ) → Reads (read_number 1) (b ∷ []) b
unfolding read_number from_le
Reads-byte b =
    let value : from_le (b ∷ []) ≡ b = omega arith in
    subst (Reads (read_number 1) (b ∷ [])) value
      (Reads-map (read_bytes 1 1) from_le (Reads-read_bytes 1 1 (b ∷ []) refl))

-- What an i64 is.
abbrev pub IsI64 : ℤ → Type 0
IsI64 (ℤ.pos n) = n < 2 ^ 63
IsI64 (ℤ.negsuc n) = n < 2 ^ 63

Reads-word : (n : ℕ) {t : ℤ} → n < 2 ^ 64 → to_signed n ≡ t → Reads read_i64 (to_le 8 n) t
unfolding read_i64
Reads-word n h signed =
    subst (Reads read_i64 (to_le 8 n)) signed
      (Reads-map (read_number 8) to_signed (Reads-read_number 8 n h))

Reads-read_i64 : (t : ℤ) → IsI64 t → Reads read_i64 (write_i64 t) t
unfolding write_i64
Reads-read_i64 (ℤ.pos n) h =
    let low : ltb n (2 ^ 63) ≡ true = ground arith in Reads-word n (omega arith) (rw low)
Reads-read_i64 (ℤ.negsuc n) h =
    let word = 2 ^ 64 - 1 - n in
    let high : ltb word (2 ^ 63) ≡ false = ground arith in
    let back : 2 ^ 64 - 1 - word ≡ n = omega arith in
    Reads-word word (omega arith) (rw high (ap ℤ.negsuc back))

from_u8-discriminant : (t : LicenseType) → from_u8 (discriminant t) ≡ ok t
unfolding from_u8
from_u8-discriminant LicenseType.single = refl
from_u8-discriminant LicenseType.duo = refl
from_u8-discriminant LicenseType.quintet = refl
from_u8-discriminant LicenseType.grant = refl

Reads-lift {ℓ} : {A : Type ℓ} (r : Result A) {a : A} → r ≡ ok a → Reads (lift r) [] a
Reads-lift r e = record { at = λ rest. ap (λ t. lift t rest) e }

-- Serials that are written are ASCII and their lengths fit a byte.
Reads-read_serials :
    (sns : List Bytes) (bytes : Bytes)
    → write_serials sns ≡ ok bytes
    → Reads (read_serials (length sns)) bytes sns
unfolding read_serials write_serials read_exact
Reads-read_serials [] bytes h =
    let none' : [] ≡ bytes = cc in
    subst (λ t. Reads {A = List Bytes} (pure []) t []) none' (Reads-pure [])
Reads-read_serials (sn ∷ sns) bytes h =
    let (ascii, h1) = passed (not (is_ascii sn)) _ _ h in
    let (short, h2) = passed (ltb 255 (length sn)) _ _ h1 in
    let (rest, more, h3) = bind-eq-ok (write_serials sns) _ h2 in
    let whole : length sn ∷ (sn ++ rest) ≡ bytes = cc h3 in
    subst (λ t. Reads (read_serials (suc (length sns))) t (sn ∷ sns)) whole
      (Reads-bind (read_number 1) _ (Reads-byte (length sn)) (
        Reads-bind (read_exact (length sn)) _ (Reads-read_bytes (length sn) (length sn) sn refl) (
          Reads-if_false (not (is_ascii sn)) _ _ ascii (
            Reads-map (read_serials (length sns)) (λ t. sn ∷ t)
              (Reads-read_serials sns rest more)))))

-- What Rust's types say of a payload.
pub record IsPayload (p : Payload) : Type 0 where
  pub major_u32 : p.major_version < 2 ^ 32
  pub purchased_i64 : IsI64 p.purchased_unix
  pub id_16 : length p.license_id ≡ 16
  pub email_utf8 : is_utf8 p.email ≡ true

Reads-layout :
    (p : Payload) (serials : Bytes)
    → IsPayload p
    → length p.email < 2 ^ 16
    → write_serials p.bound_serials ≡ ok serials
    → Reads read_payload (layout p serials) p
unfolding read_payload read_fields read_exact bytes_eq
Reads-layout p serials typed short more =
    Reads-bind (read_exact 4) _ (Reads-read_bytes 4 4 payload_magic refl) (
      Reads-bind (read_number 1) _ (Reads-byte supported_version) (
        Reads-bind (read_number 1) _ (Reads-byte (discriminant p.license_type)) (
          Reads-bind (lift (from_u8 (discriminant p.license_type))) _
            (Reads-lift _ (from_u8-discriminant p.license_type))
            (Reads-bind (read_number 4) _ (Reads-read_number 4 p.major_version typed.major_u32) (
              Reads-bind read_i64 _ (Reads-read_i64 p.purchased_unix typed.purchased_i64) (
                Reads-bind (read_exact 16) _ (Reads-read_bytes 16 16 p.license_id (sym typed.id_16))
                  (Reads-bind (read_number 2) _ (Reads-read_number 2 (length p.email) short) (
                    Reads-bind (read_exact (length p.email)) _
                      (Reads-read_bytes (length p.email) (length p.email) p.email refl)
                      (Reads-if_false (not (is_utf8 p.email)) _ _ (ap not typed.email_utf8) (
                        Reads-bind (read_number 1) _ (Reads-byte (length p.bound_serials)) (
                          Reads-map (read_serials (length p.bound_serials)) _
                            (Reads-read_serials p.bound_serials serials more))))))))))))

-- A payload of Rust's types that is written is read back, whatever follows its bytes.
pub from_bytes-to_bytes :
    (p : Payload) (bytes rest : Bytes)
    → IsPayload p
    → to_bytes p ≡ ok bytes
    → from_bytes (bytes ++ rest) ≡ ok p
unfolding to_bytes from_bytes
from_bytes-to_bytes p bytes rest typed h =
    let (short, h1) = passed (ltb 65535 (length p.email)) _ _ h in
    let (few, h2) = passed (ltb 255 (length p.bound_serials)) _ _ h1 in
    let (serials, more, h3) = bind-eq-ok (write_serials p.bound_serials) _ h2 in
    let whole : layout p serials ≡ bytes = cc h3 in
    let fits : length p.email < 2 ^ 16 = ground arith in
    ap (λ t. Error.◌>>=◌ (read_payload (t ++ rest)) (λ r. ok r.0)) (sym whole)
    ∙ ap (λ t. Error.◌>>=◌ t (λ r. ok r.0)) ((Reads-layout p serials typed fits more).at rest)
