-- ===== src/Format/Manifest/Codec/Reads.antt =====
-- Reading back what was written, one rule for each way that a parsing step is built.
use farewell.Prelude.{
  ℕ, zero, suc, ◌+◌, ◌-◌, ◌^◌, ◌%◌, ◌≤◌, ◌<◌, ◌≡◌, refl, sym, ap, ◌∙◌, Bool, true, false, List, [],
  ◌∷◌, ◌++◌, Bytes, length, length-append, length-drop, take-append, drop-append, append_assoc,
  append-nil, ltb, if◌then◌else◌, arith,
}
use farewell.Prelude
use mathlib.Core.Path.{subst}
use farewell.Bytes.{from_le, to_le, length-to_le, from_le-to_le}
use farewell.Format.Error.{ok}
use farewell.Format.Manifest.Codec.Parser.{Parser, P, pure, take, read_le, new, ◌>>=◌}

-- The cursor is inside the buffer, and `ys` is what follows it.
pub record At (p : Parser) (ys : Bytes) : Type 0 where
  pub inside : p.pos ≤ length p.buf
  pub follows : Prelude.drop p.pos p.buf ≡ ys

abbrev advance : Parser → ℕ → Parser
advance p n = record p { pos = p.pos + n }

-- Wherever `xs` follows the cursor, `m` returns `a` and moves past `xs`.
pub record Reads {ℓ} {A : Type ℓ} (m : P A) (xs : Bytes) (a : A) : Type ℓ where
  pub at : (p : Parser) (ys : Bytes) → At p (xs ++ ys) → m p ≡ ok (a, advance p (length xs))

add_suc : (n k : ℕ) → suc n + k ≡ suc (n + k)
add_suc n k = omega arith

pub drop-drop :
    {A : Type 0} (n k : ℕ) (xs : List A)
    → Prelude.drop (n + k) xs ≡ Prelude.drop k (Prelude.drop n xs)
unfolding Prelude.drop
drop-drop zero k xs = ap (λ (t : ℕ). Prelude.drop t xs) (omega arith)
drop-drop (suc n) zero [] = ground arith
drop-drop (suc n) (suc k) [] = rw (add_suc n (suc k))
drop-drop (suc n) k (x ∷ xs) = rw (add_suc n k) (drop-drop n k xs)

-- What follows the cursor is as long as the bytes that are left.
length_left :
    (p : Parser) (xs ys : Bytes) → At p (xs ++ ys) → length p.buf ≡ p.pos + (length xs + length ys)
length_left p xs ys h =
    omega
      (arith, ap (length {A = ℕ}) h.follows, length-drop p.pos p.buf, length-append xs ys, h.inside)

At-advance : (p : Parser) (xs ys : Bytes) → At p (xs ++ ys) → At (advance p (length xs)) ys
At-advance p xs ys h = record {
  inside = omega (arith, length_left p xs ys h);
  follows =
      drop-drop p.pos (length xs) p.buf
      ∙ ap (Prelude.drop (length xs)) h.follows
      ∙ drop-append (length xs) xs ys refl;
}

pub At-new : (buf : Bytes) → At (new buf) buf
unfolding new Prelude.drop
At-new buf = record { inside = omega arith; follows = refl }

pub Reads-pure {ℓ} : {A : Type ℓ} (a : A) → Reads (pure a) [] a
Reads-pure a = record { at = λ p ys h. ap (λ (n : ℕ). ok (a, record p { pos = n })) (omega arith) }

pub Reads-bind {ℓ κ} :
    {A : Type ℓ} {B : Type κ} (m : P A) (f : A → P B) {xs ys : Bytes} {a : A} {b : B}
    → Reads m xs a
    → Reads (f a) ys b
    → Reads (m >>= f) (xs ++ ys) b
Reads-bind m f {xs} {ys} {a} {b} hm hf = record {
  at = λ p zs h.
      let k : At p (xs ++ (ys ++ zs)) = record {
        inside = h.inside;
        follows = h.follows ∙ append_assoc xs ys zs;
      } in
      rw
        (
          hm.at p (ys ++ zs) k,
          ◌>>=◌,
          hf.at (advance p (length xs)) zs (At-advance p xs (ys ++ zs) k),
        )
        (ap (λ (n : ℕ). ok (b, record p { pos = n })) (omega (arith, length-append xs ys)));
}

-- The last step of a `do` block, whose value is put into a record.
pub Reads-map {ℓ κ} :
    {A : Type ℓ} {B : Type κ} (m : P A) (f : A → B) {xs : Bytes} {a : A}
    → Reads m xs a
    → Reads (m >>= λ x. pure (f x)) xs (f a)
Reads-map m f {xs} {a} hm = record { at = λ p ys h. rw (hm.at p ys h, ◌>>=◌) }

pub Reads-if_false {ℓ} :
    {A : Type ℓ} (t : Bool) (n m : P A) {xs : Bytes} {a : A}
    → t ≡ false
    → Reads m xs a
    → Reads (if t then n else m) xs a
Reads-if_false t n m e h = rw e h

pub Reads-if_true {ℓ} :
    {A : Type ℓ} (t : Bool) (n m : P A) {xs : Bytes} {a : A}
    → t ≡ true
    → Reads n xs a
    → Reads (if t then n else m) xs a
Reads-if_true t n m e h = rw e h

pub Reads-take : (xs : Bytes) (n : ℕ) → n ≡ length xs → Reads (take n) xs xs
unfolding take
Reads-take xs n e =
    rw e
      (record { at = λ p ys h. rw (enough p ys h, h.follows, take-append (length xs) xs ys refl) })
  where
    enough :
        (p : Parser) (ys : Bytes) → At p (xs ++ ys) → ltb (length p.buf - p.pos) (length xs) ≡ false
    enough p ys h = ground (arith, length_left p xs ys h)

-- A number that fits its field is read back.
pub Reads-read_le : (k n : ℕ) → n < 256 ^ k → Reads (read_le k) (to_le k n) n
unfolding read_le
Reads-read_le k n h =
    let w : Reads (read_le k) (to_le k n) (from_le (to_le k n)) =
      Reads-map (take k) from_le (Reads-take (to_le k n) k (sym (length-to_le k n))) in
    rw (from_le-to_le k n h) at w

-- A count that is cast to the width of its field, where it fits.
pub Reads-count : (k n w : ℕ) → w ≡ 256 ^ k → n < w → Reads (read_le k) (to_le k (n % w)) n
Reads-count k n w e h =
    let same : n % w ≡ n = grind arith in rw same (Reads-read_le k n (rw (sym e) h))

pub Reads-byte : (b n : ℕ) → b ≡ n → Reads (read_le 1) (b ∷ []) n
unfolding read_le from_le
Reads-byte b n e =
    let value : from_le (b ∷ []) ≡ n = omega arith in
    rw (sym value) (Reads-map (take 1) from_le (Reads-take (b ∷ []) 1 refl))

-- The last bytes are read, and the steps behind them read none.
pub Reads-bind_last {ℓ κ} :
    {A : Type ℓ} {B : Type κ} (m : P A) (f : A → P B) {xs : Bytes} {a : A} {b : B}
    → Reads m xs a
    → Reads (f a) [] b
    → Reads (m >>= f) xs b
Reads-bind_last m f {xs} {b = b} hm hf =
    subst (λ t. Reads (m >>= f) t b) (append-nil xs) (Reads-bind m f hm hf)
