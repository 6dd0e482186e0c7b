-- ===== src/Format/Buffer/Laws.antt =====
-- What a read of a buffer finds behind a write.
use farewell.Prelude.{
  ℕ, zero, suc, ◌+◌, ◌-◌, ◌≤◌, ◌≡◌, refl, sym, ap, ◌∙◌, inl, inr, [], ◌∷◌, ◌++◌, Bytes, length,
  take, drop, ltb, arith, Bool-cases, length-append, length-take, length-drop,
}
use mathlib.Core.Path.{subst}
use farewell.Format.Error.{ok}
use farewell.Format.Buffer.{read, write}

read-nil : (o n : ℕ) → read o n [] ≡ []
unfolding read take drop
read-nil zero zero = refl
read-nil zero (suc n) = refl
read-nil (suc o) zero = refl
read-nil (suc o) (suc n) = refl

take-left : (n : ℕ) (xs ys : Bytes) → n ≤ length xs → take n (xs ++ ys) ≡ take n xs
unfolding take
take-left zero xs ys h = refl
take-left (suc n) [] ys h = absurd (omega arith)
take-left (suc n) (x ∷ xs) ys h = ap (λ t. x ∷ t) (take-left n xs ys (omega arith))

read-left : (o n : ℕ) (xs ys : Bytes) → o + n ≤ length xs → read o n (xs ++ ys) ≡ read o n xs
unfolding read drop
read-left zero n xs ys h = take-left n xs ys (omega arith)
read-left (suc o) zero [] ys h = absurd (omega arith)
read-left (suc o) (suc n) [] ys h = absurd (omega arith)
read-left (suc o) n (x ∷ xs) ys h = read-left o n xs ys (omega arith)

read-right : (o a n : ℕ) (xs ys : Bytes) → o ≡ length xs + a → read o n (xs ++ ys) ≡ read a n ys
unfolding read drop
read-right o a n [] ys h = ap (λ (k : ℕ). read k n ys) (omega arith)
read-right zero a n (x ∷ xs) ys h = absurd (omega arith)
read-right (suc o) a n (x ∷ xs) ys h = read-right o a n xs ys (omega arith)

take-take : (n k : ℕ) (xs : Bytes) → n ≤ k → take n (take k xs) ≡ take n xs
unfolding take
take-take zero k xs h = refl
take-take (suc n) zero xs h = absurd (omega arith)
take-take (suc n) (suc k) [] h = refl
take-take (suc n) (suc k) (x ∷ xs) h = ap (λ t. x ∷ t) (take-take n k xs (omega arith))

read-take : (o n k : ℕ) (xs : Bytes) → o + n ≤ k → read o n (take k xs) ≡ read o n xs
unfolding read take drop
read-take zero n k xs h = take-take n k xs (omega arith)
read-take (suc o) n zero xs h = absurd (omega arith)
read-take (suc o) n (suc k) [] h = refl
read-take (suc o) n (suc k) (x ∷ xs) h = read-take o n k xs (omega arith)

read-drop : (o k a n : ℕ) (xs : Bytes) → o ≡ k + a → read a n (drop k xs) ≡ read o n xs
unfolding read drop
read-drop o zero a n xs h = ap (λ (t : ℕ). read t n xs) (omega arith)
read-drop zero (suc k) a n xs h = absurd (omega arith)
read-drop (suc o) (suc k) a n [] h = read-nil a n ∙ sym (read-nil (suc o) n)
read-drop (suc o) (suc k) a n (x ∷ xs) h = read-drop o k a n xs (omega arith)

pub length-read : (o n : ℕ) (xs : Bytes) → o + n ≤ length xs → length (read o n xs) ≡ n
unfolding read
length-read o n xs h = omega (arith, length-take n (drop o xs), length-drop o xs)

-- A part of what was read.
pub read-read : (o n a k : ℕ) (xs : Bytes) → a + k ≤ n → read a k (read o n xs) ≡ read (o + a) k xs
read-read o n a k xs h = read_taken ∙ read-drop (o + a) o a k xs refl
  where
    read_taken : read a k (read o n xs) ≡ read a k (drop o xs)
    read_taken = unfold read in read-take a k n (drop o xs) h

-- The whole of what was written.
pub read_all : (n : ℕ) (xs : Bytes) → n ≡ length xs → read 0 n xs ≡ xs
unfolding read take drop
read_all zero [] h = refl
read_all (suc n) [] h = absurd (omega arith)
read_all zero (x ∷ xs) h = absurd (omega arith)
read_all (suc n) (x ∷ xs) h = ap (λ t. x ∷ t) (read_all n xs (omega arith))

-- A write that succeeded.
pub record IsWritten (off : ℕ) (bytes a b : Bytes) : Type 0 where
  pub fits : off + length bytes ≤ length a
  pub same_length : length b ≡ length a
  pub here : (o p n : ℕ) → o ≡ off + p → p + n ≤ length bytes → read o n b ≡ read p n bytes
  pub before : (o n : ℕ) → o + n ≤ off → read o n b ≡ read o n a
  pub after : (o n : ℕ) → off + length bytes ≤ o → read o n b ≡ read o n a

-- The bytes of a write lie between the untouched front and the untouched back.
put_IsWritten :
    (off : ℕ) (bytes a : Bytes)
    → off + length bytes ≤ length a
    → IsWritten off bytes a (take off a ++ (bytes ++ drop (off + length bytes) a))
put_IsWritten off bytes a h =
    let back = drop (off + length bytes) a in
    let front : length (take off a) ≡ off = omega (arith, length-take off a) in
    record {
      fits = h;
      same_length = omega (
        arith,
        front,
        length-append (take off a) (bytes ++ back),
        length-append bytes back,
        length-drop (off + length bytes) a,
      );
      here = λ o p n e q.
          read-right o p n (take off a) (bytes ++ back) (omega (arith, front))
          ∙ read-left p n bytes back q;
      before = λ o n q.
          read-left o n (take off a) (bytes ++ back) (omega (arith, front)) ∙ read-take o n off a q;
      after = λ o n q.
          read-right o (o - off) n (take off a) (bytes ++ back) (omega (arith, front))
          ∙ read-right (o - off) (o - off - length bytes) n bytes back (omega arith)
          ∙ read-drop o (off + length bytes) (o - off - length bytes) n a (omega arith);
    }

pub write-eq-ok :
    (off : ℕ) (bytes a : Bytes) {b : Bytes} → write off bytes a ≡ ok b → IsWritten off bytes a b
unfolding write
write-eq-ok off bytes a {b} h = elim (Bool-cases (ltb (length a) (off + length bytes))) [
  | inl out ↦ absurd (cc (rw out at h))
  | inr inside ↦
      subst (IsWritten off bytes a) (cc (rw inside at h)) (put_IsWritten off bytes a (ground arith))
]

-- The bytes that were written.
pub read-here :
    (off : ℕ) {bytes a b : Bytes} (n : ℕ)
    → IsWritten off bytes a b
    → n ≡ length bytes
    → read off n b ≡ bytes
read-here off {bytes} n h e = h.here off 0 n (omega arith) (omega arith) ∙ read_all n bytes e
