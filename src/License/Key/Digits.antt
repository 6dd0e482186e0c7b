-- ===== src/License/Key/Digits.antt =====
-- The digits of the base 32 of key.rs as characters.
use farewell.Prelude.{
  ℕ, zero, suc, ◌+◌, ◌-◌, ◌*◌, ◌/◌, ◌%◌, ◌^◌, ◌<◌, ◌≡◌, refl, ap, ◌∙◌, inl, inr, Bool, true, false,
  ◌&&◌, [], ◌∷◌, Bytes, leb, ◌==◌, if◌then◌else◌, get_or, arith, contains, Bool-cases,
}
use mathlib.Core.Path.{subst}
use farewell.License.Key.{
  alphabet, digit_char, emit, CharClass, skipped, digit, invalid, position, to_ascii_uppercase,
  read_char,
}

-- The character reads back as the digit.
reads : ℕ → CharClass → Bool
reads v skipped = false
reads v invalid = false
reads v (digit u) = u == v

reads→eq : (v : ℕ) (c : CharClass) → reads v c ≡ true → c ≡ digit v
unfolding reads
reads→eq v skipped h = cc
reads→eq v invalid h = cc
reads→eq v (digit u) h = ap digit (ground arith)

all_read : ℕ → Bool
unfolding reads read_char digit_char
all_read zero = true
all_read (suc v) = reads v (read_char (digit_char v)) && all_read v

all_read→reads : (n v : ℕ) → all_read n ≡ true → v < n → reads v (read_char (digit_char v)) ≡ true
unfolding all_read
all_read→reads zero v h below = absurd (omega arith)
all_read→reads (suc n) v h below =
    let P : ℕ → Type 0 = λ u. reads u (read_char (digit_char u)) ≡ true in
    let top : P n = ground arith in
    let under : all_read n ≡ true = ground arith in
    elim (Bool-cases (v == n)) [
      | inl last ↦ let same : n ≡ v = ground arith in subst P same top
      | inr other ↦ all_read→reads n v under (ground arith)
    ]

all_read_32 : all_read 32 ≡ true
unfolding all_read read_char digit_char position to_ascii_uppercase contains
all_read_32 = refl

digit_char_mod : (v : ℕ) → digit_char v ≡ digit_char (v % 32)
unfolding digit_char
digit_char_mod v =
    let same : v % 32 ≡ v % 32 % 32 = omega arith in ap (λ n. get_or alphabet n 0) same

pub read_char-digit_char : (v : ℕ) → read_char (digit_char v) ≡ digit (v % 32)
read_char-digit_char v =
    ap read_char (digit_char_mod v)
    ∙ reads→eq (v % 32) _ (all_read→reads 32 (v % 32) all_read_32 (omega arith))

-- Two numbers of rounds of the inner loop of the encoder, `r` of them enough for fewer than 5 * r + 5
-- bits, have the same effect where both are enough: the loop has left through its own test. So two
-- rounds are enough for the 12 bits at most that are there.
emit_rounds :
    (r r' buffer bits : ℕ)
    → bits < 5 * r + 5
    → bits < 5 * r' + 5
    → emit r buffer bits ≡ emit r' buffer bits
unfolding emit
emit_rounds zero zero buffer bits h h' = refl
emit_rounds zero (suc r') buffer bits h h' = let done : leb 5 bits ≡ false = ground arith in rw done
emit_rounds (suc r) zero buffer bits h h' = let done : leb 5 bits ≡ false = ground arith in rw done
emit_rounds (suc r) (suc r') buffer bits h h' = elim (Bool-cases (leb 5 bits)) [
  | inl more ↦
      ap
        (λ (p : Bytes × ℕ).
          if leb 5 bits then (digit_char (buffer / 2 ^ (bits - 5)) ∷ p.0, p.1) else ([], bits))
        (emit_rounds r r' buffer (bits - 5) (omega arith) (ground arith))
  | inr done ↦ rw done
]
