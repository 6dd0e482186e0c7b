-- ===== src/Format/Manifest/Codec/Parser.antt =====
-- `ManifestParser`: a cursor over the buffer, and the reads at the cursor.
use farewell.Prelude.{
  ℕ, ◌+◌, ◌-◌, ◌/◌, ◌≡◌, refl, sym, List, [], ◌∷◌, ◌++◌, Bytes, length, ltb, if◌then◌else◌, min,
  max, arith,
}
use farewell.Prelude
use farewell.Bytes.{from_le}
use farewell.Format.Error.{Result, ok, err, panic, FormatError, manifest, truncated}

pub record Parser : Type 0 where
  pub buf : Bytes
  pub pos : ℕ

-- A parsing step returns its value and the moved cursor.
abbrev pub P {ℓ} : Type ℓ → Type ℓ
P A = Parser → Result (A × Parser)

abbrev pub pure {ℓ} : {A : Type ℓ} → A → P A
pure a p = ok (a, p)

abbrev pub fail {ℓ} : {A : Type ℓ} → FormatError → P A
fail e p = err e

infixl 5 ◌>>=◌ ◌>>◌
abbrev pub ◌>>=◌ {ℓ κ} : {A : Type ℓ} {B : Type κ} → P A → (A → P B) → P B
◌>>=◌ m f p = elim (m p) [ ok (a, p') ↦ f a p' | err e ↦ err e | panic ↦ panic ]

abbrev pub ◌>>◌ {ℓ κ} : {A : Type ℓ} {B : Type κ} → P A → P B → P B
m >> k = m >>= λ _. k

unfoldable pub new : Bytes → Parser
new buf = record { buf = buf; pos = 0 }

-- The capacity that is reserved for `count` records of at least `min_record_len` bytes.
unfoldable pub cap : Parser → ℕ → ℕ → ℕ
cap p count min_record_len =
    let remaining = length p.buf - p.pos in min count (remaining / max min_record_len 1 + 1)

unfoldable pub take : ℕ → P Bytes
take n p =
    if ltb (length p.buf - p.pos) n
    then err (manifest truncated)
    else ok (Prelude.take n (Prelude.drop p.pos p.buf), record p { pos = p.pos + n })

-- A slice of known length read as a number: `LittleEndian::read_u16` and its like, and `[0]`.
unfoldable pub read_le : ℕ → P ℕ
unfolding take
read_le n = do bytes ← take n; pure (from_le bytes)

abbrev pub read_u8 : P ℕ
read_u8 = read_le 1

abbrev pub read_u16 : P ℕ
read_u16 = read_le 2

abbrev pub read_u32 : P ℕ
read_u32 = read_le 4

abbrev pub read_u64 : P ℕ
read_u64 = read_le 8
