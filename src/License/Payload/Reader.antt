-- ===== src/License/Payload/Reader.antt =====
-- The `Cursor` of `Payload::from_bytes` (crates/farewell_license/src/payload.rs), as the bytes that
-- are left, and its reads.
use farewell.Prelude.{ℕ, ◌-◌, ◌^◌, Bytes, length, take, drop, ltb, if◌then◌else◌}
use farewell.Bytes.{to_le, from_le}
use farewell.License.Error.{LicenseError, Result, ok, err, truncated}

abbrev pub R {ℓ} : Type ℓ → Type ℓ
R A = Bytes → Result (A × Bytes)

module _ {ℓ} {A : Type ℓ} where
  abbrev pub pure : A → R A
  pure a bytes = ok (a, bytes)

  abbrev pub fail : LicenseError → R A
  fail e bytes = err e

  abbrev pub lift : Result A → R A
  lift (ok a) bytes = ok (a, bytes)
  lift (err e) bytes = err e

module _ {ℓ κ} {A : Type ℓ} {B : Type κ} where
  infixl 5 ◌>>=◌
  abbrev pub ◌>>=◌ : R A → (A → R B) → R B
  ◌>>=◌ m next bytes = elim (m bytes) [ ok (a, rest) ↦ next a rest | err e ↦ err e ]

-- `n` bytes, or the error that names how many are missing.
unfoldable pub read_bytes : ℕ → ℕ → R Bytes
read_bytes needed n bytes =
    if ltb (length bytes) n then err (truncated needed) else ok (take n bytes, drop n bytes)

unfoldable pub read_exact : ℕ → R Bytes
unfolding read_bytes
read_exact n = read_bytes n n

-- `cur.read_uN().map_err(io_truncate)`
unfoldable pub read_number : ℕ → R ℕ
unfolding read_bytes
read_number n = do bytes ← read_bytes 1 n; pure (from_le bytes)

abbrev pub read_u8 : R ℕ
read_u8 = read_number 1

abbrev pub read_u16 : R ℕ
read_u16 = read_number 2

abbrev pub read_u32 : R ℕ
read_u32 = read_number 4

-- An i64: `negsuc n` is - (n + 1).
pub data ℤ : Type 0 where
  pos negsuc : ℕ → ℤ

-- Two's complement.
unfoldable pub write_i64 : ℤ → Bytes
write_i64 (ℤ.pos n) = to_le 8 n
write_i64 (ℤ.negsuc n) = to_le 8 (2 ^ 64 - 1 - n)

abbrev pub to_signed : ℕ → ℤ
to_signed word = if ltb word (2 ^ 63) then ℤ.pos word else ℤ.negsuc (2 ^ 64 - 1 - word)

unfoldable pub read_i64 : R ℤ
unfolding read_number
read_i64 = do word ← read_number 8; pure (to_signed word)
