-- ===== src/Bytes.antt =====
-- The byte order of crates/farewell_format: what `byteorder::LittleEndian` reads and writes.
pub mod Utf8
use farewell.Prelude.{
  ℕ, zero, suc, ◌+◌, ◌*◌, ◌/◌, ◌%◌, ◌^◌, ◌<◌, ◌≡◌, refl, List, [], ◌∷◌, Bytes, length, All, arith,
}
use native.Mathlib.Nat.{pow-suc}

-- The `k` lowest bytes of `n`, lowest first. What does not fit `k` bytes is cut off.
unfoldable pub to_le : ℕ → ℕ → Bytes
to_le zero n = []
to_le (suc k) n = (n % 256) ∷ to_le k (n / 256)

unfoldable pub from_le : Bytes → ℕ
from_le [] = 0
from_le (b ∷ bs) = b + 256 * from_le bs

abbrev pub write_u16 : ℕ → Bytes
write_u16 n = to_le 2 n

abbrev pub write_u32 : ℕ → Bytes
write_u32 n = to_le 4 n

abbrev pub write_u64 : ℕ → Bytes
write_u64 n = to_le 8 n

abbrev pub IsByte : ℕ → Type 0
IsByte b = b < 256

pub length-to_le : (k n : ℕ) → length (to_le k n) ≡ k
unfolding to_le
length-to_le zero n = refl
length-to_le (suc k) n = omega (arith, length-to_le k (n / 256))

pub from_le-to_le : (k n : ℕ) → n < 256 ^ k → from_le (to_le k n) ≡ n
unfolding to_le from_le
from_le-to_le zero n h = omega arith
from_le-to_le (suc k) n h = omega (arith, from_le-to_le k (n / 256) (omega (arith, pow-suc 256 k)))

pub from_le-lt : (bs : Bytes) → All IsByte bs → from_le bs < 256 ^ length bs
unfolding from_le
from_le-lt [] h = omega arith
from_le-lt (b ∷ bs) (hb, hbs) = omega (arith, from_le-lt bs hbs, pow-suc 256 (length bs))
