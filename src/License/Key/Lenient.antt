-- ===== src/License/Key/Lenient.antt =====
-- What the decoder of key.rs takes no notice of: `decode_key` is case-insensitive, ignores dashes and
-- white space, and reads the look-alikes of 0 and 1 as digits.
use farewell.Prelude.{ℕ, ◌-◌, ◌≤◌, [], ◌∷◌, Bytes}

-- The dash, the space, and tab, line feed and carriage return.
pub data IsBlank : ℕ → Type 0 where
  dash : IsBlank b'-'
  space : IsBlank b' '
  tab : IsBlank 9
  line_feed : IsBlank 10
  carriage_return : IsBlank 13

-- A character and one that may be typed in its place.
pub data Resembles : ℕ → ℕ → Type 0 where
  lower_case : (c : ℕ) → b'a' ≤ c → c ≤ b'z' → Resembles (c - 32) c
  small_o : Resembles b'0' b'o'
  capital_o : Resembles b'0' b'O'
  small_i : Resembles b'1' b'i'
  capital_i : Resembles b'1' b'I'
  small_l : Resembles b'1' b'l'
  capital_l : Resembles b'1' b'L'

-- Two texts of one key: blanks come and go, and characters are replaced.
pub data IsAlike : Bytes → Bytes → Type 0 where
  nil : IsAlike [] []
  same : (c : ℕ) {cs ds : Bytes} → IsAlike cs ds → IsAlike (c ∷ cs) (c ∷ ds)
  blank : {b : ℕ} {cs ds : Bytes} → IsBlank b → IsAlike cs ds → IsAlike cs (b ∷ ds)
  replaced : {c d : ℕ} {cs ds : Bytes} → Resembles c d → IsAlike cs ds → IsAlike (c ∷ cs) (d ∷ ds)
  turned : {cs ds : Bytes} → IsAlike cs ds → IsAlike ds cs
  chained : {bs cs ds : Bytes} → IsAlike bs cs → IsAlike cs ds → IsAlike bs ds
