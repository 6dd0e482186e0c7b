-- ===== src/License/Key.antt =====
-- crates/farewell_license/src/key.rs: a payload and its signature as a key to paste. The buffers are
-- u32: a shift to the left cuts off what does not fit, and `|` on the bits it has freed is a sum.
pub mod Digits
pub mod Lenient
pub mod RoundTrip
use farewell.Prelude.{
  ℕ, zero, suc, ◌+◌, ◌-◌, ◌*◌, ◌/◌, ◌%◌, ◌^◌, Bool, true, false, ◌&&◌, ◌||◌, Option, none, some,
  List, [], ◌∷◌, ◌++◌, Bytes, length, take, drop, get_or, ltb, leb, ◌==◌, if◌then◌else◌, contains,
}
use farewell.License.Error.{LicenseError, Result, ok, err, malformed_token, ◌>>=◌}

-- The Crockford base 32 alphabet.
abbrev pub alphabet : Bytes
alphabet =
    b'0' ∷ b'1' ∷ b'2' ∷ b'3' ∷ b'4' ∷ b'5' ∷ b'6' ∷ b'7' ∷ b'8' ∷ b'9' ∷ b'A' ∷ b'B' ∷ b'C' ∷ b'D'
    ∷ b'E' ∷ b'F' ∷ b'G' ∷ b'H' ∷ b'J' ∷ b'K' ∷ b'M' ∷ b'N' ∷ b'P' ∷ b'Q' ∷ b'R' ∷ b'S' ∷ b'T'
    ∷ b'V' ∷ b'W' ∷ b'X' ∷ b'Y' ∷ b'Z' ∷ []

abbrev pub group : ℕ
group = 5

-- `ALPHABET[v & 0x1f]`
unfoldable pub digit_char : ℕ → ℕ
digit_char v = get_or alphabet (v % 32) 0

-- `while bits >= 5`: the characters that are complete, and the number of bits left.
unfoldable pub emit : ℕ → ℕ → ℕ → Bytes × ℕ
emit zero buffer bits = ([], bits)
emit (suc rounds) buffer bits =
    let (rest, left) = emit rounds buffer (bits - 5) in
    if leb 5 bits then (digit_char (buffer / 2 ^ (bits - 5)) ∷ rest, left) else ([], bits)

-- The loop over the bytes, and the remaining bits behind it. At most 12 bits are there when the inner
-- loop is entered, so it has two rounds at most.
unfoldable pub base32_encode : Bytes → ℕ → ℕ → Bytes
unfolding emit
base32_encode [] buffer bits =
    if ltb 0 bits then digit_char (buffer * 2 ^ (5 - bits) % 2 ^ 32) ∷ [] else []
base32_encode (b ∷ bs) buffer bits =
    let next = buffer * 2 ^ 8 % 2 ^ 32 + b in
    let (chars, left) = emit 2 next (bits + 8) in chars ++ base32_encode bs next left

-- What the decoder makes of a character.
pub data CharClass : Type 0 where
  skipped : CharClass
  digit : ℕ → CharClass
  invalid : CharClass

-- `position`, in the alphabet from index `i` on.
unfoldable pub position : ℕ → Bytes → ℕ → CharClass
position c [] i = invalid
position c (a ∷ rest) i = let later = position c rest (i + 1) in if a == c then digit i else later

unfoldable pub to_ascii_uppercase : ℕ → ℕ
to_ascii_uppercase c = if leb b'a' c && leb c b'z' then c - 32 else c

-- A character is its code point; `as u8` keeps its lowest byte.
unfoldable pub read_char : ℕ → CharClass
unfolding position to_ascii_uppercase contains
read_char c =
    if contains (b'-' ∷ b' ' ∷ 9 ∷ 10 ∷ 13 ∷ []) c
    then skipped
    else if contains (b'0' ∷ b'o' ∷ b'O' ∷ []) c
    then digit 0
    else if contains (b'1' ∷ b'i' ∷ b'I' ∷ b'l' ∷ b'L' ∷ []) c
    then digit 1
    else position (to_ascii_uppercase c % 256) alphabet 0

abbrev pub prepend : Bool → ℕ → Result Bytes → Result Bytes
prepend true byte (ok out) = ok (byte ∷ out)
prepend false byte (ok out) = ok out
prepend full byte (err e) = err e

-- The body of the loop, `rest` being what follows it.
abbrev pub decode_class : CharClass → (ℕ → ℕ → Result Bytes) → ℕ → ℕ → Result Bytes
decode_class skipped rest buffer bits = rest buffer bits
decode_class invalid rest buffer bits = err malformed_token
decode_class (digit v) rest buffer bits =
    let next = buffer * 2 ^ 5 % 2 ^ 32 + v in
    let full = leb 8 (bits + 5) in
    let left = if full then bits + 5 - 8 else bits + 5 in
    prepend full (next / 2 ^ left % 256) (rest next left)

unfoldable pub base32_decode : Bytes → ℕ → ℕ → Result Bytes
base32_decode [] buffer bits = ok []
base32_decode (c ∷ cs) buffer bits = decode_class (read_char c) (base32_decode cs) buffer bits

-- The dashes of `encode_key`, from character `i` on.
unfoldable pub grouped : ℕ → Bytes → Bytes
grouped i [] = []
grouped i (c ∷ cs) =
    let rest = c ∷ grouped (i + 1) cs in if ltb 0 i && i % group == 0 then b'-' ∷ rest else rest

unfoldable pub encode_key : Bytes → Bytes → Bytes
unfolding base32_encode grouped
encode_key payload signature =
    let plen = length payload % 2 ^ 16 in
    grouped 0 (base32_encode (plen / 256 ∷ plen % 256 ∷ payload ++ signature) 0 0)

-- The blob behind the text.
unfoldable pub split_blob : Bytes → Result (Bytes × Bytes)
split_blob (hi ∷ lo ∷ rest) =
    let plen = hi * 256 + lo in
    if leb (length rest) plen then err malformed_token else ok (take plen rest, drop plen rest)
split_blob _ = err malformed_token

unfoldable pub decode_key : Bytes → Result (Bytes × Bytes)
unfolding base32_decode split_blob
decode_key key = do blob ← base32_decode key 0 0; split_blob blob
