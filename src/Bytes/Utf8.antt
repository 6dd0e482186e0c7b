-- ===== src/Bytes/Utf8.antt =====
-- `String::from_utf8`: a byte string is taken exactly if it is well-formed UTF-8, which a small
-- automaton decides (no overlong forms, no surrogates, nothing above U+10FFFF).
pub mod Lossy
use farewell.Prelude.{
  ℕ, ◌≡◌, refl, Bool, true, false, ◌&&◌, [], ◌∷◌, ◌++◌, Bytes, leb, ltb, ◌==◌, if◌then◌else◌,
}

-- `more k`: `k` more continuation bytes; the other states narrow the second byte.
pub data Utf8State : Type 0 where
  start more1 more2 more3 after_e0 after_ed after_f0 after_f4 reject : Utf8State

abbrev between : ℕ → ℕ → ℕ → Bool
between lo hi b = leb lo b && leb b hi

lead : ℕ → Utf8State
lead b =
    if ltb b 0x80
    then start
    else if between 0xc2 0xdf b
    then more1
    else if b == 0xe0
    then after_e0
    else if b == 0xed
    then after_ed
    else if between 0xe1 0xef b
    then more2
    else if b == 0xf0
    then after_f0
    else if between 0xf1 0xf3 b
    then more3
    else if b == 0xf4
    then after_f4
    else reject

step : Utf8State → ℕ → Utf8State
unfolding lead
step start b = lead b
step more1 b = if between 0x80 0xbf b then start else reject
step more2 b = if between 0x80 0xbf b then more1 else reject
step more3 b = if between 0x80 0xbf b then more2 else reject
step after_e0 b = if between 0xa0 0xbf b then more1 else reject
step after_ed b = if between 0x80 0x9f b then more1 else reject
step after_f0 b = if between 0x90 0xbf b then more2 else reject
step after_f4 b = if between 0x80 0x8f b then more2 else reject
step reject b = reject

run : Utf8State → Bytes → Utf8State
unfolding step
run s [] = s
run s (b ∷ bs) = run (step s b) bs

is_start : Utf8State → Bool
is_start start = true
is_start _ = false

unfoldable pub is_utf8 : Bytes → Bool
unfolding run is_start
is_utf8 bs = is_start (run start bs)

run-append : (s : Utf8State) (xs ys : Bytes) → run s (xs ++ ys) ≡ run (run s xs) ys
unfolding run
run-append s [] ys = refl
run-append s (x ∷ xs) ys = run-append (step s x) xs ys

is_start→eq : (s : Utf8State) → is_start s ≡ true → s ≡ start
unfolding is_start
is_start→eq start h = refl
is_start→eq _ h = cc

-- Text put behind text is text.
pub is_utf8-append :
    (xs ys : Bytes) → is_utf8 xs ≡ true → is_utf8 ys ≡ true → is_utf8 (xs ++ ys) ≡ true
unfolding is_utf8
is_utf8-append xs ys hx hy = rw (run-append start xs ys, is_start→eq (run start xs) hx) hy
