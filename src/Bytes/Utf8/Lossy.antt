-- ===== src/Bytes/Utf8/Lossy.antt =====
-- `String::from_utf8_lossy`: each maximal part that is not UTF-8 becomes U+FFFD.
use farewell.Prelude.{
  ◌≡◌, refl, sym, ap, ◌∙◌, true, [], ◌∷◌, ◌++◌, Bytes, append-nil, append_assoc, ℕ, if◌then◌else◌,
}
use farewell.Bytes.Utf8.{Utf8State, start, reject, lead, step, run, is_start, is_utf8}

abbrev replacement : Bytes
replacement = 0xef ∷ 0xbf ∷ 0xbd ∷ []

-- A byte that does not go on with the character before it begins anew.
restart : Utf8State → ℕ → Bytes × Bytes × Utf8State
restart start b = (replacement ++ (b ∷ []), [], start)
restart reject b = (replacement ++ replacement, [], start)
restart s b = (replacement, b ∷ [], s)

-- What is put out, the bytes of the character under way, and the state, behind a byte that leads
-- from the state `s` to the first argument.
settle : Utf8State → Bytes → Utf8State → ℕ → Bytes × Bytes × Utf8State
unfolding restart lead is_start
settle start pending s b = (pending ++ (b ∷ []), [], start)
settle reject pending s b = if is_start s then (replacement, [], start) else restart (lead b) b
settle next pending s b = ([], pending ++ (b ∷ []), next)

lossy_from : Bytes → Utf8State → Bytes → Bytes
unfolding settle step is_start
lossy_from pending s [] = if is_start s then pending else replacement
lossy_from pending s (b ∷ bs) =
    let (out, pending', s') = settle (step s b) pending s b in out ++ lossy_from pending' s' bs

unfoldable pub from_utf8_lossy : Bytes → Bytes
unfolding lossy_from
from_utf8_lossy bs = lossy_from [] start bs

run-reject : (bs : Bytes) → run reject bs ≡ reject
unfolding run step
run-reject [] = refl
run-reject (b ∷ bs) = run-reject bs

settled :
    (next : Utf8State) (pending : Bytes) (s : Utf8State) (b : ℕ) (bs : Bytes)
    → ((p : Bytes) (t : Utf8State) → is_start (run t bs) ≡ true → lossy_from p t bs ≡ p ++ bs)
    → is_start (run next bs) ≡ true
    → (settle next pending s b).0
        ++ lossy_from (settle next pending s b).1 (settle next pending s b).2 bs
      ≡ pending ++ (b ∷ bs)
unfolding settle is_start
settled start pending s b bs ih h =
    ap (λ t. (pending ++ (b ∷ [])) ++ t) (ih [] start h) ∙ append_assoc pending (b ∷ []) bs
settled reject pending s b bs ih h = absurd (cc (ap is_start (run-reject bs)))
settled next pending s b bs ih h =
    ih (pending ++ (b ∷ [])) next h ∙ append_assoc pending (b ∷ []) bs

lossy_from-eq :
    (pending : Bytes) (s : Utf8State) (bs : Bytes)
    → is_start (run s bs) ≡ true
    → lossy_from pending s bs ≡ pending ++ bs
unfolding lossy_from run
lossy_from-eq pending s [] h = rw h (sym (append-nil pending))
lossy_from-eq pending s (b ∷ bs) h =
    settled (step s b) pending s b bs (λ p t. lossy_from-eq p t bs) h

-- What is UTF-8 stays as it is.
pub from_utf8_lossy-eq_self : (bs : Bytes) → is_utf8 bs ≡ true → from_utf8_lossy bs ≡ bs
unfolding from_utf8_lossy is_utf8
from_utf8_lossy-eq_self bs h = lossy_from-eq [] start bs h
