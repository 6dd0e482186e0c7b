-- ===== src/Format/Vault/Commits/Below.antt =====
-- The paths below a folder, and the prefix tests of vault.rs that find them.
use farewell.Prelude.{
  ◌≡◌, refl, sym, ap, ◌∙◌, inl, inr, true, false, none, some, [], ◌∷◌, ◌++◌, Bytes, arith, ◌==◌,
  Bool-cases, Option-cases,
}
use farewell.Format.Vault.Paths.{slash, strip_prefix, starts_with}

-- The path is the folder's, a slash, and more.
pub data IsBelow (norm path : Bytes) : Type 0 where
  below : (rest : Bytes) → path ≡ norm ++ (slash ∷ rest) → IsBelow norm path

pub append-slash : (norm rest : Bytes) → (norm ++ (slash ∷ [])) ++ rest ≡ norm ++ (slash ∷ rest)
append-slash [] rest = refl
append-slash (b ∷ bs) rest = ap (λ t. b ∷ t) (append-slash bs rest)

strip_prefix-append : (prefix rest : Bytes) → strip_prefix prefix (prefix ++ rest) ≡ some rest
unfolding strip_prefix
strip_prefix-append [] rest = refl
strip_prefix-append (b ∷ bs) rest = ground (arith, strip_prefix-append bs rest)

strip_prefix-eq-some :
    (prefix path rest : Bytes) → strip_prefix prefix path ≡ some rest → path ≡ prefix ++ rest
unfolding strip_prefix
strip_prefix-eq-some [] path rest h = cc h
strip_prefix-eq-some (p ∷ ps) [] rest h = absurd (cc h)
strip_prefix-eq-some (p ∷ ps) (b ∷ bs) rest h = elim (Bool-cases (p == b)) [
  | inl same ↦
      let ih = strip_prefix-eq-some ps bs rest (rw same at h) in
      let e : p ≡ b = ground (arith, same) in λ i. sym e i ∷ ih i
  | inr other ↦ absurd (cc (rw other at h))
]

-- What the prefix test has found.
pub data Tested (norm path : Bytes) : Type 0 where
  inside :
      (rest : Bytes)
      → path ≡ norm ++ (slash ∷ rest)
      → strip_prefix (norm ++ (slash ∷ [])) path ≡ some rest
      → Tested norm path
  outside : ¬ IsBelow norm path → strip_prefix (norm ++ (slash ∷ [])) path ≡ none → Tested norm path

not-IsBelow :
    (norm path : Bytes) → strip_prefix (norm ++ (slash ∷ [])) path ≡ none → ¬ IsBelow norm path
not-IsBelow norm path h (below rest e) =
    let found : strip_prefix (norm ++ (slash ∷ [])) path ≡ some rest =
      ap (strip_prefix (norm ++ (slash ∷ []))) (e ∙ sym (append-slash norm rest))
      ∙ strip_prefix-append (norm ++ (slash ∷ [])) rest in
    cc

pub tested : (norm path : Bytes) → Tested norm path
tested norm path = elim (Option-cases (strip_prefix (norm ++ (slash ∷ [])) path)) [
  | inl h ↦ outside (not-IsBelow norm path h) h
  | inr (rest, h) ↦ inside rest (strip_prefix-eq-some _ path rest h ∙ append-slash norm rest) h
]

pub starts_with-IsBelow :
    (norm path : Bytes) → IsBelow norm path → starts_with (norm ++ (slash ∷ [])) path ≡ true
unfolding starts_with
starts_with-IsBelow norm path b = elim (tested norm path) [
  | inside rest e h ↦ rw (starts_with, h)
  | outside no' h ↦ absurd (no' b)
]

pub starts_with-not-IsBelow :
    (norm path : Bytes) → ¬ IsBelow norm path → starts_with (norm ++ (slash ∷ [])) path ≡ false
unfolding starts_with
starts_with-not-IsBelow norm path no' = elim (tested norm path) [
  | inside rest e h ↦ absurd (no' (below rest e))
  | outside no'' h ↦ rw (starts_with, h)
]
