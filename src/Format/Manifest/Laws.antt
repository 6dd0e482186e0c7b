-- ===== src/Format/Manifest/Laws.antt =====
-- What the operations on the tree in memory (manifest.rs) mean: a finite map from names to entries.
use farewell.Prelude.{
  ◌≡◌, refl, sym, ap, ◌∙◌, inl, inr, Bool, true, false, none, some, List, [], ◌∷◌, ◌++◌, Bytes,
  if◌then◌else◌, bytes_eq, bytes_eq_refl, bytes_eq→eq, arith, Bool-cases,
}
use mathlib.Core.Path.{subst}
use farewell.Format.Manifest.{
  FileEntry, Manifest, find_entry, find, retain_other, upsert, remove_first, remove,
}

-- Some entry has the name.
unfoldable pub is_listed : Bytes → List FileEntry → Bool
is_listed name [] = false
is_listed name (e ∷ es) = if bytes_eq e.name name then true else is_listed name es

-- No two entries have one name.
abbrev pub HasUniqueNames : List FileEntry → Type 0
HasUniqueNames [] = Unit
HasUniqueNames (e ∷ es) = (is_listed e.name es ≡ false) × HasUniqueNames es

bytes_eq-join : (a b c : Bytes) → bytes_eq a c ≡ true → bytes_eq b c ≡ true → bytes_eq a b ≡ true
bytes_eq-join a b c h k =
    ap (bytes_eq a) (bytes_eq→eq b c k ∙ sym (bytes_eq→eq a c h)) ∙ bytes_eq_refl a

bytes_eq-left : (a b c : Bytes) → bytes_eq a b ≡ true → bytes_eq a c ≡ bytes_eq b c
bytes_eq-left a b c h = ap (λ t. bytes_eq t c) (bytes_eq→eq a b h)

find_entry-append-retain_other :
    (es : List FileEntry) (e : FileEntry) (name : Bytes)
    → find_entry name (retain_other e.name es ++ (e ∷ []))
      ≡ (if bytes_eq e.name name then some e else find_entry name es)
unfolding find_entry retain_other
find_entry-append-retain_other [] e name = refl
find_entry-append-retain_other (x ∷ xs) e name =
    let ih = find_entry-append-retain_other xs e name in
    elim (Bool-cases (bytes_eq x.name e.name)) [
      | inl same ↦ let left = bytes_eq-left x.name e.name name same in ground (arith, ih)
      | inr other ↦ let both = bytes_eq-join x.name e.name name in ground (arith, ih)
    ]

-- After `upsert`, the entry's name stands for the entry, and every other name for what it stood for.
pub find-upsert :
    (m : Manifest) (e : FileEntry) (name : Bytes)
    → find (upsert m e) name ≡ (if bytes_eq e.name name then some e else find m name)
unfolding find upsert
find-upsert m e name = find_entry-append-retain_other m.entries e name

pub is_listed→find_entry :
    (name : Bytes) (es : List FileEntry) → is_listed name es ≡ false → find_entry name es ≡ none
unfolding is_listed find_entry
is_listed→find_entry name [] h = refl
is_listed→find_entry name (e ∷ es) h = ground (arith, is_listed→find_entry name es)

find_entry-remove_first :
    (name other : Bytes) (es : List FileEntry)
    → HasUniqueNames es
    → find_entry other (remove_first name es)
      ≡ (if bytes_eq name other then none else find_entry other es)
unfolding find_entry remove_first is_listed
find_entry-remove_first name other [] u = ground arith
find_entry-remove_first name other (e ∷ es) (fresh, u) =
    let ih = find_entry-remove_first name other es u in
    elim (Bool-cases (bytes_eq e.name name)) [
      | inl same ↦
          let left = bytes_eq-left e.name name other same in
          let absent = λ (h : bytes_eq e.name other ≡ true).
            is_listed→find_entry other es
              (subst (λ t. is_listed t es ≡ false) (bytes_eq→eq e.name other h) fresh) in
          ground (arith, absent)
      | inr apart ↦ let both = bytes_eq-join e.name name other in ground (arith, ih)
    ]

remove_first-absent :
    (name : Bytes) (es : List FileEntry) → find_entry name es ≡ none → remove_first name es ≡ es
unfolding find_entry remove_first
remove_first-absent name [] h = refl
remove_first-absent name (e ∷ es) h = let ih = remove_first-absent name es in ground (arith, ih)

remove-eq :
    (m : Manifest) (name : Bytes)
    → ((remove m name).1 ≡ find_entry name m.entries)
      × ((remove m name).0.entries ≡ remove_first name m.entries)
unfolding remove
remove-eq m name = let absent = remove_first-absent name m.entries in (ground arith, ground arith)

-- Where names are unique, `remove` returns what the name stood for, leaves the name without an
-- entry, and every other name with what it stood for.
pub find-remove :
    (m : Manifest) (name other : Bytes)
    → HasUniqueNames m.entries
    → ((remove m name).1 ≡ find m name)
      × (find (remove m name).0 other ≡ (if bytes_eq name other then none else find m other))
unfolding find
find-remove m name other u =
    let (found, left) = remove-eq m name in
    (found, ap (find_entry other) left ∙ find_entry-remove_first name other m.entries u)

is_listed-append :
    (name : Bytes) (es : List FileEntry) (e : FileEntry)
    → is_listed name (es ++ (e ∷ [])) ≡ (if is_listed name es then true else bytes_eq e.name name)
unfolding is_listed
is_listed-append name [] e = ground arith
is_listed-append name (x ∷ xs) e = ground (arith, is_listed-append name xs e)

is_listed-retain_other :
    (name gone : Bytes) (es : List FileEntry)
    → is_listed name es ≡ false
    → is_listed name (retain_other gone es) ≡ false
unfolding is_listed retain_other
is_listed-retain_other name gone [] h = refl
is_listed-retain_other name gone (x ∷ xs) h =
    let ih = is_listed-retain_other name gone xs in ground arith

is_listed-remove_first :
    (name gone : Bytes) (es : List FileEntry)
    → is_listed name es ≡ false
    → is_listed name (remove_first gone es) ≡ false
unfolding is_listed remove_first
is_listed-remove_first name gone [] h = refl
is_listed-remove_first name gone (x ∷ xs) h =
    let ih = is_listed-remove_first name gone xs in ground arith

HasUniqueNames-remove_first :
    (name : Bytes) (es : List FileEntry) → HasUniqueNames es → HasUniqueNames (remove_first name es)
unfolding remove_first
HasUniqueNames-remove_first name [] u = tt
HasUniqueNames-remove_first name (x ∷ xs) (fresh, u) = elim (Bool-cases (bytes_eq x.name name)) [
  | inl same ↦ subst (λ b. HasUniqueNames (if b then xs else x ∷ remove_first name xs)) (sym same) u
  | inr other ↦
      subst (λ b. HasUniqueNames (if b then xs else x ∷ remove_first name xs)) (sym other)
        (is_listed-remove_first x.name name xs fresh, HasUniqueNames-remove_first name xs u)
]

HasUniqueNames-retain_other-append :
    (es : List FileEntry) (e : FileEntry)
    → HasUniqueNames es
    → HasUniqueNames (retain_other e.name es ++ (e ∷ []))
unfolding retain_other is_listed
HasUniqueNames-retain_other-append [] e u = (refl, tt)
HasUniqueNames-retain_other-append (x ∷ xs) e (fresh, u) =
    let ih = HasUniqueNames-retain_other-append xs e u in
    let kept = retain_other e.name xs in
    let P : Bool → Type 0 = λ b. HasUniqueNames ((if b then kept else x ∷ kept) ++ (e ∷ [])) in
    let absent = is_listed-retain_other x.name e.name xs fresh in
    elim (Bool-cases (bytes_eq x.name e.name)) [
      | inl same ↦ subst P (sym same) ih
      | inr apart ↦
          let both = bytes_eq-join x.name e.name x.name (bytes_eq_refl x.name) in
          subst P (sym apart) (is_listed-append x.name kept e ∙ (ground arith), ih)
    ]

-- `upsert` and `remove` keep names unique.
pub upsert-HasUniqueNames :
    (m : Manifest) (e : FileEntry) (name : Bytes)
    → HasUniqueNames m.entries
    → HasUniqueNames (upsert m e).entries × HasUniqueNames (remove m name).0.entries
unfolding upsert
upsert-HasUniqueNames m e name u = (
  HasUniqueNames-retain_other-append m.entries e u,
  subst HasUniqueNames (sym (remove-eq m name).1) (HasUniqueNames-remove_first name m.entries u),
)
