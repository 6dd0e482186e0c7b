-- ===== src/Format/Vault/Commits/Removed.antt =====
-- What `remove_all` and `retain_outside`, the helpers of `delete_folder` (vault.rs), remove.
use farewell.Prelude.{
  ◌≡◌, refl, sym, ap, ◌∙◌, inl, inr, Bool, true, false, ◌&&◌, ◌||◌, not, Option, none, some, List,
  [], ◌∷◌, ◌++◌, Bytes, arith, any, contains, bytes_eq, bytes_eq→eq, bytes_eq_refl, Bool-cases,
  Option-cases, if◌then◌else◌,
}
use farewell.Format.Manifest.{FileEntry, Manifest, ChunkIndex, find, remove}
use farewell.Format.Manifest.Laws.{
  HasUniqueNames, is_listed, is_listed→find_entry, find-remove, upsert-HasUniqueNames,
}
use farewell.Format.Vault.Raw.{chunks_of}
use farewell.Format.Vault.Paths.{slash, starts_with}
use farewell.Format.Vault.Folders.{names_under, remove_all, retain_outside}
use farewell.Format.Vault.Commits.Below.{
  IsBelow, below, tested, inside, outside, starts_with-IsBelow, starts_with-not-IsBelow,
}

-- The name is one of the names.
abbrev pub is_among : Bytes → List Bytes → Bool
is_among name names = any (λ n. bytes_eq n name) names

unique_left :
    (m : Manifest) (n : Bytes) → HasUniqueNames m.entries → HasUniqueNames (remove m n).0.entries
unique_left m n u = (upsert-HasUniqueNames m (record { name = []; size = 0; chunks = [] }) n u).1

pub find-remove_all :
    (m : Manifest) (ns : List Bytes) (name : Bytes)
    → HasUniqueNames m.entries
    → find (remove_all m ns).0 name ≡ (if is_among name ns then none else find m name)
unfolding remove_all any
find-remove_all m [] name u = refl
find-remove_all m (n ∷ ns) name u =
    let ih = find-remove_all (remove m n).0 ns name (unique_left m n u) in
    let step = (find-remove m n name u).1 in
    elim (Bool-cases (bytes_eq n name)) [
      | inl same ↦ ground (arith, ih, step)
      | inr other ↦ ground (arith, ih, step)
    ]

remove-rest :
    (m : Manifest) (n : Bytes)
    → ((remove m n).0.folders ≡ m.folders)
      × ((remove m n).0.child_slots ≡ m.child_slots)
      × ((remove m n).0.owner ≡ m.owner)
unfolding remove
remove-rest m n = (ground arith, ground arith, ground arith)

pub remove_all-rest :
    (m : Manifest) (ns : List Bytes)
    → ((remove_all m ns).0.folders ≡ m.folders)
      × ((remove_all m ns).0.child_slots ≡ m.child_slots)
      × ((remove_all m ns).0.owner ≡ m.owner)
unfolding remove_all
remove_all-rest m [] = (refl, refl, refl)
remove_all-rest m (n ∷ ns) =
    let (f, s, o) = remove_all-rest (remove m n).0 ns in
    let (f', s', o') = remove-rest m n in (f ∙ f', s ∙ s', o ∙ o')

contains-append :
    (xs ys : List ChunkIndex) (i : ChunkIndex)
    → contains (xs ++ ys) i ≡ (contains xs i || contains ys i)
unfolding contains
contains-append [] ys i = refl
contains-append (x ∷ xs) ys i = let ih = contains-append xs ys i in ground arith

-- The chunks of the files that a list of names removes, one name taken off.
freed_step :
    (m : Manifest) (n : Bytes) (ns : List Bytes) (i : ChunkIndex) (e : FileEntry)
    → (remove m n).1 ≡ some e
    → contains (chunks_of (remove_all m (n ∷ ns)).1) i
      ≡ (contains e.chunks i || contains (chunks_of (remove_all (remove m n).0 ns).1) i)
unfolding remove_all
freed_step m n ns i e h =
    let rest = (remove_all (remove m n).0 ns).1 in
    ap
      (λ (r : Option FileEntry).
        contains (chunks_of (elim r [ none ↦ rest | some e ↦ e ∷ rest ])) i)
      h
    ∙ contains-append e.chunks (chunks_of rest) i

freed_skip :
    (m : Manifest) (n : Bytes) (ns : List Bytes) (i : ChunkIndex)
    → (remove m n).1 ≡ none
    → contains (chunks_of (remove_all m (n ∷ ns)).1) i
      ≡ contains (chunks_of (remove_all (remove m n).0 ns).1) i
unfolding remove_all
freed_skip m n ns i h =
    let rest = (remove_all (remove m n).0 ns).1 in
    ap
      (λ (r : Option FileEntry).
        contains (chunks_of (elim r [ none ↦ rest | some e ↦ e ∷ rest ])) i)
      h

-- A file of one of the names holds the chunk.
abbrev pub IsHeld : Manifest → List Bytes → ChunkIndex → Type 0
IsHeld m ns i =
    (name : Bytes) × (e : FileEntry) × (is_among name ns ≡ true)
    × (find m name ≡ some e)
    × (contains e.chunks i ≡ true)

pub remove_all-freed_from :
    (m : Manifest) (ns : List Bytes) (i : ChunkIndex)
    → HasUniqueNames m.entries
    → contains (chunks_of (remove_all m ns).1) i ≡ true
    → IsHeld m ns i
unfolding any contains remove_all
remove_all-freed_from m [] i u h = absurd (cc h)
remove_all-freed_from m (n ∷ ns) i u h =
    let found = (find-remove m n n u).0 in
    let later : contains (chunks_of (remove_all (remove m n).0 ns).1) i ≡ true
        → IsHeld m (n ∷ ns) i =
      λ h'.
        let (name, e, among, finds, has) =
          remove_all-freed_from (remove m n).0 ns i (unique_left m n u) h' in
        let step = (find-remove m n name u).1 in
        (name, e, ground (arith, among), ground (arith, step, finds), has) in
    elim (Option-cases (find m n)) [
      | inl absent ↦ later (sym (freed_skip m n ns i (found ∙ absent)) ∙ h)
      | inr (e, there) ↦ elim (Bool-cases (contains e.chunks i)) [
        | inl has ↦ (n, e, ground (arith, bytes_eq_refl n), there, has)
        | inr has ↦ later (ground (arith, freed_step m n ns i e (found ∙ there), h, has))
      ]
    ]

pub remove_all-freed_all :
    (m : Manifest) (ns : List Bytes) (name : Bytes) (e : FileEntry) (i : ChunkIndex)
    → HasUniqueNames m.entries
    → is_among name ns ≡ true
    → find m name ≡ some e
    → contains e.chunks i ≡ true
    → contains (chunks_of (remove_all m ns).1) i ≡ true
unfolding any
remove_all-freed_all m [] name e i u among finds has = absurd (cc among)
remove_all-freed_all m (n ∷ ns) name e i u among finds has =
    let found = (find-remove m n n u).0 in
    elim (Bool-cases (bytes_eq n name)) [
      | inl same ↦
          let here = found ∙ ap (find m) (bytes_eq→eq n name same) ∙ finds in
          ground (arith, freed_step m n ns i e here, has)
      | inr other ↦
          let step = (find-remove m n name u).1 in
          let ih =
            remove_all-freed_all (remove m n).0 ns name e i (unique_left m n u) (rw other at among)
              (ground (arith, step, finds, other)) has in
          elim (Option-cases (find m n)) [
            | inl absent ↦ freed_skip m n ns i (found ∙ absent) ∙ ih
            | inr (e', there) ↦ ground (arith, freed_step m n ns i e' (found ∙ there), ih)
          ]
    ]

is_among-names_under :
    (prefix name : Bytes) (es : List FileEntry)
    → starts_with prefix name ≡ true
    → is_listed name es ≡ true
    → is_among name (names_under prefix es) ≡ true
unfolding names_under any is_listed
is_among-names_under prefix name [] starts listed = absurd (cc listed)
is_among-names_under prefix name (e ∷ es) starts listed =
    let ih = is_among-names_under prefix name es starts in
    elim (Bool-cases (bytes_eq e.name name)) [
      | inl same ↦
          let first : starts_with prefix e.name ≡ true =
            ap (starts_with prefix) (bytes_eq→eq e.name name same) ∙ starts in
          ground (arith, first, same)
      | inr other ↦ ground (arith, ih, other, listed)
    ]

pub is_among-names_under-not :
    (prefix name : Bytes) (es : List FileEntry)
    → starts_with prefix name ≡ false
    → is_among name (names_under prefix es) ≡ false
unfolding names_under any
is_among-names_under-not prefix name [] starts = refl
is_among-names_under-not prefix name (e ∷ es) starts =
    let ih = is_among-names_under-not prefix name es starts in
    elim (Bool-cases (bytes_eq e.name name)) [
      | inl same ↦
          let first : starts_with prefix e.name ≡ false =
            ap (starts_with prefix) (bytes_eq→eq e.name name same) ∙ starts in
          ground (arith, first, ih)
      | inr other ↦ ground (arith, ih, other)
    ]

abbrev pub is_outside : Bytes → Bytes → Bytes → Bool
is_outside norm prefix f = not (bytes_eq f norm) && not (starts_with prefix f)

pub is_among-retain_outside :
    (norm prefix f : Bytes) (fs : List Bytes)
    → is_among f (retain_outside norm prefix fs) ≡ (is_outside norm prefix f && is_among f fs)
unfolding retain_outside any
is_among-retain_outside norm prefix f [] = ground arith
is_among-retain_outside norm prefix f (x ∷ fs) =
    let ih = is_among-retain_outside norm prefix f fs in
    elim (Bool-cases (bytes_eq x f)) [
      | inl same ↦
          let alike : is_outside norm prefix x ≡ is_outside norm prefix f =
            ap (is_outside norm prefix) (bytes_eq→eq x f same) in
          ground (arith, alike, ih, same)
      | inr other ↦ ground (arith, ih, other)
    ]

-- What is removed below a folder: its files are named, and nothing else is.
pub among-IsBelow :
    (norm name : Bytes) (es : List FileEntry)
    → is_among name (names_under (norm ++ (slash ∷ [])) es) ≡ true
    → IsBelow norm name
among-IsBelow norm name es among = elim (tested norm name) [
  | inside rest b stripped ↦ below rest b
  | outside no' stripped ↦
      let other =
        is_among-names_under-not (norm ++ (slash ∷ [])) name es
          (starts_with-not-IsBelow norm name no') in
      absurd cc
]

pub IsBelow-among :
    (m : Manifest) (norm name : Bytes) (e : FileEntry)
    → IsBelow norm name
    → find m name ≡ some e
    → is_among name (names_under (norm ++ (slash ∷ [])) m.entries) ≡ true
unfolding find
IsBelow-among m norm name e b there = elim (Bool-cases (is_listed name m.entries)) [
  | inl listed ↦
      is_among-names_under (norm ++ (slash ∷ [])) name m.entries (starts_with-IsBelow norm name b)
        listed
  | inr absent ↦ let none' = is_listed→find_entry name m.entries absent in absurd cc
]
