-- ===== src/Format/Vault/Paths.antt =====
-- The path helpers of vault.rs. A path is a byte string whose components stand between slashes.
use farewell.Prelude.{
  ℕ, suc, Bool, true, false, ◌&&◌, ◌||◌, Option, none, some, List, [], ◌∷◌, ◌++◌, Bytes, length,
  take, ltb, ◌==◌, if◌then◌else◌, bytes_eq, any,
}
use farewell.Format.Manifest.{is_ascii_control}

abbrev pub slash : ℕ
slash = b'/'

abbrev pub push_front : ℕ → List Bytes → List Bytes
push_front b [] = (b ∷ []) ∷ []
push_front b (part ∷ parts) = (b ∷ part) ∷ parts

-- `path.split('/')`
unfoldable pub split_slash : Bytes → List Bytes
split_slash [] = [] ∷ []
split_slash (b ∷ bs) =
    let parts = split_slash bs in if b == slash then [] ∷ parts else push_front b parts

-- `filter(|c| !c.is_empty())`
unfoldable pub non_empty : List Bytes → List Bytes
non_empty [] = []
non_empty ([] ∷ parts) = non_empty parts
non_empty ((b ∷ bs) ∷ parts) = (b ∷ bs) ∷ non_empty parts

-- `parts.join("/")`
unfoldable pub join_slash : List Bytes → Bytes
join_slash [] = []
join_slash (part ∷ []) = part
join_slash (part ∷ (next ∷ parts)) = part ++ (slash ∷ join_slash (next ∷ parts))

unfoldable pub normalize_folder : Bytes → Option Bytes
unfolding split_slash non_empty join_slash any is_ascii_control
normalize_folder path = elim (non_empty (split_slash path)) [
  | [] ↦ none
  | part ∷ parts ↦
      if any (any is_ascii_control) (part ∷ parts) then none else some (join_slash (part ∷ parts))
]

-- The position of the last slash.
unfoldable pub rfind_slash : Bytes → Option ℕ
rfind_slash [] = none
rfind_slash (b ∷ bs) = elim (rfind_slash bs) [
  | some i ↦ some (suc i)
  | none ↦ if b == slash then some 0 else none
]

unfoldable pub parent_folder : Bytes → Option Bytes
unfolding rfind_slash
parent_folder name = elim (rfind_slash name) [ none ↦ none | some i ↦ some (take i name) ]

-- The loop of `ancestor_paths`: `acc` is the path so far.
unfoldable pub ancestors_from : Bytes → List Bytes → List Bytes
ancestors_from acc [] = []
ancestors_from acc (comp ∷ comps) =
    let acc' = (if length acc == 0 then comp else acc ++ (slash ∷ comp)) in
    acc' ∷ ancestors_from acc' comps

unfoldable pub ancestor_paths : Bytes → List Bytes
unfolding split_slash non_empty ancestors_from
ancestor_paths path = ancestors_from [] (non_empty (split_slash path))

-- The order of `String`s, by bytes.
unfoldable pub bytes_lt : Bytes → Bytes → Bool
bytes_lt [] [] = false
bytes_lt [] (y ∷ ys) = true
bytes_lt (x ∷ xs) [] = false
bytes_lt (x ∷ xs) (y ∷ ys) = ltb x y || (x == y && bytes_lt xs ys)

-- `BTreeSet::insert`, the set being the sorted list of its items.
unfoldable pub set_insert : Bytes → List Bytes → List Bytes
unfolding bytes_lt bytes_eq
set_insert x [] = x ∷ []
set_insert x (y ∷ ys) =
    let rest = set_insert x ys in
    if bytes_eq x y then y ∷ ys else if bytes_lt x y then x ∷ (y ∷ ys) else y ∷ rest

unfoldable pub insert_all : List Bytes → List Bytes → List Bytes
unfolding set_insert
insert_all [] set = set
insert_all (x ∷ xs) set = insert_all xs (set_insert x set)

-- `name.strip_prefix(prefix)`
unfoldable pub strip_prefix : Bytes → Bytes → Option Bytes
strip_prefix [] name = some name
strip_prefix (p ∷ ps) [] = none
strip_prefix (p ∷ ps) (b ∷ bs) = if p == b then strip_prefix ps bs else none

-- `name.starts_with(prefix)`
unfoldable pub starts_with : Bytes → Bytes → Bool
unfolding strip_prefix
starts_with prefix name = elim (strip_prefix prefix name) [ none ↦ false | some rest ↦ true ]
