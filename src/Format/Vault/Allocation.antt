-- ===== src/Format/Vault/Allocation.antt =====
-- What `allocate_chunks` of vault.rs hands out.
use farewell.Prelude.{
  ℕ, zero, suc, ◌+◌, ◌-◌, ◌%◌, ◌^◌, ◌<◌, ◌≤◌, ◌≡◌, refl, sym, ap, inl, inr, Bool, true, false, some,
  List, [], ◌∷◌, ◌++◌, arith, length, take, contains, ◌==◌, ltb, if◌then◌else◌, Bool-cases, All,
  IsDistinct, append-nil, length-append, length-take,
}
use mathlib.Core.Path.{subst}
use farewell.Format.Error.{ok}
use farewell.Format.Manifest.{ChunkIndex}
use farewell.Format.World.{World, IsLawful}
use farewell.Format.Vault.State.{Vault, MountedLevel, pure}
use farewell.Format.Vault.Keeps.{Unchanged, Unchanged-refl, at_level, if_case}
use farewell.Format.Vault.Raw.{
  mounted_level, is_used, is_candidate, indices, filter_free, tick, allocate_chunks, chunks_of,
  num_slots,
}

module _ {ℓ κ ι} {A : Type ℓ} {P : A → Type κ} {Q : A → Type ι} where
  pub All-map : (xs : List A) → ((a : A) → P a → Q a) → All P xs → All Q xs
  All-map [] f h = tt
  All-map (x ∷ xs) f (p, ps) = (f x p, All-map xs f ps)

contains-filter_free :
    (p : ℕ → Bool) (cs : List ℕ) (c : ℕ)
    → contains (filter_free p cs) c ≡ true
    → (p c ≡ true) × (contains cs c ≡ true)
unfolding contains filter_free
contains-filter_free p [] c h = absurd cc
contains-filter_free p (x ∷ xs) c h =
    let ih = contains-filter_free p xs c in
    let same = λ (e : x ≡ c). ap p e in
    elim (Bool-cases (p x)) [
      | inl good ↦ (ground arith, ground arith)
      | inr bad ↦ (ground arith, ground arith)
    ]

filter_free-absent :
    (p : ℕ → Bool) (cs : List ℕ) (c : ℕ)
    → contains cs c ≡ false
    → contains (filter_free p cs) c ≡ false
unfolding contains filter_free
filter_free-absent p [] c h = refl
filter_free-absent p (x ∷ xs) c h = let ih = filter_free-absent p xs c in ground arith

filter_free-IsDistinct :
    (p : ℕ → Bool) (cs : List ℕ) → IsDistinct cs → IsDistinct (filter_free p cs)
unfolding filter_free
filter_free-IsDistinct p [] h = tt
filter_free-IsDistinct p (x ∷ xs) (fresh, h) =
    let rest = filter_free p xs in
    let P : Bool → Type 0 = λ b. IsDistinct (if b then x ∷ rest else rest) in
    elim (Bool-cases (p x)) [
      | inl good ↦
          subst P (sym good) (filter_free-absent p xs x fresh, filter_free-IsDistinct p xs h)
      | inr bad ↦ subst P (sym bad) (filter_free-IsDistinct p xs h)
    ]

contains-indices : (s n c : ℕ) → contains (indices s n) c ≡ true → (s ≤ c) × (c < s + n)
unfolding contains indices
contains-indices s zero c h = absurd cc
contains-indices s (suc n) c h = let ih = contains-indices (s + 1) n c in ground arith

indices-absent : (c s n : ℕ) → c < s → contains (indices s n) c ≡ false
unfolding contains indices
indices-absent c s zero h = refl
indices-absent c s (suc n) h = let ih = indices-absent c (s + 1) n (omega arith) in ground arith

indices-IsDistinct : (s n : ℕ) → IsDistinct (indices s n)
unfolding indices
indices-IsDistinct s zero = tt
indices-IsDistinct s (suc n) =
    (indices-absent s (s + 1) n (omega arith), indices-IsDistinct (s + 1) n)

-- A chunk that may be overwritten: in the file and in the level's stripe, not the manifest's, of no
-- file, not set aside, and not one that the caller keeps for itself.
pub record IsFree (m : MountedLevel) (reusable : List ChunkIndex) (total c : ℕ) : Type 0 where
  pub in_range : c < total
  pub in_stripe : (c % num_slots == m.slot) ≡ true
  pub not_manifest : (c == m.manifest_chunk) ≡ false
  pub of_no_file : contains (chunks_of m.manifest.entries) c ≡ false
  pub not_off_limits : contains m.off_limits c ≡ false
  pub not_reusable : contains reusable c ≡ false

is_candidate-IsFree :
    (m : MountedLevel) (reusable : List ChunkIndex) (n c : ℕ)
    → contains (filter_free (is_candidate m reusable) (indices 0 n)) c ≡ true
    → IsFree m reusable n c
unfolding is_candidate is_used
is_candidate-IsFree m reusable n c h =
    let (good, inside) = contains-filter_free (is_candidate m reusable) (indices 0 n) c h in
    let (from, below) = contains-indices 0 n c inside in
    record {
      in_range = omega arith;
      in_stripe = ground arith;
      not_manifest = ground arith;
      of_no_file = ground arith;
      not_off_limits = ground arith;
      not_reusable = ground arith;
    }

-- A successful allocation.
pub record IsAllocated (m : MountedLevel) (reusable : List ChunkIndex) (total n : ℕ)
    (out : List ChunkIndex) : Type 0 where
  pub fresh : List ChunkIndex
  pub reuses_first : out ≡ take n reusable ++ fresh
  pub enough : length out ≡ n
  pub distinct : IsDistinct fresh
  pub free : All (IsFree m reusable total) fresh

pure-eq-ok {ℓ} : {A : Type ℓ} {a b : A} {v v' : Vault} → pure a v ≡ (ok b, v') → (a ≡ b) × (v ≡ v')
pure-eq-ok h = (cc (ap (λ p. p.0) h), ap (λ p. p.1) h)

module _ (w : World) (lawful : IsLawful w) where
  reuse-IsAllocated :
      (m : MountedLevel) (reusable : List ChunkIndex) (total n : ℕ)
      → (length (take n reusable) == n) ≡ true
      → IsAllocated m reusable total n (take n reusable)
  reuse-IsAllocated m reusable total n h = record {
    fresh = [];
    reuses_first = sym (append-nil (take n reusable));
    enough = ground arith;
    distinct = tt;
    free = tt;
  }

  pick-IsAllocated :
      (m : MountedLevel) (reusable : List ChunkIndex) (total n t : ℕ)
      → let needed = n - length (take n reusable) in
        let candidates = filter_free (is_candidate m reusable) (indices 0 total) in
        ltb (length (w.choose_multiple t candidates needed)) needed ≡ false
        → IsAllocated m reusable total n (take n reusable ++ w.choose_multiple t candidates needed)
  pick-IsAllocated m reusable total n t h =
      let needed = n - length (take n reusable) in
      let candidates = filter_free (is_candidate m reusable) (indices 0 total) in
      let picked = w.choose_multiple t candidates needed in
      record {
        fresh = picked;
        reuses_first = refl;
        enough =
            let low : needed ≤ length picked = ground arith in
            omega (
              arith,
              length-append (take n reusable) picked,
              length-take n reusable,
              low,
              lawful.length-choose_multiple t candidates needed,
            );
        distinct = lawful.choose_multiple-IsDistinct t candidates needed (
            filter_free-IsDistinct (is_candidate m reusable) (indices 0 total)
              (indices-IsDistinct 0 total));
        free =
            All-map picked (is_candidate-IsFree m reusable total)
              (lawful.choose_multiple-from t candidates needed);
      }

  -- An allocation that succeeds has changed nothing; it takes the reusable chunks first and then
  -- chunks that are free, no two of them equal, and hands out as many as were asked for.
  pub allocate_chunks-IsAllocated :
      (n : ℕ) (reusable out : List ChunkIndex) (m : MountedLevel) (v v' : Vault)
      → v.mounted ≡ some m
      → allocate_chunks w n reusable v ≡ (ok out, v')
      → IsAllocated m reusable (v.total_chunks % 2 ^ 32) n out × Unchanged v v'
  unfolding allocate_chunks mounted_level tick
  allocate_chunks-IsAllocated n reusable out m v v' mounted h =
      let here : Vault = record v { mounted = some m } in
      let total = v.total_chunks % 2 ^ 32 in
      let h0 =
        subst (λ t. allocate_chunks w n reusable t ≡ (ok out, v')) (at_level v m mounted) h in
      let P : Vault → Type 0 =
        λ t. IsAllocated m reusable (t.total_chunks % 2 ^ 32) n out × Unchanged t v' in
      subst P (sym (at_level v m mounted))
        (elim (if_case (length (take n reusable) == n) _ _ here h0) [
          | inl (all', h1) ↦
              let (e, moved) = pure-eq-ok h1 in
              (
                subst (IsAllocated m reusable total n) e
                    (reuse-IsAllocated m reusable total n all'),
                subst (Unchanged here) moved (Unchanged-refl here),
              )
          | inr (some', h1) ↦
              let now : Vault = record here { clock = v.clock + 1 } in
              let needed = n - length (take n reusable) in
              let candidates = filter_free (is_candidate m reusable) (indices 0 total) in
              let picked = w.choose_multiple v.clock candidates needed in
              elim (if_case (ltb (length picked) needed) _ _ now h1) [
                | inl (short, h2) ↦ absurd (cc (ap (λ p. p.0) h2))
                | inr (long, h2) ↦
                    let (e, moved) = pure-eq-ok h2 in
                    (
                      subst (IsAllocated m reusable total n) e
                          (pick-IsAllocated m reusable total n v.clock long),
                      subst (Unchanged here) moved (record {
                        same_file = refl;
                        same_total = refl;
                        same_mounted = refl;
                        same_poisoned = refl;
                      }),
                    )
              ]
        ])
