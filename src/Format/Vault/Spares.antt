-- ===== src/Format/Vault/Spares.antt =====
-- What an action may overwrite before its destructive phase: blocks that hold no live data.
pub mod Ranges
pub mod Writes
use farewell.Prelude.{
  ℕ, Bool, true, false, Option, none, some, List, [], ◌∷◌, ◌≡◌, ap, ◌⊎◌, inl, inr, refl, ◌∙◌, ◌||◌,
  if◌then◌else◌, Bool-cases, arith, contains, ◌==◌, leb, All, Bytes,
}
use mathlib.Core.Path.{subst}
use farewell.Format.Error.{Result, ok, err, panic, FormatError, invalid_chunk, io}
use farewell.Format.Manifest.{ChunkIndex}
use farewell.Format.World.{World}
use farewell.Format.Vault.State.{Vault, MountedLevel, M, pure, fail, lift, continue, ◌>>=◌, ◌>>◌}
use farewell.Format.Vault.Raw.{chunks_of, destructive_phase, tick, put_block, write_chunk_raw}
use farewell.Format.Vault.Keeps.{
  Unchanged, IsQuiet, Refuses, Refuses-destructive_phase, IsQuiet-fail, IsQuiet-tick,
}

-- The block is the manifest's or a file's.
unfoldable pub is_live : MountedLevel → ChunkIndex → Bool
is_live m i = i == m.manifest_chunk || contains (chunks_of m.manifest.entries) i

-- The tree in memory is as it was, and so is every live block.
pub record Spares (m : MountedLevel) (v v' : Vault) : Type 0 where
  pub same_total : v'.total_chunks ≡ v.total_chunks
  pub same_mounted : v'.mounted ≡ v.mounted
  pub same_poisoned : v'.poisoned ≡ v.poisoned
  pub blocks : (i : ChunkIndex) → (is_live m i ≡ false) ⊎ (v'.file i ≡ v.file i)

Spares-refl : (m : MountedLevel) (v : Vault) → Spares m v v
Spares-refl m v = record {
  same_total = refl;
  same_mounted = refl;
  same_poisoned = refl;
  blocks = λ i. inr refl;
}

Spares-trans : {m : MountedLevel} {v v' v2 : Vault} → Spares m v v' → Spares m v' v2 → Spares m v v2
Spares-trans a b = record {
  same_total = b.same_total ∙ a.same_total;
  same_mounted = b.same_mounted ∙ a.same_mounted;
  same_poisoned = b.same_poisoned ∙ a.same_poisoned;
  blocks = λ i. elim (a.blocks i) [
    | inl free ↦ inl free
    | inr same ↦ elim (b.blocks i) [ inl free ↦ inl free | inr same' ↦ inr (same' ∙ same) ]
  ];
}

Unchanged→Spares : (m : MountedLevel) {v v' : Vault} → Unchanged v v' → Spares m v v'
Unchanged→Spares m h = record {
  same_total = h.same_total;
  same_mounted = h.same_mounted;
  same_poisoned = h.same_poisoned;
  blocks = λ i. inr (ap (λ f. f i) h.same_file);
}

-- An action on the level that spares what is live, whatever its result.
pub record IsSparing {ℓ} {A : Type ℓ} (m : MountedLevel) (act : M A) : Type 0 where
  pub at : (v : Vault) → v.mounted ≡ some m → Spares m v (act v).1

-- An action on the level that, where it returns an error, has spared what is live or has poisoned
-- the session.
pub record IsCareful {ℓ} {A : Type ℓ} (m : MountedLevel) (act : M A) : Type ℓ where
  pub at :
      (v : Vault) (e : FormatError)
      → v.mounted ≡ some m
      → (act v).0 ≡ err e
      → Spares m v (act v).1 ⊎ ((act v).1.poisoned ≡ true)

module _ {ℓ} {A : Type ℓ} (m : MountedLevel) where
  pub IsSparing-quiet : (act : M A) → IsQuiet act → IsSparing m act
  IsSparing-quiet act h = record { at = λ v mounted. Unchanged→Spares m (h.at v) }

  pub IsCareful-sparing : (act : M A) → IsSparing m act → IsCareful m act
  IsCareful-sparing act h = record { at = λ v e mounted r. inl (h.at v mounted) }

  pub IsSparing-if :
      (b : Bool) (x y : M A) → IsSparing m x → IsSparing m y → IsSparing m (if b then x else y)
  IsSparing-if true x y hx hy = hx
  IsSparing-if false x y hx hy = hy

  pub IsCareful-if :
      (b : Bool) (x y : M A) → IsCareful m x → IsCareful m y → IsCareful m (if b then x else y)
  IsCareful-if true x y hx hy = hx
  IsCareful-if false x y hx hy = hy

  pub IsCareful-destructive_phase : (f : M A) → IsCareful m (destructive_phase f)
  IsCareful-destructive_phase f = record {
    at = λ v e mounted r. elim ((Refuses-destructive_phase f).at v e r) [
      | inl same ↦ inl (Unchanged→Spares m same)
      | inr poisoned ↦ inr poisoned
    ];
  }

module _ {ℓ κ} {A : Type ℓ} {B : Type κ} (m : MountedLevel) where
  continue-IsSparing :
      (r : Result A) (f : A → M B) (v : Vault)
      → v.mounted ≡ some m
      → ((a : A) → r ≡ ok a → IsSparing m (f a))
      → Spares m v (continue r f v).1
  continue-IsSparing (ok a) f v mounted h = (h a refl).at v mounted
  continue-IsSparing (err e) f v mounted h = Spares-refl m v
  continue-IsSparing panic f v mounted h = Spares-refl m v

  pub IsSparing-bind_with :
      (act : M A) (f : A → M B)
      → IsSparing m act
      → ((v : Vault) (a : A) → v.mounted ≡ some m → (act v).0 ≡ ok a → IsSparing m (f a))
      → IsSparing m (act >>= f)
  IsSparing-bind_with act f ha hf = record {
    at = λ v mounted.
        let first = ha.at v mounted in
        Spares-trans first (
          continue-IsSparing (act v).0 f (act v).1 (first.same_mounted ∙ mounted)
            (λ a r. hf v a mounted r));
  }

  pub IsSparing-bind :
      (act : M A) (f : A → M B)
      → IsSparing m act
      → ((a : A) → IsSparing m (f a))
      → IsSparing m (act >>= f)
  IsSparing-bind act f ha hf = IsSparing-bind_with act f ha (λ v a mounted r. hf a)

  continue-IsCareful :
      (r : Result A) (f : A → M B) (v : Vault) (e : FormatError)
      → v.mounted ≡ some m
      → ((a : A) → r ≡ ok a → IsCareful m (f a))
      → (continue r f v).0 ≡ err e
      → Spares m v (continue r f v).1 ⊎ ((continue r f v).1.poisoned ≡ true)
  continue-IsCareful (ok a) f v e mounted h p = (h a refl).at v e mounted p
  continue-IsCareful (err x) f v e mounted h p = inl (Spares-refl m v)
  continue-IsCareful panic f v e mounted h p = inl (Spares-refl m v)

  -- What follows an action that spares may rely on what the action has returned.
  pub IsCareful-bind_with :
      (act : M A) (f : A → M B)
      → IsSparing m act
      → ((v : Vault) (a : A) → v.mounted ≡ some m → (act v).0 ≡ ok a → IsCareful m (f a))
      → IsCareful m (act >>= f)
  IsCareful-bind_with act f ha hf = record {
    at = λ v e mounted p.
        let first = ha.at v mounted in
        elim (continue-IsCareful (act v).0 f (act v).1 e (first.same_mounted ∙ mounted)
          (λ a r. hf v a mounted r) p) [
            | inl same ↦ inl (Spares-trans first same)
            | inr poisoned ↦ inr poisoned
          ];
  }

  pub IsCareful-bind :
      (act : M A) (f : A → M B)
      → IsSparing m act
      → ((a : A) → IsCareful m (f a))
      → IsCareful m (act >>= f)
  IsCareful-bind act f ha hf = IsCareful-bind_with act f ha (λ v a mounted r. hf a)

module _ (w : World) (m : MountedLevel) where
  IsSparing-put_block :
      (idx : ChunkIndex) (block : Bytes) → is_live m idx ≡ false → IsSparing m (put_block idx block)
  unfolding put_block
  IsSparing-put_block idx block free = record {
    at = λ v mounted. record {
      same_total = refl;
      same_mounted = refl;
      same_poisoned = refl;
      blocks = λ i. elim (Bool-cases (i == idx)) [
        | inl same ↦ inl (subst (λ j. is_live m j ≡ false) (ground arith) free)
        | inr other ↦ inr (rw other)
      ];
    };
  }

  IsSparing-outcome :
      (idx : ChunkIndex) (block : Bytes) (outcome : Option Bytes)
      → is_live m idx ≡ false
      → IsSparing m
          (elim outcome [ none ↦ put_block idx block | some torn ↦ put_block idx torn >> fail io ])
  IsSparing-outcome idx block none free = IsSparing-put_block idx block free
  IsSparing-outcome idx block (some torn) free =
      IsSparing-bind m (put_block idx torn) _ (IsSparing-put_block idx torn free)
        (λ u. IsSparing-quiet m (fail io) (IsQuiet-fail io))

  IsSparing-guarded :
      (b : Bool) (e : FormatError) (act : M (Unit {0})) (v : Vault)
      → v.mounted ≡ some m
      → IsSparing m act
      → Spares m v (if b then (err e, v) else act v).1
  IsSparing-guarded true e act v mounted h = Spares-refl m v
  IsSparing-guarded false e act v mounted h = h.at v mounted

  -- Writing a block that is not live, whatever is left of it.
  pub IsSparing-write_chunk_raw :
      (idx : ChunkIndex) (block : Bytes)
      → is_live m idx ≡ false
      → IsSparing m (write_chunk_raw w idx block)
  unfolding write_chunk_raw tick
  IsSparing-write_chunk_raw idx block free = record {
    at = λ v mounted. IsSparing-guarded (leb v.total_chunks idx) (invalid_chunk idx) _ v mounted (
        IsSparing-bind m tick _ (IsSparing-quiet m tick IsQuiet-tick)
          (λ t. IsSparing-outcome idx block (w.write_all t) free));
  }
