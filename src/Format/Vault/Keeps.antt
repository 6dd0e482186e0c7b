-- ===== src/Format/Vault/Keeps.antt =====
-- What an action leaves alone, by the way that it is built, over a relation between the state
-- before and the state after.
use farewell.Prelude.{Bool, true, false, some, ◌≡◌, ◌⊎◌, inl, inr, refl, ◌∙◌, if◌then◌else◌, arith}
use farewell.Format.Error.{Result, ok, err, panic, FormatError}
use farewell.Format.Vault.State.{Vault, MountedLevel, M, pure, fail, lift, continue, ◌>>=◌}
use farewell.Format.Vault.Raw.{destructive_phase, poison, tick}

-- Nothing but the clock has moved.
pub record Unchanged (v v' : Vault) : Type 0 where
  pub same_file : v'.file ≡ v.file
  pub same_total : v'.total_chunks ≡ v.total_chunks
  pub same_mounted : v'.mounted ≡ v.mounted
  pub same_poisoned : v'.poisoned ≡ v.poisoned

pub Unchanged-refl : (v : Vault) → Unchanged v v
Unchanged-refl v = record {
  same_file = refl;
  same_total = refl;
  same_mounted = refl;
  same_poisoned = refl;
}

pub Unchanged-trans : {v v' v2 : Vault} → Unchanged v v' → Unchanged v' v2 → Unchanged v v2
Unchanged-trans a b = record {
  same_file = b.same_file ∙ a.same_file;
  same_total = b.same_total ∙ a.same_total;
  same_mounted = b.same_mounted ∙ a.same_mounted;
  same_poisoned = b.same_poisoned ∙ a.same_poisoned;
}

-- The vault as one with its level written out.
pub at_level :
    (v : Vault) (m : MountedLevel) → v.mounted ≡ some m → v ≡ record v { mounted = some m }
at_level v m e = λ i. record v { mounted = e i }

-- Which branch a result comes from.
pub if_case {ℓ} :
    {A : Type ℓ} (b : Bool) (x y : M A) (v : Vault) {r : Result A × Vault}
    → (if b then x else y) v ≡ r
    → ((b ≡ true) × (x v ≡ r)) ⊎ ((b ≡ false) × (y v ≡ r))
if_case true x y v h = inl (refl, h)
if_case false x y v h = inr (refl, h)

-- An action that only reads, whatever its result.
pub record IsQuiet {ℓ} {A : Type ℓ} (m : M A) : Type 0 where
  pub at : (v : Vault) → Unchanged v (m v).1

-- An action that, where it returns an error, has changed nothing or has poisoned the session.
pub record Refuses {ℓ} {A : Type ℓ} (m : M A) : Type ℓ where
  pub at :
      (v : Vault) (e : FormatError)
      → (m v).0 ≡ err e
      → Unchanged v (m v).1 ⊎ ((m v).1.poisoned ≡ true)

module _ {ℓ} {A : Type ℓ} where
  pub IsQuiet-pure : (a : A) → IsQuiet (pure a)
  IsQuiet-pure a = record { at = λ v. Unchanged-refl v }

  pub IsQuiet-fail : (e : FormatError) → IsQuiet (fail {A = A} e)
  IsQuiet-fail e = record { at = λ v. Unchanged-refl v }

  pub IsQuiet-lift : (r : Result A) → IsQuiet (lift r)
  IsQuiet-lift r = record { at = λ v. Unchanged-refl v }

  pub IsQuiet-if : (b : Bool) (m n : M A) → IsQuiet m → IsQuiet n → IsQuiet (if b then m else n)
  IsQuiet-if true m n hm hn = hm
  IsQuiet-if false m n hm hn = hn

  pub Refuses-quiet : (m : M A) → IsQuiet m → Refuses m
  Refuses-quiet m h = record { at = λ v e r. inl (h.at v) }

  pub Refuses-if : (b : Bool) (m n : M A) → Refuses m → Refuses n → Refuses (if b then m else n)
  Refuses-if true m n hm hn = hm
  Refuses-if false m n hm hn = hn

  pub Refuses-destructive_phase : (f : M A) → Refuses (destructive_phase f)
  unfolding destructive_phase
  Refuses-destructive_phase f = record { at = λ v e r. inr (poisons (f v) e r) }
    where
      poisons :
          (p : Result A × Vault) (e : FormatError)
          → (poison p).0 ≡ err e
          → (poison p).1.poisoned ≡ true
      poisons (ok a, v) e r = cc
      poisons (err x, v) e r = refl
      poisons (panic, v) e r = cc

module _ {ℓ κ} {A : Type ℓ} {B : Type κ} where
  continue-IsQuiet :
      (r : Result A) (f : A → M B) (v : Vault)
      → ((a : A) → IsQuiet (f a))
      → Unchanged v (continue r f v).1
  continue-IsQuiet (ok a) f v h = (h a).at v
  continue-IsQuiet (err e) f v h = Unchanged-refl v
  continue-IsQuiet panic f v h = Unchanged-refl v

  pub IsQuiet-bind :
      (m : M A) (f : A → M B) → IsQuiet m → ((a : A) → IsQuiet (f a)) → IsQuiet (m >>= f)
  IsQuiet-bind m f hm hf = record {
    at = λ v. Unchanged-trans (hm.at v) (continue-IsQuiet (m v).0 f (m v).1 hf);
  }

  continue-Refuses :
      (r : Result A) (f : A → M B) (v : Vault) (e : FormatError)
      → ((a : A) → Refuses (f a))
      → (continue r f v).0 ≡ err e
      → Unchanged v (continue r f v).1 ⊎ ((continue r f v).1.poisoned ≡ true)
  continue-Refuses (ok a) f v e h p = (h a).at v e p
  continue-Refuses (err x) f v e h p = inl (Unchanged-refl v)
  continue-Refuses panic f v e h p = inl (Unchanged-refl v)

  -- Reading first, and then a refusal.
  pub Refuses-bind :
      (m : M A) (f : A → M B) → IsQuiet m → ((a : A) → Refuses (f a)) → Refuses (m >>= f)
  Refuses-bind m f hm hf = record {
    at = λ v e p. elim (continue-Refuses (m v).0 f (m v).1 e hf p) [
      | inl same ↦ inl (Unchanged-trans (hm.at v) same)
      | inr poisoned ↦ inr poisoned
    ];
  }

pub IsQuiet-tick : IsQuiet tick
unfolding tick
IsQuiet-tick = record { at = λ v. ground arith }

pub ruleset quiet_rules = (IsQuiet-pure, IsQuiet-fail, IsQuiet-lift, IsQuiet-if, IsQuiet-bind)

pub ruleset refusal_rules = (Refuses-quiet, Refuses-if, Refuses-bind, Refuses-destructive_phase)
