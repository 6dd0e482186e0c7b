-- ===== src/Format/Vault/State.antt =====
-- The state of `Vault`, and actions on it. A method that fails has changed the state up to the
-- point of failure, so an action returns the state beside its result.
use farewell.Prelude.{ℕ, Bool, Option, List, Bytes}
use farewell.Format.Error.{Result, ok, err, panic, FormatError}
use farewell.Format.Manifest.{Manifest, ChunkIndex}

pub record MountedLevel : Type 0 where
  pub master : Bytes
  pub slot : ℕ
  pub manifest_chunk : ChunkIndex
  pub manifest : Manifest
  pub off_limits : List ℕ

-- `file` is the chunks region: the block that stands at each index. `clock` numbers the calls
-- whose outcome is chosen outside. The path, the key count and the rest of the metadata are not
-- touched by the modelled methods.
pub record Vault : Type 0 where
  pub file : ChunkIndex → Bytes
  pub clock : ℕ
  pub total_chunks : ℕ
  pub mounted : Option MountedLevel
  pub poisoned : Bool

abbrev pub M {ℓ} : Type ℓ → Type ℓ
M A = Vault → Result A × Vault

module _ {ℓ} {A : Type ℓ} where
  abbrev pub pure : A → M A
  pure a v = (ok a, v)

  abbrev pub fail : FormatError → M A
  fail e v = (err e, v)

  -- `?` on a value that does not come from the state.
  abbrev pub lift : Result A → M A
  lift r v = (r, v)

module _ {ℓ κ} {A : Type ℓ} {B : Type κ} where
  abbrev pub continue : Result A → (A → M B) → M B
  continue (ok a) f v = f a v
  continue (err e) f v = (err e, v)
  continue panic f v = (panic, v)

  infixl 5 ◌>>=◌ ◌>>◌
  abbrev pub ◌>>=◌ : M A → (A → M B) → M B
  ◌>>=◌ m f v = let (r, v') = m v in continue r f v'

  abbrev pub ◌>>◌ : M A → M B → M B
  m >> k = m >>= λ _. k
