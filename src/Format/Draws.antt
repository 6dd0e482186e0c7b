-- ===== src/Format/Draws.antt =====
-- Code that draws random bytes and keeps no other state: its state is the clock.
pub mod Laws
use farewell.Prelude.{ℕ, ◌+◌, Bytes}
use farewell.Format.Error.{Result, ok, err, panic}
use farewell.Format.World.{World}
use farewell.Format.Chunk.{crypto_result}

abbrev pub D {ℓ} : Type ℓ → Type ℓ
D A = ℕ → Result A × ℕ

module _ {ℓ} {A : Type ℓ} where
  abbrev pub pure : A → D A
  pure a t = (ok a, t)

  -- `?` on a value that is not drawn.
  abbrev pub lift : Result A → D A
  lift r t = (r, t)

module _ {ℓ κ} {A : Type ℓ} {B : Type κ} where
  abbrev pub continue : Result A → (A → D B) → D B
  continue (ok a) f t = f a t
  continue (err e) f t = (err e, t)
  continue panic f t = (panic, t)

  infixl 5 ◌>>=◌ ◌>>◌
  abbrev pub ◌>>=◌ : D A → (A → D B) → D B
  ◌>>=◌ m f t = let (r, t') = m t in continue r f t'

  abbrev pub ◌>>◌ : D A → D B → D B
  m >> k = m >>= λ _. k

-- `rng::fill` of a number of bytes.
unfoldable pub fill : World → ℕ → D Bytes
unfolding crypto_result
fill w n t = (crypto_result (w.fill t n), t + 1)
