-- ===== src/Format/Draws/Laws.antt =====
-- Code that draws, taken apart where it succeeds.
use farewell.Prelude.{ℕ, ◌≡◌, refl, Bytes, length}
use farewell.Format.Error.{Result, ok, err, panic}
use farewell.Format.World.{World, IsLawful}
use farewell.Format.Chunk.RoundTrip.{crypto_result-eq-ok}
use farewell.Format.Draws.{D, continue, ◌>>=◌, fill}

pub continue-eq-ok {ℓ κ} :
    {A : Type ℓ} {B : Type κ} (r : Result A) (f : A → D B) (t : ℕ) {b : B}
    → (continue r f t).0 ≡ ok b
    → (a : A) × (r ≡ ok a) × ((f a t).0 ≡ ok b)
continue-eq-ok (ok a) f t h = (a, refl, h)
continue-eq-ok (err e) f t h = absurd (cc h)
continue-eq-ok panic f t h = absurd (cc h)

pub bind-eq-ok {ℓ κ} :
    {A : Type ℓ} {B : Type κ} (m : D A) (f : A → D B) (t : ℕ) {b : B}
    → ((m >>= f) t).0 ≡ ok b
    → (a : A) × (t' : ℕ) × ((m t).0 ≡ ok a) × ((f a t').0 ≡ ok b)
bind-eq-ok m f t h = let (a, e, h') = continue-eq-ok (m t).0 f (m t).1 h in (a, (m t).1, e, h')

-- A draw that succeeds has the length that was asked for.
pub length-fill :
    (w : World) (lawful : IsLawful w) (n t : ℕ) {b : Bytes} → (fill w n t).0 ≡ ok b → length b ≡ n
unfolding fill
length-fill w lawful n t {b} h = lawful.length-fill t n b (crypto_result-eq-ok (w.fill t n) h)
