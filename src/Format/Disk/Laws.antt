-- ===== src/Format/Disk/Laws.antt =====
-- Actions on a vault file, taken apart where they succeed.
use farewell.Prelude.{ℕ, ◌+◌, ◌≡◌, refl, sym, ap, ◌∙◌, inl, inr, Bytes, Bool-cases, Option-cases}
use farewell.Format.Error.{Result, ok, err, panic}
use farewell.Format.World.{World}
use farewell.Format.Draws.{D}
use farewell.Format.Disk.{
  Disk, S, continue, tick, lift, draw, read_region, write_region, sync_disk, ◌>>=◌,
}

pub continue-eq-ok {ℓ κ} :
    {A : Type ℓ} {B : Type κ} (r : Result A) (f : A → S B) (d : Disk) {b : B} {d2 : Disk}
    → continue r f d ≡ (ok b, d2)
    → (a : A) × (r ≡ ok a) × (f a d ≡ (ok b, d2))
continue-eq-ok (ok a) f d h = (a, refl, h)
continue-eq-ok (err e) f d h = absurd (cc (ap (λ p. p.0) h))
continue-eq-ok panic f d h = absurd (cc (ap (λ p. p.0) h))

-- A sequence that succeeds, taken apart.
pub bind-eq-ok {ℓ κ} :
    {A : Type ℓ} {B : Type κ} (m : S A) (f : A → S B) (d : Disk) {b : B} {d2 : Disk}
    → (m >>= f) d ≡ (ok b, d2)
    → (a : A) × (d' : Disk) × (m d ≡ (ok a, d')) × (f a d' ≡ (ok b, d2))
bind-eq-ok m f d h =
    let (a, e, h') = continue-eq-ok (m d).0 f (m d).1 h in (a, (m d).1, λ i. (e i, (m d).1), h')

-- What stands on the disk, whatever the time.
pub record IsSame (d d' : Disk) : Type 0 where
  pub salt : d'.salt ≡ d.salt
  pub slot : d'.slot ≡ d.slot
  pub metadata_blob : d'.metadata_blob ≡ d.metadata_blob
  pub chunks : d'.chunks ≡ d.chunks

abbrev at : ℕ → Disk → Disk
at t d = record d { clock = t }

IsSame-at : (t : ℕ) (d d' : Disk) → at t d ≡ d' → IsSame d d'
IsSame-at t d d' h = record {
  salt = ap (λ x. x.salt) (sym h);
  slot = ap (λ x. x.slot) (sym h);
  metadata_blob = ap (λ x. x.metadata_blob) (sym h);
  chunks = ap (λ x. x.chunks) (sym h);
}

pub IsSame-trans : (a b c : Disk) → IsSame a b → IsSame b c → IsSame a c
IsSame-trans a b c p q = record {
  salt = q.salt ∙ p.salt;
  slot = q.slot ∙ p.slot;
  metadata_blob = q.metadata_blob ∙ p.metadata_blob;
  chunks = q.chunks ∙ p.chunks;
}

pub lift-eq-ok {ℓ} :
    {A : Type ℓ} (r : Result A) (d : Disk) {a : A} {d' : Disk}
    → lift r d ≡ (ok a, d')
    → (r ≡ ok a) × IsSame d d'
lift-eq-ok r d {a} {d'} h = (ap (λ p. p.0) h, IsSame-at d.clock d d' (ap (λ p. p.1) h))

pub draw-eq-ok {ℓ} :
    {A : Type ℓ} (m : D A) (d : Disk) {a : A} {d' : Disk}
    → draw m d ≡ (ok a, d')
    → ((m d.clock).0 ≡ ok a) × IsSame d d'
draw-eq-ok m d {a} {d'} h = (ap (λ p. p.0) h, IsSame-at (m d.clock).1 d d' (ap (λ p. p.1) h))

module _ (w : World) where
  pub read_region-eq-ok :
      (region : Disk → Bytes) (d : Disk) {b : Bytes} {d' : Disk}
      → read_region w region d ≡ (ok b, d')
      → (region (at (d.clock + 1) d) ≡ b) × IsSame d d'
  unfolding read_region tick
  read_region-eq-ok region d {b} {d'} h = elim (Bool-cases (w.read_exact d.clock)) [
    | inl done ↦
        let h' = rw done at h in
        (let e = ap (λ p. p.0) h' in cc, IsSame-at (d.clock + 1) d d' (ap (λ p. p.1) h'))
    | inr fault ↦ absurd (cc (ap (λ p. p.0) (rw fault at h)))
  ]

  pub sync_disk-eq-ok :
      (d : Disk) {u : Unit {0}} {d' : Disk} → sync_disk w d ≡ (ok u, d') → IsSame d d'
  unfolding sync_disk tick
  sync_disk-eq-ok d {u} {d'} h = elim (Bool-cases (w.sync_all d.clock)) [
    | inl done ↦ IsSame-at (d.clock + 1) d d' (ap (λ p. p.1) (rw done at h))
    | inr fault ↦ absurd (cc (ap (λ p. p.0) (rw fault at h)))
  ]

  pub write_region-eq-ok :
      (put : Bytes → S (Unit {0})) (block : Bytes) (d : Disk) {u : Unit {0}} {d' : Disk}
      → write_region w put block d ≡ (ok u, d')
      → put block (at (d.clock + 1) d) ≡ (ok u, d')
  unfolding write_region tick
  write_region-eq-ok put block d {u} {d'} h = elim (Option-cases (w.write_all d.clock)) [
    | inl done ↦ rw done at h
    | inr (torn, fault) ↦
        let (v, d1, e, h') = bind-eq-ok (put torn) _ (at (d.clock + 1) d) (rw fault at h) in
        absurd (cc (ap (λ p. p.0) h'))
  ]
