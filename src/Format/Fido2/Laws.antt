-- ===== src/Format/Fido2/Laws.antt =====
-- A key that was enrolled on the mock unlocks the slots that hold it (farewell_fido2, slot.rs).
use farewell.Prelude.{
  ℕ, ◌≡◌, refl, sym, ap, ◌∙◌, ◌⊎◌, inl, inr, false, none, some, List, [], ◌∷◌, Bytes, bytes_eq,
  bytes_eq_refl, bytes_eq-false, All,
}
use mathlib.Core.Path.{subst}
use farewell.Format.Error.{ok}
use farewell.Format.World.{World, IsLawful}
use farewell.Format.Draws.{lift}
use farewell.Format.Draws.Laws.{bind-eq-ok}
use farewell.Format.Slot.{Entry, fido_salt_from_vault_salt}
use farewell.Format.Slot.Unwrap.{recognized}
use farewell.Format.Slot.Opened.{Unlocks, credentials, first_with}
use farewell.Format.Fido2.{
  Enrolled, enrolled, MockAuthenticator, get_cred, insert_cred, fill_or_panic, mock_enroll,
  mock_challenge, mock_device, cred_of, output_of, enroll_hw_key,
}

get_cred-insert_cred :
    (cred key : Bytes) (creds : List (Bytes × Bytes))
    → get_cred cred (insert_cred cred key creds) ≡ some key
unfolding get_cred
get_cred-insert_cred cred key creds = rw (bytes_eq_refl cred) refl

module _ (w : World) where
  -- The key of the credential is in the mock, and the output is its answer for the salt.
  record IsEnrolled (salt cred out : Bytes) (mock : MockAuthenticator) : Type 0 where
    key : Bytes
    held : get_cred cred mock.creds ≡ some key
    output : w.keyed_hash key (fido_salt_from_vault_salt w salt) ≡ out

  mock_enroll-eq-ok :
      (mock : MockAuthenticator) (handle : Bytes) (t : ℕ) {p : Enrolled × MockAuthenticator}
      → (mock_enroll w mock handle t).0 ≡ ok p
      → (cred : Bytes) × (key : Bytes) × (p
          ≡ (enrolled cred, record mock { creds = insert_cred cred key mock.creds }))
  unfolding mock_enroll
  mock_enroll-eq-ok mock handle t h =
      let (cred, t1, e1, h1) = bind-eq-ok (fill_or_panic w 64) _ t h in
      let (key, t2, e2, h2) = bind-eq-ok (fill_or_panic w 32) _ t1 h1 in (cred, key, cc (sym h2))

  challenged :
      (cred key salt : Bytes) (creds : List (Bytes × Bytes)) (rp : Bytes) {out : Bytes}
      → get_cred cred creds ≡ some key
      → output_of (mock_challenge w (record { rp_id = rp; creds = creds }) (cred ∷ []) salt)
        ≡ ok out
      → w.keyed_hash key salt ≡ out
  unfolding mock_challenge
  challenged cred key salt creds rp held h = cc (rw held at h)

  after_enroll :
      (p : Enrolled × MockAuthenticator) (cred0 key salt cred1 out1 cred out : Bytes)
      (mock mock' : MockAuthenticator)
      → p ≡ (enrolled cred0, record mock { creds = insert_cred cred0 key mock.creds })
      → cred_of p.0 ≡ ok cred1
      → output_of (mock_challenge w p.1 (cred1 ∷ []) (fido_salt_from_vault_salt w salt)) ≡ ok out1
      → ◌≡◌ {A = (Bytes × Bytes) × MockAuthenticator} ((cred1, out1), p.1) ((cred, out), mock')
      → IsEnrolled salt cred out mock'
  after_enroll p cred0 key salt cred1 out1 cred out mock mock' shape h2 h3 end =
      let fido_salt = fido_salt_from_vault_salt w salt in
      let first : cred0 ≡ cred1 = cc (subst (λ q. cred_of q.0 ≡ ok cred1) shape h2) in
      let same : cred1 ≡ cred = ap (λ q. q.0.0) end in
      let now : p.1 ≡ mock' = ap (λ q. q.1) end in
      let held : get_cred cred mock'.creds ≡ some key =
        subst (λ c. get_cred c mock'.creds ≡ some key) (first ∙ same)
          (subst (λ m. get_cred cred0 m.creds ≡ some key) (sym (ap (λ q. q.1) shape) ∙ now)
            (get_cred-insert_cred cred0 key mock.creds)) in
      let answers : output_of (mock_challenge w mock' (cred ∷ []) fido_salt) ≡ ok out1 =
        subst (λ c. output_of (mock_challenge w mock' (c ∷ []) fido_salt) ≡ ok out1) same
          (subst (λ m. output_of (mock_challenge w m (cred1 ∷ []) fido_salt) ≡ ok out1) now h3) in
      record {
        key = key;
        held = held;
        output =
            challenged cred key fido_salt mock'.creds mock'.rp_id held answers
            ∙ ap (λ q. q.0.1) end;
      }

  ok-eq {ℓ} : {A : Type ℓ} (x y : A) → ok x ≡ ok y → x ≡ y
  ok-eq x y h = cc h

  enroll_hw_key-IsEnrolled :
      (mock mock' : MockAuthenticator) (salt handle cred out : Bytes) (t : ℕ)
      → (enroll_hw_key w (mock_device w) mock salt handle t).0 ≡ ok ((cred, out), mock')
      → IsEnrolled salt cred out mock'
  unfolding enroll_hw_key
  enroll_hw_key-IsEnrolled mock mock' salt handle cred out t h =
      let (p, t1, e1, h1) = bind-eq-ok (mock_enroll w mock handle) _ t h in
      let (cred0, key, shape) = mock_enroll-eq-ok mock handle t e1 in
      let (cred1, t2, e2, h2) = bind-eq-ok (lift (cred_of p.0)) _ t1 h1 in
      let (out1, t3, e3, h3) =
        bind-eq-ok
          (lift (output_of (mock_challenge w p.1 (cred1 ∷ []) (fido_salt_from_vault_salt w salt))))
          _ t2 h2 in
      after_enroll p cred0 key salt cred1 out1 cred out mock mock' shape e2 e3 (ok-eq _ _ h3)

  -- A candidate is the credential, or the mock has no key for it.
  abbrev pub KnowsOnly : Bytes → MockAuthenticator → List Entry → Type 0
  KnowsOnly cred mock =
      All (λ e. (e.credential_id ≡ cred) ⊎ (get_cred e.credential_id mock.creds ≡ none))

  answers_first :
      (salt cred out : Bytes) (mock : MockAuthenticator) (es : List Entry) (e : Entry)
      → IsEnrolled salt cred out mock
      → KnowsOnly cred mock es
      → first_with cred es ≡ some e
      → mock_challenge w mock (credentials es) (fido_salt_from_vault_salt w salt)
        ≡ recognized cred out
  unfolding mock_challenge first_with
  answers_first salt cred out mock [] e p knows h = cc
  answers_first salt cred out mock (x ∷ es) e p (here, there) h = elim here [
    | inl same ↦
        let held : get_cred x.credential_id mock.creds ≡ some p.key =
          ap (λ c. get_cred c mock.creds) same ∙ p.held in
        rw held (
          ap (λ c. recognized c (w.keyed_hash p.key (fido_salt_from_vault_salt w salt))) same
          ∙ ap (recognized cred) p.output)
    | inr unknown ↦
        let other : bytes_eq x.credential_id cred ≡ false =
          bytes_eq-false x.credential_id cred
            (λ same. cc (sym unknown ∙ ap (λ c. get_cred c mock.creds) same ∙ p.held)) in
        rw unknown (answers_first salt cred out mock es e p there (rw other at h))
  ]

  -- A key that was enrolled on the mock for a salt unlocks a slot of that salt: among its entries the
  -- first with the credential has the output that the enrolling returned, and the mock has none of the
  -- other credentials.
  pub enroll_hw_key-Unlocks :
      (lawful : IsLawful w) (passphrase_key : Bytes) (mock mock' : MockAuthenticator)
      (salt handle : Bytes) (e : Entry) (es : List Entry) (t : ℕ)
      → (enroll_hw_key w (mock_device w) mock salt handle t).0
        ≡ ok ((e.credential_id, e.hmac_output), mock')
      → KnowsOnly e.credential_id mock' es
      → first_with e.credential_id es ≡ some e
      → Unlocks w lawful passphrase_key salt es (some (mock_challenge w mock'))
  unfolding first_with
  enroll_hw_key-Unlocks lawful passphrase_key mock mock' salt handle e es t h knows first =
      Unlocks.present (mock_challenge w mock') e refl
        (λ none'. cc (sym first ∙ ap (first_with e.credential_id) none')) first
        (answers_first salt e.credential_id e.hmac_output mock' es e
          (enroll_hw_key-IsEnrolled mock mock' salt handle e.credential_id e.hmac_output t h) knows
          first)
