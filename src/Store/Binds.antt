-- ===== src/Store/Binds.antt =====
-- A chain of calls that succeeds, one call at a time.
use go_invoicing.Store.{in_tx_ok}
use go_invoicing.Errors.{Result-cases}
use go_invoicing.Base.{◌∙◌}
use go_invoicing.Base.{refl}
use go_invoicing.Base.{◌≡◌, ◌⊎◌, ap, sym, inl, inr, arith, Bool, true, false}
use go_invoicing.Errors.{Result, ok, err, Error}
use go_invoicing.Store.{in_tx_changes, in_tx, Env, Db, M, throw_if, ◌>>=◌}

module _ {ℓ κ} {A : Type ℓ} {B : Type κ} where
  ended_ok :
      (r : Result A) (mid : Db) (f : A → M B) (db : Db) {db' : Db} {b : B}
      → ((λ _. (r, mid)) >>= f) db ≡ (ok b, db')
      → (a : A) × (r ≡ ok a) × (f a mid ≡ (ok b, db'))
  ended_ok (ok a) mid f db h = (a, refl, h)
  ended_ok (err e) mid f db h = absurd (ground arith)

  pub bind_ok :
      (m : M A) (f : A → M B) (db : Db) {db' : Db} {b : B}
      → (m >>= f) db ≡ (ok b, db')
      → (a : A) × (mid : Db) × (m db ≡ (ok a, mid)) × (f a mid ≡ (ok b, db'))
  bind_ok m f db h =
      let (a, e, k) = ended_ok (m db).0 (m db).1 f db h in
      (a, (m db).1, ap (λ r. (r, (m db).1)) e, k)

  ended_cases :
      (r : Result A) (mid : Db) (f : A → M B) (db : Db)
      → ((a : A) × (r ≡ ok a) × (((λ _. (r, mid)) >>= f) db ≡ f a mid))
        ⊎ ((e : Error) × (r ≡ err e) × (((λ _. (r, mid)) >>= f) db ≡ (err e, mid)))
  ended_cases (ok a) mid f db = inl (a, refl, refl)
  ended_cases (err e) mid f db = inr (e, refl, refl)

  -- The first call succeeds and the rest follows, or its failure is the chain's.
  pub bind_cases :
      (m : M A) (f : A → M B) (db : Db)
      → ((a : A) × ((m db).0 ≡ ok a) × ((m >>= f) db ≡ f a (m db).1))
        ⊎ ((e : Error) × ((m db).0 ≡ err e) × ((m >>= f) db ≡ (err e, (m db).1)))
  bind_cases m f db = ended_cases (m db).0 (m db).1 f db

-- A check that passed changed nothing.
pub throw_if_ok :
    (c : Bool) (e : Error) (db : Db) {u : Unit {0}} {db' : Db}
    → throw_if c e db ≡ (ok u, db')
    → (c ≡ false) × (db' ≡ db)
throw_if_ok true e db h = absurd (ground arith)
throw_if_ok false e db h = (refl, sym (ap (λ r. r.1) h))

module _ {ℓ κ} {A : Type ℓ} {B : Type κ} where
  -- The rest of a chain whose first call is known.
  pub bind_value :
      (m : M A) (f : A → M B) (db : Db) {a : A} {mid : Db}
      → m db ≡ (ok a, mid)
      → (m >>= f) db ≡ f a mid
  bind_value m f db e = ap (λ r. ((λ _. r) >>= f) db) e

  pub bind_failed :
      (m : M A) (f : A → M B) (db : Db) {e : Error} {mid : Db}
      → m db ≡ (err e, mid)
      → (m >>= f) db ≡ (err e, mid)
  bind_failed m f db e = ap (λ r. ((λ _. r) >>= f) db) e

  ended_answer :
      (r : Result A) (f : A → M B) (before mid after mid' : Db)
      → ((a : A) → (f a mid).0 ≡ (f a mid').0)
      → (((λ _. (r, mid)) >>= f) before).0 ≡ (((λ _. (r, mid')) >>= f) after).0
  ended_answer (ok a) f before mid after mid' h = h a
  ended_answer (err e) f before mid after mid' h = refl

  -- From two databases a chain returns the same, if each of its calls does.
  pub bind_answer :
      (m : M A) (f : A → M B) (db db' : Db)
      → (m db).0 ≡ (m db').0
      → ((a : A) → (f a (m db).1).0 ≡ (f a (m db').1).0)
      → ((m >>= f) db).0 ≡ ((m >>= f) db').0
  bind_answer m f db db' e h =
      ended_answer (m db).0 f db (m db).1 db' (m db').1 h
      ∙ ap (λ r. (((λ _. (r, (m db').1)) >>= f) db').0) e

module _ {ℓ κ μ} {A : Type ℓ} {B : Type κ} (P : Db → Type μ) where
  -- A property that the first call and whatever follows it keep.
  pub bind_keeps :
      (m : M A) (f : A → M B) (db : Db)
      → P (m db).1
      → ((a : A) (mid : Db) → P mid → P (f a mid).1)
      → P ((m >>= f) db).1
  bind_keeps m f db h next = elim (bind_cases m f db) [
    | inl (a, e, r) ↦ rw r (next a (m db).1 h)
    | inr (e, f', r) ↦ rw r h
  ]

module _ {ℓ μ} {A : Type ℓ} (P : Db → Type μ) where
  -- A transaction keeps what its body keeps.
  pub in_tx_keeps :
      (env : Env) (body : M A) (db : Db) → P db → P (body db).1 → P (in_tx env body db).1
  in_tx_keeps env body db h k = elim (in_tx_changes env body db) [
    | inl same ↦ rw same h
    | inr (a, e, same) ↦ rw same k
  ]

module _ {ℓ} {A : Type ℓ} where
  -- A transaction returns an error and has changed nothing, or has done what its body did.
  pub in_tx_cases :
      (env : Env) (body : M A) (db : Db)
      → ((e : Error) × (in_tx env body db ≡ (err e, db)))
        ⊎ ((a : A) × ((body db).0 ≡ ok a)
            × (in_tx env body db ≡ ((in_tx env body db).0, (body db).1)))
  in_tx_cases env body db = elim (Result-cases (in_tx env body db).0) [
    | inl (a, e) ↦
        let (b, w) =
          in_tx_ok env body db (in_tx env body db).1 a (ap (λ r. (r, (in_tx env body db).1)) e) in
        inr (a, b, ap (λ d. ((in_tx env body db).0, d)) (sym w))
    | inr (e, h) ↦ elim (in_tx_changes env body db) [
      | inl same ↦ inl (e, ap (λ r. (r, (in_tx env body db).1)) h ∙ ap (λ d. (err e, d)) same)
      | inr (a, b, w) ↦ inr (a, b, ap (λ d. ((in_tx env body db).0, d)) w)
    ]
  ]

  -- A check whose failure and whose success both lead to what is asked.
  pub throw_if_then {κ} :
      (Q : Result A × Db → Type κ) (c : Bool) (e : Error) (m : M A) (db : Db)
      → Q (err e, db)
      → (c ≡ false → Q (m db))
      → Q ((throw_if c e >>= λ _. m) db)
  throw_if_then Q true e m db x y = x
  throw_if_then Q false e m db x y = y refl
