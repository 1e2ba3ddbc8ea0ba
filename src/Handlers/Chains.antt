-- ===== src/Handlers/Chains.antt =====
-- A handler as a chain of checks and calls, one link at a time.
use go_invoicing.Base.{ℕ, ◌≡◌, ◌⊎◌, refl, ap, inl, inr, arith}
use go_invoicing.Errors.{Error, Result, ok, err}
use go_invoicing.Store.{Db, M}
use go_invoicing.Handlers.{Failure, Response, Checked, Handler, require, serve}

-- Two responses that are the same error.
pub error_same {ℓ} :
    {A : Type ℓ} {f g : Failure} {db db' : Db}
    → ◌≡◌ {A = Response A × Db} (Response.error f, db) (Response.error g, db')
    → (f ≡ g) × (db ≡ db')
error_same h = (ground arith, ground arith)

pub Checked-cases {ℓ} :
    {A : Type ℓ} (c : Checked A)
    → ((a : A) × (c ≡ Checked.passed a)) ⊎ ((f : Failure) × (c ≡ Checked.answered f))
Checked-cases (Checked.passed a) = inl (a, refl)
Checked-cases (Checked.answered f) = inr (f, refl)

module _ {ℓ κ} {A : Type ℓ} {B : Type κ} where
  -- A check passes and the rest follows, or it has answered.
  pub require_cases :
      (c : Checked A) (next : A → Handler B) (db : Db)
      → ((a : A) × (c ≡ Checked.passed a) × (require c next db ≡ next a db))
        ⊎ ((f : Failure) × (c ≡ Checked.answered f) × (require c next db ≡ (Response.error f, db)))
  require_cases (Checked.passed a) next db = inl (a, refl, refl)
  require_cases (Checked.answered f) next db = inr (f, refl, refl)

  require_json :
      (c : Checked A) (next : A → Handler B) (db : Db) {n : ℕ} {b : B} {db' : Db}
      → require c next db ≡ (Response.json n b, db')
      → (a : A) × (c ≡ Checked.passed a) × (next a db ≡ (Response.json n b, db'))
  require_json (Checked.passed a) next db h = (a, refl, h)
  require_json (Checked.answered f) next db h = absurd (ground arith)

  -- The same, for a proof that goes on with the rest.
  pub json_then {μ} :
      (R : Type μ) (c : Checked A) (next : A → Handler B) (db : Db) {n : ℕ} {b : B} {db' : Db}
      → require c next db ≡ (Response.json n b, db')
      → ((a : A) → c ≡ Checked.passed a → next a db ≡ (Response.json n b, db') → R)
      → R
  json_then R c next db h go = let (a, e, k) = require_json c next db h in go a e k

  served_cases :
      (r : Result A) (mid : Db) (translate : Error → Failure) (next : A → Handler B) (db : Db)
      → ((a : A) × (r ≡ ok a) × (serve (λ _. (r, mid)) translate next db ≡ next a mid))
        ⊎ ((e : Error) × (r ≡ err e)
            × (serve (λ _. (r, mid)) translate next db ≡ (Response.error (translate e), mid)))
  served_cases (ok a) mid translate next db = inl (a, refl, refl)
  served_cases (err e) mid translate next db = inr (e, refl, refl)

  -- A call of a service succeeds and the rest follows, or its error is answered.
  pub serve_cases :
      (call : M A) (translate : Error → Failure) (next : A → Handler B) (db : Db)
      → ((a : A) × ((call db).0 ≡ ok a) × (serve call translate next db ≡ next a (call db).1))
        ⊎ ((e : Error) × ((call db).0 ≡ err e)
            × (serve call translate next db ≡ (Response.error (translate e), (call db).1)))
  serve_cases call translate next db = served_cases (call db).0 (call db).1 translate next db

  pub serve_json :
      (call : M A) (translate : Error → Failure) (next : A → Handler B) (db : Db) {n : ℕ} {b : B}
      {db' : Db}
      → serve call translate next db ≡ (Response.json n b, db')
      → (a : A) × (call db ≡ (ok a, (call db).1)) × (next a (call db).1 ≡ (Response.json n b, db'))
  serve_json call translate next db h = elim (serve_cases call translate next db) [
    | inl (a, e, k) ↦ (a, ap (λ r. (r, (call db).1)) e, ground arith)
    | inr (e, f, k) ↦ absurd (ground arith)
  ]

  pub serve_value :
      (call : M A) (translate : Error → Failure) (next : A → Handler B) (db : Db) {a : A} {mid : Db}
      → ◌≡◌ {A = Result A × Db} (call db) (ok a, mid)
      → serve call translate next db ≡ next a mid
  serve_value call translate next db e = ap (λ r. serve (λ _. r) translate next db) e
