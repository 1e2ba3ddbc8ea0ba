-- ===== src/Store/Laws.antt =====
-- How a service call that succeeded is taken apart, step by step, and which calls only read.
use go_invoicing.Base.{◌≡◌, refl, ◌∙◌, sym, ap, arith, inl, inr}
use go_invoicing.Errors.{Result, ok, err, Site, Result-cases}
use go_invoicing.Store.{Db, Env, M, query, execute, ◌>>=◌}

module _ {ℓ κ} {A : Type ℓ} {B : Type κ} where
  -- What a successful bind has done.
  pub record Bound (m : M A) (f : A → M B) (db : Db) (b : B) : Type (ℓ ⊔ κ) where
    pub value : A
    pub first : (m db).0 ≡ ok value
    pub rest : (f value (m db).1).0 ≡ ok b
    pub final : (◌>>=◌ m f db).1 ≡ (f value (m db).1).1

  continue : (f : A → M B) → Result A → Db → Result B × Db
  continue f (ok a) db = f a db
  continue f (err e) db = (err e, db)

  continue_ok :
      (f : A → M B) (r : Result A) (db : Db) {b : B}
      → (continue f r db).0 ≡ ok b
      → (a : A) × (r ≡ ok a) × ((f a db).0 ≡ ok b) × ((continue f r db).1 ≡ (f a db).1)
  unfolding continue
  continue_ok f (ok a) db h = (a, refl, h, refl)
  continue_ok f (err e) db h = absurd (ground arith)

  bind-continue : (m : M A) (f : A → M B) (db : Db) → ◌>>=◌ m f db ≡ continue f (m db).0 (m db).1
  unfolding continue
  bind-continue m f db = go (m db).0 (m db).1
    where
      go :
          (r : Result A) (d : Db)
          → ◌≡◌ {A = Result B × Db} (elim r [ ok a ↦ f a d | err e ↦ (err e, d) ]) (continue f r d)
      go (ok a) d = refl
      go (err e) d = refl

  pub bind_ok : (m : M A) (f : A → M B) (db : Db) {b : B} → (◌>>=◌ m f db).0 ≡ ok b → Bound m f db b
  bind_ok m f db h =
      let e = bind-continue m f db in
      let (a, p, q, r) = continue_ok f (m db).0 (m db).1 (ap (λ x. x.0) (sym e) ∙ h) in
      record { value = a; first = p; rest = q; final = ap (λ x. x.1) e ∙ r }

module _ {ℓ} {A : Type ℓ} where
  abbrev pub ReadsOnly : M A → Type 0
  ReadsOnly m = (db : Db) → (m db).1 ≡ db

  pub query-ReadsOnly : (env : Env) (site : Site) (f : Db → Result A) → ReadsOnly (query env site f)
  query-ReadsOnly env site f db = ground arith

  pub query_ok :
      (env : Env) (site : Site) (f : Db → Result A) (db : Db) {a : A}
      → (query env site f db).0 ≡ ok a
      → f db ≡ ok a
  query_ok env site f db h = ground arith

-- A statement that succeeded has written what it computes.
pub execute_ok :
    (env : Env) (site : Site) (f : Db → Result Db) (db : Db) {u : Unit {0}}
    → (execute env site f db).0 ≡ ok u
    → (d : Db) × (f db ≡ ok d) × ((execute env site f db).1 ≡ d)
execute_ok env site f db h = elim (Result-cases (f db)) [
  | inl (d, p) ↦ (d, p, ground arith)
  | inr (e, p) ↦ absurd (ground arith)
]

module _ {ℓ κ} {A : Type ℓ} {B : Type κ} where
  continue-reads :
      (f : A → M B) (r : Result A) (db : Db)
      → ((a : A) → ReadsOnly (f a))
      → (continue f r db).1 ≡ db
  unfolding continue
  continue-reads f (ok a) db h = h a db
  continue-reads f (err e) db h = refl

  pub bind-ReadsOnly :
      (m : M A) (f : A → M B) → ReadsOnly m → ((a : A) → ReadsOnly (f a)) → ReadsOnly (m >>= f)
  bind-ReadsOnly m f hm hf db =
      ap (λ x. x.1) (bind-continue m f db) ∙ continue-reads f (m db).0 (m db).1 hf ∙ hm db
