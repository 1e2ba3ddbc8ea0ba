-- ===== src/Handlers/Throws.antt =====
-- Which errors a call of a service can return, whatever the database holds.
use go_invoicing.Base.{
  none, ap, ◌∙◌, sym, some, Option, Bool, true, false, ◌≡◌, refl, inl, inr, arith, Bool-cases,
}
use go_invoicing.Errors.{
  Error, Result, ok, err, Site, begin_tx, commit_tx, internal, Result-cases, or_fail, fail_if,
}
use go_invoicing.Store.{
  Db, Env, M, CommitOutcome, pure, lift, query, execute, throw_if, in_tx, in_tx_early, ◌>>=◌,
  finish, finish_early,
}
use go_invoicing.Service.Snapshots.{map_err}
use go_invoicing.Store.Binds.{bind_cases}
use go_invoicing.Errors

-- Every error of the call is one of P.
pub record Throws {ℓ} {A : Type ℓ} (P : Error → Type 0) (m : M A) : Type ℓ where
  pub only : (db : Db) (e : Error) → (m db).0 ≡ err e → P e

err_same {ℓ} : {A : Type ℓ} {x e : Error} → ◌≡◌ {A = Result A} (err x) (err e) → x ≡ e
err_same h = ground arith

-- The same of a result without a database.
pub record Fails {ℓ} {A : Type ℓ} (P : Error → Type 0) (r : Result A) : Type ℓ where
  pub only : (e : Error) → r ≡ err e → P e

module _ (P : Error → Type 0) where
  -- The error that a call returned is the one it is known to have returned.
  pub as_returned {ℓ} : {A : Type ℓ} {x e : Error} → ◌≡◌ {A = Result A} (err x) (err e) → P x → P e
  as_returned h p = let same = err_same h in rw (← same) p

  pub err-Fails {ℓ} : (A : Type ℓ) (x : Error) → P x → Fails {A = A} P (err x)
  err-Fails A x p = record { only = λ e h. as_returned h p }

  pub fail_if-Fails : (c : Bool) (x : Error) → P x → Fails P (fail_if c x)
  fail_if-Fails true x p = record { only = λ e h. as_returned h p }
  fail_if-Fails false x p = record { only = λ e h. absurd (ground arith) }

  pub or_fail-Fails {ℓ} : {A : Type ℓ} (a : Option A) (x : Error) → P x → Fails P (or_fail a x)
  or_fail-Fails none x p = record { only = λ e h. as_returned h p }
  or_fail-Fails (some a) x p = record { only = λ e h. absurd (ground arith) }

  pub ok-Fails {ℓ} : {A : Type ℓ} (a : A) → Fails P (ok a)
  ok-Fails a = record { only = λ e h. absurd (ground arith) }

  pub then-Fails {ℓ κ} :
      {A : Type ℓ} {B : Type κ} (r : Result A) (f : A → Result B)
      → Fails P r
      → ((a : A) → Fails P (f a))
      → Fails P (Errors.◌>>=◌ r f)
  then-Fails (ok a) f p q = q a
  then-Fails (err x) f p q = record { only = λ e h. as_returned h (p.only x refl) }

  pub or_fail-Throws {ℓ} :
      {A : Type ℓ} (a : Option A) (x : Error) → P x → (e : Error) → or_fail a x ≡ err e → P e
  or_fail-Throws none x p e h = as_returned h p
  or_fail-Throws (some a) x p e h = absurd (ground arith)

  pub pure-Throws {ℓ} : {A : Type ℓ} (a : A) → Throws P (pure a)
  pure-Throws a = record { only = λ db e h. absurd (ground arith) }

  pub throw_if-Throws : (c : Bool) (e : Error) → P e → Throws P (throw_if c e)
  throw_if-Throws true e p = record { only = λ db e' h. as_returned h p }
  throw_if-Throws false e p = record { only = λ db e' h. absurd (ground arith) }

  pub lift-Throws {ℓ} :
      {A : Type ℓ} (r : Result A) → ((e : Error) → r ≡ err e → P e) → Throws P (lift r)
  lift-Throws r p = record { only = λ db e h. p e h }

  pub bind-Throws {ℓ κ} :
      {A : Type ℓ} {B : Type κ} (m : M A) (f : A → M B)
      → Throws P m
      → ((a : A) → Throws P (f a))
      → Throws P (m >>= f)
  bind-Throws m f p q = record {
    only = λ db e h. elim (bind_cases m f db) [
      | inl (a, done, k) ↦ (q a).only (m db).1 e (ground arith)
      | inr (x, failed, k) ↦ as_returned (sym (ap (λ r. r.0) k) ∙ h) (p.only db x failed)
    ];
  }

  pub query-Throws {ℓ} :
      {A : Type ℓ} (env : Env) (site : Site) (f : Db → Result A)
      → P (internal site)
      → ((db : Db) (e : Error) → f db ≡ err e → P e)
      → Throws P (query env site f)
  query-Throws env site f p q = record {
    only = λ db e h. elim (Bool-cases (env.fails site)) [
      | inl down ↦ as_returned (rw down at h) p
      | inr up ↦ q db e (rw up at h)
    ];
  }

  pub execute-Throws :
      (env : Env) (site : Site) (f : Db → Result Db)
      → P (internal site)
      → ((db : Db) (e : Error) → f db ≡ err e → P e)
      → Throws P (execute env site f)
  execute-Throws env site f p q = record {
    only = λ db e h. elim (Bool-cases (env.fails site)) [
      | inl down ↦ as_returned (rw down at h) p
      | inr up ↦ elim (Result-cases (f db)) [
        | inl (db', done) ↦ absurd (let k = rw (up, done) at h in ground arith)
        | inr (x, failed) ↦ as_returned (rw (up, failed) at h) (q db x failed)
      ]
    ];
  }

  -- A failure of the call is exchanged for another.
  pub map_err-Throws {ℓ} :
      {A : Type ℓ} (f : Error → Error) (m : M A)
      → ((db : Db) (e : Error) → (m db).0 ≡ err e → P (f e))
      → Throws P (map_err f m)
  map_err-Throws f m p = record {
    only = λ db e h. elim (Result-cases (m db).0) [
      | inl (a, done) ↦ absurd (let k = rw (map_err, done) at h in ground arith)
      | inr (x, failed) ↦ as_returned (rw (map_err, failed) at h) (p db x failed)
    ];
  }

  module _ {ℓ} {A : Type ℓ} (env : Env) (begins : P (internal begin_tx))
      (commits : P (internal commit_tx)) where
    finish-Throws :
        (before : Db) (r : Result A) (after : Db) (outcome : CommitOutcome) (e : Error)
        → ((x : Error) → r ≡ err x → P x)
        → (finish env before r after outcome).0 ≡ err e
        → P e
    finish-Throws before (err x) after outcome e p h = as_returned h (p x refl)
    finish-Throws before (ok a) after CommitOutcome.committed e p h = absurd (ground arith)
    finish-Throws before (ok a) after CommitOutcome.aborted e p h = as_returned h commits
    finish-Throws before (ok a) after CommitOutcome.unacknowledged e p h = as_returned h commits

    finish_early-Throws :
        (early : A → Bool) (before : Db) (r : Result A) (after : Db) (e : Error)
        → ((x : Error) → r ≡ err x → P x)
        → (finish_early env early before r after).0 ≡ err e
        → P e
    finish_early-Throws early before (err x) after e p h = as_returned h (p x refl)
    finish_early-Throws early before (ok a) after e p h = elim (Bool-cases (early a)) [
      | inl yes' ↦ absurd (let k = rw yes' at h in ground arith)
      | inr no' ↦ finish-Throws before (ok a) after env.commit e p (rw no' at h)
    ]

    pub in_tx-Throws : (body : M A) → Throws P body → Throws P (in_tx env body)
    unfolding in_tx
    in_tx-Throws body p = record {
      only = λ db e h. elim (Bool-cases (env.fails begin_tx)) [
        | inl down ↦ as_returned (rw down at h) begins
        | inr up ↦ finish-Throws db (body db).0 (body db).1 env.commit e (p.only db) (rw up at h)
      ];
    }

    pub in_tx_early-Throws :
        (early : A → Bool) (body : M A) → Throws P body → Throws P (in_tx_early env early body)
    unfolding in_tx_early
    in_tx_early-Throws early body p = record {
      only = λ db e h. elim (Bool-cases (env.fails begin_tx)) [
        | inl down ↦ as_returned (rw down at h) begins
        | inr up ↦ finish_early-Throws early db (body db).0 (body db).1 e (p.only db) (rw up at h)
      ];
    }
