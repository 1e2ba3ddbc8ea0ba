-- ===== src/Store.antt =====
-- The database behind the services: its tables, what a call of a service reads from its
-- surroundings, and service calls as functions from the database to a result and the database.
-- A failure of the database at any call is a choice of the surroundings, and so is what becomes of
-- a COMMIT.
pub mod Invoices
pub mod Payments
pub mod Parties
pub mod Templates
pub mod Customers
pub mod Products
pub mod SettingsTable
pub mod Users
pub mod Sessions
pub mod Organisations
pub mod Paging
pub mod Listing
pub mod Laws
pub mod Rows
pub mod Binds
pub mod Keys
pub mod Apart
pub mod Sweep
pub mod Views
pub mod Effects
use go_invoicing.Base.{
  true, ◌≢◌, inr, inl, arith, Bool-cases, if◌then◌else◌, ◌⊎◌, ℕ, ◌≡◌, refl, Bool, Option, List,
}
use go_invoicing.Base.Crypto.{CryptoOps}
use go_invoicing.Base.Float.{FloatOps}
use go_invoicing.Base.Text.{Text}
use go_invoicing.Base.Time.{Time}
use go_invoicing.Errors.{Error, Result, ok, err, Site, begin_tx, commit_tx, internal, fail_if}
use go_invoicing.Admin.{Uuid, Organisation, Settings}
use go_invoicing.Admin.User.{User, Session}
use go_invoicing.Admin.Logo.{OrganisationLogo}
use go_invoicing.Customer.{Customer, Address}
use go_invoicing.Product.{Product}
use go_invoicing.Template.{Template}
use go_invoicing.Invoice.{
  Invoice, Line, Payment, PaymentIdempotency, TemplateSnapshot, PaymentFingerprintV1,
}

-- A row of the table `payments`. The two idempotency columns are NULL together.
pub record PaymentRow : Type 0 where
  pub payment : Payment
  pub idempotency : Option PaymentIdempotency

pub record Db : Type 0 where
  pub invoices : List Invoice
  pub lines : List Line
  pub payments : List PaymentRow
  pub organisations : List Organisation
  pub settings : List Settings
  pub customers : List Customer
  pub addresses : List Address
  pub products : List Product
  pub templates : List Template
  pub users : List User
  pub sessions : List Session
  pub logos : List OrganisationLogo

-- A COMMIT succeeds, or reports an error and has been undone, or reports an error though it was done.
pub data CommitOutcome : Type 0 where
  committed aborted unacknowledged : CommitOutcome

-- What one call of a service meets: the clock, fresh identifiers, the third-party packages that it
-- uses, the Unicode tables, the float operations, and which database calls fail.
pub record Env : Type 0 where
  pub now : Time  -- time.Now().UTC()
  pub db_now : Time  -- NOW() in SQL
  pub new_id : Uuid  -- uuid.New()
  pub later_id : ℕ → Uuid  -- uuid.New() called again, for the n-th time
  pub parse_uuid : Text → Option Uuid
  pub marshal_template : TemplateSnapshot → Option Text
  pub digest : PaymentFingerprintV1 → List ℕ  -- SHA-256 of the canonical JSON
  pub floats : FloatOps
  pub crypto : CryptoOps
  pub valid_address : Text → Bool  -- mail.ParseAddress returns no error
  pub detect_content_type : List ℕ → Text  -- http.DetectContentType
  pub upper : ℕ → ℕ
  pub lower : ℕ → ℕ
  pub contains_folded : Text → Text → Bool  -- column ILIKE '%' || text || '%'
  pub collates_before : Text → Text → Bool  -- the collation of the database
  pub fails : Site → Bool
  pub commit : CommitOutcome

abbrev pub M {ℓ} : Type ℓ → Type ℓ
M A = Db → Result A × Db

module _ {ℓ} {A : Type ℓ} where
  abbrev pub pure : A → M A
  pure a db = (ok a, db)

  abbrev pub throw : Error → M A
  throw e db = (err e, db)

  abbrev pub lift : Result A → M A
  lift r db = (r, db)

  -- A query: it fails if the surroundings say so, and else reads the database.
  abbrev pub query : Env → Site → (Db → Result A) → M A
  query env site f db = if env.fails site then (err (internal site), db) else (f db, db)

infixl 5 ◌>>=◌ ◌>>◌
abbrev pub ◌>>=◌ {ℓ κ} : {A : Type ℓ} {B : Type κ} → M A → (A → M B) → M B
◌>>=◌ m f db = let (r, db') = m db in elim r [ ok a ↦ f a db' | err e ↦ (err e, db') ]

abbrev pub ◌>>◌ {ℓ} : {B : Type ℓ} → M (Unit {0}) → M B → M B
m >> k = m >>= λ _. k

abbrev pub throw_if : Bool → Error → M (Unit {0})
throw_if c e = lift (fail_if c e)

-- A statement that writes.
abbrev pub execute : Env → Site → (Db → Result Db) → M (Unit {0})
execute env site f db =
    if env.fails site
    then (err (internal site), db)
    else elim (f db) [ ok db' ↦ (ok tt, db') | err e ↦ (err e, db) ]

-- A statement that writes and returns what it wrote, by RETURNING.
abbrev pub execute_returning {ℓ} : {A : Type ℓ} → Env → Site → (Db → Result (A × Db)) → M A
execute_returning env site f db =
    if env.fails site
    then (err (internal site), db)
    else elim (f db) [ ok (a, db') ↦ (ok a, db') | err e ↦ (err e, db) ]

module _ {ℓ} {A : Type ℓ} where
  abbrev pub finish : Env → Db → Result A → Db → CommitOutcome → Result A × Db
  finish env before (err e) after outcome = (err e, before)
  finish env before (ok a) after CommitOutcome.committed = (ok a, after)
  finish env before (ok a) after CommitOutcome.aborted = (err (internal commit_tx), before)
  finish env before (ok a) after CommitOutcome.unacknowledged = (err (internal commit_tx), after)

  finish_changes :
      (env : Env) (before : Db) (r : Result A) (after : Db) (outcome : CommitOutcome)
      → ((finish env before r after outcome).1 ≡ before)
        ⊎ ((a : A) × (r ≡ ok a) × ((finish env before r after outcome).1 ≡ after))
  finish_changes env before (err e) after outcome = inl refl
  finish_changes env before (ok a) after CommitOutcome.committed = inr (a, refl, refl)
  finish_changes env before (ok a) after CommitOutcome.aborted = inl refl
  finish_changes env before (ok a) after CommitOutcome.unacknowledged = inr (a, refl, refl)

  finish_ok :
      (env : Env) (before : Db) (r : Result A) (after : Db) (outcome : CommitOutcome) {a : A}
      {db' : Db}
      → finish env before r after outcome ≡ (ok a, db')
      → (r ≡ ok a) × (after ≡ db')
  finish_ok env before (err e) after outcome h = absurd (ground arith)
  finish_ok env before (ok a) after CommitOutcome.committed h = (ground arith, ground arith)
  finish_ok env before (ok a) after CommitOutcome.aborted h = absurd (ground arith)
  finish_ok env before (ok a) after CommitOutcome.unacknowledged h = absurd (ground arith)

  finish_err :
      (env : Env) (before : Db) (r : Result A) (after : Db) (outcome : CommitOutcome) {e : Error}
      {db' : Db}
      → outcome ≢ CommitOutcome.unacknowledged
      → finish env before r after outcome ≡ (err e, db')
      → db' ≡ before
  finish_err env before (err e) after outcome n h = ground arith
  finish_err env before (ok a) after CommitOutcome.committed n h = absurd (ground arith)
  finish_err env before (ok a) after CommitOutcome.aborted n h = ground arith
  finish_err env before (ok a) after CommitOutcome.unacknowledged n h = absurd (n refl)

  -- BEGIN, the body, and COMMIT, or the deferred ROLLBACK if the body returned an error.
  -- Nothing else happens meanwhile, as when the body's first read takes the locks that it needs.
  unfoldable pub in_tx : Env → M A → M A
  in_tx env body db =
      if env.fails begin_tx
      then (err (internal begin_tx), db)
      else (let (r, after) = body db in finish env db r after env.commit)

  -- Whatever a transaction returns, it leaves the database as it was, or as its body left it when the
  -- body succeeded.
  pub in_tx_changes :
      (env : Env) (body : M A) (db : Db)
      → ((in_tx env body db).1 ≡ db)
        ⊎ ((a : A) × ((body db).0 ≡ ok a) × ((in_tx env body db).1 ≡ (body db).1))
  unfolding in_tx
  in_tx_changes env body db = elim (Bool-cases (env.fails begin_tx)) [
    | inl down ↦ rw down (inl refl)
    | inr up ↦ rw up (finish_changes env db (body db).0 (body db).1 env.commit)
  ]

  -- A transaction that reports success has run its body, and its writes are there.
  pub in_tx_ok :
      (env : Env) (body : M A) (db db' : Db) (a : A)
      → in_tx env body db ≡ (ok a, db')
      → ((body db).0 ≡ ok a) × ((body db).1 ≡ db')
  unfolding in_tx
  in_tx_ok env body db db' a h = elim (Bool-cases (env.fails begin_tx)) [
    | inl down ↦ absurd (ground arith)
    | inr up ↦ finish_ok env db (body db).0 (body db).1 env.commit (rw up at h)
  ]

  -- A transaction that reports an error has written nothing, unless its COMMIT went unacknowledged.
  pub in_tx_err :
      (env : Env) (body : M A) (db db' : Db) (e : Error)
      → env.commit ≢ CommitOutcome.unacknowledged
      → in_tx env body db ≡ (err e, db')
      → db' ≡ db
  unfolding in_tx
  in_tx_err env body db db' e n h = elim (Bool-cases (env.fails begin_tx)) [
    | inl down ↦ ground arith
    | inr up ↦ finish_err env db (body db).0 (body db).1 env.commit n (rw up at h)
  ]

  abbrev pub finish_early : Env → (A → Bool) → Db → Result A → Db → Result A × Db
  finish_early env early before (err e) after = (err e, before)
  finish_early env early before (ok a) after =
      if early a then (ok a, before) else finish env before (ok a) after env.commit

  -- A transaction whose body may return a result without reaching the COMMIT, which the deferred
  -- ROLLBACK then ends.
  unfoldable pub in_tx_early : Env → (A → Bool) → M A → M A
  in_tx_early env early body db =
      if env.fails begin_tx
      then (err (internal begin_tx), db)
      else (let (r, after) = body db in finish_early env early db r after)

  finish_early_changes :
      (env : Env) (early : A → Bool) (before : Db) (r : Result A) (after : Db)
      → ((finish_early env early before r after).1 ≡ before)
        ⊎ ((a : A) × (r ≡ ok a) × ((finish_early env early before r after).1 ≡ after))
  finish_early_changes env early before (err e) after = inl refl
  finish_early_changes env early before (ok a) after = elim (Bool-cases (early a)) [
    | inl yes' ↦ rw yes' (inl refl)
    | inr no' ↦ rw no' (finish_changes env before (ok a) after env.commit)
  ]

  finish_early_ok :
      (env : Env) (early : A → Bool) (before : Db) (r : Result A) (after : Db) {a : A} {db' : Db}
      → finish_early env early before r after ≡ (ok a, db')
      → (r ≡ ok a) × ((after ≡ db') ⊎ ((early a ≡ true) × (db' ≡ before)))
  finish_early_ok env early before (err e) after h = absurd (ground arith)
  finish_early_ok env early before (ok b) after h = elim (Bool-cases (early b)) [
    | inl yes' ↦ (ground arith, inr (ground arith, ground arith))
    | inr no' ↦
        let (x, y) = finish_ok env before (ok b) after env.commit (rw no' at h) in (x, inl y)
  ]

  finish_early_err :
      (env : Env) (early : A → Bool) (before : Db) (r : Result A) (after : Db) {e : Error}
      {db' : Db}
      → env.commit ≢ CommitOutcome.unacknowledged
      → finish_early env early before r after ≡ (err e, db')
      → db' ≡ before
  finish_early_err env early before (err e) after n h = ground arith
  finish_early_err env early before (ok b) after n h = elim (Bool-cases (early b)) [
    | inl yes' ↦ absurd (ground arith)
    | inr no' ↦ finish_err env before (ok b) after env.commit n (rw no' at h)
  ]

  pub in_tx_early_changes :
      (env : Env) (early : A → Bool) (body : M A) (db : Db)
      → ((in_tx_early env early body db).1 ≡ db)
        ⊎ ((a : A) × ((body db).0 ≡ ok a) × ((in_tx_early env early body db).1 ≡ (body db).1))
  unfolding in_tx_early
  in_tx_early_changes env early body db = elim (Bool-cases (env.fails begin_tx)) [
    | inl down ↦ rw down (inl refl)
    | inr up ↦ rw up (finish_early_changes env early db (body db).0 (body db).1)
  ]

  pub in_tx_early_ok :
      (env : Env) (early : A → Bool) (body : M A) (db db' : Db) (a : A)
      → in_tx_early env early body db ≡ (ok a, db')
      → ((body db).0 ≡ ok a) × (((body db).1 ≡ db') ⊎ ((early a ≡ true) × (db' ≡ db)))
  unfolding in_tx_early
  in_tx_early_ok env early body db db' a h = elim (Bool-cases (env.fails begin_tx)) [
    | inl down ↦ absurd (ground arith)
    | inr up ↦ finish_early_ok env early db (body db).0 (body db).1 (rw up at h)
  ]

  pub in_tx_early_err :
      (env : Env) (early : A → Bool) (body : M A) (db db' : Db) (e : Error)
      → env.commit ≢ CommitOutcome.unacknowledged
      → in_tx_early env early body db ≡ (err e, db')
      → db' ≡ db
  unfolding in_tx_early
  in_tx_early_err env early body db db' e n h = elim (Bool-cases (env.fails begin_tx)) [
    | inl down ↦ ground arith
    | inr up ↦ finish_early_err env early db (body db).0 (body db).1 n (rw up at h)
  ]
