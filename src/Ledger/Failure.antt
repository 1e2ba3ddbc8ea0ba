-- ===== src/Ledger/Failure.antt =====
-- Calls that fail.
use go_invoicing.Base.{◌≡◌, ◌≢◌, inl, inr, arith}
use go_invoicing.Errors.{Error, Result, err, Result-cases}
use go_invoicing.Admin.{Uuid}
use go_invoicing.Invoice.{CreateInvoiceRequest, CreatePaymentRequest}
use go_invoicing.Invoice.Idempotency.{validate_idempotency_key}
use go_invoicing.Store.{in_tx_early_err, Db, Env, M, CommitOutcome, in_tx_err}
use go_invoicing.Service.Create.{create}
use go_invoicing.Service.Create.Checks.{create_cases}
use go_invoicing.Service.Send.{send}
use go_invoicing.Service.Cancel.{cancel_invoice}
use go_invoicing.Service.Pay.{create_payment, new_payment, validate_payment}

module _ {ℓ} {A : Type ℓ} where
  -- A call that returned an error has written nothing.
  abbrev pub WritesNothing : M A → Db → Type ℓ
  WritesNothing m db =
      (e : Error) (db' : Db) → ◌≡◌ {A = Result A × Db} (m db) (err e, db') → db' ≡ db

pub payment_failed :
    (env : Env) (org id : Uuid) (q : CreatePaymentRequest) (db : Db)
    → env.commit ≢ CommitOutcome.unacknowledged
    → WritesNothing (create_payment env org id q) db
unfolding create_payment
payment_failed env org id q db c e db' h =
    elim (Result-cases (validate_idempotency_key q.idempotency_key)) [
      | inr (x, bad) ↦ ground arith
      | inl (u, good) ↦ elim (Result-cases (validate_payment (new_payment env id q))) [
        | inr (x, bad) ↦ ground arith
        | inl (u', fine) ↦ in_tx_early_err env _ _ db db' e c (rw (good, fine) at h)
      ]
    ]

pub create_failed :
    (env : Env) (org : Uuid) (r : CreateInvoiceRequest) (db : Db)
    → env.commit ≢ CommitOutcome.unacknowledged
    → WritesNothing (create env org r) db
create_failed env org r db c e db' h = elim (create_cases env org r db) [
  | inl (x, failed) ↦ ground arith
  | inr k ↦ in_tx_err env _ db db' e c (rw k.run at h)
]

-- Each of the four calls that write, when it returns an error, has left the database exactly as it
-- was: no number is consumed, no line or payment stays behind. The one exception is a COMMIT that was
-- done but whose acknowledgement was lost.
pub failed_calls_write_nothing :
    (env : Env) (org id : Uuid) (r : CreateInvoiceRequest) (q : CreatePaymentRequest) (db : Db)
    → env.commit ≢ CommitOutcome.unacknowledged
    → WritesNothing (create env org r) db
      × WritesNothing (send env org id) db
      × WritesNothing (cancel_invoice env org id) db
      × WritesNothing (create_payment env org id q) db
unfolding send cancel_invoice
failed_calls_write_nothing env org id r q db c = (
  create_failed env org r db c,
  λ e db' h. in_tx_err env _ db db' e c h,
  λ e db' h. in_tx_err env _ db db' e c h,
  payment_failed env org id q db c,
)
