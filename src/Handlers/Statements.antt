-- ===== src/Handlers/Statements.antt =====
-- The errors of the statements on invoices and payments: that the invoice is not there, or a failure
-- of the database.
use go_invoicing.Base.{
  if◌then◌else◌, ℕ, ◌≡◌, inl, inr, arith, Bool-cases, List, Option, none, some, find?,
}
use go_invoicing.Base.Int.{ℤ, in_int64, pos}
use go_invoicing.Errors.{Error, err, Site, internal, invoice_not_found, payment_total}
use go_invoicing.Admin.{Uuid}
use go_invoicing.Invoice.{Invoice, Payment, PaymentIdempotency, Status}
use go_invoicing.Store.{pure, Db, Env, PaymentRow}
use go_invoicing.Store.Invoices.{
  get_for_update, update_status, mark_sent_with_snapshot, mark_cancelled, update_rows, invoice_row,
  is_none,
}
use go_invoicing.Store.Payments.{
  inserted_payment, paid_sum, is_owned, get_by_idempotency_key, get_total_paid_by_invoice_id,
  get_by_invoice_id, insert_payment, keyed_row, found_payment, is_keyed, scan_int64,
}
use go_invoicing.Handlers.Throws.{
  Throws, as_returned, or_fail-Throws, query-Throws, execute-Throws, bind-Throws, pure-Throws,
}
use go_invoicing.Store.Payments

module _ (P : Error → Type 0) (missing : P invoice_not_found)
    (failed : (s : Site) → P (internal s)) where
  pub get_for_update-Throws : (env : Env) (org id : Uuid) → Throws P (get_for_update env org id)
  unfolding get_for_update
  get_for_update-Throws env org id =
      query-Throws P env _ _ (failed _)
        (λ db. or_fail-Throws P (invoice_row db org id) invoice_not_found missing)

  update_rows_error :
      (org id : Uuid) (set : Invoice → Invoice) (db : Db) (e : Error)
      → update_rows org id set db ≡ err e
      → P e
  update_rows_error org id set db e h = elim (Bool-cases (is_none (invoice_row db org id))) [
    | inl gone ↦ as_returned P (rw gone at h) missing
    | inr there ↦ absurd (let k = rw there at h in ground arith)
  ]

  pub update_status-Throws :
      (env : Env) (org id : Uuid) (s : Status) → Throws P (update_status env org id s)
  unfolding update_status
  update_status-Throws env org id s =
      execute-Throws P env _ _ (failed _) (update_rows_error org id _)

  pub mark_sent_with_snapshot-Throws :
      (env : Env) (org id : Uuid) (i : Invoice) → Throws P (mark_sent_with_snapshot env org id i)
  unfolding mark_sent_with_snapshot
  mark_sent_with_snapshot-Throws env org id i =
      execute-Throws P env _ _ (failed _) (update_rows_error org id _)

  pub mark_cancelled-Throws :
      (env : Env) (org id : Uuid) (i : Invoice) → Throws P (mark_cancelled env org id i)
  unfolding mark_cancelled
  mark_cancelled-Throws env org id i =
      execute-Throws P env _ _ (failed _) (update_rows_error org id _)

  found_error : (row : Option PaymentRow) (e : Error) → found_payment row ≡ err e → P e
  found_error none e h = absurd (ground arith)
  found_error (some row) e h = absurd (ground arith)

  pub get_by_idempotency_key-Throws :
      (env : Env) (org id : Uuid) (key : List ℕ) → Throws P (get_by_idempotency_key env org id key)
  unfolding get_by_idempotency_key
  get_by_idempotency_key-Throws env org id key =
      query-Throws P env _ _ (failed _) (λ db. found_error (keyed_row db org id key))

  scan_error : (z : ℤ) (e : Error) → scan_int64 z ≡ err e → P e
  scan_error z e h = elim (Bool-cases (in_int64 z)) [
    | inl fits ↦ absurd (let k = rw fits at h in ground arith)
    | inr wide ↦ as_returned P (rw wide at h) (failed payment_total)
  ]

  pub get_total_paid-Throws :
      (env : Env) (org id : Uuid) → Throws P (get_total_paid_by_invoice_id env org id)
  unfolding get_total_paid_by_invoice_id
  get_total_paid-Throws env org id =
      query-Throws P env _ _ (failed _)
        (λ db. scan_error (if is_owned db org id then paid_sum id db.payments else pos 0))

  insert_error :
      (env : Env) (org : Uuid) (p : Payment) (i : PaymentIdempotency)
      → Throws P (insert_payment env org p i)
  unfolding insert_payment
  insert_error env org p i = execute-Throws P env _ _ (failed _) (λ db e h.
      elim (Bool-cases (is_none (invoice_row db org p.invoice_id))) [
        | inl gone ↦ as_returned P (rw gone at h) missing
        | inr there ↦
            elim (Bool-cases (is_none (find? (is_keyed p.invoice_id i.key) db.payments))) [
              | inl free ↦ absurd (let k = rw (there, free) at h in ground arith)
              | inr used ↦ as_returned P (rw (there, used) at h) (failed _)
            ]
      ])

  pub create-Throws :
      (env : Env) (org : Uuid) (p : Payment) (i : PaymentIdempotency)
      → Throws P (Payments.create env org p i)
  unfolding Payments.create
  create-Throws env org p i =
      bind-Throws P (insert_payment env org p i) (λ u. pure (inserted_payment env p))
        (insert_error env org p i) (λ u. pure-Throws P (inserted_payment env p))
