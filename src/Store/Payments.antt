-- ===== src/Store/Payments.antt =====
-- Reads and writes of the table `payments` (payment_repository_postgres.go).
use go_invoicing.Base.{
  not, ℕ, Bool, false, ◌&&◌, ◌||◌, ltb, Option, none, some, List, [], ◌∷◌, find?, keep, map, ◌==◌,
  if◌then◌else◌,
}
use go_invoicing.Base.Int.{ℤ, pos, ◌+ℤ◌, in_int64}
use go_invoicing.Base.Text.{text_eq}
use go_invoicing.Base.Time.{midnight}
use go_invoicing.Errors.{
  Result, ok, err, internal, invoice_not_found, payment_by_key, payment_total, payment_create,
  payment_list,
}
use go_invoicing.Admin.{Uuid}
use go_invoicing.Invoice.{Payment, PaymentIdempotency}
use go_invoicing.Store.{Db, Env, M, PaymentRow, pure, query, execute, ◌>>◌}
use go_invoicing.Store.Paging.{sort_rows}
use go_invoicing.Store.Invoices.{is_none, invoice_row}

-- The JOIN with the invoices of the organisation, which reads deleted invoices too.
abbrev pub is_owned : Db → Uuid → Uuid → Bool
is_owned db org id = not (is_none (find? (λ i. i.id == id && i.organisation_id == org) db.invoices))

abbrev has_key : List ℕ → Option PaymentIdempotency → Bool
has_key key none = false
has_key key (some i) = text_eq i.key key

abbrev pub is_keyed : Uuid → List ℕ → PaymentRow → Bool
is_keyed id key row = row.payment.invoice_id == id && has_key key row.idempotency

abbrev pub keyed_row : Db → Uuid → Uuid → List ℕ → Option PaymentRow
keyed_row db org id key = if is_owned db org id then find? (is_keyed id key) db.payments else none

abbrev pub hash_of : Option PaymentIdempotency → List ℕ
hash_of none = []
hash_of (some i) = i.request_hash

abbrev pub found_payment : Option PaymentRow → Result (Option (Payment × List ℕ))
found_payment none = ok none
found_payment (some row) = ok (some (row.payment, hash_of row.idempotency))

-- The sentinel errPaymentNotFound is `none`.
unfoldable pub get_by_idempotency_key : Env → Uuid → Uuid → List ℕ → M (Option (Payment × List ℕ))
get_by_idempotency_key env org id key =
    query env payment_by_key (λ db. found_payment (keyed_row db org id key))

-- SUM(amount) over the payments of an invoice, which SQL computes exactly.
unfoldable pub paid_sum : Uuid → List PaymentRow → ℤ
paid_sum id [] = pos 0
paid_sum id (row ∷ rows) =
    let rest = paid_sum id rows in
    if row.payment.invoice_id == id then row.payment.amount +ℤ rest else rest

abbrev pub scan_int64 : ℤ → Result ℤ
scan_int64 z = if in_int64 z then ok z else err (internal payment_total)

-- A sum beyond int64 cannot be scanned.
unfoldable pub get_total_paid_by_invoice_id : Env → Uuid → Uuid → M ℤ
get_total_paid_by_invoice_id env org id =
    query env payment_total
      (λ db. scan_int64 (if is_owned db org id then paid_sum id db.payments else pos 0))

abbrev pub inserted_payment : Env → Payment → Payment
inserted_payment env p = record p { created_at = env.db_now; updated_at = env.db_now }

-- The column payment_date is a DATE, which keeps the day (in UTC) and drops the time of day.
abbrev pub dated_payment : Payment → Payment
dated_payment p = record p { payment_date = midnight p.payment_date }

abbrev pub stored_payment : Env → Payment → Payment
stored_payment env p = dated_payment (inserted_payment env p)

-- INSERT … SELECT from the tenant's invoice; UNIQUE (invoice_id, idempotency_key)
unfoldable pub insert_payment : Env → Uuid → Payment → PaymentIdempotency → M (Unit {0})
insert_payment env org payment idempotency = execute env payment_create (λ db.
    if is_none (invoice_row db org payment.invoice_id)
    then err invoice_not_found
    else if is_none (find? (is_keyed payment.invoice_id idempotency.key) db.payments)
    then ok (record db {
      payments =
          (record { payment = stored_payment env payment; idempotency = some idempotency })
          ∷ db.payments;
    })
    else err (internal payment_create))

-- The caller's payment gets the timestamps of the database, and keeps the time of day that its row
-- has lost.
unfoldable pub create : Env → Uuid → Payment → PaymentIdempotency → M Payment
create env org payment idempotency = do
  insert_payment env org payment idempotency
  pure (inserted_payment env payment)

-- ORDER BY payment_date, created_at
abbrev pub payment_before : Payment → Payment → Bool
payment_before p q =
    ltb p.payment_date q.payment_date
    || (p.payment_date == q.payment_date && ltb p.created_at q.created_at)

-- The payments of an invoice that the organisation owns.
unfoldable pub get_by_invoice_id : Env → Uuid → Uuid → M (List Payment)
get_by_invoice_id env org id = query env payment_list (λ db. ok (
    if is_owned db org id
    then sort_rows payment_before
        (map (λ row. row.payment) (keep (λ row. row.payment.invoice_id == id) db.payments))
    else []))
