-- ===== src/Store/Effects.antt =====
-- What each database call has done when it succeeded.
use go_invoicing.Store.Invoices.{insert_line}
use go_invoicing.Errors.{Result-cases}
use go_invoicing.Store.Parties.{
  get_settings_for_update, settings_row, is_settings, update_invoice_number,
}
use go_invoicing.Store.Invoices
use go_invoicing.Store.Invoices.{
  insert_invoice, same_number, inserted_row, inserted_line, create_lines,
}
use go_invoicing.Admin.{Settings}
use go_invoicing.Invoice.{Line}
use go_invoicing.Base.{[], suc, refl, inl, inr, ◌≤◌}
use go_invoicing.Base.{
  ℕ, ◌≡◌, Option, none, some, List, ◌∷◌, find?, update_where, arith, if◌then◌else◌,
}
use go_invoicing.Base.Int.{ℤ, pos, InInt64}
use go_invoicing.Errors.{ok}
use go_invoicing.Admin.{Uuid}
use go_invoicing.Invoice.{Status, Invoice, Payment, PaymentIdempotency}
use go_invoicing.Store.{Db, Env, PaymentRow}
use go_invoicing.Store.Invoices.{
  invoice_row, is_row, get_for_update, update_status, mark_cancelled, null_if_empty,
}
use go_invoicing.Store.Payments
use go_invoicing.Store.Payments.{
  is_owned, is_keyed, keyed_row, found_payment, paid_sum, inserted_payment, stored_payment,
  insert_payment, get_by_idempotency_key, get_total_paid_by_invoice_id,
}

pub get_for_update_ok :
    (env : Env) (org id : Uuid) (db : Db) {i : Invoice}
    → (get_for_update env org id db).0 ≡ ok i
    → (invoice_row db org id ≡ some i) × ((get_for_update env org id db).1 ≡ db)
unfolding get_for_update
get_for_update_ok env org id db h = ground arith

-- A total that was read is the exact sum of the payments, if the organisation owns the invoice.
pub get_total_paid_ok :
    (env : Env) (org id : Uuid) (db : Db) {n : ℤ}
    → (get_total_paid_by_invoice_id env org id db).0 ≡ ok n
    → (n ≡ (if is_owned db org id then paid_sum id db.payments else pos 0))
      × InInt64 n
      × ((get_total_paid_by_invoice_id env org id db).1 ≡ db)
unfolding get_total_paid_by_invoice_id
get_total_paid_ok env org id db h = ground arith

pub get_by_idempotency_key_ok :
    (env : Env) (org id : Uuid) (key : List ℕ) (db : Db) {o : Option (Payment × List ℕ)}
    → (get_by_idempotency_key env org id key db).0 ≡ ok o
    → (found_payment (keyed_row db org id key) ≡ ok o)
      × ((get_by_idempotency_key env org id key db).1 ≡ db)
unfolding get_by_idempotency_key
get_by_idempotency_key_ok env org id key db h = ground arith

-- The row that recording a payment adds.
abbrev pub new_row : Env → Payment → PaymentIdempotency → PaymentRow
new_row env p i = record { payment = stored_payment env p; idempotency = some i }

insert_payment_ok :
    (env : Env) (org : Uuid) (p : Payment) (i : PaymentIdempotency) (db : Db) {u : Unit {0}}
    → (insert_payment env org p i db).0 ≡ ok u
    → (find? (is_keyed p.invoice_id i.key) db.payments ≡ none)
      × ((insert_payment env org p i db).1 ≡ record db { payments = new_row env p i ∷ db.payments })
unfolding insert_payment
insert_payment_ok env org p i db h = ground arith

pub create_payment_row_ok :
    (env : Env) (org : Uuid) (p : Payment) (i : PaymentIdempotency) (db : Db) {q : Payment}
    → (Payments.create env org p i db).0 ≡ ok q
    → (q ≡ inserted_payment env p)
      × (find? (is_keyed p.invoice_id i.key) db.payments ≡ none)
      × ((Payments.create env org p i db).1
          ≡ record db { payments = new_row env p i ∷ db.payments })
unfolding Payments.create
create_payment_row_ok env org p i db h = ground (arith, insert_payment_ok env org p i db)

-- The UPDATE of UpdateStatus.
abbrev pub written_status : Env → Status → Invoice → Invoice
written_status env s i = record i { status = s; updated_at = env.db_now }

pub update_status_ok :
    (env : Env) (org id : Uuid) (s : Status) (db : Db) {u : Unit {0}}
    → (update_status env org id s db).0 ≡ ok u
    → (update_status env org id s db).1
      ≡ record db { invoices = update_where (is_row org id) (written_status env s) db.invoices }
unfolding update_status
update_status_ok env org id s db h = ground arith

-- The UPDATE of MarkCancelled.
abbrev pub written_cancelled : Env → Invoice → Invoice → Invoice
written_cancelled env j i = record i {
  status = j.status;
  cancelled_at = j.cancelled_at;
  seller = j.seller;
  customer = j.customer;
  currency = j.currency;
  rendered_template_snapshot = null_if_empty j.rendered_template_snapshot;
  updated_at = env.db_now;
}

pub mark_cancelled_ok :
    (env : Env) (org id : Uuid) (j : Invoice) (db : Db) {u : Unit {0}}
    → (mark_cancelled env org id j db).0 ≡ ok u
    → (mark_cancelled env org id j db).1
      ≡ record db { invoices = update_where (is_row org id) (written_cancelled env j) db.invoices }
unfolding mark_cancelled
mark_cancelled_ok env org id j db h = ground arith

pub get_settings_for_update_ok :
    (env : Env) (org : Uuid) (db : Db) {s : Settings}
    → (get_settings_for_update env org db).0 ≡ ok s
    → (settings_row db org ≡ some s) × ((get_settings_for_update env org db).1 ≡ db)
unfolding get_settings_for_update
get_settings_for_update_ok env org db h = ground arith

-- The UPDATE of UpdateInvoiceNumber.
abbrev pub numbered : Env → ℕ → Settings → Settings
numbered env n s = record s { invoice_number = n; updated_at = env.db_now }

pub update_invoice_number_ok :
    (env : Env) (org : Uuid) (n : ℕ) (db : Db) {u : Unit {0}}
    → (update_invoice_number env org n db).0 ≡ ok u
    → (n ≤ 2147483647)
      × ((update_invoice_number env org n db).1
          ≡ record db { settings = update_where (is_settings org) (numbered env n) db.settings })
unfolding update_invoice_number
update_invoice_number_ok env org n db h = ground arith

insert_invoice_ok :
    (env : Env) (inv : Invoice) (db : Db) {u : Unit {0}}
    → (insert_invoice env inv db).0 ≡ ok u
    → (find? (same_number inv) db.invoices ≡ none)
      × ((insert_invoice env inv db).1
          ≡ record db { invoices = inserted_row env inv ∷ db.invoices })
unfolding insert_invoice
insert_invoice_ok env inv db h = ground arith

pub create_invoice_row_ok :
    (env : Env) (inv : Invoice) (db : Db) {j : Invoice}
    → (Invoices.create env inv db).0 ≡ ok j
    → (j ≡ record inv { created_at = env.db_now; updated_at = env.db_now })
      × (find? (same_number inv) db.invoices ≡ none)
      × ((Invoices.create env inv db).1
          ≡ record db { invoices = inserted_row env inv ∷ db.invoices })
unfolding Invoices.create
create_invoice_row_ok env inv db h = ground (arith, insert_invoice_ok env inv db)

-- The rows after each line was inserted.
abbrev pub with_lines : Env → List Line → List Line → List Line
with_lines env [] rows = rows
with_lines env (l ∷ ls) rows = with_lines env ls (inserted_line env l ∷ rows)

insert_line_ok :
    (env : Env) (n : ℕ) (l : Line) (db : Db) {u : Unit {0}}
    → (insert_line env n l db).0 ≡ ok u
    → (insert_line env n l db).1 ≡ record db { lines = inserted_line env l ∷ db.lines }
unfolding insert_line
insert_line_ok env n l db h = ground arith

pub create_lines_ok :
    (env : Env) (n : ℕ) (ls : List Line) (db : Db) {u : Unit {0}}
    → (create_lines env n ls db).0 ≡ ok u
    → (create_lines env n ls db).1 ≡ record db { lines = with_lines env ls db.lines }
unfolding create_lines
create_lines_ok env n [] db h = refl
create_lines_ok env n (l ∷ ls) db h = elim (Result-cases (insert_line env n l db).0) [
  | inr (e, q) ↦ absurd (ground arith)
  | inl (u, q) ↦
      let wrote = insert_line_ok env n l db q in
      ground (
        arith,
        wrote,
        create_lines_ok env (suc n) ls (record db { lines = inserted_line env l ∷ db.lines }),
      )
]
