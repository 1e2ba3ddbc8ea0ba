-- ===== src/Store/Invoices.antt =====
-- Reads and writes of the tables `invoices` and `invoice_lines` (invoice_repository_postgres.go).
use go_invoicing.Base.{
  ℕ, suc, Bool, true, false, ◌&&◌, Option, none, some, List, [], ◌∷◌, find?, keep, update_where,
  ◌==◌, if◌then◌else◌,
}
use go_invoicing.Base.Text.{Text, text_eq, is_empty}
use go_invoicing.Errors.{
  Result, ok, err, or_fail, internal, invoice_not_found, invoice_get, invoice_create,
  invoice_update_status, invoice_mark_sent, invoice_mark_cancelled, invoice_lines_get,
  invoice_create_line,
}
use go_invoicing.Admin.{Uuid}
use go_invoicing.Customer.{Customer}
use go_invoicing.Invoice.{Status, Invoice, Line, no_seller, no_customer}
use go_invoicing.Store.{Db, Env, M, pure, query, execute, ◌>>◌}

abbrev pub is_none {ℓ} : {A : Type ℓ} → Option A → Bool
is_none none = true
is_none (some a) = false

-- organisation_id = $1 AND id = $2 AND deleted_at IS NULL
abbrev pub is_row : Uuid → Uuid → Invoice → Bool
is_row org id i = i.id == id && i.organisation_id == org && is_none i.deleted_at

-- The row that a tenant-scoped statement reads.
abbrev pub invoice_row : Db → Uuid → Uuid → Option Invoice
invoice_row db org id = find? (is_row org id) db.invoices

-- The lock that FOR UPDATE takes is the atomicity of `in_tx`.
unfoldable pub get_for_update : Env → Uuid → Uuid → M Invoice
get_for_update env org id =
    query env invoice_get (λ db. or_fail (invoice_row db org id) invoice_not_found)

-- NULLIF(t, '')
abbrev pub null_if_empty : Option Text → Option Text
null_if_empty none = none
null_if_empty (some t) = if is_empty t then none else some t

abbrev coalesce {ℓ} : {A : Type ℓ} → Option A → Option A → Option A
coalesce none b = b
coalesce (some a) b = some a

abbrev current_name : Option Customer → Option Text
current_name none = none
current_name (some c) = coalesce (null_if_empty c.company_name) (some c.name)

abbrev or_blank : Option Text → Text
or_blank none = []
or_blank (some t) = t

-- The COALESCE that GetByID and List select as the display name.
unfoldable pub display_name : Db → Invoice → Text
display_name db i = or_blank (
    coalesce (null_if_empty i.customer.customer_company_name) (
      coalesce i.customer.customer_name
        (current_name (find? (λ c. c.id == i.customer_id) db.customers))))

unfoldable pub get_by_id : Env → Uuid → Uuid → M Invoice
unfolding display_name
get_by_id env org id = query env invoice_get (λ db. elim (invoice_row db org id) [
  | none ↦ err invoice_not_found
  | some i ↦ ok (record i { customer_display_name = display_name db i })
])

-- UPDATE invoices SET … WHERE id = … AND organisation_id = … AND deleted_at IS NULL
abbrev pub update_rows : Uuid → Uuid → (Invoice → Invoice) → Db → Result Db
update_rows org id set db =
    if is_none (invoice_row db org id)
    then err invoice_not_found
    else ok (record db { invoices = update_where (is_row org id) set db.invoices })

unfoldable pub update_status : Env → Uuid → Uuid → Status → M (Unit {0})
update_status env org id status =
    execute env invoice_update_status
      (update_rows org id (λ i. record i { status = status; updated_at = env.db_now }))

unfoldable pub mark_sent_with_snapshot : Env → Uuid → Uuid → Invoice → M (Unit {0})
mark_sent_with_snapshot env org id inv = execute env invoice_mark_sent (
    update_rows org id (λ i. record i {
      status = inv.status;
      sent_at = inv.sent_at;
      seller = inv.seller;
      customer = inv.customer;
      currency = inv.currency;
      rendered_template_snapshot = inv.rendered_template_snapshot;
      updated_at = env.db_now;
    }))

unfoldable pub mark_cancelled : Env → Uuid → Uuid → Invoice → M (Unit {0})
mark_cancelled env org id inv = execute env invoice_mark_cancelled (
    update_rows org id (λ i. record i {
      status = inv.status;
      cancelled_at = inv.cancelled_at;
      seller = inv.seller;
      customer = inv.customer;
      currency = inv.currency;
      rendered_template_snapshot = null_if_empty inv.rendered_template_snapshot;
      updated_at = env.db_now;
    }))

-- The row that the INSERT writes: the columns that it does not name are NULL, or NOW().
abbrev pub inserted_row : Env → Invoice → Invoice
inserted_row env inv = record inv {
  sent_at = none;
  seller = no_seller;
  customer = no_customer;
  currency = none;
  cancelled_at = none;
  customer_display_name = [];
  rendered_template_snapshot = none;
  created_at = env.db_now;
  updated_at = env.db_now;
  deleted_at = none;
}

-- UNIQUE (organisation_id, invoice_number), over deleted rows too
abbrev pub same_number : Invoice → Invoice → Bool
same_number inv i =
    i.organisation_id == inv.organisation_id && text_eq i.invoice_number inv.invoice_number

unfoldable pub insert_invoice : Env → Invoice → M (Unit {0})
insert_invoice env inv = execute env invoice_create (λ db.
    if is_none (find? (same_number inv) db.invoices)
    then ok (record db { invoices = inserted_row env inv ∷ db.invoices })
    else err (internal invoice_create))

-- Returns the invoice with the timestamps that the database gave it.
unfoldable pub create : Env → Invoice → M Invoice
create env inv = do
  insert_invoice env inv
  pure (record inv { created_at = env.db_now; updated_at = env.db_now })

abbrev pub inserted_line : Env → Line → Line
inserted_line env l = record l { created_at = env.db_now; updated_at = env.db_now }

unfoldable pub insert_line : Env → ℕ → Line → M (Unit {0})
insert_line env n l =
    execute env (invoice_create_line n)
      (λ db. ok (record db { lines = inserted_line env l ∷ db.lines }))

-- One INSERT for each line, numbered from n; the first that fails ends the loop.
unfoldable pub create_lines : Env → ℕ → List Line → M (Unit {0})
create_lines env n [] = pure tt
create_lines env n (l ∷ ls) = insert_line env n l >> create_lines env (suc n) ls

-- The lines of an invoice that the organisation owns, in the order of the table: their
-- `created_at`, by which the query sorts, is the same for all lines of one transaction.
unfoldable pub get_lines_by_invoice_id : Env → Uuid → Uuid → M (List Line)
get_lines_by_invoice_id env org id = query env invoice_lines_get (λ db. ok (
    if is_none (find? (λ i. i.id == id && i.organisation_id == org) db.invoices)
    then []
    else keep (λ l. l.invoice_id == id) db.lines))
