-- ===== src/Store/Listing.antt =====
-- The list query of invoices, and the payment totals of a page (List in
-- invoice_repository_postgres.go, GetTotalPaidByInvoiceIDs in payment_repository_postgres.go).
-- How the database matches and orders texts is an argument.
use go_invoicing.Base.{
  ℕ, Bool, true, false, ◌&&◌, ◌||◌, Option, none, some, List, [], ◌∷◌, keep, map, length, ltb, leb,
  ◌==◌, if◌then◌else◌,
}
use go_invoicing.Base.Int.{ℤ, pos, ltb_ℤ, in_int64}
use go_invoicing.Base.Text.{Text, text_eq, is_empty, codes}
use go_invoicing.Base.Time.{Time}
use go_invoicing.Errors.{Result, ok, err, internal, invoice_count, invoice_list, payment_totals}
use go_invoicing.Admin.{Uuid}
use go_invoicing.Invoice.{Status, Invoice, is_draft, is_sent, is_cancelled, no_seller, no_customer}
use go_invoicing.Store.{◌>>=◌, Db, Env, M, pure, query}
use go_invoicing.Store.Paging.{paged, row_before}
use go_invoicing.Store.Invoices.{is_none, display_name}
use go_invoicing.Store.Payments.{is_owned, paid_sum}

-- An empty status is `none`.
pub record InvoiceListFilter : Type 0 where
  pub status : Option Status
  pub customer_id : Option Uuid
  pub search : Text
  pub issue_date_from : Option Time
  pub issue_date_to : Option Time
  pub due_date_from : Option Time
  pub due_date_to : Option Time
  pub sort : Text
  pub order : Text
  pub limit : ℕ
  pub offset : ℕ

abbrev is_paid : Status → Bool
is_paid Status.paid = true
is_paid _ = false

-- The predicate of the status filter, for the date that is today.
unfoldable pub matches_status : Option Status → Time → Invoice → Bool
matches_status none today i = true
matches_status (some Status.draft) today i = is_draft i.status
matches_status (some Status.paid) today i = is_paid i.status
matches_status (some Status.cancelled) today i = is_cancelled i.status
matches_status (some Status.sent) today i = is_sent i.status && leb today i.due_date
matches_status (some Status.overdue) today i = is_sent i.status && ltb i.due_date today
matches_status (some (Status.other t)) today i = true

abbrev pub at_least : Option Time → Time → Bool
at_least none t = true
at_least (some from) t = leb from t

abbrev pub at_most : Option Time → Time → Bool
at_most none t = true
at_most (some to) t = leb t to

abbrev pub is_id : Option Uuid → Uuid → Bool
is_id none id = true
is_id (some c) id = id == c

-- The WHERE clause, which the count and the page share.
unfoldable pub matches : Env → Uuid → InvoiceListFilter → Time → Invoice → Bool
unfolding matches_status
matches env org f today i =
    i.organisation_id == org
    && is_none i.deleted_at
    && matches_status f.status today i
    && is_id f.customer_id i.customer_id
    && (is_empty f.search || env.contains_folded i.invoice_number f.search)
    && at_least f.issue_date_from i.issue_date
    && at_most f.issue_date_to i.issue_date
    && at_least f.due_date_from i.due_date
    && at_most f.due_date_to i.due_date

pub data SortColumn : Type 0 where
  invoice_number issue_date due_date total created_at : SortColumn

-- invoiceSortColumns, with the column for a name that it does not have
unfoldable pub sort_column : Text → SortColumn
sort_column name =
    if text_eq name (codes "invoiceNumber")
    then SortColumn.invoice_number
    else if text_eq name (codes "dueDate")
    then SortColumn.due_date
    else if text_eq name (codes "total")
    then SortColumn.total
    else if text_eq name (codes "createdAt")
    then SortColumn.created_at
    else SortColumn.issue_date

-- strings.EqualFold(order, "asc"); the letter s has a third form, U+017F.
unfoldable pub is_ascending : Text → Bool
is_ascending (a ∷ s ∷ c ∷ []) =
    (a == b'a' || a == b'A') && (s == b's' || s == b'S' || s == 0x17F) && (c == b'c' || c == b'C')
is_ascending _ = false

abbrev pub column_before : Env → SortColumn → Invoice → Invoice → Bool
column_before env SortColumn.invoice_number i j =
    env.collates_before i.invoice_number j.invoice_number
column_before env SortColumn.issue_date i j = ltb i.issue_date j.issue_date
column_before env SortColumn.due_date i j = ltb i.due_date j.due_date
column_before env SortColumn.total i j = ltb_ℤ i.total j.total
column_before env SortColumn.created_at i j = ltb i.created_at j.created_at

-- ORDER BY column direction, id ASC
unfoldable pub before : Env → SortColumn → Bool → Invoice → Invoice → Bool
before env column = row_before (column_before env column) (λ i. i.id)

-- The columns that the list query selects; the others are nil.
unfoldable pub listed_row : Db → Invoice → Invoice
listed_row db i = record i {
  seller = no_seller;
  customer = no_customer;
  rendered_template_snapshot = none;
  deleted_at = none;
  customer_display_name = display_name db i;
}

abbrev pub matching : Env → Uuid → InvoiceListFilter → Time → Db → List Invoice
matching env org f today db = keep (matches env org f today) db.invoices

unfoldable pub page : Env → Uuid → InvoiceListFilter → Time → Db → List Invoice
unfolding sort_column is_ascending before
page env org f today db =
    paged (before env (sort_column f.sort) (is_ascending f.order)) f.limit f.offset
      (matching env org f today db)

unfoldable pub list_invoices : Env → Uuid → InvoiceListFilter → Time → M (List Invoice × ℕ)
unfolding page listed_row
list_invoices env org f today = do
  count ← query env invoice_count (λ db. ok (length (matching env org f today db)))
  rows ← query env invoice_list (λ db. ok (map (listed_row db) (page env org f today db)))
  pure (rows, count)

abbrev with_first {ℓ} : {A : Type ℓ} → A → Result (List A) → Result (List A)
with_first x (ok xs) = ok (x ∷ xs)
with_first x (err e) = err e

-- The grouped sums, one for each id; an id without payments has no group, and the sum 0 stands for
-- what the map then returns.
abbrev sums_of : Db → Uuid → List Uuid → Result (List (Uuid × ℤ))
sums_of db org [] = ok []
sums_of db org (id ∷ ids) =
    let n = if is_owned db org id then paid_sum id db.payments else pos 0 in
    let rest = sums_of db org ids in
    if in_int64 n then with_first (id, n) rest else err (internal payment_totals)

unfoldable pub get_total_paid_by_invoice_ids : Env → Uuid → List Uuid → M (List (Uuid × ℤ))
get_total_paid_by_invoice_ids env org [] = pure []
get_total_paid_by_invoice_ids env org (id ∷ ids) =
    query env payment_totals (λ db. sums_of db org (id ∷ ids))
