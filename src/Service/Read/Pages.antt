-- ===== src/Service/Read/Pages.antt =====
-- What the pages of the invoice list hold together, whatever the order of the table.
use mathlib.Core.List.{Perm}
use go_invoicing.Base.{
  ℕ, ◌*◌, ◌≤◌, ◌≡◌, ◌↔◌, refl, sym, ap, true, false, Option, none, some, length, arith,
}
use go_invoicing.Base.Text.{is_empty}
use go_invoicing.Base.Time.{Time}
use go_invoicing.Admin.{Uuid}
use go_invoicing.Invoice.{Invoice}
use go_invoicing.Store.{Db, Env}
use go_invoicing.Store.Rows.{DistinctIds}
use go_invoicing.Store.Paging.{visit, take, drop}
use go_invoicing.Store.Paging.Laws.{visit-perm}
use go_invoicing.Store.Paging.Order.{
  IsOrdering, Reordered, DistinctKeys-keep, keep-Reordered, sort_rows-Reordered, visit-same,
}
use go_invoicing.Store.Listing.{
  SortColumn, column_before, before, sort_column, is_ascending, matching, InvoiceListFilter,
  matches_status, matches, at_least, at_most, is_id, page,
}

-- What the filter asks of an invoice.
pub record IsWanted (env : Env) (org : Uuid) (f : InvoiceListFilter) (today : Time) (i : Invoice)
    : Type 0 where
  pub owned : i.organisation_id ≡ org
  pub live : i.deleted_at ≡ none
  pub status : matches_status f.status today i ≡ true
  pub customer : (c : Uuid) → f.customer_id ≡ some c → i.customer_id ≡ c
  pub search : is_empty f.search ≡ false → env.contains_folded i.invoice_number f.search ≡ true
  pub issued_from : (t : Time) → f.issue_date_from ≡ some t → t ≤ i.issue_date
  pub issued_to : (t : Time) → f.issue_date_to ≡ some t → i.issue_date ≤ t
  pub due_from : (t : Time) → f.due_date_from ≡ some t → t ≤ i.due_date
  pub due_to : (t : Time) → f.due_date_to ≡ some t → i.due_date ≤ t

at_least_iff :
    (o : Option Time) (u : Time) → (at_least o u ≡ true) ↔ ((t : Time) → o ≡ some t → t ≤ u)
at_least_iff none u = (λ h t e. absurd (ground arith), λ h. refl)
at_least_iff (some s) u = (λ h t e. ground arith, λ h. let k = h s refl in ground arith)

at_most_iff :
    (o : Option Time) (u : Time) → (at_most o u ≡ true) ↔ ((t : Time) → o ≡ some t → u ≤ t)
at_most_iff none u = (λ h t e. absurd (ground arith), λ h. refl)
at_most_iff (some s) u = (λ h t e. ground arith, λ h. let k = h s refl in ground arith)

is_id_iff : (o : Option Uuid) (u : Uuid) → (is_id o u ≡ true) ↔ ((c : Uuid) → o ≡ some c → u ≡ c)
is_id_iff none u = (λ h t e. absurd (ground arith), λ h. refl)
is_id_iff (some s) u = (λ h t e. ground arith, λ h. let k = h s refl in ground arith)

-- The WHERE clause asks for that, and for nothing more.
matches_iff :
    (env : Env) (org : Uuid) (f : InvoiceListFilter) (today : Time) (i : Invoice)
    → (matches env org f today i ≡ true) ↔ IsWanted env org f today i
unfolding matches
matches_iff env org f today i = (
  λ h. record {
    owned = ground arith;
    live = ground arith;
    status = ground arith;
    customer = (is_id_iff f.customer_id i.customer_id).0 (ground arith);
    search = λ e. ground arith;
    issued_from = (at_least_iff f.issue_date_from i.issue_date).0 (ground arith);
    issued_to = (at_most_iff f.issue_date_to i.issue_date).0 (ground arith);
    due_from = (at_least_iff f.due_date_from i.due_date).0 (ground arith);
    due_to = (at_most_iff f.due_date_to i.due_date).0 (ground arith);
  },
  λ w.
      let a = w.owned in
      let b = w.live in
      let c = w.status in
      let d = (is_id_iff f.customer_id i.customer_id).1 w.customer in
      let e = w.search in
      let g = (at_least_iff f.issue_date_from i.issue_date).1 w.issued_from in
      let h = (at_most_iff f.issue_date_to i.issue_date).1 w.issued_to in
      let j = (at_least_iff f.due_date_from i.due_date).1 w.due_from in
      let k = (at_most_iff f.due_date_to i.due_date).1 w.due_to in
      ground (arith, a, b, c, d, e, g, h, j, k),
)

-- Every sort column is one to order by, if the collation of the database is.
column-IsOrdering :
    (env : Env) (column : SortColumn)
    → IsOrdering env.collates_before
    → IsOrdering (column_before env column)
column-IsOrdering env SortColumn.invoice_number o = record {
  asymmetric = λ i j. o.asymmetric i.invoice_number j.invoice_number;
  splits = λ i j k. o.splits i.invoice_number j.invoice_number k.invoice_number;
}
column-IsOrdering env SortColumn.issue_date o = record {
  asymmetric = λ i j h. ground arith;
  splits = λ i j k h. ground arith;
}
column-IsOrdering env SortColumn.due_date o = record {
  asymmetric = λ i j h. ground arith;
  splits = λ i j k h. ground arith;
}
column-IsOrdering env SortColumn.total o = record {
  asymmetric = λ i j h. ground arith;
  splits = λ i j k h. ground arith;
}
column-IsOrdering env SortColumn.created_at o = record {
  asymmetric = λ i j h. ground arith;
  splits = λ i j k h. ground arith;
}

module _ (env : Env) (org : Uuid) (f : InvoiceListFilter) (today : Time) (db : Db)
    (collation : IsOrdering env.collates_before) (distinct : DistinctIds db.invoices) where
  -- A page is the same for every order of the table.
  page-Reordered :
      (table : Db) (o : ℕ)
      → Reordered db.invoices table.invoices
      → page env org (record f { offset = o }) today table
        ≡ page env org (record f { offset = o }) today db
  unfolding page matches before
  page-Reordered table o r =
      ap (λ is. take f.limit (drop o is))
        (sym (
          sort_rows-Reordered (column_before env (sort_column f.sort)) (λ i. i.id)
            (is_ascending f.order) (column-IsOrdering env (sort_column f.sort) collation)
            (DistinctKeys-keep (λ i. i.id) (matches env org f today) db.invoices distinct)
            (keep-Reordered (matches env org f today) r)))

  -- Asked page by page from the first, with one filter and at one moment, until the pages cover the
  -- count, the list query returns every invoice that the filter wants exactly once, though each
  -- request may meet the rows of the table in another order. Identifiers are distinct, and the
  -- collation of the database orders texts.
  pub pages_cover :
      (count : ℕ) (tables : ℕ → Db)
      → ((o : ℕ) → Reordered db.invoices (tables o).invoices)
      → length (matching env org f today db) ≤ count * f.limit
      → Perm
          (visit (λ o. page env org (record f { offset = o }) today (tables o)) f.limit 0 count)
          (matching env org f today db)
        × ((i : Invoice) → (matches env org f today i ≡ true) ↔ IsWanted env org f today i)
  unfolding page matches
  pages_cover count tables r h = (
    rw
        (visit-same (λ o. page env org (record f { offset = o }) today (tables o))
          (λ o. page env org (record f { offset = o }) today db) f.limit 0 count
          (λ o. page-Reordered (tables o) o (r o)))
        (visit-perm (before env (sort_column f.sort) (is_ascending f.order)) f.limit count
          (matching env org f today db) h),
    matches_iff env org f today,
  )
