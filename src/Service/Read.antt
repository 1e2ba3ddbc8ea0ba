-- ===== src/Service/Read.antt =====
-- The reads of InvoiceService: GetByID, List and GetPayments, and the currency that a response shows.
pub mod Items
pub mod Laws
pub mod Pages
pub mod Kept
use go_invoicing.Base.{
  ℕ, Bool, true, false, not, ◌&&◌, Option, none, some, List, [], ◌∷◌, map, ltb, ◌==◌, if◌then◌else◌,
}
use go_invoicing.Base.Int.{ℤ, pos}
use go_invoicing.Base.Text.{Text}
use go_invoicing.Base.Time.{Time, midnight}
use go_invoicing.Errors.{
  Error, Result, ok, fail_if, settings_not_found, invoice_currency_unavailable,
  invoice_list_status_invalid, invoice_list_issue_date_range_invalid,
  invoice_list_due_date_range_invalid,
}
use go_invoicing.Service.Read.Items.{InvoiceListItem, validate_filter, list_items}
use go_invoicing.Admin.{Uuid, Settings}
use go_invoicing.Invoice.{Status, Invoice, Line, Payment, is_draft}
use go_invoicing.Invoice.Snapshot.{resolve_currency_from_settings}
use go_invoicing.Store.{Env, M, pure, lift, ◌>>=◌, ◌>>◌}
use go_invoicing.Store.Invoices.{get_by_id, get_lines_by_invoice_id}
use go_invoicing.Store.Payments.{get_total_paid_by_invoice_id, get_by_invoice_id}
use go_invoicing.Store.Parties.{get_settings}
use go_invoicing.Store.Listing.{InvoiceListFilter, list_invoices, get_total_paid_by_invoice_ids}
use go_invoicing.Service.Snapshots.{map_err}

abbrev currency_failure : Error → Error
currency_failure settings_not_found = invoice_currency_unavailable
currency_failure e = e

-- Only a Draft reads the settings.
unfoldable pub resolve_invoice_currency : Env → Uuid → Invoice → M Text
resolve_invoice_currency env org inv =
    if is_draft inv.status
    then (do
      s ← map_err currency_failure (get_settings env org)
      lift (resolve_currency_from_settings env.upper inv (some s)))
    else lift (resolve_currency_from_settings env.upper inv none)

-- The invoice, its lines, what was paid, and its currency.
abbrev pub Shown : Type 0
Shown = Invoice × List Line × ℤ × Text

unfoldable pub read_invoice : Env → Uuid → Uuid → M Shown
read_invoice env org id = do
  inv ← get_by_id env org id
  lines ← get_lines_by_invoice_id env org id
  paid ← get_total_paid_by_invoice_id env org id
  currency ← resolve_invoice_currency env org inv
  pure (inv, lines, paid, currency)

unfoldable pub get_payments : Env → Uuid → Uuid → M (List Payment)
get_payments env org id = get_by_id env org id >>= λ inv. get_by_invoice_id env org id

abbrev pub any_draft : List Invoice → Bool
any_draft [] = false
any_draft (i ∷ is) = let rest = any_draft is in if is_draft i.status then true else rest

-- The settings are read once, if some row of the page is a Draft.
unfoldable pub page_settings : Env → Uuid → List Invoice → M (Option Settings)
page_settings env org is =
    if any_draft is
    then (do s ← map_err currency_failure (get_settings env org); pure (some s))
    else pure none

unfoldable pub page_items : Env → Uuid → ℕ → List Invoice → M (List InvoiceListItem × ℕ)
page_items env org count [] = pure ([], count)
page_items env org count (i ∷ is) = do
  settings ← page_settings env org (i ∷ is)
  paid ← get_total_paid_by_invoice_ids env org (map (λ i. i.id) (i ∷ is))
  items ← lift (list_items env.upper settings paid (i ∷ is))
  pure (items, count)

unfoldable pub list : Env → Uuid → InvoiceListFilter → Time → M (List InvoiceListItem × ℕ)
list env org f now = do
  lift (validate_filter f)
  (rows, count) ← list_invoices env org f (midnight now)
  page_items env org count rows
