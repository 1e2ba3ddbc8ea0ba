-- ===== src/Service/Read/Items.antt =====
-- The checks of a list filter, and the items of a page (the parts of List without a database call).
use go_invoicing.Base.{
  ℕ, Bool, true, false, not, Option, some, List, [], ◌∷◌, ltb, ◌==◌, if◌then◌else◌,
}
use go_invoicing.Base.Int.{ℤ, pos}
use go_invoicing.Base.Text.{Text}
use go_invoicing.Base.Time.{Time}
use go_invoicing.Errors.{
  Result, ok, fail_if, ◌>>=◌, ◌>>◌, invoice_list_status_invalid,
  invoice_list_issue_date_range_invalid, invoice_list_due_date_range_invalid,
}
use go_invoicing.Admin.{Uuid, Settings}
use go_invoicing.Invoice.{Status, Invoice}
use go_invoicing.Invoice.Snapshot.{resolve_currency_from_settings}
use go_invoicing.Store.Listing.{InvoiceListFilter}

pub record InvoiceListItem : Type 0 where
  pub invoice : Invoice
  pub amount_paid : ℤ
  pub currency : Text

abbrev is_known : Option Status → Bool
is_known (some (Status.other t)) = false
is_known _ = true

-- from.After(to), where both are given
abbrev is_reversed : Option Time → Option Time → Bool
is_reversed (some from) (some to) = ltb to from
is_reversed _ _ = false

unfoldable pub validate_filter : InvoiceListFilter → Result (Unit {0})
validate_filter f = do
  fail_if (not (is_known f.status)) invoice_list_status_invalid
  fail_if (is_reversed f.issue_date_from f.issue_date_to) invoice_list_issue_date_range_invalid
  fail_if (is_reversed f.due_date_from f.due_date_to) invoice_list_due_date_range_invalid

abbrev pub paid_for : Uuid → List (Uuid × ℤ) → ℤ
paid_for id [] = pos 0
paid_for id ((k, n) ∷ rest) = if k == id then n else paid_for id rest

-- The first row without a currency fails the whole list.
unfoldable pub list_items :
    (ℕ → ℕ) → Option Settings → List (Uuid × ℤ) → List Invoice → Result (List InvoiceListItem)
list_items table settings paid [] = ok []
list_items table settings paid (i ∷ is) = do
  c ← resolve_currency_from_settings table i settings
  items ← list_items table settings paid is
  ok ((record { invoice = i; amount_paid = paid_for i.id paid; currency = c }) ∷ items)
