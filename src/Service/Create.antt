-- ===== src/Service/Create.antt =====
-- InvoiceService.Create: a Draft invoice with the next number of its organisation.
pub mod Request
pub mod Effect
pub mod Checks
pub mod Numbers
use go_invoicing.Base.{
  ℕ, suc, Bool, false, true, not, Option, none, some, List, [], ◌∷◌, ◌++◌, map, ◌&&◌, ◌||◌,
  if◌then◌else◌,
}
use go_invoicing.Base.Float.{ne_zero}
use go_invoicing.Base.Text.{Text, trim_space, is_empty, itoa}
use go_invoicing.Base.Time.{zero_time}
use go_invoicing.Errors.{
  Error, customer_not_found, invoice_customer_not_found, invoice_customer_not_active,
  invoice_line_vat_not_permitted, product_not_found, invoice_line_product_not_found,
  settings_not_found, invoice_settings_not_found,
}
use go_invoicing.Admin.{Uuid, Organisation, Settings, next_invoice_number}
use go_invoicing.Customer.{Customer, is_active}
use go_invoicing.Invoice.{Status, Invoice, Line, CreateInvoiceRequest, no_seller, no_customer}
use go_invoicing.Invoice.Calculation.{Totals, calculate_line_amounts, sum_invoice_totals}
use go_invoicing.Invoice.Snapshot.{normalize_currency}
use go_invoicing.Store.{Env, M, pure, lift, throw_if, in_tx, ◌>>=◌, ◌>>◌}
use go_invoicing.Store.Invoices
use go_invoicing.Store.Invoices.{create_lines, inserted_line}
use go_invoicing.Store.Parties.{
  get_customer, get_organisation, get_product, get_settings_for_update, update_invoice_number,
}
use go_invoicing.Service.Snapshots.{map_err, nil_if_empty}
use go_invoicing.Service.Create.Request.{ValidatedLine, ValidatedRequest, validate_request}

abbrev pub customer_failure : Error → Error
customer_failure customer_not_found = invoice_customer_not_found
customer_failure e = e

abbrev pub product_failure : Error → Error
product_failure product_not_found = invoice_line_product_not_found
product_failure e = e

abbrev pub settings_failure : Error → Error
settings_failure settings_not_found = invoice_settings_not_found
settings_failure e = e

-- Whether some line charges VAT.
abbrev pub any_vat : List ValidatedLine → Bool
any_vat [] = false
any_vat (v ∷ vs) = let rest = any_vat vs in if ne_zero v.vat_rate then true else rest

abbrev pub check_product : Env → ℕ → Uuid → Option Uuid → M (Unit {0})
check_product env n org none = pure tt
check_product env n org (some id) =
    map_err product_failure (get_product env n org id) >>= λ p. pure tt

-- The loop over the lines' products, numbered from n.
unfoldable pub check_products : Env → ℕ → Uuid → List ValidatedLine → M (Unit {0})
check_products env n org [] = pure tt
check_products env n org (v ∷ vs) =
    check_product env n org v.product_id >> check_products env (suc n) org vs

unfoldable pub new_line : Env → ℕ → Uuid → ValidatedLine → Line
new_line env n invoice_id v =
    let amounts = calculate_line_amounts env.floats v.quantity v.unit_price v.vat_rate in
    record {
      id = env.later_id n;
      invoice_id = invoice_id;
      product_id = v.product_id;
      description = v.description;
      quantity = v.quantity;
      quantity_unit = v.quantity_unit;
      unit_price = v.unit_price;
      vat_rate = v.vat_rate;
      vat_amount = amounts.0;
      total = amounts.1;
      created_at = zero_time;
      updated_at = zero_time;
    }

unfoldable pub new_lines : Env → ℕ → Uuid → List ValidatedLine → List Line
new_lines env n invoice_id [] = []
new_lines env n invoice_id (v ∷ vs) =
    new_line env n invoice_id v ∷ new_lines env (suc n) invoice_id vs

-- A company name that is not blank, else the name.
unfoldable pub customer_display_name : Customer → Text
customer_display_name c = elim c.company_name [
  | none ↦ c.name
  | some t ↦ if is_empty (trim_space t) then c.name else t
]

unfoldable pub new_invoice :
    Env → Uuid → Organisation → Customer → ValidatedRequest → Text → Totals → Settings → ℕ → Invoice
new_invoice env org o c v notes t s number = record {
  id = env.new_id;
  organisation_id = org;
  customer_id = v.customer_id;
  invoice_number = s.invoice_prefix ++ itoa number;
  issue_date = v.issue_date;
  due_date = v.due_date;
  subtotal = t.subtotal;
  vat_total = t.vat_total;
  total = t.total;
  status = Status.draft;
  sent_at = none;
  notes = nil_if_empty notes;
  vat_registered = o.vat_registered;
  seller = no_seller;
  customer = no_customer;
  currency = none;
  cancelled_at = none;
  customer_display_name = customer_display_name c;
  rendered_template_snapshot = none;
  created_at = zero_time;
  updated_at = zero_time;
  deleted_at = none;
}

abbrev pub Created : Type 0
Created = Invoice × List Line × Text

-- The transaction, whose lines come back without the times of their rows: lock the settings, take a number, write the invoice and its lines.
unfoldable pub create_body :
    Env → Uuid → Organisation → Customer → ValidatedRequest → Text → List Line → M Created
create_body env org o c v notes lines = do
  s ← map_err settings_failure (get_settings_for_update env org)
  let number = (next_invoice_number s).0
  update_invoice_number env org number
  inv ← Invoices.create env (new_invoice env org o c v notes (sum_invoice_totals lines) s number)
  create_lines env 0 lines
  pure (inv, lines, normalize_currency env.upper s.currency)

unfoldable pub create : Env → Uuid → CreateInvoiceRequest → M Created
create env org r = do
  v ← lift (validate_request env r)
  c ← map_err customer_failure (get_customer env org v.customer_id)
  throw_if (not (is_active c)) invoice_customer_not_active
  o ← get_organisation env org
  throw_if (not o.vat_registered && any_vat v.lines) invoice_line_vat_not_permitted
  check_products env 0 org v.lines
  in_tx env (create_body env org o c v r.notes (new_lines env 0 env.new_id v.lines))
