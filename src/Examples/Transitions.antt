-- ===== src/Examples/Transitions.antt =====
-- The theorems on Create, Send and Cancel that report success, at one ledger.
use go_invoicing.Base.{◌≢◌, ℕ}
use go_invoicing.Base.Text.{Text}
use go_invoicing.Store.{Env}
use go_invoicing.Service.Create.Numbers.{successive_numbers}
use go_invoicing.Base.{◌≡◌, ◌+◌, ◌++◌, ◌*◌, refl, none, List, [], ◌∷◌, map}
use go_invoicing.Base.Float.{le_zero, lt_zero}
use go_invoicing.Base.Int.{pos, add64, sub64, wrap64, bits64, of_bits64, ◌+ℤ◌, ◌-ℤ◌}
use go_invoicing.Base.Text.{codes, itoa, decimal_from, trim_space, is_space, upper_code}
use go_invoicing.Base.Time.{day_ns, parse_date}
use go_invoicing.Admin.{next_invoice_number}
use go_invoicing.Customer.{is_active}
use go_invoicing.Invoice.{Line}
use go_invoicing.Invoice.Calculation.{calculate_line_amounts, sum_from, sum_invoice_totals}
use go_invoicing.Invoice.Snapshot.{normalize_currency}
use go_invoicing.Store.Effects.{numbered}
use go_invoicing.Store.Invoices
use go_invoicing.Store.Invoices.{
  insert_invoice, insert_line, create_lines, inserted_row, inserted_line,
}
use go_invoicing.Store.Parties.{
  get_organisation, get_customer, get_settings_for_update, update_invoice_number,
}
use go_invoicing.Service.Snapshots.{nil_if_empty}
use go_invoicing.Service.Create.{
  Created, create, create_body, check_products, new_lines, new_line, new_invoice,
  customer_display_name,
}
use go_invoicing.Service.Create.Request.{
  ValidatedRequest, validate_request, validate_lines, validate_line, validate_quantity_unit,
  validate_product_id, parse_required,
}
use go_invoicing.Examples.Data.{organisation, customer, settings, create_request}
use go_invoicing.Errors.{Result, ok}
use go_invoicing.Invoice.{Invoice}
use go_invoicing.Invoice.Lifecycle.{
  copy_snapshots, apply_snapshots, mark_sent, cancel, check_cancellable,
}
use go_invoicing.Invoice.Lifecycle.Laws.{sent_form, cancelled_form}
use go_invoicing.Invoice.Snapshot.{validate, is_valid_currency_code}
use go_invoicing.Store.{Db, in_tx}
use go_invoicing.Store.Effects.{written_cancelled}
use go_invoicing.Store.Invoices.{
  invoice_row, get_for_update, mark_sent_with_snapshot, mark_cancelled,
}
use go_invoicing.Store.Parties.{get_settings, get_billing_address}
use go_invoicing.Store.Payments.{get_total_paid_by_invoice_id, paid_sum}
use go_invoicing.Store.Templates.{get_default}
use go_invoicing.Service.Snapshots.{
  build_party_snapshot, build_template_snapshot, party_snapshot, seller_vat_number,
}
use go_invoicing.Service.Send.{send, send_body, send_locked}
use go_invoicing.Service.Send.Effect.{written_sent}
use go_invoicing.Service.Cancel.{cancel_invoice, cancel_body, cancel_locked, cancel_snapshots}
use go_invoicing.Examples.Data.{env, db, party, draft_invoice, sent_invoice}

abbrev sent : Invoice
unfolding copy_snapshots
sent = sent_form draft_invoice env.now party (codes "{}")

abbrev sent_db : Db
sent_db = record db { invoices = written_sent env sent draft_invoice ∷ sent_invoice ∷ [] }

send_succeeds : ◌≡◌ {A = Result Invoice × Db} (send env 1 100 db) (ok sent, sent_db)
unfolding send send_body send_locked in_tx get_for_update build_party_snapshot
    build_template_snapshot party_snapshot seller_vat_number nil_if_empty get_organisation
    get_customer get_settings get_billing_address get_default mark_sent apply_snapshots
    copy_snapshots validate is_valid_currency_code normalize_currency trim_space is_space upper_code
    mark_sent_with_snapshot
send_succeeds = refl

abbrev cancelled : Invoice
cancelled = cancelled_form sent_invoice env.now

abbrev cancelled_db : Db
cancelled_db = record db {
  invoices = draft_invoice ∷ written_cancelled env cancelled sent_invoice ∷ [];
}

cancel_succeeds :
    ◌≡◌ {A = Result Invoice × Db} (cancel_invoice env 1 101 db) (ok cancelled, cancelled_db)
unfolding cancel_invoice cancel_body cancel_locked cancel_snapshots in_tx get_for_update
    get_total_paid_by_invoice_id paid_sum cancel check_cancellable copy_snapshots mark_cancelled
cancel_succeeds = refl

abbrev validated : ValidatedRequest
validated = record {
  customer_id = 3;
  issue_date = 739991 * day_ns;
  due_date = 740022 * day_ns;
  lines =
      (record {
        product_id = none;
        description = codes "Work";
        quantity = 2;
        quantity_unit = none;
        unit_price = pos 50;
        vat_rate = 20;
      })
      ∷ [];
}

abbrev created_lines : List Line
unfolding new_lines new_line calculate_line_amounts add64 ◌+ℤ◌ wrap64 bits64 of_bits64
created_lines = new_lines env 0 200 validated.lines

abbrev new_draft : Invoice
unfolding new_invoice sum_invoice_totals sum_from add64 sub64 wrap64 bits64 of_bits64 ◌+ℤ◌ ◌-ℤ◌
    nil_if_empty trim_space customer_display_name itoa decimal_from
new_draft =
    new_invoice env 1 organisation customer validated [] (sum_invoice_totals created_lines) settings
      42

abbrev created : Created
created = (
  record new_draft { created_at = env.db_now; updated_at = env.db_now },
  created_lines,
  codes "EUR",
)

abbrev created_db : Db
created_db = record db {
  invoices = inserted_row env new_draft ∷ db.invoices;
  lines = map (inserted_line env) created_lines;
  settings = numbered env 42 settings ∷ [];
}

create_succeeds :
    ◌≡◌ {A = Result Created × Db} (create env 1 create_request db) (ok created, created_db)
unfolding create validate_request validate_lines validate_line validate_quantity_unit
    validate_product_id parse_required parse_date le_zero lt_zero trim_space is_space get_customer
    is_active get_organisation check_products in_tx create_body get_settings_for_update
    update_invoice_number next_invoice_number normalize_currency upper_code Invoices.create
    insert_invoice create_lines insert_line new_lines new_line new_invoice calculate_line_amounts
    sum_invoice_totals sum_from add64 sub64 wrap64 bits64 of_bits64 ◌+ℤ◌ ◌-ℤ◌ nil_if_empty
    customer_display_name itoa decimal_from copy_snapshots
create_succeeds = refl

abbrev next_env : Env
next_env = record env { new_id = 201 }

abbrev next_lines : List Line
unfolding new_lines new_line calculate_line_amounts add64 ◌+ℤ◌ wrap64 bits64 of_bits64
next_lines = new_lines next_env 0 201 validated.lines

abbrev next_draft : Invoice
unfolding new_invoice sum_invoice_totals sum_from add64 sub64 wrap64 bits64 of_bits64 ◌+ℤ◌ ◌-ℤ◌
    nil_if_empty trim_space customer_display_name itoa decimal_from
next_draft =
    new_invoice next_env 1 organisation customer validated [] (sum_invoice_totals next_lines)
      (numbered env 42 settings) 43

abbrev next_created : Created
next_created = (
  record next_draft { created_at = env.db_now; updated_at = env.db_now },
  next_lines,
  codes "EUR",
)

abbrev next_db : Db
next_db = record created_db {
  invoices = inserted_row next_env next_draft ∷ created_db.invoices;
  lines = map (inserted_line next_env) next_lines ++ created_db.lines;
  settings = numbered next_env 43 settings ∷ [];
}

next_succeeds :
    ◌≡◌ {A = Result Created × Db}
      (create next_env 1 create_request created_db)
      (ok next_created, next_db)
unfolding create validate_request validate_lines validate_line validate_quantity_unit
    validate_product_id parse_required parse_date le_zero lt_zero trim_space is_space get_customer
    is_active get_organisation check_products in_tx create_body get_settings_for_update
    update_invoice_number next_invoice_number normalize_currency upper_code Invoices.create
    insert_invoice create_lines insert_line new_lines new_line new_invoice calculate_line_amounts
    sum_invoice_totals sum_from add64 sub64 wrap64 bits64 of_bits64 ◌+ℤ◌ ◌-ℤ◌ nil_if_empty
    customer_display_name itoa decimal_from copy_snapshots
next_succeeds = refl

successive_numbers_example :
    (prefix : Text) × (n : ℕ) × (created.0.invoice_number ≡ prefix ++ itoa n)
    × (next_created.0.invoice_number ≡ prefix ++ itoa (n + 1))
    × (created.0.invoice_number ≢ next_created.0.invoice_number)
successive_numbers_example =
    successive_numbers env next_env 1 create_request create_request db created_db next_db created
      next_created create_succeeds next_succeeds
