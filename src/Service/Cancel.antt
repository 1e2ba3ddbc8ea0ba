-- ===== src/Service/Cancel.antt =====
-- InvoiceService.Cancel: the transition to Cancelled in one transaction that holds the row's lock.
pub mod Effect
use go_invoicing.Admin.{Uuid}
use go_invoicing.Base.{none, [], false, if◌then◌else◌}
use go_invoicing.Base.Int.{ℤ}
use go_invoicing.Invoice.{Invoice, InvoicePartySnapshot, TemplateSnapshot, is_draft}
use go_invoicing.Invoice.Lifecycle.{check_cancellable, cancel}
use go_invoicing.Store.{Env, M, pure, lift, in_tx, ◌>>=◌, ◌>>◌}
use go_invoicing.Store.Invoices.{get_for_update, mark_cancelled}
use go_invoicing.Store.Payments.{get_total_paid_by_invoice_id}
use go_invoicing.Service.Snapshots.{build_party_snapshot, build_template_snapshot}

-- The zero values of the two snapshot types.
abbrev no_snapshot : InvoicePartySnapshot
no_snapshot = record {
  seller_name = [];
  seller_email = none;
  seller_phone = none;
  seller_website = none;
  seller_address = none;
  seller_city = none;
  seller_state = none;
  seller_postal_code = none;
  seller_country = none;
  seller_tax_id = none;
  seller_logo_id = none;
  customer_name = [];
  customer_company_name = none;
  customer_email = none;
  customer_phone = none;
  customer_tax_id = none;
  customer_address = none;
  customer_city = none;
  customer_state = none;
  customer_postal_code = none;
  customer_country = none;
  currency = [];
}

abbrev no_template : TemplateSnapshot
no_template = record { template_id = 0; name = []; definition = []; is_system = false }

abbrev pub Snapshots : Type 0
Snapshots = InvoicePartySnapshot × TemplateSnapshot

-- Only a Draft gets snapshots here.
unfoldable pub cancel_snapshots : Env → Uuid → Invoice → M Snapshots
cancel_snapshots env org inv =
    if is_draft inv.status
    then (do
      snapshot ← build_party_snapshot env org inv.customer_id
      template ← build_template_snapshot env org
      pure (snapshot, template))
    else pure (no_snapshot, no_template)

-- What runs once the row is locked and the payments are totalled.
unfoldable pub cancel_locked : Env → Uuid → Uuid → Invoice → ℤ → M Invoice
cancel_locked env org id inv paid = do
  lift (check_cancellable inv paid)
  snapshots ← cancel_snapshots env org inv
  inv' ← lift (cancel env.marshal_template inv env.now paid snapshots.0 snapshots.1)
  mark_cancelled env org id inv'
  pure inv'

unfoldable pub cancel_body : Env → Uuid → Uuid → M Invoice
cancel_body env org id = do
  inv ← get_for_update env org id
  paid ← get_total_paid_by_invoice_id env org id
  cancel_locked env org id inv paid

unfoldable pub cancel_invoice : Env → Uuid → Uuid → M Invoice
cancel_invoice env org id = in_tx env (cancel_body env org id)
