-- ===== src/Service/Send.antt =====
-- InvoiceService.Send: the transition Draft → Sent in one transaction that holds the row's lock.
pub mod Effect
use go_invoicing.Errors.{invoice_already_cancelled, invoice_already_sent}
use go_invoicing.Base.{not}
use go_invoicing.Admin.{Uuid}
use go_invoicing.Invoice.{Invoice, is_cancelled, is_draft}
use go_invoicing.Invoice.Lifecycle.{mark_sent}
use go_invoicing.Store.{Env, M, pure, lift, throw_if, in_tx, ◌>>=◌, ◌>>◌}
use go_invoicing.Store.Invoices.{get_for_update, mark_sent_with_snapshot}
use go_invoicing.Service.Snapshots.{build_party_snapshot, build_template_snapshot}

-- What runs once the row is locked and read.
unfoldable pub send_locked : Env → Uuid → Uuid → Invoice → M Invoice
send_locked env org id inv = do
  throw_if (is_cancelled inv.status) invoice_already_cancelled
  throw_if (not (is_draft inv.status)) invoice_already_sent
  snapshot ← build_party_snapshot env org inv.customer_id
  template ← build_template_snapshot env org
  inv' ← lift (mark_sent env.marshal_template inv env.now snapshot template)
  mark_sent_with_snapshot env org id inv'
  pure inv'

unfoldable pub send_body : Env → Uuid → Uuid → M Invoice
send_body env org id = do inv ← get_for_update env org id; send_locked env org id inv

unfoldable pub send : Env → Uuid → Uuid → M Invoice
send env org id = in_tx env (send_body env org id)
