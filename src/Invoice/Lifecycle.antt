-- ===== src/Invoice/Lifecycle.antt =====
-- The transitions of an invoice in memory (invoice.go): MarkSent, Cancel, CheckCancellable,
-- CanAcceptPayment, AmountOutstanding and EffectiveStatus. The JSON encoder is an argument.
pub mod Laws
pub mod Dates
use go_invoicing.Base.{not, ℕ, Bool, true, false, Option, none, some, ltb, if◌then◌else◌}
use go_invoicing.Base.Int.{ℤ, pos, ltb_ℤ, sub64}
use go_invoicing.Base.Text.{Text}
use go_invoicing.Base.Time.{Time, midnight}
use go_invoicing.Errors.{
  Error, Result, ok, err, ◌>>=◌, ◌>>◌, fail_if, or_fail, invoice_already_sent,
  invoice_already_cancelled, invoice_cannot_be_cancelled, template_snapshot_marshal,
}
use go_invoicing.Invoice.{
  Status, Invoice, InvoicePartySnapshot, TemplateSnapshot, is_draft, is_sent, is_cancelled,
}
use go_invoicing.Invoice.Snapshot.{validate}

-- Copies every field of the snapshot, and the encoded template, onto the invoice.
unfoldable pub copy_snapshots : Invoice → InvoicePartySnapshot → Text → Invoice
copy_snapshots i s template = record i {
  seller = record {
    seller_name = some s.seller_name;
    seller_email = s.seller_email;
    seller_phone = s.seller_phone;
    seller_website = s.seller_website;
    seller_address = s.seller_address;
    seller_city = s.seller_city;
    seller_state = s.seller_state;
    seller_postal_code = s.seller_postal_code;
    seller_country = s.seller_country;
    seller_tax_id = s.seller_tax_id;
    seller_logo_id = s.seller_logo_id;
  };
  customer = record {
    customer_name = some s.customer_name;
    customer_company_name = s.customer_company_name;
    customer_email = s.customer_email;
    customer_phone = s.customer_phone;
    customer_tax_id = s.customer_tax_id;
    customer_address = s.customer_address;
    customer_city = s.customer_city;
    customer_state = s.customer_state;
    customer_postal_code = s.customer_postal_code;
    customer_country = s.customer_country;
  };
  currency = some s.currency;
  rendered_template_snapshot = some template;
}

abbrev pub Marshal : Type 0
Marshal = TemplateSnapshot → Option Text

unfoldable pub apply_snapshots :
    Marshal → Invoice → InvoicePartySnapshot → TemplateSnapshot → Result Invoice
apply_snapshots marshal i snapshot template = do
  validate snapshot
  encoded ← or_fail (marshal template) template_snapshot_marshal
  ok (copy_snapshots i snapshot encoded)

unfoldable pub mark_sent :
    Marshal → Invoice → Time → InvoicePartySnapshot → TemplateSnapshot → Result Invoice
mark_sent marshal i sent_at snapshot template = do
  fail_if (not (is_draft i.status)) invoice_already_sent
  i' ← apply_snapshots marshal i snapshot template
  ok (record i' { status = Status.sent; sent_at = some sent_at })

abbrev pub cancellable : Status → ℤ → Result (Unit {0})
cancellable Status.cancelled paid = err invoice_already_cancelled
cancellable Status.draft paid = fail_if (ltb_ℤ (pos 0) paid) invoice_cannot_be_cancelled
cancellable Status.sent paid = fail_if (ltb_ℤ (pos 0) paid) invoice_cannot_be_cancelled
cancellable _ paid = err invoice_cannot_be_cancelled

unfoldable pub check_cancellable : Invoice → ℤ → Result (Unit {0})
check_cancellable i paid = cancellable i.status paid

unfoldable pub cancel :
    Marshal → Invoice → Time → ℤ → InvoicePartySnapshot → TemplateSnapshot → Result Invoice
cancel marshal i cancelled_at paid snapshot template = do
  check_cancellable i paid
  i' ← if is_draft i.status then apply_snapshots marshal i snapshot template else ok i
  ok (record i' { status = Status.cancelled; cancelled_at = some cancelled_at })

unfoldable pub can_accept_payment : Invoice → Bool
can_accept_payment i = is_sent i.status

unfoldable pub amount_outstanding : Invoice → ℤ → ℤ
amount_outstanding i paid = if is_cancelled i.status then pos 0 else sub64 i.total paid

unfoldable pub is_past_due_date : Time → Time → Bool
unfolding midnight
is_past_due_date now due_date = ltb due_date (midnight now)

unfoldable pub effective_status : Invoice → Time → Status
effective_status i now =
    if is_sent i.status
    then (if is_past_due_date now i.due_date then Status.overdue else Status.sent)
    else i.status
