-- ===== src/Service/Read/Kept.antt =====
-- Reading an invoice with its lines, payments and currency changes nothing.
use go_invoicing.Base.{refl, inl, inr, arith, Bool-cases}
use go_invoicing.Store.{Env}
use go_invoicing.Admin.{Uuid}
use go_invoicing.Invoice.{Invoice, is_draft}
use go_invoicing.Store.Laws.{ReadsOnly, query-ReadsOnly}
use go_invoicing.Service.Read.{resolve_invoice_currency, read_invoice}
use go_invoicing.Store.Invoices.{get_by_id, get_lines_by_invoice_id}
use go_invoicing.Store.Payments.{get_total_paid_by_invoice_id}
use go_invoicing.Service.Snapshots.Reads.{get_settings-ReadsOnly}

module _ (after : Env) (org id : Uuid) where
  currency-ReadsOnly : (i : Invoice) → ReadsOnly (resolve_invoice_currency after org i)
  unfolding resolve_invoice_currency
  currency-ReadsOnly i db = elim (Bool-cases (is_draft i.status)) [
    | inl draft ↦ ground (arith, get_settings-ReadsOnly after org db)
    | inr issued ↦ rw issued refl
  ]

  get_by_id-ReadsOnly : ReadsOnly (get_by_id after org id)
  unfolding get_by_id
  get_by_id-ReadsOnly = query-ReadsOnly after _ _

  lines-ReadsOnly : ReadsOnly (get_lines_by_invoice_id after org id)
  unfolding get_lines_by_invoice_id
  lines-ReadsOnly = query-ReadsOnly after _ _

  paid-ReadsOnly : ReadsOnly (get_total_paid_by_invoice_id after org id)
  unfolding get_total_paid_by_invoice_id
  paid-ReadsOnly = query-ReadsOnly after _ _

  pub read_invoice-ReadsOnly : ReadsOnly (read_invoice after org id)
  unfolding read_invoice
  read_invoice-ReadsOnly db =
      grind (arith, get_by_id-ReadsOnly, lines-ReadsOnly, paid-ReadsOnly, currency-ReadsOnly)
