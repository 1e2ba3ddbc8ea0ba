-- ===== src/Ledger/Issued.antt =====
-- The rows that Send and Cancel are to leave, column by column (invoice_party_snapshot.go, and the
-- UPDATEs of MarkSentWithSnapshot and MarkCancelled in invoice_repository_postgres.go).
use go_invoicing.Base.{some, ◌≡◌}
use go_invoicing.Base.Text.{Text}
use go_invoicing.Base.Int.{pos}
use go_invoicing.Errors.{ok}
use go_invoicing.Admin.{Uuid}
use go_invoicing.Invoice.{
  Status, Invoice, InvoicePartySnapshot, TemplateSnapshot, SellerColumns, CustomerColumns,
}
use go_invoicing.Invoice.Lifecycle.Laws.{IsComplete}
use go_invoicing.Store.{Db, Env}
use go_invoicing.Store.Invoices.{invoice_row, null_if_empty}
use go_invoicing.Store.Payments.{paid_sum}
use go_invoicing.Store.Rows.{others}
use go_invoicing.Service.Snapshots.{build_party_snapshot, build_template_snapshot}

abbrev captured_seller : InvoicePartySnapshot → SellerColumns
captured_seller s = record {
  seller_name = some s.seller_name;
  seller_email = s.seller_email;
  seller_phone = s.seller_phone;
  seller_website = s.seller_website;
  seller_address = s.seller_address;
  seller_city = s.seller_city;
  seller_state = s.seller_state;
  seller_postal_code = s.seller_postal_code;
  seller_country = s.seller_country;
  seller_tax_id = s.seller_tax_id;
  seller_logo_id = s.seller_logo_id;
}

abbrev captured_customer : InvoicePartySnapshot → CustomerColumns
captured_customer s = record {
  customer_name = some s.customer_name;
  customer_company_name = s.customer_company_name;
  customer_email = s.customer_email;
  customer_phone = s.customer_phone;
  customer_tax_id = s.customer_tax_id;
  customer_address = s.customer_address;
  customer_city = s.customer_city;
  customer_state = s.customer_state;
  customer_postal_code = s.customer_postal_code;
  customer_country = s.customer_country;
}

-- The row with the snapshots captured, and nothing else of it changed.
abbrev captured_row : Env → InvoicePartySnapshot → Text → Invoice → Invoice
captured_row env s layout row = record row {
  seller = captured_seller s;
  customer = captured_customer s;
  currency = some s.currency;
  rendered_template_snapshot = some layout;
  updated_at = env.db_now;
}

-- What the database holds on the parties and the default layout, complete and encoded.
pub record HasCaptured (env : Env) (org : Uuid) (db : Db) (row : Invoice) (s : InvoicePartySnapshot)
    (layout : Text) : Type 0 where
  pub template : TemplateSnapshot
  pub party : (build_party_snapshot env org row.customer_id db).0 ≡ ok s
  pub chosen : (build_template_snapshot env org db).0 ≡ ok template
  pub encodes : env.marshal_template template ≡ some layout
  pub complete : IsComplete s

-- One row of the organisation was rewritten, and nothing else.
pub record Rewrites (org id : Uuid) (row row' : Invoice) (db after : Db) : Type 0 where
  pub found : invoice_row db org id ≡ some row
  pub written : invoice_row after org id ≡ some row'
  pub rest : others org id after.invoices ≡ others org id db.invoices
  pub tables : after ≡ record db { invoices = after.invoices }

-- A Draft was sent, at the moment of the call.
pub record IsSent (env : Env) (org id : Uuid) (db after : Db) : Type 0 where
  pub row : Invoice
  pub snapshot : InvoicePartySnapshot
  pub layout : Text
  pub was_draft : row.status ≡ Status.draft
  pub captured : HasCaptured env org db row snapshot layout
  pub rewrites :
      Rewrites org id row
        (record (captured_row env snapshot layout row) {
          status = Status.sent;
          sent_at = some env.now;
        })
        db
        after

-- An invoice without payments was cancelled, at the moment of the call. A Draft has its snapshots
-- captured, a Sent one keeps its own; an empty layout is stored as NULL.
pub data IsCancelled (env : Env) (org id : Uuid) (db after : Db) : Type 0 where
  a_draft :
      (row : Invoice) (s : InvoicePartySnapshot) (layout : Text)
      → row.status ≡ Status.draft
      → paid_sum row.id db.payments ≡ pos 0
      → HasCaptured env org db row s layout
      → Rewrites org id row
          (record (captured_row env s layout row) {
            status = Status.cancelled;
            cancelled_at = some env.now;
            rendered_template_snapshot = null_if_empty (some layout);
          })
          db
          after
      → IsCancelled env org id db after
  a_sent :
      (row : Invoice)
      → row.status ≡ Status.sent
      → paid_sum row.id db.payments ≡ pos 0
      → Rewrites org id row
          (record row {
            status = Status.cancelled;
            cancelled_at = some env.now;
            rendered_template_snapshot = null_if_empty row.rendered_template_snapshot;
            updated_at = env.db_now;
          })
          db
          after
      → IsCancelled env org id db after
