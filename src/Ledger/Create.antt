-- ===== src/Ledger/Create.antt =====
-- Create keeps the ledger sound, whatever becomes of the call.
use mathlib.Core.Path.{subst}
use go_invoicing.Base.{◌≡◌, ◌≢◌, inl, inr, refl, sym, List, [], ◌∷◌, All, arith}
use go_invoicing.Base.Int.{pos, InInt64, wrap64-InInt64}
use go_invoicing.Base.Text.{Text}
use go_invoicing.Admin.{Uuid, Organisation}
use go_invoicing.Customer.{Customer}
use go_invoicing.Invoice.{Line, CreateInvoiceRequest}
use go_invoicing.Invoice.Calculation.{sum_invoice_totals}
use go_invoicing.Invoice.Calculation.Laws.{sum_invoice_totals_exact}
use go_invoicing.Store.{Db, Env, PaymentRow, in_tx_changes}
use go_invoicing.Store.Payments.{paid_sum}
use go_invoicing.Service.Create.{Created, create, create_body, new_invoice, new_lines}
use go_invoicing.Service.Create.Request.{ValidatedRequest}
use go_invoicing.Service.Create.Effect.{CreateEffect, create_body_ok}
use go_invoicing.Service.Create.Checks.{create_cases}
use go_invoicing.Ledger.{IsSound}

-- The identifier that uuid.New returned is in use nowhere.
pub record IsFresh (id : Uuid) (db : Db) : Type 0 where
  pub no_invoice : All (λ j. j.id ≢ id) db.invoices
  pub no_payment : All (λ (row : PaymentRow). row.payment.invoice_id ≢ id) db.payments

unpaid_fresh :
    (id : Uuid) (rows : List PaymentRow)
    → All (λ (row : PaymentRow). row.payment.invoice_id ≢ id) rows
    → paid_sum id rows ≡ pos 0
unfolding paid_sum
unpaid_fresh id [] h = refl
unpaid_fresh id (row ∷ rows) h = ground (arith, unpaid_fresh id rows h.1)

total-InInt64 : (ls : List Line) → InInt64 (sum_invoice_totals ls).total
total-InInt64 ls = subst InInt64 (sym (sum_invoice_totals_exact ls).2) (wrap64-InInt64 _)

created-IsSound :
    (env : Env) (org : Uuid) (o : Organisation) (c : Customer) (v : ValidatedRequest) (notes : Text)
    (lines : List Line) (db : Db) (r : Created) (after : Db)
    → IsFresh env.new_id db
    → IsSound db
    → CreateEffect env org o c v notes lines db r after
    → IsSound after
unfolding new_invoice
created-IsSound env org o c v notes lines db r after f s x =
    rw (x.stored, x.made)
      (record {
        distinct = (f.no_invoice, s.distinct);
        coherent = ((refl, refl, refl), s.coherent);
        accounted =
            ((total-InInt64 lines, unpaid_fresh env.new_id db.payments f.no_payment), s.accounted);
      })

-- Whatever Create returns, and whichever of its database calls fail, a sound ledger stays sound,
-- provided that the identifier of the new invoice is fresh.
pub create-IsSound :
    (env : Env) (org : Uuid) (r : CreateInvoiceRequest) (db : Db)
    → IsFresh env.new_id db
    → IsSound db
    → IsSound (create env org r db).1
create-IsSound env org r db f s = elim (create_cases env org r db) [
  | inl (e, failed) ↦ rw failed s
  | inr c ↦
      let lines = new_lines env 0 env.new_id c.request.lines in
      let body = create_body env org c.organisation c.customer c.request r.notes lines in
      rw c.run (elim (in_tx_changes env body db) [
        | inl same ↦ rw same s
        | inr (x, done, e) ↦ rw e (
            created-IsSound env org c.organisation c.customer c.request r.notes lines db x
              (body db).1 f s
              (create_body_ok env org c.organisation c.customer c.request r.notes lines db done))
      ])
]
