-- ===== src/Ledger/Send.antt =====
-- Send keeps the ledger sound, whatever becomes of the call.
use mathlib.Core.Path.{subst}
use go_invoicing.Store.Payments.{paid_sum}
use go_invoicing.Base.{refl, ◌≡◌, inl, inr, List}
use go_invoicing.Admin.{Uuid}
use go_invoicing.Invoice.{Status, Invoice, InvoicePartySnapshot}
use go_invoicing.Base.Text.{Text}
use go_invoicing.Invoice.Lifecycle.{copy_snapshots}
use go_invoicing.Invoice.Lifecycle.Laws.{IsComplete, sent_form}
use go_invoicing.Store.{PaymentRow, Db, Env, in_tx_changes}
use go_invoicing.Store.Invoices.{is_row}
use go_invoicing.Store.Rows.{All-find?, All-update_where, DistinctIds-update_where}
use go_invoicing.Service.Send.{send_body, send}
use go_invoicing.Service.Send.Effect.{send_body_ok, written_sent}
use go_invoicing.Ledger.{IsSound, IsCoherent, IsAccounted, CoherentAs, AccountedAs}

IsCoherent-sent :
    (env : Env) (row j : Invoice) (s : InvoicePartySnapshot) (t : Text)
    → row.status ≡ Status.draft
    → IsCoherent row
    → IsComplete s
    → j ≡ sent_form row env.now s t
    → IsCoherent (written_sent env j row)
unfolding copy_snapshots
IsCoherent-sent env row j s t d c comp e =
    let draft' = subst (λ st. CoherentAs st row) d c in
    rw e
      (refl, draft'.1, (rw comp.seller_named refl, rw comp.customer_named refl, comp.currency_code))

IsAccounted-sent :
    (env : Env) (row j : Invoice) (s : InvoicePartySnapshot) (t : Text) (rows : List PaymentRow)
    → row.status ≡ Status.draft
    → IsAccounted rows row
    → j ≡ sent_form row env.now s t
    → IsAccounted rows (written_sent env j row)
unfolding copy_snapshots
IsAccounted-sent env row j s t rows d a e =
    rw e (a.0, inl (subst (λ st. AccountedAs st row.total (paid_sum row.id rows)) d a.1))

-- Whatever Send returns, and whichever of its database calls fail, a sound ledger stays sound.
pub send-IsSound :
    (env : Env) (org id : Uuid) (db : Db) → IsSound db → IsSound (send env org id db).1
unfolding send
send-IsSound env org id db sound = elim (in_tx_changes env (send_body env org id) db) [
  | inl same ↦ rw same sound
  | inr (j, done, e) ↦
      let x = send_body_ok env org id db done in
      rw (e, x.stored)
        (record {
          distinct =
              DistinctIds-update_where (is_row org id) (written_sent env j) db.invoices (λ i. refl)
                sound.distinct;
          coherent =
              All-update_where IsCoherent org id (written_sent env j) db.invoices x.row
                sound.distinct x.found sound.coherent
                (IsCoherent-sent env x.row j x.snapshot x.encoded x.was_draft
                  (All-find? IsCoherent (is_row org id) db.invoices sound.coherent x.found)
                  x.complete x.result);
          accounted =
              All-update_where (IsAccounted db.payments) org id (written_sent env j) db.invoices
                x.row sound.distinct x.found sound.accounted
                (IsAccounted-sent env x.row j x.snapshot x.encoded db.payments x.was_draft
                  (All-find? (IsAccounted db.payments) (is_row org id) db.invoices sound.accounted
                    x.found)
                  x.result);
        })
]
