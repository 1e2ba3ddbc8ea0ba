-- ===== src/Ledger/Cancel.antt =====
-- Cancel keeps the ledger sound, whatever becomes of the call.
use mathlib.Core.Path.{subst}
use go_invoicing.Base.{◌≡◌, ◌⊎◌, inl, inr, sym, refl, arith}
use go_invoicing.Base.Int.{ℤ, pos, ◌≤ℤ◌}
use go_invoicing.Admin.{Uuid}
use go_invoicing.Invoice.{Status, Invoice}
use go_invoicing.Invoice.Lifecycle.{copy_snapshots}
use go_invoicing.Store.{Db, Env, in_tx_changes}
use go_invoicing.Store.Invoices.{is_row}
use go_invoicing.Store.Payments.{paid_sum}
use go_invoicing.Store.Effects.{written_cancelled}
use go_invoicing.Store.Rows.{
  All-find?, All-update_where, DistinctIds-update_where, find?-test, row_facts,
}
use go_invoicing.Service.Cancel.{cancel_body, cancel_invoice}
use go_invoicing.Service.Cancel.Effect.{Cancelled, cancel_body_ok}
use go_invoicing.Ledger.{IsSound, IsCoherent, IsAccounted, CoherentAs, AccountedAs}
use go_invoicing.Ledger.Rows.{owned_of_found}

IsCoherent-Cancelled :
    (env : Env) (org : Uuid) (db : Db) (row j : Invoice)
    → IsCoherent row
    → Cancelled env org db row j
    → IsCoherent (written_cancelled env j row)
unfolding copy_snapshots
IsCoherent-Cancelled env org db row j c (Cancelled.from_draft s ts enc d party chosen comp m e) =
    rw e (refl, (rw comp.seller_named refl, rw comp.customer_named refl, comp.currency_code))
IsCoherent-Cancelled env org db row j c (Cancelled.from_sent d e) =
    let sent' = subst (λ st. CoherentAs st row) d c in rw e (refl, sent'.2)

-- Nothing was paid on an invoice that could be cancelled.
pub nothing_paid :
    (st : Status) (total paid : ℤ)
    → AccountedAs st total paid
    → (st ≡ Status.draft) ⊎ (st ≡ Status.sent)
    → paid ≤ℤ pos 0
    → paid ≡ pos 0
nothing_paid st total paid a c u = ground arith

pub cancelled_status :
    (env : Env) (org : Uuid) (db : Db) (row j : Invoice)
    → Cancelled env org db row j
    → ((row.status ≡ Status.draft) ⊎ (row.status ≡ Status.sent)) × (j.status ≡ Status.cancelled)
unfolding copy_snapshots
cancelled_status env org db row j (Cancelled.from_draft s ts enc d party chosen comp m e) =
    (inl d, rw e refl)
cancelled_status env org db row j (Cancelled.from_sent d e) = (inr d, rw e refl)

-- Whatever Cancel returns, and whichever of its database calls fail, a sound ledger stays sound.
pub cancel_invoice-IsSound :
    (env : Env) (org id : Uuid) (db : Db) → IsSound db → IsSound (cancel_invoice env org id db).1
unfolding cancel_invoice
cancel_invoice-IsSound env org id db sound = elim (in_tx_changes env (cancel_body env org id) db) [
  | inl same ↦ rw same sound
  | inr (j, done, e) ↦
      let x = cancel_body_ok env org id db done in
      let a =
        All-find? (IsAccounted db.payments) (is_row org id) db.invoices sound.accounted x.found in
      let (was, now) = cancelled_status env org db x.row j x.made in
      let same = (row_facts org id x.row (find?-test (is_row org id) db.invoices x.found)).0 in
      let unpaid : paid_sum x.row.id db.payments ≤ℤ pos 0 =
        (let own = owned_of_found db org id x.found in rw same (ground arith)) in
      rw (e, x.stored)
        (record {
          distinct =
              DistinctIds-update_where (is_row org id) (written_cancelled env j) db.invoices
                (λ i. refl) sound.distinct;
          coherent =
              All-update_where IsCoherent org id (written_cancelled env j) db.invoices x.row
                sound.distinct x.found sound.coherent
                (IsCoherent-Cancelled env org db x.row j
                  (All-find? IsCoherent (is_row org id) db.invoices sound.coherent x.found) x.made);
          accounted =
              All-update_where (IsAccounted db.payments) org id (written_cancelled env j)
                db.invoices x.row sound.distinct x.found sound.accounted
                (
                  a.0,
                  subst (λ st. AccountedAs st x.row.total (paid_sum x.row.id db.payments)) (sym now)
                      (nothing_paid x.row.status x.row.total _ a.1 was unpaid),
                );
        })
]
