-- ===== src/Ledger/Transitions.antt =====
-- What Send and Cancel do to the row, and to nothing else.
use go_invoicing.Base.{◌≡◌, ◌⊎◌, inl, inr, refl, some}
use go_invoicing.Errors.{ok}
use go_invoicing.Admin.{Uuid}
use go_invoicing.Invoice.{Status, Invoice}
use go_invoicing.Store.{Db, Env, in_tx_ok}
use go_invoicing.Store.Invoices.{is_row, invoice_row}
use go_invoicing.Store.Effects.{written_cancelled}
use go_invoicing.Store.Rows.{find?-update_where, find?-test, others, others-update_where}
use go_invoicing.Service.Send.{send, send_body}
use go_invoicing.Service.Send.Effect.{send_body_ok, written_sent}
use go_invoicing.Service.Cancel.{cancel_invoice, cancel_body}
use go_invoicing.Service.Cancel.Effect.{Cancelled, cancel_body_ok}

-- A Send that reports success found a Draft of the organisation: the row is now Sent, at the moment
-- of the call, every other invoice is as it was, and so are the payments.
pub send_ok :
    (env : Env) (org id : Uuid) (db db' : Db) (j : Invoice)
    → send env org id db ≡ (ok j, db')
    → (row : Invoice) × (invoice_row db org id ≡ some row)
      × (row.status ≡ Status.draft)
      × (invoice_row db' org id ≡ some (written_sent env j row))
      × (j.status ≡ Status.sent)
      × (j.sent_at ≡ some env.now)
      × (others org id db'.invoices ≡ others org id db.invoices)
      × (db'.payments ≡ db.payments)
unfolding send
send_ok env org id db db' j h =
    let (done, e) = in_tx_ok env (send_body env org id) db db' j h in
    let x = send_body_ok env org id db done in
    let hit = find?-test (is_row org id) db.invoices x.found in
    (
      x.row,
      x.found,
      x.was_draft,
      rw (← e, x.stored) (find?-update_where org id (written_sent env j) db.invoices x.found hit),
      rw x.result refl,
      rw x.result refl,
      rw (← e, x.stored) (others-update_where org id (written_sent env j) db.invoices (λ i. refl)),
      rw (← e, x.stored) refl,
    )

cancelled_facts :
    (env : Env) (org : Uuid) (db : Db) (row j : Invoice)
    → Cancelled env org db row j
    → ((row.status ≡ Status.draft)
        ⊎ ((row.status ≡ Status.sent)
            × (j.seller ≡ row.seller)
            × (j.customer ≡ row.customer)
            × (j.currency ≡ row.currency)))
      × (j.status ≡ Status.cancelled)
cancelled_facts env org db row j (Cancelled.from_draft s ts enc d party chosen comp m e) =
    (inl d, rw e refl)
cancelled_facts env org db row j (Cancelled.from_sent d e) =
    (inr (d, rw e refl, rw e refl, rw e refl), rw e refl)

-- A Cancel that reports success found a Draft or a Sent invoice of the organisation; a Sent one keeps
-- the seller, customer and currency that were captured when it was sent. The row is now Cancelled,
-- every other invoice is as it was, and so are the payments.
pub cancel_ok :
    (env : Env) (org id : Uuid) (db db' : Db) (j : Invoice)
    → cancel_invoice env org id db ≡ (ok j, db')
    → (row : Invoice) × (invoice_row db org id ≡ some row)
      × ((row.status ≡ Status.draft)
          ⊎ ((row.status ≡ Status.sent)
              × (j.seller ≡ row.seller)
              × (j.customer ≡ row.customer)
              × (j.currency ≡ row.currency)))
      × (j.status ≡ Status.cancelled)
      × (invoice_row db' org id ≡ some (written_cancelled env j row))
      × (others org id db'.invoices ≡ others org id db.invoices)
      × (db'.payments ≡ db.payments)
unfolding cancel_invoice
cancel_ok env org id db db' j h =
    let (done, e) = in_tx_ok env (cancel_body env org id) db db' j h in
    let x = cancel_body_ok env org id db done in
    let hit = find?-test (is_row org id) db.invoices x.found in
    let facts = cancelled_facts env org db x.row j x.made in
    (
      x.row,
      x.found,
      facts.0,
      facts.1,
      rw (← e, x.stored)
          (find?-update_where org id (written_cancelled env j) db.invoices x.found hit),
      rw (← e, x.stored)
          (others-update_where org id (written_cancelled env j) db.invoices (λ i. refl)),
      rw (← e, x.stored) refl,
    )
