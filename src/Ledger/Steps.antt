-- ===== src/Ledger/Steps.antt =====
-- Sequences of service calls, of any tenants and with any failures, as a step relation.
use go_invoicing.Base.{◌≡◌}
use go_invoicing.Admin.{Uuid}
use go_invoicing.Invoice.{CreateInvoiceRequest, CreatePaymentRequest}
use go_invoicing.Store.{Db, Env}
use go_invoicing.Service.Create.{create}
use go_invoicing.Service.Send.{send}
use go_invoicing.Service.Cancel.{cancel_invoice}
use go_invoicing.Service.Pay.{create_payment}
use go_invoicing.Ledger.{IsSound}
use go_invoicing.Ledger.Create.{IsFresh, create-IsSound}
use go_invoicing.Ledger.Send.{send-IsSound}
use go_invoicing.Ledger.Cancel.{cancel_invoice-IsSound}
use go_invoicing.Ledger.Pay.{create_payment-IsSound}

-- One call that writes. `elsewhere` is any change of the other tables, made by the other services.
pub data Step (db : Db) : Db → Type 0 where
  created :
      (env : Env) (org : Uuid) (r : CreateInvoiceRequest)
      → IsFresh env.new_id db
      → Step db (create env org r db).1
  sent : (env : Env) (org id : Uuid) → Step db (send env org id db).1
  cancelled : (env : Env) (org id : Uuid) → Step db (cancel_invoice env org id db).1
  paid :
      (env : Env) (org id : Uuid) (q : CreatePaymentRequest)
      → Step db (create_payment env org id q db).1
  elsewhere : (db' : Db) → db'.invoices ≡ db.invoices → db'.payments ≡ db.payments → Step db db'

pub data Reaches (db : Db) : Db → Type 0 where
  start : Reaches db db
  after : {mid last : Db} → Reaches db mid → Step mid last → Reaches db last

step-IsSound : {db db' : Db} → IsSound db → Step db db' → IsSound db'
step-IsSound s (Step.created env org r f) = create-IsSound env org r _ f s
step-IsSound s (Step.sent env org id) = send-IsSound env org id _ s
step-IsSound s (Step.cancelled env org id) = cancel_invoice-IsSound env org id _ s
step-IsSound s (Step.paid env org id q) = create_payment-IsSound env org id q _ s
step-IsSound s (Step.elsewhere db' i p) = record {
  distinct = rw i s.distinct;
  coherent = rw i s.coherent;
  accounted = rw (i, p) s.accounted;
}

-- After any sequence of calls that create, send, cancel and pay invoices, by any tenants, with any
-- outcomes and database failures, and with any changes of the other tables in between, a sound ledger
-- is still sound, provided that each creation's identifier was fresh.
pub Reaches-IsSound : {db db' : Db} → IsSound db → Reaches db db' → IsSound db'
Reaches-IsSound s Reaches.start = s
Reaches-IsSound s (Reaches.after r step) = step-IsSound (Reaches-IsSound s r) step
