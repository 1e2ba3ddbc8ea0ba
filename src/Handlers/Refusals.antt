-- ===== src/Handlers/Refusals.antt =====
-- The responses of CreatePayment's handler that are errors.
use go_invoicing.Base.{◌≡◌}
use go_invoicing.Errors.{err, Site, internal}
use go_invoicing.Store.{Env}
use go_invoicing.Service.Pay.{create_payment}
use go_invoicing.Handlers.{Db, Failure}
use go_invoicing.Admin.{Uuid}
use go_invoicing.Invoice.{CreatePaymentRequest}

-- Some call of CreatePayment met a failure of the database.
abbrev pub DatabaseFailed : Env → Db → Type 0
DatabaseFailed env db =
    (org : Uuid) × (id : Uuid) × (q : CreatePaymentRequest) × (s : Site) × ((create_payment env org
        id q db).0
      ≡ err (internal s))
