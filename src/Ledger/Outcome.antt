-- ===== src/Ledger/Outcome.antt =====
-- What becomes of a call of Send and of Cancel, on every path.
use go_invoicing.Base.{◌≡◌, ◌⊎◌}
use go_invoicing.Errors.{Error, Result, err}
use go_invoicing.Invoice.{Invoice}
use go_invoicing.Store.{Db}

-- An error and no change, or the change.
abbrev pub NothingOr : Db → (Db → Type 0) → Result Invoice × Db → Type 0
NothingOr db Done r = ((e : Error) × (r ≡ (err e, db))) ⊎ Done r.1
