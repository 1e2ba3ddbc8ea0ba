-- ===== src/Service/Create/Effect.antt =====
-- What Create has done when its transaction's body succeeded.
use go_invoicing.Base.{
  ◌+◌, ◌≤◌, ◌≡◌, refl, inl, inr, none, some, List, ◌∷◌, find?, update_where, arith,
}
use go_invoicing.Base.Text.{Text}
use go_invoicing.Errors.{ok, Result-cases}
use go_invoicing.Admin.{Uuid, Organisation, Settings, next_invoice_number}
use go_invoicing.Customer.{Customer}
use go_invoicing.Invoice.{Invoice, Line}
use go_invoicing.Invoice.Calculation.{sum_invoice_totals}
use go_invoicing.Store.{Db, Env}
use go_invoicing.Store.Invoices
use go_invoicing.Store.Invoices.{same_number, inserted_row, inserted_line, create_lines}
use go_invoicing.Store.Parties.{
  settings_row, is_settings, get_settings_for_update, update_invoice_number,
}
use go_invoicing.Store.Effects.{
  numbered, with_lines, get_settings_for_update_ok, update_invoice_number_ok, create_invoice_row_ok,
  create_lines_ok,
}
use go_invoicing.Service.Create.{Created, new_invoice, create_body}
use go_invoicing.Service.Create.Request.{ValidatedRequest}

-- A Draft with the number after the organisation's last one was inserted, with its lines, and the
-- number was written back.
pub record CreateEffect (env : Env) (org : Uuid) (o : Organisation) (c : Customer)
    (v : ValidatedRequest) (notes : Text) (lines : List Line) (db : Db) (r : Created) (after : Db)
    : Type 0 where
  pub settings : Settings
  pub found : settings_row db org ≡ some settings
  pub small : settings.invoice_number + 1 ≤ 2147483647
  pub invoice : Invoice
  pub made :
      invoice
      ≡ new_invoice env org o c v notes
          (sum_invoice_totals lines)
          settings
          (settings.invoice_number + 1)
  pub unused : find? (same_number invoice) db.invoices ≡ none
  pub returned :
      (r.0 ≡ record invoice { created_at = env.db_now; updated_at = env.db_now }) × (r.1 ≡ lines)
  pub stored : after ≡ record db {
    invoices = inserted_row env invoice ∷ db.invoices;
    lines = with_lines env lines db.lines;
    settings =
        update_where (is_settings org) (numbered env (settings.invoice_number + 1)) db.settings;
  }

pub create_body_ok :
    (env : Env) (org : Uuid) (o : Organisation) (c : Customer) (v : ValidatedRequest) (notes : Text)
    (lines : List Line) (db : Db) {r : Created}
    → (create_body env org o c v notes lines db).0 ≡ ok r
    → CreateEffect env org o c v notes lines db r (create_body env org o c v notes lines db).1
unfolding create_body next_invoice_number
create_body_ok env org o c v notes lines db h =
    elim (Result-cases (get_settings_for_update env org db).0) [
      | inr (e, q) ↦ absurd (ground arith)
      | inl (s, q) ↦
          let (f, same) = get_settings_for_update_ok env org db q in
          let n = s.invoice_number + 1 in
          elim (Result-cases (update_invoice_number env org n db).0) [
            | inr (e, w) ↦ absurd (ground arith)
            | inl (u, w) ↦
                let (le, wrote) = update_invoice_number_ok env org n db w in
                let db₁ = (update_invoice_number env org n db).1 in
                let inv = new_invoice env org o c v notes (sum_invoice_totals lines) s n in
                elim (Result-cases (Invoices.create env inv db₁).0) [
                  | inr (e, k) ↦ absurd (ground arith)
                  | inl (j, k) ↦
                      let (made, unused, put) = create_invoice_row_ok env inv db₁ k in
                      let db₂ = (Invoices.create env inv db₁).1 in
                      elim (Result-cases (create_lines env 0 lines db₂).0) [
                        | inr (e, l) ↦ absurd (ground arith)
                        | inl (u', l) ↦
                            let all = create_lines_ok env 0 lines db₂ l in
                            record {
                              settings = s;
                              found = f;
                              small = le;
                              invoice = inv;
                              made = refl;
                              unused = ground arith;
                              returned = ground arith;
                              stored = ground arith;
                            }
                      ]
                ]
          ]
    ]
