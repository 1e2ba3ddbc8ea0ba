-- ===== src/Service/Create/Numbers.antt =====
-- Invoice numbers are allocated in sequence, and a failed creation takes none.
use go_invoicing.Base.{sym, ap, ◌∙◌, ◌≢◌, ℕ}
use go_invoicing.Base.Text.{Text, itoa_injective}
use go_invoicing.Base.{
  ℕ, ◌+◌, ◌≡◌, inl, inr, refl, Bool-cases, some, List, [], ◌∷◌, ◌++◌, find?, update_where, arith,
}
use go_invoicing.Base.Text.{itoa}
use go_invoicing.Errors.{ok}
use go_invoicing.Admin.{Uuid, Settings}
use go_invoicing.Invoice.{Status, CreateInvoiceRequest}
use go_invoicing.Store.{Db, Env, in_tx_ok}
use go_invoicing.Store.Parties.{settings_row, is_settings}
use go_invoicing.Store.Effects.{numbered}
use go_invoicing.Service.Create.{Created, create, create_body, new_invoice, new_lines}
use go_invoicing.Service.Create.Effect.{CreateEffect, create_body_ok}
use go_invoicing.Service.Create.Checks.{Checked, create_cases}

settings-update_where :
    (env : Env) (org : Uuid) (n : ℕ) (ss : List Settings) {s : Settings}
    → find? (is_settings org) ss ≡ some s
    → find? (is_settings org) (update_where (is_settings org) (numbered env n) ss)
      ≡ some (numbered env n s)
settings-update_where env org n [] h = absurd (ground arith)
settings-update_where env org n (s' ∷ ss) h = elim (Bool-cases (is_settings org s')) [
  | inl hit ↦ ground arith
  | inr miss ↦ rw (miss, miss) (settings-update_where env org n ss (rw miss at h))
]

-- What a creation that reports success returned and stored.
pub create_ok :
    (env : Env) (org : Uuid) (r : CreateInvoiceRequest) (db db' : Db) (x : Created)
    → create env org r db ≡ (ok x, db')
    → (c : Checked env org r db) × CreateEffect env org c.organisation c.customer c.request r.notes
        (new_lines env 0 env.new_id c.request.lines)
        db
        x
        db'
create_ok env org r db db' x h = elim (create_cases env org r db) [
  | inl (e, failed) ↦ absurd (ground arith)
  | inr c ↦
      let lines = new_lines env 0 env.new_id c.request.lines in
      let body = create_body env org c.organisation c.customer c.request r.notes lines in
      let (done, e) = in_tx_ok env body db db' x (rw c.run at h) in
      (
        c,
        rw (← e) (create_body_ok env org c.organisation c.customer c.request r.notes lines db done),
      )
]

-- A creation that reports success took the number after the organisation's last one: the invoice
-- that it returns is a Draft of the organisation, numbered by the prefix and that number, and the
-- settings that the next creation reads hold it.
pub create_takes_next :
    (env : Env) (org : Uuid) (r : CreateInvoiceRequest) (db db' : Db) (x : Created)
    → create env org r db ≡ (ok x, db')
    → (s : Settings) × (settings_row db org ≡ some s)
      × (x.0.invoice_number ≡ s.invoice_prefix ++ itoa (s.invoice_number + 1))
      × (x.0.status ≡ Status.draft)
      × (x.0.organisation_id ≡ org)
      × (settings_row db' org ≡ some (numbered env (s.invoice_number + 1) s))
unfolding new_invoice
create_takes_next env org r db db' x h =
    let (c, e) = create_ok env org r db db' x h in
    (
      e.settings,
      e.found,
      rw (e.returned.0, e.made) refl,
      rw (e.returned.0, e.made) refl,
      rw (e.returned.0, e.made) refl,
      rw e.stored
          (settings-update_where env org (e.settings.invoice_number + 1) db.settings e.found),
    )

some_injective : {a b : Settings} → some a ≡ some b → a ≡ b
some_injective h = cc h

append_cancel : (p a b : Text) → p ++ a ≡ p ++ b → a ≡ b
append_cancel [] a b h = h
append_cancel (c ∷ p) a b h = append_cancel p a b (cc h)

itoa-differ : (n : ℕ) → itoa n ≢ itoa (n + 1)
itoa-differ n h = let e = itoa_injective n (n + 1) h in absurd (omega (arith, e))

-- Two successive creations of an organisation that both report success take successive numbers under
-- the same prefix, and their invoice numbers differ.
pub successive_numbers :
    (env env' : Env) (org : Uuid) (r r' : CreateInvoiceRequest) (db db' db'' : Db) (x y : Created)
    → create env org r db ≡ (ok x, db')
    → create env' org r' db' ≡ (ok y, db'')
    → (prefix : Text) × (n : ℕ) × (x.0.invoice_number ≡ prefix ++ itoa n)
      × (y.0.invoice_number ≡ prefix ++ itoa (n + 1))
      × (x.0.invoice_number ≢ y.0.invoice_number)
successive_numbers env env' org r r' db db' db'' x y h k =
    let (s, f, a, d, o, g) = create_takes_next env org r db db' x h in
    let (s', f', a', d', o', g') = create_takes_next env' org r' db' db'' y k in
    let n = s.invoice_number + 1 in
    let same : s' ≡ numbered env n s = some_injective (sym f' ∙ g) in
    let b = a' ∙ ap (λ t. t.invoice_prefix ++ itoa (t.invoice_number + 1)) same in
    (
      s.invoice_prefix,
      n,
      a,
      b,
      λ e. itoa-differ n (append_cancel s.invoice_prefix (itoa n) (itoa (n + 1)) (sym a ∙ e ∙ b)),
    )
