-- ===== src/Handlers/CreateErrors.antt =====
-- Which errors Create can return, on every path.
use go_invoicing.Base.{
  ℕ, suc, not, ◌&&◌, inl, inr, arith, Bool-cases, Option, none, some, List, [], ◌∷◌, leb, find?,
}
use go_invoicing.Base.Text.{Text}
use go_invoicing.Errors.{Error, ok, Site, internal, settings_number, invoice_create}
use go_invoicing.Admin.{Uuid, Organisation, next_invoice_number}
use go_invoicing.Customer.{Customer, is_active}
use go_invoicing.Invoice.{Invoice, Line, CreateInvoiceRequest}
use go_invoicing.Invoice.Calculation.{sum_invoice_totals}
use go_invoicing.Store.{Env}
use go_invoicing.Store.Invoices.{
  is_none, same_number, insert_invoice, insert_line, inserted_line, create_lines,
}
use go_invoicing.Store.Parties.{
  get_organisation, get_customer, get_product, get_settings_for_update, update_invoice_number,
  settings_row,
}
use go_invoicing.Service.Snapshots.{map_err}
use go_invoicing.Service.Create.{
  create, create_body, check_product, check_products, any_vat, customer_failure, product_failure,
  settings_failure, new_invoice, new_lines,
}
use go_invoicing.Service.Create.Request.{ValidatedLine, ValidatedRequest}
use go_invoicing.Handlers.RequestErrors.{RequestError, request-Fails}
use go_invoicing.Handlers.Throws.{
  Throws, as_returned, bind-Throws, pure-Throws, throw_if-Throws, lift-Throws, map_err-Throws,
  query-Throws, execute-Throws, in_tx-Throws, or_fail-Throws,
}
use go_invoicing.Store.Invoices

-- What is no mistake of the client's: a failure of the database, or an organisation or settings that
-- are not there.
pub data ServerFault : Error → Type 0 where
  organisation_missing : ServerFault Error.organisation_not_found
  settings_missing : ServerFault Error.invoice_settings_not_found
  settings_gone : ServerFault Error.settings_not_found
  database : (s : Site) → ServerFault (internal s)

-- What Create can return as an error.
pub data CreateError : Error → Type 0 where
  request : (e : Error) → RequestError e → CreateError e
  customer_missing : CreateError Error.invoice_customer_not_found
  customer_inactive : CreateError Error.invoice_customer_not_active
  product_missing : CreateError Error.invoice_line_product_not_found
  vat_not_permitted : CreateError Error.invoice_line_vat_not_permitted
  server : (e : Error) → ServerFault e → CreateError e

failed : (s : Site) → CreateError (internal s)
failed s = CreateError.server _ (ServerFault.database s)

module _ (env : Env) (org : Uuid) where
  customer-Throws :
      (c : Uuid) → Throws CreateError (map_err customer_failure (get_customer env org c))
  unfolding get_customer
  customer-Throws c =
      let errors =
        query-Throws (λ e. CreateError (customer_failure e)) env _ _ (failed _)
          (λ db.
            or_fail-Throws (λ e. CreateError (customer_failure e)) _ _
              CreateError.customer_missing) in
      map_err-Throws CreateError customer_failure (get_customer env org c) errors.only

  organisation-Throws : Throws CreateError (get_organisation env org)
  unfolding get_organisation
  organisation-Throws =
      query-Throws CreateError env _ _ (failed _) (λ db.
        or_fail-Throws CreateError _ _ (CreateError.server _ ServerFault.organisation_missing))

  product-Throws :
      (n : ℕ) (p : Uuid) → Throws CreateError (map_err product_failure (get_product env n org p))
  unfolding get_product
  product-Throws n p =
      let errors =
        query-Throws (λ e. CreateError (product_failure e)) env _ _ (failed _)
          (λ db.
            or_fail-Throws (λ e. CreateError (product_failure e)) _ _
              CreateError.product_missing) in
      map_err-Throws CreateError product_failure (get_product env n org p) errors.only

  check_product-Throws : (n : ℕ) (p : Option Uuid) → Throws CreateError (check_product env n org p)
  check_product-Throws n none = pure-Throws CreateError tt
  check_product-Throws n (some p) =
      bind-Throws CreateError _ _ (product-Throws n p) λ x. pure-Throws CreateError tt

  check_products-Throws :
      (n : ℕ) (vs : List ValidatedLine) → Throws CreateError (check_products env n org vs)
  unfolding check_products
  check_products-Throws n [] = pure-Throws CreateError tt
  check_products-Throws n (v ∷ vs) =
      bind-Throws CreateError _ _ (check_product-Throws n v.product_id)
        λ u. check_products-Throws (suc n) vs

  settings-Throws : Throws CreateError (map_err settings_failure (get_settings_for_update env org))
  unfolding get_settings_for_update
  settings-Throws =
      let errors =
        query-Throws (λ e. CreateError (settings_failure e)) env _ _ (failed _)
          (λ db.
            or_fail-Throws (λ e. CreateError (settings_failure e)) _ _
              (CreateError.server _ ServerFault.settings_missing)) in
      map_err-Throws CreateError settings_failure (get_settings_for_update env org) errors.only

  number-Throws : (n : ℕ) → Throws CreateError (update_invoice_number env org n)
  unfolding update_invoice_number
  number-Throws n = execute-Throws CreateError env _ _ (failed _) (λ db e h.
      elim (Bool-cases (leb n 2147483647)) [
        | inr large ↦ as_returned CreateError (rw large at h) (failed settings_number)
        | inl fits ↦ elim (Bool-cases (is_none (settings_row db org))) [
          | inl gone ↦
              as_returned CreateError (rw (fits, gone) at h)
                (CreateError.server _ ServerFault.settings_gone)
          | inr there ↦ absurd (let k = rw (fits, there) at h in ground arith)
        ]
      ])

  insert_invoice-Throws : (i : Invoice) → Throws CreateError (insert_invoice env i)
  unfolding insert_invoice
  insert_invoice-Throws i = execute-Throws CreateError env _ _ (failed _) (λ db e h.
      elim (Bool-cases (is_none (find? (same_number i) db.invoices))) [
        | inl fresh ↦ absurd (let k = rw fresh at h in ground arith)
        | inr taken ↦ as_returned CreateError (rw taken at h) (failed invoice_create)
      ])

  create-Throws : (i : Invoice) → Throws CreateError (Invoices.create env i)
  unfolding Invoices.create
  create-Throws i =
      bind-Throws CreateError _ _ (insert_invoice-Throws i) λ u. pure-Throws CreateError _

  insert_line-Throws : (n : ℕ) (l : Line) → Throws CreateError (insert_line env n l)
  unfolding insert_line
  insert_line-Throws n l =
      execute-Throws CreateError env _
        (λ db. ok (record db { lines = inserted_line env l ∷ db.lines })) (failed _)
        (λ db e h. absurd (ground arith))

  create_lines-Throws : (n : ℕ) (ls : List Line) → Throws CreateError (create_lines env n ls)
  unfolding create_lines
  create_lines-Throws n [] = pure-Throws CreateError tt
  create_lines-Throws n (l ∷ ls) =
      bind-Throws CreateError (insert_line env n l) _ (insert_line-Throws n l)
        λ u. create_lines-Throws (suc n) ls

  create_body-Throws :
      (o : Organisation) (c : Customer) (v : ValidatedRequest) (notes : Text) (ls : List Line)
      → Throws CreateError (create_body env org o c v notes ls)
  unfolding create_body
  create_body-Throws o c v notes ls = bind-Throws CreateError _ _ settings-Throws λ s.
      bind-Throws CreateError _ _ (number-Throws (next_invoice_number s).0) λ u.
        bind-Throws CreateError _ _
          (create-Throws
            (new_invoice env org o c v notes (sum_invoice_totals ls) s (next_invoice_number s).0))
          λ inv.
            bind-Throws CreateError _ _ (create_lines-Throws 0 ls) λ u. pure-Throws CreateError _

  pub service-Throws : (r : CreateInvoiceRequest) → Throws CreateError (create env org r)
  unfolding create
  service-Throws r =
      bind-Throws CreateError _ _
        (lift-Throws CreateError _ (λ e h. CreateError.request e ((request-Fails env r).only e h)))
        λ v. bind-Throws CreateError _ _ (customer-Throws v.customer_id) λ c.
          bind-Throws CreateError _ _
            (throw_if-Throws CreateError (not (is_active c)) _ CreateError.customer_inactive)
            λ u. bind-Throws CreateError _ _ organisation-Throws λ o.
              bind-Throws CreateError _ _
                (throw_if-Throws CreateError (not o.vat_registered && any_vat v.lines) _
                  CreateError.vat_not_permitted)
                λ u. bind-Throws CreateError _ _ (check_products-Throws 0 v.lines) λ u.
                  in_tx-Throws CreateError env (failed _) (failed _)
                    (create_body env org o c v r.notes (new_lines env 0 env.new_id v.lines))
                    (create_body-Throws o c v r.notes (new_lines env 0 env.new_id v.lines))
