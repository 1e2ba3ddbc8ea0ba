-- ===== src/Service/Create/Checks.antt =====
-- What Create has checked when it begins its transaction: until then it only reads.
use go_invoicing.Base.{
  ℕ, suc, true, false, not, ◌&&◌, ◌≡◌, ◌⊎◌, inl, inr, refl, Option, none, some, List, [], ◌∷◌,
  arith, Bool-cases,
}
use go_invoicing.Errors.{
  invoice_customer_not_active, invoice_line_vat_not_permitted, Error, Result, ok, err, Result-cases,
}
use go_invoicing.Admin.{Uuid, Organisation}
use go_invoicing.Customer.{Customer, is_active}
use go_invoicing.Invoice.{CreateInvoiceRequest}
use go_invoicing.Store.{Db, Env, in_tx}
use go_invoicing.Store.Laws.{bind-ReadsOnly, ReadsOnly, query-ReadsOnly}
use go_invoicing.Store.Parties.{get_product, get_customer, get_organisation}
use go_invoicing.Service.Snapshots.Reads.{get_customer-ReadsOnly, get_organisation-ReadsOnly}
use go_invoicing.Service.Create.{
  Created, any_vat, check_product, check_products, create, create_body, new_lines, customer_failure,
}
use go_invoicing.Service.Create.Request.{ValidatedLine, ValidatedRequest, validate_request}

get_product-ReadsOnly : (env : Env) (n : ℕ) (org id : Uuid) → ReadsOnly (get_product env n org id)
unfolding get_product
get_product-ReadsOnly env n org id = query-ReadsOnly env _ _

check_product-ReadsOnly :
    (env : Env) (n : ℕ) (org : Uuid) (p : Option Uuid) → ReadsOnly (check_product env n org p)
check_product-ReadsOnly env n org none db = refl
check_product-ReadsOnly env n org (some id) db =
    elim (Result-cases (get_product env n org id db).0) [
      | inl (p, e) ↦ ground (arith, get_product-ReadsOnly env n org id db)
      | inr (x, e) ↦ ground (arith, get_product-ReadsOnly env n org id db)
    ]

check_products-ReadsOnly :
    (env : Env) (n : ℕ) (org : Uuid) (vs : List ValidatedLine)
    → ReadsOnly (check_products env n org vs)
unfolding check_products
check_products-ReadsOnly env n org [] db = refl
check_products-ReadsOnly env n org (v ∷ vs) db =
    bind-ReadsOnly (check_product env n org v.product_id) (λ u. check_products env (suc n) org vs)
      (check_product-ReadsOnly env n org v.product_id)
      (λ u. check_products-ReadsOnly env (suc n) org vs) db

-- The request is well formed, the customer is active, no VAT is charged by an organisation that is
-- not registered, and what is left of the call is its transaction.
pub record Checked (env : Env) (org : Uuid) (r : CreateInvoiceRequest) (db : Db) : Type 0 where
  pub request : ValidatedRequest
  pub customer : Customer
  pub organisation : Organisation
  pub valid : validate_request env r ≡ ok request
  pub active : is_active customer ≡ true
  pub permitted : (not organisation.vat_registered && any_vat request.lines) ≡ false
  pub run : ◌≡◌ {A = Result Created × Db} (create env org r db) (
      in_tx env
        (create_body env org organisation customer request r.notes
          (new_lines env 0 env.new_id request.lines))
        db)

pub create_cases :
    (env : Env) (org : Uuid) (r : CreateInvoiceRequest) (db : Db)
    → ((e : Error) × ◌≡◌ {A = Result Created × Db} (create env org r db) (err e, db))
      ⊎ Checked env org r db
unfolding create
create_cases env org r db = elim (Result-cases (validate_request env r)) [
  | inr (e, bad) ↦ inl (e, ground arith)
  | inl (v, good) ↦ elim (Result-cases (get_customer env org v.customer_id db).0) [
    | inr (e, q) ↦
        inl (customer_failure e, ground (arith, get_customer-ReadsOnly env org v.customer_id db))
    | inl (c, q) ↦
        let s₁ = get_customer-ReadsOnly env org v.customer_id db in
        elim (Bool-cases (is_active c)) [
          | inr off ↦ inl (invoice_customer_not_active, ground arith)
          | inl on ↦ elim (Result-cases (get_organisation env org db).0) [
            | inr (e, k) ↦ inl (e, ground (arith, get_organisation-ReadsOnly env org db))
            | inl (o, k) ↦
                let s₂ = get_organisation-ReadsOnly env org db in
                elim (Bool-cases (not o.vat_registered && any_vat v.lines)) [
                  | inl vat ↦ inl (invoice_line_vat_not_permitted, ground arith)
                  | inr fine ↦ elim (Result-cases (check_products env 0 org v.lines db).0) [
                    | inr (e, p) ↦
                        inl (e, ground (arith, check_products-ReadsOnly env 0 org v.lines db))
                    | inl (u, p) ↦
                        let s₃ = check_products-ReadsOnly env 0 org v.lines db in
                        inr (record {
                          request = v;
                          customer = c;
                          organisation = o;
                          valid = good;
                          active = on;
                          permitted = fine;
                          run = ground arith;
                        })
                  ]
                ]
          ]
        ]
  ]
]
