-- ===== src/Service/Customers/Laws.antt =====
-- What the calls of CustomerService leave in the database.
use go_invoicing.Base.{
  ◌≡◌, refl, ap, inl, inr, Option, none, some, true, false, update_where, All, Bool-cases, arith,
}
use go_invoicing.Errors.{
  Result, ok, err, customer_update_status, customer_get, customer_has_open_invoices,
}
use go_invoicing.Service.Customers.{set_status}
use go_invoicing.Customer.{Customer, CustomerStatus, is_valid_customer_status}
use go_invoicing.Admin.{Uuid}
use go_invoicing.Store.{Db, Env}
use go_invoicing.Store.Rows.{find?-test}
use go_invoicing.Store.Keys.{find?-update_where, find?-none-All, All-find?-none}
use go_invoicing.Store.Parties.{is_customer, customer_row, get_customer}
use go_invoicing.Store.Customers.{
  is_open_of, has_open_invoices, with_status, write_customer_status, update_customer_status,
}

-- No live invoice of the customer is draft, sent or overdue.
abbrev pub HasNoOpenInvoice : Db → Uuid → Uuid → Type 0
HasNoOpenInvoice db org id = All (λ i. is_open_of org id i ≡ false) db.invoices

has_no_open :
    (db : Db) (org id : Uuid) → has_open_invoices db org id ≡ false → HasNoOpenInvoice db org id
unfolding has_open_invoices
has_no_open db org id h = find?-none-All (is_open_of org id) db.invoices (ground arith)

no_open-has :
    (db : Db) (org id : Uuid) → HasNoOpenInvoice db org id → has_open_invoices db org id ≡ false
unfolding has_open_invoices
no_open-has db org id a = rw (All-find?-none (is_open_of org id) db.invoices a) refl

abbrev pub archived_db : Env → Uuid → Uuid → Db → Db
archived_db env org id db = record db {
  customers =
      update_where (is_customer org id) (with_status env CustomerStatus.archived) db.customers;
}

module _ (env : Env) (org id : Uuid) (db : Db) (c : Customer)
    (up : env.fails customer_update_status ≡ false) (found : customer_row db org id ≡ some c) where
  write_free :
      has_open_invoices db org id ≡ false
      → ◌≡◌ {A = Result (Option Customer) × Db}
          (write_customer_status env org id CustomerStatus.archived db)
          (ok (some (with_status env CustomerStatus.archived c)), archived_db env org id db)
  unfolding write_customer_status
  write_free free = rw (up, free, found) refl

  write_kept :
      has_open_invoices db org id ≡ true
      → ◌≡◌ {A = Result (Option Customer) × Db}
          (write_customer_status env org id CustomerStatus.archived db)
          (ok none, db)
  unfolding write_customer_status
  write_kept kept = rw (up, kept) refl

  found_customer :
      env.fails customer_get ≡ false
      → ◌≡◌ {A = Result Customer × Db} (get_customer env org id db) (ok c, db)
  unfolding get_customer
  found_customer up' = rw (up', found) refl

  archives :
      HasNoOpenInvoice db org id
      → ◌≡◌ {A = Result Customer × Db}
          (set_status env org id CustomerStatus.archived db)
          (ok (with_status env CustomerStatus.archived c), archived_db env org id db)
  unfolding set_status is_valid_customer_status update_customer_status
  archives a =
      let w = write_free (no_open-has db org id a) in
      let w₀ = ap (λ x. x.0) w in let w₁ = ap (λ x. x.1) w in ground (arith, w₀, w₁)

  refuses :
      env.fails customer_get ≡ false
      → has_open_invoices db org id ≡ true
      → ◌≡◌ {A = Result Customer × Db}
          (set_status env org id CustomerStatus.archived db)
          (err customer_has_open_invoices, db)
  unfolding set_status is_valid_customer_status update_customer_status
  refuses up' kept =
      let w = write_kept kept in
      let g = found_customer up' in
      let w₀ = ap (λ x. x.0) w in
      let w₁ = ap (λ x. x.1) w in
      let g₀ = ap (λ x. x.0) g in let g₁ = ap (λ x. x.1) g in ground (arith, w₀, w₁, g₀, g₁)

  archived_found :
      customer_row (archived_db env org id db) org id
      ≡ some (with_status env CustomerStatus.archived c)
  archived_found =
      let t = find?-test (is_customer org id) db.customers found in
      find?-update_where (is_customer org id) (with_status env CustomerStatus.archived) db.customers
        found (ground arith)

-- SetStatus to Archived, for a live customer and when no database call fails: it archives the
-- customer exactly if none of the customer's live invoices is Draft, Sent or Overdue, and is
-- otherwise refused for the open invoices and writes nothing.
pub archive_decided :
    (env : Env) (org id : Uuid) (db : Db) (c : Customer)
    → env.fails customer_update_status ≡ false
    → env.fails customer_get ≡ false
    → customer_row db org id ≡ some c
    → (HasNoOpenInvoice db org id
        → (set_status env org id CustomerStatus.archived db
            ≡ (ok (with_status env CustomerStatus.archived c), archived_db env org id db))
          × (customer_row (archived_db env org id db) org id
              ≡ some (with_status env CustomerStatus.archived c)))
      × (¬ HasNoOpenInvoice db org id
          → set_status env org id CustomerStatus.archived db ≡ (err customer_has_open_invoices, db))
archive_decided env org id db c up up' found = (
  λ a. (archives env org id db c up found a, archived_found env org id db c up found),
  λ n. elim (Bool-cases (has_open_invoices db org id)) [
    | inl kept ↦ refuses env org id db c up found up' kept
    | inr free ↦ absurd (n (has_no_open db org id free))
  ],
)
