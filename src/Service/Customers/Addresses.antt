-- ===== src/Service/Customers/Addresses.antt =====
-- A PUT of a billing address, and the read after it.
use go_invoicing.Base.Text.{trim_space}
use go_invoicing.Base.{
  ◌∙◌, [], ◌∷◌, ◌++◌, ◌≡◌, refl, inl, inr, Option, some, false, find?, update_where, length,
  Option-cases, arith, length-update_where,
}
use go_invoicing.Errors.{address_get, Result-cases, Result, ok}
use go_invoicing.Store.Invoices.{is_none}
use go_invoicing.Service.Customers.{upsert_billing_address}
use go_invoicing.Service.Customers.Requests.{new_billing_address}
use go_invoicing.Customer.{UpsertBillingAddressRequest, Address}
use go_invoicing.Admin.{Uuid}
use go_invoicing.Store.{Db, Env}
use go_invoicing.Store.Rows.{find?-test}
use go_invoicing.Store.Keys.{find?-update_where, find?-appended}
use go_invoicing.Store.Parties.{get_billing_address, is_customer, customer_row}
use go_invoicing.Store.Customers.{new_row, is_billing_of, replaced_address, upsert_address_row}

-- What the statement of the upsert has done when it reports success.
record UpsertEffect (org id : Uuid) (new : Address) (db : Db) (a : Address) (after : Db)
    : Type 0 where
  found : find? (is_billing_of id) after.addresses ≡ some a
  street : a.street ≡ new.street
  city : a.city ≡ new.city
  state : a.state ≡ new.state
  postal_code : a.postal_code ≡ new.postal_code
  country : a.country ≡ new.country
  customers : after.customers ≡ db.customers
  owned : is_none (customer_row db org id) ≡ false
  replaced :
      (old : Address)
      → find? (is_billing_of id) db.addresses ≡ some old
      → (a.id ≡ old.id) × (length after.addresses ≡ length db.addresses)

upsert_address_ok :
    (env : Env) (org id : Uuid) (new : Address) (db db' : Db) (a : Address)
    → upsert_address_row env org id new db ≡ (ok a, db')
    → UpsertEffect org id new db a db'
unfolding upsert_address_row
upsert_address_ok env org id new db db' a h =
    elim (Option-cases (find? (is_billing_of id) db.addresses)) [
      | inr (row, f) ↦
          let t = find?-test (is_billing_of id) db.addresses f in
          let again =
            find?-update_where (is_billing_of id) (replaced_address env new) db.addresses f
              (ground arith) in
          let same : a ≡ replaced_address env new row = ground arith in
          let wrote : db' ≡ record db {
            addresses = update_where (is_billing_of id) (replaced_address env new) db.addresses;
          } =
            ground arith in
          rw (same, wrote)
            (record {
              found = again;
              street = refl;
              city = refl;
              state = refl;
              postal_code = refl;
              country = refl;
              customers = refl;
              owned = ground arith;
              replaced = λ old g. (
                ground arith,
                length-update_where (is_billing_of id) (replaced_address env new) db.addresses,
              );
            })
      | inl n ↦
          let same : a ≡ new_row env id new = ground arith in
          let wrote : db' ≡ record db { addresses = db.addresses ++ (new_row env id new ∷ []) } =
            ground arith in
          rw (same, wrote)
            (record {
              found =
                  find?-appended (is_billing_of id) db.addresses (new_row env id new) n
                    (ground arith);
              street = refl;
              city = refl;
              state = refl;
              postal_code = refl;
              country = refl;
              customers = refl;
              owned = ground arith;
              replaced = λ old g. absurd (ground arith);
            })
    ]

-- A request that was accepted, as the address that is written.
record IsAddressOf (r : UpsertBillingAddressRequest) (a : Address) : Type 0 where
  street : a.street ≡ trim_space r.street
  city : a.city ≡ trim_space r.city
  state : a.state ≡ trim_space r.state
  postal_code : a.postal_code ≡ trim_space r.postal_code
  country : a.country ≡ trim_space r.country

new_billing_address_ok :
    (env : Env) (id : Uuid) (r : UpsertBillingAddressRequest) {a : Address}
    → new_billing_address env id r ≡ ok a
    → IsAddressOf r a
unfolding new_billing_address
new_billing_address_ok env id r h = record {
  street = ground arith;
  city = ground arith;
  state = ground arith;
  postal_code = ground arith;
  country = ground arith;
}

upsert_ok :
    (env : Env) (org id : Uuid) (r : UpsertBillingAddressRequest) (db db' : Db) (a : Address)
    → upsert_billing_address env org id r db ≡ (ok a, db')
    → (new : Address) × IsAddressOf r new × UpsertEffect org id new db a db'
unfolding upsert_billing_address
upsert_ok env org id r db db' a h = elim (Result-cases (new_billing_address env id r)) [
  | inr (x, q) ↦ absurd (ground arith)
  | inl (new, q) ↦ (
    new,
    new_billing_address_ok env id r q,
    upsert_address_ok env org id new db db' a (ground arith),
  )
]

-- After a PUT of a billing address that reports success, the read of the customer's billing address
-- returns what the PUT returned, whose text fields are those of the request, trimmed.
pub get_billing_address-upsert :
    (env env' : Env) (org id : Uuid) (r : UpsertBillingAddressRequest) (db db' : Db) (a : Address)
    → upsert_billing_address env org id r db ≡ (ok a, db')
    → env'.fails address_get ≡ false
    → ◌≡◌ {A = Result (Option Address) × Db}
        (get_billing_address env' org id db')
        (ok (some a), db')
      × (a.street ≡ trim_space r.street)
      × (a.city ≡ trim_space r.city)
      × (a.state ≡ trim_space r.state)
      × (a.postal_code ≡ trim_space r.postal_code)
      × (a.country ≡ trim_space r.country)
unfolding get_billing_address
get_billing_address-upsert env env' org id r db db' a h up =
    let (new, s, x) = upsert_ok env org id r db db' a h in
    let owned : is_none (find? (is_customer org id) db'.customers) ≡ false =
      rw x.customers x.owned in
    (
      rw (up, owned, x.found) refl,
      x.street ∙ s.street,
      x.city ∙ s.city,
      x.state ∙ s.state,
      x.postal_code ∙ s.postal_code,
      x.country ∙ s.country,
    )

-- A second PUT that succeeds replaces the address in place: it keeps the row's identifier, adds no
-- row, and is what the customer then has.
pub second_upsert_replaces :
    (env env' : Env) (org id : Uuid) (r r' : UpsertBillingAddressRequest) (db db' db'' : Db)
    (a b : Address)
    → upsert_billing_address env org id r db ≡ (ok a, db')
    → upsert_billing_address env' org id r' db' ≡ (ok b, db'')
    → (b.id ≡ a.id)
      × (length db''.addresses ≡ length db'.addresses)
      × (find? (is_billing_of id) db''.addresses ≡ some b)
second_upsert_replaces env env' org id r r' db db' db'' a b h h' =
    let (new, s, x) = upsert_ok env org id r db db' a h in
    let (new', s', y) = upsert_ok env' org id r' db' db'' b h' in
    let (same, size) = y.replaced a x.found in (same, size, y.found)
