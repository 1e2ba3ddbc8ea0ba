-- ===== src/Store/Customers.antt =====
-- Writes and the list query of the tables `customers` and `addresses`
-- (customer_repository_postgres.go, address_repository_postgres.go).
use go_invoicing.Base.{
  ℕ, Bool, true, false, not, ◌&&◌, ◌||◌, Option, none, some, List, [], ◌∷◌, ◌++◌, keep, length,
  find?, update_where, ltb, ◌==◌, if◌then◌else◌,
}
use go_invoicing.Base.Text.{Text, text_eq, is_empty, codes}
use go_invoicing.Errors.{
  ok, err, internal, customer_create, customer_update_status, customer_count, customer_list,
  address_upsert, customer_has_open_invoices, billing_address_not_found,
}
use go_invoicing.Admin.{Uuid}
use go_invoicing.Invoice.{Status, Invoice}
use go_invoicing.Customer.{Customer, CustomerStatus, CustomerListFilter, Address}
use go_invoicing.Store.{Db, Env, M, pure, throw, query, execute_returning, ◌>>=◌}
use go_invoicing.Store.Invoices.{is_none}
use go_invoicing.Store.Parties.{is_customer, customer_row, get_customer}
use go_invoicing.Store.Paging.{row_before, paged, is_descending}

-- The INSERT; `id` is the primary key. deleted_at has no value yet.
unfoldable pub insert_customer : Env → Customer → M Customer
insert_customer env c = execute_returning env customer_create (λ db.
    if is_none (find? (λ x. x.id == c.id) db.customers)
    then (let row = record c {
      created_at = env.db_now;
      updated_at = env.db_now;
      deleted_at = none;
    } in
        ok (row, record db { customers = db.customers ++ (row ∷ []) }))
    else err (internal customer_create))

abbrev pub is_archived : CustomerStatus → Bool
is_archived CustomerStatus.archived = true
is_archived _ = false

-- status IN ('draft', 'sent', 'overdue')
abbrev pub is_open_status : Status → Bool
is_open_status Status.draft = true
is_open_status Status.sent = true
is_open_status Status.overdue = true
is_open_status _ = false

abbrev pub is_open_of : Uuid → Uuid → Invoice → Bool
is_open_of org id i =
    i.organisation_id == org
    && i.customer_id == id
    && is_none i.deleted_at
    && is_open_status i.status

unfoldable pub has_open_invoices : Db → Uuid → Uuid → Bool
has_open_invoices db org id = not (is_none (find? (is_open_of org id) db.invoices))

abbrev pub with_status : Env → CustomerStatus → Customer → Customer
with_status env status c = record c { status = status; updated_at = env.db_now }

-- The UPDATE … RETURNING, with none for no row.
unfoldable pub write_customer_status : Env → Uuid → Uuid → CustomerStatus → M (Option Customer)
write_customer_status env org id status = execute_returning env customer_update_status (λ db.
    if is_archived status && has_open_invoices db org id
    then ok (none, db)
    else elim (customer_row db org id) [
      | none ↦ ok (none, db)
      | some c ↦ ok (
        some (with_status env status c),
        record db {
          customers = update_where (is_customer org id) (with_status env status) db.customers;
        },
      )
    ])

-- No row was written: is the customer missing, or kept from being archived?
abbrev pub written_or_why : Env → Uuid → Uuid → Option Customer → M Customer
written_or_why env org id (some c) = pure c
written_or_why env org id none = do
  found ← get_customer env org id
  throw customer_has_open_invoices

unfoldable pub update_customer_status : Env → Uuid → Uuid → CustomerStatus → M Customer
update_customer_status env org id status = do
  written ← write_customer_status env org id status
  written_or_why env org id written

abbrev pub is_billing_of : Uuid → Address → Bool
is_billing_of id a = a.customer_id == id && a.is_billing

abbrev pub replaced_address : Env → Address → Address → Address
replaced_address env new row = record row {
  street = new.street;
  city = new.city;
  state = new.state;
  postal_code = new.postal_code;
  country = new.country;
  updated_at = env.db_now;
}

-- The row that is inserted, with the defaults of its columns.
abbrev pub new_row : Env → Uuid → Address → Address
new_row env id address = record address {
  customer_id = id;
  is_billing = true;
  is_default = false;
  created_at = env.db_now;
  updated_at = env.db_now;
}

-- INSERT … SELECT … ON CONFLICT (customer_id) WHERE type = 'billing' DO UPDATE. Any other conflict is
-- one of the primary key.
unfoldable pub upsert_address_row : Env → Uuid → Uuid → Address → M Address
upsert_address_row env org id address = execute_returning env address_upsert (λ db.
    if is_none (customer_row db org id)
    then err billing_address_not_found
    else elim (find? (is_billing_of id) db.addresses) [
      | some row ↦ ok (
        replaced_address env address row,
        record db {
          addresses = update_where (is_billing_of id) (replaced_address env address) db.addresses;
        },
      )
      | none ↦
          if is_none (find? (λ a. a.id == address.id) db.addresses)
          then ok (
            new_row env id address,
            record db { addresses = db.addresses ++ (new_row env id address ∷ []) },
          )
          else err (internal address_upsert)
    ])

abbrev same_status : CustomerStatus → CustomerStatus → Bool
same_status CustomerStatus.active CustomerStatus.active = true
same_status CustomerStatus.inactive CustomerStatus.inactive = true
same_status CustomerStatus.archived CustomerStatus.archived = true
same_status (CustomerStatus.other s) (CustomerStatus.other t) = text_eq s t
same_status _ _ = false

-- status = ANY(statuses)
abbrev pub any_status : List CustomerStatus → CustomerStatus → Bool
any_status [] s = false
any_status (t ∷ ts) s = same_status s t || any_status ts s

abbrev in_statuses : List CustomerStatus → CustomerStatus → Bool
in_statuses [] s = true
in_statuses (t ∷ ts) s = any_status (t ∷ ts) s

-- A NULL column matches no pattern.
abbrev column_contains : Env → Option Text → Text → Bool
column_contains env none text = false
column_contains env (some column) text = env.contains_folded column text

-- The WHERE clause, which the count and the page share.
unfoldable pub matches_customer : Env → Uuid → CustomerListFilter → Customer → Bool
matches_customer env org f c =
    c.organisation_id == org
    && is_none c.deleted_at
    && in_statuses f.statuses c.status
    && (is_empty f.search
        || env.contains_folded c.name f.search
        || column_contains env c.company_name f.search
        || column_contains env c.email f.search)

pub data CustomerSort : Type 0 where
  name company_name created_at : CustomerSort

-- customerSortColumns, with the column for a name that it does not have
unfoldable pub customer_sort : Text → CustomerSort
customer_sort field =
    if text_eq field (codes "companyName")
    then CustomerSort.company_name
    else if text_eq field (codes "createdAt")
    then CustomerSort.created_at
    else CustomerSort.name

-- NULLs are last in ascending order.
abbrev null_before : Env → Option Text → Option Text → Bool
null_before env none t = false
null_before env (some s) none = true
null_before env (some s) (some t) = env.collates_before s t

unfoldable pub customer_before : Env → CustomerSort → Customer → Customer → Bool
customer_before env CustomerSort.name c d = env.collates_before c.name d.name
customer_before env CustomerSort.company_name c d = null_before env c.company_name d.company_name
customer_before env CustomerSort.created_at c d = ltb c.created_at d.created_at

abbrev pub matching_customers : Env → Uuid → CustomerListFilter → Db → List Customer
matching_customers env org f db = keep (matches_customer env org f) db.customers

unfoldable pub customer_page : Env → Uuid → CustomerListFilter → Db → List Customer
customer_page env org f db =
    paged
      (row_before (customer_before env (customer_sort f.sort)) (λ c. c.id)
        (not (is_descending f.order)))
      f.limit f.offset (matching_customers env org f db)

unfoldable pub list_customer_rows : Env → Uuid → CustomerListFilter → M (List Customer × ℕ)
unfolding customer_page
list_customer_rows env org f = do
  count ← query env customer_count (λ db. ok (length (matching_customers env org f db)))
  rows ← query env customer_list (λ db. ok (customer_page env org f db))
  pure (rows, count)
