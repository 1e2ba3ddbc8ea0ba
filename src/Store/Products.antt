-- ===== src/Store/Products.antt =====
-- Writes and the list query of the table `products` (product_repository_postgres.go).
use go_invoicing.Base.{
  ℕ, Bool, true, false, not, ◌&&◌, ◌||◌, Option, none, some, List, [], ◌∷◌, ◌++◌, keep, length,
  find?, update_where, ltb, ◌==◌, if◌then◌else◌,
}
use go_invoicing.Base.Int.{ltb_ℤ}
use go_invoicing.Base.Text.{Text, text_eq, is_empty, codes}
use go_invoicing.Errors.{
  ok, err, product_create, product_update, product_count, product_list, product_not_found,
  product_sku_already_exists,
}
use go_invoicing.Admin.{Uuid}
use go_invoicing.Product.{Product, ProductListFilter}
use go_invoicing.Store.{Db, Env, M, pure, query, execute_returning, ◌>>=◌}
use go_invoicing.Store.Invoices.{is_none}
use go_invoicing.Store.Paging.{row_before, paged, is_descending}

-- UNIQUE (organisation_id, sku), deleted rows included
abbrev pub same_sku : Product → Product → Bool
same_sku p q = p.organisation_id == q.organisation_id && text_eq p.sku q.sku

abbrev pub is_product : Uuid → Uuid → Product → Bool
is_product org id p = p.id == id && p.organisation_id == org && is_none p.deleted_at

abbrev pub created_product : Env → Product → Product
created_product env p = record p {
  created_at = env.db_now;
  updated_at = env.db_now;
  deleted_at = none;
}

-- Every unique violation is reported as one of the SKU, one of the primary key too.
unfoldable pub insert_product : Env → Product → M Product
insert_product env p = execute_returning env product_create (λ db.
    if is_none (find? (λ x. same_sku x p || x.id == p.id) db.products)
    then ok (
      created_product env p,
      record db { products = db.products ++ (created_product env p ∷ []) },
    )
    else err product_sku_already_exists)

abbrev pub edited_product : Env → Product → Product → Product
edited_product env p row = record row {
  name = p.name;
  description = p.description;
  sku = p.sku;
  price = p.price;
  category = p.category;
  vat_rate = p.vat_rate;
  quantity_unit = p.quantity_unit;
  is_active = p.is_active;
  updated_at = env.db_now;
}

-- Another row with the SKU.
abbrev pub is_rival : Product → Product → Bool
is_rival p x = not (is_product p.organisation_id p.id x) && same_sku x p

unfoldable pub update_product_row : Env → Product → M Product
update_product_row env p = execute_returning env product_update (λ db.
    if is_none (find? (is_product p.organisation_id p.id) db.products)
    then err product_not_found
    else if is_none (find? (is_rival p) db.products)
    then ok (
      record p { updated_at = env.db_now },
      record db {
        products =
            update_where (is_product p.organisation_id p.id) (edited_product env p) db.products;
      },
    )
    else err product_sku_already_exists)

abbrev is_flag : Option Bool → Bool → Bool
is_flag none b = true
is_flag (some true) b = b
is_flag (some false) b = not b

-- The WHERE clause, which the count and the page share.
unfoldable pub matches_product : Env → Uuid → ProductListFilter → Product → Bool
matches_product env org f p =
    p.organisation_id == org
    && is_none p.deleted_at
    && is_flag f.is_active p.is_active
    && (is_empty f.search
        || env.contains_folded p.name f.search
        || env.contains_folded p.sku f.search)

pub data ProductSort : Type 0 where
  name sku price created_at : ProductSort

-- productSortColumns, with the column for a name that it does not have
unfoldable pub product_sort : Text → ProductSort
product_sort field =
    if text_eq field (codes "sku")
    then ProductSort.sku
    else if text_eq field (codes "price")
    then ProductSort.price
    else if text_eq field (codes "createdAt")
    then ProductSort.created_at
    else ProductSort.name

unfoldable pub product_before : Env → ProductSort → Product → Product → Bool
product_before env ProductSort.name p q = env.collates_before p.name q.name
product_before env ProductSort.sku p q = env.collates_before p.sku q.sku
product_before env ProductSort.price p q = ltb_ℤ p.price q.price
product_before env ProductSort.created_at p q = ltb p.created_at q.created_at

abbrev pub matching_products : Env → Uuid → ProductListFilter → Db → List Product
matching_products env org f db = keep (matches_product env org f) db.products

unfoldable pub product_page : Env → Uuid → ProductListFilter → Db → List Product
product_page env org f db =
    paged
      (row_before (product_before env (product_sort f.sort)) (λ p. p.id)
        (not (is_descending f.order)))
      f.limit f.offset (matching_products env org f db)

unfoldable pub list_products : Env → Uuid → ProductListFilter → M (List Product × ℕ)
unfolding product_page
list_products env org f = do
  count ← query env product_count (λ db. ok (length (matching_products env org f db)))
  rows ← query env product_list (λ db. ok (product_page env org f db))
  pure (rows, count)
