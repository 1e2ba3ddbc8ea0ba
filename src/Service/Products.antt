-- ===== src/Service/Products.antt =====
-- ProductService (product_service.go).
pub mod Laws
use go_invoicing.Base.{ℕ, Bool, true, ◌||◌, false, Option, none, some, ltb, length}
use go_invoicing.Base.Int.{ℤ, pos, ltb_ℤ}
use go_invoicing.Base.Float.{Float64, lt_zero, gt_hundred}
use go_invoicing.Base.Text.{Text, trim_space, is_empty}
use go_invoicing.Base.Time.{zero_time}
use go_invoicing.Errors.{
  product_name_required, product_sku_required, product_price_negative, product_vat_rate_invalid,
  product_quantity_unit_too_long,
}
use go_invoicing.Admin.{Uuid, max_quantity_unit_length}
use go_invoicing.Product.{Product, ProductFields}
use go_invoicing.Store.{Env, M, pure, throw_if, ◌>>=◌, ◌>>◌}
use go_invoicing.Store.Parties.{get_product}
use go_invoicing.Store.Products.{insert_product, update_product_row}
use go_invoicing.Service.Snapshots.{nil_if_empty}

abbrev is_invalid_rate : Option Float64 → Bool
is_invalid_rate none = false
is_invalid_rate (some rate) = lt_zero rate || gt_hundred rate

-- The name and the SKU, trimmed.
unfoldable pub validate_product_fields : ProductFields → M (Text × Text)
validate_product_fields r = do
  let name = trim_space r.name
  throw_if (is_empty name) product_name_required
  let sku = trim_space r.sku
  throw_if (is_empty sku) product_sku_required
  throw_if (ltb_ℤ r.price (pos 0)) product_price_negative
  throw_if (is_invalid_rate r.vat_rate) product_vat_rate_invalid
  throw_if (ltb max_quantity_unit_length (length (trim_space r.quantity_unit)))
      product_quantity_unit_too_long
  pure (name, sku)

abbrev pub new_product : Env → Uuid → ProductFields → Text × Text → Product
new_product env org r (name, sku) = record {
  id = env.new_id;
  organisation_id = org;
  name = name;
  description = nil_if_empty r.description;
  sku = sku;
  price = r.price;
  category = nil_if_empty r.category;
  vat_rate = r.vat_rate;
  quantity_unit = nil_if_empty r.quantity_unit;
  is_active = true;
  created_at = zero_time;
  updated_at = zero_time;
  deleted_at = none;
}

unfoldable pub create_product : Env → Uuid → ProductFields → M Product
create_product env org r = do
  names ← validate_product_fields r
  insert_product env (new_product env org r names)

abbrev or_else : Option Bool → Bool → Bool
or_else none b = b
or_else (some a) b = a

abbrev pub revised_product : ProductFields → Option Bool → Text × Text → Product → Product
revised_product r active (name, sku) p = record p {
  name = name;
  description = nil_if_empty r.description;
  sku = sku;
  price = r.price;
  category = nil_if_empty r.category;
  vat_rate = r.vat_rate;
  quantity_unit = nil_if_empty r.quantity_unit;
  is_active = or_else active p.is_active;
}

unfoldable pub update_product : Env → Uuid → Uuid → ProductFields → Option Bool → M Product
update_product env org id r active = do
  names ← validate_product_fields r
  p ← get_product env 0 org id
  update_product_row env (revised_product r active names p)
