-- ===== src/Examples/Products.antt =====
-- The theorem on products, at a catalogue of one.
use go_invoicing.Base.{none, true, [], ◌∷◌}
use go_invoicing.Base.Int.{pos}
use go_invoicing.Base.Text.{codes}
use go_invoicing.Base.Time.{zero_time}
use go_invoicing.Product.{Product, ProductFields}
use go_invoicing.Store.{Db}
use go_invoicing.Service.Products.{create_product, update_product}
use go_invoicing.Service.Products.Laws.{IsCatalogue, product_writes-IsCatalogue}
use go_invoicing.Examples.Data.{env, db}

abbrev hour : Product
hour = record {
  id = 7;
  organisation_id = 1;
  name = codes "Hour";
  description = none;
  sku = codes "H";
  price = pos 100;
  category = none;
  vat_rate = none;
  quantity_unit = none;
  is_active = true;
  created_at = zero_time;
  updated_at = zero_time;
  deleted_at = none;
}

abbrev one_product : Db
one_product = record db { products = hour ∷ [] }

abbrev same_again : ProductFields
same_again = record {
  name = codes "Hours";
  description = [];
  sku = codes " H";
  price = pos 120;
  category = [];
  vat_rate = none;
  quantity_unit = [];
}

product_writes-IsCatalogue_example :
    IsCatalogue (create_product env 1 same_again one_product).1.products
    × IsCatalogue (update_product env 1 7 same_again none one_product).1.products
product_writes-IsCatalogue_example =
    product_writes-IsCatalogue env 1 7 same_again none one_product (tt, tt)
