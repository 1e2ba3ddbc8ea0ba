-- ===== src/Product.antt =====
-- internal/product: products (product.go).
use go_invoicing.Base.{ℕ, Bool, Option}
use go_invoicing.Base.Int.{ℤ}
use go_invoicing.Base.Float.{Float64}
use go_invoicing.Base.Text.{Text}
use go_invoicing.Base.Time.{Time}
use go_invoicing.Admin.{Uuid}

pub record Product : Type 0 where
  pub id : Uuid
  pub organisation_id : Uuid
  pub name : Text
  pub description : Option Text
  pub sku : Text
  pub price : ℤ
  pub category : Option Text
  pub vat_rate : Option Float64
  pub quantity_unit : Option Text
  pub is_active : Bool
  pub created_at : Time
  pub updated_at : Time
  pub deleted_at : Option Time

-- ListFilter
pub record ProductListFilter : Type 0 where
  pub search : Text
  pub is_active : Option Bool
  pub sort : Text
  pub order : Text
  pub limit : ℕ
  pub offset : ℕ

-- What Create and Update take from a request.
pub record ProductFields : Type 0 where
  pub name : Text
  pub description : Text
  pub sku : Text
  pub price : ℤ
  pub category : Text
  pub vat_rate : Option Float64
  pub quantity_unit : Text
