-- ===== src/Admin.antt =====
-- internal/administration: organisations and their settings (organisation.go, settings.go).
pub mod SettingsRequest
pub mod User
pub mod Logo
pub mod Password
use go_invoicing.Base.{ℕ, ◌+◌, Bool, Option, List}
use go_invoicing.Base.Text.{Text}
use go_invoicing.Base.Time.{Time}

-- A 128-bit UUID, which is only compared.
abbrev pub Uuid : Type 0
Uuid = ℕ

pub record Organisation : Type 0 where
  pub id : Uuid
  pub name : Text
  pub email : Option Text
  pub phone : Option Text
  pub website : Option Text
  pub address : Option Text
  pub city : Option Text
  pub state : Option Text
  pub postal_code : Option Text
  pub country : Option Text
  pub tax_id : Option Text
  pub created_at : Time
  pub updated_at : Time
  pub deleted_at : Option Time
  pub vat_registered : Bool
  pub logo_id : Option Uuid
  pub version : ℕ

-- `invoice_number` is the last number allocated, and starts at 0; it is never negative.
pub record Settings : Type 0 where
  pub id : Uuid
  pub organisation_id : Uuid
  pub invoice_prefix : Text
  pub invoice_number : ℕ
  pub currency : Text
  pub payment_terms : ℕ
  pub quantity_units : List Text
  pub created_at : Time
  pub updated_at : Time
  pub deleted_at : Option Time
  pub version : ℕ

abbrev pub max_quantity_unit_length : ℕ
max_quantity_unit_length = 30

abbrev pub max_quantity_units : ℕ
max_quantity_units = 50

-- Increments `invoice_number` and returns it. The column is a 32-bit integer, so the 64-bit `int`
-- does not wrap.
unfoldable pub next_invoice_number : Settings → ℕ × Settings
next_invoice_number s = (s.invoice_number + 1, record s { invoice_number = s.invoice_number + 1 })
