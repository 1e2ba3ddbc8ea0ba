-- ===== src/Template.antt =====
-- internal/template: saved invoice layouts (template.go).
use go_invoicing.Base.{ℕ, Bool, Option}
use go_invoicing.Base.Text.{Text}
use go_invoicing.Base.Time.{Time}
use go_invoicing.Admin.{Uuid}

-- `definition` is a JSON document that the package never looks into, as its text.
pub record Template : Type 0 where
  pub id : Uuid
  pub organisation_id : Uuid
  pub name : Text
  pub definition : Text
  pub is_default : Bool
  pub is_system : Bool
  pub created_at : Time
  pub updated_at : Time
  pub deleted_at : Option Time
  pub version : ℕ
