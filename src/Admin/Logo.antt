-- ===== src/Admin/Logo.antt =====
-- Logos of organisations (organisation_logo.go).
use go_invoicing.Base.{ℕ, Bool, ◌||◌, List}
use go_invoicing.Base.Text.{Text, text_eq, codes}
use go_invoicing.Base.Time.{Time}
use go_invoicing.Admin.{Uuid}

pub record OrganisationLogo : Type 0 where
  pub id : Uuid
  pub organisation_id : Uuid
  pub content_type : Text
  pub bytes : List ℕ
  pub created_at : Time

-- MaxOrganisationLogoBytes, 1 MiB
abbrev pub max_organisation_logo_bytes : ℕ
max_organisation_logo_bytes = 1048576

-- allowedLogoContentTypes
abbrev pub is_allowed_logo_content_type : Text → Bool
is_allowed_logo_content_type t =
    text_eq t (codes "image/png")
    || text_eq t (codes "image/jpeg")
    || text_eq t (codes "image/gif")
    || text_eq t (codes "image/webp")
