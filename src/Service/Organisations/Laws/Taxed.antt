-- ===== src/Service/Organisations/Laws/Taxed.antt =====
-- A VAT registered organisation has its number (organisation_service.go, organisation_logo.go,
-- registration_service.go).
use go_invoicing.Base.{leb, ◌||◌, ◌==◌, ◌&&◌}
use go_invoicing.Store.Invoices.{is_none}
use go_invoicing.Base.{
  ◌≡◌, Bool, false, ◌&&◌, ◌==◌, Bool-cases, inl, inr, Option-cases, none, some, find?, update_where,
  List, All, All-append, if◌then◌else◌, ℕ,
}
use go_invoicing.Errors.{
  organisation_create, organisation_update, settings_create, logo_save, logo_clear,
}
use go_invoicing.Admin.{Uuid, Organisation, Settings}
use go_invoicing.Admin.Logo.{OrganisationLogo}
use go_invoicing.Store.{Db, Env}
use go_invoicing.Store.Invoices.{is_none}
use go_invoicing.Store.Views.{All-updated}
use go_invoicing.Store.Organisations.{
  insert_organisation, insert_settings, write_organisation, is_current_organisation,
  is_live_organisation, edited_organisation, save_logo, clear_logo, with_logo,
}

-- Not VAT registered, or with a number.
abbrev pub IsTaxed : Organisation → Type 0
IsTaxed o = (o.vat_registered && is_none o.tax_id) ≡ false

abbrev pub AreTaxed : Db → Type 0
AreTaxed db = All IsTaxed db.organisations

rows_numbered :
    (q : Organisation → Bool) (f : Organisation → Organisation) (os : List Organisation)
    → ((o : Organisation) → IsTaxed o → IsTaxed (f o))
    → All IsTaxed os
    → All IsTaxed (update_where q f os)
rows_numbered q f os h a = All-updated IsTaxed q f os step a
  where
    step : (o : Organisation) → IsTaxed o → IsTaxed (if q o then f o else o)
    step o t = elim (Bool-cases (q o)) [ inl hit ↦ rw hit (h o t) | inr miss ↦ rw miss t ]

module _ (env : Env) (db : Db) where
  pub inserted_taxed :
      (o : Organisation) → IsTaxed o → AreTaxed db → AreTaxed (insert_organisation env o db).1
  unfolding insert_organisation
  inserted_taxed o t a = elim (Bool-cases (env.fails organisation_create)) [
    | inl down ↦ rw down a
    | inr up ↦ elim (Option-cases (find? (λ x. x.id == o.id) db.organisations)) [
      | inr (x, f) ↦ rw (up, f) a
      | inl n ↦ rw (up, n) (All-append IsTaxed db.organisations _ a (t, tt))
    ]
  ]

  pub settings_taxed : (s : Settings) → AreTaxed db → AreTaxed (insert_settings env s db).1
  unfolding insert_settings
  settings_taxed s a = elim (Bool-cases (env.fails settings_create)) [
    | inl down ↦ rw down a
    | inr up ↦
        elim (Bool-cases (
          is_none (find? (λ x. x.organisation_id == s.organisation_id || x.id == s.id) db.settings)
          && leb s.invoice_number 2147483647
          && leb s.payment_terms 2147483647)) [
            | inl fits ↦ rw (up, fits) a
            | inr not_so ↦ rw (up, not_so) a
          ]
  ]

  pub written_taxed :
      (org : Uuid) (o : Organisation) (expected : ℕ)
      → IsTaxed o
      → AreTaxed db
      → AreTaxed (write_organisation env org o expected db).1
  unfolding write_organisation
  written_taxed org o expected t a = elim (Bool-cases (env.fails organisation_update)) [
    | inl down ↦ rw down a
    | inr up ↦ elim (Option-cases (find? (is_current_organisation org expected) db.organisations)) [
      | inl n ↦ rw (up, n) a
      | inr (x, f) ↦
          rw (up, f)
            (rows_numbered (is_current_organisation org expected) (edited_organisation env o)
              db.organisations (λ row h. t) a)
    ]
  ]

  pub saved_taxed :
      (org : Uuid) (logo : OrganisationLogo) → AreTaxed db → AreTaxed (save_logo env org logo db).1
  unfolding save_logo
  saved_taxed org logo a = elim (Bool-cases (env.fails logo_save)) [
    | inl down ↦ rw down a
    | inr up ↦ elim (Option-cases (find? (is_live_organisation org) db.organisations)) [
      | inl n ↦ rw (up, n) a
      | inr (x, f) ↦ elim (Option-cases (find? (λ l. l.id == logo.id) db.logos)) [
        | inr (y, g) ↦ rw (up, f, g) a
        | inl free ↦
            rw (up, f, free)
              (rows_numbered (λ o. o.id == org) (with_logo (some logo.id)) db.organisations
                (λ o h. h) a)
      ]
    ]
  ]

  pub cleared_taxed : (org : Uuid) → AreTaxed db → AreTaxed (clear_logo env org db).1
  unfolding clear_logo
  cleared_taxed org a = elim (Bool-cases (env.fails logo_clear)) [
    | inl down ↦ rw down a
    | inr up ↦ elim (Option-cases (find? (is_live_organisation org) db.organisations)) [
      | inl n ↦ rw (up, n) a
      | inr (x, f) ↦
          rw (up, f)
            (rows_numbered (is_live_organisation org) (with_logo none) db.organisations (λ o h. h)
              a)
    ]
  ]
