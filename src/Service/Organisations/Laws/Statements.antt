-- ===== src/Service/Organisations/Laws/Statements.antt =====
-- What each INSERT of a registration does (organisation_ and settings_repository_postgres.go,
-- CreateSystemTemplate of template_repository_postgres.go).
use go_invoicing.Base.{refl}
use go_invoicing.Base.{
  ◌≡◌, sym, ap, true, Bool-cases, inl, inr, Option-cases, none, find?, [], ◌∷◌, ◌++◌, ◌==◌, ◌&&◌,
  ◌||◌, leb, arith,
}
use go_invoicing.Base.Time.{zero_time}
use go_invoicing.Base.Text.{codes}
use go_invoicing.Errors.{ok, organisation_create, settings_create, template_create}
use go_invoicing.Admin.{Uuid, Organisation, Settings}
use go_invoicing.Template.{Template}
use go_invoicing.Store.{Db, Env}
use go_invoicing.Store.Templates.{create_system_template, insert_template, is_default_of}
use go_invoicing.Store.Organisations.{
  insert_organisation, created_organisation, insert_settings, created_settings,
}

module _ (env : Env) (db db' : Db) where
  pub insert_organisation_ok :
      (o p : Organisation)
      → insert_organisation env o db ≡ (ok p, db')
      → (find? (λ x. x.id == o.id) db.organisations ≡ none)
        × (p ≡ record o { created_at = env.db_now; updated_at = env.db_now; version = 1 })
        × (db'
            ≡ record db { organisations = db.organisations ++ (created_organisation env o ∷ []) })
  unfolding insert_organisation
  insert_organisation_ok o p h = elim (Bool-cases (env.fails organisation_create)) [
    | inl down ↦ absurd (ground arith)
    | inr up ↦ elim (Option-cases (find? (λ x. x.id == o.id) db.organisations)) [
      | inr (x, f) ↦ absurd (let k = rw (up, f) at h in ground arith)
      | inl n ↦ let k = rw (up, n) at h in (n, ground arith, sym (ap (λ r. r.1) k))
    ]
  ]

  pub insert_settings_ok :
      (s : Settings)
      → insert_settings env s db ≡ (ok tt, db')
      → (find? (λ x. x.organisation_id == s.organisation_id || x.id == s.id) db.settings ≡ none)
        × (db' ≡ record db { settings = db.settings ++ (created_settings env s ∷ []) })
  unfolding insert_settings
  insert_settings_ok s h = elim (Bool-cases (env.fails settings_create)) [
    | inl down ↦ absurd (ground arith)
    | inr up ↦
        elim (Option-cases
          (find? (λ x. x.organisation_id == s.organisation_id || x.id == s.id) db.settings)) [
            | inr (x, f) ↦ absurd (let k = rw (up, f) at h in ground arith)
            | inl n ↦
                elim (Bool-cases
                  (leb s.invoice_number 2147483647 && leb s.payment_terms 2147483647)) [
                    | inr large ↦ absurd (let k = rw (up, n, large) at h in ground arith)
                    | inl small ↦ let k = rw (up, n, small) at h in (n, sym (ap (λ r. r.1) k))
                  ]
          ]
  ]

  abbrev created_template : Template → Template
  created_template t = record t {
    created_at = env.db_now;
    updated_at = env.db_now;
    deleted_at = none;
    version = 1;
  }

  -- For a layout that is to be a default.
  insert_default_ok :
      (t u : Template)
      → t.is_default ≡ true
      → insert_template env t db ≡ (ok u, db')
      → (find? (is_default_of t.organisation_id) db.templates ≡ none)
        × (db' ≡ record db { templates = db.templates ++ (created_template t ∷ []) })
  unfolding insert_template
  insert_default_ok t u d h = elim (Bool-cases (env.fails template_create)) [
    | inl down ↦ absurd (ground arith)
    | inr up ↦ elim (Option-cases (find? (λ x. x.id == t.id) db.templates)) [
      | inr (x, f) ↦ absurd (let k = rw (up, f) at h in ground arith)
      | inl n ↦ elim (Option-cases (find? (is_default_of t.organisation_id) db.templates)) [
        | inr (y, g) ↦ absurd (let k = rw (up, n, d, g) at h in ground arith)
        | inl m ↦ let k = rw (up, n, d, m) at h in (m, rw d (sym (ap (λ r. r.1) k)))
      ]
    ]
  ]

-- An organisation's Classic layout as it is first stored.
abbrev pub classic : Env → Uuid → Template
classic env org = record {
  id = env.new_id;
  organisation_id = org;
  name = codes "Classic";
  definition = codes "{\"system\":\"classic\"}";
  is_default = true;
  is_system = true;
  created_at = env.db_now;
  updated_at = env.db_now;
  deleted_at = none;
  version = 1;
}

pub create_system_ok :
    (env : Env) (db db' : Db) (org : Uuid) (u : Template)
    → create_system_template env org db ≡ (ok u, db')
    → (find? (is_default_of org) db.templates ≡ none)
      × (db' ≡ record db { templates = db.templates ++ (classic env org ∷ []) })
unfolding create_system_template
create_system_ok env db db' org u h =
    insert_default_ok env db db'
      (record (classic env org) { created_at = zero_time; updated_at = zero_time }) u refl h
