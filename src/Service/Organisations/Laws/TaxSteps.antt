-- ===== src/Service/Organisations/Laws/TaxSteps.antt =====
-- The VAT numbers through the calls that write organisations (organisation_service.go,
-- organisation_logo.go, registration_service.go).
use go_invoicing.Base.{
  ◌≡◌, refl, Bool, not, ◌&&◌, ◌==◌, Bool-cases, inl, inr, Option, none, some, length, ltb, ℕ, List,
  All-append,
}
use go_invoicing.Base.Text.{Text, is_empty, trim_space}
use go_invoicing.Errors.{
  Result, ok, err, organisation_exists, organisation_version_conflict, organisation_name_required,
  organisation_email_invalid, organisation_vat_number_required, organisation_logo_invalid,
  organisation_logo_too_large,
}
use go_invoicing.Admin.{Uuid, Organisation}
use go_invoicing.Admin.User.{User}
use go_invoicing.Admin.Logo.{
  OrganisationLogo, max_organisation_logo_bytes, is_allowed_logo_content_type,
}
use go_invoicing.Store.{Db, Env, pure, throw_if, ◌>>=◌, ◌>>◌}
use go_invoicing.Store.Invoices.{is_none}
use go_invoicing.Store.Binds.{bind_keeps, throw_if_then}
use go_invoicing.Store.Parties.{get_organisation}
use go_invoicing.Store.Organisations.{
  insert_organisation, insert_settings, write_organisation, organisation_missing_or_stale,
  organisation_scanned, update_organisation_row, save_logo,
}
use go_invoicing.Service.Organisations.{
  create_organisation, update_organisation, update_read, patched, new_organisation,
  default_settings, set_logo, remove_logo, new_logo, UpdateOrganisationRequest, has_blank_name,
  has_bad_email,
}
use go_invoicing.Service.Organisations.Register.{register}
use go_invoicing.Service.Organisations.Laws.Whole.{IsWhole, register_is_whole}
use go_invoicing.Service.Organisations.Laws.Taxed.{
  IsTaxed, AreTaxed, inserted_taxed, settings_taxed, written_taxed, saved_taxed, cleared_taxed,
}
use go_invoicing.Service.Users.Laws.Creation.{get_organisation_same}

module _ (env : Env) where
  scanned_taxed :
      (org : Uuid) (o : Organisation) (w : Option Organisation) (db : Db)
      → AreTaxed db
      → AreTaxed (organisation_scanned env org o w db).1
  unfolding organisation_missing_or_stale
  scanned_taxed org o (some row) db a = a
  scanned_taxed org o none db a = elim (Bool-cases (env.fails organisation_exists)) [
    | inl down ↦ rw down a
    | inr up ↦ rw up a
  ]

  row_taxed :
      (org : Uuid) (o : Organisation) (expected : ℕ) (db : Db)
      → IsTaxed o
      → AreTaxed db
      → AreTaxed (update_organisation_row env org o expected db).1
  unfolding update_organisation_row
  row_taxed org o expected db t a =
      bind_keeps AreTaxed (write_organisation env org o expected) (organisation_scanned env org o)
        db (written_taxed env db org o expected t a) (λ w mid k. scanned_taxed org o w mid k)

  read_taxed :
      (org : Uuid) (expected : ℕ) (r : UpdateOrganisationRequest) (o : Organisation) (db : Db)
      → AreTaxed db
      → AreTaxed (update_read env org expected r o db).1
  read_taxed org expected r o db a =
      let Kept = λ (x : Result Organisation × Db). AreTaxed x.1 in
      let unnumbered = (patched r o).vat_registered && is_none (patched r o).tax_id in
      let write = update_organisation_row env org (patched r o) expected in
      let fourth = throw_if unnumbered organisation_vat_number_required >> write in
      let third = throw_if (has_bad_email env r.email) organisation_email_invalid >> fourth in
      let second = throw_if (has_blank_name r.name) organisation_name_required >> third in
      throw_if_then Kept (not (o.version == expected)) organisation_version_conflict second db a
        (λ _. throw_if_then Kept (has_blank_name r.name) organisation_name_required third db a (λ _.
          throw_if_then Kept (has_bad_email env r.email) organisation_email_invalid fourth db a
            (λ _.
              throw_if_then Kept unnumbered organisation_vat_number_required write db a
                (λ t. row_taxed org (patched r o) expected db t a))))

  update_taxed :
      (org : Uuid) (expected : ℕ) (r : UpdateOrganisationRequest) (db : Db)
      → AreTaxed db
      → AreTaxed (update_organisation env org expected r db).1
  unfolding update_organisation
  update_taxed org expected r db a =
      bind_keeps AreTaxed (get_organisation env org) (update_read env org expected r) db
        (rw (get_organisation_same env org db) a) (λ o mid k. read_taxed org expected r o mid k)

  create_taxed :
      (name : Text) (db : Db) → AreTaxed db → AreTaxed (create_organisation env name db).1
  unfolding create_organisation
  create_taxed name db a =
      let new = new_organisation env (trim_space name) in
      let last = λ (o : Organisation).
        insert_settings env (default_settings env env.new_id) >>= λ _. pure o in
      throw_if_then (λ (x : Result Organisation × Db). AreTaxed x.1) (is_empty (trim_space name))
        organisation_name_required (insert_organisation env new >>= last) db a
        (λ _.
          bind_keeps AreTaxed (insert_organisation env new) last db
            (inserted_taxed env db new refl a)
            (λ o mid k.
              bind_keeps AreTaxed (insert_settings env (default_settings env env.new_id))
                (λ _. pure o) mid (settings_taxed env mid (default_settings env env.new_id) k)
                (λ _ mid' k'. k')))

  logo_taxed :
      (org : Uuid) (bytes : List ℕ) (db : Db) → AreTaxed db → AreTaxed (set_logo env org bytes db).1
  unfolding set_logo
  logo_taxed org bytes db a =
      let Kept = λ (x : Result OrganisationLogo × Db). AreTaxed x.1 in
      let allowed = is_allowed_logo_content_type (env.detect_content_type bytes) in
      let save = save_logo env org (new_logo env org bytes) in
      let third = throw_if (not allowed) organisation_logo_invalid >> save in
      let large = ltb max_organisation_logo_bytes (length bytes) in
      throw_if_then Kept (length bytes == 0) organisation_logo_invalid
        (throw_if large organisation_logo_too_large >> third) db a
        (λ _. throw_if_then Kept large organisation_logo_too_large third db a (λ _.
          throw_if_then Kept (not allowed) organisation_logo_invalid save db a
            (λ _. saved_taxed env db org (new_logo env org bytes) a)))

  whole_taxed :
      (organisation_name name email password : Text) (agreed : Bool) (db : Db)
      (r : Result (Organisation × User)) (db' : Db)
      → AreTaxed db
      → IsWhole env organisation_name name email password agreed db (r, db')
      → AreTaxed db'
  whole_taxed o name email password agreed db (ok r) db' a w =
      rw w.written (All-append IsTaxed db.organisations _ a (refl, tt))
  whole_taxed o name email password agreed db (err e) db' a (inl same) = rw same a
  whole_taxed o name email password agreed db (err e) db' a (inr w) =
      rw w.written (All-append IsTaxed db.organisations _ a (refl, tt))

-- One call that writes organisations. `elsewhere` is any change of the other tables.
pub data OrganisationStep (db : Db) : Db → Type 0 where
  created : (env : Env) (name : Text) → OrganisationStep db (create_organisation env name db).1
  updated :
      (env : Env) (org : Uuid) (expected : ℕ) (r : UpdateOrganisationRequest)
      → OrganisationStep db (update_organisation env org expected r db).1
  logo_set :
      (env : Env) (org : Uuid) (bytes : List ℕ) → OrganisationStep db (set_logo env org bytes db).1
  logo_removed : (env : Env) (org : Uuid) → OrganisationStep db (remove_logo env org db).1
  registered :
      (env : Env) (organisation_name name email password : Text) (agreed : Bool)
      → OrganisationStep db (register env organisation_name name email password agreed db).1
  elsewhere : (db' : Db) → db'.organisations ≡ db.organisations → OrganisationStep db db'

pub data OrganisationSteps (db : Db) : Db → Type 0 where
  start : OrganisationSteps db db
  after :
      {mid last : Db}
      → OrganisationSteps db mid
      → OrganisationStep mid last
      → OrganisationSteps db last

step_taxed : {db db' : Db} → AreTaxed db → OrganisationStep db db' → AreTaxed db'
unfolding remove_logo
step_taxed a (OrganisationStep.created env name) = create_taxed env name _ a
step_taxed a (OrganisationStep.updated env org expected r) = update_taxed env org expected r _ a
step_taxed a (OrganisationStep.logo_set env org bytes) = logo_taxed env org bytes _ a
step_taxed a (OrganisationStep.logo_removed env org) = cleared_taxed env _ org a
step_taxed a (OrganisationStep.registered env o name email password agreed) =
    whole_taxed env o name email password agreed _ (register env o name email password agreed _).0 _
      a (register_is_whole env o name email password agreed _)
step_taxed a (OrganisationStep.elsewhere db' same) = rw same a

-- However many organisations are created, registered and edited, and logos set and removed, with
-- whatever outcomes and failures, every VAT registered organisation has its VAT number.
pub steps-AreTaxed : {db db' : Db} → AreTaxed db → OrganisationSteps db db' → AreTaxed db'
steps-AreTaxed a OrganisationSteps.start = a
steps-AreTaxed a (OrganisationSteps.after steps step) = step_taxed (steps-AreTaxed a steps) step
