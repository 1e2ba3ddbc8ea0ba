-- ===== src/Examples/Organisations.antt =====
-- The theorems on organisations and registration, at a new organisation 200.
use go_invoicing.Base.{refl, none, some}
use go_invoicing.Base.Text.{codes}
use go_invoicing.Service.Organisations.{update_organisation, UpdateOrganisationRequest}
use go_invoicing.Service.Organisations.Laws.Taxed.{AreTaxed}
use go_invoicing.Service.Organisations.Laws.TaxSteps.{
  OrganisationStep, OrganisationSteps, steps-AreTaxed,
}
use go_invoicing.Store.{Db}
use go_invoicing.Examples.Data.{env, db}

abbrev patch : UpdateOrganisationRequest
patch = record {
  name = none;
  email = none;
  phone = none;
  website = none;
  address = none;
  city = some (codes "Cork");
  state = none;
  postal_code = none;
  country = none;
  tax_id = none;
  vat_registered = none;
}

abbrev patched_db : Db
patched_db = (update_organisation env 1 1 patch db).1

steps-AreTaxed_example : AreTaxed patched_db
steps-AreTaxed_example =
    steps-AreTaxed {db = db} {db' = patched_db} (refl, tt)
      (OrganisationSteps.after OrganisationSteps.start (OrganisationStep.updated env 1 1 patch))
