-- ===== src/Examples/Templates.antt =====
-- The theorems on layouts, at the organisation 1 with its Classic layout and one of its own.
use go_invoicing.Store.Templates.{
  soft_delete, set_default_flag, unset_default, set_default_row, get_template,
}
use go_invoicing.Base.{◌≡◌, refl, true, false, [], ◌∷◌, arith}
use go_invoicing.Base.Text.{codes}
use go_invoicing.Template.{Template}
use go_invoicing.Errors.{Result, ok}
use go_invoicing.Store.{Db, in_tx}
use go_invoicing.Service.Templates.{set_default, delete_template, delete_existing, revert_default}
use go_invoicing.Service.Templates.Laws.Rows.{DistinctTemplates, defaults}
use go_invoicing.Service.Templates.Laws.Steps.{
  TemplateStep, TemplateSteps, IsTended, templates-IsTended,
}
use go_invoicing.Examples.Data.{env, db, template}

abbrev own_template : Template
own_template = record template {
  id = 22;
  name = codes "Wide";
  is_default = false;
  is_system = false;
}

abbrev two_templates : Db
two_templates = record db { templates = template ∷ own_template ∷ [] }

abbrev chosen_db : Db
chosen_db = record db {
  templates =
      record template { is_default = false; updated_at = env.db_now }
      ∷ record own_template { is_default = true; updated_at = env.db_now }
      ∷ [];
}

distinct_two : DistinctTemplates two_templates
distinct_two = ((λ e. absurd (ground arith), tt), (tt, tt))

chooses : ◌≡◌ {A = Result (Unit {0}) × Db} (set_default env 1 22 two_templates) (ok tt, chosen_db)
unfolding set_default get_template set_default_row unset_default set_default_flag
chooses = refl

abbrev choose_and_delete : TemplateSteps two_templates (delete_template env 1 22 chosen_db).1
choose_and_delete =
    TemplateSteps.then (TemplateStep.chosen env 1 22 chooses)
      (TemplateSteps.then (TemplateStep.deleted env 1 22) TemplateSteps.done)

-- A SetDefault between the read of a Delete and its writes: the layout was no default when it was
-- read, so its deletion reverts to no other, and the organisation is left without a default.
overtaken : defaults (in_tx env (delete_existing env 1 22 own_template) chosen_db).1 1 ≡ []
unfolding in_tx soft_delete revert_default
overtaken = refl

templates-IsTended_example : IsTended two_templates (delete_template env 1 22 chosen_db).1
templates-IsTended_example = templates-IsTended choose_and_delete distinct_two
