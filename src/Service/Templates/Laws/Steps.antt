-- ===== src/Service/Templates/Laws/Steps.antt =====
-- Any sequence of calls of TemplateService, of any organisations.
use go_invoicing.Base.{ℕ, ◌≡◌, ◌∙◌, refl, ap, Bool-cases, inl, inr, length, ◌==◌, arith}
use go_invoicing.Base.Text.{Text}
use go_invoicing.Errors.{ok}
use go_invoicing.Admin.{Uuid}
use go_invoicing.Template.{Template}
use go_invoicing.Store.{Db, Env, in_tx}
use go_invoicing.Store.Templates.{set_default_row}
use go_invoicing.Service.Templates.{
  create_template, update_template, delete_existing, delete_template, set_default,
}
use go_invoicing.Service.Templates.Laws.Rows.{DistinctTemplates, defaults, systems, IsKept}
use go_invoicing.Service.Templates.Laws.Calls.{
  IsCurrent, delete_template_keeps, late_delete_keeps, set_default_ok, set_default_row_ok,
}
use go_invoicing.Service.Templates.Laws.Edits.{create_template_keeps, update_template_keeps}

-- One call, with any outcome and any failures; of SetDefault, one that succeeds. Delete and SetDefault
-- take no lock for their first read, and calls of others may have come between it and the writes:
-- `deleted_late` and `chosen_late` are the writes that follow such a read.
pub data TemplateStep : Db → Db → Type 0 where
  created :
      {db : Db} (env : Env) (org : Uuid) (name definition : Text)
      → TemplateStep db (create_template env org name definition db).1
  updated :
      {db : Db} (env : Env) (org id : Uuid) (name definition : Text) (expected : ℕ)
      → TemplateStep db (update_template env org id name definition expected db).1
  deleted :
      {db : Db} (env : Env) (org id : Uuid) → TemplateStep db (delete_template env org id db).1
  chosen :
      {db db' : Db} (env : Env) (org id : Uuid)
      → set_default env org id db ≡ (ok tt, db')
      → TemplateStep db db'
  deleted_late :
      {db : Db} (env : Env) (org id : Uuid) (existing : Template)
      → IsCurrent org id existing db
      → TemplateStep db (in_tx env (delete_existing env org id existing) db).1
  chosen_late :
      {db db' : Db} (env : Env) (org id : Uuid)
      → set_default_row env org id db ≡ (ok tt, db')
      → TemplateStep db db'

pub data TemplateSteps : Db → Db → Type 0 where
  done : {db : Db} → TemplateSteps db db
  then : {a b c : Db} → TemplateStep a b → TemplateSteps b c → TemplateSteps a c

-- One default where there was one, and the same Classic layout.
pub record IsTended (before after : Db) : Type 0 where
  pub distinct : DistinctTemplates after
  pub classic : (o : Uuid) → systems after o ≡ systems before o
  pub one_default : (o : Uuid) → length (defaults before o) ≡ 1 → length (defaults after o) ≡ 1

tended :
    (org : Uuid) (before after : Db)
    → IsKept org before after
    → (length (defaults before org) ≡ 1 → length (defaults after org) ≡ 1)
    → IsTended before after
tended org before after k own = record {
  distinct = k.distinct;
  classic = k.classic;
  one_default = λ o n. elim (Bool-cases (o == org)) [
    | inl same ↦ let e : o ≡ org = ground arith in rw e (own (rw e at n))
    | inr differs ↦ ap length (k.others o differs) ∙ n
  ];
}

step-IsTended : {a b : Db} → TemplateStep a b → DistinctTemplates a → IsTended a b
step-IsTended {a} (created env org name definition) d =
    let x = create_template_keeps env org name definition a d in
    tended org a _ x.kept (λ n. ap length x.same ∙ n)
step-IsTended {a} (updated env org id name definition expected) d =
    let x = update_template_keeps env org id name definition expected a d in
    tended org a _ x.kept (λ n. ap length x.same ∙ n)
step-IsTended {a} (deleted env org id) d =
    let x = delete_template_keeps env org id a d in tended org a _ x.0 x.1
step-IsTended {a} {b} (chosen env org id h) d =
    let x = set_default_ok env org id a b d h in tended org a b x.1 (λ n. ap length x.0)
step-IsTended {a} (deleted_late env org id existing current) d =
    let x = late_delete_keeps env org id existing a d current in tended org a _ x.0 x.1
step-IsTended {a} {b} (chosen_late env org id h) d =
    let x = set_default_row_ok env org id a b d h in tended org a b x.0 (λ n. ap length x.1)

-- However many calls of Create, Update, Delete, and SetDefault where it succeeds, of whatever
-- organisations and with whatever failures: an organisation with exactly one default layout keeps
-- exactly one, and its Classic layout keeps its identifier, name and definition and is not deleted.
-- The writes of a call follow one another. Other calls may come between the first read of a Delete or
-- a SetDefault and its writes, if the layout that a Delete then deletes still is, or is not, the
-- default as it was when it was read.
pub templates-IsTended : {a b : Db} → TemplateSteps a b → DistinctTemplates a → IsTended a b
templates-IsTended done d = record { distinct = d; classic = λ o. refl; one_default = λ o n. n }
templates-IsTended (then s rest) d =
    let x = step-IsTended s d in
    let y = templates-IsTended rest x.distinct in
    record {
      distinct = y.distinct;
      classic = λ o. y.classic o ∙ x.classic o;
      one_default = λ o n. y.one_default o (x.one_default o n);
    }
