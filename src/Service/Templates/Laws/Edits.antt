-- ===== src/Service/Templates/Laws/Edits.antt =====
-- Create and Update on the defaults and the Classic layouts.
use go_invoicing.Base.{some, ℕ, ◌≡◌, ◌∙◌, refl, sym, inl, inr, false, true, Bool, Bool-cases, arith}
use mathlib.Core.Path.{subst}
use go_invoicing.Base.Text.{Text}
use go_invoicing.Errors.{ok, template_is_system_cannot_be_deleted}
use go_invoicing.Admin.{Uuid}
use go_invoicing.Template.{Template}
use go_invoicing.Store.{Db, Env, M, pure, throw_if, ◌>>=◌}
use go_invoicing.Store.Binds.{bind_cases}
use go_invoicing.Store.Templates.{template_row, get_template, insert_template, update_template_row}
use go_invoicing.Service.Templates.{
  merged_template, new_template, validate_name_and_definition, create_template, update_existing,
  update_template,
}
use go_invoicing.Service.Templates.Laws.Rows.{DistinctTemplates, IsKept-twice}
use go_invoicing.Service.Templates.Laws.Writes.{
  IsNeutral, IsNeutral-same, update_row-IsNeutral, insert-IsNeutral,
}
use go_invoicing.Service.Templates.Laws.Calls.{get_template_ok, get_template_db}

IsNeutral-twice :
    (org : Uuid) (a b c : Db) → IsNeutral org a b → IsNeutral org b c → IsNeutral org a c
IsNeutral-twice org a b c x y = record {
  kept = IsKept-twice org a b c x.kept y.kept;
  same = y.same ∙ x.same;
}

IsNeutral-bind {ℓ κ} :
    {A : Type ℓ} {B : Type κ} (org : Uuid) (m : M A) (f : A → M B) (db : Db)
    → IsNeutral org db (m db).1
    → ((a : A) → (m db).0 ≡ ok a → IsNeutral org (m db).1 (f a (m db).1).1)
    → IsNeutral org db ((m >>= f) db).1
IsNeutral-bind org m f db x next = elim (bind_cases m f db) [
  | inl (a, e, h) ↦
      subst (λ r. IsNeutral org db r.1) (sym h)
        (IsNeutral-twice org db (m db).1 (f a (m db).1).1 x (next a e))
  | inr (z, e, h) ↦ subst (λ r. IsNeutral org db r.1) (sym h) x
]

-- A call that leaves the database alone.
IsNeutral-read {ℓ} :
    {A : Type ℓ} (org : Uuid) (m : M A) (db : Db)
    → DistinctTemplates db
    → (m db).1 ≡ db
    → IsNeutral org db (m db).1
IsNeutral-read org m db d e = rw e (IsNeutral-same org db d)

validate_db :
    (name definition : Text) (db : Db) → (validate_name_and_definition name definition db).1 ≡ db
unfolding validate_name_and_definition
validate_db name definition db = ground arith

throw_if_db : (c : Bool) (db : Db) → (throw_if c template_is_system_cannot_be_deleted db).1 ≡ db
throw_if_db true db = refl
throw_if_db false db = refl

-- Create changes no default and no Classic layout, whatever it returns.
pub create_template_keeps :
    (env : Env) (org : Uuid) (name definition : Text) (db : Db)
    → DistinctTemplates db
    → IsNeutral org db (create_template env org name definition db).1
unfolding create_template
create_template_keeps env org name definition db d =
    let v =
      IsNeutral-read org (validate_name_and_definition name definition) db d
        (validate_db name definition db) in
    IsNeutral-bind org (validate_name_and_definition name definition)
      (λ n. insert_template env (new_template env org definition n)) db v
      (λ n e.
        insert-IsNeutral env (new_template env org definition n)
          (validate_name_and_definition name definition db).1 v.kept.distinct refl refl)

update_existing_keeps :
    (env : Env) (org id : Uuid) (name definition : Text) (expected : ℕ) (t : Template) (db : Db)
    → DistinctTemplates db
    → template_row db org id ≡ some t
    → IsNeutral org db (update_existing env org id name definition expected t db).1
update_existing_keeps env org id name definition expected t db d f =
    IsNeutral-bind org (throw_if t.is_system template_is_system_cannot_be_deleted)
      (λ u.
        update_template_row env org id name definition expected >>= λ s. pure (merged_template t s))
      db
      (IsNeutral-read org (throw_if t.is_system template_is_system_cannot_be_deleted) db d
        (throw_if_db t.is_system db))
      (λ u e. rw (throw_if_db t.is_system db) (elim (Bool-cases t.is_system) [
        | inl classic ↦ absurd (ground arith)
        | inr user ↦
            let w = update_row-IsNeutral env org id name definition expected db t f user d in
            IsNeutral-bind org (update_template_row env org id name definition expected)
              (λ s. pure (merged_template t s)) db w (λ s g. IsNeutral-same org _ w.kept.distinct)
      ]))

-- Update changes no default and no Classic layout, whatever it returns.
pub update_template_keeps :
    (env : Env) (org id : Uuid) (name definition : Text) (expected : ℕ) (db : Db)
    → DistinctTemplates db
    → IsNeutral org db (update_template env org id name definition expected db).1
unfolding update_template
update_template_keeps env org id name definition expected db d =
    let v =
      IsNeutral-read org (validate_name_and_definition name definition) db d
        (validate_db name definition db) in
    let mid = (validate_name_and_definition name definition db).1 in
    IsNeutral-bind org (validate_name_and_definition name definition)
      (λ n. get_template env org id >>= update_existing env org id n definition expected) db v
      (λ n e.
        IsNeutral-bind org (get_template env org id)
          (update_existing env org id n definition expected) mid
          (IsNeutral-read org (get_template env org id) mid v.kept.distinct
            (get_template_db env org id mid))
          (λ t g.
            let f = get_template_ok env org id mid g in
            let same = get_template_db env org id mid in
            rw same
              (update_existing_keeps env org id n definition expected t mid v.kept.distinct f)))
