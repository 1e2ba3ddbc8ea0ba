-- ===== src/Service/Templates/Laws/Gap.antt =====
-- SetDefault between its two statements.
use go_invoicing.Base.{◌≡◌, refl, ap, true, false, some, [], map, update_where, arith}
use go_invoicing.Errors.{
  ok, Result, err, internal, template_get, template_unset_default, template_set_default,
}
use go_invoicing.Admin.{Uuid}
use go_invoicing.Template.{Template}
use go_invoicing.Store.{Db, Env}
use go_invoicing.Store.Views.{keep-cleared}
use go_invoicing.Store.Templates.{
  template_row, is_default_of, with_default, get_template, unset_default, set_default_flag,
  set_default_row,
}
use go_invoicing.Service.Templates.{set_default}
use go_invoicing.Service.Templates.Laws.Rows.{defaults}

-- What the first statement leaves.
abbrev pub no_default : Env → Uuid → Db → Db
no_default env org db = record db {
  templates = update_where (is_default_of org) (with_default env false) db.templates;
}

module _ (env : Env) (org id : Uuid) (db : Db) (t : Template)
    (found : template_row db org id ≡ some t) (up : env.fails template_get ≡ false)
    (up' : env.fails template_unset_default ≡ false)
    (down : env.fails template_set_default ≡ true) where
  reads : ◌≡◌ {A = Result Template × Db} (get_template env org id db) (ok t, db)
  unfolding get_template
  reads = rw (up, found) refl

  clears :
      ◌≡◌ {A = Result (Unit {0}) × Db} (unset_default env org db) (ok tt, no_default env org db)
  unfolding unset_default
  clears = rw up' refl

  breaks :
      ◌≡◌ {A = Result (Unit {0}) × Db}
        (set_default_flag env org id (no_default env org db))
        (err (internal template_set_default), no_default env org db)
  unfolding set_default_flag
  breaks = rw down refl

  stops :
      ◌≡◌ {A = Result (Unit {0}) × Db}
        (set_default env org id db)
        (err (internal template_set_default), no_default env org db)
  unfolding set_default set_default_row
  stops =
      let r₀ = ap (λ x. x.0) reads in
      let r₁ = ap (λ x. x.1) reads in
      let c₀ = ap (λ x. x.0) clears in
      let c₁ = ap (λ x. x.1) clears in
      let b₀ = ap (λ x. x.0) breaks in
      let b₁ = ap (λ x. x.1) breaks in ground (arith, r₀, r₁, c₀, c₁, b₀, b₁)

-- SetDefault of a live layout whose second statement fails reports that failure and has already taken
-- the default away: the organisation then has no default layout.
pub set_default_gap :
    (env : Env) (org id : Uuid) (db : Db) (t : Template)
    → template_row db org id ≡ some t
    → env.fails template_get ≡ false
    → env.fails template_unset_default ≡ false
    → env.fails template_set_default ≡ true
    → ((set_default env org id db).0 ≡ err (internal template_set_default))
      × (defaults (set_default env org id db).1 org ≡ [])
set_default_gap env org id db t found up up' down =
    let s = stops env org id db t found up up' down in
    let s₁ = ap (λ x. x.1) s in
    (
      ap (λ x. x.0) s,
      rw s₁ (
          ap (map (λ (t : Template). t.id)) (
            keep-cleared (is_default_of org) (with_default env false) db.templates
              (λ t. ground arith))),
    )
