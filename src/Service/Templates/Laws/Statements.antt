-- ===== src/Service/Templates/Laws/Statements.antt =====
-- The statements of template_repository_postgres.go, by what they keep.
use go_invoicing.Base.{
  List-cases, List, Bool, ◌≡◌, ◌∙◌, refl, ap, true, false, inl, inr, some, [], ◌∷◌, keep, map,
  update_where, Option-cases, arith,
}
use go_invoicing.Errors.{ok}
use go_invoicing.Admin.{Uuid}
use go_invoicing.Template.{Template}
use go_invoicing.Store.{Db, Env}
use go_invoicing.Store.Rows.{find?-test}
use go_invoicing.Store.Views.{keep-update_where, All-every, All-map, keep-cleared, keep-marked}
use go_invoicing.Store.Templates.{
  is_default_of, is_template, template_row, deleted_template, soft_delete, with_default,
  unset_default, set_default_flag,
}
use go_invoicing.Service.Templates.Laws.Rows.{
  DistinctTemplates, defaults, template_id, only, IsKept, IsKept-updated,
}

live_org : (org id : Uuid) (t : Template) → is_template org id t ≡ true → t.organisation_id ≡ org
live_org org id t h = ground arith

no_rows :
    (p : Template → Bool) (ts : List Template)
    → map (λ (t : Template). t.id) (keep p ts) ≡ []
    → keep p ts ≡ []
no_rows p ts h = elim (List-cases (keep p ts)) [
  | inl e ↦ e
  | inr (t, rest, e) ↦
      absurd (let z : t.id ∷ map (λ (s : Template). s.id) rest ≡ [] = rw e at h in ground arith)
]

module _ (env : Env) (org id : Uuid) (db : Db) where
  abbrev removed : Db
  removed = record db {
    templates = update_where (is_template org id) (deleted_template env) db.templates;
  }

  abbrev cleared : Db
  cleared = record db {
    templates = update_where (is_default_of org) (with_default env false) db.templates;
  }

  abbrev marked : Db
  marked = record db {
    templates = update_where (is_template org id) (with_default env true) db.templates;
  }

  soft_delete-db : (db' : Db) → soft_delete env org id db ≡ (ok tt, db') → removed ≡ db'
  unfolding soft_delete
  soft_delete-db db' h = ground arith

  set_default_flag-db :
      (db' : Db)
      → set_default_flag env org id db ≡ (ok tt, db')
      → ((t : Template) × (template_row db org id ≡ some t)) × (marked ≡ db')
  unfolding set_default_flag
  set_default_flag-db db' h = elim (Option-cases (template_row db org id)) [
    | inl n ↦ absurd (ground arith)
    | inr (t, f) ↦ ((t, f), ground arith)
  ]

  unset_default-db : (db' : Db) → unset_default env org db ≡ (ok tt, db') → cleared ≡ db'
  unfolding unset_default
  unset_default-db db' h = ground arith

  -- The deletion of a layout that is not Classic.
  pub soft_delete_ok :
      (db' : Db) (x : Template)
      → DistinctTemplates db
      → template_row db org id ≡ some x
      → x.is_system ≡ false
      → soft_delete env org id db ≡ (ok tt, db')
      → IsKept org db db' × (x.is_default ≡ false → defaults db' org ≡ defaults db org)
  soft_delete_ok db' x d f user h = rw (← soft_delete-db db' h) (
    IsKept-updated org db (is_template org id) (deleted_template env) (λ t. refl) (λ t. refl)
        (live_org org id) d
        (All-map db.templates
          (λ t e k.
            let u : t.is_system ≡ false = rw (e k) user in
            (ground arith, λ y. absurd (ground arith)))
          (only org id db d f)),
    λ plain.
        keep-update_where (is_default_of org) (is_template org id) (λ (t : Template). t.id)
          (deleted_template env) db.templates
          (All-map db.templates
            (λ t e k.
              let u : t.is_default ≡ false = rw (e k) plain in
              (ground arith, λ y. absurd (ground arith)))
            (only org id db d f)),
  )

  pub unset_default_ok :
      (db' : Db)
      → DistinctTemplates db
      → unset_default env org db ≡ (ok tt, db')
      → IsKept org db db' × (defaults db' org ≡ [])
  unset_default_ok db' d h = rw (← unset_default-db db' h) (
    IsKept-updated org db (is_default_of org) (with_default env false) (λ t. refl) (λ t. refl)
        (λ t k. ground arith) d (All-every _ db.templates (λ t k. (refl, λ y. refl))),
    ap (map (λ (t : Template). t.id)) (
        keep-cleared (is_default_of org) (with_default env false) db.templates (λ t. ground arith)),
  )

  marked-defaults :
      (t : Template)
      → DistinctTemplates db
      → template_row db org id ≡ some t
      → defaults db org ≡ []
      → defaults marked org ≡ id ∷ []
  marked-defaults t d f n =
      let hit = find?-test (is_template org id) db.templates f in
      ap (map (λ (s : Template). s.id)) (
        keep-marked (λ (s : Template). s.id) id (is_template org id) (template_id org id)
          (is_default_of org) (with_default env true) db.templates d f
          (no_rows (is_default_of org) db.templates n) (ground arith))
      ∙ ap (λ z. z ∷ []) (template_id org id t hit)

  pub set_default_flag_ok :
      (db' : Db)
      → DistinctTemplates db
      → set_default_flag env org id db ≡ (ok tt, db')
      → IsKept org db db' × (defaults db org ≡ [] → defaults db' org ≡ id ∷ [])
  set_default_flag_ok db' d h =
      let ((t, f), w) = set_default_flag-db db' h in
      rw (← w) (
        IsKept-updated org db (is_template org id) (with_default env true) (λ t. refl) (λ t. refl)
            (live_org org id) d (All-every _ db.templates (λ t k. (refl, λ y. refl))),
        marked-defaults t d f,
      )
