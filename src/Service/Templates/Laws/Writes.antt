-- ===== src/Service/Templates/Laws/Writes.antt =====
-- The INSERT of a layout and the versioned UPDATE, by what they keep.
use mathlib.Core.Path.{subst}
use go_invoicing.Base.{sym, not, ◌&&◌}
use go_invoicing.Store.Invoices.{is_none}
use go_invoicing.Store.Views.{keep-appended}
use go_invoicing.Store.Keys.{DistinctBy-appended, find?-none-All}
use go_invoicing.Store.Templates.{insert_template}
use go_invoicing.Service.Templates.Laws.Rows.{content, IsKept-same, DistinctTemplates, only}
use go_invoicing.Base.{
  ℕ, ◌≡◌, refl, sym, true, false, Bool-cases, inl, inr, none, some, [], ◌∷◌, ◌++◌, All, find?,
  update_where, Option-cases, arith, ◌==◌,
}
use go_invoicing.Errors.{template_update, template_create, Result-cases}
use go_invoicing.Admin.{Uuid}
use go_invoicing.Base.Text.{Text}
use go_invoicing.Template.{Template}
use go_invoicing.Store.{Db, Env}
use go_invoicing.Store.Views.{keep-update_where, All-map}
use go_invoicing.Store.Invoices.{is_none}
use go_invoicing.Store.Templates.{
  is_default_of, is_system_of, template_row, is_current_template, edited_template, write_template,
  template_missing_or_stale, update_template_row,
}
use go_invoicing.Service.Templates.Laws.Rows.{defaults, IsKept, IsKept-updated}

-- A call that changes neither the defaults nor the Classic layout of any organisation.
pub record IsNeutral (org : Uuid) (before after : Db) : Type 0 where
  pub kept : IsKept org before after
  pub same : defaults after org ≡ defaults before org

pub IsNeutral-same : (org : Uuid) (db : Db) → DistinctTemplates db → IsNeutral org db db
IsNeutral-same org db d = record { kept = IsKept-same org db d; same = refl }

missing_changes_nothing :
    (env : Env) (org id : Uuid) (db : Db) → (template_missing_or_stale env org id db).1 ≡ db
unfolding template_missing_or_stale
missing_changes_nothing env org id db = ground arith

module _ (env : Env) (org id : Uuid) (name definition : Text) (e : ℕ) (db : Db) where
  module _ (x : Template) (f : template_row db org id ≡ some x) (user : x.is_system ≡ false)
      (d : DistinctTemplates db) where
    abbrev rewritten : Db
    rewritten = record db {
      templates =
          update_where (is_current_template org id e) (edited_template env name definition)
            db.templates;
    }

    current_is_x : All (λ t. is_current_template org id e t ≡ true → t ≡ x) db.templates
    current_is_x = All-map db.templates (λ t k h. k (ground arith)) (only org id db d f)

    rewritten-IsNeutral : IsNeutral org db rewritten
    rewritten-IsNeutral = record {
      kept =
          IsKept-updated org db (is_current_template org id e) (edited_template env name definition)
            (λ t. refl) (λ t. refl) (λ t h. ground arith) d
            (All-map db.templates
              (λ t k h.
                let s = k h in
                let u : t.is_system ≡ false = rw s user in (refl, λ y. absurd (ground arith)))
              current_is_x);
      same =
          keep-update_where (is_default_of org) (is_current_template org id e)
            (λ (t : Template). t.id) (edited_template env name definition) db.templates
            (All-map db.templates (λ t k h. (refl, λ y. refl)) current_is_x);
    }

    write_template-IsNeutral : IsNeutral org db (write_template env org id name definition e db).1
    unfolding write_template
    write_template-IsNeutral = elim (Bool-cases (env.fails template_update)) [
      | inl down ↦ rw down (IsNeutral-same org db d)
      | inr up ↦ elim (Option-cases (find? (is_current_template org id e) db.templates)) [
        | inl n ↦ rw (up, n) (IsNeutral-same org db d)
        | inr (t, g) ↦ rw (up, g) rewritten-IsNeutral
      ]
    ]

    -- A row that was not written is only looked for.
    update_row_db :
        (update_template_row env org id name definition e db).1
        ≡ (write_template env org id name definition e db).1
    unfolding update_template_row
    update_row_db = elim (Result-cases (write_template env org id name definition e db).0) [
      | inr (z, w) ↦ ground arith
      | inl (o, w) ↦ elim (Option-cases o) [
        | inr (t, k) ↦ ground arith
        | inl n ↦
            let m =
              missing_changes_nothing env org id
                (write_template env org id name definition e db).1 in
            ground (arith, m)
      ]
    ]

    pub update_row-IsNeutral :
        IsNeutral org db (update_template_row env org id name definition e db).1
    update_row-IsNeutral = subst (IsNeutral org db) (sym update_row_db) write_template-IsNeutral

module _ (env : Env) (t : Template) (db : Db) (d : DistinctTemplates db)
    (plain : t.is_default ≡ false) (user : t.is_system ≡ false) where
  abbrev inserted : Template
  inserted = record t {
    created_at = env.db_now;
    updated_at = env.db_now;
    deleted_at = none;
    version = 1;
  }

  abbrev grown : Db
  grown = record db { templates = db.templates ++ (inserted ∷ []) }

  grown-IsNeutral :
      find? (λ x. x.id == t.id) db.templates ≡ none → IsNeutral t.organisation_id db grown
  grown-IsNeutral n = record {
    kept = record {
      distinct =
          DistinctBy-appended (λ (x : Template). x.id) db.templates inserted
            (find?-none-All (λ (x : Template). x.id == t.id) db.templates n) d;
      classic = λ o. keep-appended (is_system_of o) content db.templates inserted (ground arith);
      others = λ o differs.
          keep-appended (is_default_of o) (λ (x : Template). x.id) db.templates inserted
            (ground arith);
    };
    same =
        keep-appended (is_default_of t.organisation_id) (λ (x : Template). x.id) db.templates
          inserted (ground arith);
  }

  guard :
      (t.is_default && not (is_none (find? (is_default_of t.organisation_id) db.templates))) ≡ false
  guard = rw plain refl

  pub insert-IsNeutral : IsNeutral t.organisation_id db (insert_template env t db).1
  unfolding insert_template
  insert-IsNeutral = elim (Bool-cases (env.fails template_create)) [
    | inl down ↦ rw down (IsNeutral-same t.organisation_id db d)
    | inr up ↦ elim (Option-cases (find? (λ x. x.id == t.id) db.templates)) [
      | inr (y, g) ↦ rw (up, g) (IsNeutral-same t.organisation_id db d)
      | inl n ↦ rw (up, n, guard) (grown-IsNeutral n)
    ]
  ]
