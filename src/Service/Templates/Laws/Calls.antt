-- ===== src/Service/Templates/Laws/Calls.antt =====
-- The calls of TemplateService on the default and the Classic layouts.
use go_invoicing.Store.{◌>>◌, throw_if}
use go_invoicing.Store.Binds.{throw_if_ok, bind_ok}
use go_invoicing.Base.{
  Option-cases, ◌≡◌, ◌∙◌, refl, sym, ap, Bool, true, false, Bool-cases, inl, inr, some, [], ◌∷◌,
  length, arith,
}
use go_invoicing.Errors.{template_is_system_cannot_be_deleted, ok}
use go_invoicing.Admin.{Uuid}
use go_invoicing.Template.{Template}
use go_invoicing.Store.{Db, Env, in_tx, in_tx_changes}
use go_invoicing.Store.Templates.{
  template_row, get_template, get_system_template, soft_delete, unset_default, set_default_flag,
  set_default_row,
}
use go_invoicing.Service.Templates.{
  delete_existing, revert_default, delete_body, delete_template, set_default,
}
use go_invoicing.Service.Templates.Laws.Rows.{
  DistinctTemplates, defaults, IsKept, IsKept-same, IsKept-twice,
}
use go_invoicing.Service.Templates.Laws.Statements.{
  soft_delete_ok, set_default_flag_ok, unset_default_ok,
}

pub get_template_ok :
    (env : Env) (org id : Uuid) (db : Db) {t : Template}
    → (get_template env org id db).0 ≡ ok t
    → template_row db org id ≡ some t
unfolding get_template
get_template_ok env org id db h = ground arith

pub get_template_db : (env : Env) (org id : Uuid) (db : Db) → (get_template env org id db).1 ≡ db
unfolding get_template
get_template_db env org id db = ground arith

get_system_db : (env : Env) (org : Uuid) (db : Db) → (get_system_template env org db).1 ≡ db
unfolding get_system_template
get_system_db env org db = ground arith

-- Both statements of SetDefault.
pub set_default_row_ok :
    (env : Env) (org id : Uuid) (db db' : Db)
    → DistinctTemplates db
    → set_default_row env org id db ≡ (ok tt, db')
    → IsKept org db db' × (defaults db' org ≡ id ∷ [])
unfolding set_default_row
set_default_row_ok env org id db db' d h =
    let (u, mid, first, second) =
      bind_ok (unset_default env org) (λ _. set_default_flag env org id) db h in
    let (k, none') = unset_default_ok env org id db mid d first in
    let (m, marks) = set_default_flag_ok env org id mid db' k.distinct second in
    (IsKept-twice org db mid db' k m, marks none')

-- SetDefault, when it reports success, makes the layout the only default of the organisation, and
-- keeps the defaults of the other organisations and every Classic layout.
pub set_default_ok :
    (env : Env) (org id : Uuid) (db db' : Db)
    → DistinctTemplates db
    → set_default env org id db ≡ (ok tt, db')
    → (defaults db' org ≡ id ∷ []) × IsKept org db db'
unfolding set_default
set_default_ok env org id db db' d h =
    let (t, mid, first, second) =
      bind_ok (get_template env org id) (λ _. set_default_row env org id) db h in
    let same : mid ≡ db = sym (ap (λ r. r.1) first) ∙ get_template_db env org id db in
    let (k, only') = set_default_row_ok env org id db db' d (rw same at second) in (only', k)

-- The organisation's default after a layout that was the default is deleted: its Classic one.
revert_default_ok :
    (env : Env) (org : Uuid) (was : Bool) (db db' : Db)
    → DistinctTemplates db
    → revert_default env org was db ≡ (ok tt, db')
    → IsKept org db db'
      × (was ≡ true → length (defaults db' org) ≡ 1)
      × (was ≡ false → defaults db' org ≡ defaults db org)
unfolding revert_default
revert_default_ok env org false db db' d h =
    let e : db ≡ db' = ap (λ r. r.1) h in
    rw (← e) (IsKept-same org db d, λ y. absurd (ground arith), λ y. refl)
revert_default_ok env org true db db' d h =
    let (s, mid, first, second) =
      bind_ok (get_system_template env org) (λ s. set_default_row env org s.id) db h in
    let same : mid ≡ db = sym (ap (λ r. r.1) first) ∙ get_system_db env org db in
    let (k, only') = set_default_row_ok env org s.id db db' d (rw same at second) in
    (k, λ y. ap length only', λ y. absurd (ground arith))

delete_existing_ok :
    (env : Env) (org id : Uuid) (t : Template) (db db' : Db)
    → DistinctTemplates db
    → template_row db org id ≡ some t
    → delete_existing env org id t db ≡ (ok tt, db')
    → IsKept org db db' × (length (defaults db org) ≡ 1 → length (defaults db' org) ≡ 1)
delete_existing_ok env org id t db db' d f h =
    let (u₁, db₁, h₁, k₁) =
      bind_ok (throw_if t.is_system template_is_system_cannot_be_deleted)
        (λ _. soft_delete env org id >> revert_default env org t.is_default) db h in
    let (user, same) = throw_if_ok t.is_system template_is_system_cannot_be_deleted db h₁ in
    let (u₂, db₂, h₂, k₂) =
      bind_ok (soft_delete env org id) (λ _. revert_default env org t.is_default) db
        (rw same at k₁) in
    let (kept, plain) = soft_delete_ok env org id db db₂ t d f user h₂ in
    let (kept', one, zero') = revert_default_ok env org t.is_default db₂ db' kept.distinct k₂ in
    (
      IsKept-twice org db db₂ db' kept kept',
      λ n. elim (Bool-cases t.is_default) [
        | inl was ↦ one was
        | inr other ↦ ap length (zero' other ∙ plain other) ∙ n
      ],
    )

delete_body_ok :
    (env : Env) (org id : Uuid) (db db' : Db)
    → DistinctTemplates db
    → delete_body env org id db ≡ (ok tt, db')
    → IsKept org db db' × (length (defaults db org) ≡ 1 → length (defaults db' org) ≡ 1)
unfolding delete_body
delete_body_ok env org id db db' d h =
    let (t, mid, first, second) =
      bind_ok (get_template env org id) (delete_existing env org id) db h in
    let same : mid ≡ db = sym (ap (λ r. r.1) first) ∙ get_template_db env org id db in
    let f = get_template_ok env org id db (ap (λ r. r.0) first) in
    delete_existing_ok env org id t db db' d f (rw same at second)

-- The writes of Delete look at two flags of the layout that it read.
delete_existing_same :
    (env : Env) (org id : Uuid) (s t : Template)
    → s.is_system ≡ t.is_system
    → s.is_default ≡ t.is_default
    → (db : Db) → delete_existing env org id s db ≡ delete_existing env org id t db
delete_existing_same env org id s t e k db = rw (e, k) refl

-- A live layout still has these flags.
abbrev pub IsCurrent : Uuid → Uuid → Template → Db → Type 0
IsCurrent org id s db =
    (t : Template)
    → template_row db org id ≡ some t
    → (s.is_system ≡ t.is_system) × (s.is_default ≡ t.is_default)

-- A layout that is gone is not deleted once more.
soft_delete_found :
    (env : Env) (org id : Uuid) (db : Db)
    → (soft_delete env org id db).0 ≡ ok tt
    → (t : Template) × (template_row db org id ≡ some t)
unfolding soft_delete
soft_delete_found env org id db h = elim (Option-cases (template_row db org id)) [
  | inl gone ↦ absurd (ground arith)
  | inr found ↦ found
]

late_delete_ok :
    (env : Env) (org id : Uuid) (s : Template) (db db' : Db)
    → DistinctTemplates db
    → IsCurrent org id s db
    → delete_existing env org id s db ≡ (ok tt, db')
    → IsKept org db db' × (length (defaults db org) ≡ 1 → length (defaults db' org) ≡ 1)
late_delete_ok env org id s db db' d current h =
    let (u₁, db₁, h₁, k₁) =
      bind_ok (throw_if s.is_system template_is_system_cannot_be_deleted)
        (λ _. soft_delete env org id >> revert_default env org s.is_default) db h in
    let (user, same) = throw_if_ok s.is_system template_is_system_cannot_be_deleted db h₁ in
    let (u₂, db₂, h₂, k₂) =
      bind_ok (soft_delete env org id) (λ _. revert_default env org s.is_default) db
        (rw same at k₁) in
    let (t, f) = soft_delete_found env org id db (ap (λ r. r.0) h₂) in
    let (e, k) = current t f in
    delete_existing_ok env org id t db db' d f
      (sym (delete_existing_same env org id s t e k db) ∙ h)

-- Delete with a layout that it had read before, while the flags of that layout are still the same.
pub late_delete_keeps :
    (env : Env) (org id : Uuid) (s : Template) (db : Db)
    → DistinctTemplates db
    → IsCurrent org id s db
    → let after = (in_tx env (delete_existing env org id s) db).1 in
      IsKept org db after × (length (defaults db org) ≡ 1 → length (defaults after org) ≡ 1)
late_delete_keeps env org id s db d current =
    elim (in_tx_changes env (delete_existing env org id s) db) [
      | inl e ↦ rw e (IsKept-same org db d, λ n. n)
      | inr (u, r, e) ↦ rw e (
          late_delete_ok env org id s db (delete_existing env org id s db).1 d current
            (ap (λ x. (x, (delete_existing env org id s db).1)) r))
    ]

-- Delete, whatever it returns and whichever of its database calls fail: every organisation that had
-- one default layout still has one, every Classic layout is there as before, and so are the other
-- organisations' defaults.
pub delete_template_keeps :
    (env : Env) (org id : Uuid) (db : Db)
    → DistinctTemplates db
    → IsKept org db (delete_template env org id db).1
      × (length (defaults db org) ≡ 1 → length (defaults (delete_template env org id db).1 org) ≡ 1)
unfolding delete_template
delete_template_keeps env org id db d = elim (in_tx_changes env (delete_body env org id) db) [
  | inl e ↦ rw e (IsKept-same org db d, λ n. n)
  | inr (u, r, e) ↦ rw e (
      delete_body_ok env org id db (delete_body env org id db).1 d
        (ap (λ x. (x, (delete_body env org id db).1)) r))
]
