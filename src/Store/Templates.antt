-- ===== src/Store/Templates.antt =====
-- Reads and writes of the table `invoice_templates` (template_repository_postgres.go).
use go_invoicing.Base.{
  ℕ, suc, Bool, true, false, not, ◌&&◌, Option, none, some, List, [], ◌∷◌, ◌++◌, find?, keep,
  update_where, ltb, ◌==◌, if◌then◌else◌,
}
use go_invoicing.Base.Text.{Text, codes}
use go_invoicing.Base.Time.{zero_time}
use go_invoicing.Errors.{
  Site, ok, err, or_fail, internal, template_default, template_get, template_create,
  template_update, template_delete, template_system, template_unset_default, template_set_default,
  template_exists, template_list, template_not_found, template_version_conflict,
}
use go_invoicing.Admin.{Uuid}
use go_invoicing.Template.{Template}
use go_invoicing.Store.{Db, Env, M, pure, query, execute, execute_returning, ◌>>=◌, ◌>>◌}
use go_invoicing.Store.Invoices.{is_none}
use go_invoicing.Store.Paging.{sort_rows}

abbrev pub is_live : Uuid → Template → Bool
is_live org t = t.organisation_id == org && is_none t.deleted_at

abbrev pub is_default_of : Uuid → Template → Bool
is_default_of org t = is_live org t && t.is_default

abbrev pub is_system_of : Uuid → Template → Bool
is_system_of org t = is_live org t && t.is_system

abbrev pub is_template : Uuid → Uuid → Template → Bool
is_template org id t = t.id == id && is_live org t

abbrev pub template_row : Db → Uuid → Uuid → Option Template
template_row db org id = find? (is_template org id) db.templates

abbrev find_template : Env → Site → (Template → Bool) → M Template
find_template env site p = query env site (λ db. or_fail (find? p db.templates) template_not_found)

unfoldable pub get_default : Env → Uuid → M Template
get_default env org = find_template env template_default (is_default_of org)

unfoldable pub get_template : Env → Uuid → Uuid → M Template
get_template env org id = find_template env template_get (is_template org id)

unfoldable pub get_system_template : Env → Uuid → M Template
get_system_template env org = find_template env template_system (is_system_of org)

-- The INSERT that Create and CreateSystemTemplate make: `id` is the primary key, and an organisation
-- has one live default.
unfoldable pub insert_template : Env → Template → M Template
insert_template env t = execute_returning env template_create (λ db.
    if is_none (find? (λ x. x.id == t.id) db.templates)
      && not (t.is_default && not (is_none (find? (is_default_of t.organisation_id) db.templates)))
    then (let row = record t {
      created_at = env.db_now;
      updated_at = env.db_now;
      deleted_at = none;
      version = 1;
    } in
        ok (row, record db { templates = db.templates ++ (row ∷ []) }))
    else err (internal template_create))

unfoldable pub create_system_template : Env → Uuid → M Template
create_system_template env org = insert_template env (record {
  id = env.new_id;
  organisation_id = org;
  name = codes "Classic";
  definition = codes "{\"system\":\"classic\"}";
  is_default = true;
  is_system = true;
  created_at = zero_time;
  updated_at = zero_time;
  deleted_at = none;
  version = 1;
})

-- ORDER BY is_system DESC, created_at ASC: what comes after what else
abbrev system_first : Template → Template → Bool
system_first s t =
    if s.is_system
    then (if t.is_system then ltb s.created_at t.created_at else true)
    else (if t.is_system then false else ltb s.created_at t.created_at)

unfoldable pub list_templates : Env → Uuid → M (List Template)
list_templates env org =
    query env template_list (λ db. ok (sort_rows system_first (keep (is_live org) db.templates)))

abbrev pub is_current_template : Uuid → Uuid → ℕ → Template → Bool
is_current_template org id expected t = is_template org id t && t.version == expected

abbrev pub edited_template : Env → Text → Text → Template → Template
edited_template env name definition t = record t {
  name = name;
  definition = definition;
  updated_at = env.db_now;
  version = suc t.version;
}

-- The UPDATE … RETURNING, with none for no row.
unfoldable pub write_template : Env → Uuid → Uuid → Text → Text → ℕ → M (Option Template)
write_template env org id name definition expected = execute_returning env template_update (λ db.
    elim (find? (is_current_template org id expected) db.templates) [
      | none ↦ ok (none, db)
      | some t ↦ ok (
        some (edited_template env name definition t),
        record db {
          templates =
              update_where (is_current_template org id expected)
                (edited_template env name definition) db.templates;
        },
      )
    ])

unfoldable pub template_missing_or_stale : Env → Uuid → Uuid → M Template
template_missing_or_stale env org id = query env template_exists (λ db.
    if is_none (template_row db org id)
    then err template_not_found
    else err template_version_conflict)

abbrev pub template_written : Env → Uuid → Uuid → Option Template → M Template
template_written env org id none = template_missing_or_stale env org id
template_written env org id (some t) = pure t

unfoldable pub update_template_row : Env → Uuid → Uuid → Text → Text → ℕ → M Template
update_template_row env org id name definition expected = do
  written ← write_template env org id name definition expected
  template_written env org id written

abbrev pub deleted_template : Env → Template → Template
deleted_template env t = record t { deleted_at = some env.db_now }

unfoldable pub soft_delete : Env → Uuid → Uuid → M (Unit {0})
soft_delete env org id = execute env template_delete (λ db.
    if is_none (template_row db org id)
    then err template_not_found
    else ok (record db {
      templates = update_where (is_template org id) (deleted_template env) db.templates;
    }))

abbrev pub with_default : Env → Bool → Template → Template
with_default env b t = record t { is_default = b; updated_at = env.db_now }

-- The first statement of SetDefault.
unfoldable pub unset_default : Env → Uuid → M (Unit {0})
unset_default env org = execute env template_unset_default (λ db. ok (record db {
  templates = update_where (is_default_of org) (with_default env false) db.templates;
}))

-- The second statement; a second live default would break the unique index.
unfoldable pub set_default_flag : Env → Uuid → Uuid → M (Unit {0})
set_default_flag env org id = execute env template_set_default (λ db.
    if is_none (template_row db org id)
    then err template_not_found
    else if is_none (find? (λ t. is_default_of org t && not (t.id == id)) db.templates)
    then ok (record db {
      templates = update_where (is_template org id) (with_default env true) db.templates;
    })
    else err (internal template_set_default))

unfoldable pub set_default_row : Env → Uuid → Uuid → M (Unit {0})
set_default_row env org id = do unset_default env org; set_default_flag env org id
