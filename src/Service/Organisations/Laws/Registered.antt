-- ===== src/Service/Organisations/Laws/Registered.antt =====
-- What a registration leaves of the tables (registration_service.go).
use go_invoicing.Base.{none, some}
use go_invoicing.Errors.{ok}
use go_invoicing.Base.Text.{Text}
use go_invoicing.Store.{Db, Env, ◌>>=◌}
use go_invoicing.Store.Binds.{bind_ok}
use go_invoicing.Service.Organisations.Register.{register_body}
use go_invoicing.Service.Organisations.Laws.Founded.{
  founded, opening_settings, classic_default, first_admin,
}
use go_invoicing.Base.{◌≡◌, ◌∙◌, sym, ap, none, some, find?, [], ◌∷◌, ◌++◌, ◌==◌, ◌||◌, arith}
use go_invoicing.Base.Text.{Text}
use go_invoicing.Errors.{ok}
use go_invoicing.Admin.{Organisation}
use go_invoicing.Admin.User.{User}
use go_invoicing.Template.{Template}
use go_invoicing.Store.{Db, Env, pure, ◌>>=◌}
use go_invoicing.Store.Binds.{bind_ok}
use go_invoicing.Store.Keys.{find?-appended, find?-none}
use go_invoicing.Store.Parties.{is_settings, settings_row}
use go_invoicing.Store.Templates.{is_default_of, create_system_template}
use go_invoicing.Store.Users.{insert_user, created_user, is_live_user, is_taken_by}
use go_invoicing.Store.Organisations.{
  insert_organisation, created_organisation, insert_settings, created_settings,
}
use go_invoicing.Service.Organisations.{new_organisation, default_settings}
use go_invoicing.Service.Organisations.Register.{register_body, first_user, template_env}
use go_invoicing.Service.Organisations.Laws.Statements.{
  classic, create_system_ok, insert_organisation_ok, insert_settings_ok,
}
use go_invoicing.Service.Users.Laws.Creation.{insert_user_ok}

-- The database after a registration.
abbrev pub with_registration : Env → Text → Text × Text → Text → Db → Db
with_registration env name names hash db = record db {
  organisations = db.organisations ++ (founded env name ∷ []);
  settings = db.settings ++ (opening_settings env ∷ []);
  templates = db.templates ++ (classic_default env ∷ []);
  users = db.users ++ (first_admin env names hash ∷ []);
}

pub record IsProvided (env : Env) (name : Text) (names : Text × Text) (hash : Text) (db' : Db)
    : Type 0 where
  pub organisation : find? (λ o. o.id == env.new_id) db'.organisations ≡ some (founded env name)
  pub settings : settings_row db' env.new_id ≡ some (opening_settings env)
  pub template : find? (is_default_of env.new_id) db'.templates ≡ some (classic_default env)
  pub user : find? (is_live_user (env.later_id 1)) db'.users ≡ some (first_admin env names hash)

module _ (env : Env) where
  abbrev add_settings : Db → Db
  add_settings db = record db {
    settings = db.settings ++ (created_settings env (default_settings env env.new_id) ∷ []);
  }

  abbrev add_template : Db → Db
  add_template db = record db {
    templates = db.templates ++ (classic (template_env env) env.new_id ∷ []);
  }

  abbrev add_user : Text × Text → Text → Db → Db
  add_user names hash db = record db {
    users = db.users ++ (created_user env (first_user env names hash) ∷ []);
  }

  provided :
      (name : Text) (names : Text × Text) (hash : Text) (db : Db)
      → find? (λ o. o.id == env.new_id) db.organisations ≡ none
      → find? (λ s. s.organisation_id == env.new_id || s.id == env.later_id 0) db.settings ≡ none
      → find? (is_default_of env.new_id) db.templates ≡ none
      → find? (λ v. is_taken_by v (first_user env names hash)) db.users ≡ none
      → IsProvided env name names hash (with_registration env name names hash db)
  provided name names hash db n1 n2 n3 n4 = record {
    organisation =
        find?-appended (λ o. o.id == env.new_id) db.organisations
          (created_organisation env (new_organisation env name)) n1 (ground arith);
    settings =
        find?-appended (is_settings env.new_id) db.settings
          (created_settings env (default_settings env env.new_id))
          (find?-none (λ s. s.organisation_id == env.new_id || s.id == env.later_id 0)
            (is_settings env.new_id) db.settings (λ y h. ground arith) n2)
          (ground arith);
    template =
        find?-appended (is_default_of env.new_id) db.templates
          (classic (template_env env) env.new_id) n3 (ground arith);
    user =
        find?-appended (is_live_user (env.later_id 1)) db.users
          (created_user env (first_user env names hash))
          (find?-none (λ v. is_taken_by v (first_user env names hash))
            (is_live_user (env.later_id 1)) db.users (λ y h. ground arith) n4)
          (ground arith);
  }

module _ (env : Env) (name : Text) (names : Text × Text) (hash : Text) (db db' : Db)
    (r : Organisation × User) where
  pub body_ok :
      register_body env name names hash db ≡ (ok r, db')
      → (db' ≡ with_registration env name names hash db)
        × IsProvided env name names hash db'
        × (find? (λ v. is_taken_by v (first_user env names hash)) db.users ≡ none)
  unfolding register_body
  body_ok h =
      let fourth = λ (o : Organisation) (t : Template).
        insert_user env (first_user env names hash) >>= λ u. pure (o, u) in
      let third = λ (o : Organisation) (_ : Unit {0}).
        create_system_template (template_env env) env.new_id >>= fourth o in
      let second =
        λ (o : Organisation). insert_settings env (default_settings env env.new_id) >>= third o in
      let (p, d1, a, h1) =
        bind_ok (insert_organisation env (new_organisation env name)) second db h in
      let (n1, e1, w1) = insert_organisation_ok env db d1 (new_organisation env name) p a in
      let (t, d2, b, h2) =
        bind_ok (insert_settings env (default_settings env env.new_id)) (third p) d1 h1 in
      let (n2, w2) = insert_settings_ok env d1 d2 (default_settings env env.new_id) b in
      let (l, d3, c, h3) =
        bind_ok (create_system_template (template_env env) env.new_id) (fourth p) d2 h2 in
      let (n3, w3) = create_system_ok (template_env env) d2 d3 env.new_id l c in
      let (v, d4, d, h4) =
        bind_ok (insert_user env (first_user env names hash)) (λ u. pure (p, u)) d3 h3 in
      let (n4, e4, w4) = insert_user_ok env (first_user env names hash) v d3 d4 d in
      let to2 = w2 ∙ ap (add_settings env) w1 in
      let to3 = w3 ∙ ap (add_template env) to2 in
      let written : db' ≡ with_registration env name names hash db =
        sym (ap (λ x. x.1) h4) ∙ w4 ∙ ap (add_user env names hash) to3 in
      let unused : find? (λ v. is_taken_by v (first_user env names hash)) db.users ≡ none =
        rw to3 at n4 in
      (
        written,
        rw written (provided env name names hash db n1 (rw w1 at n2) (rw to2 at n3) unused),
        unused,
      )
