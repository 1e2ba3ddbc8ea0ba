-- ===== src/Service/Auth/Accept.antt =====
-- A login with the right password succeeds when the database works (auth_service.go).
use go_invoicing.Base.{◌≡◌, ◌∙◌, refl, ap, true, false, not, none, some, find?, [], ◌∷◌, ◌++◌}
use go_invoicing.Base.Text.{Text, is_empty}
use go_invoicing.Errors.{
  ok, begin_tx, user_by_email, user_last_login, session_create, login_email_required,
  login_password_required, invalid_credentials,
}
use go_invoicing.Admin.Password.{verify_password}
use go_invoicing.Admin.User.{User, generate_session_token}
use go_invoicing.Store.{Db, Env, CommitOutcome, pure, throw_if, in_tx, ◌>>=◌, ◌>>◌}
use go_invoicing.Store.Binds.{bind_value}
use go_invoicing.Store.Users.{get_by_email, has_email, is_live_user, update_last_login}
use go_invoicing.Store.Sessions.{insert_session, clashes}
use go_invoicing.Service.Auth.{
  login, login_user, login_with, login_result, record_login, new_session, normalized_email,
  with_error, hide_unknown_user,
}
use go_invoicing.Service.Auth.Login.{with_login}

-- The calls of a login work.
pub record Works (env : Env) : Type 0 where
  pub looks_up : env.fails user_by_email ≡ false
  pub begins : env.fails begin_tx ≡ false
  pub inserts : env.fails session_create ≡ false
  pub updates : env.fails user_last_login ≡ false
  pub commits : env.commit ≡ CommitOutcome.committed

module _ (env : Env) (works : Works env) (u : User) (token : Text) (db : Db) where
  abbrev with_session : Db
  with_session = record db { sessions = db.sessions ++ (new_session env u token ∷ []) }

  stored_session :
      find? (λ t. clashes t (new_session env u token)) db.sessions ≡ none
      → insert_session env (new_session env u token) db ≡ (ok tt, with_session)
  unfolding insert_session
  stored_session free = rw (works.inserts, free) refl

  noted :
      (v : User)
      → find? (is_live_user u.id) db.users ≡ some v
      → update_last_login env u.id env.now with_session ≡ (ok tt, with_login env u token db)
  unfolding update_last_login
  noted v known = rw (works.updates, known) refl

  pub recorded :
      find? (λ t. clashes t (new_session env u token)) db.sessions ≡ none
      → (v : User) → find? (is_live_user u.id) db.users ≡ some v
      → record_login env u token db ≡ (ok tt, with_login env u token db)
  recorded free v known =
      bind_value (insert_session env (new_session env u token))
        (λ _. update_last_login env u.id env.now) db (stored_session free)
      ∙ noted v known

  committed_login :
      record_login env u token db ≡ (ok tt, with_login env u token db)
      → in_tx env (record_login env u token) db ≡ (ok tt, with_login env u token db)
  unfolding in_tx
  committed_login e = rw (works.begins, e, works.commits) refl

  found_user :
      (named : Text)
      → find? (has_email named) db.users ≡ some u
      → with_error hide_unknown_user (get_by_email env named) db ≡ (ok u, db)
  unfolding get_by_email
  found_user named known = rw (works.looks_up, known) refl

  module _ (email password : Text)
      (verified : verify_password env.crypto password u.password_hash ≡ true)
      (active : u.is_active ≡ true) (drawn : generate_session_token env.crypto ≡ some token)
      (done : record_login env u token db ≡ (ok tt, with_login env u token db)) where
    let_in :
        login_user env password u db ≡ (ok (login_result env u token), with_login env u token db)
    let_in =
        ap
          (λ b.
            (throw_if (not b) invalid_credentials
                >> (throw_if (not u.is_active) invalid_credentials
                    >> login_with env u (generate_session_token env.crypto)))
              db)
          verified
        ∙ ap
            (λ b.
              (throw_if (not b) invalid_credentials
                  >> login_with env u (generate_session_token env.crypto))
                db)
            active
        ∙ ap (λ t. login_with env u t db) drawn
        ∙ bind_value (in_tx env (record_login env u token)) (λ _. pure (login_result env u token))
            db (committed_login done)

    pub login_succeeds :
        is_empty (normalized_email env email) ≡ false
        → is_empty password ≡ false
        → find? (has_email (normalized_email env email)) db.users ≡ some u
        → login env email password db ≡ (ok (login_result env u token), with_login env u token db)
    unfolding login
    login_succeeds reachable given known =
        let named = normalized_email env email in
        let lookup = with_error hide_unknown_user (get_by_email env named) in
        ap
          (λ b.
            (throw_if b login_email_required
                >> (throw_if (is_empty password) login_password_required
                    >> (lookup >>= login_user env password)))
              db)
          reachable
        ∙ ap (λ b. (throw_if b login_password_required >> (lookup >>= login_user env password)) db)
            given
        ∙ bind_value lookup (login_user env password) db (found_user named known)
        ∙ let_in
