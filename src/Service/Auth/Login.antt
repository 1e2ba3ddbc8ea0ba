-- ===== src/Service/Auth/Login.antt =====
-- What a login that succeeds has checked and written (auth_service.go).
use go_invoicing.Base.{
  ℕ, ◌≡◌, ◌∙◌, refl, sym, ap, true, not, Bool-cases, inl, inr, Option-cases, Option, none, some,
  find?, update_where, [], ◌∷◌, ◌++◌, arith,
}
use go_invoicing.Base.Text.{Text, is_empty}
use go_invoicing.Errors.{
  ok, session_create, user_last_login, user_by_email, login_email_required, login_password_required,
  invalid_credentials,
}
use go_invoicing.Admin.{Uuid}
use go_invoicing.Admin.Password.{verify_password}
use go_invoicing.Admin.User.{User, Session, LoginResult, generate_session_token}
use go_invoicing.Store.{Db, Env, in_tx, in_tx_ok, pure, throw_if, ◌>>=◌}
use go_invoicing.Store.Binds.{bind_ok, throw_if_ok}
use go_invoicing.Store.Users.{get_by_email, has_email, is_live_user, logged_in, update_last_login}
use go_invoicing.Store.Sessions.{insert_session, clashes}
use go_invoicing.Service.Auth.{
  login, login_user, login_with, login_result, record_login, new_session, normalized_email,
  with_error, hide_unknown_user,
}
use go_invoicing.Service.Auth.Request.{with_error_ok}

module _ (env : Env) (db db' : Db) where
  insert_session_ok :
      (s : Session)
      → insert_session env s db ≡ (ok tt, db')
      → (find? (λ t. clashes t s) db.sessions ≡ none)
        × (db' ≡ record db { sessions = db.sessions ++ (record s { revoked_at = none } ∷ []) })
  unfolding insert_session
  insert_session_ok s h = elim (Bool-cases (env.fails session_create)) [
    | inl down ↦ absurd (ground arith)
    | inr up ↦ elim (Option-cases (find? (λ t. clashes t s) db.sessions)) [
      | inr (x, f) ↦ absurd (let k = rw (up, f) at h in ground arith)
      | inl n ↦ let k = rw (up, n) at h in (n, sym (ap (λ r. r.1) k))
    ]
  ]

  update_last_login_ok :
      (id : Uuid) (moment : ℕ)
      → update_last_login env id moment db ≡ (ok tt, db')
      → db' ≡ record db { users = update_where (is_live_user id) (logged_in env moment) db.users }
  unfolding update_last_login
  update_last_login_ok id moment h = elim (Bool-cases (env.fails user_last_login)) [
    | inl down ↦ absurd (ground arith)
    | inr up ↦ elim (Option-cases (find? (is_live_user id) db.users)) [
      | inl n ↦ absurd (let k = rw (up, n) at h in ground arith)
      | inr (x, f) ↦ let k = rw (up, f) at h in sym (ap (λ r. r.1) k)
    ]
  ]

  get_by_email_ok :
      (email : Text) (u : User)
      → get_by_email env email db ≡ (ok u, db')
      → (find? (has_email email) db.users ≡ some u) × (db' ≡ db)
  unfolding get_by_email
  get_by_email_ok email u h = elim (Bool-cases (env.fails user_by_email)) [
    | inl down ↦ absurd (ground arith)
    | inr up ↦ elim (Option-cases (find? (has_email email) db.users)) [
      | inl n ↦ absurd (let k = rw (up, n) at h in ground arith)
      | inr (x, f) ↦ let k = rw (up, f) at h in (ground arith, ground arith)
    ]
  ]

-- The database after a login.
abbrev pub with_login : Env → User → Text → Db → Db
with_login env u token db = record db {
  sessions = db.sessions ++ (new_session env u token ∷ []);
  users = update_where (is_live_user u.id) (logged_in env env.now) db.users;
}

-- What a login that succeeded has checked, and what it did.
pub record HasLoggedIn (env : Env) (email password : Text) (db : Db) (r : LoginResult) (db' : Db)
    : Type 0 where
  pub token : Text
  pub user : User
  pub known : find? (has_email (normalized_email env email)) db.users ≡ some user
  pub verified : verify_password env.crypto password user.password_hash ≡ true
  pub active : user.is_active ≡ true
  pub drawn : generate_session_token env.crypto ≡ some token
  pub free : find? (λ t. clashes t (new_session env user token)) db.sessions ≡ none
  pub returned : r ≡ login_result env user token
  pub written : db' ≡ with_login env user token db

abbrev relogged : Env → User → Db → Db
relogged env u d = record d {
  users = update_where (is_live_user u.id) (logged_in env env.now) d.users;
}

record_login_ok :
    (env : Env) (u : User) (token : Text) (db db' : Db)
    → record_login env u token db ≡ (ok tt, db')
    → (find? (λ t. clashes t (new_session env u token)) db.sessions ≡ none)
      × (db' ≡ with_login env u token db)
record_login_ok env u token db db' h =
    let (t, mid, inserted, updated) =
      bind_ok (insert_session env (new_session env u token))
        (λ _. update_last_login env u.id env.now) db h in
    let (n, e) = insert_session_ok env db mid (new_session env u token) inserted in
    (n, update_last_login_ok env mid db' u.id env.now updated ∙ ap (relogged env u) e)

module _ (env : Env) (email password : Text) (db db' : Db) (r : LoginResult) where
  login_with_ok :
      (u : User) (t : Option Text)
      → login_with env u t db ≡ (ok r, db')
      → (token : Text) × (t ≡ some token)
        × (find? (λ s. clashes s (new_session env u token)) db.sessions ≡ none)
        × (r ≡ login_result env u token)
        × (db' ≡ with_login env u token db)
  login_with_ok u none h = absurd (ground arith)
  login_with_ok u (some token) h =
      let (t, mid, done, e) =
        bind_ok (in_tx env (record_login env u token)) (λ _. pure (login_result env u token)) db
          h in
      let (b, c) = in_tx_ok env (record_login env u token) db mid t done in
      let (n, w) =
        record_login_ok env u token db mid
          (ap (λ x. (x, (record_login env u token db).1)) b ∙ ap (λ x. (ok tt, x)) c) in
      (token, refl, n, ground arith, sym (ap (λ x. x.1) e) ∙ w)

  login_user_ok :
      (u : User)
      → find? (has_email (normalized_email env email)) db.users ≡ some u
      → login_user env password u db ≡ (ok r, db')
      → HasLoggedIn env email password db r db'
  login_user_ok u known h =
      let wrong = not (verify_password env.crypto password u.password_hash) in
      let next = λ (_ : Unit {0}). login_with env u (generate_session_token env.crypto) in
      let (t, mid, a, h') =
        bind_ok (throw_if wrong invalid_credentials)
          (λ _. throw_if (not u.is_active) invalid_credentials >>= next) db h in
      let (right, same) = throw_if_ok wrong invalid_credentials db a in
      let (t', mid', b, h'') =
        bind_ok (throw_if (not u.is_active) invalid_credentials) next db (rw same at h') in
      let (active, same') = throw_if_ok (not u.is_active) invalid_credentials db b in
      let (token, drawn, free, returned, written) =
        login_with_ok u (generate_session_token env.crypto) (rw same' at h'') in
      record {
        token = token;
        user = u;
        known = known;
        verified = ground arith;
        active = ground arith;
        drawn = drawn;
        free = free;
        returned = returned;
        written = written;
      }

  pub login_ok : login env email password db ≡ (ok r, db') → HasLoggedIn env email password db r db'
  unfolding login
  login_ok h =
      let named = normalized_email env email in
      let lookup = with_error hide_unknown_user (get_by_email env named) in
      let last = λ (_ : Unit {0}). lookup >>= login_user env password in
      let (t, mid, a, h1) =
        bind_ok (throw_if (is_empty named) login_email_required)
          (λ _. throw_if (is_empty password) login_password_required >>= last) db h in
      let (e1, s1) = throw_if_ok (is_empty named) login_email_required db a in
      let (t', mid', b, h2) =
        bind_ok (throw_if (is_empty password) login_password_required) last db (rw s1 at h1) in
      let (e2, s2) = throw_if_ok (is_empty password) login_password_required db b in
      let (u, mid'', c, h3) = bind_ok lookup (login_user env password) db (rw s2 at h2) in
      let (known, s3) =
        get_by_email_ok env db mid'' named u
          (with_error_ok hide_unknown_user (get_by_email env named) db mid'' u c) in
      login_user_ok u known (rw s3 at h3)
