-- ===== src/Service/Users/Laws/FirstLogin.antt =====
-- A user who has just been created can log in (user_service.go, auth_service.go, password.go).
use go_invoicing.Base.{
  ◌≡◌, ◌≤◌, refl, sym, ap, true, false, none, some, find?, [], ◌∷◌, ◌++◌, arith,
}
use go_invoicing.Base.Text.{Text, is_empty, byte_length, text_eq_refl}
use go_invoicing.Errors.{ok}
use go_invoicing.Admin.{Uuid}
use go_invoicing.Admin.Password.{verify_password}
use go_invoicing.Admin.Password.Laws.{IsCoding, verify_password-hash_password}
use go_invoicing.Admin.User.{User, CreateUserRequest, generate_session_token}
use go_invoicing.Store.{Db, Env}
use go_invoicing.Store.Keys.{find?-appended, find?-none}
use go_invoicing.Store.Users.{has_email, is_live_user, is_taken_by, created_user}
use go_invoicing.Store.Sessions.{clashes}
use go_invoicing.Service.Auth.{login, login_result, new_session, normalized_email}
use go_invoicing.Service.Auth.Login.{with_login}
use go_invoicing.Service.Auth.Accept.{Works, recorded, login_succeeds}
use go_invoicing.Service.Users.{create_user}
use go_invoicing.Service.Users.Laws.Creation.{HasCreated, create_user_ok}

given : (password : Text) → 12 ≤ byte_length password → is_empty password ≡ false
given [] h = absurd (omega (arith, h))
given (c ∷ s) h = refl

module _ (env env' : Env) (org : Uuid) (actor : Text) (r : CreateUserRequest) (u : User)
    (token : Text) (db db' : Db) where
  first_login :
      IsCoding env.crypto
      → HasCreated env org actor r u db db'
      → Works env'
      → env'.crypto ≡ env.crypto
      → env'.lower ≡ env.lower
      → generate_session_token env'.crypto ≡ some token
      → find? (λ t. clashes t (new_session env' (created_user env u) token)) db'.sessions ≡ none
      → login env' r.email r.password db' ≡ (
        ok (login_result env' (created_user env u) token),
        with_login env' (created_user env u) token db',
      )
  first_login coding has works same_crypto same_lower drawn free =
      let v = created_user env u in
      let named : normalized_email env' r.email ≡ v.email =
        rw same_lower (sym (ap (λ n. n.1) has.checked.names_are)) in
      let users : db'.users ≡ db.users ++ (v ∷ []) = ap (λ d. d.users) has.written in
      let unheard =
        find?-none (λ w. is_taken_by w u) (has_email v.email) db.users (λ w h. ground arith)
          has.unused in
      let by_email : find? (has_email v.email) db'.users ≡ some v = rw users (
        find?-appended (has_email v.email) db.users v unheard
          (let t = text_eq_refl v.email in ground (arith, t))) in
      let unknown =
        find?-none (λ w. is_taken_by w u) (is_live_user v.id) db.users (λ w h. ground arith)
          has.unused in
      let by_id : find? (is_live_user v.id) db'.users ≡ some v =
        rw users (find?-appended (is_live_user v.id) db.users v unknown (ground arith)) in
      let (salt, d, iff, right) =
        verify_password-hash_password env.crypto coding r.password r.password u.password_hash
          has.hashed in
      let verified : verify_password env'.crypto r.password v.password_hash ≡ true =
        rw same_crypto right in
      login_succeeds env' works v token db' r.email r.password verified has.active drawn
        (recorded env' works v token db' free v by_id) (rw same_lower has.checked.reachable)
        (given r.password has.checked.long) (rw named by_email)

  -- A user who has just been created can log in with the email and the password of the request, as they
  -- were typed, when the database works, a token can be drawn and no session has it.
  pub created_user_logs_in :
      IsCoding env.crypto
      → create_user env org actor r db ≡ (ok u, db')
      → Works env'
      → env'.crypto ≡ env.crypto
      → env'.lower ≡ env.lower
      → generate_session_token env'.crypto ≡ some token
      → find? (λ t. clashes t (new_session env' (created_user env u) token)) db'.sessions ≡ none
      → login env' r.email r.password db' ≡ (
        ok (login_result env' (created_user env u) token),
        with_login env' (created_user env u) token db',
      )
  created_user_logs_in coding h = first_login coding (create_user_ok env org actor r u db db' h)
