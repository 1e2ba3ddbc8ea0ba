-- ===== src/Service/Auth/Request.antt =====
-- Who a request is let in as, by its Authorization header (auth_middleware.go).
use go_invoicing.Base.{
  Option, ◌≡◌, ◌∙◌, ◌↔◌, refl, ap, true, false, not, Bool-cases, inl, inr, Option-cases, none, some,
  find?, arith,
}
use go_invoicing.Base.Text.{Text}
use go_invoicing.Errors.{Result, ok, err, session_get, user_auth, unauthorized, Error}
use go_invoicing.Admin.User.{
  User, Session, AuthenticatedUser, is_valid, hash_session_token, parse_bearer_token,
}
use go_invoicing.Store.Binds.{bind_failed, bind_value, bind_ok, throw_if_ok}
use go_invoicing.Admin.{Uuid}
use go_invoicing.Store.{Db, Env, M, throw_if, ◌>>=◌, ◌>>◌}
use go_invoicing.Store.Users.{get_for_authentication, is_live_user}
use go_invoicing.Store.Sessions.{get_by_token_hash, has_hash}
use go_invoicing.Service.Auth.{
  require_auth, identity_of, check_token, check_session, admit, with_error, renamed_result,
  hide_missing_user, hide_missing_session,
}

-- The header carries a token, the token's session is neither revoked nor expired, and the session's
-- user is there and active.
abbrev pub Grants : Env → Text → Db → AuthenticatedUser → Type 0
Grants env header db identity =
    (token : Text) × (s : Session) × (u : User) × (parse_bearer_token header ≡ some token)
    × (find? (has_hash (hash_session_token env.crypto token)) db.sessions ≡ some s)
    × (is_valid s env.now ≡ true)
    × (find? (is_live_user s.user_id) db.users ≡ some u)
    × (u.is_active ≡ true)
    × (identity ≡ identity_of u s)

module _ {ℓ} {A : Type ℓ} (f : Error → Error) where
  renamed_ok : (r : Result A) (a : A) → renamed_result f r ≡ ok a → r ≡ ok a
  renamed_ok (ok b) a h = ground arith
  renamed_ok (err e) a h = absurd (ground arith)

  -- A call whose error was exchanged has succeeded as it is.
  pub with_error_ok :
      (m : M A) (db db' : Db) (a : A) → with_error f m db ≡ (ok a, db') → m db ≡ (ok a, db')
  with_error_ok m db db' a h =
      let r = renamed_ok (m db).0 a (ap (λ x. x.0) h) in
      ap (λ x. (x, (m db).1)) r ∙ ap (λ x. (ok a, x)) (ap (λ x. x.1) h)

module _ (env : Env) (db db' : Db) where
  pub get_by_token_hash_ok :
      (hash : Text) (s : Session)
      → get_by_token_hash env hash db ≡ (ok s, db')
      → (find? (has_hash hash) db.sessions ≡ some s) × (db' ≡ db)
  unfolding get_by_token_hash
  get_by_token_hash_ok hash s h = elim (Bool-cases (env.fails session_get)) [
    | inl down ↦ absurd (ground arith)
    | inr up ↦ elim (Option-cases (find? (has_hash hash) db.sessions)) [
      | inl n ↦ absurd (let k = rw (up, n) at h in ground arith)
      | inr (x, f) ↦ let k = rw (up, f) at h in (ground arith, ground arith)
    ]
  ]

  pub get_for_authentication_ok :
      (id : Uuid) (u : User)
      → get_for_authentication env id db ≡ (ok u, db')
      → (find? (is_live_user id) db.users ≡ some u) × (db' ≡ db)
  unfolding get_for_authentication
  get_for_authentication_ok id u h = elim (Bool-cases (env.fails user_auth)) [
    | inl down ↦ absurd (ground arith)
    | inr up ↦ elim (Option-cases (find? (is_live_user id) db.users)) [
      | inl n ↦ absurd (let k = rw (up, n) at h in ground arith)
      | inr (x, f) ↦ let k = rw (up, f) at h in (ground arith, ground arith)
    ]
  ]

module _ (env : Env) (db : Db) where
  abbrev find_user : Session → M AuthenticatedUser
  find_user s = with_error hide_missing_user (get_for_authentication env s.user_id) >>= admit s

  hash_read :
      (hash : Text) (s : Session)
      → env.fails session_get ≡ false
      → find? (has_hash hash) db.sessions ≡ some s
      → with_error hide_missing_session (get_by_token_hash env hash) db ≡ (ok s, db)
  unfolding get_by_token_hash
  hash_read hash s up found = rw (up, found) refl

  hash_missing :
      (hash : Text)
      → env.fails session_get ≡ false
      → find? (has_hash hash) db.sessions ≡ none
      → with_error hide_missing_session (get_by_token_hash env hash) db ≡ (err unauthorized, db)
  unfolding get_by_token_hash
  hash_missing hash up n = rw (up, n) refl

  user_read :
      (id : Uuid) (u : User)
      → env.fails user_auth ≡ false
      → find? (is_live_user id) db.users ≡ some u
      → with_error hide_missing_user (get_for_authentication env id) db ≡ (ok u, db)
  unfolding get_for_authentication
  user_read id u up known = rw (up, known) refl

module _ (env : Env) (header : Text) (db : Db) where
  -- The session of the header's token is looked at.
  pub resolved :
      (token : Text) (s : Session)
      → env.fails session_get ≡ false
      → parse_bearer_token header ≡ some token
      → find? (has_hash (hash_session_token env.crypto token)) db.sessions ≡ some s
      → require_auth env header db ≡ check_session env s db
  unfolding require_auth
  resolved token s up parsed found =
      let hash = hash_session_token env.crypto token in
      rw parsed (
        bind_value (with_error hide_missing_session (get_by_token_hash env hash))
          (check_session env) db (hash_read env db hash s up found))

  granted :
      (identity : AuthenticatedUser)
      → env.fails session_get ≡ false
      → env.fails user_auth ≡ false
      → Grants env header db identity
      → require_auth env header db ≡ (ok identity, db)
  granted identity up up' (token, s, u, parsed, found, valid, known, active, same) =
      resolved token s up parsed found
      ∙ ap (λ b. (throw_if (not b) unauthorized >> find_user env db s) db) valid
      ∙ bind_value (with_error hide_missing_user (get_for_authentication env s.user_id)) (admit s)
          db (user_read env db s.user_id u up' known)
      ∙ rw (admit, active, same) refl

  -- A token whose session is over.
  pub refused :
      (token : Text) (s : Session)
      → env.fails session_get ≡ false
      → parse_bearer_token header ≡ some token
      → find? (has_hash (hash_session_token env.crypto token)) db.sessions ≡ some s
      → is_valid s env.now ≡ false
      → require_auth env header db ≡ (err unauthorized, db)
  refused token s up parsed found over =
      resolved token s up parsed found
      ∙ ap (λ b. (throw_if (not b) unauthorized >> find_user env db s) db) over

  -- A token of no session.
  pub unknown :
      (token : Text)
      → env.fails session_get ≡ false
      → parse_bearer_token header ≡ some token
      → find? (has_hash (hash_session_token env.crypto token)) db.sessions ≡ none
      → require_auth env header db ≡ (err unauthorized, db)
  unfolding require_auth
  unknown token up parsed n =
      let hash = hash_session_token env.crypto token in
      rw parsed (
        bind_failed (with_error hide_missing_session (get_by_token_hash env hash))
          (check_session env) db (hash_missing env db hash up n))

  admitted :
      (s : Session) (u : User) (identity : AuthenticatedUser) (db' : Db)
      → admit s u db ≡ (ok identity, db')
      → (u.is_active ≡ true) × (identity ≡ identity_of u s)
  admitted s u identity db' h = elim (Bool-cases u.is_active) [
    | inl active ↦ (active, ground arith)
    | inr idle ↦ absurd (ground arith)
  ]

  session_lets_in :
      (token : Text) (s : Session) (identity : AuthenticatedUser) (db' : Db)
      → parse_bearer_token header ≡ some token
      → find? (has_hash (hash_session_token env.crypto token)) db.sessions ≡ some s
      → check_session env s db ≡ (ok identity, db')
      → Grants env header db identity
  session_lets_in token s identity db' parsed found h =
      let (t, mid, checked, k) =
        bind_ok (throw_if (not (is_valid s env.now)) unauthorized)
          (λ _. with_error hide_missing_user (get_for_authentication env s.user_id) >>= admit s) db
          h in
      let (valid, same) = throw_if_ok (not (is_valid s env.now)) unauthorized db checked in
      let k' = rw same at k in
      let (u, mid', read, rest) =
        bind_ok (with_error hide_missing_user (get_for_authentication env s.user_id)) (admit s) db
          k' in
      let (known, same') =
        get_for_authentication_ok env db mid' s.user_id u
          (with_error_ok hide_missing_user (get_for_authentication env s.user_id) db mid' u read) in
      let (active, is) = admitted s u identity db' (rw same' at rest) in
      (token, s, u, parsed, found, ground arith, known, active, is)

  token_lets_in :
      (parsed : Option Text) (identity : AuthenticatedUser) (db' : Db)
      → parse_bearer_token header ≡ parsed
      → check_token env parsed db ≡ (ok identity, db')
      → Grants env header db identity
  token_lets_in none identity db' p h = absurd (ground arith)
  token_lets_in (some token) identity db' p h =
      let hash = hash_session_token env.crypto token in
      let (s, mid, read, rest) =
        bind_ok (with_error hide_missing_session (get_by_token_hash env hash)) (check_session env)
          db h in
      let (found, same) =
        get_by_token_hash_ok env db mid hash s
          (with_error_ok hide_missing_session (get_by_token_hash env hash) db mid s read) in
      session_lets_in token s identity db' p found (rw same at rest)

  pub admission :
      (identity : AuthenticatedUser) (db' : Db)
      → require_auth env header db ≡ (ok identity, db')
      → Grants env header db identity
  unfolding require_auth
  admission identity db' h = token_lets_in (parse_bearer_token header) identity db' refl h

  -- A request is let in, when the database answers, exactly if its Authorization header carries a
  -- token whose session is neither revoked nor expired and belongs to a user who is not deleted and
  -- is active; the identity is then that user's, with the session.
  pub require_auth_iff :
      (identity : AuthenticatedUser)
      → env.fails session_get ≡ false
      → env.fails user_auth ≡ false
      → (require_auth env header db ≡ (ok identity, db)) ↔ Grants env header db identity
  require_auth_iff identity up up' = (admission identity db, granted identity up up')
