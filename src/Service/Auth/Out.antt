-- ===== src/Service/Auth/Out.antt =====
-- A token after its logout (auth_service.go, auth_middleware.go).
use mathlib.Core.Option.{some_inj}
use go_invoicing.Base.{arith, ap, sym, ◌∙◌, refl, ==_iff, update_where}
use go_invoicing.Errors.{ok, err, session_get, unauthorized}
use go_invoicing.Store.Keys.{All-found}
use go_invoicing.Store.Rows.{find?-test}
use go_invoicing.Store.Apart.{found_only}
use go_invoicing.Admin.User.{AuthenticatedUser, parse_bearer_token, is_valid}
use go_invoicing.Service.Auth.{logout, require_auth}
use go_invoicing.Service.Auth.Accounts.{AreDistinct, clash-has_hash}
use go_invoicing.Service.Auth.Request.{admission, refused, unknown}
use go_invoicing.Service.Auth.Steps.{AccountSteps, steps_keep}
use go_invoicing.Base.{
  ℕ, ◌≡◌, ◌⊎◌, refl, false, Bool-cases, inl, inr, Option-cases, some, find?, All, All-append, ◌==◌,
  if◌then◌else◌,
}
use go_invoicing.Base.Text.{Text, text_eq}
use go_invoicing.Errors.{
  session_create, session_revoke, session_cleanup, user_create, user_last_login,
}
use go_invoicing.Admin.{Uuid}
use go_invoicing.Admin.User.{User, Session, generate_session_token, hash_session_token}
use go_invoicing.Store.{Db, Env}
use go_invoicing.Store.Invoices.{is_none}
use go_invoicing.Store.Views.{All-updated}
use go_invoicing.Store.Sweep.{All-sweep}
use go_invoicing.Store.Users.{insert_user, update_last_login, is_taken_by, is_live_user}
use go_invoicing.Store.Sessions.{
  clashes, has_hash, insert_session, revoke, revoked, delete_expired, is_over,
}
use go_invoicing.Service.Auth.{new_session}
use go_invoicing.Service.Auth.Kept.{Keeps}

-- Not the session of the hash, or a revoked one.
abbrev IsOut : Text → Session → Type 0
IsOut hash s = (has_hash hash s ≡ false) ⊎ (is_none s.revoked_at ≡ false)

abbrev AreOut : Text → Db → Type 0
AreOut hash db = All (IsOut hash) db.sessions

-- The token that a login would draw has another hash.
abbrev pub DrawsOther : Text → Env → Type 0
DrawsOther hash env =
    (token : Text)
    → generate_session_token env.crypto ≡ some token
    → text_eq (hash_session_token env.crypto token) hash ≡ false

module _ (env : Env) (db : Db) where
  insert_user-sessions : (u : User) → (insert_user env u db).1.sessions ≡ db.sessions
  unfolding insert_user
  insert_user-sessions u = elim (Bool-cases (env.fails user_create)) [
    | inl down ↦ rw down refl
    | inr up ↦ elim (Option-cases (find? (λ v. is_taken_by v u) db.users)) [
      | inl n ↦ rw (up, n) refl
      | inr (x, f) ↦ rw (up, f) refl
    ]
  ]

  update_last_login-sessions :
      (id : Uuid) (moment : ℕ) → (update_last_login env id moment db).1.sessions ≡ db.sessions
  unfolding update_last_login
  update_last_login-sessions id moment = elim (Bool-cases (env.fails user_last_login)) [
    | inl down ↦ rw down refl
    | inr up ↦ elim (Option-cases (find? (is_live_user id) db.users)) [
      | inl n ↦ rw (up, n) refl
      | inr (x, f) ↦ rw (up, f) refl
    ]
  ]

  inserted_out :
      (hash : Text) (s : Session)
      → has_hash hash s ≡ false
      → AreOut hash db
      → AreOut hash (insert_session env s db).1
  unfolding insert_session
  inserted_out hash s n a = elim (Bool-cases (env.fails session_create)) [
    | inl down ↦ rw down a
    | inr up ↦ elim (Option-cases (find? (λ t. clashes t s) db.sessions)) [
      | inr (x, f) ↦ rw (up, f) a
      | inl free ↦ rw (up, free) (All-append (IsOut hash) db.sessions _ a (inl n, tt))
    ]
  ]

  revoked_out : (hash : Text) (id : Uuid) → AreOut hash db → AreOut hash (revoke env id db).1
  unfolding revoke
  revoked_out hash id a = elim (Bool-cases (env.fails session_revoke)) [
    | inl down ↦ rw down a
    | inr up ↦ elim (Option-cases (find? (λ s. s.id == id) db.sessions)) [
      | inl n ↦ rw (up, n) a
      | inr (x, f) ↦
          rw (up, f) (All-updated (IsOut hash) (λ s. s.id == id) (revoked env) db.sessions still a)
    ]
  ]
    where
      still : (s : Session) → IsOut hash s → IsOut hash (if s.id == id then revoked env s else s)
      still s o = elim (Bool-cases (s.id == id)) [
        | inl hit ↦ rw hit (inr refl)
        | inr miss ↦ rw miss o
      ]

  swept_out :
      (hash : Text) (now limit : ℕ)
      → AreOut hash db
      → AreOut hash (delete_expired env now limit db).1
  unfolding delete_expired
  swept_out hash now limit a = elim (Bool-cases (env.fails session_cleanup)) [
    | inl down ↦ rw down a
    | inr up ↦ rw up (All-sweep (is_over now) (IsOut hash) limit db.sessions a)
  ]

stays_out : (hash : Text) → Keeps (AreOut hash) (DrawsOther hash)
stays_out hash = record {
  elsewhere = λ db db' users sessions a. rw sessions a;
  user_inserted = λ env u db a. rw (insert_user-sessions env db u) a;
  login_noted = λ env id moment db a. rw (update_last_login-sessions env db id moment) a;
  session_inserted =
      λ env u token db q e a. inserted_out env db hash (new_session env u token) (q token e) a;
  session_revoked = λ env id db a. revoked_out env db hash id a;
  sessions_swept = λ env now limit db a. swept_out env db hash now limit a;
}

revoke_ok :
    (env : Env) (id : Uuid) (db db' : Db)
    → revoke env id db ≡ (ok tt, db')
    → db'.sessions ≡ update_where (λ s. s.id == id) (revoked env) db.sessions
unfolding revoke
revoke_ok env id db db' h = elim (Bool-cases (env.fails session_revoke)) [
  | inl down ↦ absurd (ground arith)
  | inr up ↦ elim (Option-cases (find? (λ s. s.id == id) db.sessions)) [
    | inl n ↦ absurd (let k = rw (up, n) at h in ground arith)
    | inr (x, f) ↦ let k = rw (up, f) at h in ap (λ d. d.sessions) (sym (ap (λ r. r.1) k))
  ]
]

-- The session that was found by the hash is out once it is revoked, and no other has the hash.
out_after :
    (env : Env) (hash : Text) (s : Session) (db db' : Db)
    → AreDistinct db
    → find? (has_hash hash) db.sessions ≡ some s
    → revoke env s.id db ≡ (ok tt, db')
    → AreOut hash db'
out_after env hash s db db' d found h = rw (revoke_ok env s.id db db' h) (
    All-updated (IsOut hash) (λ t. t.id == s.id) (revoked env) db.sessions case
      (found_only clashes (has_hash hash) (clash-has_hash hash) db.sessions d.1 found))
  where
    case :
        (t : Session)
        → (has_hash hash t ≡ false) ⊎ (t ≡ s)
        → IsOut hash (if t.id == s.id then revoked env t else t)
    case t o = elim (Bool-cases (t.id == s.id)) [
      | inl hit ↦ rw hit (inr refl)
      | inr miss ↦ rw miss (elim o [
        | inl n ↦ inl n
        | inr e ↦ absurd (let same = (==_iff t.id s.id).1 (ap (λ x. x.id) e) in ground arith)
      ])
    ]

out_is_refused :
    (env : Env) (header token : Text) (db : Db)
    → AreOut (hash_session_token env.crypto token) db
    → env.fails session_get ≡ false
    → parse_bearer_token header ≡ some token
    → require_auth env header db ≡ (err unauthorized, db)
out_is_refused env header token db a up parsed =
    let hash = hash_session_token env.crypto token in
    elim (Option-cases (find? (has_hash hash) db.sessions)) [
      | inl n ↦ unknown env header db token up parsed n
      | inr (s, f) ↦ elim (All-found (IsOut hash) (has_hash hash) db.sessions a f) [
        | inl n ↦ absurd (let t = find?-test (has_hash hash) db.sessions f in ground arith)
        | inr out ↦ refused env header db token s up parsed f (over s env.now out)
      ]
    ]
  where
    over : (s : Session) (now : ℕ) → is_none s.revoked_at ≡ false → is_valid s now ≡ false
    over s now out = elim (Option-cases s.revoked_at) [
      | inl live ↦ absurd (let k = rw live at out in ground arith)
      | inr (moment, e) ↦ rw e refl
    ]

module _ (env worker later : Env) (header token : Text) (identity : AuthenticatedUser)
    (db db' last : Db) where
  -- Once a token's session has been logged out, the token is refused for good, whatever calls on
  -- accounts run in between and however late the request is, for distinct sessions and as long as no
  -- login draws a token with the same hash.
  pub logged_out_stays_out :
      AreDistinct db
      → require_auth env header db ≡ (ok identity, db)
      → parse_bearer_token header ≡ some token
      → logout worker identity.session_id db ≡ (ok tt, db')
      → AccountSteps (DrawsOther (hash_session_token env.crypto token)) db' last
      → later.crypto ≡ env.crypto
      → later.fails session_get ≡ false
      → require_auth later header last ≡ (err unauthorized, last)
  unfolding logout
  logged_out_stays_out d entered parsed left steps same up =
      let (t, s, u, parsed', found, valid, known, active, is) =
        admission env header db identity db entered in
      let one_token : t ≡ token = some_inj.0 (sym parsed' ∙ parsed) in
      let hash = hash_session_token env.crypto token in
      let found' : find? (has_hash hash) db.sessions ≡ some s = rw one_token at found in
      let gone : revoke worker s.id db ≡ (ok tt, db') = rw is at left in
      let out =
        steps_keep (AreOut hash) (DrawsOther hash) (stays_out hash)
          (out_after worker hash s db db' d found' gone) steps in
      let out' : AreOut (hash_session_token later.crypto token) last = rw same out in
      out_is_refused later header token last out' up parsed
