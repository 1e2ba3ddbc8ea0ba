-- ===== src/Service/Auth/Accounts.antt =====
-- The unique columns of users and sessions, through every call that writes them.
use go_invoicing.Base.Text.{Text, eq_of_text_eq, text_eq_refl}
use go_invoicing.Store.Sessions.{has_hash}
use go_invoicing.Base.{
  sym, ◌∙◌, true, ◌≡◌, refl, false, Bool-cases, inl, inr, ◌==◌, Option-cases, find?, arith, ℕ,
}
use go_invoicing.Base.Text.{text_eq, text_eq_sym}
use go_invoicing.Base.Time.{Time}
use go_invoicing.Errors.{
  user_create, user_last_login, session_create, session_revoke, session_cleanup,
}
use go_invoicing.Admin.{Uuid}
use go_invoicing.Admin.User.{User, Session}
use go_invoicing.Store.{Db, Env}
use go_invoicing.Store.Users.{
  is_taken_by, created_user, insert_user, update_last_login, logged_in, is_live_user,
}
use go_invoicing.Store.Sessions.{
  clashes, created_session, insert_session, revoke, revoked, delete_expired, is_over,
}
use go_invoicing.Store.Apart.{Apart, Apart-appended, Apart-sweep, Apart-update_where}
use go_invoicing.Store.Keys.{find?-none-All}

-- No two users with one email, deleted ones included, or one identifier, and no two sessions with one
-- hash of a token or one identifier.
abbrev pub AreDistinct : Db → Type 0
AreDistinct db = Apart is_taken_by db.users × Apart clashes db.sessions

is_taken_by_sym : (u v : User) → is_taken_by u v ≡ false → is_taken_by v u ≡ false
is_taken_by_sym u v h =
    let n : text_eq u.email v.email ≡ false = ground arith in
    let m = text_eq_sym u.email v.email n in ground (arith, m)

clashes_sym : (s t : Session) → clashes s t ≡ false → clashes t s ≡ false
clashes_sym s t h =
    let n : text_eq s.token_hash t.token_hash ≡ false = ground arith in
    let m = text_eq_sym s.token_hash t.token_hash n in ground (arith, m)

pub clash-has_hash :
    (hash : Text) (s t : Session)
    → has_hash hash s ≡ true
    → has_hash hash t ≡ true
    → clashes t s ≡ true
clash-has_hash hash s t h k =
    let e : s.token_hash ≡ t.token_hash =
      eq_of_text_eq s.token_hash hash h ∙ sym (eq_of_text_eq t.token_hash hash k) in
    rw e (let r = text_eq_refl t.token_hash in ground (arith, r))

pub clash-is_live_user :
    (id : Uuid) (u v : User)
    → is_live_user id u ≡ true
    → is_live_user id v ≡ true
    → is_taken_by v u ≡ true
clash-is_live_user id u v h k = ground arith

module _ (env : Env) (db : Db) where
  pub insert_user-AreDistinct : (u : User) → AreDistinct db → AreDistinct (insert_user env u db).1
  unfolding insert_user
  insert_user-AreDistinct u a = elim (Bool-cases (env.fails user_create)) [
    | inl down ↦ rw down a
    | inr up ↦ elim (Option-cases (find? (λ v. is_taken_by v u) db.users)) [
      | inr (x, f) ↦ rw (up, f) a
      | inl n ↦
          rw (up, n)
            (
              Apart-appended is_taken_by db.users (created_user env u)
                  (λ y. is_taken_by_sym y (created_user env u))
                  (find?-none-All (λ v. is_taken_by v u) db.users n) a.0,
              a.1,
            )
    ]
  ]

  pub update_last_login-AreDistinct :
      (id : Uuid) (moment : Time)
      → AreDistinct db
      → AreDistinct (update_last_login env id moment db).1
  unfolding update_last_login
  update_last_login-AreDistinct id moment a = elim (Bool-cases (env.fails user_last_login)) [
    | inl down ↦ rw down a
    | inr up ↦ elim (Option-cases (find? (is_live_user id) db.users)) [
      | inl n ↦ rw (up, n) a
      | inr (x, f) ↦
          rw (up, f)
            (
              Apart-update_where is_taken_by (is_live_user id) (logged_in env moment) (λ u v. refl)
                  (λ u v. refl) db.users a.0,
              a.1,
            )
    ]
  ]

  pub insert_session-AreDistinct :
      (s : Session) → AreDistinct db → AreDistinct (insert_session env s db).1
  unfolding insert_session
  insert_session-AreDistinct s a = elim (Bool-cases (env.fails session_create)) [
    | inl down ↦ rw down a
    | inr up ↦ elim (Option-cases (find? (λ t. clashes t s) db.sessions)) [
      | inr (x, f) ↦ rw (up, f) a
      | inl n ↦
          rw (up, n)
            (
              a.0,
              Apart-appended clashes db.sessions (created_session s)
                  (λ y. clashes_sym y (created_session s))
                  (find?-none-All (λ t. clashes t s) db.sessions n) a.1,
            )
    ]
  ]

  pub revoke-AreDistinct : (id : Uuid) → AreDistinct db → AreDistinct (revoke env id db).1
  unfolding revoke
  revoke-AreDistinct id a = elim (Bool-cases (env.fails session_revoke)) [
    | inl down ↦ rw down a
    | inr up ↦ elim (Option-cases (find? (λ s. s.id == id) db.sessions)) [
      | inl n ↦ rw (up, n) a
      | inr (x, f) ↦
          rw (up, f)
            (
              a.0,
              Apart-update_where clashes (λ s. s.id == id) (revoked env) (λ s t. refl) (λ s t. refl)
                  db.sessions a.1,
            )
    ]
  ]

  pub delete_expired-AreDistinct :
      (now : Time) (limit : ℕ) → AreDistinct db → AreDistinct (delete_expired env now limit db).1
  unfolding delete_expired
  delete_expired-AreDistinct now limit a = elim (Bool-cases (env.fails session_cleanup)) [
    | inl down ↦ rw down a
    | inr up ↦ rw up (a.0, Apart-sweep clashes (is_over now) limit db.sessions a.1)
  ]
