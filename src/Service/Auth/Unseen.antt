-- ===== src/Service/Auth/Unseen.antt =====
-- The cleanup of sessions changes no answer of the authentication.
use go_invoicing.Service.Auth.Cleanup.{after_round, drain, run_iteration, CleanupEnd}
use go_invoicing.Service.Auth.Accounts.{delete_expired-AreDistinct}
use go_invoicing.Store.Sessions.{delete_expired, get_by_token_hash}
use go_invoicing.Service.Auth.{hide_missing_session}
use go_invoicing.Errors.{ok, Result, session_cleanup, internal}
use go_invoicing.Store.Binds.{bind_failed}
use go_invoicing.Base.{Bool, suc, zero, ℕ, length, ltb, none}
use go_invoicing.Base.{
  ℕ, ◌≤◌, ◌≡◌, ◌∙◌, refl, sym, ap, true, false, not, Bool-cases, inl, inr, Option-cases, some,
  find?, List, arith,
}
use go_invoicing.Base.Text.{Text}
use go_invoicing.Errors.{err, session_get, user_auth, unauthorized}
use go_invoicing.Admin.User.{
  AuthenticatedUser, Session, is_valid, hash_session_token, parse_bearer_token,
}
use go_invoicing.Base.Time.{Time}
use go_invoicing.Admin.{Uuid}
use go_invoicing.Store.Binds.{bind_answer}
use go_invoicing.Store.{Db, Env, pure, throw_if, ◌>>=◌}
use go_invoicing.Store.Users.{get_for_authentication}
use go_invoicing.Store.Sessions.{has_hash, clashes, sweep, is_over}
use go_invoicing.Store.Apart.{find?-sweep, find?-sweep-cases, find?-none-sweep}
use go_invoicing.Service.Auth.{
  require_auth, check_session, admit, identity_of, with_error, renamed_result, hide_missing_user,
}
use go_invoicing.Service.Auth.Accounts.{AreDistinct}
use go_invoicing.Service.Auth.Request.{refused, unknown, resolved}
use go_invoicing.Service.Auth.Accounts.{clash-has_hash}

module _ (env : Env) (header : Text) (db : Db) (left : List Session) where
  abbrev after : Db
  after = record db { sessions = left }

  user_answer :
      (id : Uuid) → (get_for_authentication env id after).0 ≡ (get_for_authentication env id db).0
  unfolding get_for_authentication
  user_answer id = elim (Bool-cases (env.fails user_auth)) [
    | inl down ↦ rw down refl
    | inr up ↦ rw up refl
  ]

  -- A session's user is read from the other table.
  session_answer : (s : Session) → (check_session env s after).0 ≡ (check_session env s db).0
  session_answer s =
      bind_answer (throw_if (not (is_valid s env.now)) unauthorized)
        (λ _. with_error hide_missing_user (get_for_authentication env s.user_id) >>= admit s) after
        db refl
        (λ _.
          bind_answer (with_error hide_missing_user (get_for_authentication env s.user_id))
            (admit s) after db (ap (renamed_result hide_missing_user) (user_answer s.user_id))
            (λ u.
              bind_answer (throw_if (not u.is_active) unauthorized) (λ _. pure (identity_of u s)) _
                _ refl (λ _. refl)))

  same_answer :
      (token : Text) (s : Session)
      → env.fails session_get ≡ false
      → parse_bearer_token header ≡ some token
      → find? (has_hash (hash_session_token env.crypto token)) db.sessions ≡ some s
      → find? (has_hash (hash_session_token env.crypto token)) left ≡ some s
      → (require_auth env header after).0 ≡ (require_auth env header db).0
  same_answer token s up parsed f g =
      ap (λ r. r.0) (resolved env header after token s up parsed g)
      ∙ session_answer s
      ∙ sym (ap (λ r. r.0) (resolved env header db token s up parsed f))

module _ (env : Env) (header : Text) (db : Db) (now : Time) (limit : ℕ) where
  abbrev remaining : List Session
  remaining = sweep (is_over now) limit db.sessions

  over_still : (s : Session) → now ≤ env.now → is_over now s ≡ true → is_valid s env.now ≡ false
  over_still s later h = elim (Option-cases s.revoked_at) [
    | inl live ↦ rw live (let k = rw live at h in ground arith)
    | inr (moment, out) ↦ rw out refl
  ]

  token_answer :
      (token : Text)
      → AreDistinct db
      → now ≤ env.now
      → env.fails session_get ≡ false
      → parse_bearer_token header ≡ some token
      → (require_auth env header (after env header db remaining)).0 ≡ (require_auth env header db).0
  token_answer token d later up parsed =
      let hash = hash_session_token env.crypto token in
      let cleaned = after env header db remaining in
      elim (Option-cases (find? (has_hash hash) db.sessions)) [
        | inl n ↦
            ap (λ r. r.0)
              (unknown env header cleaned token up parsed
                (find?-none-sweep clashes (has_hash hash) (is_over now) limit db.sessions n))
            ∙ sym (ap (λ r. r.0) (unknown env header db token up parsed n))
        | inr (s, f) ↦ elim (Bool-cases (is_over now s)) [
          | inr kept ↦ same_answer env header db remaining token s up parsed f (
              find?-sweep clashes (has_hash hash) (clash-has_hash hash) (is_over now) limit
                db.sessions d.1 f kept)
          | inl over ↦
              let before : (require_auth env header db).0 ≡ err unauthorized =
                ap (λ r. r.0)
                  (refused env header db token s up parsed f (over_still s later over)) in
              elim (find?-sweep-cases clashes (has_hash hash) (clash-has_hash hash) (is_over now)
                limit db.sessions d.1 f) [
                  | inl n ↦
                      ap (λ r. r.0) (unknown env header cleaned token up parsed n) ∙ sym before
                  | inr g ↦ same_answer env header db remaining token s up parsed f g
                ]
        ]
      ]

module _ (env : Env) (header : Text) where
  abbrev answer : Db → Result AuthenticatedUser
  answer db = (require_auth env header db).0

  no_token : (db db' : Db) → parse_bearer_token header ≡ none → answer db' ≡ answer db
  unfolding require_auth
  no_token db db' n = rw (answer, n) refl

  unread :
      (token : Text) (db : Db)
      → env.fails session_get ≡ true
      → with_error hide_missing_session
          (get_by_token_hash env (hash_session_token env.crypto token))
          db
        ≡ (err (internal session_get), db)
  unfolding get_by_token_hash
  unread token db down = rw down refl

  no_database :
      (db db' : Db) (token : Text)
      → parse_bearer_token header ≡ some token
      → env.fails session_get ≡ true
      → answer db' ≡ answer db
  unfolding require_auth
  no_database db db' token parsed down =
      let read =
        with_error hide_missing_session
          (get_by_token_hash env (hash_session_token env.crypto token)) in
      rw (answer, parsed)
        (ap (λ r. r.0) (bind_failed read (check_session env) db' (unread token db' down))
          ∙ sym (ap (λ r. r.0) (bind_failed read (check_session env) db (unread token db down))))

  one_delete :
      (worker : Env) (now : Time) (limit : ℕ) (db : Db)
      → AreDistinct db
      → now ≤ env.now
      → answer (delete_expired worker now limit db).1 ≡ answer db
  unfolding delete_expired
  one_delete worker now limit db d later = elim (Bool-cases (worker.fails session_cleanup)) [
    | inl off ↦ rw off refl
    | inr on ↦ elim (Option-cases (parse_bearer_token header)) [
      | inl n ↦ no_token db (delete_expired worker now limit db).1 n
      | inr (token, parsed) ↦ elim (Bool-cases (env.fails session_get)) [
        | inl down ↦ no_database db (delete_expired worker now limit db).1 token parsed down
        | inr up ↦ rw on (token_answer env header db now limit token d later up parsed)
      ]
    ]
  ]

  module _ (workers : ℕ → Env) (stopped : ℕ → Bool) (batch : ℕ) where
    round_answer :
        (next : Db → CleanupEnd × Db) (over : Bool) (deleted : Result ℕ) (db : Db)
        → answer (next db).1 ≡ answer db
        → answer (after_round next over batch deleted db).1 ≡ answer db
    round_answer next over (err e) db h = refl
    round_answer next over (ok n) db h = elim (Bool-cases (ltb n batch)) [
      | inl few ↦ rw few refl
      | inr full ↦ elim (Bool-cases over) [
        | inl done ↦ rw (full, done) refl
        | inr on ↦ rw (full, on) h
      ]
    ]

    unseen_rounds :
        (fuel round : ℕ) (db : Db)
        → AreDistinct db
        → ((k : ℕ) → (workers k).now ≤ env.now)
        → answer (drain fuel workers stopped batch round db).1 ≡ answer db
    unfolding drain
    unseen_rounds zero round db d later = refl
    unseen_rounds (suc fuel) round db d later =
        let worker = workers round in
        let (deleted, cleaned) = delete_expired worker worker.now batch db in
        round_answer (drain fuel workers stopped batch (suc round)) (stopped round) deleted cleaned
          (unseen_rounds fuel (suc round) cleaned
            (delete_expired-AreDistinct worker db worker.now batch d) later)
        ∙ one_delete worker worker.now batch db d (later round)

    -- The cleanup worker is unseen: whatever a request is answered after an iteration, it would have
    -- been answered before it too, for distinct sessions and a request that is not earlier than the
    -- iteration.
    pub cleanup_is_unseen :
        (db : Db)
        → AreDistinct db
        → ((k : ℕ) → (workers k).now ≤ env.now)
        → answer (run_iteration workers stopped batch db).1 ≡ answer db
    unfolding run_iteration
    cleanup_is_unseen db d later = unseen_rounds (suc (length db.sessions)) 0 db d later
