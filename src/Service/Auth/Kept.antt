-- ===== src/Service/Auth/Kept.antt =====
-- What the statements on users and sessions keep, the calls keep that are made of them.
use go_invoicing.Base.{
  Bool, ◌≡◌, refl, not, none, some, Option, ℕ, suc, zero, ltb, inl, inr, Bool-cases, length,
}
use go_invoicing.Admin.Password.{verify_password}
use go_invoicing.Base.Time.{Time}
use go_invoicing.Base.Text.{Text, is_empty}
use go_invoicing.Errors.{
  user_by_email, Result, ok, err, login_email_required, login_password_required,
  invalid_credentials,
}
use go_invoicing.Admin.{Uuid}
use go_invoicing.Admin.User.{User, generate_session_token}
use go_invoicing.Store.{Db, Env, pure, throw_if, in_tx, ◌>>=◌}
use go_invoicing.Store.Binds.{bind_keeps, in_tx_keeps}
use go_invoicing.Store.Users.{get_by_email, insert_user, update_last_login}
use go_invoicing.Store.Sessions.{insert_session, revoke, delete_expired}
use go_invoicing.Service.Auth.{
  login, login_user, login_with, login_result, record_login, new_session, normalized_email,
  with_error, hide_unknown_user, logout,
}
use go_invoicing.Service.Auth.Cleanup.{after_round, drain, run_iteration, CleanupEnd}

-- What each statement keeps, for logins that meet surroundings of some kind.
pub record Keeps (P : Db → Type 0) (Q : Env → Type 0) : Type 0 where
  pub elsewhere : (db db' : Db) → db'.users ≡ db.users → db'.sessions ≡ db.sessions → P db → P db'
  pub user_inserted : (env : Env) (u : User) (db : Db) → P db → P (insert_user env u db).1
  pub login_noted :
      (env : Env) (id : Uuid) (moment : Time) (db : Db)
      → P db
      → P (update_last_login env id moment db).1
  pub session_inserted :
      (env : Env) (u : User) (token : Text) (db : Db)
      → Q env
      → generate_session_token env.crypto ≡ some token
      → P db
      → P (insert_session env (new_session env u token) db).1
  pub session_revoked : (env : Env) (id : Uuid) (db : Db) → P db → P (revoke env id db).1
  pub sessions_swept :
      (env : Env) (now : Time) (limit : ℕ) (db : Db) → P db → P (delete_expired env now limit db).1

module _ (P : Db → Type 0) (Q : Env → Type 0) (keeps : Keeps P Q) where
  module _ (env : Env) where
    login_with_keeps :
        (u : User) (t : Option Text) (db : Db)
        → Q env
        → generate_session_token env.crypto ≡ t
        → P db
        → P (login_with env u t db).1
    login_with_keeps u none db q e h = h
    login_with_keeps u (some token) db q e h =
        bind_keeps P (in_tx env (record_login env u token)) (λ _. pure (login_result env u token))
          db
          (in_tx_keeps P env (record_login env u token) db h (
            bind_keeps P (insert_session env (new_session env u token))
              (λ _. update_last_login env u.id env.now) db
              (keeps.session_inserted env u token db q e h)
              (λ a mid k. keeps.login_noted env u.id env.now mid k)))
          (λ a mid k. k)

    login_user_keeps :
        (password : Text) (u : User) (db : Db) → Q env → P db → P (login_user env password u db).1
    login_user_keeps password u db q h =
        let next = λ (_ : Unit {0}). login_with env u (generate_session_token env.crypto) in
        bind_keeps P
          (throw_if (not (verify_password env.crypto password u.password_hash)) invalid_credentials)
          (λ _. throw_if (not u.is_active) invalid_credentials >>= next) db h
          (λ _ mid k.
            bind_keeps P (throw_if (not u.is_active) invalid_credentials) next mid k
              (λ _ mid' k'. login_with_keeps u (generate_session_token env.crypto) mid' q refl k'))

    get_by_email_keeps :
        (email : Text) (db : Db)
        → P db
        → P (with_error hide_unknown_user (get_by_email env email) db).1
    unfolding get_by_email
    get_by_email_keeps email db h = elim (Bool-cases (env.fails user_by_email)) [
      | inl down ↦ rw down h
      | inr up ↦ rw up h
    ]

    pub login_keeps :
        (email password : Text) (db : Db) → Q env → P db → P (login env email password db).1
    unfolding login
    login_keeps email password db q h =
        let named = normalized_email env email in
        let lookup = with_error hide_unknown_user (get_by_email env named) in
        let last = λ (_ : Unit {0}). lookup >>= login_user env password in
        bind_keeps P (throw_if (is_empty named) login_email_required)
          (λ _. throw_if (is_empty password) login_password_required >>= last) db h
          (λ _ mid k.
            bind_keeps P (throw_if (is_empty password) login_password_required) last mid k
              (λ _ mid' k'.
                bind_keeps P lookup (login_user env password) mid'
                  (get_by_email_keeps named mid' k')
                  (λ u mid'' k''. login_user_keeps password u mid'' q k'')))

    pub logout_keeps : (id : Uuid) (db : Db) → P db → P (logout env id db).1
    unfolding logout
    logout_keeps id db h = keeps.session_revoked env id db h

  module _ (workers : ℕ → Env) (stopped : ℕ → Bool) (batch : ℕ) where
    round_keeps :
        (next : Db → CleanupEnd × Db) (over : Bool) (deleted : Result ℕ) (db : Db)
        → P (next db).1
        → P db
        → P (after_round next over batch deleted db).1
    round_keeps next over (err e) db n h = h
    round_keeps next over (ok m) db n h = elim (Bool-cases (ltb m batch)) [
      | inl few ↦ rw few h
      | inr full ↦ elim (Bool-cases over) [
        | inl done ↦ rw (full, done) h
        | inr on ↦ rw (full, on) n
      ]
    ]

    drain_keeps :
        (fuel round : ℕ) (db : Db) → P db → P (drain fuel workers stopped batch round db).1
    unfolding drain
    drain_keeps zero round db h = h
    drain_keeps (suc fuel) round db h =
        let worker = workers round in
        let (deleted, cleaned) = delete_expired worker worker.now batch db in
        let k = keeps.sessions_swept worker worker.now batch db h in
        round_keeps (drain fuel workers stopped batch (suc round)) (stopped round) deleted cleaned
          (drain_keeps fuel (suc round) cleaned k) k

    pub run_iteration_keeps : (db : Db) → P db → P (run_iteration workers stopped batch db).1
    unfolding run_iteration
    run_iteration_keeps db h = drain_keeps (suc (length db.sessions)) 0 db h
