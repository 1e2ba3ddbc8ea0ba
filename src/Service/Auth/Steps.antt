-- ===== src/Service/Auth/Steps.antt =====
-- Sequences of calls on accounts, by anyone and with any failures, as a step relation.
use go_invoicing.Base.{◌≡◌, Bool, ℕ}
use go_invoicing.Base.Text.{Text}
use go_invoicing.Admin.{Uuid}
use go_invoicing.Admin.User.{CreateUserRequest}
use go_invoicing.Store.{Db, Env}
use go_invoicing.Service.Auth.{login, logout, new_session}
use go_invoicing.Service.Auth.Cleanup.{run_iteration}
use go_invoicing.Service.Auth.Kept.{Keeps, login_keeps, logout_keeps, run_iteration_keeps}
use go_invoicing.Service.Auth.Accounts.{
  AreDistinct, insert_user-AreDistinct, update_last_login-AreDistinct, insert_session-AreDistinct,
  revoke-AreDistinct, delete_expired-AreDistinct,
}
use go_invoicing.Service.Users.{create_user}
use go_invoicing.Service.Users.Laws.Kept.{create_user_keeps}
use go_invoicing.Service.Organisations.Register.{register}
use go_invoicing.Service.Organisations.Laws.Kept.{register_keeps}

-- One call, where the surroundings of a login are of some kind. `elsewhere` is any change of the other
-- tables, made by the other services.
pub data AccountStep (Q : Env → Type 0) (db : Db) : Db → Type 0 where
  logged_in :
      (env : Env) (email password : Text) → Q env → AccountStep Q db (login env email password db).1
  logged_out : (env : Env) (session : Uuid) → AccountStep Q db (logout env session db).1
  cleaned_up :
      (workers : ℕ → Env) (stopped : ℕ → Bool) (batch : ℕ)
      → AccountStep Q db (run_iteration workers stopped batch db).1
  created :
      (env : Env) (org : Uuid) (actor : Text) (r : CreateUserRequest)
      → AccountStep Q db (create_user env org actor r db).1
  registered :
      (env : Env) (organisation_name name email password : Text) (agreed : Bool)
      → AccountStep Q db (register env organisation_name name email password agreed db).1
  elsewhere : (db' : Db) → db'.users ≡ db.users → db'.sessions ≡ db.sessions → AccountStep Q db db'

pub data AccountSteps (Q : Env → Type 0) (db : Db) : Db → Type 0 where
  start : AccountSteps Q db db
  after : {mid last : Db} → AccountSteps Q db mid → AccountStep Q mid last → AccountSteps Q db last

module _ (P : Db → Type 0) (Q : Env → Type 0) (keeps : Keeps P Q) where
  step_keeps : {db db' : Db} → P db → AccountStep Q db db' → P db'
  step_keeps h (AccountStep.logged_in env email password q) =
      login_keeps P Q keeps env email password _ q h
  step_keeps h (AccountStep.logged_out env session) = logout_keeps P Q keeps env session _ h
  step_keeps h (AccountStep.cleaned_up workers stopped batch) =
      run_iteration_keeps P Q keeps workers stopped batch _ h
  step_keeps h (AccountStep.created env org actor r) =
      create_user_keeps P Q keeps env org actor r _ h
  step_keeps h (AccountStep.registered env o name email password agreed) =
      register_keeps P Q keeps env o name email password agreed _ h
  step_keeps h (AccountStep.elsewhere db' users sessions) = keeps.elsewhere _ db' users sessions h

  pub steps_keep : {db db' : Db} → P db → AccountSteps Q db db' → P db'
  steps_keep h AccountSteps.start = h
  steps_keep h (AccountSteps.after steps step) = step_keeps (steps_keep h steps) step

abbrev pub Any : Env → Type 0
Any env = Unit

accounts : Keeps AreDistinct Any
accounts = record {
  elsewhere = λ db db' users sessions h. rw (users, sessions) h;
  user_inserted = λ env u db h. insert_user-AreDistinct env db u h;
  login_noted = λ env id moment db h. update_last_login-AreDistinct env db id moment h;
  session_inserted =
      λ env u token db q e h. insert_session-AreDistinct env db (new_session env u token) h;
  session_revoked = λ env id db h. revoke-AreDistinct env db id h;
  sessions_swept = λ env now limit db h. delete_expired-AreDistinct env db now limit h;
}

-- However many logins, logouts, cleanups, creations of users and registrations run, with whatever
-- outcomes and failures and any changes of the other tables in between, no two users have one email or
-- identifier and no two sessions one token or identifier.
pub steps-AreDistinct : {db db' : Db} → AreDistinct db → AccountSteps Any db db' → AreDistinct db'
steps-AreDistinct d steps = steps_keep AreDistinct Any accounts d steps
