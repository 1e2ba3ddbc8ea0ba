-- ===== src/Examples/Accounts.antt =====
-- The theorems on users, sessions and passwords, at the user 5.
use go_invoicing.Store.Parties.{get_organisation}
use go_invoicing.Store.Sessions.{revoke, get_by_token_hash}
use go_invoicing.Base.{ℕ, ◌≡◌, ◌↔◌, refl, false, true, some, [], ◌∷◌, List, arith, ◌+◌}
use go_invoicing.Base.Text.{trim_space, lower_code, is_space, Text, codes}
use go_invoicing.Errors.{ok, err, unauthorized}
use go_invoicing.Admin.Password.{
  hash_password, verify_password, encoded_hash, derived_key, argon2_salt_length,
}
use go_invoicing.Admin.Password.Laws.{verify_password-hash_password}
use go_invoicing.Admin.User.{
  parse_bearer_token, User, Session, CreateUserRequest, session_ttl, user_role_admin,
  user_role_user,
}
use go_invoicing.Store.{Db, Env}
use go_invoicing.Store.Users.{insert_user, get_for_authentication}
use go_invoicing.Service.Auth.{require_auth, identity_of, new_session, login, login_result, logout}
use go_invoicing.Service.Auth.Accounts.{AreDistinct}
use go_invoicing.Service.Auth.Cleanup.{run_iteration, Rounds}
use go_invoicing.Service.Auth.Login.{with_login}
use go_invoicing.Service.Auth.Accept.{Works}
use go_invoicing.Service.Auth.Request.{Grants, require_auth_iff}
use go_invoicing.Service.Auth.Unseen.{cleanup_is_unseen}
use go_invoicing.Service.Auth.Cleanup.{run_iteration_ends}
use go_invoicing.Service.Auth.Steps.{AccountStep, AccountSteps, steps-AreDistinct}
use go_invoicing.Service.Auth.Out.{logged_out_stays_out}
use go_invoicing.Service.Users.{
  check_assignment, validate_target_role, validate_user_fields, create_user, new_user,
}
use go_invoicing.Service.Users.Laws.Creation.{HasCreated, create_user_ok}
use go_invoicing.Service.Users.Laws.FirstLogin.{created_user_logs_in}
use go_invoicing.Examples.Crypto.{crypto, coding}
use go_invoicing.Examples.Data.{env, db, user}

abbrev header : Text
header = codes "bearer a"

abbrev token : Text
token = codes "a"

abbrev session : Session
session = record (new_session env user token) { id = 9 }

abbrev live_db : Db
live_db = record db { sessions = session ∷ [] }

abbrev out_db : Db
out_db = record db { sessions = record session { revoked_at = some env.db_now } ∷ [] }

abbrev swept_db : Db
swept_db = (run_iteration (λ k. env) (λ k. false) 1 out_db).1

logged_out_stays_out_example : require_auth env header swept_db ≡ (err unauthorized, swept_db)
unfolding require_auth parse_bearer_token is_space lower_code get_by_token_hash
    get_for_authentication logout revoke
logged_out_stays_out_example =
    logged_out_stays_out env env env header token (identity_of user session) live_db out_db swept_db
      ((tt, tt), (tt, tt)) refl refl refl
      (AccountSteps.after AccountSteps.start (AccountStep.cleaned_up (λ k. env) (λ k. false) 1))
      refl refl

abbrev tomorrow : Env
tomorrow = record env { now = env.now + session_ttl }

require_auth_iff_example :
    (require_auth env header live_db ≡ (ok (identity_of user session), live_db))
    ↔ Grants env header live_db (identity_of user session)
require_auth_iff_example = require_auth_iff env header live_db (identity_of user session) refl refl

run_iteration_ends_example :
    Rounds (λ k. env) (λ k. false) 1 0 out_db (run_iteration (λ k. env) (λ k. false) 1 out_db)
run_iteration_ends_example = run_iteration_ends (λ k. env) (λ k. false) 1 out_db (omega arith)

cleanup_is_unseen_example :
    (require_auth env header (run_iteration (λ k. env) (λ k. false) 1 live_db).1).0
    ≡ (require_auth env header live_db).0
cleanup_is_unseen_example =
    cleanup_is_unseen env header (λ k. env) (λ k. false) 1 live_db ((tt, tt), (tt, tt))
      (λ k. omega arith)

steps-AreDistinct_example : AreDistinct swept_db
steps-AreDistinct_example =
    steps-AreDistinct {db = out_db} {db' = swept_db} ((tt, tt), (tt, tt))
      (AccountSteps.after AccountSteps.start (AccountStep.cleaned_up (λ k. env) (λ k. false) 1))

abbrev password : Text
password = codes "battery staple"

abbrev request : CreateUserRequest
request = record {
  name = codes " Bob ";
  email = codes "Bob@alder.example";
  password = password;
  role = [];
}

abbrev hash : Text
hash = encoded_hash crypto (7 ∷ 16 ∷ []) (derived_key crypto password (7 ∷ 16 ∷ []))

abbrev bob : User
bob = record (new_user env 1 (codes "Bob", codes "bob@alder.example") user_role_user hash) {
  created_at = env.db_now;
  updated_at = env.db_now;
}

abbrev bob_db : Db
bob_db = record db { users = user ∷ bob ∷ [] }

create_user_ok_example : HasCreated env 1 user_role_admin request bob db bob_db
unfolding create_user validate_user_fields trim_space is_space validate_target_role check_assignment
    get_organisation hash_password insert_user lower_code
create_user_ok_example = create_user_ok env 1 user_role_admin request bob db bob_db refl

abbrev works : Works env
works = record { looks_up = refl; begins = refl; inserts = refl; updates = refl; commits = refl }

created_user_logs_in_example :
    login env (codes "Bob@alder.example") password bob_db
    ≡ (ok (login_result env bob token), with_login env bob token bob_db)
unfolding create_user validate_user_fields trim_space is_space validate_target_role check_assignment
    get_organisation hash_password insert_user lower_code
created_user_logs_in_example =
    created_user_logs_in env env 1 user_role_admin request bob token db bob_db coding refl works
      refl refl refl refl

verify_password-hash_password_example :
    (salt : List ℕ) × (crypto.random argon2_salt_length ≡ some salt)
    × ((verify_password crypto (codes "other") hash ≡ true)
        ↔ (derived_key crypto (codes "other") salt ≡ derived_key crypto password salt))
    × (verify_password crypto password hash ≡ true)
unfolding hash_password
verify_password-hash_password_example =
    verify_password-hash_password crypto coding password (codes "other") hash refl
