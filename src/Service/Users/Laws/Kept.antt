-- ===== src/Service/Users/Laws/Kept.antt =====
-- What a creation of a user keeps (user_service.go).
use go_invoicing.Base.{◌≡◌, refl, none, some, Option}
use go_invoicing.Base.Text.{Text}
use go_invoicing.Errors.{Error, password_hash_random}
use go_invoicing.Admin.{Uuid}
use go_invoicing.Admin.Password.{hash_password}
use go_invoicing.Admin.User.{CreateUserRequest, user_role_admin, user_role_manager}
use go_invoicing.Base.{Bool-cases, inl, inr}
use go_invoicing.Base.Text.{text_eq}
use go_invoicing.Store.{Db, Env, ◌>>=◌, ◌>>◌}
use go_invoicing.Store.Binds.{bind_keeps}
use go_invoicing.Store.Parties.{get_organisation}
use go_invoicing.Store.Users.{insert_user}
use go_invoicing.Service.Auth.Kept.{Keeps}
use go_invoicing.Service.Users.{
  create_user, insert_checked, new_user, validate_user_fields, validate_target_role,
  check_assignment, is_known_role, requested_role, or_throw,
}
use go_invoicing.Service.Users.Laws.{validate_user_fields_same}
use go_invoicing.Service.Users.Laws.Creation.{get_organisation_same}

pub or_throw_same {ℓ} : {A : Type ℓ} (o : Option A) (e : Error) (db : Db) → (or_throw o e db).1 ≡ db
or_throw_same none e db = refl
or_throw_same (some a) e db = refl

check_assignment_same : (actor role : Text) (db : Db) → (check_assignment actor role db).1 ≡ db
unfolding check_assignment
check_assignment_same actor role db = elim (Bool-cases (text_eq actor user_role_admin)) [
  | inl a ↦ rw a refl
  | inr n ↦ elim (Bool-cases (text_eq actor user_role_manager)) [
    | inl m ↦ rw (n, m) refl
    | inr o ↦ rw (n, o) refl
  ]
]

validate_target_role_same : (role : Text) (db : Db) → (validate_target_role role db).1 ≡ db
unfolding validate_target_role
validate_target_role_same role db = elim (Bool-cases (is_known_role (requested_role role))) [
  | inl known ↦ rw known refl
  | inr bad ↦ rw bad refl
]

module _ (P : Db → Type 0) (Q : Env → Type 0) (keeps : Keeps P Q) (env : Env) where
  inserted_keeps :
      (org : Uuid) (password : Text) (names : Text × Text) (role : Text) (db : Db)
      → P db
      → P (insert_checked env org password names role db).1
  inserted_keeps org password names role db h =
      let last = λ (hash : Text). insert_user env (new_user env org names role hash) in
      let hashed = or_throw (hash_password env.crypto password) password_hash_random in
      bind_keeps P (get_organisation env org) (λ _. hashed >>= last) db
        (rw (get_organisation_same env org db) h)
        (λ o mid k.
          bind_keeps P hashed last mid
            (rw (or_throw_same (hash_password env.crypto password) password_hash_random mid) k)
            (λ hash mid' k'. keeps.user_inserted env (new_user env org names role hash) mid' k'))

  pub create_user_keeps :
      (org : Uuid) (actor : Text) (r : CreateUserRequest) (db : Db)
      → P db
      → P (create_user env org actor r db).1
  unfolding create_user
  create_user_keeps org actor r db h =
      let third = λ (names : Text × Text) (role : Text).
        check_assignment actor role >> insert_checked env org r.password names role in
      let second = λ (names : Text × Text). validate_target_role r.role >>= third names in
      bind_keeps P (validate_user_fields env r.name r.email r.password) second db
        (rw (validate_user_fields_same env r.name r.email r.password db) h)
        (λ names mid k.
          bind_keeps P (validate_target_role r.role) (third names) mid
            (rw (validate_target_role_same r.role mid) k)
            (λ role mid' k'.
              bind_keeps P (check_assignment actor role)
                (λ _. insert_checked env org r.password names role) mid'
                (rw (check_assignment_same actor role mid') k')
                (λ _ mid'' k''. inserted_keeps org r.password names role mid'' k'')))
