-- ===== src/Service/Users/Laws.antt =====
-- What a creation of a user that succeeds has checked and written (user_service.go).
pub mod Creation
pub mod FirstLogin
pub mod Kept
use go_invoicing.Base.{refl, ltb, not}
use go_invoicing.Errors.{
  Result, user_name_required, user_email_required, user_email_invalid, user_password_required,
  user_password_too_short,
}
use go_invoicing.Store.{pure, throw_if, ◌>>◌}
use go_invoicing.Store.Binds.{throw_if_then}
use go_invoicing.Base.{◌≡◌, ◌≤◌, ◌⊎◌, true, false, Bool-cases, inl, inr, ltb, arith}
use go_invoicing.Base.Text.{Text, text_eq, is_empty, byte_length, eq_of_text_eq, trim_space}
use go_invoicing.Errors.{ok}
use go_invoicing.Admin.User.{user_role_admin, user_role_manager, user_role_user}
use go_invoicing.Store.{Db, Env}
use go_invoicing.Service.Auth.{normalized_email}
use go_invoicing.Service.Users.{
  validate_user_fields, check_assignment, is_known_role, min_password_length,
}

-- Fields that passed the checks.
pub record AreValidFields (env : Env) (name email password : Text) (names : Text × Text)
    : Type 0 where
  pub named : is_empty (trim_space name) ≡ false
  pub addressed : env.valid_address (normalized_email env email) ≡ true
  pub reachable : is_empty (normalized_email env email) ≡ false
  pub long : min_password_length ≤ byte_length password
  pub names_are : names ≡ (trim_space name, normalized_email env email)

pub validate_user_fields_ok :
    (env : Env) (name email password : Text) (names : Text × Text) (db db' : Db)
    → validate_user_fields env name email password db ≡ (ok names, db')
    → AreValidFields env name email password names × (db' ≡ db)
unfolding validate_user_fields
validate_user_fields_ok env name email password names db db' h =
    elim (Bool-cases (is_empty (trim_space name))) [
      | inl e ↦ absurd (ground arith)
      | inr named ↦ elim (Bool-cases (is_empty (normalized_email env email))) [
        | inl e ↦ absurd (ground arith)
        | inr reachable ↦ elim (Bool-cases (env.valid_address (normalized_email env email))) [
          | inr e ↦ absurd (ground arith)
          | inl addressed ↦ elim (Bool-cases (is_empty password)) [
            | inl e ↦ absurd (ground arith)
            | inr given ↦ elim (Bool-cases (ltb (byte_length password) min_password_length)) [
              | inl e ↦ absurd (ground arith)
              | inr long ↦ (
                record {
                  named = named;
                  addressed = addressed;
                  reachable = reachable;
                  long = ground arith;
                  names_are = ground arith;
                },
                ground arith,
              )
            ]
          ]
        ]
      ]
    ]

pub validate_user_fields_same :
    (env : Env) (name email password : Text) (db : Db)
    → (validate_user_fields env name email password db).1 ≡ db
unfolding validate_user_fields
validate_user_fields_same env name email password db =
    let Same = λ (r : Result (Text × Text) × Db). r.1 ≡ db in
    let named = normalized_email env email in
    let short = ltb (byte_length password) min_password_length in
    let fields = pure (trim_space name, named) in
    let fifth = throw_if short user_password_too_short >> fields in
    let fourth = throw_if (is_empty password) user_password_required >> fifth in
    let third = throw_if (not (env.valid_address named)) user_email_invalid >> fourth in
    let second = throw_if (is_empty named) user_email_required >> third in
    throw_if_then Same (is_empty (trim_space name)) user_name_required second db refl (λ _.
      throw_if_then Same (is_empty named) user_email_required third db refl (λ _.
        throw_if_then Same (not (env.valid_address named)) user_email_invalid fourth db refl (λ _.
          throw_if_then Same (is_empty password) user_password_required fifth db refl
            (λ _. throw_if_then Same short user_password_too_short fields db refl (λ _. refl)))))

-- Who may give which role: an admin any known one, a manager that of a user.
abbrev pub MayAssign : Text → Text → Type 0
MayAssign actor role =
    ((actor ≡ user_role_admin) × (is_known_role role ≡ true))
    ⊎ ((actor ≡ user_role_manager) × (role ≡ user_role_user))

assigned :
    (actor role : Text) (db db' : Db)
    → is_known_role role ≡ true
    → check_assignment actor role db ≡ (ok tt, db')
    → MayAssign actor role × (db' ≡ db)
unfolding check_assignment
assigned actor role db db' known h = elim (Bool-cases (text_eq actor user_role_admin)) [
  | inl a ↦ (inl (eq_of_text_eq actor user_role_admin a, known), ground arith)
  | inr n ↦ elim (Bool-cases (text_eq actor user_role_manager)) [
    | inr o ↦ absurd (ground arith)
    | inl m ↦ elim (Bool-cases (text_eq role user_role_user)) [
      | inr p ↦ absurd (ground arith)
      | inl u ↦ (
        inr (eq_of_text_eq actor user_role_manager m, eq_of_text_eq role user_role_user u),
        ground arith,
      )
    ]
  ]
]
