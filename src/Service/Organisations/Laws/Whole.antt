-- ===== src/Service/Organisations/Laws/Whole.antt =====
-- A registration as a whole (registration_service.go).
use go_invoicing.Service.Organisations.Laws.Registered.{with_registration, IsProvided, body_ok}
use mathlib.Core.Path.{subst}
use go_invoicing.Base.{refl, Option, none, some, not}
use go_invoicing.Errors.{Result-cases}
use go_invoicing.Store.{throw_if, ◌>>◌}
use go_invoicing.Store.Binds.{throw_if_then, bind_value, bind_failed}
use go_invoicing.Base.{find?, none}
use go_invoicing.Store.Users.{is_taken_by}
use go_invoicing.Service.Organisations.Laws.Founded.{first_admin}
use go_invoicing.Service.Organisations.Register.{register}
use go_invoicing.Service.Users.{validate_user_fields, or_throw}
use go_invoicing.Service.Users.Laws.{validate_user_fields_same, validate_user_fields_ok}
use go_invoicing.Errors.{organisation_name_required, terms_not_accepted, password_hash_random}
use go_invoicing.Base.{Bool, true, false, inl, inr, ◌⊎◌, not}
use go_invoicing.Errors.{
  Error, Result, ok, err, organisation_name_required, terms_not_accepted, password_hash_random,
}
use go_invoicing.Base.Text.{Text, is_empty, trim_space}
use go_invoicing.Admin.Password.{hash_password}
use go_invoicing.Store.{Db, Env, throw_if, in_tx, ◌>>=◌, ◌>>◌}
use go_invoicing.Store.Binds.{in_tx_cases}
use go_invoicing.Service.Organisations.Register.{register, register_body}
use go_invoicing.Service.Users.{validate_user_fields, or_throw}
use go_invoicing.Service.Users.Laws.{AreValidFields, validate_user_fields_ok}
use go_invoicing.Base.{◌≡◌, ◌∙◌, sym, ap, none, some, arith}
use go_invoicing.Base.Text.{Text}
use go_invoicing.Errors.{ok}
use go_invoicing.Admin.{Organisation}
use go_invoicing.Admin.User.{User}
use go_invoicing.Store.{Db, Env, ◌>>=◌}
use go_invoicing.Service.Organisations.Register.{register_body}

-- A whole registration.
pub record HasRegistered (env : Env) (organisation_name name email password : Text) (agreed : Bool)
    (db db' : Db) : Type 0 where
  pub names : Text × Text
  pub hash : Text
  pub named : is_empty (trim_space organisation_name) ≡ false
  pub checked : AreValidFields env name email password names
  pub consented : agreed ≡ true
  pub hashed : hash_password env.crypto password ≡ some hash
  pub written : db' ≡ with_registration env (trim_space organisation_name) names hash db
  pub unused : find? (λ v. is_taken_by v (first_admin env names hash)) db.users ≡ none
  pub provided : IsProvided env (trim_space organisation_name) names hash db'

-- All of it after a success, and all or nothing of it after an error.
abbrev pub IsWhole :
    Env → Text → Text → Text → Text → Bool → Db → Result (Organisation × User) × Db → Type 0
IsWhole env organisation_name name email password agreed db (ok r, db') =
    HasRegistered env organisation_name name email password agreed db db'
IsWhole env organisation_name name email password agreed db (err e, db') =
    (db' ≡ db) ⊎ HasRegistered env organisation_name name email password agreed db db'

module _ (env : Env) (organisation_name name email password : Text) (agreed : Bool) (db : Db) where
  abbrev Target : Result (Organisation × User) × Db → Type 0
  Target = IsWhole env organisation_name name email password agreed db

  outcome_of :
      (r : Result (Organisation × User)) (db' : Db)
      → HasRegistered env organisation_name name email password agreed db db'
      → Target (r, db')
  outcome_of (ok r) db' h = h
  outcome_of (err e) db' h = inr h

  transacted :
      (names : Text × Text) (hash : Text)
      → is_empty (trim_space organisation_name) ≡ false
      → AreValidFields env name email password names
      → agreed ≡ true
      → hash_password env.crypto password ≡ some hash
      → Target (in_tx env (register_body env (trim_space organisation_name) names hash) db)
  transacted names hash named valid consented hashed =
      let body = register_body env (trim_space organisation_name) names hash in
      let has : (r : Organisation × User) (db' : Db)
          → body db ≡ (ok r, db')
          → HasRegistered env organisation_name name email password agreed db db' =
        λ r db' e.
          (let (w, p, n) = body_ok env (trim_space organisation_name) names hash db db' r e in
            record {
              names = names;
              hash = hash;
              named = named;
              checked = valid;
              consented = consented;
              hashed = hashed;
              written = w;
              unused = n;
              provided = p;
            }) in
      elim (in_tx_cases env body db) [
        | inl (e, r) ↦ rw r (inl refl)
        | inr (a, e, r) ↦ rw r (
            outcome_of (in_tx env body db).0 (body db).1
              (has a (body db).1 (ap (λ x. (x, (body db).1)) e)))
      ]

  valid_or_same :
      ((names : Text × Text) × AreValidFields env name email password names
        × (validate_user_fields env name email password db ≡ (ok names, db)))
      ⊎ ((e : Error) × (validate_user_fields env name email password db ≡ (err e, db)))
  valid_or_same = elim (Result-cases (validate_user_fields env name email password db).0) [
    | inl (names, e) ↦
        let at = ap (λ r. (r, (validate_user_fields env name email password db).1)) e in
        let (valid, same) =
          validate_user_fields_ok env name email password names db
            (validate_user_fields env name email password db).1 at in
        inl (names, valid, at ∙ ap (λ d. (ok names, d)) same)
    | inr (e, h) ↦ inr (
      e,
      ap (λ r. (r, (validate_user_fields env name email password db).1)) h
          ∙ ap (λ d. (err e, d)) (validate_user_fields_same env name email password db),
    )
  ]

  hashed_or_same :
      (names : Text × Text) (o : Option Text)
      → hash_password env.crypto password ≡ o
      → is_empty (trim_space organisation_name) ≡ false
      → AreValidFields env name email password names
      → agreed ≡ true
      → Target (
          (or_throw o password_hash_random >>= λ hash.
          in_tx env (register_body env (trim_space organisation_name) names hash))
            db)
  hashed_or_same names none e named valid consented = inl refl
  hashed_or_same names (some hash) e named valid consented =
      transacted names hash named valid consented e

  after_fields :
      (names : Text × Text)
      → is_empty (trim_space organisation_name) ≡ false
      → AreValidFields env name email password names
      → Target (
          (throw_if (not agreed) terms_not_accepted
              >> (or_throw (hash_password env.crypto password) password_hash_random >>= λ hash.
                  in_tx env (register_body env (trim_space organisation_name) names hash)))
            db)
  after_fields names named valid =
      throw_if_then Target (not agreed) terms_not_accepted
        (or_throw (hash_password env.crypto password) password_hash_random >>= λ hash.
          in_tx env (register_body env (trim_space organisation_name) names hash))
        db (inl refl)
        (λ consented.
          hashed_or_same names (hash_password env.crypto password) refl named valid (ground arith))

  pub register_is_whole : Target (register env organisation_name name email password agreed db)
  unfolding register
  register_is_whole =
      let next = λ (names : Text × Text).
        throw_if (not agreed) terms_not_accepted
        >> (or_throw (hash_password env.crypto password) password_hash_random >>= λ hash.
            in_tx env (register_body env (trim_space organisation_name) names hash)) in
      throw_if_then Target (is_empty (trim_space organisation_name)) organisation_name_required
        (validate_user_fields env name email password >>= next) db (inl refl)
        (λ named. elim valid_or_same [
          | inl (names, valid, e) ↦
              subst Target
                (sym (bind_value (validate_user_fields env name email password) next db e))
                (after_fields names named valid)
          | inr (e, h) ↦
              subst Target
                (sym (bind_failed (validate_user_fields env name email password) next db h))
                (inl refl)
        ])
