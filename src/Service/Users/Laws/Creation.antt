-- ===== src/Service/Users/Laws/Creation.antt =====
-- A creation of a user as a whole (user_service.go).
use go_invoicing.Base.{
  ◌≡◌, ◌∙◌, refl, sym, ap, true, Bool-cases, inl, inr, Option-cases, none, some, find?, [], ◌∷◌,
  ◌++◌, arith, Option,
}
use go_invoicing.Base.Text.{Text}
use go_invoicing.Errors.{Error, ok, user_create, organisation_get, password_hash_random}
use go_invoicing.Admin.{Uuid}
use go_invoicing.Admin.Password.{hash_password}
use go_invoicing.Admin.User.{User, CreateUserRequest}
use go_invoicing.Store.{Db, Env, ◌>>=◌, ◌>>◌}
use go_invoicing.Store.Binds.{bind_ok}
use go_invoicing.Store.Parties.{get_organisation}
use go_invoicing.Store.Users.{insert_user, is_taken_by, created_user}
use go_invoicing.Service.Users.{
  create_user, insert_checked, new_user, validate_user_fields, validate_target_role,
  check_assignment, is_known_role, requested_role, or_throw,
}
use go_invoicing.Service.Users.Laws.{AreValidFields, validate_user_fields_ok, MayAssign, assigned}

pub insert_user_ok :
    (env : Env) (u v : User) (db db' : Db)
    → insert_user env u db ≡ (ok v, db')
    → (find? (λ w. is_taken_by w u) db.users ≡ none)
      × (v ≡ record u { created_at = env.db_now; updated_at = env.db_now })
      × (db' ≡ record db { users = db.users ++ (created_user env u ∷ []) })
unfolding insert_user
insert_user_ok env u v db db' h = elim (Bool-cases (env.fails user_create)) [
  | inl down ↦ absurd (ground arith)
  | inr up ↦ elim (Option-cases (find? (λ w. is_taken_by w u) db.users)) [
    | inr (x, f) ↦ absurd (let k = rw (up, f) at h in ground arith)
    | inl n ↦ let k = rw (up, n) at h in (n, ground arith, sym (ap (λ r. r.1) k))
  ]
]

pub get_organisation_same :
    (env : Env) (org : Uuid) (db : Db) → (get_organisation env org db).1 ≡ db
unfolding get_organisation
get_organisation_same env org db = elim (Bool-cases (env.fails organisation_get)) [
  | inl down ↦ rw down refl
  | inr up ↦ rw up refl
]

pub or_throw_ok {ℓ} :
    {A : Type ℓ} (o : Option A) (e : Error) (a : A) (db db' : Db)
    → or_throw o e db ≡ (ok a, db')
    → (o ≡ some a) × (db' ≡ db)
or_throw_ok none e a db db' h = absurd (ground arith)
or_throw_ok (some b) e a db db' h = (ground arith, ground arith)

validate_target_role_ok :
    (text role : Text) (db db' : Db)
    → validate_target_role text db ≡ (ok role, db')
    → (is_known_role role ≡ true) × (role ≡ requested_role text) × (db' ≡ db)
unfolding validate_target_role
validate_target_role_ok text role db db' h =
    elim (Bool-cases (is_known_role (requested_role text))) [
      | inr bad ↦ absurd (ground arith)
      | inl known ↦
          let k = rw known at h in
          let e : requested_role text ≡ role = ground arith in
          (ap is_known_role (sym e) ∙ known, sym e, ground arith)
    ]

-- What a creation that succeeded has checked, and what it did.
pub record HasCreated (env : Env) (org : Uuid) (actor : Text) (r : CreateUserRequest) (u : User)
    (db db' : Db) : Type 0 where
  pub permitted : MayAssign actor u.role
  pub requested : u.role ≡ requested_role r.role
  pub checked : AreValidFields env r.name r.email r.password (u.name, u.email)
  pub hashed : hash_password env.crypto r.password ≡ some u.password_hash
  pub belongs : u.organisation_id ≡ org
  pub active : u.is_active ≡ true
  pub unused : find? (λ v. is_taken_by v u) db.users ≡ none
  pub written : db' ≡ record db { users = db.users ++ (created_user env u ∷ []) }

module _ (env : Env) (org : Uuid) (actor : Text) (r : CreateUserRequest) (u : User)
    (db db' : Db) where
  inserted :
      (names : Text × Text) (role : Text)
      → MayAssign actor role
      → role ≡ requested_role r.role
      → AreValidFields env r.name r.email r.password names
      → insert_checked env org r.password names role db ≡ (ok u, db')
      → HasCreated env org actor r u db db'
  inserted names role may asked valid h =
      let (o, mid, read, h') =
        bind_ok (get_organisation env org)
          (λ _. or_throw (hash_password env.crypto r.password) password_hash_random >>= λ hash.
            insert_user env (new_user env org names role hash))
          db h in
      let same : mid ≡ db = sym (ap (λ x. x.1) read) ∙ get_organisation_same env org db in
      let (hash, mid', drawn, h'') =
        bind_ok (or_throw (hash_password env.crypto r.password) password_hash_random)
          (λ hash. insert_user env (new_user env org names role hash)) db (rw same at h') in
      let (some_hash, same') =
        or_throw_ok (hash_password env.crypto r.password) password_hash_random hash db mid' drawn in
      let (free, is, w) =
        insert_user_ok env (new_user env org names role hash) u db db' (rw same' at h'') in
      rw is (record {
        permitted = may;
        requested = asked;
        checked = valid;
        hashed = some_hash;
        belongs = refl;
        active = refl;
        unused = free;
        written = w;
      })

  -- A creation of a user that succeeds gave a role that the caller may give: an admin any known role,
  -- a manager only that of a user. It stores an active user of the caller's organisation with an
  -- unused email in lower case that parses as an address, and a hash of the password, which has at
  -- least 12 bytes; nothing else changes.
  pub create_user_ok :
      create_user env org actor r db ≡ (ok u, db') → HasCreated env org actor r u db db'
  unfolding create_user
  create_user_ok h =
      let third = λ (names : Text × Text) (role : Text).
        check_assignment actor role >> insert_checked env org r.password names role in
      let second = λ (names : Text × Text). validate_target_role r.role >>= third names in
      let (names, mid, a, h1) =
        bind_ok (validate_user_fields env r.name r.email r.password) second db h in
      let (valid, s1) = validate_user_fields_ok env r.name r.email r.password names db mid a in
      let (role, mid', b, h2) =
        bind_ok (validate_target_role r.role) (third names) db (rw s1 at h1) in
      let (known, asked, s2) = validate_target_role_ok r.role role db mid' b in
      let (t, mid'', c, h3) =
        bind_ok (check_assignment actor role) (λ _. insert_checked env org r.password names role) db
          (rw s2 at h2) in
      let (may, s3) = assigned actor role db mid'' known c in
      inserted names role may asked valid (rw s3 at h3)
