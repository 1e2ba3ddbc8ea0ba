-- ===== src/Service/Organisations/Laws/Kept.antt =====
-- What a registration keeps of users and sessions (registration_service.go).
use mathlib.Core.Path.{subst}
use go_invoicing.Store.Users.{is_taken_by}
use go_invoicing.Admin.{Organisation}
use go_invoicing.Admin.User.{User}
use go_invoicing.Base.{[], ◌∷◌, ◌++◌}
use go_invoicing.Base.{◌≡◌, refl, ap, none, Bool, false, inl, inr, find?}
use go_invoicing.Base.Text.{Text}
use go_invoicing.Errors.{Result, ok, err}
use go_invoicing.Store.{Db, Env}
use go_invoicing.Store.Users.{insert_user, created_user}
use go_invoicing.Service.Auth.Kept.{Keeps}
use go_invoicing.Service.Organisations.Register.{register, first_user}
use go_invoicing.Service.Organisations.Laws.Whole.{HasRegistered, IsWhole, register_is_whole}

-- The same surroundings, with a database that answers.
abbrev answering : Env → Env
answering env = record env { fails = λ site. false }

insert_free :
    (env : Env) (u : User) (db : Db)
    → find? (λ v. is_taken_by v u) db.users ≡ none
    → (insert_user (answering env) u db).1
      ≡ record db { users = db.users ++ (created_user env u ∷ []) }
unfolding insert_user
insert_free env u db n = rw n refl

module _ (P : Db → Type 0) (Q : Env → Type 0) (keeps : Keeps P Q) (env : Env)
    (organisation_name name email password : Text) (agreed : Bool) (db : Db) where
  abbrev Registered : Db → Type 0
  Registered = HasRegistered env organisation_name name email password agreed db

  has_kept : (db' : Db) → P db → Registered db' → P db'
  has_kept db' h r =
      let u = first_user env r.names r.hash in
      let mid : P (record db { users = db.users ++ (created_user env u ∷ []) }) =
        subst P (insert_free env u db r.unused) (keeps.user_inserted (answering env) u db h) in
      keeps.elsewhere (record db { users = db.users ++ (created_user env u ∷ []) }) db'
        (ap (λ d. d.users) r.written) (ap (λ d. d.sessions) r.written) mid

  whole_keeps :
      (r : Result (Organisation × User)) (db' : Db)
      → P db
      → IsWhole env organisation_name name email password agreed db (r, db')
      → P db'
  whole_keeps (ok r) db' h w = has_kept db' h w
  whole_keeps (err e) db' h (inl same) = rw same h
  whole_keeps (err e) db' h (inr w) = has_kept db' h w

  pub register_keeps : P db → P (register env organisation_name name email password agreed db).1
  register_keeps h =
      whole_keeps (register env organisation_name name email password agreed db).0
        (register env organisation_name name email password agreed db).1 h
        (register_is_whole env organisation_name name email password agreed db)
