-- ===== src/Store/Users.antt =====
-- The table `users` (user_repository_postgres.go).
use go_invoicing.Base.{
  ℕ, Bool, true, not, ◌&&◌, ◌||◌, Option, none, some, List, [], ◌∷◌, ◌++◌, length, keep, find?,
  update_where, ltb, ◌==◌, if◌then◌else◌,
}
use go_invoicing.Base.Text.{Text, text_eq, is_empty, codes}
use go_invoicing.Base.Time.{Time}
use go_invoicing.Errors.{
  Site, ok, err, or_fail, user_create, user_get, user_auth, user_by_email, user_last_login,
  user_count, user_list, user_not_found, user_email_already_exists,
}
use go_invoicing.Admin.{Uuid}
use go_invoicing.Admin.User.{User, UserListFilter}
use go_invoicing.Store.{Env, M, pure, query, execute, execute_returning, ◌>>=◌}
use go_invoicing.Store.Invoices.{is_none}
use go_invoicing.Store.Paging.{row_before, paged, is_descending}

-- users_email_unique, deleted rows included, and the primary key.
abbrev pub is_taken_by : User → User → Bool
is_taken_by u v = text_eq u.email v.email || u.id == v.id

abbrev pub created_user : Env → User → User
created_user env u = record u {
  created_at = env.db_now;
  updated_at = env.db_now;
  last_login = none;
  deleted_at = none;
}

-- Every unique violation is reported as one of the email, one of the primary key too.
unfoldable pub insert_user : Env → User → M User
insert_user env u = execute_returning env user_create (λ db.
    if is_none (find? (λ v. is_taken_by v u) db.users)
    then ok (
      record u { created_at = env.db_now; updated_at = env.db_now },
      record db { users = db.users ++ (created_user env u ∷ []) },
    )
    else err user_email_already_exists)

abbrev find_user : Env → Site → (User → Bool) → M User
find_user env site p = query env site (λ db. or_fail (find? p db.users) user_not_found)

abbrev pub is_live_user : Uuid → User → Bool
is_live_user id u = u.id == id && is_none u.deleted_at

abbrev pub has_email : Text → User → Bool
has_email email u = text_eq u.email email && is_none u.deleted_at

unfoldable pub get_user : Env → Uuid → Uuid → M User
get_user env org id = find_user env user_get (λ u. u.organisation_id == org && is_live_user id u)

unfoldable pub get_by_email : Env → Text → M User
get_by_email env email = find_user env user_by_email (has_email email)

unfoldable pub get_for_authentication : Env → Uuid → M User
get_for_authentication env id = find_user env user_auth (is_live_user id)

abbrev pub logged_in : Env → Time → User → User
logged_in env moment u = record u { last_login = some moment; updated_at = env.db_now }

unfoldable pub update_last_login : Env → Uuid → Time → M (Unit {0})
update_last_login env id moment = execute env user_last_login (λ db.
    if is_none (find? (is_live_user id) db.users)
    then err user_not_found
    else ok (record db { users = update_where (is_live_user id) (logged_in env moment) db.users }))

abbrev is_active_as : Option Bool → User → Bool
is_active_as none u = true
is_active_as (some b) u = if b then u.is_active else not u.is_active

abbrev pub matches_users : Uuid → UserListFilter → User → Bool
matches_users org f u =
    u.organisation_id == org
    && is_none u.deleted_at
    && (is_empty f.role || text_eq u.role f.role)
    && is_active_as f.active u

-- The columns that a client may sort by; any other name sorts by the creation.
abbrev user_column : Env → Text → User → User → Bool
user_column env sort u v =
    if text_eq sort (codes "email")
    then env.collates_before u.email v.email
    else if text_eq sort (codes "role")
    then env.collates_before u.role v.role
    else ltb u.created_at v.created_at

abbrev pub user_before : Env → UserListFilter → User → User → Bool
user_before env f = row_before (user_column env f.sort) (λ u. u.id) (not (is_descending f.order))

unfoldable pub count_users : Env → Uuid → UserListFilter → M ℕ
count_users env org f =
    query env user_count (λ db. ok (length (keep (matches_users org f) db.users)))

unfoldable pub page_of_users : Env → Uuid → UserListFilter → M (List User)
page_of_users env org f =
    query env user_list
      (λ db. ok (paged (user_before env f) f.limit f.offset (keep (matches_users org f) db.users)))

unfoldable pub list_user_rows : Env → Uuid → UserListFilter → M (List User × ℕ)
list_user_rows env org f = do
  total ← count_users env org f
  users ← page_of_users env org f
  pure (users, total)
