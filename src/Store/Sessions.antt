-- ===== src/Store/Sessions.antt =====
-- The table `sessions` (session_repository_postgres.go), and the sweep that a bounded DELETE makes.
use go_invoicing.Base.{
  ℕ, zero, suc, ◌-◌, Bool, true, false, ◌||◌, not, leb, none, some, List, [], ◌∷◌, ◌++◌, length,
  find?, update_where, ◌==◌, if◌then◌else◌,
}
use go_invoicing.Base.Text.{Text, text_eq}
use go_invoicing.Base.Time.{Time}
use go_invoicing.Errors.{
  ok, err, or_fail, internal, session_create, session_get, session_revoke, session_cleanup,
  session_not_found,
}
use go_invoicing.Admin.{Uuid}
use go_invoicing.Admin.User.{Session}
use go_invoicing.Store.{Env, M, query, execute, execute_returning}
use go_invoicing.Store.Invoices.{is_none}

-- The primary key and the unique index on the hash of the token.
abbrev pub clashes : Session → Session → Bool
clashes s t = text_eq s.token_hash t.token_hash || s.id == t.id

-- `revoked_at` is not among the columns of the INSERT.
abbrev pub created_session : Session → Session
created_session s = record s { revoked_at = none }

unfoldable pub insert_session : Env → Session → M (Unit {0})
insert_session env s = execute env session_create (λ db.
    if is_none (find? (λ t. clashes t s) db.sessions)
    then ok (record db { sessions = db.sessions ++ (created_session s ∷ []) })
    else err (internal session_create))

abbrev pub has_hash : Text → Session → Bool
has_hash hash s = text_eq s.token_hash hash

unfoldable pub get_by_token_hash : Env → Text → M Session
get_by_token_hash env hash =
    query env session_get (λ db. or_fail (find? (has_hash hash) db.sessions) session_not_found)

abbrev pub revoked : Env → Session → Session
revoked env s = record s { revoked_at = some env.db_now }

unfoldable pub revoke : Env → Uuid → M (Unit {0})
revoke env id = execute env session_revoke (λ db.
    if is_none (find? (λ s. s.id == id) db.sessions)
    then err session_not_found
    else ok (record db { sessions = update_where (λ s. s.id == id) (revoked env) db.sessions }))

-- expires_at <= now OR revoked_at IS NOT NULL
abbrev pub is_over : Time → Session → Bool
is_over now s = leb s.expires_at now || not (is_none s.revoked_at)

-- What is left of a list without the first so many elements that pass the test.
abbrev pub sweep {ℓ} : {A : Type ℓ} → (A → Bool) → ℕ → List A → List A
sweep p zero xs = xs
sweep p (suc n) [] = []
sweep p (suc n) (x ∷ xs) = elim (p x) [ true ↦ sweep p n xs | false ↦ x ∷ sweep p (suc n) xs ]

-- The number of deleted rows comes back.
unfoldable pub delete_expired : Env → Time → ℕ → M ℕ
delete_expired env now limit = execute_returning env session_cleanup (λ db.
    let left = sweep (is_over now) limit db.sessions in
    ok (length db.sessions - length left, record db { sessions = left }))
