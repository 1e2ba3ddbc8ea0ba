-- ===== src/Service/Settings/Conflicts.antt =====
-- Two edits of the settings for one version.
use go_invoicing.Base.{
  Option, true, none, ap, ◌≤◌, leb, ◌==◌, false, refl, ℕ, suc, ◌≡◌, some, find?, arith,
}
use go_invoicing.Errors.{
  Result, settings_get, settings_update, settings_exists, settings_version_conflict, err, ok,
}
use go_invoicing.Service.Settings.Laws.{
  stored_settings, one_after, old_version, row_after, OneEach, update_settings_ok, no_current,
}
use go_invoicing.Store.Parties.{settings_row, get_settings}
use go_invoicing.Admin.{Uuid, Settings}
use go_invoicing.Admin.SettingsRequest.{UpdateSettingsRequest, apply_settings_update}
use go_invoicing.Store.{Db, Env}
use go_invoicing.Store.SettingsTable.{
  is_current, write_settings, missing_or_stale, update_settings_row,
}
use go_invoicing.Service.Settings.{update_settings}

reads_settings :
    (env : Env) (org : Uuid) (db : Db) (row : Settings)
    → env.fails settings_get ≡ false
    → settings_row db org ≡ some row
    → ◌≡◌ {A = Result Settings × Db} (get_settings env org db) (ok row, db)
unfolding get_settings
reads_settings env org db row up f = rw (up, f) refl

stale_update :
    (env : Env) (org : Uuid) (e : ℕ) (r : UpdateSettingsRequest) (db : Db) (row : Settings)
    → env.fails settings_get ≡ false
    → settings_row db org ≡ some row
    → (row.version == e) ≡ false
    → ◌≡◌ {A = Result Settings × Db}
        (update_settings env org e r db)
        (err settings_version_conflict, db)
unfolding update_settings apply_settings_update
stale_update env org e r db row up f v =
    let g = reads_settings env org db row up f in
    let g₀ = ap (λ x. x.0) g in let g₁ = ap (λ x. x.1) g in ground (arith, g₀, g₁, v)

write_misses :
    (env : Env) (org : Uuid) (e : ℕ) (s : Settings) (db : Db)
    → env.fails settings_update ≡ false
    → leb s.payment_terms 2147483647 ≡ true
    → find? (is_current org e) db.settings ≡ none
    → ◌≡◌ {A = Result (Option Settings) × Db} (write_settings env org s e db) (ok none, db)
unfolding write_settings
write_misses env org e s db up small n = rw (up, small, n) refl

reports_stale :
    (env : Env) (org : Uuid) (db : Db) (row : Settings)
    → env.fails settings_exists ≡ false
    → settings_row db org ≡ some row
    → ◌≡◌ {A = Result Settings × Db}
        (missing_or_stale env org db)
        (err settings_version_conflict, db)
unfolding missing_or_stale
reports_stale env org db row up f = rw (up, f) refl

stale_write :
    (env : Env) (org : Uuid) (e : ℕ) (s : Settings) (db : Db) (row : Settings)
    → OneEach db
    → env.fails settings_update ≡ false
    → env.fails settings_exists ≡ false
    → s.payment_terms ≤ 2147483647
    → settings_row db org ≡ some row
    → (row.version == e) ≡ false
    → ◌≡◌ {A = Result Settings × Db}
        (update_settings_row env org s e db)
        (err settings_version_conflict, db)
unfolding update_settings_row
stale_write env org e s db row one up up' small f v =
    let terms : leb s.payment_terms 2147483647 ≡ true = ground arith in
    let w = write_misses env org e s db up terms (no_current org e db row one f v) in
    let m = reports_stale env org db row up' f in
    let w₀ = ap (λ x. x.0) w in
    let w₁ = ap (λ x. x.1) w in
    let m₀ = ap (λ x. x.0) m in let m₁ = ap (λ x. x.1) m in ground (arith, w₀, w₁, m₀, m₁)

-- Two edits made for the same version never both succeed: after the first, the second is refused as
-- stale and writes nothing, whether it reads the settings after the first or had read them before it.
-- Its payment terms fit their column, and its database calls succeed.
pub second_edit_conflicts :
    (env env' : Env) (org : Uuid) (e : ℕ) (r r' : UpdateSettingsRequest) (s : Settings)
    (db db' : Db) (t : Settings)
    → OneEach db
    → update_settings env org e r db ≡ (ok t, db')
    → env'.fails settings_get ≡ false
    → env'.fails settings_update ≡ false
    → env'.fails settings_exists ≡ false
    → s.payment_terms ≤ 2147483647
    → ◌≡◌ {A = Result Settings × Db}
        (update_settings env' org e r' db')
        (err settings_version_conflict, db')
      × ◌≡◌ {A = Result Settings × Db}
          (update_settings_row env' org s e db')
          (err settings_version_conflict, db')
second_edit_conflicts env env' org e r r' s db db' t one h a b c small =
    let x = update_settings_ok env org e r db db' t h in
    let f = row_after env org e r db db' t one x in
    let v = old_version env org e r db db' t one x in
    let new = stored_settings env org e r db db' t one x in
    let later : (suc x.old.version == e) ≡ false = ground arith in
    (
      stale_update env' org e r' db' new a f later,
      stale_write env' org e s db' new (one_after env org e r db db' t one x) b c small f later,
    )
