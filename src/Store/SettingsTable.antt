-- ===== src/Store/SettingsTable.antt =====
-- The versioned write of the settings (settings_repository_postgres.go).
use go_invoicing.Base.{
  ℕ, suc, Bool, ◌&&◌, ◌==◌, Option, none, some, find?, update_where, leb, if◌then◌else◌,
}
use go_invoicing.Errors.{
  ok, err, internal, settings_update, settings_exists, settings_version_conflict,
  settings_not_found,
}
use go_invoicing.Admin.{Uuid, Settings}
use go_invoicing.Store.{Env, M, pure, query, execute_returning, ◌>>=◌}
use go_invoicing.Store.Invoices.{is_none}
use go_invoicing.Store.Parties.{is_settings, settings_row}

abbrev pub is_current : Uuid → ℕ → Settings → Bool
is_current org expected s = is_settings org s && s.version == expected

abbrev pub edited_settings : Env → Settings → Settings → Settings
edited_settings env s row = record row {
  invoice_prefix = s.invoice_prefix;
  currency = s.currency;
  payment_terms = s.payment_terms;
  quantity_units = s.quantity_units;
  updated_at = env.db_now;
  version = suc row.version;
}

-- The UPDATE … RETURNING, with none for no row. `payment_terms` is a 32-bit INTEGER.
unfoldable pub write_settings : Env → Uuid → Settings → ℕ → M (Option Settings)
write_settings env org s expected = execute_returning env settings_update (λ db.
    if leb s.payment_terms 2147483647
    then elim (find? (is_current org expected) db.settings) [
      | none ↦ ok (none, db)
      | some row ↦ ok (
        some (edited_settings env s row),
        record db {
          settings = update_where (is_current org expected) (edited_settings env s) db.settings;
        },
      )
    ]
    else err (internal settings_update))

unfoldable pub missing_or_stale : Env → Uuid → M Settings
missing_or_stale env org = query env settings_exists (λ db.
    if is_none (settings_row db org) then err settings_not_found else err settings_version_conflict)

-- The settings come back with the new version and time.
abbrev pub scanned : Env → Uuid → Settings → Option Settings → M Settings
scanned env org s none = missing_or_stale env org
scanned env org s (some row) =
    pure (record s { version = row.version; updated_at = row.updated_at })

unfoldable pub update_settings_row : Env → Uuid → Settings → ℕ → M Settings
update_settings_row env org s expected = do
  written ← write_settings env org s expected
  scanned env org s written
