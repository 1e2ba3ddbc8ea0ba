-- ===== src/Service/Settings.antt =====
-- SettingsService: the read and the versioned partial update of an organisation's settings.
pub mod Laws
pub mod Conflicts
use go_invoicing.Base.{ℕ}
use go_invoicing.Admin.{Uuid, Settings}
use go_invoicing.Admin.SettingsRequest.{UpdateSettingsRequest, apply_settings_update}
use go_invoicing.Store.{Env, M, lift, ◌>>=◌}
use go_invoicing.Store.Parties.{get_settings}
use go_invoicing.Store.SettingsTable.{update_settings_row}

unfoldable pub update_settings : Env → Uuid → ℕ → UpdateSettingsRequest → M Settings
update_settings env org expected r = do
  s ← get_settings env org
  s' ← lift (apply_settings_update env.upper env.lower expected r s)
  update_settings_row env org s' expected
