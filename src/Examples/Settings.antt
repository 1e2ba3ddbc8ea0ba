-- ===== src/Examples/Settings.antt =====
-- The theorems on the settings, at an edit of the prefix of the organisation 1.
use go_invoicing.Base.{List, ◌≡◌, ◌↔◌, refl, none, some, [], ◌∷◌, map, arith}
use go_invoicing.Base.Text.{is_space, lower_code, Text, codes, trim_space}
use go_invoicing.Errors.{Result, ok, err, settings_version_conflict}
use go_invoicing.Admin.{Settings}
use go_invoicing.Admin.SettingsRequest.{
  apply_currency, apply_payment_terms, apply_prefix, apply_units, normalize_from,
  UpdateSettingsRequest, normalize_quantity_units, apply_settings_update,
}
use go_invoicing.Admin.SettingsRequest.Laws.{IsUnits, IsValidSettings, normalize_quantity_units_iff}
use go_invoicing.Store.{Db}
use go_invoicing.Store.Parties.{get_settings, settings_row}
use go_invoicing.Store.SettingsTable.{write_settings, update_settings_row}
use go_invoicing.Service.Settings.{update_settings}
use go_invoicing.Service.Settings.Laws.{settings_edit}
use go_invoicing.Service.Settings.Conflicts.{second_edit_conflicts}
use go_invoicing.Examples.Data.{env, db, settings}

abbrev two_units : List Text
two_units = codes " kg" ∷ codes "h " ∷ []

abbrev trimmed_units : List Text
trimmed_units = codes "kg" ∷ codes "h" ∷ []

normalize_quantity_units_iff_example :
    (normalize_quantity_units env.lower two_units ≡ ok trimmed_units)
    ↔ ((trimmed_units ≡ map trim_space two_units) × IsUnits env.lower trimmed_units)
normalize_quantity_units_iff_example =
    normalize_quantity_units_iff env.lower two_units trimmed_units

abbrev new_prefix : UpdateSettingsRequest
new_prefix = record {
  currency = none;
  payment_terms = none;
  invoice_prefix = some (codes " B-");
  quantity_units = some two_units;
}

abbrev edited : Settings
edited = record settings {
  invoice_prefix = codes "B-";
  quantity_units = trimmed_units;
  updated_at = env.db_now;
  version = 2;
}

abbrev edited_db : Db
edited_db = record db { settings = edited ∷ [] }

edits :
    ◌≡◌ {A = Result Settings × Db} (update_settings env 1 1 new_prefix db) (ok edited, edited_db)
unfolding update_settings get_settings apply_settings_update apply_currency apply_payment_terms
    apply_prefix trim_space is_space apply_units normalize_quantity_units normalize_from lower_code
    update_settings_row write_settings
edits = refl

settings_edit_example :
    (row : Settings) × (new : Settings) × (settings_row db 1 ≡ some row)
    × (settings_row edited_db 1 ≡ some new)
    × (row.version ≡ 1)
    × (new.version ≡ 2)
    × (new.invoice_number ≡ row.invoice_number)
    × (IsValidSettings env.lower row → IsValidSettings env.lower new)
settings_edit_example = settings_edit env 1 1 new_prefix db edited_db edited (tt, tt) edits

second_edit_conflicts_example :
    ◌≡◌ {A = Result Settings × Db}
      (update_settings env 1 1 new_prefix edited_db)
      (err settings_version_conflict, edited_db)
    × ◌≡◌ {A = Result Settings × Db}
        (update_settings_row env 1 settings 1 edited_db)
        (err settings_version_conflict, edited_db)
second_edit_conflicts_example =
    second_edit_conflicts env env 1 1 new_prefix new_prefix settings db edited_db edited (tt, tt)
      edits refl refl refl (ground arith)
