-- ===== src/Service/Settings/Laws.antt =====
-- Optimistic concurrency on the settings: an edit applies to the version that was read, or not at all.
use go_invoicing.Base.{
  true, none, sym, ap, ◌∙◌, Option-cases, ◌==◌, false, refl, ℕ, suc, ◌≡◌, ◌≢◌, inl, inr, some,
  find?, update_where, arith,
}
use go_invoicing.Errors.{ok, Result-cases}
use go_invoicing.Store.Rows.{find?-test}
use go_invoicing.Store.Keys.{DistinctBy, find?-wider, find?-updated, DistinctBy-update_where}
use go_invoicing.Store.Parties.{is_settings, settings_row, get_settings}
use go_invoicing.Admin.SettingsRequest.Laws.{IsValidSettings, apply_settings_update_ok}
use go_invoicing.Admin.{Uuid, Settings}
use go_invoicing.Admin.SettingsRequest.{UpdateSettingsRequest, apply_settings_update}
use go_invoicing.Store.{Db, Env}
use go_invoicing.Store.SettingsTable.{
  is_current, edited_settings, write_settings, missing_or_stale, update_settings_row,
}
use go_invoicing.Service.Settings.{update_settings}

-- UNIQUE (organisation_id)
abbrev pub OneEach : Db → Type 0
OneEach db = DistinctBy (λ (s : Settings). s.organisation_id) db.settings

get_settings_ok :
    (env : Env) (org : Uuid) (db : Db) {s : Settings}
    → (get_settings env org db).0 ≡ ok s
    → (settings_row db org ≡ some s) × ((get_settings env org db).1 ≡ db)
unfolding get_settings
get_settings_ok env org db h = ground arith

missing_or_stale-fails :
    (env : Env) (org : Uuid) (db : Db) (t : Settings) → (missing_or_stale env org db).0 ≢ ok t
unfolding missing_or_stale
missing_or_stale-fails env org db t h = ground arith

write_settings_ok :
    (env : Env) (org : Uuid) (s : Settings) (e : ℕ) (db : Db) {row : Settings}
    → (write_settings env org s e db).0 ≡ ok (some row)
    → (old : Settings) × (find? (is_current org e) db.settings ≡ some old)
      × (row ≡ edited_settings env s old)
      × ((write_settings env org s e db).1 ≡ record db {
        settings = update_where (is_current org e) (edited_settings env s) db.settings;
      })
unfolding write_settings
write_settings_ok env org s e db h = elim (Option-cases (find? (is_current org e) db.settings)) [
  | inl n ↦ absurd (ground arith)
  | inr (old, f) ↦ (old, f, ground arith, ground arith)
]

-- What an update that succeeded has done.
pub record SettingsEffect (env : Env) (org : Uuid) (e : ℕ) (r : UpdateSettingsRequest) (db : Db)
    (t : Settings) (after : Db) : Type 0 where
  pub read : Settings
  pub found : settings_row db org ≡ some read
  pub merged : Settings
  pub accepted : apply_settings_update env.upper env.lower e r read ≡ ok merged
  pub old : Settings
  pub current : find? (is_current org e) db.settings ≡ some old
  pub returned : t ≡ record merged { version = suc old.version; updated_at = env.db_now }
  pub stored : after ≡ record db {
    settings = update_where (is_current org e) (edited_settings env merged) db.settings;
  }

pub update_settings_ok :
    (env : Env) (org : Uuid) (e : ℕ) (r : UpdateSettingsRequest) (db db' : Db) (t : Settings)
    → update_settings env org e r db ≡ (ok t, db')
    → SettingsEffect env org e r db t db'
unfolding update_settings update_settings_row
update_settings_ok env org e r db db' t h = elim (Result-cases (get_settings env org db).0) [
  | inr (x, q) ↦ absurd (ground arith)
  | inl (s, q) ↦
      let (f, same) = get_settings_ok env org db q in
      elim (Result-cases (apply_settings_update env.upper env.lower e r s)) [
        | inr (x, m) ↦ absurd (ground arith)
        | inl (s', m) ↦ elim (Result-cases (write_settings env org s' e db).0) [
          | inr (x, w) ↦ absurd (ground arith)
          | inl (o, w) ↦ elim (Option-cases o) [
            | inl n ↦ absurd (
                let z = missing_or_stale-fails env org (write_settings env org s' e db).1 t in
                ground (arith, z))
            | inr (row, k) ↦
                let (old, c, made, wrote) = write_settings_ok env org s' e db (w ∙ ap ok k) in
                record {
                  read = s;
                  found = f;
                  merged = s';
                  accepted = m;
                  old = old;
                  current = c;
                  returned = ground arith;
                  stored = ground arith;
                }
          ]
        ]
      ]
]

current-settings :
    (org : Uuid) (e : ℕ) (s : Settings) → is_current org e s ≡ true → is_settings org s ≡ true
current-settings org e s h = ground arith

settings-org : (org : Uuid) (s : Settings) → is_settings org s ≡ true → s.organisation_id ≡ org
settings-org org s h = ground arith

some_injective : {a b : Settings} → some a ≡ some b → a ≡ b
some_injective h = cc h

-- No row of the organisation is at that version.
pub no_current :
    (org : Uuid) (e : ℕ) (db : Db) (row : Settings)
    → OneEach db
    → settings_row db org ≡ some row
    → (row.version == e) ≡ false
    → find? (is_current org e) db.settings ≡ none
no_current org e db row one f v = elim (Option-cases (find? (is_current org e) db.settings)) [
  | inl n ↦ n
  | inr (old, c) ↦
      let w =
        find?-wider (λ (s : Settings). s.organisation_id) org (is_settings org) (is_current org e)
          (settings-org org) (current-settings org e) db.settings one c in
      let same : old ≡ row = some_injective (sym w ∙ f) in
      let k = find?-test (is_current org e) db.settings c in
      absurd (let z : (old.version == e) ≡ false = rw same v in ground arith)
]

module _ (env : Env) (org : Uuid) (e : ℕ) (r : UpdateSettingsRequest) (db db' : Db) (t : Settings)
    (one : OneEach db) (x : SettingsEffect env org e r db t db') where
  read_is_old : x.read ≡ x.old
  read_is_old =
      let f =
        find?-wider (λ (s : Settings). s.organisation_id) org (is_settings org) (is_current org e)
          (settings-org org) (current-settings org e) db.settings one x.current in
      some_injective (sym x.found ∙ f)

  abbrev pub stored_settings : Settings
  stored_settings = edited_settings env x.merged x.old

  pub row_after : settings_row db' org ≡ some stored_settings
  row_after =
      let hit =
        current-settings org e x.old (find?-test (is_current org e) db.settings x.current) in
      rw x.stored (
        find?-updated (λ (s : Settings). s.organisation_id) org (is_settings org) (is_current org e)
          (settings-org org) (current-settings org e) (edited_settings env x.merged) db.settings one
          x.current hit)

  pub old_version : x.old.version ≡ e
  old_version = let c = find?-test (is_current org e) db.settings x.current in ground arith

  pub one_after : OneEach db'
  one_after = rw x.stored (
      DistinctBy-update_where (λ (s : Settings). s.organisation_id) (is_current org e)
        (edited_settings env x.merged) db.settings (λ s. refl) one)

  valid_after : IsValidSettings env.lower x.read → IsValidSettings env.lower stored_settings
  valid_after v =
      let k = (apply_settings_update_ok env.upper env.lower e r x.read v x.accepted).1 in
      record {
        currency = k.currency;
        prefix_trimmed = k.prefix_trimmed;
        prefix_filled = k.prefix_filled;
        units = k.units;
      }

-- An edit of the settings that reports success was made for the version that the organisation's row
-- had; the row then has the next version, the same last invoice number, and keeps the rules on
-- currency, prefix and quantity units if it kept them before.
pub settings_edit :
    (env : Env) (org : Uuid) (e : ℕ) (r : UpdateSettingsRequest) (db db' : Db) (t : Settings)
    → OneEach db
    → update_settings env org e r db ≡ (ok t, db')
    → (row : Settings) × (new : Settings) × (settings_row db org ≡ some row)
      × (settings_row db' org ≡ some new)
      × (row.version ≡ e)
      × (new.version ≡ suc e)
      × (new.invoice_number ≡ row.invoice_number)
      × (IsValidSettings env.lower row → IsValidSettings env.lower new)
settings_edit env org e r db db' t one h =
    let x = update_settings_ok env org e r db db' t h in
    let same = read_is_old env org e r db db' t one x in
    let v = old_version env org e r db db' t one x in
    (
      x.read,
      stored_settings env org e r db db' t one x,
      x.found,
      row_after env org e r db db' t one x,
      rw same v,
      ap suc v,
      rw same refl,
      valid_after env org e r db db' t one x,
    )
