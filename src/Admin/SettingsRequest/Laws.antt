-- ===== src/Admin/SettingsRequest/Laws.antt =====
-- What an update that is accepted has made of the settings.
use go_invoicing.Base.{
  ℕ, ◌≤◌, ◌≡◌, refl, sym, ap, ◌∙◌, inl, inr, true, false, List, [], ◌∷◌, All, length, map, ltb,
  arith, ◌∷◌,
}
use go_invoicing.Base.Text.{Text, is_empty, trim_space, trim_space_idem, to_lower}
use mathlib.Core.Path.{subst}
use go_invoicing.Base.Int.{ℤ, pos_part}
use go_invoicing.Base.Text.{to_upper}
use go_invoicing.Base.{suc, ◌↔◌, Option, none, some}
use go_invoicing.Errors.{ok, Result-cases}
use go_invoicing.Admin.{Settings}
use go_invoicing.Admin.SettingsRequest.{
  UpdateSettingsRequest, is_seen, is_valid_settings_currency_code, normalize_from,
  normalize_quantity_units, apply_currency, apply_payment_terms, apply_prefix, apply_units,
  apply_settings_update,
}

-- A stored unit is trimmed, not blank, and of at most 30 code points.
pub record IsUnit (u : Text) : Type 0 where
  pub trimmed : trim_space u ≡ u
  pub filled : is_empty u ≡ false
  pub short : length u ≤ 30

-- No key stands twice, nor among those seen.
abbrev pub DistinctKeys : (ℕ → ℕ) → List Text → List Text → Type 0
DistinctKeys lower seen [] = Unit
DistinctKeys lower seen (u ∷ us) =
    (is_seen (to_lower lower u) seen ≡ false) × DistinctKeys lower (to_lower lower u ∷ seen) us

pub record IsUnits (lower : ℕ → ℕ) (us : List Text) : Type 0 where
  pub units : All IsUnit us
  pub distinct : DistinctKeys lower [] us
  pub few : length us ≤ 50

normalize_from_ok :
    (lower : ℕ → ℕ) (seen us : List Text) {vs : List Text}
    → normalize_from lower seen us ≡ ok vs
    → All IsUnit vs
      × DistinctKeys lower seen vs
      × (length vs ≡ length us)
      × (vs ≡ map trim_space us)
unfolding normalize_from
normalize_from_ok lower seen [] {vs} h = let e : [] ≡ vs = cc h in rw (← e) (tt, tt, refl, refl)
normalize_from_ok lower seen (u ∷ us) {vs} h =
    elim (Result-cases (normalize_from lower (to_lower lower (trim_space u) ∷ seen) us)) [
      | inr (x, r) ↦ absurd (ground arith)
      | inl (ws, r) ↦
          let (units, keys, size, same) =
            normalize_from_ok lower (to_lower lower (trim_space u) ∷ seen) us r in
          let e : vs ≡ trim_space u ∷ ws = ground arith in
          let fresh : is_seen (to_lower lower (trim_space u)) seen ≡ false = ground arith in
          let filled : is_empty (trim_space u) ≡ false = ground arith in
          let short : length (trim_space u) ≤ 30 = ground arith in
          rw e (
            (record { trimmed = trim_space_idem u; filled = filled; short = short }, units),
            (fresh, keys),
            omega (arith, size),
            ap (λ t. trim_space u ∷ t) same,
          )
    ]

normalize_from_accepts :
    (lower : ℕ → ℕ) (seen us : List Text)
    → All IsUnit (map trim_space us)
    → DistinctKeys lower seen (map trim_space us)
    → normalize_from lower seen us ≡ ok (map trim_space us)
unfolding normalize_from
normalize_from_accepts lower seen [] a d = refl
normalize_from_accepts lower seen (u ∷ us) a d =
    let rest = normalize_from_accepts lower (to_lower lower (trim_space u) ∷ seen) us a.1 d.1 in
    let short : ltb 30 (length (trim_space u)) ≡ false = let s = a.0.short in ground arith in
    rw (a.0.filled, short, d.0, rest) refl

length-map : (us : List Text) → length (map trim_space us) ≡ length us
length-map [] = refl
length-map (u ∷ us) = ap suc (length-map us)

normalize_quantity_units_ok :
    (lower : ℕ → ℕ) (us : List Text) {vs : List Text}
    → normalize_quantity_units lower us ≡ ok vs
    → (vs ≡ map trim_space us) × IsUnits lower vs
unfolding normalize_quantity_units
normalize_quantity_units_ok lower us {vs} h =
    let few : length us ≤ 50 = ground arith in
    let (units, keys, size, same) = normalize_from_ok lower [] us {vs = vs} (ground arith) in
    (same, record { units = units; distinct = keys; few = omega (arith, size) })

normalize_quantity_units_accepts :
    (lower : ℕ → ℕ) (us : List Text)
    → IsUnits lower (map trim_space us)
    → normalize_quantity_units lower us ≡ ok (map trim_space us)
unfolding normalize_quantity_units
normalize_quantity_units_accepts lower us x =
    let rest = normalize_from_accepts lower [] us x.units x.distinct in
    let few : ltb 50 (length us) ≡ false = let f = x.few in let e = length-map us in ground arith in
    rw (few, rest) refl

-- A list of quantity units is accepted exactly if, once each is trimmed, there are at most 50, each of
-- 1 to 30 characters, no two alike in lower case; it is then stored trimmed, in the same order.
pub normalize_quantity_units_iff :
    (lower : ℕ → ℕ) (us vs : List Text)
    → (normalize_quantity_units lower us ≡ ok vs) ↔ ((vs ≡ map trim_space us) × IsUnits lower vs)
normalize_quantity_units_iff lower us vs = (
  λ h. normalize_quantity_units_ok lower us h,
  λ w. normalize_quantity_units_accepts lower us (subst (IsUnits lower) w.0 w.1) ∙ ap ok (sym w.0),
)

-- What the rules of Update keep of the settings.
pub record IsValidSettings (lower : ℕ → ℕ) (s : Settings) : Type 0 where
  pub currency : is_valid_settings_currency_code s.currency ≡ true
  pub prefix_trimmed : trim_space s.invoice_prefix ≡ s.invoice_prefix
  pub prefix_filled : is_empty s.invoice_prefix ≡ false
  pub units : IsUnits lower s.quantity_units

-- What an update leaves alone.
pub record SameIdentity (s t : Settings) : Type 0 where
  pub id : t.id ≡ s.id
  pub organisation : t.organisation_id ≡ s.organisation_id
  pub number : t.invoice_number ≡ s.invoice_number
  pub version : t.version ≡ s.version
  pub deleted : t.deleted_at ≡ s.deleted_at

module _ (lower : ℕ → ℕ) (s : Settings) (v : IsValidSettings lower s) where
  abbrev Kept : Settings → Type 0
  Kept t = IsValidSettings lower t × SameIdentity s t

  Kept-self : Kept s
  Kept-self =
      (v, record { id = refl; organisation = refl; number = refl; version = refl; deleted = refl })

  currency-Kept :
      (upper : ℕ → ℕ) (o : Option Text) {t : Settings} → apply_currency upper o s ≡ ok t → Kept t
  unfolding apply_currency
  currency-Kept upper none {t} h = let e : s ≡ t = cc h in subst Kept e Kept-self
  currency-Kept upper (some c) {t} h =
      let valid : is_valid_settings_currency_code (to_upper upper (trim_space c)) ≡ true =
        ground arith in
      let e : record s { currency = to_upper upper (trim_space c) } ≡ t = ground arith in
      subst Kept e (
        record {
          currency = valid;
          prefix_trimmed = v.prefix_trimmed;
          prefix_filled = v.prefix_filled;
          units = v.units;
        },
        record { id = refl; organisation = refl; number = refl; version = refl; deleted = refl },
      )

  terms-Kept : (o : Option ℤ) {t : Settings} → apply_payment_terms o s ≡ ok t → Kept t
  unfolding apply_payment_terms
  terms-Kept none {t} h = let e : s ≡ t = cc h in subst Kept e Kept-self
  terms-Kept (some d) {t} h =
      let e : record s { payment_terms = pos_part d } ≡ t = ground arith in
      subst Kept e (
        record {
          currency = v.currency;
          prefix_trimmed = v.prefix_trimmed;
          prefix_filled = v.prefix_filled;
          units = v.units;
        },
        record { id = refl; organisation = refl; number = refl; version = refl; deleted = refl },
      )

  prefix-Kept : (o : Option Text) {t : Settings} → apply_prefix o s ≡ ok t → Kept t
  unfolding apply_prefix
  prefix-Kept none {t} h = let e : s ≡ t = cc h in subst Kept e Kept-self
  prefix-Kept (some p) {t} h =
      let filled : is_empty (trim_space p) ≡ false = ground arith in
      let e : record s { invoice_prefix = trim_space p } ≡ t = ground arith in
      subst Kept e (
        record {
          currency = v.currency;
          prefix_trimmed = trim_space_idem p;
          prefix_filled = filled;
          units = v.units;
        },
        record { id = refl; organisation = refl; number = refl; version = refl; deleted = refl },
      )

  units-Kept : (o : Option (List Text)) {t : Settings} → apply_units lower o s ≡ ok t → Kept t
  unfolding apply_units
  units-Kept none {t} h = let e : s ≡ t = cc h in subst Kept e Kept-self
  units-Kept (some us) {t} h = elim (Result-cases (normalize_quantity_units lower us)) [
    | inr (x, r) ↦ absurd (ground arith)
    | inl (vs, r) ↦
        let e : record s { quantity_units = vs } ≡ t = ground arith in
        subst Kept e (
          record {
            currency = v.currency;
            prefix_trimmed = v.prefix_trimmed;
            prefix_filled = v.prefix_filled;
            units = (normalize_quantity_units_ok lower us r).1;
          },
          record { id = refl; organisation = refl; number = refl; version = refl; deleted = refl },
        )
  ]

SameIdentity-trans : (s t u : Settings) → SameIdentity s t → SameIdentity t u → SameIdentity s u
SameIdentity-trans s t u a b = record {
  id = b.id ∙ a.id;
  organisation = b.organisation ∙ a.organisation;
  number = b.number ∙ a.number;
  version = b.version ∙ a.version;
  deleted = b.deleted ∙ a.deleted;
}

-- An update that passes validation was made for the version that was read; settings that keep the
-- rules keep them, and their identity, version and last invoice number stay.
pub apply_settings_update_ok :
    (upper lower : ℕ → ℕ) (expected : ℕ) (r : UpdateSettingsRequest) (s : Settings) {t : Settings}
    → IsValidSettings lower s
    → apply_settings_update upper lower expected r s ≡ ok t
    → (s.version ≡ expected) × IsValidSettings lower t × SameIdentity s t
unfolding apply_settings_update
apply_settings_update_ok upper lower expected r s {t} v h =
    elim (Result-cases (apply_currency upper r.currency s)) [
      | inr (x, a) ↦ absurd (ground arith)
      | inl (s₁, a) ↦ elim (Result-cases (apply_payment_terms r.payment_terms s₁)) [
        | inr (x, b) ↦ absurd (ground arith)
        | inl (s₂, b) ↦ elim (Result-cases (apply_prefix r.invoice_prefix s₂)) [
          | inr (x, c) ↦ absurd (ground arith)
          | inl (s₃, c) ↦
              let d : apply_units lower r.quantity_units s₃ ≡ ok t = ground arith in
              let (v₁, k₁) = currency-Kept lower s v upper r.currency a in
              let (v₂, k₂) = terms-Kept lower s₁ v₁ r.payment_terms b in
              let (v₃, k₃) = prefix-Kept lower s₂ v₂ r.invoice_prefix c in
              let (v₄, k₄) = units-Kept lower s₃ v₃ r.quantity_units d in
              (
                ground arith,
                v₄,
                SameIdentity-trans s s₁ t k₁
                    (SameIdentity-trans s₁ s₂ t k₂ (SameIdentity-trans s₂ s₃ t k₃ k₄)),
              )
        ]
      ]
    ]
