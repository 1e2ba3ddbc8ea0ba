-- ===== src/Service/Templates/Laws/Rows.antt =====
-- What each statement on the table `invoice_templates` leaves of the defaults and of the Classic
-- layouts of every organisation.
use go_invoicing.Base.{refl, sym}
use go_invoicing.Store.Views.{All-every}
use go_invoicing.Base.{
  sym, inr, inl, Bool-cases, update_where, false, ◌∙◌, ◌==◌, Bool, ℕ, ◌≡◌, true, some, List, All,
  keep, map, arith,
}
use go_invoicing.Admin.{Uuid}
use go_invoicing.Base.Text.{Text}
use go_invoicing.Template.{Template}
use go_invoicing.Store.{Db}
use go_invoicing.Store.Keys.{DistinctBy-update_where, DistinctBy}
use go_invoicing.Store.Views.{All-every, keep-update_where, IsUnseen, All-only}
use go_invoicing.Store.Templates.{
  is_default_of, is_system_of, is_template, template_row, is_current_template,
}

-- The primary key.
abbrev pub DistinctTemplates : Db → Type 0
DistinctTemplates db = DistinctBy (λ (t : Template). t.id) db.templates

abbrev pub defaults : Db → Uuid → List Uuid
defaults db o = map (λ (t : Template). t.id) (keep (is_default_of o) db.templates)

-- What a layout is drawn from.
abbrev pub content : Template → Uuid × Text × Text
content t = (t.id, t.name, t.definition)

abbrev pub systems : Db → Uuid → List (Uuid × Text × Text)
systems db o = map content (keep (is_system_of o) db.templates)

pub template_id : (org id : Uuid) (t : Template) → is_template org id t ≡ true → t.id ≡ id
template_id org id t h = ground arith

pub current_id :
    (org id : Uuid) (e : ℕ) (t : Template) → is_current_template org id e t ≡ true → t.id ≡ id
current_id org id e t h = ground arith

-- The row that a statement names is the only one with its identifier.
module _ (org id : Uuid) (db : Db) (d : DistinctTemplates db) where
  pub only :
      {x : Template}
      → template_row db org id ≡ some x
      → All (λ t. is_template org id t ≡ true → t ≡ x) db.templates
  only f =
      All-only (λ (t : Template). t.id) id (is_template org id) (template_id org id) db.templates d
        f

-- What every statement for an organisation keeps: distinct identifiers, the Classic layouts of all, and
-- the defaults of the others.
pub record IsKept (org : Uuid) (before after : Db) : Type 0 where
  pub distinct : DistinctTemplates after
  pub classic : (o : Uuid) → systems after o ≡ systems before o
  pub others : (o : Uuid) → (o == org) ≡ false → defaults after o ≡ defaults before o

pub IsKept-same : (org : Uuid) (db : Db) → DistinctTemplates db → IsKept org db db
IsKept-same org db d = record { distinct = d; classic = λ o. refl; others = λ o n. refl }

pub IsKept-twice : (org : Uuid) (a b c : Db) → IsKept org a b → IsKept org b c → IsKept org a c
IsKept-twice org a b c x y = record {
  distinct = y.distinct;
  classic = λ o. y.classic o ∙ x.classic o;
  others = λ o n. y.others o n ∙ x.others o n;
}

module _ (org : Uuid) (db : Db) (q : Template → Bool) (f : Template → Template)
    (same_id : (t : Template) → (f t).id ≡ t.id)
    (same_org : (t : Template) → (f t).organisation_id ≡ t.organisation_id)
    (of_org : (t : Template) → q t ≡ true → t.organisation_id ≡ org) where
  abbrev updated : Db
  updated = record db { templates = update_where q f db.templates }

  -- The rows of another organisation are not reached.
  foreign :
      (p : Template → Bool) (o : Uuid) (t : Template)
      → (o == org) ≡ false
      → q t ≡ true
      → (p t ≡ true → t.organisation_id ≡ o)
      → p t ≡ false
  foreign p o t n h own = elim (Bool-cases (p t)) [
    | inl yes' ↦ absurd (let a = own yes' in let b = of_org t h in ground arith)
    | inr no' ↦ no'
  ]

  unseen {κ} :
      {B : Type κ} (p : Template → Bool) (view : Template → B) (o : Uuid)
      → ((t : Template) → p t ≡ true → t.organisation_id ≡ o)
      → (o == org) ≡ false
      → (t : Template) → q t ≡ true
      → IsUnseen p view f t
  unseen p view o own n t h =
      let before = foreign p o t n h (own t) in
      let after : p (f t) ≡ false = elim (Bool-cases (p (f t))) [
        | inl yes' ↦
            absurd
              (let a = own (f t) yes' in let b = of_org t h in let c = same_org t in ground arith)
        | inr no' ↦ no'
      ] in
      (after ∙ sym before, λ y. absurd (ground arith))

  default_org : (o : Uuid) (t : Template) → is_default_of o t ≡ true → t.organisation_id ≡ o
  default_org o t h = ground arith

  system_org : (o : Uuid) (t : Template) → is_system_of o t ≡ true → t.organisation_id ≡ o
  system_org o t h = ground arith

  pub IsKept-updated :
      DistinctTemplates db
      → All (λ t. q t ≡ true → IsUnseen (is_system_of org) content f t) db.templates
      → IsKept org db updated
  IsKept-updated d a = record {
    distinct = DistinctBy-update_where (λ (t : Template). t.id) q f db.templates same_id d;
    classic = λ o. elim (Bool-cases (o == org)) [
      | inl same ↦
          let e : o ≡ org = ground arith in
          rw e (keep-update_where (is_system_of org) q content f db.templates a)
      | inr differs ↦
          keep-update_where (is_system_of o) q content f db.templates
            (All-every _ db.templates (unseen (is_system_of o) content o (system_org o) differs))
    ];
    others = λ o differs.
        keep-update_where (is_default_of o) q (λ (t : Template). t.id) f db.templates
          (All-every _ db.templates
            (unseen (is_default_of o) (λ (t : Template). t.id) o (default_org o) differs));
  }
