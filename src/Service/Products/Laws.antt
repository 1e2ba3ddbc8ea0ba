-- ===== src/Service/Products/Laws.antt =====
-- No two products of an organisation have the same SKU, after any calls of ProductService.
use mathlib.Core.Path.{subst}
use go_invoicing.Base.{
  ℕ, ◌≡◌, ◌≢◌, sym, Bool, true, false, ◌||◌, ◌==◌, Bool-cases, inl, inr, Option-cases, List, [],
  ◌∷◌, ◌++◌, All, find?, update_where, arith, Option,
}
use go_invoicing.Base.Text.{text_eq_sym, text_eq}
use go_invoicing.Errors.{product_create, product_update}
use go_invoicing.Admin.{Uuid}
use go_invoicing.Product.{Product, ProductFields}
use go_invoicing.Store.{Db, Env, M, ◌>>=◌}
use go_invoicing.Store.Binds.{bind_cases}
use go_invoicing.Store.Keys.{find?-none-All}
use go_invoicing.Store.Views.{All-map}
use go_invoicing.Store.Parties.{get_product}
use go_invoicing.Store.Products.{
  same_sku, is_product, created_product, insert_product, is_rival, edited_product,
  update_product_row,
}
use go_invoicing.Service.Products.{
  validate_product_fields, new_product, create_product, revised_product, update_product,
}

-- The primary key and the unique constraint on the SKU.
abbrev pub IsCatalogue : List Product → Type 0
IsCatalogue [] = Unit
IsCatalogue (p ∷ ps) = All (λ q. (same_sku p q ≡ false) × (q.id ≢ p.id)) ps × IsCatalogue ps

same_sku_sym : (p q : Product) → same_sku p q ≡ false → same_sku q p ≡ false
same_sku_sym p q h = elim (Bool-cases (p.organisation_id == q.organisation_id)) [
  | inr other ↦ ground arith
  | inl same ↦
      let n : text_eq p.sku q.sku ≡ false = ground arith in
      let m = text_eq_sym p.sku q.sku n in ground (arith, m)
]

All-appended {ℓ κ} :
    {A : Type ℓ} (P : A → Type κ) (xs : List A) (x : A) → All P xs → P x → All P (xs ++ (x ∷ []))
All-appended P [] x a h = (h, tt)
All-appended P (y ∷ ys) x a h = (a.0, All-appended P ys x a.1 h)

IsCatalogue-appended :
    (ps : List Product) (p : Product)
    → All (λ q. (same_sku q p ≡ false) × (p.id ≢ q.id)) ps
    → IsCatalogue ps
    → IsCatalogue (ps ++ (p ∷ []))
IsCatalogue-appended [] p a c = (tt, tt)
IsCatalogue-appended (q ∷ qs) p a c =
    (All-appended _ qs p c.0 a.0, IsCatalogue-appended qs p a.1 c.1)

insert_product-IsCatalogue :
    (env : Env) (p : Product) (db : Db)
    → IsCatalogue db.products
    → IsCatalogue (insert_product env p db).1.products
unfolding insert_product
insert_product-IsCatalogue env p db c = elim (Bool-cases (env.fails product_create)) [
  | inl down ↦ rw down c
  | inr up ↦ elim (Option-cases (find? (λ x. same_sku x p || x.id == p.id) db.products)) [
    | inr (x, f) ↦ rw (up, f) c
    | inl n ↦
        let free = find?-none-All (λ x. same_sku x p || x.id == p.id) db.products n in
        rw (up, n)
          (IsCatalogue-appended db.products (created_product env p)
            (All-map db.products (λ x h. (ground arith, λ e. absurd (ground arith))) free) c)
  ]
]

-- The rows with another identifier are left alone.
module _ (env : Env) (p : Product) where
  abbrev hits : Product → Bool
  hits = is_product p.organisation_id p.id

  abbrev edit : Product → Product
  edit = edited_product env p

  -- A row that is kept does not clash with an edited one.
  IsCatalogue-head :
      (q : Product) (qs : List Product)
      → hits q ≡ false
      → is_rival p q ≡ false
      → All (λ r. (same_sku q r ≡ false) × (r.id ≢ q.id)) qs
      → All (λ r. (same_sku q r ≡ false) × (r.id ≢ q.id)) (update_where hits edit qs)
  IsCatalogue-head q [] m n a = tt
  IsCatalogue-head q (r ∷ rs) m n a = elim (Bool-cases (hits r)) [
    | inl hit ↦ rw hit ((ground arith, a.0.1), IsCatalogue-head q rs m n a.1)
    | inr miss ↦ rw miss (a.0, IsCatalogue-head q rs m n a.1)
  ]

  -- An edited row does not clash with those after it.
  IsCatalogue-edited :
      (q : Product) (qs : List Product)
      → hits q ≡ true
      → All (λ r. is_rival p r ≡ false) qs
      → All (λ r. (same_sku q r ≡ false) × (r.id ≢ q.id)) qs
      → All (λ r. (same_sku (edit q) r ≡ false) × (r.id ≢ q.id)) (update_where hits edit qs)
  IsCatalogue-edited q [] h n a = tt
  IsCatalogue-edited q (r ∷ rs) h n a = elim (Bool-cases (hits r)) [
    | inl hit ↦ absurd (let d = a.0.1 in d (ground arith))
    | inr miss ↦
        let k : same_sku r p ≡ false = let z = n.0 in ground arith in
        let k' = same_sku_sym r p k in
        rw miss ((ground arith, a.0.1), IsCatalogue-edited q rs h n.1 a.1)
  ]

  IsCatalogue-update_where :
      (ps : List Product)
      → All (λ r. is_rival p r ≡ false) ps
      → IsCatalogue ps
      → IsCatalogue (update_where hits edit ps)
  IsCatalogue-update_where [] n c = tt
  IsCatalogue-update_where (q ∷ qs) n c = elim (Bool-cases (hits q)) [
    | inl hit ↦ rw hit (IsCatalogue-edited q qs hit n.1 c.0, IsCatalogue-update_where qs n.1 c.1)
    | inr miss ↦ rw miss (IsCatalogue-head q qs miss n.0 c.0, IsCatalogue-update_where qs n.1 c.1)
  ]

  update_row-IsCatalogue :
      (db : Db) → IsCatalogue db.products → IsCatalogue (update_product_row env p db).1.products
  unfolding update_product_row
  update_row-IsCatalogue db c = elim (Bool-cases (env.fails product_update)) [
    | inl down ↦ rw down c
    | inr up ↦ elim (Option-cases (find? hits db.products)) [
      | inl n ↦ rw (up, n) c
      | inr (x, f) ↦ elim (Option-cases (find? (is_rival p) db.products)) [
        | inr (y, g) ↦ rw (up, f, g) c
        | inl n ↦
            rw (up, f, n)
              (IsCatalogue-update_where db.products (find?-none-All (is_rival p) db.products n) c)
      ]
    ]
  ]

bind-IsCatalogue {ℓ κ} :
    {A : Type ℓ} {B : Type κ} (m : M A) (f : A → M B) (db : Db)
    → (m db).1 ≡ db
    → ((a : A) → IsCatalogue (f a db).1.products)
    → IsCatalogue db.products
    → IsCatalogue ((m >>= f) db).1.products
bind-IsCatalogue m f db same next c = elim (bind_cases m f db) [
  | inl (a, e, h) ↦ subst (λ r. IsCatalogue r.1.products) (sym h) (rw same (next a))
  | inr (x, e, h) ↦ subst (λ r. IsCatalogue r.1.products) (sym h) (rw same c)
]

validate-db : (r : ProductFields) (db : Db) → (validate_product_fields r db).1 ≡ db
unfolding validate_product_fields
validate-db r db = ground arith

get_product-db :
    (env : Env) (n : ℕ) (org id : Uuid) (db : Db) → (get_product env n org id db).1 ≡ db
unfolding get_product
get_product-db env n org id db = ground arith

-- Create and Update, whatever they return, keep the products such that no two of one organisation have
-- the same SKU, deleted ones included, and no two the same identifier.
pub product_writes-IsCatalogue :
    (env : Env) (org id : Uuid) (r : ProductFields) (active : Option Bool) (db : Db)
    → IsCatalogue db.products
    → IsCatalogue (create_product env org r db).1.products
      × IsCatalogue (update_product env org id r active db).1.products
unfolding create_product update_product
product_writes-IsCatalogue env org id r active db c = (
  bind-IsCatalogue (validate_product_fields r) (λ n. insert_product env (new_product env org r n))
      db (validate-db r db) (λ n. insert_product-IsCatalogue env (new_product env org r n) db c) c,
  bind-IsCatalogue (validate_product_fields r)
      (λ n. get_product env 0 org id >>= λ p. update_product_row env (revised_product r active n p))
      db (validate-db r db)
      (λ n.
        bind-IsCatalogue (get_product env 0 org id)
          (λ p. update_product_row env (revised_product r active n p)) db
          (get_product-db env 0 org id db)
          (λ p. update_row-IsCatalogue env (revised_product r active n p) db c) c)
      c,
)
