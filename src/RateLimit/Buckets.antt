-- ===== src/RateLimit/Buckets.antt =====
-- The map from keys to buckets (buckets in ratelimit.go).
use go_invoicing.Base.{
  ℕ, suc, ◌-◌, ◌≤◌, ◌≡◌, ◌∙◌, refl, ap, Bool, true, false, leb, Option, none, some, List, [], ◌∷◌,
  ◌++◌, length, if◌then◌else◌, Bool-cases, inl, inr, arith,
}
use go_invoicing.Base.Text.{text_eq_sym, Text, text_eq, text_eq_refl, eq_of_text_eq}
use go_invoicing.Base.Time.{Time}

-- bucket
pub record Bucket (B : Type 0) : Type 0 where
  pub limiter : B
  pub last_seen : Time

module _ {B : Type 0} where
  abbrev pub lookup : Text → List (Text × Bucket B) → Option (Bucket B)
  lookup key [] = none
  lookup key ((k, b) ∷ rest) = if text_eq k key then some b else lookup key rest

  abbrev pub revise : Text → (Bucket B → Bucket B) → List (Text × Bucket B) → List (Text × Bucket B)
  revise key f [] = []
  revise key f ((k, b) ∷ rest) =
      let others = revise key f rest in if text_eq k key then (k, f b) ∷ rest else (k, b) ∷ others

  abbrev pub is_idle : Time → ℕ → Bucket B → Bool
  is_idle now ttl b = leb ttl (now - b.last_seen)

  -- What a sweep keeps.
  abbrev pub unexpired : Time → ℕ → List (Text × Bucket B) → List (Text × Bucket B)
  unexpired now ttl [] = []
  unexpired now ttl ((k, b) ∷ rest) =
      let others = unexpired now ttl rest in if is_idle now ttl b then others else (k, b) ∷ others

  -- No key stands twice.
  abbrev pub IsMap : List (Text × Bucket B) → Type 0
  IsMap [] = Unit
  IsMap ((k, b) ∷ rest) = (lookup k rest ≡ none) × IsMap rest

  pub length-revise :
      (key : Text) (f : Bucket B → Bucket B) (bs : List (Text × Bucket B))
      → length (revise key f bs) ≡ length bs
  length-revise key f [] = refl
  length-revise key f ((k, b) ∷ rest) = elim (Bool-cases (text_eq k key)) [
    | inl hit ↦ rw hit refl
    | inr miss ↦ rw miss (ap suc (length-revise key f rest))
  ]

  pub length-unexpired :
      (now : Time) (ttl : ℕ) (bs : List (Text × Bucket B))
      → length (unexpired now ttl bs) ≤ length bs
  length-unexpired now ttl [] = omega arith
  length-unexpired now ttl ((k, b) ∷ rest) = elim (Bool-cases (is_idle now ttl b)) [
    | inl idle ↦ rw idle (omega (arith, length-unexpired now ttl rest))
    | inr busy ↦ rw busy (omega (arith, length-unexpired now ttl rest))
  ]

  module _ (key : Text) (f : Bucket B → Bucket B) where
    pub lookup-revise :
        (bs : List (Text × Bucket B)) {b : Bucket B}
        → lookup key bs ≡ some b
        → lookup key (revise key f bs) ≡ some (f b)
    lookup-revise [] h = absurd (ground arith)
    lookup-revise ((k, c) ∷ rest) {b} h = elim (Bool-cases (text_eq k key)) [
      | inl hit ↦
          let e : some c ≡ some b = rw hit at h in
          let e' : c ≡ b = cc e in rw (hit, hit) (ap (λ z. some (f z)) e')
      | inr miss ↦ rw (miss, miss) (lookup-revise rest (rw miss at h))
    ]

    pub lookup-revise_other :
        (other : Text) (bs : List (Text × Bucket B))
        → text_eq key other ≡ false
        → lookup other (revise key f bs) ≡ lookup other bs
    lookup-revise_other other [] n = refl
    lookup-revise_other other ((k, c) ∷ rest) n = elim (Bool-cases (text_eq k key)) [
      | inl hit ↦
          let e = eq_of_text_eq k key hit in
          let m : text_eq k other ≡ false = rw e n in rw (hit, m) refl
      | inr miss ↦ elim (Bool-cases (text_eq k other)) [
        | inl own' ↦ rw (miss, own') refl
        | inr else' ↦ rw (miss, else') (lookup-revise_other other rest n)
      ]
    ]

    pub IsMap-revise : (bs : List (Text × Bucket B)) → IsMap bs → IsMap (revise key f bs)
    IsMap-revise [] m = tt
    IsMap-revise ((k, c) ∷ rest) m = elim (Bool-cases (text_eq k key)) [
      | inl hit ↦ rw hit m
      | inr miss ↦
          let n = text_eq_sym k key miss in
          rw miss (lookup-revise_other k rest n ∙ m.0, IsMap-revise rest m.1)
    ]

  -- A new bucket for a key that has none.
  pub lookup-append :
      (key : Text) (b : Bucket B) (bs : List (Text × Bucket B))
      → lookup key bs ≡ none
      → lookup key (bs ++ ((key, b) ∷ [])) ≡ some b
  lookup-append key b [] h = rw (text_eq_refl key) refl
  lookup-append key b ((k, c) ∷ rest) h = elim (Bool-cases (text_eq k key)) [
    | inl hit ↦ absurd (ground arith)
    | inr miss ↦ rw miss (lookup-append key b rest (rw miss at h))
  ]

  pub lookup-append_other :
      (key other : Text) (b : Bucket B) (bs : List (Text × Bucket B))
      → text_eq key other ≡ false
      → lookup other (bs ++ ((key, b) ∷ [])) ≡ lookup other bs
  lookup-append_other key other b [] n = rw n refl
  lookup-append_other key other b ((k, c) ∷ rest) n = elim (Bool-cases (text_eq k other)) [
    | inl hit ↦ rw hit refl
    | inr miss ↦ rw miss (lookup-append_other key other b rest n)
  ]

  pub IsMap-append :
      (key : Text) (b : Bucket B) (bs : List (Text × Bucket B))
      → lookup key bs ≡ none
      → IsMap bs
      → IsMap (bs ++ ((key, b) ∷ []))
  IsMap-append key b [] h m = (refl, tt)
  IsMap-append key b ((k, c) ∷ rest) h m = elim (Bool-cases (text_eq k key)) [
    | inl hit ↦ absurd (ground arith)
    | inr miss ↦
        let n : text_eq key k ≡ false = text_eq_sym k key miss in
        (lookup-append_other key k b rest n ∙ m.0, IsMap-append key b rest (rw miss at h) m.1)
  ]

  -- A sweep forgets exactly the idle buckets.
  pub lookup-unexpired-none :
      (now : Time) (ttl : ℕ) (key : Text) (bs : List (Text × Bucket B))
      → lookup key bs ≡ none
      → lookup key (unexpired now ttl bs) ≡ none
  lookup-unexpired-none now ttl key [] h = refl
  lookup-unexpired-none now ttl key ((k, c) ∷ rest) h = elim (Bool-cases (text_eq k key)) [
    | inl hit ↦ absurd (ground arith)
    | inr miss ↦
        let r = lookup-unexpired-none now ttl key rest (rw miss at h) in
        elim (Bool-cases (is_idle now ttl c)) [
          | inl idle ↦ rw idle r
          | inr busy ↦ rw (busy, miss) r
        ]
  ]

  pub lookup-unexpired :
      (now : Time) (ttl : ℕ) (key : Text) (bs : List (Text × Bucket B)) {b : Bucket B}
      → IsMap bs
      → lookup key bs ≡ some b
      → lookup key (unexpired now ttl bs) ≡ (if is_idle now ttl b then none else some b)
  lookup-unexpired now ttl key [] m h = absurd (ground arith)
  lookup-unexpired now ttl key ((k, c) ∷ rest) {b} m h = elim (Bool-cases (text_eq k key)) [
    | inr miss ↦
        let r = lookup-unexpired now ttl key rest m.1 (rw miss at h) in
        elim (Bool-cases (is_idle now ttl c)) [
          | inl idle ↦ rw idle r
          | inr busy ↦ rw (busy, miss) r
        ]
    | inl hit ↦
        let e : some c ≡ some b = rw hit at h in
        let same : c ≡ b = cc e in
        let here = eq_of_text_eq k key hit in
        elim (Bool-cases (is_idle now ttl c)) [
          | inl idle ↦
              let idle' : is_idle now ttl b ≡ true = rw (← same) idle in
              rw (idle, idle') (lookup-unexpired-none now ttl key rest (rw here at m.0))
          | inr busy ↦
              let busy' : is_idle now ttl b ≡ false = rw (← same) busy in rw (busy, hit, busy') e
        ]
  ]

  pub IsMap-unexpired :
      (now : Time) (ttl : ℕ) (bs : List (Text × Bucket B)) → IsMap bs → IsMap (unexpired now ttl bs)
  IsMap-unexpired now ttl [] m = tt
  IsMap-unexpired now ttl ((k, c) ∷ rest) m =
      let r = IsMap-unexpired now ttl rest m.1 in
      elim (Bool-cases (is_idle now ttl c)) [
        | inl idle ↦ rw idle r
        | inr busy ↦ rw busy (lookup-unexpired-none now ttl k rest m.0, r)
      ]
