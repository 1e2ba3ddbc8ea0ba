-- ===== src/Http/Query/Laws.antt =====
-- What a list endpoint accepts from its query string.
use go_invoicing.Base.{
  ℕ, ◌≡◌, ◌≤◌, ◌⊎◌, ◌∙◌, refl, ap, Bool, true, false, leb, some, List, [], ◌∷◌, inl, inr,
  Option-cases, Bool-cases, arith,
}
use go_invoicing.Base.Text.{Text, itoa, is_empty, text_eq, eq_of_text_eq, to_lower, codes}
use go_invoicing.Base.Int.{ℤ, pos, negsuc}
use go_invoicing.Http.{Reply, ErrorCode}
use go_invoicing.Http.Number.{atoi, atoi_bound, itoa-filled, atoi-itoa}
use go_invoicing.Http.Query.{
  parse_limit, parse_offset, parse_limit_offset, matched_field, parse_field, parse_order,
  parse_sort_order,
}

Reply-cases {ℓ} :
    {A : Type ℓ} (r : Reply A)
    → ((a : A) × (r ≡ Reply.accepted a)) ⊎ ((c : ErrorCode) × (r ≡ Reply.refused c))
Reply-cases (Reply.accepted a) = inl (a, refl)
Reply-cases (Reply.refused c) = inr (c, refl)

ℤ-cases : (z : ℤ) → ((n : ℕ) × (z ≡ pos n)) ⊎ ((n : ℕ) × (z ≡ negsuc n))
ℤ-cases (pos n) = inl (n, refl)
ℤ-cases (negsuc n) = inr (n, refl)

parse_limit_ok : (raw : Text) (l : ℕ) → parse_limit raw ≡ Reply.accepted l → (1 ≤ l) × (l ≤ 200)
unfolding parse_limit
parse_limit_ok raw l h = elim (Bool-cases (is_empty raw)) [
  | inl absent ↦ let e : l ≡ 50 = ground arith in rw e (ground arith)
  | inr given ↦ elim (Option-cases (atoi raw)) [
    | inl n ↦ absurd (ground arith)
    | inr (z, e) ↦ elim (ℤ-cases z) [
      | inr (n, k) ↦ absurd (let q = e ∙ ap some k in ground arith)
      | inl (n, k) ↦ let q = e ∙ ap some k in (ground arith, ground arith)
    ]
  ]
]

parse_offset_ok :
    (raw : Text) (o : ℕ) → parse_offset raw ≡ Reply.accepted o → o ≤ 9223372036854775807
unfolding parse_offset
parse_offset_ok raw o h = elim (Bool-cases (is_empty raw)) [
  | inl absent ↦ let e : o ≡ 0 = ground arith in rw e (ground arith)
  | inr given ↦ elim (Option-cases (atoi raw)) [
    | inl n ↦ absurd (ground arith)
    | inr (z, e) ↦ elim (ℤ-cases z) [
      | inr (n, k) ↦ absurd (let q = e ∙ ap some k in ground arith)
      | inl (n, k) ↦ let q = e ∙ ap some k in let b = atoi_bound raw n q in ground (arith, b)
    ]
  ]
]

limit_bounds :
    (limit offset : Text) (l o : ℕ)
    → parse_limit_offset limit offset ≡ Reply.accepted (l, o)
    → (1 ≤ l) × (l ≤ 200) × (o ≤ 9223372036854775807)
unfolding parse_limit_offset
limit_bounds limit offset l o h = elim (Reply-cases (parse_limit limit)) [
  | inr (c, e) ↦ absurd (ground arith)
  | inl (n, e) ↦ elim (Reply-cases (parse_offset offset)) [
    | inr (c, e') ↦ absurd (ground arith)
    | inl (m, e') ↦
        let same : n ≡ l = ground arith in
        let same' : m ≡ o = ground arith in
        let (low, high) = parse_limit_ok limit l (e ∙ ap Reply.accepted same) in
        (low, high, parse_offset_ok offset o (e' ∙ ap Reply.accepted same'))
  ]
]

limit_read :
    (l o : ℕ)
    → 1 ≤ l
    → l ≤ 200
    → o ≤ 9223372036854775807
    → parse_limit_offset (itoa l) (itoa o) ≡ Reply.accepted (l, o)
unfolding parse_limit_offset parse_limit parse_offset
limit_read l o low high fits =
    let at_least : leb 1 l ≡ true = ground arith in
    let at_most : leb l 200 ≡ true = ground arith in
    rw
      (
        itoa-filled l,
        itoa-filled o,
        atoi-itoa l (omega (arith, high)),
        atoi-itoa o fits,
        at_least,
        at_most,
      )
      refl

-- Whatever limit and offset a list endpoint accepts, it pages by at least 1 and at most 200 rows, from
-- an offset that an int64 holds; and every such pair, in decimal, is accepted as itself.
pub parse_limit_offset_bounds :
    ((limit offset : Text) (l o : ℕ)
      → parse_limit_offset limit offset ≡ Reply.accepted (l, o)
      → (1 ≤ l) × (l ≤ 200) × (o ≤ 9223372036854775807))
    × ((l o : ℕ)
        → 1 ≤ l
        → l ≤ 200
        → o ≤ 9223372036854775807
        → parse_limit_offset (itoa l) (itoa o) ≡ Reply.accepted (l, o))
parse_limit_offset_bounds = (limit_bounds, limit_read)

-- One of the names.
abbrev pub IsListed : List Text → Text → Type 0
IsListed [] t = ⊥
IsListed (a ∷ allowed) t = (t ≡ a) ⊎ IsListed allowed t

matched_field-IsListed :
    (fold : Text → Text → Bool) (allowed : List Text) (raw : Text)
    → is_empty (matched_field fold allowed raw) ≡ false
    → IsListed allowed (matched_field fold allowed raw)
matched_field-IsListed fold [] raw h = absurd (ground arith)
matched_field-IsListed fold (a ∷ allowed) raw h = elim (Bool-cases (fold a raw)) [
  | inl hit ↦ rw hit (inl refl)
  | inr miss ↦ rw miss (inr (matched_field-IsListed fold allowed raw (rw miss at h)))
]

parse_field_ok :
    (fold : Text → Text → Bool) (allowed : List Text) (fallback raw f : Text)
    → parse_field fold allowed fallback raw ≡ Reply.accepted f
    → (f ≡ fallback) ⊎ IsListed allowed f
parse_field_ok fold allowed fallback raw f h = elim (Bool-cases (is_empty raw)) [
  | inl absent ↦ inl (ground arith)
  | inr given ↦ elim (Bool-cases (is_empty (matched_field fold allowed raw))) [
    | inl none' ↦ absurd (ground arith)
    | inr some' ↦
        let e : f ≡ matched_field fold allowed raw = ground arith in
        rw e (inr (matched_field-IsListed fold allowed raw some'))
  ]
]

parse_order_ok :
    (lower : ℕ → ℕ) (fallback raw o : Text)
    → parse_order lower fallback raw ≡ Reply.accepted o
    → (o ≡ fallback) ⊎ ((o ≡ codes "asc") ⊎ (o ≡ codes "desc"))
parse_order_ok lower fallback raw o h = elim (Bool-cases (is_empty raw)) [
  | inl absent ↦ inl (ground arith)
  | inr given ↦ elim (Bool-cases (text_eq (to_lower lower raw) (codes "asc"))) [
    | inl up ↦
        let e : o ≡ to_lower lower raw = ground arith in
        inr (inl (e ∙ eq_of_text_eq (to_lower lower raw) (codes "asc") up))
    | inr n ↦ elim (Bool-cases (text_eq (to_lower lower raw) (codes "desc"))) [
      | inl down ↦
          let e : o ≡ to_lower lower raw = ground arith in
          inr (inr (e ∙ eq_of_text_eq (to_lower lower raw) (codes "desc") down))
      | inr n' ↦ absurd (ground arith)
    ]
  ]
]

-- The sort field that a list endpoint hands on is its default or a name of its allow-list, and the
-- order its default, asc or desc: no text of the client's own gets through.
pub parse_sort_order_ok :
    (fold : Text → Text → Bool) (lower : ℕ → ℕ) (allowed : List Text)
    (default_field default_order sort order f o : Text)
    → parse_sort_order fold lower allowed default_field default_order sort order
      ≡ Reply.accepted (f, o)
    → ((f ≡ default_field) ⊎ IsListed allowed f)
      × ((o ≡ default_order) ⊎ ((o ≡ codes "asc") ⊎ (o ≡ codes "desc")))
unfolding parse_sort_order
parse_sort_order_ok fold lower allowed default_field default_order sort order f o h =
    elim (Reply-cases (parse_field fold allowed default_field sort)) [
      | inr (c, e) ↦ absurd (ground arith)
      | inl (g, e) ↦ elim (Reply-cases (parse_order lower default_order order)) [
        | inr (c, e') ↦ absurd (ground arith)
        | inl (p, e') ↦
            let same : g ≡ f = ground arith in
            let same' : p ≡ o = ground arith in
            (
              parse_field_ok fold allowed default_field sort f (e ∙ ap Reply.accepted same),
              parse_order_ok lower default_order order o (e' ∙ ap Reply.accepted same'),
            )
      ]
    ]
