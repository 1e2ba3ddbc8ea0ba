-- ===== src/RateLimit/Forwarded.antt =====
-- What a client puts into X-Forwarded-For does not choose its key (internal/httpx/ratelimit.go).
use mathlib.Core.Path.{subst}
use go_invoicing.Base.{
  ◌≡◌, ◌∙◌, refl, sym, ap, Bool, Bool-cases, inl, inr, ◌==◌, some, List, [], ◌∷◌, ◌++◌, arith,
  Option-cases,
}
use go_invoicing.Base.Text.{Text, trim_space}
use go_invoicing.RateLimit.ClientAddress.{
  NetOps, join_commas, split_commas, backwards, client_hop, hops, is_trusted, client_address_key,
  peer_address, unmapped,
}

split_cons : (s : Text) → (w : Text) × (ws : List Text) × (split_commas s ≡ w ∷ ws)
split_cons [] = ([], [], refl)
split_cons (c ∷ s) = elim (Bool-cases (c == b',')) [
  | inl comma ↦ ([], split_commas s, rw comma refl)
  | inr other ↦ let (w, ws, e) = split_cons s in (c ∷ w, ws, rw (other, e) refl)
]

split-joined : (s t : Text) → split_commas (s ++ (b',' ∷ t)) ≡ split_commas s ++ split_commas t
split-joined [] t = refl
split-joined (c ∷ s) t = elim (Bool-cases (c == b',')) [
  | inl comma ↦ rw comma (ap (λ r. [] ∷ r) (split-joined s t))
  | inr other ↦
      let (w, ws, e) = split_cons s in
      let i : split_commas (s ++ (b',' ∷ t)) ≡ w ∷ (ws ++ split_commas t) =
        split-joined s t ∙ ap (λ r. r ++ split_commas t) e in
      rw (other, i, e) refl
]

append_nil : (xs : List Text) → xs ++ [] ≡ xs
append_nil [] = refl
append_nil (x ∷ xs) = ap (λ r. x ∷ r) (append_nil xs)

append_assoc : (xs ys zs : List Text) → (xs ++ ys) ++ zs ≡ xs ++ (ys ++ zs)
append_assoc [] ys zs = refl
append_assoc (x ∷ xs) ys zs = ap (λ r. x ∷ r) (append_assoc xs ys zs)

backwards-append : (xs ys : List Text) → backwards (xs ++ ys) ≡ backwards ys ++ backwards xs
backwards-append [] ys = sym (append_nil (backwards ys))
backwards-append (x ∷ xs) ys =
    ap (λ r. r ++ (x ∷ [])) (backwards-append xs ys)
    ∙ append_assoc (backwards ys) (backwards xs) (x ∷ [])

-- The hops of the last value come first.
last_first :
    (forged : List Text) (appended : Text)
    → (older : List Text) × (backwards (split_commas (join_commas (forged ++ (appended ∷ []))))
        ≡ backwards (split_commas appended) ++ older)
last_first [] appended = ([], sym (append_nil (backwards (split_commas appended))))
last_first (v ∷ []) appended = (
  backwards (split_commas v),
  ap backwards (split-joined v appended)
      ∙ backwards-append (split_commas v) (split_commas appended),
)
last_first (v ∷ w ∷ vs) appended =
    let (older, e) = last_first (w ∷ vs) appended in
    let tail = join_commas ((w ∷ vs) ++ (appended ∷ [])) in
    (
      older ++ backwards (split_commas v),
      ap backwards (split-joined v tail)
          ∙ backwards-append (split_commas v) (split_commas tail)
          ∙ ap (λ r. r ++ backwards (split_commas v)) e
          ∙ append_assoc (backwards (split_commas appended)) older (backwards (split_commas v)),
    )

module _ (net : NetOps) where
  -- A hop that is found among the first is found among all.
  client_hop-append :
      (trusts : net.Addr → Bool) (xs ys : List Text) (hop : net.Addr)
      → client_hop net trusts xs ≡ some hop
      → client_hop net trusts (xs ++ ys) ≡ some hop
  client_hop-append trusts [] ys hop h = absurd (ground arith)
  client_hop-append trusts (x ∷ xs) ys hop h =
      elim (Option-cases (unmapped net (net.parse (trim_space x)))) [
        | inl n ↦ absurd (let k = rw n at h in ground arith)
        | inr (a, e) ↦ elim (Bool-cases (trusts a)) [
          | inl known ↦
              let k : client_hop net trusts xs ≡ some hop = rw (e, known) at h in
              rw (e, known) (client_hop-append trusts xs ys hop k)
          | inr stranger ↦ rw (e, stranger) (let k = rw (e, stranger) at h in k)
        ]
      ]

  module _ (p : net.Prefix) (ps : List net.Prefix) (remote : Text) (forged : List Text)
      (appended : Text) (hop : net.Addr) where
    -- The values of X-Forwarded-For before the one that the trusted proxies appended have no part in
    -- the key of a request, once that one has a hop that is not trusted and no unreadable one to its
    -- right.
    pub forged_values_are_ignored :
        client_hop net (is_trusted net (p ∷ ps)) (hops net (appended ∷ [])) ≡ some hop
        → client_address_key net (p ∷ ps) remote (forged ++ (appended ∷ []))
          ≡ client_address_key net (p ∷ ps) remote (appended ∷ [])
    unfolding client_address_key
    forged_values_are_ignored h =
        let trusts = is_trusted net (p ∷ ps) in
        let (older, e) = last_first forged appended in
        let found : client_hop net trusts (hops net (forged ++ (appended ∷ []))) ≡ some hop =
          subst (λ r. client_hop net trusts r ≡ some hop) (sym e)
            (client_hop-append trusts (backwards (split_commas appended)) older hop h) in
        elim (Option-cases (peer_address net remote)) [
          | inl n ↦ rw n refl
          | inr (peer, known) ↦ elim (Bool-cases (trusts peer)) [
            | inl proxy ↦ rw (known, proxy, found, h) refl
            | inr stranger ↦ rw (known, stranger) refl
          ]
        ]
