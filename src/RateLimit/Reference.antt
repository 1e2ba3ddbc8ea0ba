-- ===== src/RateLimit/Reference.antt =====
-- A limiter that never forgets a key, which Limiter implements while it has room.
use mathlib.Core.Path.{subst}
use go_invoicing.Base.{
  ℕ, ◌-◌, ◌≤◌, ◌≡◌, ◌∙◌, refl, sym, false, none, some, Option-cases, List, [], ◌∷◌, ◌++◌,
  Bool-cases, inl, inr, arith, if◌then◌else◌,
}
use go_invoicing.Base.Text.{Text, text_eq, eq_of_text_eq}
use go_invoicing.Base.Time.{Time}
use go_invoicing.RateLimit.{RatePackage, Verdict, spend}
use go_invoicing.RateLimit.Buckets.{
  Bucket, lookup, revise, unexpired, is_idle, IsMap, lookup-revise, lookup-revise_other,
  IsMap-revise, lookup-append, lookup-append_other, IsMap-append, lookup-unexpired,
  lookup-unexpired-none, IsMap-unexpired,
}

-- A limiter of the package for every key, each used from the first request on.
abbrev pub ref_allow :
    (rate : RatePackage) → Text → Time → (Text → rate.Limiter) → Verdict × (Text → rate.Limiter)
ref_allow rate key now s =
    let (v, b) = spend rate now (s key) in (v, λ k. if text_eq key k then b else s k)

-- What the package golang.org/x/time/rate promises of a limiter left alone for `ttl`: it has refilled,
-- and serves as a new one. `Used t b` says that no request of `b` is later than t.
pub record RefillsWhenIdle (rate : RatePackage) (ttl : ℕ) : Type 1 where
  pub Used : Time → rate.Limiter → Type 0
  pub used_new : (t : Time) → Used t rate.new_limiter
  pub used_spend :
      (t now : Time) (b : rate.Limiter) → t ≤ now → Used t b → Used now (spend rate now b).1
  pub refilled :
      (t now : Time) (b : rate.Limiter)
      → t ≤ now
      → ttl ≤ now - t
      → Used t b
      → spend rate now b ≡ spend rate now rate.new_limiter

module _ (rate : RatePackage) (ttl : ℕ) (law : RefillsWhenIdle rate ttl) where
  -- The buckets stand for the reference's limiters at the moment `now`.
  pub record IsTracking (now : Time) (bs : List (Text × Bucket rate.Limiter))
      (s : Text → rate.Limiter) : Type 0 where
    map : IsMap bs
    held :
        (k : Text) (b : Bucket rate.Limiter)
        → lookup k bs ≡ some b
        → (s k ≡ b.limiter) × law.Used b.last_seen (s k) × (b.last_seen ≤ now)
    forgotten :
        (k : Text)
        → lookup k bs ≡ none
        → (later : Time) → now ≤ later
        → spend rate later (s k) ≡ spend rate later rate.new_limiter

  pub IsTracking-empty : (now : Time) → IsTracking now [] (λ k. rate.new_limiter)
  IsTracking-empty now = record {
    map = tt;
    held = λ k b h. absurd (ground arith);
    forgotten = λ k h later n. refl;
  }

  pub IsTracking-later :
      (now now' : Time) (bs : List (Text × Bucket rate.Limiter)) (s : Text → rate.Limiter)
      → now ≤ now'
      → IsTracking now bs s
      → IsTracking now' bs s
  IsTracking-later now now' bs s n x = record {
    map = x.map;
    held = λ k b h. let (e, u, t) = x.held k b h in (e, u, omega (arith, t, n));
    forgotten = λ k h later m. x.forgotten k h later (omega (arith, n, m));
  }

  pub IsTracking-swept :
      (now : Time) (bs : List (Text × Bucket rate.Limiter)) (s : Text → rate.Limiter)
      → IsTracking now bs s
      → IsTracking now (unexpired now ttl bs) s
  IsTracking-swept now bs s x = record {
    map = IsMap-unexpired now ttl bs x.map;
    held = λ k b h. elim (Option-cases (lookup k bs)) [
      | inl n ↦ absurd (let z = lookup-unexpired-none now ttl k bs n in ground arith)
      | inr (c, f) ↦
          let z = lookup-unexpired now ttl k bs x.map f in
          elim (Bool-cases (is_idle now ttl c)) [
            | inl idle ↦ absurd (ground arith)
            | inr busy ↦ let e : b ≡ c = ground arith in rw e (x.held k c f)
          ]
    ];
    forgotten = λ k h later m. elim (Option-cases (lookup k bs)) [
      | inl n ↦ x.forgotten k n later m
      | inr (c, f) ↦
          let z = lookup-unexpired now ttl k bs x.map f in
          let (e, u, t) = x.held k c f in
          elim (Bool-cases (is_idle now ttl c)) [
            | inr busy ↦ absurd (ground arith)
            | inl idle ↦ law.refilled c.last_seen later (s k) (omega (arith, t, m)) (ground arith) u
          ]
    ];
  }

  -- One request, once the key's bucket has been written.
  IsTracking-spent :
      (key : Text) (now : Time) (bs after : List (Text × Bucket rate.Limiter))
      (s : Text → rate.Limiter)
      → IsTracking now bs s
      → IsMap after
      → lookup key after ≡ some (record { limiter = (spend rate now (s key)).1; last_seen = now })
      → ((k : Text) → text_eq key k ≡ false → lookup k after ≡ lookup k bs)
      → law.Used now (spend rate now (s key)).1
      → IsTracking now after (ref_allow rate key now s).1
  IsTracking-spent key now bs after s x m h same u = record {
    map = m;
    held = λ k b f. elim (Bool-cases (text_eq key k)) [
      | inr other ↦ rw other (x.held k b (sym (same k other) ∙ f))
      | inl here ↦
          let e = eq_of_text_eq key k here in
          let w : some (record { limiter = (spend rate now (s key)).1; last_seen = now }) ≡ some b =
            sym h ∙ rw e f in
          let is : record { limiter = (spend rate now (s key)).1; last_seen = now } ≡ b = cc w in
          rw (here, ← is) (refl, u, omega arith)
    ];
    forgotten = λ k f later n. elim (Bool-cases (text_eq key k)) [
      | inr other ↦ rw other (x.forgotten k (sym (same k other) ∙ f) later n)
      | inl here ↦
          let e = eq_of_text_eq key k here in
          absurd (let z : lookup key after ≡ none = rw e f in let w = sym h ∙ z in ground arith)
    ];
  }

  -- The bucket that a request of a key reads: it serves as the reference's limiter does.
  pub serves_same :
      (key : Text) (now : Time) (bs : List (Text × Bucket rate.Limiter)) (s : Text → rate.Limiter)
      → IsTracking now bs s
      → (law.Used now (spend rate now (s key)).1)
        × ((b : Bucket rate.Limiter) → lookup key bs ≡ some b → b.limiter ≡ s key)
        × (lookup key bs ≡ none → spend rate now rate.new_limiter ≡ spend rate now (s key))
  serves_same key now bs s x = (
    elim (Option-cases (lookup key bs)) [
      | inl n ↦
          subst (λ r. law.Used now r.1) (sym (x.forgotten key n now (omega arith)))
            (law.used_spend now now rate.new_limiter (omega arith) (law.used_new now))
      | inr (b, f) ↦ let (e, u, t) = x.held key b f in law.used_spend b.last_seen now (s key) t u
    ],
    λ b f. sym (x.held key b f).0,
    λ n. sym (x.forgotten key n now (omega arith)),
  )

  abbrev touched :
      Text
      → Time
      → rate.Limiter
      → List (Text × Bucket rate.Limiter)
      → List (Text × Bucket rate.Limiter)
  touched key now c bs =
      revise key (λ old. record old { limiter = c })
        (revise key (λ b. record b { last_seen = now }) bs)

  -- A request of a key that has a bucket.
  pub known_key :
      (key : Text) (now : Time) (bs : List (Text × Bucket rate.Limiter)) (s : Text → rate.Limiter)
      (b : Bucket rate.Limiter)
      → IsTracking now bs s
      → lookup key bs ≡ some b
      → IsTracking now (touched key now (spend rate now (s key)).1 bs) (ref_allow rate key now s).1
  known_key key now bs s b x f =
      let touch : Bucket rate.Limiter → Bucket rate.Limiter = λ b. record b { last_seen = now } in
      let place : Bucket rate.Limiter → Bucket rate.Limiter =
        λ old. record old { limiter = (spend rate now (s key)).1 } in
      IsTracking-spent key now bs (revise key place (revise key touch bs)) s x
        (IsMap-revise key place (revise key touch bs) (IsMap-revise key touch bs x.map))
        (lookup-revise key place (revise key touch bs) (lookup-revise key touch bs f))
        (λ k n.
          lookup-revise_other key place k (revise key touch bs) n
          ∙ lookup-revise_other key touch k bs n)
        (serves_same key now bs s x).0

  abbrev started :
      Text → Time → List (Text × Bucket rate.Limiter) → List (Text × Bucket rate.Limiter)
  started key now bs = bs ++ ((key, record { limiter = rate.new_limiter; last_seen = now }) ∷ [])

  -- A request of a key that has none.
  pub new_key :
      (key : Text) (now : Time) (bs : List (Text × Bucket rate.Limiter)) (s : Text → rate.Limiter)
      → IsTracking now bs s
      → lookup key bs ≡ none
      → IsTracking now
          (revise key
            (λ old. record old { limiter = (spend rate now (s key)).1 })
            (started key now bs))
          (ref_allow rate key now s).1
  new_key key now bs s x n =
      let first : Bucket rate.Limiter = record { limiter = rate.new_limiter; last_seen = now } in
      let place : Bucket rate.Limiter → Bucket rate.Limiter =
        λ old. record old { limiter = (spend rate now (s key)).1 } in
      IsTracking-spent key now bs (revise key place (started key now bs)) s x
        (IsMap-revise key place (started key now bs) (IsMap-append key first bs n x.map))
        (lookup-revise key place (started key now bs) (lookup-append key first bs n))
        (λ k m.
          lookup-revise_other key place k (started key now bs) m
          ∙ lookup-append_other key k first bs m)
        (serves_same key now bs s x).0
