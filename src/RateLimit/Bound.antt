-- ===== src/RateLimit/Bound.antt =====
-- The number of buckets, after any requests.
use go_invoicing.Base.{◌-◌}
use go_invoicing.RateLimit.{spend, limiter_at}
use go_invoicing.RateLimit.Buckets.{revise}
use go_invoicing.Base.{
  ℕ, suc, ◌≤◌, ◌≡◌, refl, leb, Option-cases, List, [], ◌∷◌, length, length-append, Bool-cases, inl,
  inr, arith,
}
use go_invoicing.Base.Text.{Text}
use go_invoicing.Base.Time.{Time}
use go_invoicing.RateLimit.{
  RatePackage, KeyedLimiter, new, sweep, swept, is_full, with_room, add_bucket, bucket_for,
  spend_at, allow, len, own, shared, Place,
}
use go_invoicing.RateLimit.Buckets.{Bucket, lookup, length-revise, length-unexpired}

module _ (rate : RatePackage) where
  -- At most max_keys buckets, and the same max_keys.
  abbrev Bounded : ℕ → KeyedLimiter rate → Type 0
  Bounded n l = (length l.buckets ≤ n) × (l.max_keys ≡ n)

  swept-Bounded :
      (n : ℕ) (now : Time) (l : KeyedLimiter rate) → Bounded n l → Bounded n (swept rate now l)
  unfolding sweep
  swept-Bounded n now l b =
      let k = length-unexpired now l.idle_ttl l.buckets in
      elim (Bool-cases (leb l.sweep_interval (now - l.last_sweep))) [
        | inl due ↦ rw due (omega (arith, k, b.0), b.1)
        | inr early ↦ rw early b
      ]

  with_room-Bounded :
      (n : ℕ) (now : Time) (l : KeyedLimiter rate) → Bounded n l → Bounded n (with_room rate now l)
  unfolding sweep
  with_room-Bounded n now l b =
      let k = length-unexpired now l.idle_ttl l.buckets in
      elim (Bool-cases (is_full rate l)) [
        | inr room ↦ rw room b
        | inl full ↦ elim (Bool-cases (leb 1000000000 (now - l.last_sweep))) [
          | inl due ↦ rw (full, due) (omega (arith, k, b.0), b.1)
          | inr early ↦ rw (full, early) b
        ]
      ]

  add_bucket-Bounded :
      (n : ℕ) (key : Text) (now : Time) (l : KeyedLimiter rate)
      → Bounded n l
      → Bounded n (add_bucket rate key now l).1
  add_bucket-Bounded n key now l b = elim (Bool-cases (is_full rate l)) [
    | inl full ↦ rw full b
    | inr room ↦
        let e =
          length-append l.buckets
            ((key, record { limiter = rate.new_limiter; last_seen = now }) ∷ []) in
        let less : suc (length l.buckets) ≤ l.max_keys = ground arith in
        rw room (omega (arith, e, less, b.1), b.1)
  ]

  length-revised :
      (n : ℕ) (key : Text) (f : Bucket rate.Limiter → Bucket rate.Limiter) (l : KeyedLimiter rate)
      → Bounded n l
      → length (revise key f l.buckets) ≤ n
  length-revised n key f l b = omega (arith, length-revise key f l.buckets, b.0)

  bucket_for-Bounded :
      (n : ℕ) (key : Text) (now : Time) (l : KeyedLimiter rate)
      → Bounded n l
      → Bounded n (bucket_for rate key now l).1
  unfolding bucket_for
  bucket_for-Bounded n key now l b = elim (Option-cases (lookup key l.buckets)) [
    | inr (c, f) ↦
        rw (f, bucket_for) (length-revised n key (λ b. record b { last_seen = now }) l b, b.1)
    | inl n' ↦
        rw (n', bucket_for)
          (add_bucket-Bounded n key now (with_room rate now l) (with_room-Bounded n now l b))
  ]

  spend_at-Bounded :
      (n : ℕ) (key : Text) (now : Time) (p : Place rate) (l : KeyedLimiter rate)
      → Bounded n l
      → Bounded n (spend_at rate key now p l).1
  spend_at-Bounded n key now own l b = (
    length-revised n key
        (λ old. record old { limiter = (spend rate now (limiter_at rate key l)).1 }) l b,
    b.1,
  )
  spend_at-Bounded n key now shared l b = b

  allow-Bounded :
      (n : ℕ) (key : Text) (now : Time) (l : KeyedLimiter rate)
      → Bounded n l
      → Bounded n (allow rate key now l).1
  unfolding allow
  allow-Bounded n key now l b =
      let x = bucket_for-Bounded n key now (swept rate now l) (swept-Bounded n now l b) in
      spend_at-Bounded n key now (bucket_for rate key now (swept rate now l)).0
        (bucket_for rate key now (swept rate now l)).1 x

  -- The limiter after the requests, each with its key and moment.
  abbrev pub served : List (Text × Time) → KeyedLimiter rate → KeyedLimiter rate
  served [] l = l
  served ((key, now) ∷ requests) l = served requests (allow rate key now l).1

  served-Bounded :
      (n : ℕ) (requests : List (Text × Time)) (l : KeyedLimiter rate)
      → Bounded n l
      → Bounded n (served requests l)
  served-Bounded n [] l b = b
  served-Bounded n ((key, now) ∷ requests) l b =
      served-Bounded n requests (allow rate key now l).1 (allow-Bounded n key now l b)

-- However many requests come, with whatever keys and at whatever moments, a limiter holds no more
-- buckets than its max_keys.
pub len-served :
    (rate : RatePackage) (refill max_keys : ℕ) (requests : List (Text × Time))
    → len rate (served rate requests (new rate refill max_keys)) ≤ max_keys
unfolding len new
len-served rate refill max_keys requests =
    (served-Bounded rate max_keys requests (new rate refill max_keys) (omega arith, refl)).0
