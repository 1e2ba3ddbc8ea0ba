-- ===== src/RateLimit.antt =====
-- internal/ratelimit: one token bucket for each key, in bounded memory (ratelimit.go).
pub mod Buckets
pub mod ClientAddress
pub mod Forwarded
pub mod Bound
pub mod Reference
pub mod Refinement
use go_invoicing.Base.{
  ℕ, ◌+◌, ◌-◌, Bool, true, false, ◌==◌, leb, Option, none, some, List, [], ◌∷◌, ◌++◌, length,
  if◌then◌else◌,
}
use go_invoicing.Base.Text.{Text}
use go_invoicing.Base.Time.{Time, zero_time}
use go_invoicing.RateLimit.Buckets.{Bucket, lookup, revise, unexpired}

-- golang.org/x/time/rate, at one limit and burst: a new limiter, ReserveN for one token, DelayFrom and
-- CancelAt. `ceil_seconds` rounds a duration up by float64 arithmetic.
pub record RatePackage : Type 1 where
  pub Limiter : Type 0
  pub Reservation : Type 0
  pub new_limiter : Limiter
  pub reserve : Time → Limiter → Limiter × Reservation
  pub delay_from : Reservation → Time → ℕ
  pub cancel_at : Reservation → Time → Limiter → Limiter
  pub ceil_seconds : ℕ → ℕ

-- Whether the request may proceed, and after how long to retry.
pub record Verdict : Type 0 where
  pub allowed : Bool
  pub retry_after : ℕ

module _ (rate : RatePackage) where
  -- The struct Limiter
  pub record KeyedLimiter : Type 0 where
    pub max_keys : ℕ
    pub idle_ttl : ℕ
    pub sweep_interval : ℕ
    pub buckets : List (Text × Bucket rate.Limiter)
    pub overflow : rate.Limiter
    pub last_sweep : Time

  -- `refill` is time.Duration(float64(burst) * float64(every)).
  unfoldable pub new : ℕ → ℕ → KeyedLimiter
  new refill max_keys = record {
    max_keys = max_keys;
    idle_ttl = refill + 1000000000;
    sweep_interval = 60000000000;
    buckets = [];
    overflow = rate.new_limiter;
    last_sweep = zero_time;
  }

  unfoldable pub sweep : Time → KeyedLimiter → KeyedLimiter
  sweep now l = record l { buckets = unexpired now l.idle_ttl l.buckets; last_sweep = now }

  abbrev pub is_full : KeyedLimiter → Bool
  is_full l = leb l.max_keys (length l.buckets)

  -- The bucket that a request is counted in: the key's own, or the shared overflow bucket.
  pub data Place : Type 0 where
    own shared : Place

  abbrev pub with_room : Time → KeyedLimiter → KeyedLimiter
  with_room now l =
      if is_full l then (if leb 1000000000 (now - l.last_sweep) then sweep now l else l) else l

  abbrev pub add_bucket : Text → Time → KeyedLimiter → Place × KeyedLimiter
  add_bucket key now l = if is_full l then (Place.shared, l) else (
    Place.own,
    record l {
      buckets = l.buckets ++ ((key, record { limiter = rate.new_limiter; last_seen = now }) ∷ []);
    },
  )

  unfoldable pub bucket_for : Text → Time → KeyedLimiter → Place × KeyedLimiter
  bucket_for key now l = elim (lookup key l.buckets) [
    | some b ↦
        (Place.own, record l { buckets = revise key (λ b. record b { last_seen = now }) l.buckets })
    | none ↦ add_bucket key now (with_room now l)
  ]

  -- A reservation that would have to wait is given back.
  unfoldable pub spend : Time → rate.Limiter → Verdict × rate.Limiter
  spend now b =
      let (b', r) = rate.reserve now b in
      let delay = rate.delay_from r now in
      if delay == 0 then (record { allowed = true; retry_after = 0 }, b') else (
        record { allowed = false; retry_after = rate.ceil_seconds delay },
        rate.cancel_at r now b',
      )

  abbrev pub limiter_at : Text → KeyedLimiter → rate.Limiter
  limiter_at key l = elim (lookup key l.buckets) [ none ↦ l.overflow | some b ↦ b.limiter ]

  abbrev pub spend_at : Text → Time → Place → KeyedLimiter → Verdict × KeyedLimiter
  spend_at key now Place.shared l =
      let (v, b) = spend now l.overflow in (v, record l { overflow = b })
  spend_at key now Place.own l =
      let (v, b) = spend now (limiter_at key l) in
      (v, record l { buckets = revise key (λ old. record old { limiter = b }) l.buckets })

  abbrev pub swept : Time → KeyedLimiter → KeyedLimiter
  swept now l = if leb l.sweep_interval (now - l.last_sweep) then sweep now l else l

  unfoldable pub allow : Text → Time → KeyedLimiter → Verdict × KeyedLimiter
  allow key now l = let (place, l') = bucket_for key now (swept now l) in spend_at key now place l'

  unfoldable pub len : KeyedLimiter → ℕ
  len l = length l.buckets
