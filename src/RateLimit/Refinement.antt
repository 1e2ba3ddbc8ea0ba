-- ===== src/RateLimit/Refinement.antt =====
-- While it has room, Limiter decides every request as the limiter that never forgets a key.
use go_invoicing.Base.{
  ℕ, ◌+◌, ◌-◌, ◌≤◌, ◌<◌, ◌≡◌, refl, false, leb, none, Option-cases, List, [], ◌∷◌, ◌++◌, length,
  Bool-cases, inl, inr, arith,
}
use go_invoicing.Base.Text.{Text}
use go_invoicing.Base.Time.{Time}
use go_invoicing.RateLimit.{
  own, limiter_at, RatePackage, KeyedLimiter, Verdict, new, sweep, is_full, bucket_for, spend_at,
  allow,
}
use go_invoicing.RateLimit.Buckets.{lookup, lookup-revise, lookup-append, length-unexpired}
use go_invoicing.RateLimit.Reference.{
  ref_allow, RefillsWhenIdle, IsTracking, IsTracking-empty, IsTracking-later, IsTracking-swept,
  serves_same, known_key, new_key,
}

module _ (rate : RatePackage) (ttl : ℕ) (law : RefillsWhenIdle rate ttl) where
  abbrev Agrees : Text → Time → (Text → rate.Limiter) → Verdict × KeyedLimiter rate → Type 0
  Agrees key now s r =
      (r.0 ≡ (ref_allow rate key now s).0)
      × IsTracking rate ttl law now r.1.buckets (ref_allow rate key now s).1
      × (r.1.idle_ttl ≡ ttl)

  added :
      (key : Text) (now : Time) (l : KeyedLimiter rate)
      → is_full rate l ≡ false
      → lookup key l.buckets ≡ none
      → bucket_for rate key now l ≡ (
        own,
        record l {
          buckets =
              l.buckets ++ ((key, record { limiter = rate.new_limiter; last_seen = now }) ∷ []);
        },
      )
  unfolding bucket_for
  added key now l room n = rw (n, bucket_for, room, room) refl

  -- The request after the sweep, when there is room.
  counted :
      (key : Text) (now : Time) (l : KeyedLimiter rate) (s : Text → rate.Limiter)
      → l.idle_ttl ≡ ttl
      → is_full rate l ≡ false
      → IsTracking rate ttl law now l.buckets s
      → Agrees key now s
          (spend_at rate key now (bucket_for rate key now l).0 (bucket_for rate key now l).1)
  unfolding bucket_for
  counted key now l s e room x =
      let (u, held, fresh) = serves_same rate ttl law key now l.buckets s x in
      elim (Option-cases (lookup key l.buckets)) [
        | inr (b, f) ↦
            rw
              (
                f,
                bucket_for,
                limiter_at,
                lookup-revise key (λ b. record b { last_seen = now }) l.buckets f,
                held b f,
              )
              (refl, known_key rate ttl law key now l.buckets s b x f, e)
        | inl n ↦
            rw
              (
                added key now l room n,
                limiter_at,
                lookup-append key (record { limiter = rate.new_limiter; last_seen = now }) l.buckets
                    n,
                fresh n,
              )
              (refl, new_key rate ttl law key now l.buckets s x n, e)
      ]

  allow-Agrees :
      (key : Text) (before now : Time) (l : KeyedLimiter rate) (s : Text → rate.Limiter)
      → l.idle_ttl ≡ ttl
      → before ≤ now
      → length l.buckets < l.max_keys
      → IsTracking rate ttl law before l.buckets s
      → Agrees key now s (allow rate key now l)
  unfolding allow sweep
  allow-Agrees key before now l s e order room x =
      let x' = IsTracking-later rate ttl law before now l.buckets s order x in
      let open' : is_full rate l ≡ false = ground arith in
      elim (Bool-cases (leb l.sweep_interval (now - l.last_sweep))) [
        | inr early ↦ rw early (counted key now l s e open' x')
        | inl due ↦
            let k = length-unexpired now l.idle_ttl l.buckets in
            rw due (
              counted key now (sweep rate now l) s e (ground arith)
                (rw e (IsTracking-swept rate ttl law now l.buckets s x')))
      ]

module _ (rate : RatePackage) where
  abbrev pub verdicts : List (Text × Time) → KeyedLimiter rate → List Verdict
  verdicts [] l = []
  verdicts ((key, now) ∷ requests) l =
      (allow rate key now l).0 ∷ verdicts requests (allow rate key now l).1

  abbrev pub ref_verdicts : List (Text × Time) → (Text → rate.Limiter) → List Verdict
  ref_verdicts [] s = []
  ref_verdicts ((key, now) ∷ requests) s =
      (ref_allow rate key now s).0 ∷ ref_verdicts requests (ref_allow rate key now s).1

  -- The limiter has room for one more key at every request.
  abbrev pub HasRoom : List (Text × Time) → KeyedLimiter rate → Type 0
  HasRoom [] l = Unit
  HasRoom ((key, now) ∷ requests) l =
      (length l.buckets < l.max_keys) × HasRoom requests (allow rate key now l).1

-- The requests come in the order of their moments, none before `now`.
abbrev pub IsOrdered : Time → List (Text × Time) → Type 0
IsOrdered now [] = Unit
IsOrdered now ((key, next) ∷ requests) = (now ≤ next) × IsOrdered next requests

verdicts-ref_verdicts :
    (rate : RatePackage) (ttl : ℕ) (law : RefillsWhenIdle rate ttl) (before : Time)
    (requests : List (Text × Time)) (l : KeyedLimiter rate) (s : Text → rate.Limiter)
    → l.idle_ttl ≡ ttl
    → IsOrdered before requests
    → HasRoom rate requests l
    → IsTracking rate ttl law before l.buckets s
    → verdicts rate requests l ≡ ref_verdicts rate requests s
verdicts-ref_verdicts rate ttl law before [] l s e order room x = refl
verdicts-ref_verdicts rate ttl law before ((key, now) ∷ requests) l s e order room x =
    let (v, y, e') = allow-Agrees rate ttl law key before now l s e order.0 room.0 x in
    let rest =
      verdicts-ref_verdicts rate ttl law now requests (allow rate key now l).1
        (ref_allow rate key now s).1 e' order.1 room.1 y in
    rw (v, rest) refl

-- As long as it has room for one more key, a limiter that forgets idle buckets gives every request the
-- verdict of the limiter that never forgets one, for a package whose limiters, left alone for the time
-- to live of a bucket, serve as new ones.
pub forgetting_is_unseen :
    (rate : RatePackage) (refill max_keys : ℕ) (requests : List (Text × Time))
    → RefillsWhenIdle rate (refill + 1000000000)
    → IsOrdered 0 requests
    → HasRoom rate requests (new rate refill max_keys)
    → verdicts rate requests (new rate refill max_keys)
      ≡ ref_verdicts rate requests (λ key. rate.new_limiter)
unfolding new
forgetting_is_unseen rate refill max_keys requests law order room =
    verdicts-ref_verdicts rate (refill + 1000000000) law 0 requests (new rate refill max_keys)
      (λ key. rate.new_limiter) refl order room (IsTracking-empty rate (refill + 1000000000) law 0)
