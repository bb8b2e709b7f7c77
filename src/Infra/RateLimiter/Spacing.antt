-- ===== src/Infra/RateLimiter/Spacing.antt =====
-- How far apart the limiter lets its callers go on.
use bee_engine.Base.{
  ℕ, zero, suc, ap, ◌+◌, ◌*◌, ◌/◌, ◌^◌, ◌≤◌, ◌<◌, ◌≡◌, ◌↔◌, List, [], ◌∷◌, none, some, arith, subst,
}
use native.Mathlib.Nat.{suc-mul, add-mul, div-mul-le_self, lt-div-mul-add, div-eq_of_lt}
use bee_engine.Base.Lists.{length, All}
use bee_engine.Infra.RateLimiter.{TokenBucket, new, acquire, granted}

-- Each time is at least `gap` after the one before it, and the first is not before `from`.
abbrev pub Spaced : ℕ → ℕ → List ℕ → Type 0
Spaced gap from [] = Unit {0}
Spaced gap from (t ∷ ts) = (from ≤ t) × Spaced gap (t + gap) ts

-- No caller goes on before it arrives.
abbrev pub NotEarly : List ℕ → List ℕ → Type 0
NotEarly [] ts = Unit {0}
NotEarly (now ∷ later) [] = Unit {0}
NotEarly (now ∷ later) (t ∷ ts) = (now ≤ t) × NotEarly later ts

acquire_lem :
    (b : TokenBucket) (now horizon : ℕ)
    → b.next_allowed_ms ≤ horizon
    → now ≤ horizon
    → horizon + b.interval_ms < 2 ^ 64
    → (b.next_allowed_ms ≤ now + (acquire b now).1)
      × ((acquire b now).0.next_allowed_ms ≡ now + (acquire b now).1 + b.interval_ms)
      × ((acquire b now).0.interval_ms ≡ b.interval_ms)
      × (now + (acquire b now).1 ≤ horizon)
unfolding acquire
acquire_lem b now horizon hb hn small = ground arith

weaken :
    (ts : List ℕ) (horizon more : ℕ) → All (λ t. t ≤ horizon) ts → All (λ t. t ≤ horizon + more) ts
weaken [] horizon more h = tt
weaken (t ∷ ts) horizon more h = (omega (arith, h.0), weaken ts horizon more h.1)

-- Callers go on at least the interval apart, none before it arrives and none before the slot that
-- was next, whatever the clock readings and in whatever order they come; as long as the slots stay
-- below 2 ^ 64.
pub granted-Spaced :
    (b : TokenBucket) (nows : List ℕ) (horizon : ℕ)
    → b.next_allowed_ms ≤ horizon
    → All (λ now. now ≤ horizon) nows
    → horizon + length nows * b.interval_ms < 2 ^ 64
    → Spaced b.interval_ms b.next_allowed_ms (granted b nows) × NotEarly nows (granted b nows)
unfolding granted
granted-Spaced b [] horizon hb hn small = (tt, tt)
granted-Spaced b (now ∷ later) horizon hb hn small =
    let (from, next, same, up_to) =
      acquire_lem b now horizon hb hn.0 (omega (arith, suc-mul (length later) b.interval_ms)) in
    let (spaced, not_early) =
      granted-Spaced (acquire b now).0 later (horizon + b.interval_ms) (omega (arith, next, up_to))
        (weaken later horizon b.interval_ms hn.1)
        (rw same (omega (arith, suc-mul (length later) b.interval_ms))) in
    (
      (
        from,
        subst
            (λ g.
              Spaced g (now + (acquire b now).1 + b.interval_ms) (granted (acquire b now).0 later))
            same
            (subst (λ f. Spaced (acquire b now).0.interval_ms f (granted (acquire b now).0 later))
              next spaced),
      ),
      (omega arith, not_early),
    )

quotient_lem :
    (d : ℕ)
    → 0 < d
    → (1000 / d * d ≤ 1000) × (1000 < (1000 / d + 1) * d) × ((1000 / d ≡ 0) ↔ (1000 < d))
quotient_lem d pos =
    let low = div-mul-le_self 1000 d in
    let high = lt-div-mul-add {a = 1000} pos in
    let open_high = add-mul (1000 / d) 1 d in
    (
      low,
      omega (arith, high, open_high),
      (λ e. omega (arith, high, ap (λ q. q * d) e), λ lt. div-eq_of_lt lt),
    )

interval_lem :
    (max_rps : ℕ) (b : TokenBucket)
    → new max_rps ≡ some b
    → (b.interval_ms * max_rps ≤ 1000)
      × (1000 < (b.interval_ms + 1) * max_rps)
      × ((b.interval_ms ≡ 0) ↔ (1000 < max_rps))
unfolding new
interval_lem zero b h = absurd (ground arith)
interval_lem (suc n) b h =
    let same : record { interval_ms = 1000 / suc n; next_allowed_ms = 0 } ≡ b = ground arith in
    subst
      (λ (x : TokenBucket).
        (x.interval_ms * suc n ≤ 1000)
        × (1000 < (x.interval_ms + 1) * suc n)
        × ((x.interval_ms ≡ 0) ↔ (1000 < suc n)))
      same (quotient_lem (suc n) (omega arith))

-- A limiter exists for every rate but 0. Its interval is the whole part of 1000 / max_rps: so many
-- intervals and no more fit into a second, and above 1000 calls per second it is 0.
new_interval :
    (max_rps : ℕ)
    → ((new max_rps ≡ none) ↔ (max_rps ≡ 0))
      × ((b : TokenBucket)
          → new max_rps ≡ some b
          → (b.interval_ms * max_rps ≤ 1000)
            × (1000 < (b.interval_ms + 1) * max_rps)
            × ((b.interval_ms ≡ 0) ↔ (1000 < max_rps)))
unfolding new
new_interval max_rps = (ground arith, λ b h. interval_lem max_rps b h)
