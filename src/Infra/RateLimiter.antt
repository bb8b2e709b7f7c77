-- ===== src/Infra/RateLimiter.antt =====
-- bee_infra/src/rate_limiter.rs: the bucket behind the lock. The clock's reading is an argument, and
-- what `acquire` sleeps is a result; a sum of two u64 values wraps, as in a release build.
pub mod Spacing
use bee_engine.Base.{
  ℕ, ◌+◌, ◌-◌, ◌/◌, ◌%◌, ◌^◌, ◌≡◌, Bool, true, false, List, [], ◌∷◌, Option, none, some, ◌==◌, leb,
  if◌then◌else◌,
}

pub record TokenBucket : Type 0 where
  pub interval_ms : ℕ
  pub next_allowed_ms : ℕ

-- `none` is the panic of the assertion.
unfoldable pub new : ℕ → Option TokenBucket
new max_rps =
    if max_rps == 0
    then none
    else some (record { interval_ms = 1000 / max_rps; next_allowed_ms = 0 })

-- The bucket after the call, and the milliseconds that the caller sleeps.
unfoldable pub acquire : TokenBucket → ℕ → TokenBucket × ℕ
acquire b now =
    if leb b.next_allowed_ms now
    then (record b { next_allowed_ms = (now + b.interval_ms) % 2 ^ 64 }, 0)
    else (
      record b { next_allowed_ms = (b.next_allowed_ms + b.interval_ms) % 2 ^ 64 },
      b.next_allowed_ms - now,
    )

-- When the callers that arrive at the given times go on, in the order in which they took the lock.
unfoldable pub granted : TokenBucket → List ℕ → List ℕ
granted b [] = []
granted b (now ∷ later) = let (next, wait) = acquire b now in (now + wait) ∷ granted next later
