-- ===== src/Infra/Retry/Backoff.antt =====
-- The delays between attempts.
use bee_engine.Base.{ℕ, ◌-◌, ◌*◌, ◌^◌, ◌≤◌, ◌<◌, ◌≡◌, false, min, arith}
use bee_engine.Infra.Retry.{RetryPolicy, factor, backoff_delay, u64_max}

-- A delay never exceeds the policy's cap. Without jitter it is the base delay doubled for every
-- attempt after the first, up to the cap, for every attempt that u64 can double 1 for.
backoff_delay_lem :
    (policy : RetryPolicy) (attempt jitter_ms : ℕ)
    → 0 < attempt
    → attempt ≤ 64
    → policy.max_delay ≤ u64_max
    → (backoff_delay policy attempt jitter_ms ≤ policy.max_delay)
      × (policy.jitter ≡ false
          → backoff_delay policy attempt jitter_ms
            ≡ min (policy.base_delay * 2 ^ (attempt - 1)) policy.max_delay)
unfolding backoff_delay factor
backoff_delay_lem policy attempt jitter_ms pos small cap = ground arith
