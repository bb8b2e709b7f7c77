-- ===== src/Infra/Retry.antt =====
-- bee_infra/src/retry.rs: `with_retry_policy` and its delays.
-- What the operation gives, the clock and the jitter are functions of the number of the attempt;
-- durations are whole milliseconds. The limiter's own waits are in RateLimiter.
pub mod Backoff
pub mod Attempts
use bee_engine.Base.{
  ℕ, zero, suc, ◌+◌, ◌-◌, ◌*◌, ◌^◌, ◌≡◌, Bool, true, false, not, ◌||◌, List, [], ◌∷◌, Option, none,
  some, Result, ok, err, ◌==◌, leb, ltb, if◌then◌else◌, min,
}

pub record RetryPolicy : Type 0 where
  pub max_attempts : ℕ
  pub max_total : Option ℕ
  pub base_delay : ℕ
  pub max_delay : ℕ
  pub jitter : Bool

abbrev pub http_default : RetryPolicy
http_default = record {
  max_attempts = 5;
  max_total = some 60000;
  base_delay = 500;
  max_delay = 30000;
  jitter = true;
}

abbrev pub tvm_transient_legacy : RetryPolicy
tvm_transient_legacy = record {
  max_attempts = 3;
  max_total = none;
  base_delay = 1000;
  max_delay = 1000;
  jitter = false;
}

abbrev pub u64_max : ℕ
u64_max = 2 ^ 64 - 1

-- `1u64.checked_shl(attempt.saturating_sub(1)).unwrap_or(u64::MAX)`
unfoldable pub factor : ℕ → ℕ
factor attempt = if ltb (attempt - 1) 64 then 2 ^ (attempt - 1) else u64_max

-- `jitter_ms` is what `jitter_up_to(base)` gives where the policy asks for it.
unfoldable pub backoff_delay : RetryPolicy → ℕ → (jitter_ms : ℕ) → ℕ
unfolding factor
backoff_delay policy attempt jitter_ms =
    let capped = min (min (policy.base_delay * factor attempt) u64_max) policy.max_delay in
    min (min (capped + (if policy.jitter then jitter_ms else 0)) u64_max) policy.max_delay

-- The outside world, by the number of the attempt: what the operation gives, the milliseconds gone
-- since the start when it has given it, and the jitter drawn after it.
pub record World (E T : Type 0) : Type 0 where
  pub op : ℕ → Result E T
  pub elapsed_ms : ℕ → ℕ
  pub jitter_ms : ℕ → ℕ

pub record Finished (E T : Type 0) : Type 0 where
  pub result : Result E T
  pub attempts : ℕ
  pub sleeps : List ℕ

abbrev pub over_budget : Option ℕ → ℕ → Bool
over_budget none elapsed = false
over_budget (some cap) elapsed = leb cap elapsed

module _ {E T : Type 0} (policy : RetryPolicy) (should_retry : E → Bool) (w : World E T) where
  -- Whether an error ends the loop.
  unfoldable pub gives_up : ℕ → E → Bool
  gives_up attempt e =
      (attempt == policy.max_attempts)
      || not (should_retry e)
      || over_budget policy.max_total (w.elapsed_ms attempt)

  abbrev pub after_sleep : ℕ → Option (Finished E T) → Option (Finished E T)
  after_sleep delay none = none
  after_sleep delay (some f) = some (record f { sleeps = delay ∷ f.sleeps })

  -- The attempts from `attempt` on, of which `left` are left. After the last the source falls into
  -- an `expect`, here `none`.
  unfoldable pub attempts_from : (left attempt : ℕ) → Option (Finished E T)
  attempts_from zero attempt = none
  attempts_from (suc left) attempt =
      let rest = attempts_from left (suc attempt) in
      elim (w.op attempt) [
        | ok value ↦ some (record { result = ok value; attempts = attempt; sleeps = [] })
        | err e ↦
            if gives_up attempt e
            then some (record { result = err e; attempts = attempt; sleeps = [] })
            else after_sleep (backoff_delay policy attempt (w.jitter_ms attempt)) rest
      ]

  -- `none` is a panic: that of the assertion, or that of the `expect`.
  unfoldable pub with_retry_policy : Option (Finished E T)
  with_retry_policy =
      if leb 1 policy.max_attempts then attempts_from policy.max_attempts 1 else none
