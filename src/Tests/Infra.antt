-- ===== src/Tests/Infra.antt =====
-- The theorems of bee_infra at concrete runs.
use bee_engine.Base.{
  ℕ, ◌+◌, ◌*◌, ◌≡◌, true, [], ◌∷◌, some, Result, ok, err, arith, ltb, if◌then◌else◌,
}
use bee_engine.Infra.RateLimiter.{TokenBucket, granted}
use bee_engine.Infra.RateLimiter.Spacing.{Spaced, NotEarly, granted-Spaced}
use bee_engine.Infra.Retry.{World, Finished, http_default, with_retry_policy}
use bee_engine.Infra.Retry.Attempts.{EndsWell, with_retry_policy-EndsWell}
use bee_engine.Infra.Delivery.{Network, Delivered, with_queue_overflow_retry}
use bee_engine.Infra.Delivery.Deadline.{Ends, with_queue_overflow_retry-Ends}
use bee_engine.Infra.Poll.{PollError, Polled, poll_until, poll_until-Polled}

abbrev bucket : TokenBucket
bucket = record { interval_ms = 100; next_allowed_ms = 0 }

granted-Spaced_example :
    Spaced 100 0 (granted bucket (1000 ∷ 1001 ∷ 990 ∷ []))
    × NotEarly (1000 ∷ 1001 ∷ 990 ∷ []) (granted bucket (1000 ∷ 1001 ∷ 990 ∷ []))
granted-Spaced_example =
    granted-Spaced bucket (1000 ∷ 1001 ∷ 990 ∷ []) 1001 (omega arith)
      (omega arith, (omega arith, (omega arith, tt))) (omega arith)

abbrev rate : ℕ
rate = 300

-- An operation that succeeds at its third attempt.
abbrev third_time : World ℕ ℕ
third_time = record {
  op = λ n. if ltb n 3 then err 503 else ok 7;
  elapsed_ms = λ n. n;
  jitter_ms = λ n. 0;
}

with_retry_policy-EndsWell_example :
    (f : Finished ℕ ℕ) × (with_retry_policy http_default (λ e. true) third_time ≡ some f)
    × EndsWell http_default (λ e. true) third_time 1 f
with_retry_policy-EndsWell_example =
    with_retry_policy-EndsWell http_default (λ e. true) third_time (omega arith)

abbrev busy : Network ℕ ℕ
busy = record {
  attempt = λ n. err 1;
  now_millis = λ n. 28500 + n * 1000;
  is_queue_overflow = λ e. true;
}

with_queue_overflow_retry-Ends_example :
    (d : Delivered ℕ ℕ) × (with_queue_overflow_retry busy 31 (some 30) ≡ some d)
    × Ends busy (30 * 1000) 0 d
with_queue_overflow_retry-Ends_example = with_queue_overflow_retry-Ends busy 30 (omega arith)

abbrev fetch_number : ℕ → Result ℕ ℕ
fetch_number n = ok n

poll_until-Polled_example :
    (r : Result (PollError ℕ) ℕ) × (poll_until fetch_number (ltb 1) 3 (some 3) ≡ some r)
    × Polled fetch_number (ltb 1) 3 0 r
poll_until-Polled_example = poll_until-Polled fetch_number (ltb 1) (some 3)
