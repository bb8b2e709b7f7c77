-- ===== src/Infra/Delivery.antt =====
-- bee_infra/src/message_delivery.rs: `with_queue_overflow_retry`. An attempt's outcome and the clock
-- after it are functions of the number of attempts made before it. The recognition of the error
-- reads a JSON document of the client's, so it is an argument.
pub mod Deadline
use bee_engine.Base.{
  ℕ, zero, suc, ◌+◌, ◌-◌, ◌*◌, ◌^◌, ◌≡◌, Bool, true, false, not, ◌||◌, Option, none, some, Result,
  ok, err, leb, if◌then◌else◌, min,
}

-- In milliseconds.
abbrev pub queue_overflow_retry_interval : ℕ
queue_overflow_retry_interval = 1000

abbrev pub queue_overflow_max_retries : ℕ
queue_overflow_max_retries = 30

pub record Network (E T : Type 0) : Type 0 where
  pub attempt : ℕ → Result E T
  pub now_millis : ℕ → ℕ
  pub is_queue_overflow : E → Bool

pub record Delivered (E T : Type 0) : Type 0 where
  pub result : Result E T
  pub attempts : ℕ

module _ {E T : Type 0} (net : Network E T) where
  -- Whether the error of the attempt after `retries` retries is returned.
  unfoldable pub returns_error : (deadline_millis retries : ℕ) → E → Bool
  returns_error deadline_millis retries error =
      let next_attempt_at =
        min (net.now_millis retries + queue_overflow_retry_interval) (2 ^ 64 - 1) in
      not (net.is_queue_overflow error)
      || leb queue_overflow_max_retries retries
      || leb deadline_millis next_attempt_at

  -- The loop; `none` is a lack of fuel.
  unfoldable pub retry_loop : (fuel deadline_millis retries : ℕ) → Option (Delivered E T)
  retry_loop zero deadline_millis retries = none
  retry_loop (suc fuel) deadline_millis retries =
      let rest = retry_loop fuel deadline_millis (suc retries) in
      elim (net.attempt retries) [
        | ok result ↦ some (record { result = ok result; attempts = suc retries })
        | err error ↦
            if returns_error deadline_millis retries error
            then some (record { result = err error; attempts = suc retries })
            else rest
      ]

  -- `expires_at` is in seconds. Without it there is one attempt.
  unfoldable pub with_queue_overflow_retry : (fuel : ℕ) → Option ℕ → Option (Delivered E T)
  with_queue_overflow_retry fuel none = some (record { result = net.attempt 0; attempts = 1 })
  with_queue_overflow_retry fuel (some expires_at) = retry_loop fuel (expires_at * 1000) 0
