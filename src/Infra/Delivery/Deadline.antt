-- ===== src/Infra/Delivery/Deadline.antt =====
-- How the delivery of a message ends.
use bee_engine.Base.{
  ℕ, zero, suc, ◌+◌, ◌*◌, ◌≤◌, ◌<◌, ◌≡◌, refl, sym, ◌∙◌, true, false, some, Result, ok, err, arith,
  Result-cases, Bool-cases, inl, inr, ◌⊎◌, subst, err-injective, ◌^◌,
}
use bee_engine.Infra.Delivery.{
  Network, Delivered, returns_error, retry_loop, with_queue_overflow_retry,
  queue_overflow_max_retries,
}

module _ {E T : Type 0} (net : Network E T) (deadline_millis : ℕ) where
  -- A full queue, with time left for another attempt.
  abbrev pub QueueFull : ℕ → Type 0
  QueueFull n =
      (e : E) × (net.attempt n ≡ err e)
      × (net.is_queue_overflow e ≡ true)
      × (net.now_millis n + 1000 < deadline_millis)

  -- A reason not to send the message again after an error.
  abbrev pub GivenUp : ℕ → E → Type 0
  GivenUp n e =
      (net.is_queue_overflow e ≡ false) ⊎ (n ≡ 30) ⊎ (deadline_millis ≤ net.now_millis n + 1000)

  pub record Ends (from : ℕ) (d : Delivered E T) : Type 0 where
    pub last : ℕ
    pub counted : d.attempts ≡ suc last
    pub at_least : from ≤ last
    pub at_most : last ≤ 30
    pub result : d.result ≡ net.attempt last
    pub others : (n : ℕ) → from ≤ n → n < last → QueueFull n
    pub final : (e : E) → net.attempt last ≡ err e → GivenUp last e

  stops_same :
      (n : ℕ) (x : E)
      → n ≤ queue_overflow_max_retries
      → returns_error net deadline_millis n x ≡ true
      → (y : E) → ◌≡◌ {A = Result E T} (err x) (err y)
      → GivenUp n y
  unfolding returns_error
  stops_same n x le stop y same = subst (GivenUp n) (err-injective same) (ground arith)

  Ends-now :
      (from : ℕ) (r : Result E T)
      → from ≤ queue_overflow_max_retries
      → net.attempt from ≡ r
      → ((e : E) → r ≡ err e → GivenUp from e)
      → Ends from (record { result = r; attempts = suc from })
  Ends-now from r le e stop = record {
    last = from;
    counted = refl;
    at_least = omega arith;
    at_most = le;
    result = sym e;
    others = λ n lo hi. absurd (omega arith);
    final = λ x ex. stop x (sym e ∙ ex);
  }

  Ends-later : (from : ℕ) (d : Delivered E T) → QueueFull from → Ends (suc from) d → Ends from d
  Ends-later from d first v = record {
    last = v.last;
    counted = v.counted;
    at_least = omega (arith, v.at_least);
    at_most = v.at_most;
    result = v.result;
    others = λ n lo hi. elim (eq_or_above from n lo) [
      | inl same ↦ subst QueueFull same first
      | inr above ↦ v.others n above hi
    ];
    final = v.final;
  }
    where
      eq_or_above : (a b : ℕ) → a ≤ b → (a ≡ b) ⊎ (suc a ≤ b)
      eq_or_above a b le = omega arith

  full_of_false :
      (n : ℕ) (e : E)
      → deadline_millis < 2 ^ 64
      → net.attempt n ≡ err e
      → returns_error net deadline_millis n e ≡ false
      → QueueFull n
  unfolding returns_error
  full_of_false n e small failed more = (e, failed, ground arith, ground arith)

  last_stops :
      (n : ℕ) (e : E)
      → n ≡ queue_overflow_max_retries
      → returns_error net deadline_millis n e ≡ true
  unfolding returns_error
  last_stops n e same = ground arith

  retry_loop-Ends :
      (left from : ℕ)
      → deadline_millis < 2 ^ 64
      → from + left ≡ queue_overflow_max_retries
      → (d : Delivered E T) × (retry_loop net (suc left) deadline_millis from ≡ some d)
        × Ends from d
  unfolding retry_loop
  retry_loop-Ends zero from small total = elim (Result-cases (net.attempt from)) [
    | inl (value, e) ↦ (
      record { result = ok value; attempts = suc from },
      rw (e, retry_loop) refl,
      Ends-now from (ok value) (omega arith) e (λ x bad. cc),
    )
    | inr (x, e) ↦
        let stop = last_stops from x (omega arith) in
        (
          record { result = err x; attempts = suc from },
          rw (e, stop, retry_loop) refl,
          Ends-now from (err x) (omega arith) e (stops_same from x (omega arith) stop),
        )
  ]
  retry_loop-Ends (suc left) from small total =
      let (d, d_eq, v) = retry_loop-Ends left (suc from) small (omega arith) in
      elim (Result-cases (net.attempt from)) [
        | inl (value, e) ↦ (
          record { result = ok value; attempts = suc from },
          rw (e, retry_loop) refl,
          Ends-now from (ok value) (omega arith) e (λ x bad. cc),
        )
        | inr (x, e) ↦ elim (Bool-cases (returns_error net deadline_millis from x)) [
          | inl stop ↦ (
            record { result = err x; attempts = suc from },
            rw (e, stop, retry_loop) refl,
            Ends-now from (err x) (omega arith) e (stops_same from x (omega arith) stop),
          )
          | inr more ↦ (
            d,
            rw (e, more, d_eq, retry_loop) refl,
            Ends-later from d (full_of_false from x small e more) v,
          )
        ]
      ]

-- Fuel for 31 attempts is enough for a message that expires. The result is that of the last attempt;
-- before it there are at most 30, each of which found the queue full when another attempt a second
-- later still came before the message's expiry; and an error is returned only where it is another
-- error, the 30 retries are used up, or the next attempt would not come before the expiry.
pub with_queue_overflow_retry-Ends :
    {E T : Type 0} (net : Network E T) (expires_at : ℕ)
    → expires_at < 2 ^ 32
    → (d : Delivered E T) × (with_queue_overflow_retry net 31 (some expires_at) ≡ some d)
      × Ends net (expires_at * 1000) 0 d
unfolding with_queue_overflow_retry
with_queue_overflow_retry-Ends net expires_at small =
    retry_loop-Ends net (expires_at * 1000) 30 0 (omega arith) refl
