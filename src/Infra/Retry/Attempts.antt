-- ===== src/Infra/Retry/Attempts.antt =====
-- How a retried operation ends.
use native.Mathlib.Nat.{mul-le-mul_left}
use bee_engine.Base.{
  ◌*◌, ◌^◌, min, ltb, List, ℕ, zero, suc, ◌+◌, ◌-◌, ◌≤◌, ◌<◌, ◌≡◌, refl, sym, ap, ◌∙◌, Bool, true,
  false, [], ◌∷◌, Option, none, some, ◌↔◌, Result, ok, err, leb, arith, Bool-cases, inl, inr, ◌⊎◌,
  Result-cases, subst, err-injective,
}
use bee_engine.Base.Lists.{length}
use bee_engine.Infra.Retry.{
  RetryPolicy, World, Finished, gives_up, attempts_from, with_retry_policy, backoff_delay,
  over_budget, factor,
}

module _ {E T : Type 0} (policy : RetryPolicy) (should_retry : E → Bool) (w : World E T) where
  -- When the attempt ended, the whole was within the time that the policy allows, if it sets one.
  abbrev pub InTime : Option ℕ → ℕ → Type 0
  InTime none n = Unit {0}
  InTime (some cap) n = w.elapsed_ms n < cap

  abbrev pub OutOfTime : Option ℕ → ℕ → Type 0
  OutOfTime none n = ⊥
  OutOfTime (some cap) n = cap ≤ w.elapsed_ms n

  -- An attempt that ended, in time, in an error that is to be retried.
  abbrev pub Retried : ℕ → Type 0
  Retried n =
      (e : E) × (w.op n ≡ err e)
      × (should_retry e ≡ true)
      × (n < policy.max_attempts)
      × InTime policy.max_total n

  -- A reason not to try again after an error.
  abbrev pub GivenUp : ℕ → E → Type 0
  GivenUp n e = (n ≡ policy.max_attempts) ⊎ (should_retry e ≡ false) ⊎ OutOfTime policy.max_total n

  -- The sleeps from attempt `n` on: each at least the base delay, doubled for every attempt after the
  -- first up to the 64th, or the cap or the largest u64 if these are less; and none above the cap.
  abbrev pub Slept : ℕ → List ℕ → Type 0
  Slept n [] = Unit {0}
  Slept n (d ∷ ds) =
      (min (min (policy.base_delay * 2 ^ min (n - 1) 63) policy.max_delay) (2 ^ 64 - 1) ≤ d)
      × (d ≤ policy.max_delay)
      × Slept (suc n) ds

  -- The attempts from `from` on end as the loop says they do.
  pub record EndsWell (from : ℕ) (f : Finished E T) : Type 0 where
    pub at_least : from ≤ f.attempts
    pub at_most : f.attempts ≤ policy.max_attempts
    pub last : f.result ≡ w.op f.attempts
    pub others : (n : ℕ) → from ≤ n → n < f.attempts → Retried n
    pub final : (e : E) → w.op f.attempts ≡ err e → GivenUp f.attempts e
    pub slept : from + length f.sleeps ≡ f.attempts
    pub delays : Slept from f.sleeps

  ends_now :
      (from : ℕ) (r : Result E T)
      → from ≤ policy.max_attempts
      → w.op from ≡ r
      → ((e : E) → r ≡ err e → GivenUp from e)
      → EndsWell from (record { result = r; attempts = from; sleeps = [] })
  ends_now from r le e stop = record {
    at_least = omega arith;
    at_most = le;
    last = sym e;
    others = λ n lo hi. absurd (omega arith);
    final = λ x ex. stop x (sym e ∙ ex);
    slept = omega arith;
    delays = tt;
  }

  delay_short : (n jitter : ℕ) → backoff_delay policy n jitter ≤ policy.max_delay
  unfolding backoff_delay
  delay_short n jitter = ground arith

  factor_large : (n : ℕ) → 2 ^ min (n - 1) 63 ≤ factor n
  unfolding factor
  factor_large n = elim (Bool-cases (ltb (n - 1) 64)) [
    | inl small ↦ let e : min (n - 1) 63 ≡ n - 1 = ground arith in rw (small, e) (omega arith)
    | inr large ↦ let e : min (n - 1) 63 ≡ 63 = ground arith in rw (large, e) (omega arith)
  ]

  delay_enough :
      (n jitter : ℕ)
      → min (min (policy.base_delay * 2 ^ min (n - 1) 63) policy.max_delay) (2 ^ 64 - 1)
        ≤ backoff_delay policy n jitter
  unfolding backoff_delay
  delay_enough n jitter =
      let grown : policy.base_delay * 2 ^ min (n - 1) 63 ≤ policy.base_delay * factor n =
        mul-le-mul_left policy.base_delay (factor_large n) in
      omega arith

  ends_later :
      (from delay : ℕ) (f : Finished E T)
      → Retried from
      → min (min (policy.base_delay * 2 ^ min (from - 1) 63) policy.max_delay) (2 ^ 64 - 1) ≤ delay
      → delay ≤ policy.max_delay
      → EndsWell (suc from) f
      → EndsWell from (record f { sleeps = delay ∷ f.sleeps })
  ends_later from delay f first enough short v = record {
    at_least = omega (arith, v.at_least);
    at_most = v.at_most;
    last = v.last;
    others = λ n lo hi. elim (eq_or_above from n lo) [
      | inl same ↦ subst Retried same first
      | inr above ↦ v.others n above hi
    ];
    final = v.final;
    slept = omega (arith, v.slept);
    delays = (enough, short, v.delays);
  }
    where
      eq_or_above : (a b : ℕ) → a ≤ b → (a ≡ b) ⊎ (suc a ≤ b)
      eq_or_above a b le = omega arith

  last_stops :
      (from : ℕ) (x : E) → from ≡ policy.max_attempts → gives_up policy should_retry w from x ≡ true
  unfolding gives_up
  last_stops from x e = ground arith

  over_time : (cap : Option ℕ) (n : ℕ) → (over_budget cap (w.elapsed_ms n) ≡ true) ↔ OutOfTime cap n
  over_time none n = ground arith
  over_time (some cap) n = ground arith

  in_time : (cap : Option ℕ) (n : ℕ) → over_budget cap (w.elapsed_ms n) ≡ false → InTime cap n
  in_time none n h = tt
  in_time (some cap) n h = ground arith

  stops_same :
      (from : ℕ) (x : E)
      → gives_up policy should_retry w from x ≡ true
      → (y : E) → ◌≡◌ {A = Result E T} (err x) (err y)
      → GivenUp from y
  unfolding gives_up
  stops_same from x stop y same =
      subst (GivenUp from) (err-injective same) (ground (arith, over_time policy.max_total from))

  another_attempt :
      (from : ℕ) (x : E)
      → from ≤ policy.max_attempts
      → w.op from ≡ err x
      → gives_up policy should_retry w from x ≡ false
      → Retried from
  unfolding gives_up
  another_attempt from x le e more =
      (x, e, ground arith, ground arith, in_time policy.max_total from (ground arith))

  attempts_from-EndsWell :
      (left from : ℕ)
      → from + left ≡ policy.max_attempts
      → (f : Finished E T) × (attempts_from policy should_retry w (suc left) from ≡ some f)
        × EndsWell from f
  unfolding attempts_from
  attempts_from-EndsWell zero from total = elim (Result-cases (w.op from)) [
    | inl (value, e) ↦ (
      record { result = ok value; attempts = from; sleeps = [] },
      rw (e, attempts_from) refl,
      ends_now from (ok value) (omega arith) e (λ x bad. cc),
    )
    | inr (x, e) ↦
        let stop = last_stops from x (omega arith) in
        (
          record { result = err x; attempts = from; sleeps = [] },
          rw (e, stop, attempts_from) refl,
          ends_now from (err x) (omega arith) e (stops_same from x stop),
        )
  ]
  attempts_from-EndsWell (suc left) from total =
      let (f, f_eq, v) = attempts_from-EndsWell left (suc from) (omega arith) in
      elim (Result-cases (w.op from)) [
        | inl (value, e) ↦ (
          record { result = ok value; attempts = from; sleeps = [] },
          rw (e, attempts_from) refl,
          ends_now from (ok value) (omega arith) e (λ x bad. cc),
        )
        | inr (x, e) ↦ elim (Bool-cases (gives_up policy should_retry w from x)) [
          | inl stop ↦ (
            record { result = err x; attempts = from; sleeps = [] },
            rw (e, stop, attempts_from) refl,
            ends_now from (err x) (omega arith) e (stops_same from x stop),
          )
          | inr more ↦
              let delay = backoff_delay policy from (w.jitter_ms from) in
              (
                record f { sleeps = delay ∷ f.sleeps },
                rw (e, more, f_eq, attempts_from) refl,
                ends_later from delay f (another_attempt from x (omega arith) e more)
                    (delay_enough from (w.jitter_ms from)) (delay_short from (w.jitter_ms from)) v,
              )
        ]
      ]

  -- A policy of at least one attempt ends, and without a panic. The result is that of the last
  -- attempt made. Every attempt before it failed, with an error that is to be retried, before the
  -- policy's total time was over, if it sets one. An error is returned only after as many attempts as
  -- the policy allows, or if it is not to be retried, or if that time is over. There are at most as
  -- many attempts as the policy allows, and one sleep between two of them, which is at most the cap,
  -- and at least the base delay, doubled for every attempt after the first up to the 64th, unless the
  -- cap or the largest u64 is less.
  pub with_retry_policy-EndsWell :
      1 ≤ policy.max_attempts
      → (f : Finished E T) × (with_retry_policy policy should_retry w ≡ some f) × EndsWell 1 f
  unfolding with_retry_policy
  with_retry_policy-EndsWell pos =
      let (f, f_eq, v) = attempts_from-EndsWell (policy.max_attempts - 1) 1 (omega arith) in
      let count : suc (policy.max_attempts - 1) ≡ policy.max_attempts = omega arith in
      let started : leb 1 policy.max_attempts ≡ true = ground arith in
      (f, rw started (ap (λ n. attempts_from policy should_retry w n 1) (sym count) ∙ f_eq), v)
