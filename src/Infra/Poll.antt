-- ===== src/Infra/Poll.antt =====
-- bee_infra/src/lib.rs: `poll_until`. What a fetch gives is a function of the number of fetches
-- made before it; the sleeps between them have no other effect.
use bee_engine.Base.{
  ℕ, zero, suc, ◌+◌, ◌≤◌, ◌<◌, ◌≡◌, refl, Bool, true, false, Option, none, some, Result, ok, err,
  leb, ◌==◌, if◌then◌else◌, arith, Result-cases, Bool-cases, inl, inr, ◌⊎◌, subst,
}

-- The error of the last attempt, or that of a fetch.
pub data PollError (E : Type 0) : Type 0 where
  max_attempts_reached : PollError E
  fetch_failed : E → PollError E

module _ {E T : Type 0} (fetch_data : ℕ → Result E T) (predicate : T → Bool) where
  -- The loop; the outer `none` is a lack of fuel.
  unfoldable pub poll_loop : (fuel max_attempts attempts : ℕ) → Option (Result (PollError E) T)
  poll_loop zero max_attempts attempts = none
  poll_loop (suc fuel) max_attempts attempts =
      let rest = poll_loop fuel max_attempts (suc attempts) in
      elim (fetch_data attempts) [
        | err e ↦ some (err (fetch_failed e))
        | ok data' ↦
            if predicate data'
            then some (ok data')
            else (if leb max_attempts (suc attempts) then some (err max_attempts_reached) else rest)
      ]

  abbrev pub or_100 : Option ℕ → ℕ
  or_100 none = 100
  or_100 (some n) = n

  unfoldable pub poll_until : (fuel : ℕ) → Option ℕ → Option (Result (PollError E) T)
  poll_until fuel max_attempts =
      if or_100 max_attempts == 0
      then some (err max_attempts_reached)
      else poll_loop fuel (or_100 max_attempts) 0

  -- A fetch whose data is not the wanted.
  abbrev pub NotYet : ℕ → Type 0
  NotYet n = (d : T) × (fetch_data n ≡ ok d) × (predicate d ≡ false)

  abbrev pub NotYets : (from to : ℕ) → Type 0
  NotYets from to = (n : ℕ) → from ≤ n → n < to → NotYet n

  -- How a polling that starts with the fetch `from` can end.
  pub data Polled (max_attempts from : ℕ) : Result (PollError E) T → Type 0 where
    found :
        (n : ℕ) (d : T)
        → from ≤ n
        → n < max_attempts
        → fetch_data n ≡ ok d
        → predicate d ≡ true
        → NotYets from n
        → Polled max_attempts from (ok d)
    failed :
        (n : ℕ) (e : E)
        → from ≤ n
        → n < max_attempts
        → fetch_data n ≡ err e
        → NotYets from n
        → Polled max_attempts from (err (fetch_failed e))
    exhausted : NotYets from max_attempts → Polled max_attempts from (err max_attempts_reached)

  more_yets : (from to : ℕ) → NotYet from → NotYets (suc from) to → NotYets from to
  more_yets from to first others n lo hi = elim (eq_or_above from n lo) [
    | inl same ↦ subst NotYet same first
    | inr above ↦ others n above hi
  ]
    where
      eq_or_above : (a b : ℕ) → a ≤ b → (a ≡ b) ⊎ (suc a ≤ b)
      eq_or_above a b le = omega arith

  Polled-earlier :
      (max_attempts from : ℕ) (r : Result (PollError E) T)
      → NotYet from
      → Polled max_attempts (suc from) r
      → Polled max_attempts from r
  Polled-earlier max_attempts from r first (found n d lo hi e p others) =
      found n d (omega arith) hi e p (more_yets from n first others)
  Polled-earlier max_attempts from r first (failed n x lo hi e others) =
      failed n x (omega arith) hi e (more_yets from n first others)
  Polled-earlier max_attempts from r first (exhausted others) =
      exhausted (more_yets from max_attempts first others)

  only_one : (from to : ℕ) → to ≡ suc from → NotYet from → NotYets from to
  only_one from to e first n lo hi = let same : from ≡ n = omega arith in subst NotYet same first

  none_yet : (from : ℕ) → NotYets from from
  none_yet from n lo hi = absurd (omega arith)

  poll_loop-Polled :
      (left from max_attempts : ℕ)
      → suc (from + left) ≡ max_attempts
      → (r : Result (PollError E) T) × (poll_loop (suc left) max_attempts from ≡ some r)
        × Polled max_attempts from r
  unfolding poll_loop
  poll_loop-Polled zero from max_attempts total = elim (Result-cases (fetch_data from)) [
    | inr (x, e) ↦ (
      err (fetch_failed x),
      rw (e, poll_loop) refl,
      failed from x (omega arith) (omega arith) e (none_yet from),
    )
    | inl (d, e) ↦ elim (Bool-cases (predicate d)) [
      | inl wanted ↦ (
        ok d,
        rw (e, wanted, poll_loop) refl,
        found from d (omega arith) (omega arith) e wanted (none_yet from),
      )
      | inr other ↦
          let over : leb max_attempts (suc from) ≡ true = ground arith in
          (
            err max_attempts_reached,
            rw (e, other, over, poll_loop) refl,
            exhausted (only_one from max_attempts (omega arith) (d, e, other)),
          )
    ]
  ]
  poll_loop-Polled (suc left) from max_attempts total =
      let (r, r_eq, v) = poll_loop-Polled left (suc from) max_attempts (omega arith) in
      elim (Result-cases (fetch_data from)) [
        | inr (x, e) ↦ (
          err (fetch_failed x),
          rw (e, poll_loop) refl,
          failed from x (omega arith) (omega arith) e (none_yet from),
        )
        | inl (d, e) ↦ elim (Bool-cases (predicate d)) [
          | inl wanted ↦ (
            ok d,
            rw (e, wanted, poll_loop) refl,
            found from d (omega arith) (omega arith) e wanted (none_yet from),
          )
          | inr other ↦
              let more : leb max_attempts (suc from) ≡ false = ground arith in
              (
                r,
                rw (e, other, more, r_eq, poll_loop) refl,
                Polled-earlier max_attempts from r (d, e, other) v,
              )
        ]
      ]

  -- Fuel for the allowed number of fetches is enough. Polling returns the data of the first fetch that
  -- gives the wanted data, or the error of the first that fails, if the fetches before it gave other
  -- data; and it reports that the attempts are used up exactly where all of them gave other data.
  pub poll_until-Polled :
      (max_attempts : Option ℕ)
      → (r : Result (PollError E) T) × (poll_until (or_100 max_attempts) max_attempts ≡ some r)
        × Polled (or_100 max_attempts) 0 r
  unfolding poll_until
  poll_until-Polled max_attempts = from_count (or_100 max_attempts)
    where
      from_count :
          (n : ℕ)
          → (r : Result (PollError E) T) × ((if n == 0
                then some (err max_attempts_reached)
                else poll_loop n n 0)
              ≡ some r)
            × Polled n 0 r
      from_count zero = (err max_attempts_reached, refl, exhausted (none_yet 0))
      from_count (suc n) =
          let (r, r_eq, v) = poll_loop-Polled n 0 (suc n) (omega arith) in
          let some_left : (suc n == 0) ≡ false = ground arith in (r, rw (some_left, r_eq) refl, v)
