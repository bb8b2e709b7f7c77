-- ===== src/Proxy/Through.antt =====
-- The delivery of a message (bee_infra/src/message_delivery.rs) through the proxy.
use bee_engine.Base.{
  ℕ, zero, suc, ◌+◌, ◌*◌, ◌≤◌, ◌<◌, ◌≡◌, refl, ap, ◌∙◌, Bool, true, false, Option, some, Result, ok,
  err, leb, if◌then◌else◌, arith, min, ◌^◌, ◌-◌,
}
use bee_engine.Base.Bytes.{Bytes, bytes_eq_refl}
use bee_engine.Base.Lists.{replicate}
use bee_engine.Shared.Leaf.{Primitives}
use bee_engine.Infra.Delivery.{Network, returns_error, retry_loop, with_queue_overflow_retry}
use bee_engine.Proxy.{
  ProxyObservations, no_observations, MessageRequest, count_of, AppState, Request, Response,
  queue_overflow_response, forward_request, message_of, proxy_request, too_large,
}
use bee_engine.Proxy.Counting.{mentions, Counted, Answered, proxy_request-Answered}

module _ (prims : Primitives) (read_json : Bytes → Option (Bytes × Bytes)) (state : AppState)
    (r : Request) where
  -- The proxy's state after some of the requests, which are all the same.
  abbrev pub state_after : ℕ → ProxyObservations
  state_after zero = no_observations
  state_after (suc n) = (proxy_request prims read_json state n r (state_after n)).1

  module _ {E T : Type 0} (read : Response → Result E T) (clock : ℕ → ℕ)
      (is_queue_overflow : E → Bool) where
    -- The proxy as the network of a delivery, whose answers the client reads.
    abbrev pub through_proxy : Network E T
    through_proxy = record {
      attempt = λ n. read (proxy_request prims read_json state n r (state_after n)).0;
      now_millis = clock;
      is_queue_overflow = is_queue_overflow;
    }

  state_after-Counted : (n : ℕ) → Counted prims read_json state (state_after n) (replicate n r)
  unfolding Counted Answered count_of
  state_after-Counted zero = λ id. refl
  state_after-Counted (suc n) =
      (proxy_request-Answered prims read_json state n r (state_after n) (replicate n r)
        (state_after-Counted n)).1

  module _ (m : MessageRequest) (fits : too_large r ≡ false)
      (e : message_of prims read_json r ≡ some m) where
    mentions-replicate : (n : ℕ) → mentions prims read_json state m.id (replicate n r) ≡ n
    mentions-replicate zero = refl
    mentions-replicate (suc n) =
        rw (fits, e, bytes_eq_refl m.id) (omega (arith, mentions-replicate n))

    answered :
        (n : ℕ)
        → (proxy_request prims read_json state n r (state_after n)).0 ≡ (
            if leb (suc n) state.fail_first
            then queue_overflow_response m.id
            else forward_request state r)
    unfolding Answered
    answered n =
        (proxy_request-Answered prims read_json state n r (state_after n) (replicate n r)
          (state_after-Counted n)).0
        ∙ rw (fits, e, mentions-replicate n) refl

    module _ {E T : Type 0} (read : Response → Result E T) (clock : ℕ → ℕ)
        (is_queue_overflow : E → Bool) (full : E) (t : T) (expires_at : ℕ) where
      -- The client reads a full queue as such, and the upstream server's answer as the result.
      abbrev pub Readable : Type 0
      Readable =
          (read (queue_overflow_response m.id) ≡ err full)
          × (is_queue_overflow full ≡ true)
          × (read (forward_request state r) ≡ ok t)

      -- Each attempt that meets a full queue leaves time for another.
      abbrev pub InTime : Type 0
      InTime = (n : ℕ) → n < state.fail_first → clock n + 1000 < expires_at * 1000

      module _ (readable : Readable) (in_time : InTime) (few : state.fail_first ≤ 30) where
        net : Network E T
        net = through_proxy read clock is_queue_overflow

        waits :
            (n : ℕ) → n < state.fail_first → returns_error net (expires_at * 1000) n full ≡ false
        unfolding returns_error net
        waits n lt =
            let room = in_time n lt in
            let left : leb 30 n ≡ false = ground arith in
            let before : leb (expires_at * 1000) (min (clock n + 1000) (2 ^ 64 - 1)) ≡ false =
              ground arith in
            rw (readable.1, left, before) refl

        loop_through :
            (k n fuel : ℕ)
            → n + k ≡ state.fail_first
            → k < fuel
            → retry_loop net fuel (expires_at * 1000) n
              ≡ some (record { result = ok t; attempts = suc state.fail_first })
        unfolding retry_loop net returns_error
        loop_through k n zero total lt = absurd (omega arith)
        loop_through zero n (suc fuel) total lt =
            let late : leb (suc n) state.fail_first ≡ false = ground arith in
            let done : net.attempt n ≡ ok t = ap read (answered n ∙ rw late refl) ∙ readable.2 in
            let count : suc n ≡ suc state.fail_first = omega arith in
            rw done (ap (λ a. some (record { result = ok t; attempts = a })) count)
        loop_through (suc k) n (suc fuel) total lt =
            let early : leb (suc n) state.fail_first ≡ true = ground arith in
            let again : net.attempt n ≡ err full =
              ap read (answered n ∙ rw early refl) ∙ readable.0 in
            let room = in_time n (omega arith) in
            let later = loop_through k (suc n) fuel (omega arith) (omega arith) in
            rw (again, waits n (omega arith)) later

        -- A message gets through a proxy that reports a full queue for its first requests, if these are
        -- at most thirty and each leaves time for another attempt: the delivery ends with the answer of
        -- the upstream server, at the attempt after them.
        pub with_queue_overflow_retry-through :
            with_queue_overflow_retry
              (through_proxy read clock is_queue_overflow)
              31
              (some expires_at)
            ≡ some (record { result = ok t; attempts = suc state.fail_first })
        unfolding with_queue_overflow_retry net
        with_queue_overflow_retry-through =
            loop_through state.fail_first 0 31 (omega arith) (omega arith)
