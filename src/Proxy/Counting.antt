-- ===== src/Proxy/Counting.antt =====
-- What the proxy answers to a sequence of requests, told without its counters.
use bee_engine.Base.{
  ℕ, suc, ◌+◌, ◌≡◌, refl, sym, ap, ap₂, subst, ◌∙◌, true, false, List, [], ◌∷◌, Option, none, some,
  leb, if◌then◌else◌, arith, inl, inr, Bool-cases, Option-cases,
}
use bee_engine.Base.Bytes.{Bytes, bytes_eq, bytes_eq_iff, bytes_eq_refl}
use bee_engine.Base.Text.{codes}
use bee_engine.Shared.Leaf.{Primitives}
use bee_engine.Proxy.{
  ProxyObservations, no_observations, MessageRequest, count_of, bump, record_attempt, AppState,
  Request, Response, error_body, json_response, queue_overflow_response, forward_request,
  message_of, proxy_request, too_large,
}

pub count_of-bump :
    (id k : Bytes) (counts : List (Bytes × ℕ))
    → count_of (bump id counts) k
      ≡ (if bytes_eq id k then suc (count_of counts k) else count_of counts k)
unfolding count_of bump
count_of-bump id k [] = ground arith
count_of-bump id k ((j, n) ∷ counts) =
    ground
      (arith, bytes_eq_iff id k, bytes_eq_iff j id, bytes_eq_iff j k, count_of-bump id k counts)

module _ (prims : Primitives) (read_json : Bytes → Option (Bytes × Bytes)) (state : AppState) where
  -- The message that a request is counted for.
  abbrev pub counted_message : Request → Option MessageRequest
  counted_message r = if too_large r then none else message_of prims read_json r

  -- How many of the requests are for the message.
  abbrev pub mentions : Bytes → List Request → ℕ
  mentions id [] = 0
  mentions id (r ∷ rs) =
      (elim (counted_message r) [ none ↦ 0 | some m ↦ if bytes_eq m.id id then 1 else 0 ])
      + mentions id rs

  -- The answer to a request, by the requests before it.
  abbrev pub answer : (earlier : List Request) → Request → Response
  answer earlier r =
      if too_large r
      then json_response 413 (error_body (codes "failed to read request body"))
      else elim (message_of prims read_json r) [
        | none ↦ forward_request state r
        | some m ↦
            if leb (suc (mentions m.id earlier)) state.fail_first
            then queue_overflow_response m.id
            else forward_request state r
      ]

  abbrev pub answers : (earlier : List Request) → List Request → List Response
  answers earlier [] = []
  answers earlier (r ∷ rs) = answer earlier r ∷ answers (r ∷ earlier) rs

  -- The proxy on one request after the other; each comes with its time.
  abbrev pub serve : List (ℕ × Request) → ProxyObservations → List Response
  serve [] observations = []
  serve ((now, r) ∷ rs) observations =
      let served = proxy_request prims read_json state now r observations in
      served.0 ∷ serve rs served.1

  abbrev pub requests : List (ℕ × Request) → List Request
  requests [] = []
  requests ((_, r) ∷ rs) = r ∷ requests rs

  unfoldable pub Counted : ProxyObservations → List Request → Type 0
  Counted obs earlier = (id : Bytes) → count_of obs.attempts_by_message id ≡ mentions id earlier

  unfoldable pub Answered :
      (earlier : List Request) → Request → Response × ProxyObservations → Type 0
  Answered earlier r out = (out.0 ≡ answer earlier r) × Counted out.1 (r ∷ earlier)

  -- The state after a request for a message.
  record_attempt-Counted :
      (now : ℕ) (r : Request) (m : MessageRequest) (obs : ProxyObservations)
      (earlier : List Request)
      → too_large r ≡ false
      → message_of prims read_json r ≡ some m
      → Counted obs earlier
      → Counted (record_attempt state.fail_first now m obs).1 (r ∷ earlier)
  unfolding record_attempt Counted
  record_attempt-Counted now r m obs earlier fits e h id =
      count_of-bump m.id id obs.attempts_by_message ∙ rw (fits, e) (ground (arith, h id))

  attempt-mentions :
      (now : ℕ) (m : MessageRequest) (obs : ProxyObservations) (earlier : List Request)
      → Counted obs earlier
      → (record_attempt state.fail_first now m obs).0 ≡ suc (mentions m.id earlier)
  unfolding record_attempt Counted
  attempt-mentions now m obs earlier h =
      count_of-bump m.id m.id obs.attempts_by_message ∙ rw (bytes_eq_refl m.id) (ap suc (h m.id))

  -- The branches of the handler.
  module _ (now : ℕ) (r : Request) (obs : ProxyObservations) where
    proxy_large :
        too_large r ≡ true
        → proxy_request prims read_json state now r obs
          ≡ (json_response 413 (error_body (codes "failed to read request body")), obs)
    unfolding proxy_request
    proxy_large large = rw large refl

    proxy_other :
        too_large r ≡ false
        → message_of prims read_json r ≡ none
        → proxy_request prims read_json state now r obs ≡ (forward_request state r, obs)
    unfolding proxy_request
    proxy_other fits other = rw (fits, other) refl

    module _ (m : MessageRequest) (fits : too_large r ≡ false)
        (e : message_of prims read_json r ≡ some m) where
      proxy_early :
          leb (record_attempt state.fail_first now m obs).0 state.fail_first ≡ true
          → proxy_request prims read_json state now r obs
            ≡ (queue_overflow_response m.id, (record_attempt state.fail_first now m obs).1)
      unfolding proxy_request
      proxy_early early = rw (fits, e, early) refl

      proxy_late :
          leb (record_attempt state.fail_first now m obs).0 state.fail_first ≡ false
          → proxy_request prims read_json state now r obs
            ≡ (forward_request state r, (record_attempt state.fail_first now m obs).1)
      unfolding proxy_request
      proxy_late late = rw (fits, e, late) refl

  pub proxy_request-Answered :
      (now : ℕ) (r : Request) (obs : ProxyObservations) (earlier : List Request)
      → Counted obs earlier
      → Answered earlier r (proxy_request prims read_json state now r obs)
  unfolding Counted Answered
  proxy_request-Answered now r obs earlier h = elim (Bool-cases (too_large r)) [
    | inl large ↦
        subst (Answered earlier r) (sym (proxy_large now r obs large))
          (rw large refl, λ id. rw large (omega (arith, h id)))
    | inr fits ↦ elim (Option-cases (message_of prims read_json r)) [
      | inl other ↦
          subst (Answered earlier r) (sym (proxy_other now r obs fits other))
            (rw (fits, other) refl, λ id. rw (fits, other) (omega (arith, h id)))
      | inr (m, e) ↦
          let number = attempt-mentions now m obs earlier h in
          let counted = record_attempt-Counted now r m obs earlier fits e h in
          let same = ap (λ n. leb n state.fail_first) number in
          elim (Bool-cases (leb (suc (mentions m.id earlier)) state.fail_first)) [
            | inl early ↦
                subst (Answered earlier r) (sym (proxy_early now r obs m fits e (same ∙ early)))
                  (rw (fits, e, early) refl, counted)
            | inr late ↦
                subst (Answered earlier r) (sym (proxy_late now r obs m fits e (same ∙ late)))
                  (rw (fits, e, late) refl, counted)
          ]
    ]
  ]

  serve-answers_from :
      (rs : List (ℕ × Request)) (obs : ProxyObservations) (earlier : List Request)
      → Counted obs earlier
      → serve rs obs ≡ answers earlier (requests rs)
  unfolding Answered
  serve-answers_from [] obs earlier h = refl
  serve-answers_from ((now, r) ∷ rs) obs earlier h =
      let (first, later) = proxy_request-Answered now r obs earlier h in
      ap₂ ◌∷◌ first (serve-answers_from rs _ (r ∷ earlier) later)

  -- A proxy that starts afresh answers each request by the requests before it alone: a body that is too
  -- large with an error; the first `fail_first` requests for a message, whatever stands between
  -- them, with a full queue for that message; and every other request with what the upstream server
  -- answers.
  pub serve-answers :
      (rs : List (ℕ × Request)) → serve rs no_observations ≡ answers [] (requests rs)
  unfolding Counted count_of
  serve-answers rs = serve-answers_from rs no_observations [] (λ id. refl)
