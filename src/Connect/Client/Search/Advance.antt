-- ===== src/Connect/Client/Search/Advance.antt =====
-- What a search that finds a message has checked, and how the session goes on from it.
use bee_engine.Base.{
  ℕ, ◌<◌, ◌≡◌, refl, sym, ap, subst, true, false, not, ◌||◌, List, ◌∷◌, ◌++◌, Option, none, some,
  Result, ok, >>=-eq-ok, map_err, map_err-eq-ok, inl, inr, Bool-cases, Option-cases, Result-cases,
  arith,
}
use bee_engine.Base.Bytes.{Bytes, bytes_eq}
use bee_engine.Base.Text.{codes}
use bee_engine.Connect.Keys.{Crypto}
use bee_engine.Connect.Messages.{Sealing, normalize_uint256_hex, normalize_owner_public_hex}
use bee_engine.Connect.Session.{ConnectSessionState, RekeyResult, is_expired}
use bee_engine.Connect.Client.{
  ConnectMessageEnvelope, ProfileEvent, Parsing, query_failed, Outcome, skipped, found,
  SetMiningKeysFound, ChallengeResponseFound, is_for,
}
use bee_engine.Connect.Client.Search.Opened.{
  scan-found, conclude-some, Rekeyed, rekey_and_open-found,
}
use bee_engine.Connect.Client.Search.{
  challenge_response, set_mining_keys, check_state, challenge_response_found, set_mining_keys_found,
  challenge_response_step, set_mining_keys_step, find_challenge_response_event,
  find_set_mining_keys_event, wallet_hello,
}

abbrev of_outcome : {A B : Type 0} → B → (A → B) → Outcome A → B
of_outcome other f (found a) = f a
of_outcome other f (skipped why) = other

module _ (k : Crypto) (seal : Sealing) {Json : Type 0} (parse : Parsing Json) where
  -- An event whose message is accepted: it stands among the events, its envelope is of this version, for
  -- the session and of the type; the session's state had not expired and had only seen lower sequence
  -- numbers; and the state after it has seen that of the message.
  abbrev pub Accepted :
      (dir msg_type session_id : Bytes) (session_state : Option ConnectSessionState)
      (events : List ProfileEvent) (updated : Option ConnectSessionState)
      → Type 0
  Accepted dir msg_type session_id session_state events updated =
      (event : ProfileEvent) × (envelope : ConnectMessageEnvelope) × (s s' : ConnectSessionState)
      × (front back : List ProfileEvent) × (events ≡ front ++ event ∷ back)
      × (parse.envelope_of event.text ≡ some envelope)
      × (is_for session_id dir envelope ≡ true)
      × (bytes_eq envelope.msg_type msg_type ≡ true)
      × (session_state ≡ some s)
      × (updated ≡ some s')
      × (is_expired s event.now_secs ≡ false)
      × (s.last_seen_seq < envelope.seq)
      × (s'.last_seen_seq ≡ envelope.seq)

  response_updated :
      (event : ProfileEvent) (a : ChallengeResponseFound) (value : Json) (rekey : RekeyResult)
      → challenge_response_found k seal parse event value rekey ≡ found a
      → a.updated_session_state ≡ some rekey.updated_state
  response_updated event a value rekey h = elim (Option-cases (parse.challenge_response_of value)) [
    | inl bad ↦ let h' = rw (bad, challenge_response_found) at h in absurd (cc)
    | inr (response, e) ↦ sym (
        ap (λ o. of_outcome none (λ f. f.updated_session_state) o)
          (rw (e, challenge_response_found) at h))
  ]

  keys_updated :
      (event : ProfileEvent) (a : SetMiningKeysFound) (value : Json) (rekey : RekeyResult)
      → set_mining_keys_found k seal parse event value rekey ≡ found a
      → a.updated_session_state ≡ some rekey.updated_state
  keys_updated event a value rekey h = elim (Option-cases (parse.set_mining_keys_of value)) [
    | inl bad ↦ let h' = rw (bad, set_mining_keys_found) at h in absurd (cc)
    | inr (body, e) ↦ elim (Result-cases (normalize_uint256_hex body.app_id)) [
      | inr (x, e') ↦ let h' = rw (e, set_mining_keys_found, e') at h in absurd (cc)
      | inl (app_id, e') ↦ elim (Result-cases (normalize_owner_public_hex body.owner_public)) [
        | inr (x, e'') ↦ let h' = rw (e, set_mining_keys_found, e', e'') at h in absurd (cc)
        | inl (owner_public, e'') ↦ sym (
            ap (λ o. of_outcome none (λ f. f.updated_session_state) o)
              (rw (e, set_mining_keys_found, e', e'') at h))
      ]
    ]
  ]

  challenge_response_step-Accepted :
      (session_state : Option ConnectSessionState) (session_id : Bytes) (event : ProfileEvent)
      (front back : List ProfileEvent) (a : ChallengeResponseFound)
      → challenge_response_step k seal parse session_state session_id event ≡ found a
      → Accepted
          (codes "w2c")
          challenge_response
          session_id
          session_state
          (front ++ event ∷ back)
          a.updated_session_state
  unfolding challenge_response_step Rekeyed
  challenge_response_step-Accepted session_state session_id event front back a h =
      elim (Option-cases (parse.envelope_of event.text)) [
        | inl bad ↦ let h' = rw (bad, challenge_response_step) at h in absurd (cc)
        | inr (envelope, e) ↦
            let other =
              not (is_for session_id (codes "w2c") envelope)
              || bytes_eq envelope.msg_type wallet_hello
              || not (bytes_eq envelope.msg_type challenge_response) in
            elim (Bool-cases other) [
              | inl skip ↦ let h' = rw (e, challenge_response_step, skip) at h in absurd (cc)
              | inr right ↦
                  let h' = rw (e, challenge_response_step, right) at h in
                  let (s, s', given, updated, alive, fresh, seen) =
                    rekey_and_open-found k seal parse session_state session_id event.now_secs
                      envelope (challenge_response_found k seal parse event)
                      (λ f. f.updated_session_state) a (response_updated event a) h' in
                  (
                    event,
                    envelope,
                    s,
                    s',
                    front,
                    back,
                    refl,
                    e,
                    ground arith,
                    ground arith,
                    given,
                    updated,
                    alive,
                    fresh,
                    seen,
                  )
            ]
      ]

  set_mining_keys_step-Accepted :
      (session_state : Option ConnectSessionState) (session_id : Bytes) (event : ProfileEvent)
      (front back : List ProfileEvent) (a : SetMiningKeysFound)
      → set_mining_keys_step k seal parse session_state session_id event ≡ found a
      → Accepted
          (codes "c2w")
          set_mining_keys
          session_id
          session_state
          (front ++ event ∷ back)
          a.updated_session_state
  unfolding set_mining_keys_step Rekeyed
  set_mining_keys_step-Accepted session_state session_id event front back a h =
      elim (Option-cases (parse.envelope_of event.text)) [
        | inl bad ↦ let h' = rw (bad, set_mining_keys_step) at h in absurd (cc)
        | inr (envelope, e) ↦
            let other =
              not (is_for session_id (codes "c2w") envelope)
              || not (bytes_eq envelope.msg_type set_mining_keys) in
            elim (Bool-cases other) [
              | inl skip ↦ let h' = rw (e, set_mining_keys_step, skip) at h in absurd (cc)
              | inr right ↦
                  let h' = rw (e, set_mining_keys_step, right) at h in
                  let (s, s', given, updated, alive, fresh, seen) =
                    rekey_and_open-found k seal parse session_state session_id event.now_secs
                      envelope (set_mining_keys_found k seal parse event)
                      (λ f. f.updated_session_state) a (keys_updated event a) h' in
                  (
                    event,
                    envelope,
                    s,
                    s',
                    front,
                    back,
                    refl,
                    e,
                    ground arith,
                    ground arith,
                    given,
                    updated,
                    alive,
                    fresh,
                    seen,
                  )
            ]
      ]

  module _ {E : Type 0} (query : (created_at_from : ℕ) → Result E (List ProfileEvent)) where
    -- A search for the answer to a challenge that finds one was given events by its query, and has
    -- accepted one of them: its envelope is of this version, for the session, from the wallet and such an
    -- answer; the given session state had not expired and had only seen lower sequence numbers; and the
    -- state that is returned with the answer has seen the sequence number of that envelope.
    pub find_challenge_response_event-Accepted :
        (session_id : Bytes) (session_state : Option ConnectSessionState) (from now : ℕ)
        (a : ChallengeResponseFound)
        → find_challenge_response_event k seal parse query session_id session_state from now
          ≡ ok (some a)
        → (events : List ProfileEvent) × (query from ≡ ok events)
          × Accepted
              (codes "w2c")
              challenge_response
              session_id
              session_state
              events
              a.updated_session_state
    unfolding find_challenge_response_event
    find_challenge_response_event-Accepted session_id session_state from now a h =
        let (_, _, h1) = >>=-eq-ok (check_state session_state now) _ h in
        let (events, e, h2) = >>=-eq-ok (map_err query_failed (query from)) _ h1 in
        let (front, event, back, split, e') =
          scan-found (challenge_response_step k seal parse session_state session_id) events a
            (conclude-some _ _ _ a h2) in
        (
          events,
          map_err-eq-ok query_failed (query from) events e,
          subst
              (λ es.
                Accepted (codes "w2c") challenge_response session_id session_state es
                  a.updated_session_state)
              (sym split)
              (challenge_response_step-Accepted session_state session_id event front back a e'),
        )

    -- A search for mining keys that finds some was given events by its query, and has accepted one of
    -- them: its envelope is of this version, for the session, from the application and of the type of
    -- mining keys; the given session state had not expired and had only seen lower sequence numbers; and
    -- the state that is returned with the keys has seen the sequence number of that envelope.
    find_set_mining_keys_event-Accepted :
        (session_id : Bytes) (session_state : Option ConnectSessionState) (from now : ℕ)
        (a : SetMiningKeysFound)
        → find_set_mining_keys_event k seal parse query session_id session_state from now
          ≡ ok (some a)
        → (events : List ProfileEvent) × (query from ≡ ok events)
          × Accepted
              (codes "c2w")
              set_mining_keys
              session_id
              session_state
              events
              a.updated_session_state
    unfolding find_set_mining_keys_event
    find_set_mining_keys_event-Accepted session_id session_state from now a h =
        let (_, _, h1) = >>=-eq-ok (check_state session_state now) _ h in
        let (events, e, h2) = >>=-eq-ok (map_err query_failed (query from)) _ h1 in
        let (front, event, back, split, e') =
          scan-found (set_mining_keys_step k seal parse session_state session_id) events a
            (conclude-some _ _ _ a h2) in
        (
          events,
          map_err-eq-ok query_failed (query from) events e,
          subst
              (λ es.
                Accepted (codes "c2w") set_mining_keys session_id session_state es
                  a.updated_session_state)
              (sym split)
              (set_mining_keys_step-Accepted session_state session_id event front back a e'),
        )
