-- ===== src/Connect/Client/Sending/Delivered.antt =====
-- A request that is sent is found by the other end's search of the profile.
use bee_engine.Base.{
  ℕ, ◌≡◌, refl, sym, ap, ◌∙◌, subst, Bool, true, List, [], ◌∷◌, ◌++◌, Option, none, some, Result,
  ok, ok_or, map_err, >>=-eq-ok, ok-injective, map_err-eq-ok, ok_or-eq-ok, fail_if,
}
use bee_engine.Base.Bytes.{Bytes, bytes_eq, bytes_eq_iff}
use bee_engine.Base.Lists.{length, is_empty, All}
use bee_engine.Base.Text.{codes, trim}
use bee_engine.Connect.Client.{
  ProfileEvent, SetMiningKeysBody, Parsing, Failure, Outcome, found, skipped, SetMiningKeysFound,
  decode_connect_message_body, rekey_and_open, scan, conclude,
}
use bee_engine.Connect.Client.Search.{
  set_mining_keys, set_mining_keys_found, set_mining_keys_step, check_state, is_keys_failure, never,
  find_set_mining_keys_event,
}
use bee_engine.Connect.Client.Sending.{
  Writing, Seeds, seeded, Profile, Sent, ResultOfRequestSetMiningKeys, sealed_envelope,
  encode_connect_message, ensure_tx_success, post_message, request_set_mining_keys, not_written,
  not_normal, not_rekeyed, network_failed,
}
use bee_engine.Connect.Client.Sending.Sealed.{decode-encode_connect_message}
use bee_engine.Connect.Keys.{Crypto}
use bee_engine.Connect.Messages.{
  Sealing, normalize_uint256_hex, normalize_owner_public_hex, EncryptedConnectBody,
}
use bee_engine.Connect.Messages.Normal.{
  normalize_uint256_hex-normal, normalize_owner_public_hex_idempotent,
}
use bee_engine.Connect.Session.{
  ConnectSessionState, RekeyResult, ensure_not_expired, next_outbound_seq, rekey_outbound,
  rekey_inbound,
}
use bee_engine.Connect.Session.Steps.{outbound_parts}
use bee_engine.Connect.Session.Ratchet.{InStep, message_received}

-- A search finds the first event that its step does not skip.
scan_first :
    {R A : Type 0} (step : R → Outcome A) (front : List R) (r : R) (back : List R) (a : A)
    → All (λ x. (why : Failure) × (step x ≡ skipped why)) front
    → step r ≡ found a
    → (scan step (front ++ r ∷ back)).0 ≡ some a
unfolding scan
scan_first step [] r back a past e = rw (scan, e) refl
scan_first step (x ∷ xs) r back a ((why, e'), past) e =
    rw (scan, e') (scan_first step xs r back a past e)

conclude_found :
    {A E : Type 0} (counts desync : Failure → Bool) (out : Option A × List Failure) (a : A)
    → out.0 ≡ some a
    → conclude {E = E} counts desync out ≡ ok (some a)
unfolding conclude
conclude_found counts desync (some b, why) a h = ap ok h
conclude_found counts desync (none, why) a h = absurd (cc)

module _ (k : Crypto) (seal : Sealing) {Json : Type 0} (parse : Parsing Json)
    (write : Writing parse) where
  -- What a request that succeeds went through.
  posted :
      {E : Type 0} (profile : Profile E) (session_id : Bytes) (s : ConnectSessionState)
      (now_millis : Option ℕ) (now : ℕ) (random : Option Bytes) (seeds : Seeds)
      (address msg_type : Bytes) (json : Json) (sent : Sent)
      → post_message k seal parse write profile session_id s now_millis now random seeds address
          msg_type json
        ≡ ok sent
      → (seq : ℕ) × (r : RekeyResult) × (rekey_outbound k s session_id seq now random ≡ ok r)
        × (encode_connect_message k seal parse write {E = E} session_id
              (codes "c2w")
              r.outbound_seq
              msg_type
              json
              (some r.message_encryption_root)
              r.new_dh_public
              seeds
            ≡ ok sent.raw_message_json)
        × (sent.updated_session_state ≡ r.updated_state)
  unfolding post_message
  posted profile session_id s now_millis now random seeds address msg_type json sent h =
      let (seq, _, h1) = >>=-eq-ok (map_err not_rekeyed (next_outbound_seq s now_millis)) _ h in
      let (r, rekeyed, h2) =
        >>=-eq-ok (map_err not_rekeyed (rekey_outbound k s session_id seq now random)) _ h1 in
      let (raw, encoded, h3) =
        >>=-eq-ok
          (encode_connect_message k seal parse write session_id (codes "c2w") r.outbound_seq
            msg_type json (some r.message_encryption_root) r.new_dh_public seeds)
          _ h2 in
      let (receipt, _, h4) =
        >>=-eq-ok
          (map_err network_failed (profile.add_context_text raw s.signing_public s.signing_secret))
          _ h3 in
      let (_, _, h5) = >>=-eq-ok (ensure_tx_success receipt) _ h4 in
      (
        seq,
        r,
        map_err-eq-ok not_rekeyed (rekey_outbound k s session_id seq now random) r rekeyed,
        encoded ∙ ap (λ x. ok x.raw_message_json) (ok-injective h5),
        ap (λ x. x.updated_session_state) (sym (ok-injective h5)),
      )

  -- An event with such an envelope, whose body opens with the re-keyed root, is found.
  step_found :
      (t : ConnectSessionState) (session_id : Bytes) (event : ProfileEvent) (public : Bytes)
      (seq ts : ℕ) (b : EncryptedConnectBody) (keys : SetMiningKeysBody) (json : Json)
      (q : RekeyResult)
      → parse.envelope_of event.text
        ≡ some (sealed_envelope session_id (codes "c2w") seq set_mining_keys ts (some public) b)
      → rekey_inbound k t public session_id seq event.now_secs ≡ ok q
      → decode_connect_message_body k seal parse
          (sealed_envelope session_id (codes "c2w") seq set_mining_keys ts (some public) b)
          (some q.message_encryption_root)
        ≡ ok (some json)
      → parse.set_mining_keys_of json ≡ some keys
      → normalize_uint256_hex keys.app_id ≡ ok keys.app_id
      → normalize_owner_public_hex keys.owner_public ≡ ok keys.owner_public
      → set_mining_keys_step k seal parse (some t) session_id event
        ≡ found (record {
          event_id = event.id;
          event_created_at = event.created_at;
          app_id = keys.app_id;
          owner_public = keys.owner_public;
          raw_message_json = event.text;
          updated_session_state = some q.updated_state;
        })
  unfolding set_mining_keys_step rekey_and_open sealed_envelope
  step_found t session_id event public seq ts b keys json q read received opened keyed na no' =
      let same : bytes_eq session_id session_id ≡ true =
        (bytes_eq_iff session_id session_id).1 refl in
      rw
        (
          read, set_mining_keys_step, same, rekey_and_open, received, opened, set_mining_keys_found,
          keyed, na, no',
        )
        refl

  -- The searched step of the receiver, on an event that holds what was sent.
  posted_step :
      {E : Type 0} (profile : Profile E) (session_id : Bytes) (s t : ConnectSessionState)
      (now_millis : Option ℕ) (now : ℕ) (random nonce salt : Bytes) (clock : Option ℕ)
      (address : Bytes) (keys : SetMiningKeysBody) (json : Json) (sent : Sent)
      (event : ProfileEvent)
      → InStep k s t
      → length random ≡ 32
      → length nonce ≡ 24
      → length salt ≡ 32
      → ensure_not_expired t event.now_secs ≡ ok tt
      → normalize_uint256_hex keys.app_id ≡ ok keys.app_id
      → normalize_owner_public_hex keys.owner_public ≡ ok keys.owner_public
      → write.set_mining_keys_value keys ≡ some json
      → post_message k seal parse write profile session_id s now_millis now
          (some random)
          (seeded clock nonce salt)
          address
          set_mining_keys
          json
        ≡ ok sent
      → event.text ≡ sent.raw_message_json
      → (q : ConnectSessionState) × InStep k sent.updated_session_state q
        × (set_mining_keys_step k seal parse (some t) session_id event
            ≡ found (record {
              event_id = event.id;
              event_created_at = event.created_at;
              app_id = keys.app_id;
              owner_public = keys.owner_public;
              raw_message_json = event.text;
              updated_session_state = some q;
            }))
  posted_step profile session_id s t now_millis now random nonce salt clock address keys json sent
        event v lr ln ls alive na no' written h at_event =
      let (seq, r, rekeyed, encoded, after) =
        posted profile session_id s now_millis now (some random) (seeded clock nonce salt) address
          set_mining_keys json sent h in
      let (ts, b, read, opened) =
        decode-encode_connect_message k seal parse write session_id (codes "c2w") r.outbound_seq
          set_mining_keys json r.message_encryption_root nonce salt r.new_dh_public clock
          sent.raw_message_json ln ls encoded in
      let (public, q, public_eq, received, roots, in_step) =
        message_received k s t session_id random seq now event.now_secs r v lr rekeyed alive in
      let (_, _, _, _, _, _, _, made) = outbound_parts k s session_id seq now random r rekeyed in
      let same_seq : r.outbound_seq ≡ seq = ap (λ x. x.outbound_seq) (sym made) in
      let envelope : sealed_envelope session_id (codes "c2w") r.outbound_seq set_mining_keys ts
            r.new_dh_public b
          ≡ sealed_envelope session_id (codes "c2w") seq set_mining_keys ts (some public) b =
        rw (same_seq, public_eq) refl in
      (
        q.updated_state,
        subst (λ x. InStep k x q.updated_state) (sym after) in_step,
        step_found t session_id event public seq ts b keys json q
            (ap parse.envelope_of at_event ∙ read ∙ ap some envelope) received
            (rw roots (
              ap (λ x. decode_connect_message_body k seal parse x (some r.message_encryption_root))
                (sym envelope)
              ∙ opened))
            (write.set_mining_keys_of-value keys json written) na no',
      )

  find_first :
      {F : Type 0} (t : ConnectSessionState) (session_id : Bytes)
      (query : (created_at_from : ℕ) → Result F (List ProfileEvent)) (from now : ℕ)
      (front back : List ProfileEvent) (event : ProfileEvent) (a : SetMiningKeysFound)
      → ensure_not_expired t now ≡ ok tt
      → query from ≡ ok (front ++ event ∷ back)
      → All
          (λ e.
            (why : Failure) × (set_mining_keys_step k seal parse (some t) session_id e
              ≡ skipped why))
          front
      → set_mining_keys_step k seal parse (some t) session_id event ≡ found a
      → find_set_mining_keys_event k seal parse query session_id (some t) from now ≡ ok (some a)
  unfolding find_set_mining_keys_event check_state
  find_first t session_id query from now front back event a alive listed past e =
      rw (alive, listed)
        (conclude_found is_keys_failure never _ a (
          scan_first (set_mining_keys_step k seal parse (some t) session_id) front event back a past
            e))

  -- A request for mining keys that succeeds is found: if the states of the application and of the
  -- wallet are in step and the wallet's has not expired, then a search whose query gives the text that
  -- was sent, behind events that it skips only, finds the normalized id and key of the request, and the
  -- states after it are in step again. The random bytes have the lengths that are asked for.
  pub request_set_mining_keys-found :
      {E F : Type 0} (profile : Profile E) (session_id app_id owner_public : Bytes)
      (s t : ConnectSessionState) (now_millis : Option ℕ) (now : ℕ) (random nonce salt : Bytes)
      (clock : Option ℕ) (result : ResultOfRequestSetMiningKeys)
      (query : (created_at_from : ℕ) → Result F (List ProfileEvent)) (from now' : ℕ)
      (front back : List ProfileEvent) (event : ProfileEvent)
      → InStep k s t
      → length random ≡ 32
      → length nonce ≡ 24
      → length salt ≡ 32
      → request_set_mining_keys k seal parse write profile session_id s now_millis now
          (some random)
          (seeded clock nonce salt)
          app_id
          owner_public
        ≡ ok result
      → event.text ≡ result.sent.raw_message_json
      → ensure_not_expired t now' ≡ ok tt
      → ensure_not_expired t event.now_secs ≡ ok tt
      → query from ≡ ok (front ++ event ∷ back)
      → All
          (λ e.
            (why : Failure) × (set_mining_keys_step k seal parse (some t) session_id e
              ≡ skipped why))
          front
      → (q : ConnectSessionState) × InStep k result.sent.updated_session_state q
        × (find_set_mining_keys_event k seal parse query session_id (some t) from now'
            ≡ ok (
                some (record {
                  event_id = event.id;
                  event_created_at = event.created_at;
                  app_id = result.app_id;
                  owner_public = result.owner_public;
                  raw_message_json = event.text;
                  updated_session_state = some q;
                })))
  unfolding request_set_mining_keys
  request_set_mining_keys-found profile session_id app_id owner_public s t now_millis now random
        nonce salt clock result query from now' front back event v lr ln ls h at_event alive alive'
        listed past =
      let (_, _, h1) = >>=-eq-ok (fail_if (is_empty (trim session_id)) _) _ h in
      let (app, app_eq, h2) = >>=-eq-ok (map_err not_normal (normalize_uint256_hex app_id)) _ h1 in
      let (owner, owner_eq, h3) =
        >>=-eq-ok (map_err not_normal (normalize_owner_public_hex owner_public)) _ h2 in
      let (address, _, h4) = >>=-eq-ok (map_err network_failed profile.active_profile) _ h3 in
      let keys : SetMiningKeysBody = record { app_id = app; owner_public = owner } in
      let (json, written, h5) =
        >>=-eq-ok (ok_or (write.set_mining_keys_value keys) not_written) _ h4 in
      let (sent, posted_eq, h6) =
        >>=-eq-ok
          (post_message k seal parse write profile session_id s now_millis now (some random)
            (seeded clock nonce salt) address set_mining_keys json)
          _ h5 in
      let made : record { sent = sent; app_id = app; owner_public = owner } ≡ result =
        ok-injective h6 in
      let (_, app_normal) =
        normalize_uint256_hex-normal app_id app (map_err-eq-ok not_normal _ app app_eq) in
      let owner_normal =
        normalize_owner_public_hex_idempotent owner_public owner
          (map_err-eq-ok not_normal _ owner owner_eq) in
      let (q, in_step, step) =
        posted_step profile session_id s t now_millis now random nonce salt clock address keys json
          sent event v lr ln ls alive' app_normal owner_normal (ok_or-eq-ok _ _ written) posted_eq
          (at_event ∙ ap (λ r. r.sent.raw_message_json) (sym made)) in
      (
        q,
        subst (λ r. InStep k r.sent.updated_session_state q) made in_step,
        find_first t session_id query from now' front back event
            (record {
              event_id = event.id;
              event_created_at = event.created_at;
              app_id = result.app_id;
              owner_public = result.owner_public;
              raw_message_json = event.text;
              updated_session_state = some q;
            })
            alive listed past
            (subst
              (λ r.
                set_mining_keys_step k seal parse (some t) session_id event
                ≡ found (record {
                  event_id = event.id;
                  event_created_at = event.created_at;
                  app_id = r.app_id;
                  owner_public = r.owner_public;
                  raw_message_json = event.text;
                  updated_session_state = some q;
                }))
              made step),
      )
