-- ===== src/Connect/Client/Search.antt =====
-- bee_connect/src/client.rs: the three searches for a message among a profile's events. What the query
-- of the events gives is an argument; it asks for the newest fifty.
pub mod Advance
pub mod Opened
use bee_engine.Base.{
  ℕ, Bool, true, false, not, ◌&&◌, ◌||◌, List, [], ◌∷◌, Option, none, some, Result, ok, err, ◌>>=◌,
  ◌>>◌, map_err, ◌==◌, if◌then◌else◌,
}
use bee_engine.Base.Bytes.{Bytes, bytes_eq}
use bee_engine.Base.Text.{codes}
use bee_engine.Connect.Keys.{Crypto, compute_shared_secret, derive_session_keys}
use bee_engine.Connect.Messages.{Sealing, normalize_uint256_hex, normalize_owner_public_hex}
use bee_engine.Connect.Session.{
  ConnectSessionState, RekeyResult, ensure_not_expired, create_initial_state,
}
use bee_engine.Connect.Client.{
  ConnectMessageEnvelope, ProfileEvent, Parsing, Failure, parse_failure, filtered_out, no_dh_public,
  dh_failure, rekey_failure, decrypt_failure, body_parse_failure, unanswered, ClientError, expired,
  query_failed, Outcome, skipped, found, WalletHelloFound, SetMiningKeysFound,
  ChallengeResponseFound, scan, conclude, is_for, decode_connect_message_body, rekey_and_open,
}

abbrev pub wallet_hello : Bytes
wallet_hello = codes "wallet_hello"

abbrev pub set_mining_keys : Bytes
set_mining_keys = codes "set_mining_keys"

abbrev pub challenge_response : Bytes
challenge_response = codes "challenge_response"

-- The failures that the searches count as candidates.
abbrev pub is_hello_failure : Failure → Bool
is_hello_failure no_dh_public = true
is_hello_failure dh_failure = true
is_hello_failure decrypt_failure = true
is_hello_failure body_parse_failure = true
is_hello_failure _ = false

abbrev pub is_keys_failure : Failure → Bool
is_keys_failure rekey_failure = true
is_keys_failure decrypt_failure = true
is_keys_failure body_parse_failure = true
is_keys_failure _ = false

abbrev pub is_response_failure : Failure → Bool
is_response_failure parse_failure = true
is_response_failure rekey_failure = true
is_response_failure decrypt_failure = true
is_response_failure body_parse_failure = true
is_response_failure _ = false

abbrev pub is_decrypt_failure : Failure → Bool
is_decrypt_failure decrypt_failure = true
is_decrypt_failure _ = false

abbrev pub never : Failure → Bool
never why = false

-- A session state that is given must not have expired.
unfoldable pub check_state :
    {E : Type 0} → Option ConnectSessionState → ℕ → Result (ClientError E) (Unit {0})
check_state none now_secs = ok tt
check_state (some state) now_secs = map_err expired (ensure_not_expired state now_secs)

module _ (k : Crypto) (seal : Sealing) {Json : Type 0} (parse : Parsing Json) where
  unfoldable pub wallet_hello_step :
      (session_id client_dh_secret : Bytes) → ProfileEvent → Outcome WalletHelloFound
  wallet_hello_step session_id client_dh_secret event = elim (parse.envelope_of event.text) [
    | none ↦ skipped filtered_out
    | some envelope ↦
        if not (is_for session_id (codes "w2c") envelope)
          || (envelope.seq == 0)
          || not (bytes_eq envelope.msg_type wallet_hello)
        then skipped filtered_out
        else elim envelope.dh_public [
          | none ↦ skipped no_dh_public
          | some wallet_dh_public ↦
              elim (compute_shared_secret k client_dh_secret wallet_dh_public >>= λ shared.
              derive_session_keys k shared session_id) [
                | err _ ↦ skipped dh_failure
                | ok session_keys ↦
                    elim (decode_connect_message_body k seal parse envelope
                      (some session_keys.encryption_root_hex)) [
                        | err _ ↦ skipped decrypt_failure
                        | ok none ↦ skipped decrypt_failure
                        | ok (some value) ↦ elim (parse.wallet_hello_of value) [
                          | none ↦ skipped body_parse_failure
                          | some hello ↦ found (record {
                            event_id = event.id;
                            event_created_at = event.created_at;
                            hello = hello;
                            raw_message_json = event.text;
                            session_state =
                                record (create_initial_state session_keys client_dh_secret
                                  wallet_dh_public event.now_secs) { last_seen_seq = envelope.seq };
                          })
                        ]
                      ]
              ]
        ]
  ]

  abbrev pub set_mining_keys_found : ProfileEvent → Json → RekeyResult → Outcome SetMiningKeysFound
  set_mining_keys_found event value rekey = elim (parse.set_mining_keys_of value) [
    | none ↦ skipped body_parse_failure
    | some body ↦ elim (normalize_uint256_hex body.app_id) [
      | err _ ↦ skipped body_parse_failure
      | ok app_id ↦ elim (normalize_owner_public_hex body.owner_public) [
        | err _ ↦ skipped body_parse_failure
        | ok owner_public ↦ found (record {
          event_id = event.id;
          event_created_at = event.created_at;
          app_id = app_id;
          owner_public = owner_public;
          raw_message_json = event.text;
          updated_session_state = some rekey.updated_state;
        })
      ]
    ]
  ]

  unfoldable pub set_mining_keys_step :
      (session_state : Option ConnectSessionState) (session_id : Bytes)
      → ProfileEvent
      → Outcome SetMiningKeysFound
  set_mining_keys_step session_state session_id event = elim (parse.envelope_of event.text) [
    | none ↦ skipped filtered_out
    | some envelope ↦
        if not (is_for session_id (codes "c2w") envelope)
          || not (bytes_eq envelope.msg_type set_mining_keys)
        then skipped filtered_out
        else rekey_and_open k seal parse session_state session_id event.now_secs envelope
            (set_mining_keys_found event)
  ]

  abbrev pub challenge_response_found :
      ProfileEvent → Json → RekeyResult → Outcome ChallengeResponseFound
  challenge_response_found event value rekey = elim (parse.challenge_response_of value) [
    | none ↦ skipped body_parse_failure
    | some response ↦ found (record {
      event_id = event.id;
      event_created_at = event.created_at;
      response = response;
      raw_message_json = event.text;
      updated_session_state = some rekey.updated_state;
    })
  ]

  unfoldable pub challenge_response_step :
      (session_state : Option ConnectSessionState) (session_id : Bytes)
      → ProfileEvent
      → Outcome ChallengeResponseFound
  challenge_response_step session_state session_id event = elim (parse.envelope_of event.text) [
    | none ↦ skipped parse_failure
    | some envelope ↦
        if not (is_for session_id (codes "w2c") envelope)
          || bytes_eq envelope.msg_type wallet_hello
          || not (bytes_eq envelope.msg_type challenge_response)
        then skipped filtered_out
        else rekey_and_open k seal parse session_state session_id event.now_secs envelope
            (challenge_response_found event)
  ]

  module _ {E : Type 0} (query : (created_at_from : ℕ) → Result E (List ProfileEvent)) where
    unfoldable pub find_wallet_hello_event :
        (session_id client_dh_secret : Bytes) (created_at_from : ℕ)
        → Result (ClientError E) (Option WalletHelloFound)
    find_wallet_hello_event session_id client_dh_secret created_at_from = do
      events ← map_err query_failed (query created_at_from)
      conclude is_hello_failure never (scan (wallet_hello_step session_id client_dh_secret) events)

    unfoldable pub find_set_mining_keys_event :
        (session_id : Bytes) (session_state : Option ConnectSessionState)
        (created_at_from now_secs : ℕ)
        → Result (ClientError E) (Option SetMiningKeysFound)
    find_set_mining_keys_event session_id session_state created_at_from now_secs = do
      check_state session_state now_secs
      events ← map_err query_failed (query created_at_from)
      conclude is_keys_failure never (scan (set_mining_keys_step session_state session_id) events)

    unfoldable pub find_challenge_response_event :
        (session_id : Bytes) (session_state : Option ConnectSessionState)
        (created_at_from now_secs : ℕ)
        → Result (ClientError E) (Option ChallengeResponseFound)
    find_challenge_response_event session_id session_state created_at_from now_secs = do
      check_state session_state now_secs
      events ← map_err query_failed (query created_at_from)
      conclude is_response_failure is_decrypt_failure
          (scan (challenge_response_step session_state session_id) events)
