-- ===== src/Tests/Client.antt =====
-- The theorems on the client's messages at two events, of which the second holds the message.
use bee_engine.Base.{ℕ, ◌≡◌, refl, List, [], ◌∷◌, Option, none, some, Result, ok, ◌++◌}
use bee_engine.Base.Bytes.{Bytes}
use bee_engine.Base.Lists.{replicate}
use bee_engine.Base.Text.{codes, trim, trim_start, trim_end}
use bee_engine.Connect.Keys.{
  generate_dh_keypair, compute_shared_secret, derive_rekey_root, decode_32,
}
use bee_engine.Connect.Messages.{
  encrypt_connect_body, strip_0x, derive_connect_message_key, decrypt_connect_body,
  normalize_uint256_hex, normalize_owner_public_hex, to_ascii_lowercase, lower, pad_64,
}
use bee_engine.Connect.Session.{
  ConnectSessionState, next_outbound_seq, rekey_outbound, rekey_inbound, is_expired,
  ensure_not_expired, create_initial_state,
}
use bee_engine.Connect.Session.Steps.{inbound_result}
use bee_engine.Connect.Client.{
  ConnectMessageEnvelope, ProfileEvent, ChallengeResponseBody, SetMiningKeysBody, Parsing,
  ChallengeResponseFound, connect_message_version, enc_xchacha, usable_secret, scan, conclude,
  open_body, decode_connect_message_body, rekey_and_open, skipped, filtered_out,
}
use bee_engine.Connect.Client.Search.{
  challenge_response, set_mining_keys, check_state, challenge_response_step, set_mining_keys_step,
  find_challenge_response_event, find_set_mining_keys_event,
}
use bee_engine.Connect.Client.Search.Advance.{Accepted, find_challenge_response_event-Accepted}
use bee_engine.Connect.Client.Sending.{
  Profile, ResultOfRequestSetMiningKeys, pos, seeded, sealed_envelope, ensure_tx_success,
  encode_connect_message, post_message, request_set_mining_keys,
}
use bee_engine.Connect.Client.Sending.Delivered.{request_set_mining_keys-found}
use bee_engine.Connect.Session.Ratchet.{InStep}
use bee_engine.Tests.Connect.{ones, toy_crypto, start, start-InStep, sent, alive}
use bee_engine.Tests.Wire.{wire, writing, write_envelope, read_envelope, write_keys}
use bee_engine.Tests.Messages.{toy_sealing}

abbrev envelope : (dir msg_type : Bytes) → ConnectMessageEnvelope
envelope dir msg_type = record {
  v = connect_message_version;
  session_id = b's' ∷ [];
  dir = dir;
  seq = 7;
  msg_type = msg_type;
  ts = some 1010;
  dh_public = some ones;
  enc =
      some
        (record { alg = enc_xchacha; nonce = some (replicate 24 7); salt = some (replicate 32 8) });
  body = some (codes "hi");
}

abbrev answer : ChallengeResponseBody
answer = record {
  nonce = codes "n";
  signature = codes "sig";
  wallet_address = codes "0:1";
  epk_public = none;
}

abbrev mining_keys : SetMiningKeysBody
mining_keys = record { app_id = codes "0xF"; owner_public = replicate 64 b'A' }

-- A text without characters is no message; every other holds the same one.
abbrev same_envelope : (dir msg_type : Bytes) → Bytes → Option ConnectMessageEnvelope
same_envelope dir msg_type [] = none
same_envelope dir msg_type (_ ∷ _) = some (envelope dir msg_type)

abbrev parsing : (dir msg_type : Bytes) → Parsing Bytes
parsing dir msg_type = record {
  envelope_of = same_envelope dir msg_type;
  json_of = λ text. some text;
  wallet_hello_of = λ json. none;
  set_mining_keys_of = λ json. some mining_keys;
  challenge_response_of = λ json. some answer;
  connect_message_aad = λ session_id dir' seq msg_type' ts. some [];
}

abbrev written : List ProfileEvent
written =
    record { id = codes "e1"; created_at = 1009; text = []; now_secs = 1011 }
    ∷ record { id = codes "e2"; created_at = 1010; text = codes "m"; now_secs = 1011 }
    ∷ []

abbrev query : ℕ → Result Bytes (List ProfileEvent)
query from = ok written

abbrev answered : ChallengeResponseFound
answered = record {
  event_id = codes "e2";
  event_created_at = 1010;
  response = answer;
  raw_message_json = codes "m";
  updated_session_state = some (inbound_result (start 1005) ones 7 ones).updated_state;
}

answer_found :
    find_challenge_response_event toy_crypto toy_sealing
      (parsing (codes "w2c") challenge_response)
      query
      (b's' ∷ [])
      (some (start 1005))
      1000
      1011
    ≡ ok (some answered)
unfolding find_challenge_response_event check_state scan conclude challenge_response_step
    rekey_and_open decode_connect_message_body open_body usable_secret trim trim_start trim_end
    decrypt_connect_body derive_connect_message_key strip_0x rekey_inbound ensure_not_expired
    is_expired create_initial_state compute_shared_secret derive_rekey_root decode_32
answer_found = refl

find_challenge_response_event-Accepted_example :
    (events : List ProfileEvent) × (query 1000 ≡ ok events)
    × Accepted toy_crypto toy_sealing
        (parsing (codes "w2c") challenge_response)
        (codes "w2c")
        challenge_response
        (b's' ∷ [])
        (some (start 1005))
        events
        answered.updated_session_state
find_challenge_response_event-Accepted_example =
    find_challenge_response_event-Accepted toy_crypto toy_sealing
      (parsing (codes "w2c") challenge_response) query (b's' ∷ []) (some (start 1005)) 1000 1011
      answered answer_found

abbrev adding : Profile Bytes
adding = record {
  active_profile = ok (codes "0:9");
  add_context_text = λ text public secret.
      ok (record { message_hash = none; aborted = none; exit_code = some (pos 0) });
}

abbrev normal_keys : SetMiningKeysBody
normal_keys = record {
  app_id = b'0' ∷ b'x' ∷ (replicate 63 b'0' ++ b'f' ∷ []);
  owner_public = replicate 64 b'a';
}

abbrev request_text : Bytes
request_text = write_envelope (
    sealed_envelope (b's' ∷ []) (codes "c2w") 7 set_mining_keys 1010 (some ones) (record {
      ciphertext_b64url = write_keys normal_keys;
      nonce_b64url = replicate 24 7;
      salt_b64url = replicate 32 8;
    }))

abbrev requested : ResultOfRequestSetMiningKeys
requested = record {
  sent = record {
    profile_address = codes "0:9";
    message_id = none;
    raw_message_json = request_text;
    updated_session_state = sent.updated_state;
  };
  app_id = normal_keys.app_id;
  owner_public = normal_keys.owner_public;
}

request_sent :
    request_set_mining_keys toy_crypto toy_sealing wire writing adding
      (b's' ∷ [])
      (start 1000)
      (some 7)
      1010
      (some ones)
      (seeded (some 1010) (replicate 24 7) (replicate 32 8))
      (codes "0xF")
      (replicate 64 b'A')
    ≡ ok requested
unfolding request_set_mining_keys post_message encode_connect_message ensure_tx_success
    next_outbound_seq rekey_outbound ensure_not_expired is_expired create_initial_state
    generate_dh_keypair compute_shared_secret derive_rekey_root decode_32 encrypt_connect_body
    derive_connect_message_key strip_0x trim trim_start trim_end normalize_uint256_hex
    normalize_owner_public_hex to_ascii_lowercase lower pad_64
request_sent = refl

abbrev request_event : ProfileEvent
request_event = record { id = codes "e2"; created_at = 1010; text = request_text; now_secs = 1012 }

abbrev listed : ℕ → Result Bytes (List ProfileEvent)
listed from =
    ok (
      record { id = codes "e1"; created_at = 1009; text = []; now_secs = 1012 }
      ∷ request_event
      ∷ [])

wallet_alive : ensure_not_expired (start 1005) 1012 ≡ ok tt
unfolding ensure_not_expired is_expired create_initial_state
wallet_alive = refl

nothing_there :
    set_mining_keys_step toy_crypto toy_sealing wire
      (some (start 1005))
      (b's' ∷ [])
      (record { id = codes "e1"; created_at = 1009; text = []; now_secs = 1012 })
    ≡ skipped filtered_out
unfolding set_mining_keys_step read_envelope
nothing_there = refl

request_set_mining_keys-found_example :
    (q : ConnectSessionState) × InStep toy_crypto sent.updated_state q
    × (find_set_mining_keys_event toy_crypto toy_sealing wire listed
          (b's' ∷ [])
          (some (start 1005))
          1000
          1011
        ≡ ok (
            some (record {
              event_id = codes "e2";
              event_created_at = 1010;
              app_id = normal_keys.app_id;
              owner_public = normal_keys.owner_public;
              raw_message_json = request_text;
              updated_session_state = some q;
            })))
request_set_mining_keys-found_example =
    request_set_mining_keys-found toy_crypto toy_sealing wire writing adding (b's' ∷ [])
      (codes "0xF") (replicate 64 b'A') (start 1000) (start 1005) (some 7) 1010 ones
      (replicate 24 7) (replicate 32 8) (some 1010) requested listed 1000 1011
      (record { id = codes "e1"; created_at = 1009; text = []; now_secs = 1012 } ∷ []) []
      request_event start-InStep refl refl refl request_sent refl alive wallet_alive refl
      ((filtered_out, nothing_there), tt)
