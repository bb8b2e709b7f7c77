-- ===== src/Tests/Connect.antt =====
-- The theorems on the sessions of bee_connect at a handshake and two messages.
use bee_engine.Base.{
  ℕ, ◌+◌, ◌^◌, ◌<◌, ◌≡◌, refl, true, false, List, [], ◌∷◌, some, ok, arith, is_ok,
}
use bee_engine.Base.Bytes.{Bytes}
use bee_engine.Base.Lists.{replicate}
use bee_engine.Connect.Keys.{
  Crypto, DhKeyPair, DhSessionKeys, generate_dh_keypair, decode_32, compute_shared_secret,
  derive_session_keys, derive_rekey_root,
}
use bee_engine.Connect.Session.{
  ConnectSessionState, RekeyResult, is_expired, ensure_not_expired, next_outbound_seq,
  create_initial_state, rekey_outbound, rekey_inbound,
}
use bee_engine.Connect.Session.Steps.{outbound_result, inbound_result}
use bee_engine.Connect.Session.Ratchet.{InStep, handshake_InStep}
use bee_engine.Connect.Session.Replay.{send, Later, rekeyed, rekeyed-Later, replay_rejected}
use bee_engine.Connect.Session.Conversation.{
  Exchange, Letter, Sound, carry, exchange_one, converse, converse-Sound,
}

abbrev pub ones : Bytes
ones = replicate 32 b'1'

-- Every key, secret and hash is the same 32 digits.
abbrev pub toy_crypto : Crypto
toy_crypto = record {
  hex_encode = λ bytes. bytes;
  hex_decode = λ bytes. some bytes;
  x25519_public = λ secret. ones;
  diffie_hellman = λ secret public. ones;
  ed25519_public = λ secret. ones;
  hkdf = λ salt ikm info. ones;
  decode-encode = λ bytes. refl;
  length-x25519_public = λ secret. refl;
  length-diffie_hellman = λ secret public. refl;
  length-hkdf = λ salt ikm info. refl;
  diffie_hellman_agree = λ a b. refl;
}

abbrev pair : DhKeyPair
pair = record { public_hex = ones; secret_hex = ones }

abbrev keys : DhSessionKeys
keys = record { signing_public_hex = ones; signing_secret_hex = ones; encryption_root_hex = ones }

abbrev pub start : ℕ → ConnectSessionState
start now = create_initial_state keys ones ones now

generated : generate_dh_keypair toy_crypto (some ones) ≡ ok pair
unfolding generate_dh_keypair
generated = refl

shared : compute_shared_secret toy_crypto ones ones ≡ ok ones
unfolding compute_shared_secret decode_32
shared = refl

derived : derive_session_keys toy_crypto ones (b's' ∷ []) ≡ ok keys
unfolding derive_session_keys decode_32
derived = refl

handshake_InStep_example :
    (shared' : Bytes) × (keys' : DhSessionKeys) × (compute_shared_secret toy_crypto ones ones
      ≡ ok shared')
    × (derive_session_keys toy_crypto shared' (b's' ∷ []) ≡ ok keys')
    × InStep toy_crypto
        (create_initial_state keys ones ones 1000)
        (create_initial_state keys' ones ones 1005)
handshake_InStep_example =
    handshake_InStep toy_crypto ones ones (b's' ∷ []) pair pair ones keys 1000 1005 refl refl
      generated generated shared derived

pub start-InStep : InStep toy_crypto (start 1000) (start 1005)
unfolding create_initial_state
start-InStep = record {
  secret = ones;
  peer_secret = ones;
  length-secret = refl;
  length-peer_secret = refl;
  root = refl;
  mine = refl;
  theirs = refl;
  known_there = refl;
  known_here = refl;
  sent = refl;
  seen = refl;
  signing = refl;
}

abbrev pub sent : RekeyResult
sent = outbound_result (start 1000) ones ones 7 ones

pub sends : rekey_outbound toy_crypto (start 1000) (b's' ∷ []) 7 1010 (some ones) ≡ ok sent
unfolding rekey_outbound ensure_not_expired is_expired create_initial_state generate_dh_keypair
    compute_shared_secret derive_rekey_root decode_32
sends = refl

pub alive : ensure_not_expired (start 1005) 1011 ≡ ok tt
unfolding ensure_not_expired is_expired create_initial_state
alive = refl

abbrev letters : List Letter
letters =
    record { from_first = true; random = ones; seq = 7; sent_at = 1010; received_at = 1011 }
    ∷ record { from_first = false; random = ones; seq = 3; sent_at = 1012; received_at = 1013 }
    ∷ []

abbrev opening : Exchange
opening = record {
  first = start 1000;
  second = start 1005;
  encrypted_with = [];
  decrypted_with = [];
}

abbrev closing : Exchange
closing = record {
  first = record (start 1000) { last_sent_seq = 7; last_seen_seq = 3 };
  second = record (start 1005) { last_seen_seq = 7; last_sent_seq = 3 };
  encrypted_with = ones ∷ ones ∷ [];
  decrypted_with = ones ∷ ones ∷ [];
}

conversed : converse toy_crypto (b's' ∷ []) opening letters ≡ ok closing
unfolding converse exchange_one carry rekey_outbound rekey_inbound ensure_not_expired is_expired
    create_initial_state generate_dh_keypair compute_shared_secret derive_rekey_root decode_32
conversed = refl

converse-Sound_example : Sound toy_crypto (b's' ∷ []) closing
converse-Sound_example =
    converse-Sound toy_crypto (b's' ∷ []) opening letters closing
      (record { in_step = start-InStep; same_roots = refl }) (refl, (refl, tt)) conversed

abbrev got : RekeyResult
got = inbound_result (start 1005) ones 7 ones

receives : rekey_inbound toy_crypto (start 1005) ones (b's' ∷ []) 7 1011 ≡ ok got
unfolding rekey_inbound ensure_not_expired is_expired create_initial_state compute_shared_secret
    derive_rekey_root decode_32
receives = refl

replay_rejected_example :
    is_ok (
      rekey_inbound toy_crypto
        (rekeyed toy_crypto (b's' ∷ []) got.updated_state (send 3 1012 (some ones) ∷ []))
        ones
        (b's' ∷ [])
        7
        1013)
    ≡ false
replay_rejected_example =
    replay_rejected toy_crypto (b's' ∷ []) (start 1005) ones 7 1011 got
      (send 3 1012 (some ones) ∷ []) ones 7 1013 receives (omega arith)

rekeyed-Later_example :
    Later (start 1000) (rekeyed toy_crypto (b's' ∷ []) (start 1000) (send 3 1012 (some ones) ∷ []))
rekeyed-Later_example =
    rekeyed-Later toy_crypto (b's' ∷ []) (start 1000) (send 3 1012 (some ones) ∷ [])

ends : (start 1000).expires_at ≡ 87400
unfolding create_initial_state
ends = refl

proposed : next_outbound_seq (start 1000) (some 5) ≡ ok 5
unfolding next_outbound_seq create_initial_state
proposed = refl

unsent : (start 1000).last_sent_seq + 1 < 2 ^ 64
unfolding create_initial_state
unsent = omega arith
