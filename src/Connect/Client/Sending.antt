-- ===== src/Connect/Client/Sending.antt =====
-- bee_connect/src/client.rs: the messages that the application sends. The contracts, JSON and the random
-- bytes are arguments.
pub mod Delivered
pub mod Sealed
use bee_engine.Base.{
  ℕ, Bool, true, false, ◌≡◌, Option, none, some, Result, ok, err, ◌>>=◌, ◌>>◌, fail_if, map_err,
  ok_or, not, ◌||◌, ◌==◌, if◌then◌else◌,
}
use bee_engine.Base.Bytes.{Bytes}
use bee_engine.Base.Lists.{is_empty}
use bee_engine.Base.Text.{codes, trim}
use bee_engine.Connect.Client.{
  ConnectMessageEnvelope, SetMiningKeysBody, Parsing, connect_message_version, enc_xchacha,
  usable_secret,
}
use bee_engine.Connect.Client.Search.{set_mining_keys}
use bee_engine.Connect.Keys.{Crypto, DhError}
use bee_engine.Connect.Messages.{
  Sealing, MessageError, EncryptedConnectBody, encrypt_connect_body, normalize_uint256_hex,
  normalize_owner_public_hex,
}
use bee_engine.Connect.Session.{ConnectSessionState, RekeyResult, next_outbound_seq, rekey_outbound}

-- What JSON is written, each kind of which is read back.
pub record Writing {Json : Type 0} (parse : Parsing Json) : Type 0 where
  pub json_bytes : Json → Option Bytes
  pub envelope_text : ConnectMessageEnvelope → Option Bytes
  pub set_mining_keys_value : SetMiningKeysBody → Option Json
  pub sign_challenge_value : (nonce : Bytes) → Option Json
  pub reason_value : Option Bytes → Json
  pub json_of-json_bytes :
      (json : Json) (bytes : Bytes) → json_bytes json ≡ some bytes → parse.json_of bytes ≡ some json
  pub envelope_of-envelope_text :
      (envelope : ConnectMessageEnvelope) (text : Bytes)
      → envelope_text envelope ≡ some text
      → parse.envelope_of text ≡ some envelope
  pub set_mining_keys_of-value :
      (body : SetMiningKeysBody) (json : Json)
      → set_mining_keys_value body ≡ some json
      → parse.set_mining_keys_of json ≡ some body

pub data SendError (E : Type 0) : Type 0 where
  empty_session_id empty_dir empty_type no_clock no_aad_bytes no_secret not_written empty_nonce
        tx_failed :
      SendError E
  not_encrypted not_normal : MessageError → SendError E
  not_rekeyed : DhError → SendError E
  network_failed : E → SendError E

-- What a message is sealed with beside its secret: the clock and what `getrandom` gives.
pub record Seeds : Type 0 where
  pub now_secs : Option ℕ
  pub nonce : Option Bytes
  pub salt : Option Bytes

abbrev pub seeded : (now_secs : Option ℕ) (nonce salt : Bytes) → Seeds
seeded now_secs nonce salt = record { now_secs = now_secs; nonce = some nonce; salt = some salt }

-- The version of the integers over the native natural numbers.
pub data ℤ : Type 0 where
  pos negsuc : ℕ → ℤ

pub record ResultOfSendMessage : Type 0 where
  pub message_hash : Option Bytes
  pub aborted : Option Bool
  pub exit_code : Option ℤ

-- The profile of the session, once it is active, and the transaction that adds a text to it, signed with
-- a key pair.
pub record Profile (E : Type 0) : Type 0 where
  pub active_profile : Result E Bytes
  pub add_context_text : Bytes → (public secret : Bytes) → Result E ResultOfSendMessage

-- What was sent, and the state of the session afterwards.
pub record Sent : Type 0 where
  pub profile_address : Bytes
  pub message_id : Option Bytes
  pub raw_message_json : Bytes
  pub updated_session_state : ConnectSessionState

pub record ResultOfRequestSetMiningKeys : Type 0 where
  pub sent : Sent
  pub app_id : Bytes
  pub owner_public : Bytes

pub record ResultOfRequestSignChallenge : Type 0 where
  pub sent : Sent
  pub nonce : Bytes
  pub sent_at : ℕ

abbrev pub client_disconnect : Bytes
client_disconnect = codes "client_disconnect"

abbrev pub sign_challenge : Bytes
sign_challenge = codes "sign_challenge"

abbrev is_positive : Option ℤ → Bool
is_positive (some (pos n)) = not (n == 0)
is_positive (some (negsuc n)) = false
is_positive none = false

abbrev is_set : Option Bool → Bool
is_set none = false
is_set (some b) = b

unfoldable pub ensure_tx_success :
    {E : Type 0} → ResultOfSendMessage → Result (SendError E) ResultOfSendMessage
ensure_tx_success result =
    if is_set result.aborted || is_positive result.exit_code then err tx_failed else ok result

unfoldable pub sealed_envelope :
    (session_id dir : Bytes) (seq : ℕ) (msg_type : Bytes) (ts : ℕ) (dh_public : Option Bytes)
    → EncryptedConnectBody
    → ConnectMessageEnvelope
sealed_envelope session_id dir seq msg_type ts dh_public encrypted = record {
  v = connect_message_version;
  session_id = session_id;
  dir = dir;
  seq = seq;
  msg_type = msg_type;
  ts = some ts;
  dh_public = dh_public;
  enc = some (record {
    alg = enc_xchacha;
    nonce = some encrypted.nonce_b64url;
    salt = some encrypted.salt_b64url;
  });
  body = some encrypted.ciphertext_b64url;
}

module _ (k : Crypto) (seal : Sealing) {Json : Type 0} (parse : Parsing Json)
    (write : Writing parse) where
  unfoldable pub encode_connect_message :
      {E : Type 0} (session_id dir : Bytes) (seq : ℕ) (msg_type : Bytes) (body : Json)
      (encryption_secret dh_public : Option Bytes)
      → Seeds
      → Result (SendError E) Bytes
  encode_connect_message session_id dir seq msg_type body encryption_secret dh_public seeds = do
    fail_if (is_empty (trim session_id)) empty_session_id
    fail_if (is_empty (trim dir)) empty_dir
    fail_if (is_empty (trim msg_type)) empty_type
    ts ← ok_or seeds.now_secs no_clock
    aad ← ok_or (parse.connect_message_aad session_id dir seq msg_type ts) no_aad_bytes
    secret ← ok_or encryption_secret no_secret
    encrypted ←
        map_err not_encrypted
          (encrypt_connect_body k seal (write.json_bytes body) secret aad seeds.nonce seeds.salt)
    ok_or (write.envelope_text (sealed_envelope session_id dir seq msg_type ts dh_public encrypted))
        not_written

  module _ {E : Type 0} (profile : Profile E) (session_id : Bytes)
      (session_state : ConnectSessionState) (now_millis : Option ℕ) (now_secs : ℕ)
      (random : Option Bytes) (seeds : Seeds) where
    -- What the requests have in common, from the sequence number on.
    unfoldable pub post_message :
        (profile_address msg_type : Bytes) → Json → Result (SendError E) Sent
    unfolding encode_connect_message
    post_message profile_address msg_type body = do
      seq ← map_err not_rekeyed (next_outbound_seq session_state now_millis)
      rekey ← map_err not_rekeyed (rekey_outbound k session_state session_id seq now_secs random)
      raw ←
          encode_connect_message session_id (codes "c2w") rekey.outbound_seq msg_type body
            (some rekey.message_encryption_root) rekey.new_dh_public seeds
      sent ←
          map_err network_failed
            (profile.add_context_text raw session_state.signing_public session_state.signing_secret)
      receipt ← ensure_tx_success sent
      ok (record {
        profile_address = profile_address;
        message_id = receipt.message_hash;
        raw_message_json = raw;
        updated_session_state = rekey.updated_state;
      })

    unfoldable pub request_set_mining_keys :
        (app_id owner_public : Bytes) → Result (SendError E) ResultOfRequestSetMiningKeys
    request_set_mining_keys app_id owner_public = do
      fail_if (is_empty (trim session_id)) empty_session_id
      app ← map_err not_normal (normalize_uint256_hex app_id)
      owner ← map_err not_normal (normalize_owner_public_hex owner_public)
      profile_address ← map_err network_failed profile.active_profile
      body ←
          ok_or (write.set_mining_keys_value (record { app_id = app; owner_public = owner }))
            not_written
      sent ← post_message profile_address set_mining_keys body
      ok (record { sent = sent; app_id = app; owner_public = owner })

    unfoldable pub request_sign_challenge :
        (nonce : Bytes) (clock_after : Option ℕ) → Result (SendError E) ResultOfRequestSignChallenge
    request_sign_challenge nonce clock_after = do
      fail_if (is_empty (trim session_id)) empty_session_id
      fail_if (is_empty (trim nonce)) empty_nonce
      profile_address ← map_err network_failed profile.active_profile
      body ← ok_or (write.sign_challenge_value nonce) not_written
      sent ← post_message profile_address sign_challenge body
      sent_at ← ok_or clock_after no_clock
      ok (record { sent = sent; nonce = nonce; sent_at = sent_at })

    unfoldable pub disconnect_session : (reason : Option Bytes) → Result (SendError E) Sent
    disconnect_session reason = do
      fail_if (is_empty (trim session_id)) empty_session_id
      profile_address ← map_err network_failed profile.active_profile
      post_message profile_address client_disconnect (write.reason_value (usable_secret reason))
