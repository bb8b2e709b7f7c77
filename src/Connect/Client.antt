-- ===== src/Connect/Client.antt =====
-- bee_connect/src/client.rs: the events of a profile, searched for a message of a session. JSON is an
-- argument; the texts of errors are left out. The searches themselves are in Search.
pub mod Search
pub mod Sending
use bee_engine.Base.{
  ℕ, suc, ◌+◌, Bool, true, false, not, ◌&&◌, ◌||◌, List, [], ◌∷◌, Option, none, some, Result, ok,
  err, ◌>>=◌, ◌>>◌, fail_if, map_err, ok_or, ◌==◌, ltb, if◌then◌else◌,
}
use bee_engine.Base.Bytes.{Bytes, bytes_eq}
use bee_engine.Base.Lists.{is_empty, any}
use bee_engine.Base.Text.{codes, trim}
use bee_engine.Connect.Keys.{Crypto, DhError, compute_shared_secret, derive_session_keys}
use bee_engine.Connect.Messages.{
  Sealing, MessageError, decrypt_connect_body, normalize_uint256_hex, normalize_owner_public_hex,
}
use bee_engine.Connect.Session.{
  ConnectSessionState, RekeyResult, ensure_not_expired, rekey_inbound, create_initial_state,
}

abbrev pub connect_message_version : Bytes
connect_message_version = codes "bee_connect.msg/1"

abbrev pub enc_none : Bytes
enc_none = codes "none"

abbrev pub enc_xchacha : Bytes
enc_xchacha = codes "xchacha20poly1305-hkdf-sha256"

pub record ConnectMessageEnc : Type 0 where
  pub alg : Bytes
  pub nonce : Option Bytes
  pub salt : Option Bytes

-- The body is kept if it is a text.
pub record ConnectMessageEnvelope : Type 0 where
  pub v : Bytes
  pub session_id : Bytes
  pub dir : Bytes
  pub seq : ℕ
  pub msg_type : Bytes
  pub ts : Option ℕ
  pub dh_public : Option Bytes
  pub enc : Option ConnectMessageEnc
  pub body : Option Bytes

-- An event of the profile, with the clock when the search comes to it.
pub record ProfileEvent : Type 0 where
  pub id : Bytes
  pub created_at : ℕ
  pub text : Bytes
  pub now_secs : ℕ

pub record WalletHelloBody : Type 0 where
  pub wallet_name : Bytes
  pub wallet_address : Bytes
  pub nonce : Option Bytes
  pub signature : Option Bytes
  pub epk_public : Option Bytes

pub record SetMiningKeysBody : Type 0 where
  pub app_id : Bytes
  pub owner_public : Bytes

pub record ChallengeResponseBody : Type 0 where
  pub nonce : Bytes
  pub signature : Bytes
  pub wallet_address : Bytes
  pub epk_public : Option Bytes

-- What is read from JSON and written to it.
pub record Parsing (Json : Type 0) : Type 0 where
  pub envelope_of : Bytes → Option ConnectMessageEnvelope
  pub json_of : Bytes → Option Json
  pub wallet_hello_of : Json → Option WalletHelloBody
  pub set_mining_keys_of : Json → Option SetMiningKeysBody
  pub challenge_response_of : Json → Option ChallengeResponseBody
  pub connect_message_aad :
      (session_id dir : Bytes) (seq : ℕ) (msg_type : Bytes) (ts : ℕ) → Option Bytes

pub data Failure : Type 0 where
  parse_failure filtered_out no_dh_public dh_failure rekey_failure decrypt_failure
        body_parse_failure unanswered :
      Failure

-- Why a body is not read.
pub data BodyError : Type 0 where
  unencrypted misses_enc misses_nonce misses_salt not_text misses_ts no_aad not_json : BodyError
  not_opened : MessageError → BodyError

pub data ClientError (E : Type 0) : Type 0 where
  expired : DhError → ClientError E
  query_failed : E → ClientError E
  none_succeeded : (session_desync : Bool) → List Failure → ClientError E

-- What a search makes of an event.
pub data Outcome (A : Type 0) : Type 0 where
  skipped : Failure → Outcome A
  found : A → Outcome A

pub record WalletHelloFound : Type 0 where
  pub event_id : Bytes
  pub event_created_at : ℕ
  pub hello : WalletHelloBody
  pub raw_message_json : Bytes
  pub session_state : ConnectSessionState

pub record SetMiningKeysFound : Type 0 where
  pub event_id : Bytes
  pub event_created_at : ℕ
  pub app_id : Bytes
  pub owner_public : Bytes
  pub raw_message_json : Bytes
  pub updated_session_state : Option ConnectSessionState

pub record ChallengeResponseFound : Type 0 where
  pub event_id : Bytes
  pub event_created_at : ℕ
  pub response : ChallengeResponseBody
  pub raw_message_json : Bytes
  pub updated_session_state : Option ConnectSessionState

abbrev pub algorithm : Option ConnectMessageEnc → Bytes
algorithm none = enc_none
algorithm (some enc) = enc.alg

-- `map(str::trim).filter(|v| !v.is_empty())`
unfoldable pub usable_secret : Option Bytes → Option Bytes
usable_secret none = none
usable_secret (some secret) = if is_empty (trim secret) then none else some (trim secret)

-- The loop: what it finds, and why it went past the events before that.
unfoldable pub scan {ℓ} :
    {R : Type ℓ} {A : Type 0} → (R → Outcome A) → List R → Option A × List Failure
scan step [] = (none, [])
scan step (r ∷ rs) =
    let rest = scan step rs in
    elim (step r) [ found a ↦ (some a, []) | skipped why ↦ (rest.0, why ∷ rest.1) ]

-- The last lines of a search, by the failures that it counts.
unfoldable pub conclude :
    {A E : Type 0}
    → (counts : Failure → Bool) (desync : Failure → Bool) → Option A × List Failure
    → Result (ClientError E) (Option A)
conclude counts desync (some a, why) = ok (some a)
conclude counts desync (none, why) =
    if any counts why then err (none_succeeded (any desync why) why) else ok none

abbrev pub is_for : (session_id dir : Bytes) → ConnectMessageEnvelope → Bool
is_for session_id dir envelope =
    bytes_eq envelope.v connect_message_version
    && bytes_eq envelope.session_id session_id
    && bytes_eq envelope.dir dir

module _ (k : Crypto) (seal : Sealing) {Json : Type 0} (parse : Parsing Json) where
  unfoldable pub open_body :
      ConnectMessageEnvelope → ConnectMessageEnc → (secret : Bytes) → Result BodyError Json
  open_body envelope enc secret = do
    nonce ← ok_or enc.nonce misses_nonce
    salt ← ok_or enc.salt misses_salt
    ciphertext ← ok_or envelope.body not_text
    ts ← ok_or envelope.ts misses_ts
    aad ←
        ok_or
          (parse.connect_message_aad envelope.session_id envelope.dir envelope.seq envelope.msg_type
            ts)
          no_aad
    plaintext ← map_err not_opened (decrypt_connect_body k seal ciphertext nonce salt secret aad)
    ok_or (parse.json_of plaintext) not_json

  unfoldable pub decode_connect_message_body :
      ConnectMessageEnvelope → (encryption_secret : Option Bytes) → Result BodyError (Option Json)
  decode_connect_message_body envelope encryption_secret =
      if bytes_eq (algorithm envelope.enc) enc_none
      then err unencrypted
      else (if not (bytes_eq (algorithm envelope.enc) enc_xchacha)
          then ok none
          else elim (usable_secret encryption_secret) [
            | none ↦ ok none
            | some secret ↦ ok_or envelope.enc misses_enc >>= λ enc.
                open_body envelope enc secret >>= λ body. ok (some body)
          ])

  -- The re-keying and decryption of a message; the new state is used only if both succeed.
  unfoldable pub rekey_and_open :
      {A : Type 0}
      → (session_state : Option ConnectSessionState) (session_id : Bytes) (now_secs : ℕ)
      → ConnectMessageEnvelope
      → (Json → RekeyResult → Outcome A)
      → Outcome A
  rekey_and_open none session_id now_secs envelope finish = skipped unanswered
  rekey_and_open (some state) session_id now_secs envelope finish = elim envelope.dh_public [
    | none ↦ skipped unanswered
    | some peer_dh_pub ↦ elim (rekey_inbound k state peer_dh_pub session_id envelope.seq now_secs) [
      | err _ ↦ skipped rekey_failure
      | ok rekey ↦
          elim (decode_connect_message_body envelope (some rekey.message_encryption_root)) [
            | err _ ↦ skipped decrypt_failure
            | ok none ↦ skipped decrypt_failure
            | ok (some value) ↦ finish value rekey
          ]
    ]
  ]
