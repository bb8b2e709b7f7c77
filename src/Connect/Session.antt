-- ===== src/Connect/Session.antt =====
-- bee_connect/src/dh.rs: `ConnectSessionState` and its two re-keyings.
-- The clock's readings are arguments. A sum of two u64 values wraps, as in a release build.
pub mod Steps
pub mod Ratchet
pub mod Conversation
pub mod Replay
use bee_engine.Base.{
  ℕ, ◌+◌, ◌*◌, ◌%◌, ◌^◌, ◌≡◌, Bool, true, false, List, [], ◌∷◌, Option, none, some, Result, ok, err,
  ◌>>=◌, ◌>>◌, fail_if, ok_or, ◌==◌, leb, if◌then◌else◌, max,
}
use bee_engine.Base.Bytes.{Bytes}
use bee_engine.Connect.Keys.{
  Crypto, DhError, session_expired, outbound_seq_zero, seq_not_increasing, incoming_seq_zero,
  replay_detected, clock_failed, DhSessionKeys, generate_dh_keypair, compute_shared_secret,
  derive_rekey_root,
}

abbrev pub default_session_ttl_secs : ℕ
default_session_ttl_secs = 24 * 60 * 60

pub record ConnectSessionState : Type 0 where
  pub encryption_root : Bytes
  pub my_dh_secret : Bytes
  pub peer_dh_public : Bytes
  pub signing_public : Bytes
  pub signing_secret : Bytes
  pub created_at : ℕ
  pub expires_at : ℕ
  pub last_seen_seq : ℕ
  pub last_sent_seq : ℕ

pub record RekeyResult : Type 0 where
  pub message_encryption_root : Bytes
  pub new_dh_public : Option Bytes
  pub updated_state : ConnectSessionState
  pub outbound_seq : ℕ

unfoldable pub is_expired : ConnectSessionState → ℕ → Bool
is_expired s now_secs = if s.expires_at == 0 then false else leb s.expires_at now_secs

unfoldable pub ensure_not_expired : ConnectSessionState → ℕ → Result DhError (Unit {0})
ensure_not_expired s now_secs = fail_if (is_expired s now_secs) session_expired

-- The clock may fail.
unfoldable pub next_outbound_seq : ConnectSessionState → Option ℕ → Result DhError ℕ
next_outbound_seq s now_millis = do
  now ← ok_or now_millis clock_failed
  ok (max now ((s.last_sent_seq + 1) % 2 ^ 64))

unfoldable pub create_initial_state : DhSessionKeys → Bytes → Bytes → ℕ → ConnectSessionState
create_initial_state session_keys my_dh_secret_hex peer_dh_public_hex now_secs = record {
  encryption_root = session_keys.encryption_root_hex;
  my_dh_secret = my_dh_secret_hex;
  peer_dh_public = peer_dh_public_hex;
  signing_public = session_keys.signing_public_hex;
  signing_secret = session_keys.signing_secret_hex;
  created_at = now_secs;
  expires_at = (now_secs + default_session_ttl_secs) % 2 ^ 64;
  last_seen_seq = 0;
  last_sent_seq = 0;
}

module _ (k : Crypto) where
  -- `random` is what `getrandom` gives for the new key pair.
  unfoldable pub rekey_outbound :
      ConnectSessionState
      → Bytes
      → ℕ
      → (now_secs : ℕ) → (random : Option Bytes) → Result DhError RekeyResult
  rekey_outbound s session_id outbound_seq now_secs random = do
    ensure_not_expired s now_secs
    fail_if (outbound_seq == 0) outbound_seq_zero
    fail_if (leb outbound_seq s.last_sent_seq) seq_not_increasing
    new_dh ← generate_dh_keypair k random
    shared ← compute_shared_secret k new_dh.secret_hex s.peer_dh_public
    new_root ← derive_rekey_root k s.encryption_root shared session_id
    ok (record {
      message_encryption_root = new_root;
      new_dh_public = some new_dh.public_hex;
      updated_state = record s {
        encryption_root = new_root;
        my_dh_secret = new_dh.secret_hex;
        last_sent_seq = outbound_seq;
      };
      outbound_seq = outbound_seq;
    })

  unfoldable pub rekey_inbound :
      ConnectSessionState → Bytes → Bytes → ℕ → (now_secs : ℕ) → Result DhError RekeyResult
  rekey_inbound s peer_new_dh_public session_id incoming_seq now_secs = do
    ensure_not_expired s now_secs
    fail_if (incoming_seq == 0) incoming_seq_zero
    fail_if (leb incoming_seq s.last_seen_seq) replay_detected
    shared ← compute_shared_secret k s.my_dh_secret peer_new_dh_public
    new_root ← derive_rekey_root k s.encryption_root shared session_id
    ok (record {
      message_encryption_root = new_root;
      new_dh_public = none;
      updated_state = record s {
        encryption_root = new_root;
        peer_dh_public = peer_new_dh_public;
        last_seen_seq = incoming_seq;
      };
      outbound_seq = 0;
    })
