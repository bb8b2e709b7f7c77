-- ===== src/Connect/Session/Steps.antt =====
-- What a re-keying that succeeds went through, and the conditions under which one succeeds.
use bee_engine.Base.{
  ℕ, ◌≡◌, refl, Bool, true, false, none, some, Result, ok, err, ◌>>=◌, ◌>>◌, fail_if, ◌==◌, leb,
  arith, >>=-eq-ok,
}
use bee_engine.Base.Bytes.{Bytes}
use bee_engine.Connect.Keys.{
  Crypto, DhError, outbound_seq_zero, seq_not_increasing, incoming_seq_zero, replay_detected,
  generate_dh_keypair, compute_shared_secret, derive_rekey_root,
}
use bee_engine.Connect.Session.{
  ConnectSessionState, RekeyResult, ensure_not_expired, rekey_outbound, rekey_inbound,
}

abbrev pub outbound_result : ConnectSessionState → Bytes → Bytes → ℕ → Bytes → RekeyResult
outbound_result s public secret seq root = record {
  message_encryption_root = root;
  new_dh_public = some public;
  updated_state = record s { encryption_root = root; my_dh_secret = secret; last_sent_seq = seq };
  outbound_seq = seq;
}

abbrev pub inbound_result : ConnectSessionState → Bytes → ℕ → Bytes → RekeyResult
inbound_result s public seq root = record {
  message_encryption_root = root;
  new_dh_public = none;
  updated_state = record s { encryption_root = root; peer_dh_public = public; last_seen_seq = seq };
  outbound_seq = 0;
}

rekey_parts :
    (alive : Result DhError (Unit {0})) (zero' stale : Bool) (e f : DhError)
    (share : Result DhError Bytes) (derive : Bytes → Result DhError Bytes)
    (make : Bytes → RekeyResult) (r : RekeyResult)
    → (alive
        >> (fail_if zero' e
            >> (fail_if stale f >> (share >>= λ shared. derive shared >>= λ root. ok (make root)))))
      ≡ ok r
    → (shared : Bytes) × (root : Bytes) × (alive ≡ ok tt)
      × (zero' ≡ false)
      × (stale ≡ false)
      × (share ≡ ok shared)
      × (derive shared ≡ ok root)
      × (make root ≡ r)
rekey_parts (err x) zero' stale e f share derive make r h = cc
rekey_parts (ok u) true stale e f share derive make r h = cc
rekey_parts (ok u) false true e f share derive make r h = cc
rekey_parts (ok u) false false e f (err x) derive make r h = cc
rekey_parts (ok u) false false e f (ok shared) derive make r h =
    let (root, derived, made) = >>=-eq-ok (derive shared) (λ root. ok (make root)) h in
    (shared, root, refl, refl, refl, refl, derived, ground (arith, made))

module _ (k : Crypto) where
  pub outbound_parts :
      (s : ConnectSessionState) (session_id : Bytes) (seq now : ℕ) (random : Bytes)
      (r : RekeyResult)
      → rekey_outbound k s session_id seq now (some random) ≡ ok r
      → (shared : Bytes) × (root : Bytes) × (ensure_not_expired s now ≡ ok tt)
        × ((seq == 0) ≡ false)
        × (leb seq s.last_sent_seq ≡ false)
        × (compute_shared_secret k (k.hex_encode random) s.peer_dh_public ≡ ok shared)
        × (derive_rekey_root k s.encryption_root shared session_id ≡ ok root)
        × (outbound_result s (k.hex_encode (k.x25519_public random)) (k.hex_encode random) seq root
            ≡ r)
  unfolding rekey_outbound generate_dh_keypair
  outbound_parts s session_id seq now random r h =
      rekey_parts (ensure_not_expired s now) (seq == 0) (leb seq s.last_sent_seq) outbound_seq_zero
        seq_not_increasing (compute_shared_secret k (k.hex_encode random) s.peer_dh_public)
        (λ x. derive_rekey_root k s.encryption_root x session_id)
        (outbound_result s (k.hex_encode (k.x25519_public random)) (k.hex_encode random) seq) r h

  pub outbound_needs_random :
      (s : ConnectSessionState) (session_id : Bytes) (seq now : ℕ) (r : RekeyResult)
      → rekey_outbound k s session_id seq now none ≡ ok r
      → ⊥
  unfolding rekey_outbound generate_dh_keypair
  outbound_needs_random s session_id seq now r h = ground arith

  pub inbound_parts :
      (s : ConnectSessionState) (public session_id : Bytes) (seq now : ℕ) (r : RekeyResult)
      → rekey_inbound k s public session_id seq now ≡ ok r
      → (shared : Bytes) × (root : Bytes) × (ensure_not_expired s now ≡ ok tt)
        × ((seq == 0) ≡ false)
        × (leb seq s.last_seen_seq ≡ false)
        × (compute_shared_secret k s.my_dh_secret public ≡ ok shared)
        × (derive_rekey_root k s.encryption_root shared session_id ≡ ok root)
        × (inbound_result s public seq root ≡ r)
  unfolding rekey_inbound
  inbound_parts s public session_id seq now r h =
      rekey_parts (ensure_not_expired s now) (seq == 0) (leb seq s.last_seen_seq) incoming_seq_zero
        replay_detected (compute_shared_secret k s.my_dh_secret public)
        (λ x. derive_rekey_root k s.encryption_root x session_id) (inbound_result s public seq) r h

  pub inbound_complete :
      (s : ConnectSessionState) (public session_id : Bytes) (seq now : ℕ) (shared root : Bytes)
      → ensure_not_expired s now ≡ ok tt
      → (seq == 0) ≡ false
      → leb seq s.last_seen_seq ≡ false
      → compute_shared_secret k s.my_dh_secret public ≡ ok shared
      → derive_rekey_root k s.encryption_root shared session_id ≡ ok root
      → rekey_inbound k s public session_id seq now ≡ ok (inbound_result s public seq root)
  unfolding rekey_inbound
  inbound_complete s public session_id seq now shared root alive nonzero fresh share derived =
      rw (alive, nonzero, fresh, share, derived) refl
