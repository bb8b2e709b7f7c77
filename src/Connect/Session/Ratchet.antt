-- ===== src/Connect/Session/Ratchet.antt =====
-- The two ends of a session stay in step while each message is received before the next is sent.
use bee_engine.Base.{ℕ, ◌≡◌, refl, sym, ap, false, some, ok, arith, leb, subst}
use bee_engine.Base.Bytes.{Bytes}
use bee_engine.Base.Lists.{length}
use bee_engine.Connect.Keys.{
  Crypto, DhKeyPair, DhSessionKeys, generate_dh_keypair, compute_shared_secret, derive_session_keys,
  derive_rekey_root, compute_shared_secret-agree,
}
use bee_engine.Connect.Session.{
  ConnectSessionState, RekeyResult, ensure_not_expired, create_initial_state, rekey_outbound,
  rekey_inbound,
}
use bee_engine.Connect.Session.Steps.{inbound_result, outbound_parts, inbound_complete}

module _ (k : Crypto) where
  -- One end's key is the other end's known peer, both ways, under one root; what one end has sent the
  -- other has seen.
  pub record InStep (s t : ConnectSessionState) : Type 0 where
    pub secret : Bytes
    pub peer_secret : Bytes
    pub length-secret : length secret ≡ 32
    pub length-peer_secret : length peer_secret ≡ 32
    pub root : s.encryption_root ≡ t.encryption_root
    pub mine : s.my_dh_secret ≡ k.hex_encode secret
    pub theirs : t.my_dh_secret ≡ k.hex_encode peer_secret
    pub known_there : t.peer_dh_public ≡ k.hex_encode (k.x25519_public secret)
    pub known_here : s.peer_dh_public ≡ k.hex_encode (k.x25519_public peer_secret)
    pub sent : s.last_sent_seq ≡ t.last_seen_seq
    pub seen : t.last_sent_seq ≡ s.last_seen_seq
    pub signing : s.signing_public ≡ t.signing_public

  pub InStep-sym : (s t : ConnectSessionState) → InStep s t → InStep t s
  InStep-sym s t v = record {
    secret = v.peer_secret;
    peer_secret = v.secret;
    length-secret = v.length-peer_secret;
    length-peer_secret = v.length-secret;
    root = sym v.root;
    mine = v.theirs;
    theirs = v.mine;
    known_there = v.known_here;
    known_here = v.known_there;
    sent = v.seen;
    seen = v.sent;
    signing = sym v.signing;
  }

  -- The handshake: both ends generate a key pair, compute the shared secret from the other's public
  -- half, derive the session's keys and build their states, each at its own time.
  pub handshake_InStep :
      (a b session_id : Bytes) (ka kb : DhKeyPair) (shared : Bytes) (keys : DhSessionKeys)
      (now now' : ℕ)
      → length a ≡ 32
      → length b ≡ 32
      → generate_dh_keypair k (some a) ≡ ok ka
      → generate_dh_keypair k (some b) ≡ ok kb
      → compute_shared_secret k ka.secret_hex kb.public_hex ≡ ok shared
      → derive_session_keys k shared session_id ≡ ok keys
      → (shared' : Bytes) × (keys' : DhSessionKeys) × (compute_shared_secret k kb.secret_hex
            ka.public_hex
          ≡ ok shared')
        × (derive_session_keys k shared' session_id ≡ ok keys')
        × InStep
            (create_initial_state keys ka.secret_hex kb.public_hex now)
            (create_initial_state keys' kb.secret_hex ka.public_hex now')
  unfolding generate_dh_keypair create_initial_state
  handshake_InStep a b session_id ka kb shared keys now now' la lb ea eb es ek =
      let pa : k.hex_encode (k.x25519_public a) ≡ ka.public_hex = ground arith in
      let sa : k.hex_encode a ≡ ka.secret_hex = ground arith in
      let pb : k.hex_encode (k.x25519_public b) ≡ kb.public_hex = ground arith in
      let sb : k.hex_encode b ≡ kb.secret_hex = ground arith in
      let agree = compute_shared_secret-agree k a b la lb in
      (
        shared,
        keys,
        ground (arith, agree),
        ek,
        record {
          secret = a;
          peer_secret = b;
          length-secret = la;
          length-peer_secret = lb;
          root = refl;
          mine = sym sa;
          theirs = sym sb;
          known_there = sym pa;
          known_here = sym pb;
          sent = refl;
          seen = refl;
          signing = refl;
        },
      )

  -- A message that one end sends is accepted by the other, if that end's clock says that its session
  -- has not expired: the other derives the root the message was encrypted with, and the two ends are
  -- in step again.
  pub message_received :
      (s t : ConnectSessionState) (session_id random : Bytes) (seq now now' : ℕ) (r : RekeyResult)
      → InStep s t
      → length random ≡ 32
      → rekey_outbound k s session_id seq now (some random) ≡ ok r
      → ensure_not_expired t now' ≡ ok tt
      → (public : Bytes) × (q : RekeyResult) × (r.new_dh_public ≡ some public)
        × (rekey_inbound k t public session_id seq now' ≡ ok q)
        × (q.message_encryption_root ≡ r.message_encryption_root)
        × InStep r.updated_state q.updated_state
  message_received s t session_id random seq now now' r v size sent alive =
      let (shared, root, _, nonzero, fresh, share, derived, made) =
        outbound_parts k s session_id seq now random r sent in
      let share' : compute_shared_secret k t.my_dh_secret (k.hex_encode (k.x25519_public random))
          ≡ ok shared =
        ground
          (arith, compute_shared_secret-agree k random v.peer_secret size v.length-peer_secret) in
      let derived' : derive_rekey_root k t.encryption_root shared session_id ≡ ok root =
        ground arith in
      let fresh' : leb seq t.last_seen_seq ≡ false = ground arith in
      let public = k.hex_encode (k.x25519_public random) in
      (
        public,
        inbound_result t public seq root,
        ap (λ x. x.new_dh_public) (sym made),
        inbound_complete k t public session_id seq now' shared root alive nonzero fresh' share'
            derived',
        ap (λ x. x.message_encryption_root) made,
        subst (λ x. InStep x.updated_state (inbound_result t public seq root).updated_state) made
            (record {
              secret = random;
              peer_secret = v.peer_secret;
              length-secret = size;
              length-peer_secret = v.length-peer_secret;
              root = refl;
              mine = refl;
              theirs = v.theirs;
              known_there = refl;
              known_here = v.known_here;
              sent = refl;
              seen = v.seen;
              signing = v.signing;
            }),
      )
