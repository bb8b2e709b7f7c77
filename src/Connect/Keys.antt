-- ===== src/Connect/Keys.antt =====
-- bee_connect/src/dh.rs: key pairs, the shared secret, and what is derived from it.
-- A key is passed on as the hex text of its bytes. The texts of the errors are left out.
use bee_engine.Base.{
  ◌≡◌, not, [], ◌∷◌, ◌++◌, Option, none, some, Result, ok, err, ◌>>=◌, ◌>>◌, fail_if, ok_or, ◌==◌,
  arith, refl,
}
use bee_engine.Base.Bytes.{Bytes}
use bee_engine.Base.Lists.{length, all}

-- The crates hex, x25519_dalek, ed25519_dalek and hkdf. An expansion to 32 bytes cannot fail: the
-- crate refuses lengths above 255 hashes only.
pub record Crypto : Type 0 where
  pub hex_encode : Bytes → Bytes
  pub hex_decode : Bytes → Option Bytes
  pub x25519_public : Bytes → Bytes
  pub diffie_hellman : Bytes → Bytes → Bytes
  pub ed25519_public : Bytes → Bytes
  pub hkdf : (salt ikm info : Bytes) → Bytes
  pub decode-encode : (data' : Bytes) → hex_decode (hex_encode data') ≡ some data'
  pub length-x25519_public : (secret : Bytes) → length (x25519_public secret) ≡ 32
  pub length-diffie_hellman : (secret public : Bytes) → length (diffie_hellman secret public) ≡ 32
  pub length-hkdf : (salt ikm info : Bytes) → length (hkdf salt ikm info) ≡ 32
  pub diffie_hellman_agree :
      (a b : Bytes) → diffie_hellman a (x25519_public b) ≡ diffie_hellman b (x25519_public a)

pub data DhError : Type 0 where
  session_expired outbound_seq_zero seq_not_increasing incoming_seq_zero replay_detected : DhError
  random_failed decode_dh_secret dh_secret_length decode_dh_public dh_public_length : DhError
  zero_shared_secret decode_shared_secret shared_secret_length decode_root root_length : DhError
  clock_failed : DhError

abbrev pub signing_key_info : Bytes
signing_key_info =
    b'b' ∷ b'e' ∷ b'e' ∷ b'_' ∷ b'c' ∷ b'o' ∷ b'n' ∷ b'n' ∷ b'e' ∷ b'c' ∷ b't' ∷ b'.' ∷ b's' ∷ b'i'
    ∷ b'g' ∷ b'n' ∷ b'i' ∷ b'n' ∷ b'g' ∷ b'.' ∷ b'v' ∷ b'1' ∷ []

abbrev pub encryption_key_info : Bytes
encryption_key_info =
    b'b' ∷ b'e' ∷ b'e' ∷ b'_' ∷ b'c' ∷ b'o' ∷ b'n' ∷ b'n' ∷ b'e' ∷ b'c' ∷ b't' ∷ b'.' ∷ b'e' ∷ b'n'
    ∷ b'c' ∷ b'r' ∷ b'y' ∷ b'p' ∷ b't' ∷ b'i' ∷ b'o' ∷ b'n' ∷ b'.' ∷ b'v' ∷ b'1' ∷ []

abbrev pub rekey_info : Bytes
rekey_info =
    b'b' ∷ b'e' ∷ b'e' ∷ b'_' ∷ b'c' ∷ b'o' ∷ b'n' ∷ b'n' ∷ b'e' ∷ b'c' ∷ b't' ∷ b'.' ∷ b'r' ∷ b'e'
    ∷ b'k' ∷ b'e' ∷ b'y' ∷ b'.' ∷ b'v' ∷ b'1' ∷ []

pub record DhKeyPair : Type 0 where
  pub public_hex : Bytes
  pub secret_hex : Bytes

pub record DhSessionKeys : Type 0 where
  pub signing_public_hex : Bytes
  pub signing_secret_hex : Bytes
  pub encryption_root_hex : Bytes

module _ (k : Crypto) where
  -- Text that decodes to 32 bytes.
  unfoldable pub decode_32 : DhError → DhError → Bytes → Result DhError Bytes
  decode_32 bad_hex bad_length text = do
    bytes ← ok_or (k.hex_decode text) bad_hex
    fail_if (not (length bytes == 32)) bad_length
    ok bytes

  -- The argument is what `getrandom::fill` wrote, if it did.
  unfoldable pub generate_dh_keypair : Option Bytes → Result DhError DhKeyPair
  generate_dh_keypair none = err random_failed
  generate_dh_keypair (some secret) = ok (record {
    public_hex = k.hex_encode (k.x25519_public secret);
    secret_hex = k.hex_encode secret;
  })

  unfoldable pub compute_shared_secret : Bytes → Bytes → Result DhError Bytes
  compute_shared_secret my_secret_hex their_public_hex = do
    my_secret ← decode_32 decode_dh_secret dh_secret_length my_secret_hex
    their_public ← decode_32 decode_dh_public dh_public_length their_public_hex
    let shared = k.diffie_hellman my_secret their_public
    fail_if (all (λ b. b == 0) shared) zero_shared_secret
    ok (k.hex_encode shared)

  unfoldable pub derive_session_keys : Bytes → Bytes → Result DhError DhSessionKeys
  derive_session_keys shared_secret_hex session_id = do
    shared ← decode_32 decode_shared_secret shared_secret_length shared_secret_hex
    let signing_seed = k.hkdf session_id shared signing_key_info
    ok (record {
      signing_public_hex = k.hex_encode (k.ed25519_public signing_seed);
      signing_secret_hex = k.hex_encode signing_seed;
      encryption_root_hex = k.hex_encode (k.hkdf session_id shared encryption_key_info);
    })

  unfoldable pub derive_rekey_root : Bytes → Bytes → Bytes → Result DhError Bytes
  derive_rekey_root current_root_hex shared_secret_hex session_id = do
    root ← decode_32 decode_root root_length current_root_hex
    shared ← decode_32 decode_shared_secret shared_secret_length shared_secret_hex
    ok (k.hex_encode (k.hkdf session_id (root ++ shared) rekey_info))

  -- A text of 32 bytes decodes to them.
  pub decode_32-encode :
      (bad_hex bad_length : DhError) (bytes : Bytes)
      → length bytes ≡ 32
      → decode_32 bad_hex bad_length (k.hex_encode bytes) ≡ ok bytes
  unfolding decode_32
  decode_32-encode bad_hex bad_length bytes size = rw (k.decode-encode bytes) (ground arith)

  -- The shared secret of two keys of 32 bytes: a check of what the two make together.
  compute_shared_secret-encode :
      (a p : Bytes)
      → length a ≡ 32
      → length p ≡ 32
      → compute_shared_secret (k.hex_encode a) (k.hex_encode p) ≡ (
          fail_if (all (λ b. b == 0) (k.diffie_hellman a p)) zero_shared_secret
          >> ok (k.hex_encode (k.diffie_hellman a p)))
  unfolding compute_shared_secret
  compute_shared_secret-encode a p la lp =
      rw
        (
          decode_32-encode decode_dh_secret dh_secret_length a la,
          decode_32-encode decode_dh_public dh_public_length p lp,
        )
        refl

  -- Two parties that exchange the public halves of key pairs compute the same shared secret, or both
  -- refuse it.
  pub compute_shared_secret-agree :
      (a b : Bytes)
      → length a ≡ 32
      → length b ≡ 32
      → compute_shared_secret (k.hex_encode a) (k.hex_encode (k.x25519_public b))
        ≡ compute_shared_secret (k.hex_encode b) (k.hex_encode (k.x25519_public a))
  compute_shared_secret-agree a b la lb =
      rw
        (
          compute_shared_secret-encode a (k.x25519_public b) la (k.length-x25519_public b),
          compute_shared_secret-encode b (k.x25519_public a) lb (k.length-x25519_public a),
          k.diffie_hellman_agree a b,
        )
        refl
