-- ===== src/Connect/Messages/Envelope.antt =====
-- What is encrypted is decrypted.
use bee_engine.Base.{
  ℕ, ◌≡◌, refl, subst, true, some, ok, ok_or, arith, >>=-eq-ok, ◌==◌, ok-injective, ok_or-eq-ok,
}
use bee_engine.Base.Bytes.{Bytes}
use bee_engine.Base.Lists.{length}
use bee_engine.Connect.Keys.{Crypto}
use bee_engine.Connect.Session.{
  ConnectSessionState, RekeyResult, ensure_not_expired, rekey_outbound, rekey_inbound,
}
use bee_engine.Connect.Session.Ratchet.{InStep, message_received}
use bee_engine.Connect.Messages.{
  Sealing, EncryptedConnectBody, derive_connect_message_key, encrypt_connect_body,
  decrypt_connect_body, encrypt_failed,
}

module _ (k : Crypto) (seal : Sealing) where
  -- A body that was encrypted is decrypted by whoever has the secret and the same associated data.
  pub decrypt-encrypt_connect_body :
      (plaintext secret aad nonce salt : Bytes) (body : EncryptedConnectBody)
      → length nonce ≡ 24
      → length salt ≡ 32
      → encrypt_connect_body k seal (some plaintext) secret aad (some nonce) (some salt) ≡ ok body
      → decrypt_connect_body k seal body.ciphertext_b64url body.nonce_b64url body.salt_b64url secret
          aad
        ≡ ok plaintext
  unfolding encrypt_connect_body decrypt_connect_body
  decrypt-encrypt_connect_body plaintext secret aad nonce salt body ln ls h =
      let (key, key_eq, h1) = >>=-eq-ok (derive_connect_message_key k seal secret salt) _ h in
      let (ciphertext, sealed, made) =
        >>=-eq-ok (ok_or (seal.encrypt key nonce aad plaintext) encrypt_failed) _ h1 in
      let opened =
        seal.decrypt-encrypt key nonce aad plaintext ciphertext
          (ok_or-eq-ok _ encrypt_failed sealed) in
      let size : (length nonce == 24) ≡ true = ground arith in
      let salted : (length salt == 32) ≡ true = ground arith in
      subst
        (λ (b : EncryptedConnectBody).
          decrypt_connect_body k seal b.ciphertext_b64url b.nonce_b64url b.salt_b64url secret aad
          ≡ ok plaintext)
        (ok-injective made)
        (rw
          (
            seal.b64_decode-encode ciphertext,
            seal.b64_decode-encode nonce,
            size,
            seal.b64_decode-encode salt,
            salted,
            key_eq,
            opened,
          )
          refl)

  -- A letter is read: what the sender encrypts with the root of its re-keying, the receiver decrypts
  -- with the root of its own, if the two ends were in step, the receiver's session has not expired and
  -- the associated data is the same.
  pub letter_opened :
      (s t : ConnectSessionState) (session_id random : Bytes) (seq now now' : ℕ) (r : RekeyResult)
      (plaintext aad nonce salt : Bytes) (body : EncryptedConnectBody)
      → InStep k s t
      → length random ≡ 32
      → length nonce ≡ 24
      → length salt ≡ 32
      → rekey_outbound k s session_id seq now (some random) ≡ ok r
      → encrypt_connect_body k seal
          (some plaintext)
          r.message_encryption_root
          aad
          (some nonce)
          (some salt)
        ≡ ok body
      → ensure_not_expired t now' ≡ ok tt
      → (public : Bytes) × (q : RekeyResult) × (r.new_dh_public ≡ some public)
        × (rekey_inbound k t public session_id seq now' ≡ ok q)
        × (decrypt_connect_body k seal body.ciphertext_b64url body.nonce_b64url body.salt_b64url
              q.message_encryption_root aad
            ≡ ok plaintext)
  letter_opened s t session_id random seq now now' r plaintext aad nonce salt body v size ln ls sent
        sealed alive =
      let (public, q, public_eq, q_eq, roots, _) =
        message_received k s t session_id random seq now now' r v size sent alive in
      (
        public,
        q,
        public_eq,
        q_eq,
        rw roots (
            decrypt-encrypt_connect_body plaintext r.message_encryption_root aad nonce salt body ln
              ls sealed),
      )
