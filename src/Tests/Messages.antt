-- ===== src/Tests/Messages.antt =====
-- The theorems on messages at one message and at two texts.
use bee_engine.Base.{◌≡◌, refl, sym, [], ◌∷◌, ◌++◌, some, ok}
use bee_engine.Base.Bytes.{Bytes}
use bee_engine.Base.Lists.{length, replicate}
use bee_engine.Connect.Session.{RekeyResult, rekey_inbound}
use bee_engine.Connect.Messages.{
  Sealing, EncryptedConnectBody, strip_0x, lower, to_ascii_lowercase, pad_64, normalize_uint256_hex,
  normalize_owner_public_hex, derive_connect_message_key, encrypt_connect_body,
  decrypt_connect_body,
}
use bee_engine.Connect.Messages.Normal.{normalize_uint256_hex-normal}
use bee_engine.Connect.Messages.Envelope.{letter_opened}
use bee_engine.Tests.Connect.{ones, toy_crypto, start, start-InStep, sent, sends, alive}

-- A cipher and an encoding that change nothing.
abbrev pub toy_sealing : Sealing
toy_sealing = record {
  encrypt = λ key nonce aad msg. some msg;
  decrypt = λ key nonce aad ciphertext. some ciphertext;
  b64_encode = λ bytes. bytes;
  b64_decode = λ bytes. some bytes;
  decrypt-encrypt = λ key nonce aad msg ciphertext h. sym h;
  b64_decode-encode = λ bytes. refl;
}

abbrev body : EncryptedConnectBody
body = record {
  ciphertext_b64url = b'h' ∷ b'i' ∷ [];
  nonce_b64url = replicate 24 7;
  salt_b64url = replicate 32 8;
}

encrypted :
    encrypt_connect_body toy_crypto toy_sealing
      (some (b'h' ∷ b'i' ∷ []))
      sent.message_encryption_root
      []
      (some (replicate 24 7))
      (some (replicate 32 8))
    ≡ ok body
unfolding encrypt_connect_body derive_connect_message_key strip_0x
encrypted = refl

letter_opened_example :
    (public : Bytes) × (q : RekeyResult) × (sent.new_dh_public ≡ some public)
    × (rekey_inbound toy_crypto (start 1005) public (b's' ∷ []) 7 1011 ≡ ok q)
    × (decrypt_connect_body toy_crypto toy_sealing body.ciphertext_b64url body.nonce_b64url
          body.salt_b64url q.message_encryption_root []
        ≡ ok (b'h' ∷ b'i' ∷ []))
letter_opened_example =
    letter_opened toy_crypto toy_sealing (start 1000) (start 1005) (b's' ∷ []) ones 7 1010 1011 sent
      (b'h' ∷ b'i' ∷ []) [] (replicate 24 7) (replicate 32 8) body start-InStep refl refl refl sends
      encrypted alive

-- `0xF`
abbrev fifteen : Bytes
fifteen = b'0' ∷ b'x' ∷ b'F' ∷ []

abbrev fifteen_normal : Bytes
fifteen_normal = b'0' ∷ b'x' ∷ (replicate 63 b'0' ++ b'f' ∷ [])

fifteen_normalized : normalize_uint256_hex fifteen ≡ ok fifteen_normal
unfolding normalize_uint256_hex strip_0x pad_64 to_ascii_lowercase lower
fifteen_normalized = refl

normalize_uint256_hex-normal_example :
    (length fifteen_normal ≡ 66) × (normalize_uint256_hex fifteen_normal ≡ ok fifteen_normal)
normalize_uint256_hex-normal_example =
    normalize_uint256_hex-normal fifteen fifteen_normal fifteen_normalized

abbrev key : Bytes
key = replicate 64 b'A'

abbrev low_key : Bytes
low_key = replicate 64 b'a'

owner_normalized : normalize_owner_public_hex key ≡ ok low_key
unfolding normalize_owner_public_hex strip_0x to_ascii_lowercase lower
owner_normalized = refl
