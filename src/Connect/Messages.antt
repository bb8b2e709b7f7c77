-- ===== src/Connect/Messages.antt =====
-- bee_connect/src/message.rs: the body of a message, and the normal forms of hex input.
-- The serialization of a body to JSON is an argument, and so are the random bytes.
pub mod Normal
pub mod Envelope
use bee_engine.Base.{
  ℕ, ◌+◌, ◌-◌, ◌≡◌, Bool, true, false, not, ◌&&◌, ◌||◌, List, [], ◌∷◌, ◌++◌, map, Option, none,
  some, Result, ok, err, ◌>>=◌, ◌>>◌, fail_if, ok_or, ◌==◌, ltb, leb, if◌then◌else◌,
}
use bee_engine.Base.Bytes.{Bytes}
use bee_engine.Base.Lists.{length, is_empty, all, replicate}
use bee_engine.Connect.Keys.{Crypto}

-- XChaCha20-Poly1305 and URL-safe base64.
pub record Sealing : Type 0 where
  pub encrypt : (key nonce aad msg : Bytes) → Option Bytes
  pub decrypt : (key nonce aad ciphertext : Bytes) → Option Bytes
  pub b64_encode : Bytes → Bytes
  pub b64_decode : Bytes → Option Bytes
  pub decrypt-encrypt :
      (key nonce aad msg ciphertext : Bytes)
      → encrypt key nonce aad msg ≡ some ciphertext
      → decrypt key nonce aad ciphertext ≡ some msg
  pub b64_decode-encode : (data' : Bytes) → b64_decode (b64_encode data') ≡ some data'

pub data MessageError : Type 0 where
  empty_hex hex_too_long hex_length invalid_hex : MessageError
  serialize_failed random_failed secret_not_hex decode_secret empty_secret : MessageError
  encrypt_failed decode_ciphertext decode_nonce nonce_length decode_salt salt_length
        decrypt_failed :
      MessageError

abbrev pub connect_message_key_info : Bytes
connect_message_key_info =
    b'b' ∷ b'e' ∷ b'e' ∷ b'_' ∷ b'c' ∷ b'o' ∷ b'n' ∷ b'n' ∷ b'e' ∷ b'c' ∷ b't' ∷ b'.' ∷ b'm' ∷ b's'
    ∷ b'g' ∷ b'.' ∷ b'k' ∷ b'e' ∷ b'y' ∷ b'.' ∷ b'v' ∷ b'1' ∷ []

-- `strip_prefix("0x")`, or else `strip_prefix("0X")`
unfoldable pub strip_0x : Bytes → Bytes
strip_0x [] = []
strip_0x (a ∷ []) = a ∷ []
strip_0x (a ∷ b ∷ rest) = if (a == b'0') && ((b == b'x') || (b == b'X')) then rest else a ∷ b ∷ rest

abbrev pub is_ascii_hexdigit : ℕ → Bool
is_ascii_hexdigit b =
    (leb b'0' b && leb b b'9') || (leb b'a' b && leb b b'f') || (leb b'A' b && leb b b'F')

unfoldable pub lower : ℕ → ℕ
lower b = if leb b'A' b && leb b b'Z' then b + 32 else b

unfoldable pub to_ascii_lowercase : Bytes → Bytes
to_ascii_lowercase bytes = map lower bytes

-- `{:0>64}`
unfoldable pub pad_64 : Bytes → Bytes
pad_64 digits = replicate (64 - length digits) b'0' ++ digits

unfoldable pub normalize_uint256_hex : Bytes → Result MessageError Bytes
normalize_uint256_hex value = do
  let stripped = strip_0x value
  fail_if (is_empty stripped) empty_hex
  fail_if (ltb 64 (length stripped)) hex_too_long
  fail_if (not (all is_ascii_hexdigit stripped)) invalid_hex
  ok (b'0' ∷ b'x' ∷ pad_64 (to_ascii_lowercase stripped))

unfoldable pub normalize_owner_public_hex : Bytes → Result MessageError Bytes
normalize_owner_public_hex value = do
  let stripped = strip_0x value
  fail_if (is_empty stripped) empty_hex
  fail_if (not (length stripped == 64)) hex_length
  fail_if (not (all is_ascii_hexdigit stripped)) invalid_hex
  ok (to_ascii_lowercase stripped)

pub record EncryptedConnectBody : Type 0 where
  pub ciphertext_b64url : Bytes
  pub nonce_b64url : Bytes
  pub salt_b64url : Bytes

module _ (k : Crypto) (seal : Sealing) where
  unfoldable pub derive_connect_message_key : Bytes → Bytes → Result MessageError Bytes
  derive_connect_message_key encryption_secret salt = do
    let secret_hex = strip_0x encryption_secret
    fail_if (is_empty secret_hex || not (all is_ascii_hexdigit secret_hex)) secret_not_hex
    secret ← ok_or (k.hex_decode secret_hex) decode_secret
    fail_if (is_empty secret) empty_secret
    ok (k.hkdf salt secret connect_message_key_info)

  -- `plaintext` is the body's JSON; the nonce and the salt are what `getrandom` gives.
  unfoldable pub encrypt_connect_body :
      (plaintext : Option Bytes) (encryption_secret aad : Bytes) (nonce salt : Option Bytes)
      → Result MessageError EncryptedConnectBody
  encrypt_connect_body plaintext encryption_secret aad nonce salt = do
    msg ← ok_or plaintext serialize_failed
    nonce ← ok_or nonce random_failed
    salt ← ok_or salt random_failed
    key ← derive_connect_message_key encryption_secret salt
    ciphertext ← ok_or (seal.encrypt key nonce aad msg) encrypt_failed
    ok (record {
      ciphertext_b64url = seal.b64_encode ciphertext;
      nonce_b64url = seal.b64_encode nonce;
      salt_b64url = seal.b64_encode salt;
    })

  unfoldable pub decrypt_connect_body :
      (ciphertext_b64url nonce_b64url salt_b64url encryption_secret aad : Bytes)
      → Result MessageError Bytes
  decrypt_connect_body ciphertext_b64url nonce_b64url salt_b64url encryption_secret aad = do
    ciphertext ← ok_or (seal.b64_decode ciphertext_b64url) decode_ciphertext
    nonce ← ok_or (seal.b64_decode nonce_b64url) decode_nonce
    fail_if (not (length nonce == 24)) nonce_length
    salt ← ok_or (seal.b64_decode salt_b64url) decode_salt
    fail_if (not (length salt == 32)) salt_length
    key ← derive_connect_message_key encryption_secret salt
    ok_or (seal.decrypt key nonce aad ciphertext) decrypt_failed
