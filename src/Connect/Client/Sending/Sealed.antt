-- ===== src/Connect/Client/Sending/Sealed.antt =====
-- A message that is encoded is read from its text, and its body is opened.
use bee_engine.Base.{
  ℕ, ◌≡◌, refl, true, false, not, ◌||◌, ◌&&◌, [], ◌∷◌, Option, none, some, ok, ok_or, map_err,
  >>=-eq-ok, map_err-eq-ok, ok_or-eq-ok, fail_if, arith, ◌==◌, Bool-cases, inl, inr,
}
use bee_engine.Base.Bytes.{Bytes}
use bee_engine.Base.Lists.{length, is_empty, all}
use bee_engine.Base.Text.{trim, trim-visible, is_space}
use bee_engine.Connect.Client.{Parsing, usable_secret, open_body, decode_connect_message_body}
use bee_engine.Connect.Client.Sending.{
  Writing, seeded, sealed_envelope, encode_connect_message, not_encrypted,
}
use bee_engine.Connect.Keys.{Crypto}
use bee_engine.Connect.Messages.{
  Sealing, EncryptedConnectBody, strip_0x, is_ascii_hexdigit, derive_connect_message_key,
  encrypt_connect_body,
}
use bee_engine.Connect.Messages.Envelope.{decrypt-encrypt_connect_body}

visible_hex : (b : ℕ) → is_ascii_hexdigit b ≡ true → not (is_space b) ≡ true
visible_hex b h = ground arith

all-visible : (ds : Bytes) → all is_ascii_hexdigit ds ≡ true → all (λ b. not (is_space b)) ds ≡ true
all-visible [] h = refl
all-visible (d ∷ ds) h = ground (arith, visible_hex d (ground arith), all-visible ds (ground arith))

stripped_visible :
    (secret : Bytes)
    → all is_ascii_hexdigit (strip_0x secret) ≡ true
    → all (λ b. not (is_space b)) secret ≡ true
unfolding strip_0x
stripped_visible [] h = refl
stripped_visible (a ∷ []) h = all-visible (a ∷ []) h
stripped_visible (a ∷ b ∷ rest) h =
    elim (Bool-cases ((a == b'0') && ((b == b'x') || (b == b'X')))) [
      | inl prefixed ↦ let h' = rw prefixed at h in let later = all-visible rest h' in ground arith
      | inr plain ↦ all-visible (a ∷ b ∷ rest) (rw plain at h)
    ]

nonempty_stripped : (secret : Bytes) → is_empty (strip_0x secret) ≡ false → is_empty secret ≡ false
unfolding strip_0x
nonempty_stripped [] h = h
nonempty_stripped (b ∷ rest) h = refl

module _ (k : Crypto) (seal : Sealing) where
  secret_parts :
      (secret salt key : Bytes)
      → derive_connect_message_key k seal secret salt ≡ ok key
      → (is_empty (strip_0x secret) ≡ false) × (all is_ascii_hexdigit (strip_0x secret) ≡ true)
  unfolding derive_connect_message_key
  secret_parts secret salt key h = ground arith

  -- A secret that a key is derived from is used as it is.
  secret_used :
      (secret salt key : Bytes)
      → derive_connect_message_key k seal secret salt ≡ ok key
      → usable_secret (some secret) ≡ some secret
  unfolding usable_secret
  secret_used secret salt key h =
      let (filled, hex) = secret_parts secret salt key h in
      rw (trim-visible secret (stripped_visible secret hex), nonempty_stripped secret filled) refl

  sealed_with :
      (plaintext : Option Bytes) (secret aad nonce salt : Bytes) (b : EncryptedConnectBody)
      → encrypt_connect_body k seal plaintext secret aad (some nonce) (some salt) ≡ ok b
      → (msg key : Bytes) × (plaintext ≡ some msg)
        × (derive_connect_message_key k seal secret salt ≡ ok key)
  unfolding encrypt_connect_body
  sealed_with none secret aad nonce salt b h = absurd (cc)
  sealed_with (some msg) secret aad nonce salt b h =
      let (key, e, _) = >>=-eq-ok (derive_connect_message_key k seal secret salt) _ h in
      (msg, key, refl, e)

  module _ {Json : Type 0} (parse : Parsing Json) (write : Writing parse) where
    open_sealed :
        (session_id dir : Bytes) (seq : ℕ) (msg_type : Bytes) (ts : ℕ) (dh_public : Option Bytes)
        (secret aad nonce salt : Bytes) (json : Json) (b : EncryptedConnectBody)
        → length nonce ≡ 24
        → length salt ≡ 32
        → parse.connect_message_aad session_id dir seq msg_type ts ≡ some aad
        → encrypt_connect_body k seal (write.json_bytes json) secret aad (some nonce) (some salt)
          ≡ ok b
        → decode_connect_message_body k seal parse
            (sealed_envelope session_id dir seq msg_type ts dh_public b)
            (some secret)
          ≡ ok (some json)
    unfolding decode_connect_message_body open_body sealed_envelope
    open_sealed session_id dir seq msg_type ts dh_public secret aad nonce salt json b ln ls known
          h =
        let (msg, key, written, derived) =
          sealed_with (write.json_bytes json) secret aad nonce salt b h in
        let opened =
          decrypt-encrypt_connect_body k seal msg secret aad nonce salt b ln ls (rw written at h) in
        rw
          (
            secret_used secret salt key derived,
            known,
            opened,
            write.json_of-json_bytes json msg written,
          )
          refl

    -- What is sent is read.
    pub decode-encode_connect_message :
        {E : Type 0} (session_id dir : Bytes) (seq : ℕ) (msg_type : Bytes) (json : Json)
        (secret nonce salt : Bytes) (dh_public : Option Bytes) (clock : Option ℕ) (raw : Bytes)
        → length nonce ≡ 24
        → length salt ≡ 32
        → encode_connect_message k seal parse write {E = E} session_id dir seq msg_type json
            (some secret)
            dh_public
            (seeded clock nonce salt)
          ≡ ok raw
        → (ts : ℕ) × (b : EncryptedConnectBody) × (parse.envelope_of raw
            ≡ some (sealed_envelope session_id dir seq msg_type ts dh_public b))
          × (decode_connect_message_body k seal parse
                (sealed_envelope session_id dir seq msg_type ts dh_public b)
                (some secret)
              ≡ ok (some json))
    unfolding encode_connect_message
    decode-encode_connect_message session_id dir seq msg_type json secret nonce salt dh_public clock
          raw ln ls h =
        let (_, _, h1) = >>=-eq-ok (fail_if (is_empty (trim session_id)) _) _ h in
        let (_, _, h2) = >>=-eq-ok (fail_if (is_empty (trim dir)) _) _ h1 in
        let (_, _, h3) = >>=-eq-ok (fail_if (is_empty (trim msg_type)) _) _ h2 in
        let (ts, _, h4) = >>=-eq-ok (ok_or clock _) _ h3 in
        let (aad, known, h5) =
          >>=-eq-ok (ok_or (parse.connect_message_aad session_id dir seq msg_type ts) _) _ h4 in
        let (b, sealed, h6) =
          >>=-eq-ok
            (map_err not_encrypted (
              encrypt_connect_body k seal (write.json_bytes json) secret aad (some nonce)
                (some salt)))
            _ h5 in
        let sealed' =
          map_err-eq-ok not_encrypted
            (encrypt_connect_body k seal (write.json_bytes json) secret aad (some nonce)
              (some salt))
            b sealed in
        (
          ts,
          b,
          write.envelope_of-envelope_text
              (sealed_envelope session_id dir seq msg_type ts dh_public b) raw (ok_or-eq-ok _ _ h6),
          open_sealed session_id dir seq msg_type ts dh_public secret aad nonce salt json b ln ls
              (ok_or-eq-ok _ _ known) sealed',
        )
