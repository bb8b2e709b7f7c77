-- ===== src/Tests/Wire.antt =====
-- A way to write messages as texts and to read them back, in place of JSON.
use bee_engine.Base.{ℕ, zero, suc, ◌≡◌, refl, sym, ap, subst, [], ◌∷◌, ◌++◌, Option, none, some}
use bee_engine.Base.Bytes.{Bytes}
use bee_engine.Base.Lists.{length, take, drop, take-append, drop-append}
use bee_engine.Connect.Client.{
  ConnectMessageEnc, ConnectMessageEnvelope, SetMiningKeysBody, Parsing,
}
use bee_engine.Connect.Client.Sending.{Writing}

-- What is read, and the rest.
unfoldable pub put_text : Bytes → Bytes → Bytes
put_text text rest = length text ∷ text ++ rest

unfoldable pub get_text : Bytes → Bytes × Bytes
get_text [] = ([], [])
get_text (n ∷ rest) = (take n rest, drop n rest)

get_text-put_text : (text rest : Bytes) → get_text (put_text text rest) ≡ (text, rest)
unfolding get_text put_text
get_text-put_text text rest = rw (take-append text rest refl, drop-append text rest refl) refl

unfoldable pub put_option : Option Bytes → Bytes → Bytes
put_option none rest = 0 ∷ rest
put_option (some text) rest = 1 ∷ put_text text rest

unfoldable pub get_option : Bytes → Option Bytes × Bytes
get_option [] = (none, [])
get_option (zero ∷ rest) = (none, rest)
get_option (suc _ ∷ rest) = let (text, rest') = get_text rest in (some text, rest')

get_option-put_option :
    (o : Option Bytes) (rest : Bytes) → get_option (put_option o rest) ≡ (o, rest)
unfolding get_option put_option
get_option-put_option none rest = refl
get_option-put_option (some text) rest = rw (get_text-put_text text rest) refl

unfoldable pub put_enc : Option ConnectMessageEnc → Bytes → Bytes
put_enc none rest = 0 ∷ rest
put_enc (some enc) rest = 1 ∷ put_text enc.alg (put_option enc.nonce (put_option enc.salt rest))

unfoldable pub get_enc : Bytes → Option ConnectMessageEnc × Bytes
get_enc [] = (none, [])
get_enc (zero ∷ rest) = (none, rest)
get_enc (suc _ ∷ rest) =
    let alg = get_text rest in
    let nonce = get_option alg.1 in
    let salt = get_option nonce.1 in
    (some (record { alg = alg.0; nonce = nonce.0; salt = salt.0 }), salt.1)

get_enc-put_enc :
    (enc : Option ConnectMessageEnc) (rest : Bytes) → get_enc (put_enc enc rest) ≡ (enc, rest)
unfolding get_enc put_enc
get_enc-put_enc none rest = refl
get_enc-put_enc (some enc) rest =
    rw
      (
        get_text-put_text enc.alg (put_option enc.nonce (put_option enc.salt rest)),
        get_option-put_option enc.nonce (put_option enc.salt rest),
        get_option-put_option enc.salt rest,
      )
      refl

unfoldable pub put_number : Option ℕ → Bytes → Bytes
put_number none rest = 0 ∷ 0 ∷ rest
put_number (some n) rest = 1 ∷ n ∷ rest

unfoldable pub get_number : Bytes → Option ℕ × Bytes
get_number (zero ∷ _ ∷ rest) = (none, rest)
get_number (suc _ ∷ n ∷ rest) = (some n, rest)
get_number [] = (none, [])
get_number (_ ∷ []) = (none, [])

get_number-put_number : (o : Option ℕ) (rest : Bytes) → get_number (put_number o rest) ≡ (o, rest)
unfolding get_number put_number
get_number-put_number none rest = refl
get_number-put_number (some n) rest = refl

unfoldable pub write_envelope : ConnectMessageEnvelope → Bytes
write_envelope e =
    e.seq
    ∷ put_text e.v (
        put_text e.session_id (
          put_text e.dir (
            put_text e.msg_type
              (put_number e.ts (put_option e.dh_public (put_enc e.enc (put_option e.body [])))))))

unfoldable pub read_envelope : Bytes → Option ConnectMessageEnvelope
read_envelope [] = none
read_envelope (seq ∷ rest) =
    let v = get_text rest in
    let session_id = get_text v.1 in
    let dir = get_text session_id.1 in
    let msg_type = get_text dir.1 in
    let ts = get_number msg_type.1 in
    let dh_public = get_option ts.1 in
    let enc = get_enc dh_public.1 in
    let body = get_option enc.1 in
    some (record {
      v = v.0;
      session_id = session_id.0;
      dir = dir.0;
      seq = seq;
      msg_type = msg_type.0;
      ts = ts.0;
      dh_public = dh_public.0;
      enc = enc.0;
      body = body.0;
    })

pub read-write_envelope : (e : ConnectMessageEnvelope) → read_envelope (write_envelope e) ≡ some e
unfolding read_envelope write_envelope
read-write_envelope e =
    let body = put_option e.body [] in
    let enc = put_enc e.enc body in
    let dh_public = put_option e.dh_public enc in
    let ts = put_number e.ts dh_public in
    let msg_type = put_text e.msg_type ts in
    let dir = put_text e.dir msg_type in
    let session_id = put_text e.session_id dir in
    rw
      (
        get_text-put_text e.v session_id,
        get_text-put_text e.session_id dir,
        get_text-put_text e.dir msg_type,
        get_text-put_text e.msg_type ts,
        get_number-put_number e.ts dh_public,
        get_option-put_option e.dh_public enc,
        get_enc-put_enc e.enc body,
        get_option-put_option e.body [],
      )
      refl

unfoldable pub write_keys : SetMiningKeysBody → Bytes
write_keys keys = put_text keys.app_id (put_text keys.owner_public [])

unfoldable pub read_keys : Bytes → SetMiningKeysBody
read_keys bytes =
    let app_id = get_text bytes in
    record { app_id = app_id.0; owner_public = (get_text app_id.1).0 }

pub read-write_keys : (keys : SetMiningKeysBody) → read_keys (write_keys keys) ≡ keys
unfolding read_keys write_keys
read-write_keys keys =
    rw
      (
        get_text-put_text keys.app_id (put_text keys.owner_public []),
        get_text-put_text keys.owner_public [],
      )
      refl

-- Messages are written as above, and every other document as it is.
abbrev pub wire : Parsing Bytes
wire = record {
  envelope_of = read_envelope;
  json_of = λ bytes. some bytes;
  wallet_hello_of = λ json. none;
  set_mining_keys_of = λ json. some (read_keys json);
  challenge_response_of = λ json. none;
  connect_message_aad = λ session_id dir seq msg_type ts. some [];
}

abbrev or_nothing : Option Bytes → Bytes
or_nothing none = []
or_nothing (some bytes) = bytes

abbrev pub writing : Writing wire
writing = record {
  json_bytes = λ json. some json;
  envelope_text = λ e. some (write_envelope e);
  set_mining_keys_value = λ keys. some (write_keys keys);
  sign_challenge_value = λ nonce. some nonce;
  reason_value = λ reason. [];
  json_of-json_bytes = λ json bytes h. sym h;
  envelope_of-envelope_text =
      λ e text h. subst (λ x. read_envelope x ≡ some e) (ap or_nothing h) (read-write_envelope e);
  set_mining_keys_of-value = λ keys json h.
      subst (λ x. some (read_keys x) ≡ some keys) (ap or_nothing h)
        (ap some (read-write_keys keys));
}
