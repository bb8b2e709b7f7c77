-- ===== src/Proxy.antt =====
-- tools/queue_overflow_proxy/src/lib.rs: the proxy that answers the first requests for each message
-- with a full queue. Requests come one after the other, since a lock is held while one is counted.
-- JSON, URLs and the upstream server are arguments.
pub mod Counting
pub mod Through
use bee_engine.Base.{
  ℕ, suc, ◌+◌, ◌-◌, ◌*◌, Bool, true, false, not, ◌&&◌, ◌||◌, List, [], ◌∷◌, ◌++◌, Option, none,
  some, Result, ok, err, leb, ltb, if◌then◌else◌,
}
use bee_engine.Base.Bytes.{Bytes, bytes_eq}
use bee_engine.Base.Lists.{length, drop, retain, any}
use bee_engine.Base.Text.{codes}
use bee_engine.Shared.Leaf.{Primitives}

abbrev pub max_request_body_bytes : ℕ
max_request_body_bytes = 16 * 1024 * 1024

pub record MessageAttempt : Type 0 where
  pub message_id : Bytes
  pub body_hash : Bytes
  pub attempt : ℕ
  pub observed_at : ℕ
  pub forwarded : Bool

pub record ProxyObservations : Type 0 where
  pub attempts_by_message : List (Bytes × ℕ)
  pub attempts : List MessageAttempt

abbrev pub no_observations : ProxyObservations
no_observations = record { attempts_by_message = []; attempts = [] }

pub record MessageRequest : Type 0 where
  pub id : Bytes
  pub body_hash : Bytes

-- The id and the body of the first message in a JSON array, if they are strings.
unfoldable pub parse_message :
    Primitives → (read_json : Bytes → Option (Bytes × Bytes)) → Bytes → Option MessageRequest
parse_message prims read_json body = elim (read_json body) [
  | none ↦ none
  | some (id, encoded_boc) ↦
      some (record { id = id; body_hash = prims.hex_encode (prims.blake3 encoded_boc) })
]

unfoldable pub count_of : List (Bytes × ℕ) → Bytes → ℕ
count_of [] id = 0
count_of ((k, n) ∷ counts) id = let later = count_of counts id in if bytes_eq k id then n else later

-- `*entry(id).or_default() += 1`
unfoldable pub bump : Bytes → List (Bytes × ℕ) → List (Bytes × ℕ)
bump id [] = (id, 1) ∷ []
bump id ((k, n) ∷ counts) =
    let later = bump id counts in if bytes_eq k id then (k, suc n) ∷ counts else (k, n) ∷ later

-- The number of the attempt, and the state after it.
unfoldable pub record_attempt :
    (fail_first now : ℕ) → MessageRequest → ProxyObservations → ℕ × ProxyObservations
unfolding count_of bump
record_attempt fail_first now message observations =
    let counts = bump message.id observations.attempts_by_message in
    let attempt = count_of counts message.id in
    (
      attempt,
      record {
        attempts_by_message = counts;
        attempts =
            observations.attempts
            ++ record {
              message_id = message.id;
              body_hash = message.body_hash;
              attempt = attempt;
              observed_at = now;
              forwarded = ltb fail_first attempt;
            }
              ∷ [];
      },
    )

abbrev pub Headers : Type 0
Headers = List (Bytes × Bytes)

pub record Request : Type 0 where
  pub method : Bytes
  pub path : Bytes
  pub path_and_query : Option Bytes
  pub headers : Headers
  pub body : Bytes

-- Bodies that the proxy makes are JSON documents.
pub data Body : Type 0 where
  upstream_body : Bytes → Body
  error_body : Bytes → Body
  queue_overflow_body : (message_hash : Bytes) → Body

pub record Response : Type 0 where
  pub status : ℕ
  pub headers : Headers
  pub body : Body

-- What the upstream server answers: its status and headers, and its body or the error of reading it.
pub record Upstream : Type 0 where
  pub status : ℕ
  pub headers : Headers
  pub body : Result Bytes Bytes

pub record AppState : Type 0 where
  pub upstream : Bytes
  pub fail_first : ℕ
  pub send : (target : Bytes) → Request → Result Bytes Upstream

unfoldable pub remove_headers : (names : List Bytes) → Headers → Headers
remove_headers names headers = retain (λ h. not (any (bytes_eq h.0) names)) headers

abbrev pub request_headers : List Bytes
request_headers =
    codes "host"
    ∷ codes "content-length"
    ∷ codes "connection"
    ∷ codes "transfer-encoding"
    ∷ codes "accept-encoding"
    ∷ []

abbrev pub response_headers : List Bytes
response_headers = codes "content-length" ∷ codes "connection" ∷ codes "transfer-encoding" ∷ []

unfoldable pub json_response : ℕ → Body → Response
json_response status body = record {
  status = status;
  headers =
      (codes "content-type", codes "application/json")
      ∷ (codes "access-control-allow-origin", codes "*")
      ∷ [];
  body = body;
}

unfoldable pub queue_overflow_response : Bytes → Response
unfolding json_response
queue_overflow_response message_id = json_response 200 (queue_overflow_body message_id)

abbrev path_of : Option Bytes → Bytes
path_of none = codes "/"
path_of (some path) = path

unfoldable pub forward_request : AppState → Request → Response
unfolding json_response remove_headers
forward_request state request =
    let target = state.upstream ++ path_of request.path_and_query in
    elim (state.send target
      (record request { headers = remove_headers request_headers request.headers })) [
        | err error ↦ json_response 502 (error_body error)
        | ok response ↦ elim response.body [
          | err error ↦ json_response 502 (error_body error)
          | ok body ↦ record {
            status = response.status;
            headers = remove_headers response_headers response.headers;
            body = upstream_body body;
          }
        ]
      ]

unfoldable pub ends_with : Bytes → (suffix : Bytes) → Bool
ends_with text suffix =
    leb (length suffix) (length text) && bytes_eq (drop (length text - length suffix) text) suffix

-- What the path and the body ask for.
unfoldable pub message_of :
    Primitives → (read_json : Bytes → Option (Bytes × Bytes)) → Request → Option MessageRequest
unfolding ends_with parse_message
message_of prims read_json request =
    if ends_with request.path (codes "/v2/messages")
    then parse_message prims read_json request.body
    else none

unfoldable pub too_large : Request → Bool
too_large request = ltb max_request_body_bytes (length request.body)

unfoldable pub proxy_request :
    Primitives
    → (read_json : Bytes → Option (Bytes × Bytes)) → AppState
    → (now : ℕ) → Request
    → ProxyObservations
    → Response × ProxyObservations
proxy_request prims read_json state now request observations =
    if too_large request
    then (json_response 413 (error_body (codes "failed to read request body")), observations)
    else elim (message_of prims read_json request) [
      | none ↦ (forward_request state request, observations)
      | some message ↦
          let counted = record_attempt state.fail_first now message observations in
          if leb counted.0 state.fail_first
          then (queue_overflow_response message.id, counted.1)
          else (forward_request state request, counted.1)
    ]

-- `trim_end_matches('/')`
unfoldable pub trim_slashes : Bytes → Bytes
trim_slashes [] = []
trim_slashes (b ∷ rest) =
    let later = trim_slashes rest in if bytes_eq (b ∷ later) (codes "/") then [] else b ∷ later

-- The scheme of an URL that can be parsed.
unfoldable pub validate_upstream : (scheme_of : Bytes → Option Bytes) → Bytes → Bool
validate_upstream scheme_of upstream = elim (scheme_of upstream) [
  | none ↦ false
  | some scheme ↦ bytes_eq scheme (codes "http") || bytes_eq scheme (codes "https")
]
