-- ===== src/Tests/Proxy.antt =====
-- The theorems of the proxy at concrete requests.
use bee_engine.Base.{ℕ, ◌≡◌, ◌*◌, refl, [], ◌∷◌, Option, none, some, Result, ok, err, ◌==◌, arith}
use bee_engine.Base.Bytes.{Bytes}
use bee_engine.Base.Text.{codes}
use bee_engine.Tests.Toy.{toy}
use bee_engine.Infra.Delivery.{with_queue_overflow_retry}
use bee_engine.Proxy.{
  AppState, Request, Response, upstream_body, queue_overflow_body, error_body, no_observations,
  message_of, parse_message, ends_with, too_large, queue_overflow_response, json_response,
  forward_request, remove_headers,
}
use bee_engine.Proxy.Counting.{serve, answers, requests, serve-answers}
use bee_engine.Proxy.Through.{through_proxy, with_queue_overflow_retry-through}

abbrev state : AppState
state = record {
  upstream = codes "http://node";
  fail_first = 2;
  send = λ target request. ok (record { status = 200; headers = []; body = ok [] });
}

-- The first byte of a body is the id.
abbrev read_json : Bytes → Option (Bytes × Bytes)
read_json [] = none
read_json (id ∷ boc) = some (id ∷ [], boc)

abbrev post : ℕ → Request
post id = record {
  method = codes "POST";
  path = codes "/v2/messages";
  path_and_query = none;
  headers = [];
  body = id ∷ 5 ∷ [];
}

serve-answers_example :
    serve toy read_json state
      ((1, post 7) ∷ (2, post 8) ∷ (3, post 7) ∷ (4, post 7) ∷ [])
      no_observations
    ≡ answers toy read_json state []
        (requests toy read_json state ((1, post 7) ∷ (2, post 8) ∷ (3, post 7) ∷ (4, post 7) ∷ []))
serve-answers_example =
    serve-answers toy read_json state ((1, post 7) ∷ (2, post 8) ∷ (3, post 7) ∷ (4, post 7) ∷ [])

abbrev read : Response → Result ℕ ℕ
read response = elim response.body [
  | upstream_body bytes ↦ ok 1
  | error_body e ↦ err 2
  | queue_overflow_body hash ↦ err 3
]

with_queue_overflow_retry-through_example :
    with_queue_overflow_retry
      (through_proxy toy read_json state (post 7) read (λ n. n * 1000) (λ e. e == 3))
      31
      (some 60)
    ≡ some (record { result = ok 1; attempts = 3 })
unfolding too_large message_of parse_message ends_with queue_overflow_response json_response
    forward_request remove_headers
with_queue_overflow_retry-through_example =
    with_queue_overflow_retry-through toy read_json state (post 7)
      (record { id = 7 ∷ []; body_hash = _ }) refl refl read (λ n. n * 1000) (λ e. e == 3) 3 1 60
      (refl, refl, refl) (λ n lt. omega arith) (omega arith)
