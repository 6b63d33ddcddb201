-- ===== src/Service/Handling.antt =====
-- `HandleConnection` of examples/service_example.cpp. What `recv` delivers, and the counter of
-- requests as it is read back for the metrics, are arguments.
pub mod Answers
use high_performance_logger.Common.{
  ℕ, Bool, true, false, ◌&&◌, ◌||◌, Option, none, some, List, [], ◌∷◌, ◌++◌, ◌==◌, if◌then◌else◌,
  length, take,
}
use high_performance_logger.Common.Text.{codes}
use high_performance_logger.Common.Word.{add64}
use high_performance_logger.Common.Int.{ℤ, pos}
use high_performance_logger.Common.Decimal.{decimal}
use high_performance_logger.Level.{LogLevel, info, warn}
use high_performance_logger.Payload.Parts.{Arg, text_arg, array_arg, pointer_arg, integral_arg}
use high_performance_logger.Service.Descriptor.{destroy}
use high_performance_logger.Service.Http.{parse_request, build_json_response, build_http_response}

pub record AcceptedConnection : Type 0 where
  pub fd : ℤ
  pub remote : List ℕ

-- A `recv` that is not positive leaves an error text for `errno`; otherwise it copies what the peer
-- has sent, up to the 4096 bytes of the buffer.
pub data Received : Type 0 where
  recv_failed : List ℕ → Received
  request : List ℕ → Received

pub record Answer : Type 0 where
  pub status_code : ℤ
  pub status_text : List ℕ
  pub content_type : List ℕ
  pub body : List ℕ

-- What the call does: the counter after it, what it passes to `SendAll`, its one log message, and
-- the descriptors it closes on return.
pub record Handled : Type 0 where
  pub total_requests : ℕ
  pub response : Option (List ℕ)
  pub level : LogLevel
  pub message : List Arg
  pub closed : List ℤ

abbrev pub is_empty {ℓ} : {A : Type ℓ} → List A → Bool
is_empty [] = true
is_empty (x ∷ xs) = false

unfoldable pub same_text : List ℕ → List ℕ → Bool
same_text [] [] = true
same_text (x ∷ xs) (y ∷ ys) = (x == y) && same_text xs ys
same_text _ _ = false

abbrev pub ok_json : List ℕ → Answer
ok_json body = record {
  status_code = pos 200;
  status_text = codes "OK";
  content_type = codes "application/json";
  body = build_json_response body;
}

abbrev pub bad_request : Answer
bad_request = record {
  status_code = pos 400;
  status_text = codes "Bad Request";
  content_type = codes "application/json";
  body = build_json_response (codes "{\"error\":\"invalid request\"}\n");
}

abbrev pub metrics : ℕ → Answer
metrics total = record {
  status_code = pos 200;
  status_text = codes "OK";
  content_type = codes "text/plain; version=0.0.4";
  body = (codes "service_requests_total " ++ decimal total) ++ 10 ∷ [];
}

unfoldable pub answer : ℕ → List ℕ → List ℕ → Answer
unfolding same_text
answer loaded method path =
    if is_empty method || is_empty path
    then bad_request
    else if same_text path (codes "/healthz") || same_text path (codes "/readyz")
    then ok_json (codes "{\"status\":\"ok\"}\n")
    else if same_text path (codes "/metrics")
    then metrics loaded
    else ok_json (codes "{\"service\":\"hlog\",\"message\":\"request processed\"}\n")

unfoldable pub handle_connection : AcceptedConnection → Received → ℕ → ℕ → Handled
unfolding answer parse_request build_http_response destroy
handle_connection connection (recv_failed error) total loaded = record {
  total_requests = total;
  response = none;
  level = warn;
  message =
      array_arg (codes "remote=")
      ∷ text_arg connection.remote
      ∷ array_arg (codes " recv_error=")
      ∷ pointer_arg (some error)
      ∷ [];
  closed = destroy (record { fd = connection.fd });
}
handle_connection connection (request bytes) total loaded =
    let (method, path) = parse_request (take 4096 bytes) in
    let a = answer loaded method path in
    let response = build_http_response a.status_code a.status_text a.content_type a.body in
    record {
      total_requests = add64 total 1;
      response = some response;
      level = info;
      message =
          array_arg (codes "remote=")
          ∷ text_arg connection.remote
          ∷ array_arg (codes " method=")
          ∷ text_arg method
          ∷ array_arg (codes " path=")
          ∷ text_arg path
          ∷ array_arg (codes " status=")
          ∷ integral_arg 9 a.status_code
          ∷ array_arg (codes " bytes=")
          ∷ integral_arg 19 (pos (length response))
          ∷ [];
      closed = destroy (record { fd = connection.fd });
    }
