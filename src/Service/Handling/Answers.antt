-- ===== src/Service/Handling/Answers.antt =====
-- What a client of examples/service_example.cpp gets for its request.
use high_performance_logger.Common.{
  ℕ, zero, suc, ◌≤◌, ◌≡◌, ◌≢◌, ◌⊎◌, true, false, Option, none, some, List, [], ◌∷◌, take, ap, arith,
  ◌++◌, length, refl, ◌||◌, Bool-cases, inl, inr,
}
use high_performance_logger.Common.Text.{codes}
use high_performance_logger.Common.Int.{pos, pos_part}
use high_performance_logger.Common.Decimal.{decimal}
use high_performance_logger.Service.Http.{crlf}
use high_performance_logger.Service.Http.Free.{IsFree, lacks-IsFree}
use high_performance_logger.Service.Http.Response.{
  read_response, read_response-build_http_response, status_of, status_of-build_http_response,
}
use high_performance_logger.Service.Http.Request.{parse_request_line}
use high_performance_logger.Service.Handling.{
  AcceptedConnection, Answer, answer, same_text, is_empty, handle_connection, request,
}

abbrev OneLine : Answer → Type 0
OneLine a =
    IsFree 13 a.status_text
    × IsFree 13 a.content_type
    × (a.status_code ≡ pos (pos_part a.status_code))

answer-OneLine : (loaded : ℕ) (method path : List ℕ) → OneLine (answer loaded method path)
unfolding answer
answer-OneLine loaded method path = elim (Bool-cases (is_empty method || is_empty path)) [
  | inl bad ↦ rw bad (
    lacks-IsFree 13 (codes "Bad Request") refl,
    lacks-IsFree 13 (codes "application/json") refl,
    refl,
  )
  | inr fine ↦
      elim (Bool-cases (same_text path (codes "/healthz") || same_text path (codes "/readyz"))) [
        | inl health ↦
            rw (fine, health)
              (
                lacks-IsFree 13 (codes "OK") refl,
                lacks-IsFree 13 (codes "application/json") refl,
                refl,
              )
        | inr other ↦ elim (Bool-cases (same_text path (codes "/metrics"))) [
          | inl m ↦
              rw (fine, other, m)
                (
                  lacks-IsFree 13 (codes "OK") refl,
                  lacks-IsFree 13 (codes "text/plain; version=0.0.4") refl,
                  refl,
                )
          | inr n ↦
              rw (fine, other, n)
                (
                  lacks-IsFree 13 (codes "OK") refl,
                  lacks-IsFree 13 (codes "application/json") refl,
                  refl,
                )
        ]
      ]
]

same_text_sound : (xs ys : List ℕ) → same_text xs ys ≡ true → xs ≡ ys
unfolding same_text
same_text_sound [] [] h = refl
same_text_sound [] (y ∷ ys) h = absurd cc
same_text_sound (x ∷ xs) [] h = absurd cc
same_text_sound (x ∷ xs) (y ∷ ys) h = ground (arith, same_text_sound xs ys)

different : (xs ys : List ℕ) → xs ≢ ys → same_text xs ys ≡ false
different xs ys n = elim (Bool-cases (same_text xs ys)) [
  | inl same ↦ absurd (n (same_text_sound xs ys same))
  | inr other ↦ other
]

abbrev pub IsHealth : List ℕ → Type 0
IsHealth path = (path ≡ codes "/healthz") ⊎ (path ≡ codes "/readyz")

-- What the service promises for each path: the status, the length and the body that a client reads.
pub record Promised (loaded : ℕ) (method path : List ℕ) (status : ℕ) (body : List ℕ) : Type 0 where
  pub malformed :
      (method ≡ []) ⊎ (path ≡ [])
      → (status ≡ 400) × (body ≡ codes "{\"error\":\"invalid request\"}\n")
  pub health : method ≢ [] → IsHealth path → (status ≡ 200) × (body ≡ codes "{\"status\":\"ok\"}\n")
  pub metrics :
      method ≢ []
      → path ≡ codes "/metrics"
      → (status ≡ 200) × (body ≡ (codes "service_requests_total " ++ decimal loaded) ++ codes "\n")
  pub processed :
      method ≢ []
      → path ≢ []
      → path ≢ codes "/healthz"
      → path ≢ codes "/readyz"
      → path ≢ codes "/metrics"
      → (status ≡ 200) × (body ≡ codes "{\"service\":\"hlog\",\"message\":\"request processed\"}\n")

abbrev PromisedFor : ℕ → List ℕ → List ℕ → Answer → Type 0
PromisedFor loaded method path a = Promised loaded method path (pos_part a.status_code) a.body

answer-Promised :
    (loaded : ℕ) (method path : List ℕ) → PromisedFor loaded method path (answer loaded method path)
unfolding answer same_text
answer-Promised loaded method path = record {
  malformed = λ c. malformed method path c;
  health = λ n c. health method path n c;
  metrics = λ n e. metric method path n e;
  processed = λ n e a b c. processed method path n e a b c;
}
  where
    malformed :
        (method path : List ℕ)
        → (method ≡ []) ⊎ (path ≡ [])
        → (pos_part (answer loaded method path).status_code ≡ 400)
          × ((answer loaded method path).body ≡ codes "{\"error\":\"invalid request\"}\n")
    malformed [] path c = (refl, refl)
    malformed (x ∷ method) [] c = (refl, refl)
    malformed (x ∷ method) (y ∷ path) (inl e) = absurd cc
    malformed (x ∷ method) (y ∷ path) (inr e) = absurd cc

    health :
        (method path : List ℕ)
        → method ≢ []
        → IsHealth path
        → (pos_part (answer loaded method path).status_code ≡ 200)
          × ((answer loaded method path).body ≡ codes "{\"status\":\"ok\"}\n")
    health [] path n c = absurd (n refl)
    health (x ∷ method) path n (inl e) = rw e (refl, refl)
    health (x ∷ method) path n (inr e) = rw e (refl, refl)

    metric :
        (method path : List ℕ)
        → method ≢ []
        → path ≡ codes "/metrics"
        → (pos_part (answer loaded method path).status_code ≡ 200)
          × ((answer loaded method path).body
              ≡ (codes "service_requests_total " ++ decimal loaded) ++ codes "\n")
    metric [] path n e = absurd (n refl)
    metric (x ∷ method) path n e = rw e (refl, refl)

    processed :
        (method path : List ℕ)
        → method ≢ []
        → path ≢ []
        → path ≢ codes "/healthz"
        → path ≢ codes "/readyz"
        → path ≢ codes "/metrics"
        → (pos_part (answer loaded method path).status_code ≡ 200)
          × ((answer loaded method path).body
              ≡ codes "{\"service\":\"hlog\",\"message\":\"request processed\"}\n")
    processed [] path n e a b c = absurd (n refl)
    processed (x ∷ method) [] n e a b c = absurd (e refl)
    processed (x ∷ method) (y ∷ path) n e a b c =
        rw
          (
            different (y ∷ path) (codes "/healthz") a,
            different (y ∷ path) (codes "/readyz") b,
            different (y ∷ path) (codes "/metrics") c,
          )
          (refl, refl)

-- What a client reads from a response that was sent: its status, the length announced and the body.
abbrev pub Reads : Option (List ℕ) → ℕ → List ℕ → Type 0
Reads response status body = elim response [
  | none ↦ ⊥
  | some text ↦ (status_of text ≡ status) × (read_response text ≡ some (length body, body))
]

take_all : (n : ℕ) (xs : List ℕ) → length xs ≤ n → take n xs ≡ xs
take_all zero [] h = refl
take_all zero (x ∷ xs) h = absurd (omega arith)
take_all (suc n) [] h = refl
take_all (suc n) (x ∷ xs) h = ap (λ l. x ∷ l) (take_all n xs (omega arith))

-- For a request of at most 4096 bytes whose first line has a method and a path, neither with a space,
-- and something else, all without a line feed, the client reads the status, the length and the body
-- that the service promises for that method and path, whatever follows the line.
pub handle_connection-Promised :
    (connection : AcceptedConnection) (method path version rest : List ℕ) (total loaded : ℕ)
    → IsFree b' ' method
    → IsFree b' ' path
    → IsFree 10 (method ++ b' ' ∷ (path ++ b' ' ∷ version))
    → length ((method ++ b' ' ∷ (path ++ b' ' ∷ version)) ++ (crlf ++ rest)) ≤ 4096
    → (status : ℕ) × (body : List ℕ) × Promised loaded method path status body
      × Reads
          ((handle_connection connection
            (request ((method ++ b' ' ∷ (path ++ b' ' ∷ version)) ++ (crlf ++ rest)))
            total
            loaded).response)
          status
          body
unfolding handle_connection
handle_connection-Promised c m p v rest total loaded h k l short =
    let a = answer loaded m p in
    let (text, type, natural) = answer-OneLine loaded m p in
    (
      pos_part a.status_code,
      a.body,
      answer-Promised loaded m p,
      rw (take_all 4096 _ short, parse_request_line m p v rest h k l)
          (
            rw natural (
                status_of-build_http_response (pos_part a.status_code) a.status_text a.content_type
                  a.body),
            read_response-build_http_response a.status_code a.status_text a.content_type a.body text
                type,
          ),
    )
