-- ===== src/Service/Tests.antt =====
-- Runs of the service, and its theorems at concrete inputs.
use high_performance_logger.Common.{
  ℕ, ◌<◌, ◌≤◌, ◌≡◌, some, List, [], ◌∷◌, ◌++◌, length, take, refl, arith, ℕ_discrete,
}
use mathlib.Core.Path.{subst}
use high_performance_logger.Common.Text.{codes}
use high_performance_logger.Common.Int.{ℤ, pos, negsuc, pos_part}
use high_performance_logger.Common.Decimal.{decimal_ℤ}
use high_performance_logger.Service.Numbers.{int, parse_integer}
use high_performance_logger.Service.Numbers.Laws.{parse_integer-decimal_ℤ}
use high_performance_logger.Service.Settings.{load_config}
use high_performance_logger.Service.Settings.Bounds.{Bounded, load_config-Bounded}
use high_performance_logger.Service.Http.{build_http_response, crlf}
use high_performance_logger.Service.Http.Free.{lacks-IsFree}
use high_performance_logger.Service.Http.Response.{read_response, read_response-build_http_response}
use high_performance_logger.Service.Sending.{send_all, Sent, send_all_ends}
use high_performance_logger.Service.Handling.{AcceptedConnection, request, handle_connection}
use high_performance_logger.Service.Handling.Answers.{Promised, Reads, handle_connection-Promised}
use high_performance_logger.Service.Connections.{push, pop, stop}
use high_performance_logger.Service.Running.{
  Service, start, accept_one, worker_turn, stop_workers, stopping, in_accept, done, finished,
  accepts, enters, leaves, stops, joins, works, Reach, started, then_step,
}
use high_performance_logger.Service.Running.Drained.{AllHandled, finished-AllHandled}

parse_integer-decimal_ℤ_example : parse_integer int (decimal_ℤ (negsuc 41)) (pos 7) ≡ negsuc 41
parse_integer-decimal_ℤ_example = parse_integer-decimal_ℤ int (negsuc 41) (pos 7) refl

load_config-Bounded_example : Bounded (load_config (λ name. some (codes "-5")))
load_config-Bounded_example = load_config-Bounded (λ name. some (codes "-5"))

read_response-build_http_response_example :
    read_response (build_http_response (pos 200) (codes "OK") (codes "text/plain") (codes "body"))
    ≡ some (4, codes "body")
read_response-build_http_response_example =
    read_response-build_http_response (pos 200) (codes "OK") (codes "text/plain") (codes "body")
      (lacks-IsFree 13 (codes "OK") refl) (lacks-IsFree 13 (codes "text/plain") refl)

abbrev request_line : List ℕ
request_line = codes "GET" ++ b' ' ∷ (codes "/metrics" ++ b' ' ∷ codes "HTTP/1.1")

abbrev peer : AcceptedConnection
peer = record { fd = pos 5; remote = codes "10.0.0.1" }

handle_connection-Promised_example :
    (status : ℕ) × (body : List ℕ) × Promised 9 (codes "GET") (codes "/metrics") status body
    × Reads
        ((handle_connection peer
          (request (request_line ++ (crlf ++ codes "Host: a")))
          8
          9).response)
        status
        body
handle_connection-Promised_example =
    handle_connection-Promised peer (codes "GET") (codes "/metrics") (codes "HTTP/1.1")
      (codes "Host: a") 8 9 (lacks-IsFree 32 (codes "GET") refl)
      (lacks-IsFree 32 (codes "/metrics") refl) (lacks-IsFree 10 request_line refl) (omega arith)

-- A socket that takes two bytes at a time.
abbrev two_of : List ℕ → ℕ
two_of [] = 0
two_of (c ∷ []) = 1
two_of (c ∷ d ∷ cs) = 2

abbrev send_two : List ℕ → List ℕ → ℤ × List ℕ
send_two bytes s = (pos (two_of bytes), s ++ take (two_of bytes) bytes)

two_of_within : (bytes s : List ℕ) → pos_part (send_two bytes s).0 ≤ length bytes
two_of_within [] s = omega arith
two_of_within (c ∷ []) s = omega arith
two_of_within (c ∷ d ∷ cs) s = omega arith

send_all_ends_example :
    (t : List ℕ) × (send_all send_two 6 (codes "hello") 5 [] ≡ some t)
    × Sent send_two (λ s. s) two_of_within (λ bytes s. refl) (codes "hello") [] t
send_all_ends_example =
    send_all_ends send_two (λ s. s) two_of_within (λ bytes s. refl) (codes "hello") [] (omega arith)

sent_hello : send_all send_two 6 (codes "hello") 5 [] ≡ some (codes "hello")
unfolding send_all
sent_hello = refl

-- One worker, one connection: it is accepted, taken and handled, and the service ends.
abbrev after_accept : Service
after_accept = accept_one 0 peer (record start { main = in_accept 0 })

abbrev turn : Service → Service
turn s = worker_turn 0 s (s.worker 0)

abbrev after_leave : Service
after_leave = record (turn (turn after_accept)) { main = stopping }

abbrev at_end : Service
at_end = record (turn (stop_workers after_leave)) { main = finished }

zero_worker : (i : ℕ) → i < 1 → 0 ≡ i
zero_worker i l = omega arith

run_to_end : Reach 1 1 at_end
unfolding accept_one worker_turn stop_workers push pop stop ℕ_discrete
run_to_end =
    then_step
      (then_step
        (then_step
          (then_step
            (then_step
              (then_step (then_step (then_step started (enters 0 refl refl)) (accepts 0 peer refl))
                (works 0 (omega arith)))
              (works 0 (omega arith)))
            (leaves 1 refl refl))
          (stops refl))
        (works 0 (omega arith)))
      (joins refl (λ i l.
        subst (λ j. (turn (stop_workers after_leave)).worker j ≡ done) (zero_worker i l) refl))

finished-AllHandled_example : AllHandled 1 at_end
finished-AllHandled_example = finished-AllHandled 1 1 at_end (omega arith) run_to_end refl
