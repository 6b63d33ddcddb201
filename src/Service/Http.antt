-- ===== src/Service/Http.antt =====
-- `ParseRequest`, `BuildJsonResponse` and `BuildHttpResponse` of examples/service_example.cpp, and the
-- searches of `std::string_view` that they use; `npos` is `none`.
pub mod Free
pub mod Response
pub mod Request
use high_performance_logger.Common.{
  ℕ, zero, suc, ◌+◌, ◌-◌, Bool, true, false, ◌&&◌, Option, none, some, List, [], ◌∷◌, ◌++◌, ◌==◌,
  if◌then◌else◌, length, take, drop,
}
use high_performance_logger.Common.Text.{codes}
use high_performance_logger.Common.Int.{ℤ}
use high_performance_logger.Common.Decimal.{decimal, decimal_ℤ}

abbrev pub shift_by : ℕ → Option ℕ → Option ℕ
shift_by n none = none
shift_by n (some i) = some (n + i)

unfoldable pub index_of : ℕ → List ℕ → Option ℕ
index_of c [] = none
index_of c (x ∷ xs) = let rest = shift_by 1 (index_of c xs) in if x == c then some 0 else rest

-- `text.find(c, from)`.
unfoldable pub find_char : List ℕ → ℕ → ℕ → Option ℕ
unfolding index_of
find_char text c from = shift_by from (index_of c (drop from text))

abbrev pub starts_with : List ℕ → List ℕ → Bool
starts_with [] text = true
starts_with (n ∷ needle) [] = false
starts_with (n ∷ needle) (x ∷ xs) = (n == x) && starts_with needle xs

-- `text.find(needle)`.
unfoldable pub find_text : List ℕ → List ℕ → Option ℕ
find_text needle [] = if starts_with needle [] then some 0 else none
find_text needle (x ∷ xs) =
    let rest = shift_by 1 (find_text needle xs) in
    if starts_with needle (x ∷ xs) then some 0 else rest

abbrev pub substr : ℕ → ℕ → List ℕ → List ℕ
substr position count text = take count (drop position text)

abbrev pub first_line : List ℕ → Option ℕ → List ℕ
first_line request none = request
first_line request (some line_end) = substr 0 line_end request

abbrev pub after_space : Option ℕ → ℕ
after_space none = 0
after_space (some first_space) = first_space + 1

abbrev pub method_and_path : List ℕ → Option ℕ → Option ℕ → List ℕ × List ℕ
method_and_path line none second = ([], [])
method_and_path line (some first) none = ([], [])
method_and_path line (some first) (some second) =
    (substr 0 first line, substr (first + 1) (second - first - 1) line)

abbrev pub crlf : List ℕ
crlf = 13 ∷ 10 ∷ []

-- The spaces of the first line delimit the method and the path.
unfoldable pub parse_line : List ℕ → List ℕ × List ℕ
unfolding find_char
parse_line line =
    let first_space = find_char line b' ' 0 in
    method_and_path line first_space (find_char line b' ' (after_space first_space))

unfoldable pub parse_request : List ℕ → List ℕ × List ℕ
unfolding find_text parse_line
parse_request request = parse_line (first_line request (find_text crlf request))

abbrev pub build_json_response : List ℕ → List ℕ
build_json_response body = body

-- Texts written one after the other, and then a last one.
abbrev pub written_before : List (List ℕ) → List ℕ → List ℕ
written_before [] last = last
written_before (text ∷ texts) last = text ++ written_before texts last

unfoldable pub build_http_response : ℤ → List ℕ → List ℕ → List ℕ → List ℕ
build_http_response status_code status_text content_type body =
    written_before
      (codes "HTTP/1.1 "
        ∷ decimal_ℤ status_code
        ∷ (b' ' ∷ [])
        ∷ status_text
        ∷ crlf
        ∷ codes "Content-Type: "
        ∷ content_type
        ∷ crlf
        ∷ codes "Content-Length: "
        ∷ decimal (length body)
        ∷ crlf
        ∷ codes "Connection: close"
        ∷ crlf
        ∷ crlf
        ∷ [])
      body
