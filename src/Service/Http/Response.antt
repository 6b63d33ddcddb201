-- ===== src/Service/Http/Response.antt =====
-- The response of examples/service_example.cpp, as a client reads it.
use high_performance_logger.Common.{
  ℕ, suc, ◌<◌, ◌≡◌, Option, none, some, List, [], ◌∷◌, ◌++◌, if◌then◌else◌, length, drop, refl, ap,
  ◌∙◌, arith,
}
use high_performance_logger.Common.Text.{codes}
use high_performance_logger.Common.Int.{ℤ, pos, negsuc}
use high_performance_logger.Common.Decimal.{
  decimal, decimal_ℤ, value_from, value-decimal, IsDigits, decimal-IsDigits,
}
use high_performance_logger.Service.Numbers.{digits_of}
use high_performance_logger.Service.Http.Free.{IsFree, lacks-IsFree}
use high_performance_logger.Service.Http.{starts_with, crlf, written_before, build_http_response}

-- The text behind the first occurrence of another one.
unfoldable pub behind : List ℕ → List ℕ → Option (List ℕ)
behind needle [] = if starts_with needle [] then some [] else none
behind needle (x ∷ xs) =
    let rest = behind needle xs in
    if starts_with needle (x ∷ xs) then some (drop (length needle) (x ∷ xs)) else rest

abbrev number_in_front : List ℕ → ℕ
number_in_front text = value_from 0 (digits_of text).0

abbrev both {ℓ κ} : {A : Type ℓ} {B : Type κ} → Option A → Option B → Option (A × B)
both (some a) (some b) = some (a, b)
both (some a) none = none
both none o = none

abbrev content_length_of : Option (List ℕ) → Option ℕ
content_length_of none = none
content_length_of (some value) = some (number_in_front value)

-- A client: the length that the header announces, and what follows the empty line.
unfoldable pub read_response : List ℕ → Option (ℕ × List ℕ)
unfolding behind digits_of
read_response text =
    both (content_length_of (behind (crlf ++ codes "Content-Length: ") text))
      (behind (crlf ++ crlf) text)

IsDigits-IsFree : (xs : List ℕ) → IsDigits xs → IsFree 13 xs
IsDigits-IsFree [] h = tt
IsDigits-IsFree (x ∷ xs) (low, high, h) = (λ e. omega arith, IsDigits-IsFree xs h)

IsFree-decimal_ℤ : (z : ℤ) → IsFree 13 (decimal_ℤ z)
unfolding decimal_ℤ
IsFree-decimal_ℤ (pos n) = IsDigits-IsFree _ (decimal-IsDigits n)
IsFree-decimal_ℤ (negsuc n) = (λ e. omega arith, IsDigits-IsFree _ (decimal-IsDigits (suc n)))

-- The search passes over a text without the first byte of what it looks for.
behind-append :
    (needle xs ys : List ℕ)
    → IsFree 13 xs
    → behind (13 ∷ needle) (xs ++ ys) ≡ behind (13 ∷ needle) ys
unfolding behind
behind-append needle [] ys h = refl
behind-append needle (x ∷ xs) ys (n, h) = ground (arith, behind-append needle xs ys h)

-- The number in the status line.
unfoldable pub status_of : List ℕ → ℕ
unfolding digits_of
status_of text = number_in_front (drop (length (codes "HTTP/1.1 ")) text)

digits_in_front :
    (xs : List ℕ) (c : ℕ) (ys : List ℕ) → IsDigits xs → c < b'0' → (digits_of (xs ++ c ∷ ys)).0 ≡ xs
unfolding digits_of
digits_in_front [] c ys h l = ground arith
digits_in_front (x ∷ xs) c ys (low, high, h) l = ground (arith, digits_in_front xs c ys h l)

module _ (status_code : ℤ) (status_text content_type body : List ℕ)
    (one_line : IsFree 13 status_text) (plain : IsFree 13 content_type) where
  abbrev last_line : List ℕ
  last_line = written_before (codes "Connection: close" ∷ crlf ∷ crlf ∷ []) body

  -- What follows the name of the length field.
  abbrev rest_of_header : List ℕ
  rest_of_header = decimal (length body) ++ (crlf ++ last_line)

  abbrev length_line : List ℕ
  length_line = codes "Content-Length: " ++ rest_of_header

  abbrev type_line : List ℕ
  type_line = written_before (codes "Content-Type: " ∷ content_type ∷ crlf ∷ []) length_line

  -- A search that begins with a carriage return skips the status line, and each line to come.
  past_status :
      (needle : List ℕ)
      → behind (13 ∷ needle) (build_http_response status_code status_text content_type body)
        ≡ behind (13 ∷ needle) (crlf ++ type_line)
  unfolding build_http_response
  past_status needle =
      behind-append needle (codes "HTTP/1.1 ")
        (decimal_ℤ status_code ++ (b' ' ∷ (status_text ++ (crlf ++ type_line))))
        (lacks-IsFree 13 (codes "HTTP/1.1 ") refl)
      ∙ behind-append needle (decimal_ℤ status_code) (b' ' ∷ (status_text ++ (crlf ++ type_line)))
          (IsFree-decimal_ℤ status_code)
      ∙ behind-append needle (b' ' ∷ status_text) (crlf ++ type_line) (λ e. omega arith, one_line)

  past_type :
      (needle : List ℕ)
      → behind (13 ∷ needle) (10 ∷ type_line) ≡ behind (13 ∷ needle) (crlf ++ length_line)
  past_type needle =
      behind-append needle (10 ∷ codes "Content-Type: ") (content_type ++ (crlf ++ length_line))
        (lacks-IsFree 13 (10 ∷ codes "Content-Type: ") refl)
      ∙ behind-append needle content_type (crlf ++ length_line) plain

  past_length :
      (needle : List ℕ)
      → behind (13 ∷ needle) (10 ∷ length_line) ≡ behind (13 ∷ needle) (crlf ++ last_line)
  past_length needle =
      behind-append needle (10 ∷ codes "Content-Length: ") rest_of_header
        (lacks-IsFree 13 (10 ∷ codes "Content-Length: ") refl)
      ∙ behind-append needle (decimal (length body)) (crlf ++ last_line)
          (IsDigits-IsFree _ (decimal-IsDigits (length body)))

  past_connection :
      (needle : List ℕ)
      → behind (13 ∷ needle) (10 ∷ last_line) ≡ behind (13 ∷ needle) (crlf ++ (crlf ++ body))
  past_connection needle =
      behind-append needle (10 ∷ codes "Connection: close") (crlf ++ (crlf ++ body))
        (lacks-IsFree 13 (10 ∷ codes "Connection: close") refl)

  length_found :
      behind
        (crlf ++ codes "Content-Length: ")
        (build_http_response status_code status_text content_type body)
      ≡ some rest_of_header
  unfolding behind
  length_found =
      past_status (10 ∷ codes "Content-Length: ") ∙ past_type (10 ∷ codes "Content-Length: ")

  body_found :
      behind (crlf ++ crlf) (build_http_response status_code status_text content_type body)
      ≡ some body
  unfolding behind
  body_found =
      past_status (10 ∷ crlf)
      ∙ past_type (10 ∷ crlf)
      ∙ past_length (10 ∷ crlf)
      ∙ past_connection (10 ∷ crlf)

-- A client that looks for the announced length and for the end of the header finds the size of the
-- body and exactly the body, if neither the status text nor the content type has a carriage return.
pub read_response-build_http_response :
    (status_code : ℤ) (status_text content_type body : List ℕ)
    → IsFree 13 status_text
    → IsFree 13 content_type
    → read_response (build_http_response status_code status_text content_type body)
      ≡ some (length body, body)
unfolding read_response
read_response-build_http_response code st ct body h k =
    rw (length_found code st ct body h k, body_found code st ct body h k)
      (ap (λ n. some (n, body))
        (ap (value_from 0) (
            digits_in_front (decimal (length body)) 13 (10 ∷ last_line code st ct body h k)
              (decimal-IsDigits (length body)) (omega arith))
          ∙ value-decimal (length body)))

-- The status line has the status of the response.
pub status_of-build_http_response :
    (n : ℕ) (status_text content_type body : List ℕ)
    → status_of (build_http_response (pos n) status_text content_type body) ≡ n
unfolding status_of build_http_response decimal_ℤ
status_of-build_http_response n st ct body =
    ap (value_from 0) (digits_in_front (decimal n) 32 _ (decimal-IsDigits n) (omega arith))
    ∙ value-decimal n
