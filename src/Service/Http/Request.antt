-- ===== src/Service/Http/Request.antt =====
-- What `ParseRequest` of examples/service_example.cpp finds in a request.
use high_performance_logger.Common.{
  ℕ, zero, suc, ◌+◌, ◌-◌, ◌≡◌, none, some, List, [], ◌∷◌, ◌++◌, length, take, drop, refl, ap, ap₂,
  ◌∙◌, arith, take-append,
}
use high_performance_logger.Service.Http.Free.{IsFree}
use high_performance_logger.Service.Http.{
  index_of, find_char, find_text, crlf, parse_line, parse_request,
}

index_of-append :
    (c : ℕ) (xs ys : List ℕ) → IsFree c xs → index_of c (xs ++ c ∷ ys) ≡ some (length xs)
unfolding index_of
index_of-append c [] ys h = ground arith
index_of-append c (x ∷ xs) ys (n, h) = ground (arith, index_of-append c xs ys h)

index_of-IsFree : (c : ℕ) (xs : List ℕ) → IsFree c xs → index_of c xs ≡ none
unfolding index_of
index_of-IsFree c [] h = refl
index_of-IsFree c (x ∷ xs) (n, h) = ground (arith, index_of-IsFree c xs h)

-- The search from a position, by what stands there.
find_from :
    (c : ℕ) (line : List ℕ) (n : ℕ) (ys zs : List ℕ)
    → drop n line ≡ ys ++ c ∷ zs
    → IsFree c ys
    → find_char line c n ≡ some (n + length ys)
unfolding find_char
find_from c line n ys zs e h = rw (e, index_of-append c ys zs h) refl

drop_past :
    (xs : List ℕ) (c : ℕ) (ys : List ℕ) (n : ℕ) → n ≡ length xs + 1 → drop n (xs ++ c ∷ ys) ≡ ys
drop_past [] c ys zero e = absurd (omega arith)
drop_past [] c ys (suc zero) e = refl
drop_past [] c ys (suc (suc n)) e = absurd (omega arith)
drop_past (x ∷ xs) c ys zero e = absurd (omega arith)
drop_past (x ∷ xs) c ys (suc n) e = drop_past xs c ys n (omega arith)

-- A line with two spaces is cut at them.
parse_line-append :
    (method path rest : List ℕ)
    → IsFree b' ' method
    → IsFree b' ' path
    → parse_line (method ++ b' ' ∷ (path ++ b' ' ∷ rest)) ≡ (method, path)
unfolding parse_line
parse_line-append m p v h k =
    let line = m ++ b' ' ∷ (p ++ b' ' ∷ v) in
    let first : find_char line b' ' 0 ≡ some (length m) =
      find_from b' ' line 0 m (p ++ b' ' ∷ v) refl h ∙ ap some (omega arith) in
    let second =
      find_from b' ' line (length m + 1) p v (drop_past m b' ' (p ++ b' ' ∷ v) (length m + 1) refl)
        k in
    let count : length m + 1 + length p - length m - 1 ≡ length p = omega arith in
    rw (first, second, count, drop_past m b' ' (p ++ b' ' ∷ v) (length m + 1) refl)
      (ap₂ (λ a b. (a, b)) (take-append m (b' ' ∷ (p ++ b' ' ∷ v))) (take-append p (b' ' ∷ v)))

find_text-append :
    (line rest : List ℕ)
    → IsFree 10 line
    → find_text crlf (line ++ (crlf ++ rest)) ≡ some (length line)
unfolding find_text
find_text-append [] rest h = refl
find_text-append (x ∷ []) rest (n, h) = ground arith
find_text-append (x ∷ y ∷ xs) rest (n, h) = ground (arith, find_text-append (y ∷ xs) rest h)

-- A request line of a method, a path and something else, of which the first two have no space and
-- none a line feed, is read as that method and that path, whatever follows the line.
pub parse_request_line :
    (method path version rest : List ℕ)
    → IsFree b' ' method
    → IsFree b' ' path
    → IsFree 10 (method ++ b' ' ∷ (path ++ b' ' ∷ version))
    → parse_request ((method ++ b' ' ∷ (path ++ b' ' ∷ version)) ++ (crlf ++ rest)) ≡ (method, path)
unfolding parse_request
parse_request_line m p v rest h k l =
    let line = m ++ b' ' ∷ (p ++ b' ' ∷ v) in
    let cut : take (length line) (line ++ (crlf ++ rest)) ≡ line =
      take-append line (crlf ++ rest) in
    rw (find_text-append line rest l, cut) (parse_line-append m p v h k)
