-- ===== src/Service/Sending.antt =====
-- `SendAll` of examples/service_example.cpp. `send` is the system call over what it changes: it
-- returns how many bytes it took, or a number that is not positive.
use high_performance_logger.Common.{
  ℕ, zero, suc, ◌+◌, ◌≤◌, ◌<◌, ◌≡◌, true, false, Option, none, some, List, [], ◌∷◌, ◌++◌, ◌==◌,
  length, take, drop, refl, sym, ap, ◌∙◌, arith, inl, inr, Bool-cases, take-length, append_assoc,
  append-nil, length-drop, take-nil,
}
use mathlib.Core.Path.{subst}
use high_performance_logger.Common.Word.{sub64, word_mod}
use high_performance_logger.Common.Int.{ℤ, pos, negsuc, pos_part}
use high_performance_logger.Sinks.Stream.{is_positive}

take-drop : (n : ℕ) (xs : List ℕ) → take n xs ++ drop n xs ≡ xs
take-drop zero xs = refl
take-drop (suc n) [] = refl
take-drop (suc n) (x ∷ xs) = ap (λ l. x ∷ l) (take-drop n xs)

drop-nil : (m : ℕ) → drop {A = ℕ} m [] ≡ []
drop-nil zero = refl
drop-nil (suc m) = refl

take-more : (n m k : ℕ) (xs : List ℕ) → k ≡ n + m → take n xs ++ take m (drop n xs) ≡ take k xs
take-more zero m k xs e = ap (λ i. take i xs) (omega (arith, e))
take-more (suc n) m zero xs e = absurd (omega arith)
take-more (suc n) m (suc k) [] e = take-nil ℕ m
take-more (suc n) m (suc k) (x ∷ xs) e = ap (λ l. x ∷ l) (take-more n m k xs (omega arith))

drop-drop : (n m k : ℕ) (xs : List ℕ) → k ≡ n + m → drop m (drop n xs) ≡ drop k xs
drop-drop zero m k xs e = ap (λ i. drop i xs) (omega (arith, e))
drop-drop (suc n) m zero xs e = absurd (omega arith)
drop-drop (suc n) m (suc k) [] e = drop-nil m
drop-drop (suc n) m (suc k) (x ∷ xs) e = drop-drop n m k xs (omega arith)

is_positive_lem : (z : ℤ) → is_positive z ≡ true → 0 < pos_part z
is_positive_lem (pos zero) h = cc
is_positive_lem (pos (suc n)) h = omega arith
is_positive_lem (negsuc n) h = cc

not_positive : (z : ℤ) → is_positive z ≡ false → pos_part z ≡ 0
not_positive (pos zero) h = refl
not_positive (pos (suc n)) h = cc
not_positive (negsuc n) h = refl

module _ {S : Type 0} (send : List ℕ → S → ℤ × S) where
  -- The loop, on fuel; `none` when the fuel is spent.
  unfoldable pub send_all : ℕ → List ℕ → ℕ → S → Option S
  send_all zero bytes remaining s = none
  send_all (suc fuel) bytes remaining s =
      let (written, s') = send (take remaining bytes) s in
      let rest =
        send_all fuel (drop (pos_part written) bytes) (sub64 remaining (pos_part written)) s' in
      elim (remaining == 0) [
        | true ↦ some s
        | false ↦ elim (is_positive written) [ true ↦ rest | false ↦ some s' ]
      ]

  -- What a send promises of the bytes that the peer is to receive.
  module _ (received : S → List ℕ)
      (within : (bytes : List ℕ) (s : S) → pos_part (send bytes s).0 ≤ length bytes)
      (accepts : (bytes : List ℕ) (s : S)
        → received (send bytes s).1 ≡ received s ++ take (pos_part (send bytes s).0) bytes) where
    -- All of the text was sent, or its first bytes, and then a send failed.
    pub data Sent (bytes : List ℕ) (s t : S) : Type 0 where
      all_sent : received t ≡ received s ++ bytes → Sent bytes s t
      failed :
          (n : ℕ) (u : S)
          → n < length bytes
          → received t ≡ received s ++ take n bytes
          → is_positive (send (drop n bytes) u).0 ≡ false
          → t ≡ (send (drop n bytes) u).1
          → Sent bytes s t

    Sent-go :
        (n : ℕ) (bytes : List ℕ) (s u t : S)
        → n ≤ length bytes
        → received u ≡ received s ++ take n bytes
        → Sent (drop n bytes) u t
        → Sent bytes s t
    Sent-go n bytes s u t l e (all_sent f) = all_sent (
        f
        ∙ ap (λ x. x ++ drop n bytes) e
        ∙ append_assoc (received s) (take n bytes) _
        ∙ ap (λ x. received s ++ x) (take-drop n bytes))
    Sent-go n bytes s u t l e (failed m v k f b r) =
        failed (n + m) v (omega (arith, k, length-drop n bytes))
          (f
            ∙ ap (λ x. x ++ take m (drop n bytes)) e
            ∙ append_assoc (received s) (take n bytes) _
            ∙ ap (λ x. received s ++ x) (take-more n m (n + m) bytes refl))
          (subst (λ d. is_positive (send d v).0 ≡ false) (drop-drop n m (n + m) bytes refl) b)
          (subst (λ d. t ≡ (send d v).1) (drop-drop n m (n + m) bytes refl) r)

    -- What a turn of the loop does when `given` are the bytes passed to `send`.
    abbrev after_send : ℕ → List ℕ → List ℕ → ℕ → S → Option S
    after_send fuel bytes given left s =
        let (written, u) = send given s in
        let rest = send_all fuel (drop (pos_part written) bytes) left u in
        elim (is_positive written) [ true ↦ rest | false ↦ some u ]

    first_turn :
        (fuel : ℕ) (bytes : List ℕ) (s : S)
        → 0 < length bytes
        → length bytes < word_mod
        → send_all (suc fuel) bytes (length bytes) s
          ≡ after_send fuel bytes bytes (length (drop (pos_part (send bytes s).0) bytes)) s
    unfolding send_all
    first_turn fuel bytes s some_left w =
        let busy : length bytes == 0 ≡ false = ground arith in
        let given = take (length bytes) bytes in
        let turn : send_all (suc fuel) bytes (length bytes) s
            ≡ after_send fuel bytes given (sub64 (length bytes) (pos_part (send given s).0)) s =
          rw (send_all, busy) refl in
        subst
          (λ g.
            send_all (suc fuel) bytes (length bytes) s
            ≡ after_send fuel bytes g (sub64 (length bytes) (pos_part (send g s).0)) s)
          (take-length bytes) turn
        ∙ ap (λ k. after_send fuel bytes bytes k s)
            (omega (arith, length-drop (pos_part (send bytes s).0) bytes, within bytes s, w))

    sends :
        (fuel : ℕ) (bytes : List ℕ) (s : S)
        → length bytes < fuel
        → length bytes < word_mod
        → (t : S) × (send_all fuel bytes (length bytes) s ≡ some t) × Sent bytes s t
    unfolding send_all
    sends zero bytes s l w = absurd (omega arith)
    sends (suc fuel) [] s l w = (s, refl, all_sent (sym (append-nil (received s))))
    sends (suc fuel) (c ∷ cs) s l w =
        let (z, u) = send (c ∷ cs) s in
        let n = pos_part z in
        let turn = first_turn fuel (c ∷ cs) s (omega arith) w in
        elim (Bool-cases (is_positive z)) [
          | inl more ↦
              let (t, ends, sent) =
                sends fuel (drop n (c ∷ cs)) u
                  (omega
                    (arith, l, length-drop n (c ∷ cs), is_positive_lem z more, within (c ∷ cs) s))
                  (omega (arith, w, length-drop n (c ∷ cs))) in
              (
                t,
                rw (after_send, more) at turn ∙ ends,
                Sent-go n (c ∷ cs) s u t (within (c ∷ cs) s) (accepts (c ∷ cs) s) sent,
              )
          | inr over ↦ (
            u,
            rw (after_send, over) at turn,
            failed 0 s (omega arith)
                (accepts (c ∷ cs) s ∙ ap (λ k. received s ++ take k (c ∷ cs)) (not_positive z over))
                over refl,
          )
        ]

    -- Enough fuel is one turn for each byte and one more: the loop ends, and when it does all was sent
    -- in order, or the first bytes were and then a send failed.
    pub send_all_ends :
        (bytes : List ℕ) (s : S)
        → length bytes < word_mod
        → (t : S) × (send_all (suc (length bytes)) bytes (length bytes) s ≡ some t) × Sent bytes s t
    send_all_ends bytes s w = sends (suc (length bytes)) bytes s (omega arith) w
