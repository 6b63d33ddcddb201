-- ===== src/Payload/Laws.antt =====
-- A payload holds exactly the text that was put into it, whatever storage it is in.
use high_performance_logger.Common.{
  ℕ, zero, suc, ◌+◌, ◌-◌, ◌∙◌, ◌*◌, ◌%◌, ◌≤◌, ◌<◌, ◌≡◌, max, false, some, List, [], ◌∷◌, ◌++◌, leb,
  Bool-cases, inl, inr, arith, refl, ap, if◌then◌else◌, length, set, take, get_elem?, replicate,
  overwrite, append-nil, length-set, length-append, sym, length-overwrite, length-replicate,
  length-take, take-overwrite, take-set_self, take-set_last, get_elem?-set_self, take-zero,
}
use high_performance_logger.Common.Word.{add64, word_mod}
use high_performance_logger.Payload.{
  LogPayload, Place, inside, on_heap, inline_capacity, bytes, heap_bytes, write, terminate, grow,
  ensure_capacity, assign, append, push_back, clear, view, empty_payload,
}

-- What the place of the text requires of the two storages.
abbrev pub Stored : Place → LogPayload → Type 0
Stored inside p = p.capacity ≡ inline_capacity
Stored on_heap p = length (heap_bytes p.heap_storage) ≡ p.capacity + 1

pub record IsValid (p : LogPayload) : Type 0 where
  pub inline_bytes : length p.inline_storage ≡ inline_capacity + 1
  pub stored : Stored p.data_at p
  pub fits : p.size ≤ p.capacity
  pub terminated : get_elem? (bytes p) p.size ≡ some 0

bytes-length : (p : LogPayload) → IsValid p → length (bytes p) ≡ p.capacity + 1
bytes-length p v = ground arith

-- What `EnsureCapacity` leaves: the text, and room for what was asked.
record Roomy (p q : LogPayload) (n : ℕ) : Type 0 where
  valid : IsValid q
  room : n ≤ q.capacity
  same_size : q.size ≡ p.size
  same_view : view q ≡ view p
  place : q.data_at ≡ (if leb n p.capacity then p.data_at else on_heap)

module _ (p : LogPayload) (v : IsValid p) where
  pub length-view : length (view p) ≡ p.size
  length-view = omega (arith, length-take p.size (bytes p), bytes-length p v, v.fits)

  grow-Roomy :
      (n c : ℕ)
      → n ≤ c
      → p.capacity < c
      → c < word_mod - 1
      → leb n p.capacity ≡ false
      → Roomy p (grow p c) n
  unfolding grow
  grow-Roomy n c h l w t = record {
    valid = record {
      inline_bytes = v.inline_bytes;
      stored = whole;
      fits = omega (arith, v.fits);
      terminated = get_elem?-set_self _ p.size 0 (omega (arith, v.fits, copied));
    };
    room = h;
    same_size = refl;
    same_view =
        take-set_self _ p.size 0
        ∙ take-overwrite (replicate (add64 c 1) 0) 0 (view p) p.size (omega (arith, length-view))
            (omega (arith, v.fits, length-replicate (add64 c 1) (zero)))
        ∙ ap (λ l. l ++ view p) (take-zero (replicate (add64 c 1) 0));
    place = rw t;
  }
    where
      copied : length (overwrite (replicate (add64 c 1) 0) 0 (view p)) ≡ c + 1
      copied =
          length-overwrite (replicate (add64 c 1) 0) 0 (view p)
          ∙ length-replicate (add64 c 1) 0
          ∙ omega arith

      whole : length (set (overwrite (replicate (add64 c 1) 0) 0 (view p)) p.size 0) ≡ c + 1
      whole = length-set (overwrite (replicate (add64 c 1) 0) 0 (view p)) p.size 0 ∙ copied

  ensure_capacity-Roomy : (n : ℕ) → n < word_mod - 1 → Roomy p (ensure_capacity p n) n
  unfolding ensure_capacity
  ensure_capacity-Roomy n h = elim (Bool-cases (leb n p.capacity)) [
    | inl enough ↦ rw enough (record {
      valid = v;
      room = ground arith;
      same_size = refl;
      same_view = refl;
      place = rw enough;
    })
    | inr short ↦ rw short (
        grow-Roomy n (max (p.capacity * 2 % word_mod) n) (omega arith) (ground arith) (omega arith)
          short)
  ]

-- The payload after its bytes and size have been stored, with the zero behind them.
abbrev stored_payload : LogPayload → List ℕ → ℕ → LogPayload
stored_payload q b n = terminate (record (write q b) { size = n })

record Settled (q : LogPayload) (b : List ℕ) (n : ℕ) : Type 0 where
  valid : IsValid (stored_payload q b n)
  holds : view (stored_payload q b n) ≡ take n b
  place : (stored_payload q b n).data_at ≡ q.data_at

store-Settled :
    (q : LogPayload) (b : List ℕ) (n : ℕ)
    → IsValid q
    → length b ≡ q.capacity + 1
    → n ≤ q.capacity
    → Settled q b n
store-Settled q b n v e h = record {
  valid = record {
    inline_bytes = ground (arith, length-set b n 0);
    stored = ground (arith, length-set b n 0);
    fits = ground arith;
    terminated = ground (arith, get_elem?-set_self b n 0);
  };
  holds = ground (arith, take-set_self b n 0);
  place = ground arith;
}

-- After an operation: valid, with this text, and on the heap only if it was or had to grow.
pub record Becomes (p q : LogPayload) (text : List ℕ) : Type 0 where
  pub valid : IsValid q
  pub holds : view q ≡ text
  pub place : q.data_at ≡ (if leb (length text) p.capacity then p.data_at else on_heap)

module _ (p : LogPayload) (v : IsValid p) where
  -- `assign` makes a valid payload hold exactly the text, and moves it to the heap only if the text
  -- does not fit its capacity.
  pub assign-Becomes : (text : List ℕ) → length text < word_mod - 1 → Becomes p (assign p text) text
  unfolding assign
  assign-Becomes text h = record {
    valid = done.valid;
    holds =
        done.holds
        ∙ take-overwrite (bytes q) 0 text (length text) (omega arith)
            (omega (arith, bytes-length q r.valid, r.room))
        ∙ ap (λ l. l ++ text) (take-zero (bytes q));
    place = done.place ∙ r.place;
  }
    where
      q : LogPayload
      q = ensure_capacity p (length text)

      r : Roomy p q (length text)
      r = ensure_capacity-Roomy p v (length text) h

      done : Settled q (overwrite (bytes q) 0 text) (length text)
      done =
          store-Settled q (overwrite (bytes q) 0 text) (length text) r.valid
            (length-overwrite (bytes q) 0 text ∙ bytes-length q r.valid) r.room

  -- `append` adds the text behind what a valid payload holds, which stays valid, and moves it to the
  -- heap only if the two do not fit its capacity.
  pub append-Becomes :
      (text : List ℕ)
      → length (view p ++ text) < word_mod - 1
      → Becomes p (append p text) (view p ++ text)
  unfolding append
  append-Becomes [] h = record {
    valid = v;
    holds = sym (append-nil (view p));
    place = ground (arith, ap (length {A = ℕ}) (append-nil (view p)), length-view p v, v.fits);
  }
  append-Becomes (c ∷ rest) h = record {
    valid = done.valid;
    holds =
        done.holds
        ∙ take-overwrite (bytes q) q.size text _ (omega (arith, added))
            (omega (arith, bytes-length q r.valid, r.room, added))
        ∙ ap (λ l. l ++ text) r.same_view;
    place =
        done.place
        ∙ r.place
        ∙ ap (λ (n : ℕ). if leb n p.capacity then p.data_at else on_heap)
            (omega (arith, total, added));
  }
    where
      text : List ℕ
      text = c ∷ rest

      total : length (view p ++ text) ≡ p.size + length text
      total = length-append (view p) text ∙ omega (arith, length-view p v)

      n : ℕ
      n = add64 p.size (length text)

      q : LogPayload
      q = ensure_capacity p n

      r : Roomy p q n
      r = ensure_capacity-Roomy p v n (omega (arith, total, h))

      added : (add64 q.size (length text) ≡ q.size + length text) × (n ≡ q.size + length text)
      added = omega (arith, r.same_size, total, h)

      done : Settled q (overwrite (bytes q) q.size text) (add64 q.size (length text))
      done =
          store-Settled q (overwrite (bytes q) q.size text) (add64 q.size (length text)) r.valid
            (length-overwrite (bytes q) q.size text ∙ bytes-length q r.valid)
            (omega (arith, r.room, added))

  -- `push_back` adds one character behind what a valid payload holds, which stays valid, and moves
  -- it to the heap only if there is no room.
  pub push_back-Becomes :
      (c : ℕ)
      → length (view p ++ c ∷ []) < word_mod - 1
      → Becomes p (push_back p c) (view p ++ c ∷ [])
  unfolding push_back
  push_back-Becomes c h = record {
    valid = done.valid;
    holds =
        done.holds
        ∙ take-set_last (bytes q) q.size _ c (omega (arith, added))
            (omega (arith, bytes-length q r.valid, r.room, added))
        ∙ ap (λ l. l ++ c ∷ []) r.same_view;
    place =
        done.place
        ∙ r.place
        ∙ ap (λ (n : ℕ). if leb n p.capacity then p.data_at else on_heap)
            (omega (arith, total, added));
  }
    where
      total : length (view p ++ c ∷ []) ≡ p.size + 1
      total = length-append (view p) (c ∷ []) ∙ omega (arith, length-view p v)

      n : ℕ
      n = add64 p.size 1

      q : LogPayload
      q = ensure_capacity p n

      r : Roomy p q n
      r = ensure_capacity-Roomy p v n (omega (arith, total, h))

      added : (add64 q.size 1 ≡ suc q.size) × (n ≡ suc q.size)
      added = omega (arith, r.same_size, total, h)

      done : Settled q (set (bytes q) q.size c) (add64 q.size 1)
      done =
          store-Settled q (set (bytes q) q.size c) (add64 q.size 1) r.valid
            (length-set (bytes q) q.size c ∙ bytes-length q r.valid) (omega (arith, r.room, added))

-- `clear` leaves a valid payload valid and empty, with its text in the same storage.
pub clear-Becomes : (p : LogPayload) → IsValid p → Becomes p (clear p) []
unfolding clear
clear-Becomes p v = record {
  valid = record {
    inline_bytes = ground (arith, length-set (bytes p) 0 0, v.inline_bytes);
    stored = ground (arith, length-set (bytes p) 0 0, v.stored);
    fits = ground arith;
    terminated = ground (arith, bytes-length p v, get_elem?-set_self (bytes p) 0 0);
  };
  holds = ground (arith, take-zero (set (bytes p) 0 0));
  place = ground arith;
}

pub empty_payload-IsValid : IsValid empty_payload × (view empty_payload ≡ [])
unfolding empty_payload
empty_payload-IsValid =
    (record { inline_bytes = refl; stored = refl; fits = omega arith; terminated = refl }, refl)
