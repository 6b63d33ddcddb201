-- ===== src/Sinks/Rotating/Sizes.antt =====
-- What a line does to the files of RotatingFileSink (src/sinks/rotating_file_sink.cpp: Write).
use high_performance_logger.Common.{
  ℕ, ◌+◌, ◌<◌, ◌≤◌, ◌≡◌, true, List, [], ◌∷◌, ◌++◌, leb, ltb, ◌&&◌, ◌||◌, length, refl, sym, ap,
  ap₂, ◌∙◌, arith, append_assoc, append-nil, Bool-cases, inl, inr, ◌⊎◌, length-append, ◌≢◌,
}
use high_performance_logger.Common.Word.{add64, word_mod}
use high_performance_logger.Sinks.Stream.{ok, ◌>>◌, bind_ok}
use high_performance_logger.Sinks.Rotating.{
  RotatingFileSink, drain_staging_buffer, rotate_files, rotate_if_needed, stage, drain_if_needed,
  write_line, active_size, interval_over,
}
use high_performance_logger.Sinks.Rotating.Archives.{rotate_files-Rotation}
use high_performance_logger.Sinks.Rotating.FileSystem.{Disk}
use high_performance_logger.Sinks.Rotating.Contents.{
  content, total, IsTracked, drain-Drained, rotate-Rotated, Archived, drain-Archived, keep-Archived,
}

-- What a line does to the text that the file will hold: it joins it if the limit allows, or if
-- there was nothing; otherwise a rotation leaves it alone in a new file.
pub record WroteLine (formatted : List ℕ) (s t : RotatingFileSink) : Type 0 where
  pub joins :
      length (total s ++ formatted) ≤ s.options.max_file_size ⊎ (total s ≡ [])
      → (total t ≡ total s ++ formatted)
        × ((p : List ℕ) → p ≢ s.path → t.disk.files p ≡ s.disk.files p)
  pub rotates :
      s.options.max_file_size < length (total s ++ formatted)
      → total s ≢ []
      → (total t ≡ formatted) × Archived s t
  pub tracked : IsTracked t
  pub options : t.options ≡ s.options

not_empty : (xs : List ℕ) → xs ≢ [] → 0 < length xs
not_empty [] h = absurd (h refl)
not_empty (x ∷ xs) h = omega arith

record RoomMade (formatted : List ℕ) (s t : RotatingFileSink) : Type 0 where
  calm : length (total s ++ formatted) ≤ s.options.max_file_size ⊎ (total s ≡ []) → t ≡ s
  moved :
      s.options.max_file_size < length (total s ++ formatted)
      → total s ≢ []
      → (total t ≡ []) × Archived s t
  path : t.path ≡ s.path
  tracked : IsTracked t
  options : t.options ≡ s.options
  short : length (total t) ≤ length (total s)

rotate_if_needed-RoomMade :
    (formatted : List ℕ) (s : RotatingFileSink)
    → IsTracked s
    → length (total s ++ formatted) < word_mod
    → (rotate_if_needed formatted s).0 ≡ ok tt
    → RoomMade formatted s (rotate_if_needed formatted s).1
unfolding rotate_if_needed
rotate_if_needed-RoomMade f s k l h =
    elim (Bool-cases
      (ltb s.options.max_file_size (add64 (active_size s) (length f)) && ltb 0 (active_size s))) [
        | inl full ↦
            rw full (made_room (rw full at h) (ground (arith, sizes)) (ground (arith, sizes)))
        | inr roomy ↦ rw roomy (record {
          calm = λ _. refl;
          moved = λ a b. absurd (ground (arith, sizes, not_empty (total s) b));
          path = refl;
          tracked = k;
          options = refl;
          short = omega arith;
        })
      ]
  where
    sizes :
        (length (total s ++ f) ≡ length (total s) + length f)
        × (active_size s ≡ length (total s))
        × (add64 (active_size s) (length f) ≡ length (total s) + length f)
    sizes = omega (arith, length-append (total s) f, length-append (content s) s.staging_buffer)

    made_room :
        ((do drain_staging_buffer true; rotate_files) s).0 ≡ ok tt
        → s.options.max_file_size < length (total s ++ f)
        → 0 < length (total s)
        → RoomMade f s ((do drain_staging_buffer true; rotate_files) s).1
    made_room h big some_text =
        let e : (drain_staging_buffer true s).0 ≡ ok tt =
          bind_ok (λ _. rotate_files) (drain_staging_buffer true s).0
            (drain_staging_buffer true s).1 h in
        let d = drain-Drained true s k (omega (arith, sizes, l)) e in
        let d0 = (drain_staging_buffer true s).1 in
        let h2 : (rotate_files d0).0 ≡ ok tt = rw e at h in
        let r = rotate-Rotated d0 h2 in
        let gone = ap₂ ◌++◌ r.fresh (r.frame.staging ∙ d.batch) in
        rw e (record {
          calm = λ c. absurd (ground (arith, c, big, some_text));
          moved = λ a b.
              (gone, drain-Archived s d0 (rotate_files d0).1 d b (rotate_files-Rotation d0 h2));
          path = r.frame.path ∙ d.path;
          tracked = r.size ∙ ap (length {A = ℕ}) (sym r.fresh);
          options = r.frame.options ∙ d.options;
          short = omega (arith, ap (length {A = ℕ}) gone);
        })

record Moved (s t : RotatingFileSink) : Type 0 where
  text : total t ≡ total s
  others : (p : List ℕ) → p ≢ s.path → t.disk.files p ≡ s.disk.files p
  tracked : IsTracked t
  options : t.options ≡ s.options

drain_if_needed-Moved :
    (now : ℕ) (s : RotatingFileSink)
    → IsTracked s
    → length (total s) < word_mod
    → (drain_if_needed now s).0 ≡ ok tt
    → Moved s (drain_if_needed now s).1
unfolding drain_if_needed
drain_if_needed-Moved now s k l h =
    elim (Bool-cases
      (leb s.options.max_batch_size (length s.staging_buffer) || interval_over s now)) [
        | inl needed ↦
            let d = drain-Drained (interval_over s now) s k l (rw needed at h) in
            rw needed (record {
              text = ap₂ ◌++◌ d.file d.batch ∙ append-nil (total s);
              others = d.others;
              tracked = d.tracked;
              options = d.options;
            })
        | inr calm ↦
            rw calm (record { text = refl; others = λ p n. refl; tracked = k; options = refl })
      ]

stage-Moved :
    (now : ℕ) (f : List ℕ) (s : RotatingFileSink)
    → IsTracked s
    → (total (stage now f s).1 ≡ total s ++ f)
      × IsTracked (stage now f s).1
      × ((stage now f s).1.options ≡ s.options)
      × ((stage now f s).0 ≡ ok tt)
      × ((stage now f s).1.disk ≡ s.disk)
      × ((stage now f s).1.path ≡ s.path)
unfolding stage
stage-Moved now f s k =
    (sym (append_assoc (content s) s.staging_buffer f), k, refl, refl, refl, refl)

-- A successful write of a line in a sink whose stored size is that of its file rotates exactly if
-- the line would take a file that is not empty past its limit. A rotation leaves what the file and
-- the batch held in the first archive, and in each other archive what the one before it held, and the
-- line starts the new file; otherwise the line joins what is there and no other file is touched. The
-- line is never split, and the stored size stays that of the file.
pub write_line-WroteLine :
    (now : ℕ) (f : List ℕ) (s : RotatingFileSink)
    → IsTracked s
    → length (total s ++ f) < word_mod
    → (write_line now f s).0 ≡ ok tt
    → WroteLine f s (write_line now f s).1
unfolding write_line
write_line-WroteLine now f s k l h =
    let a = rotate_if_needed f s in
    let e : a.0 ≡ ok tt = bind_ok (λ _. do stage now f; drain_if_needed now) a.0 a.1 h in
    let r = rotate_if_needed-RoomMade f s k l e in
    let st = stage-Moved now f a.1 r.tracked in
    let h2 : ((do stage now f; drain_if_needed now) a.1).0 ≡ ok tt = rw e at h in
    let h3 : (drain_if_needed now (stage now f a.1).1).0 ≡ ok tt = rw st.3 at h2 in
    let m =
      drain_if_needed-Moved now (stage now f a.1).1 st.1
        (omega (
          arith,
          ap (length {A = ℕ}) st.0,
          length-append (total a.1) f,
          r.short,
          length-append (total s) f,
        ))
        h3 in
    let u = (drain_if_needed now (stage now f a.1).1).1 in
    let same : (p : List ℕ) → p ≢ s.path → u.disk.files p ≡ a.1.disk.files p =
      λ p n. m.others p (λ x. n (x ∙ st.5 ∙ r.path)) ∙ ap (λ d. Disk.files d p) st.4 in
    rw e (
      rw st.3 (record {
        joins = λ c. (
          m.text ∙ st.0 ∙ ap (λ x. total x ++ f) (r.calm c),
          λ p n. same p n ∙ ap (λ x. x.disk.files p) (r.calm c),
        );
        rotates = λ b n. (
          m.text ∙ st.0 ∙ ap (λ x. x ++ f) (r.moved b n).0,
          keep-Archived s a.1 u (r.moved b n).1 same,
        );
        tracked = m.tracked;
        options = m.options ∙ st.2 ∙ r.options;
      }))
