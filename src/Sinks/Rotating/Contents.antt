-- ===== src/Sinks/Rotating/Contents.antt =====
-- What draining the batch and a rotation leave in the files of RotatingFileSink
-- (src/sinks/rotating_file_sink.cpp: DrainStagingBuffer, RotateFiles).
use high_performance_logger.Common.{
  ℕ, zero, suc, ℕ_discrete, Option, none, some, ◌<◌, ◌≤◌, ◌≡◌, Bool, true, List, [], ◌++◌, ◌==◌,
  length, refl, sym, ap, ap₂, ◌∙◌, arith, append-nil, Bool-cases, inl, inr, length-append, ◌≢◌,
}
use mathlib.Core.Path.{subst}
use high_performance_logger.Common.Word.{word_mod}
use high_performance_logger.Sinks.Stream.{Result, ok, Exec, ◌>>◌, bind_ok, Result-cases}
use high_performance_logger.Sinks.Rotating.{
  close, RotatingFileSink, RotatingFileSinkOptions, drain_staging_buffer, rotate_files, open_file,
  shift_archives, rename_if_exists, archive_path,
}
use high_performance_logger.Sinks.Rotating.Archives.{Rotation}
use high_performance_logger.Sinks.Rotating.Archives.Shift.{slot, or_else, slots_apart}
use high_performance_logger.Sinks.Rotating.FileSystem.{append_to, sync, open_truncated, content_of}

-- The content of the file, and what it will hold once the batch is drained.
abbrev pub content : RotatingFileSink → List ℕ
content s = content_of (s.disk.files s.path)

abbrev pub total : RotatingFileSink → List ℕ
total s = content s ++ s.staging_buffer

-- The stored size is the size of the file.
abbrev pub IsTracked : RotatingFileSink → Type 0
IsTracked s = s.current_size ≡ length (content s)

pub record Drained (s t : RotatingFileSink) : Type 0 where
  pub file : content t ≡ total s
  pub batch : t.staging_buffer ≡ []
  pub tracked : t.current_size ≡ length (content t)
  pub path : t.path ≡ s.path
  pub options : t.options ≡ s.options
  pub others : (p : List ℕ) → p ≢ s.path → t.disk.files p ≡ s.disk.files p

pub drain-Drained :
    (b : Bool) (s : RotatingFileSink)
    → IsTracked s
    → length (total s) < word_mod
    → (drain_staging_buffer b s).0 ≡ ok tt
    → Drained s (drain_staging_buffer b s).1
unfolding drain_staging_buffer append_to sync
drain-Drained b s k l h = record {
  file = ground (arith, append-nil (content s));
  batch = ground arith;
  tracked = ground (arith, append-nil (content s), length-append (content s) s.staging_buffer);
  path = ground arith;
  options = ground arith;
  others = λ p n. ground arith;
}

-- What the operations on other files leave alone.
pub record Frame (s t : RotatingFileSink) : Type 0 where
  pub path : t.path ≡ s.path
  pub options : t.options ≡ s.options
  pub staging : t.staging_buffer ≡ s.staging_buffer

Frame-trans : {s t u : RotatingFileSink} → Frame s t → Frame t u → Frame s u
Frame-trans f g = record {
  path = g.path ∙ f.path;
  options = g.options ∙ f.options;
  staging = g.staging ∙ f.staging;
}

rename-Frame : (a b : List ℕ) (s : RotatingFileSink) → Frame s (rename_if_exists a b s).1
unfolding rename_if_exists
rename-Frame a b s = ground arith

shift-Frame : (i : ℕ) (s : RotatingFileSink) → Frame s (shift_archives i s).1
unfolding shift_archives
shift-Frame zero s = record { path = refl; options = refl; staging = refl }
shift-Frame (suc zero) s = record { path = refl; options = refl; staging = refl }
shift-Frame (suc (suc i)) s =
    elim (Result-cases
      (rename_if_exists (archive_path s.path (suc i)) (archive_path s.path (suc (suc i))) s).0) [
        | inl fine ↦ rw fine (
            Frame-trans (rename-Frame _ _ s) (
              shift-Frame (suc i)
                (rename_if_exists (archive_path s.path (suc i)) (archive_path s.path (suc (suc i)))
                  s).1))
        | inr (e, bad) ↦ rw bad (rename-Frame _ _ s)
      ]

-- A successful rotation leaves an empty file of known size, and the batch as it was.
pub record Rotated (s t : RotatingFileSink) : Type 0 where
  pub fresh : content t ≡ []
  pub size : t.current_size ≡ 0
  pub frame : Frame s t

reopened :
    (s : RotatingFileSink)
    → ((do (λ r. (ok tt, record r { current_size = 0 })); open_file true) s).0 ≡ ok tt
    → Rotated s ((do (λ r. (ok tt, record r { current_size = 0 })); open_file true) s).1
unfolding open_file open_truncated
reopened s h = record { fresh = ground arith; size = ground arith; frame = ground arith }

after_rename : RotatingFileSink → Result (Unit {0}) × RotatingFileSink
after_rename s =
    (do
      rename_if_exists s.path (archive_path s.path 1)
      (λ r. (ok tt, record r { current_size = 0 }))
      open_file true)
      s

from-close : {s t : RotatingFileSink} → Rotated (close s) t → Rotated s t
from-close r = record {
  fresh = r.fresh;
  size = r.size;
  frame = record { path = r.frame.path; options = r.frame.options; staging = r.frame.staging };
}

pub rotate-Rotated :
    (s : RotatingFileSink) → (rotate_files s).0 ≡ ok tt → Rotated s (rotate_files s).1
unfolding rotate_files
rotate-Rotated s h = elim (Bool-cases (s.options.max_files == 0)) [
  | inl zero_files ↦ rw zero_files (from-close (reopened (close s) (rw zero_files at h)))
  | inr some_files ↦ rw some_files (from-close (shifted (close s) (rw some_files at h)))
]
  where
    rename_path : RotatingFileSink → Exec RotatingFileSink (Unit {0})
    rename_path s = rename_if_exists s.path (archive_path s.path 1)

    reopen : Exec RotatingFileSink (Unit {0})
    reopen = do (λ r. (ok tt, record r { current_size = 0 })); open_file true

    shifted :
        (s : RotatingFileSink)
        → ((do shift_archives s.options.max_files; rename_path s; reopen) s).0 ≡ ok tt
        → Rotated s ((do shift_archives s.options.max_files; rename_path s; reopen) s).1
    shifted s h =
        let a = (shift_archives s.options.max_files s) in
        let e : a.0 ≡ ok tt = bind_ok (λ _. do rename_path s; reopen) a.0 a.1 h in
        let h2 : ((do rename_path s; reopen) a.1).0 ≡ ok tt = rw e at h in
        let b = rename_path s a.1 in
        let e2 : b.0 ≡ ok tt = bind_ok (λ _. reopen) b.0 b.1 h2 in
        let r = reopened b.1 (rw e2 at h2) in
        rw e (
          rw e2 (record {
            fresh = r.fresh;
            size = r.size;
            frame =
                Frame-trans (Frame-trans (shift-Frame s.options.max_files s) (rename-Frame _ _ a.1))
                  r.frame;
          }))

-- What a rotation makes of a batch and a file that are not both empty: the first archive holds the
-- two, and each other archive what the one before it held.
pub record Archived (s t : RotatingFileSink) : Type 0 where
  pub newest : 1 ≤ s.options.max_files → t.disk.files (slot s.path 1) ≡ some (total s)
  pub shifted :
      (j : ℕ)
      → suc (suc j) < s.options.max_files
      → t.disk.files (slot s.path (suc (suc j))) ≡ s.disk.files (slot s.path (suc j))
  pub oldest :
      (j : ℕ)
      → suc (suc j) ≡ s.options.max_files
      → t.disk.files (slot s.path (suc (suc j)))
        ≡ or_else (s.disk.files (slot s.path (suc j))) (s.disk.files (slot s.path (suc (suc j))))
  pub others :
      (p : List ℕ)
      → ((j : ℕ) → j ≤ s.options.max_files → p ≢ slot s.path j)
      → t.disk.files p ≡ s.disk.files p

present : (o : Option (List ℕ)) (text : List ℕ) → content_of o ≡ text → text ≢ [] → o ≡ some text
present none text e n = absurd (n (sym e))
present (some c) text e n = ap some e

is_archive : (path : List ℕ) (j : ℕ) → slot path (suc j) ≢ path
is_archive path j e = slots_apart path 0 (suc j) (omega arith) (sym e)

-- A rotation behind a drained batch.
pub drain-Archived :
    (s d t : RotatingFileSink) → Drained s d → total s ≢ [] → Rotation d t → Archived s t
drain-Archived s d t drained some_text rotation = record {
  newest = λ some_archive. elim (ℕ_discrete s.options.max_files 1) [
    | yes one ↦
        oldest_at 0 (sym (limit ∙ one)) ∙ ap (λ o. or_else o (d.disk.files (slot s.path 1))) full
    | no more ↦ archived_at 0 (omega (arith, limit, some_archive, more)) ∙ full
  ];
  shifted =
      λ j l. archived_at (suc j) (omega (arith, limit, l)) ∙ drained.others _ (is_archive s.path j);
  oldest = λ j e.
      oldest_at (suc j) (e ∙ sym limit)
      ∙ ap₂ or_else (drained.others _ (is_archive s.path j))
          (drained.others _ (is_archive s.path (suc j)));
  others = λ p n.
      others_at p (λ j l. n j (omega (arith, limit, l))) ∙ drained.others p (n 0 (omega arith));
}
  where
    limit : d.options.max_files ≡ s.options.max_files
    limit = ap (λ o. RotatingFileSinkOptions.max_files o) drained.options

    full : d.disk.files s.path ≡ some (total s)
    full =
        present (d.disk.files s.path) (total s)
          (ap (λ p. content_of (d.disk.files p)) (sym drained.path) ∙ drained.file) some_text

    archived_at :
        (j : ℕ)
        → suc j < d.options.max_files
        → t.disk.files (slot s.path (suc j)) ≡ d.disk.files (slot s.path j)
    archived_at =
        subst
          (λ p.
            (j : ℕ)
            → suc j < d.options.max_files
            → t.disk.files (slot p (suc j)) ≡ d.disk.files (slot p j))
          drained.path rotation.archived

    oldest_at :
        (j : ℕ)
        → suc j ≡ d.options.max_files
        → t.disk.files (slot s.path (suc j))
          ≡ or_else (d.disk.files (slot s.path j)) (d.disk.files (slot s.path (suc j)))
    oldest_at =
        subst
          (λ p.
            (j : ℕ)
            → suc j ≡ d.options.max_files
            → t.disk.files (slot p (suc j))
              ≡ or_else (d.disk.files (slot p j)) (d.disk.files (slot p (suc j))))
          drained.path rotation.oldest

    others_at :
        (p : List ℕ)
        → ((j : ℕ) → j ≤ d.options.max_files → p ≢ slot s.path j)
        → t.disk.files p ≡ d.disk.files p
    others_at =
        subst
          (λ q.
            (p : List ℕ)
            → ((j : ℕ) → j ≤ d.options.max_files → p ≢ slot q j)
            → t.disk.files p ≡ d.disk.files p)
          drained.path rotation.others

-- What only writes to the file leaves the archives alone.
pub keep-Archived :
    (s t u : RotatingFileSink)
    → Archived s t
    → ((p : List ℕ) → p ≢ s.path → u.disk.files p ≡ t.disk.files p)
    → Archived s u
keep-Archived s t u a k = record {
  newest = λ l. k _ (is_archive s.path 0) ∙ a.newest l;
  shifted = λ j l. k _ (is_archive s.path (suc j)) ∙ a.shifted j l;
  oldest = λ j e. k _ (is_archive s.path (suc j)) ∙ a.oldest j e;
  others = λ p n. k p (n 0 (omega arith)) ∙ a.others p n;
}
