-- ===== src/Sinks/Rotating/FileSystem.antt =====
-- The part of `std::filesystem` and of output files that the rotating sink uses.
use high_performance_logger.Common.{
  ℕ, Bool, true, false, Option, none, some, List, [], ◌∷◌, ◌++◌, length, take, refl, ap₂,
}
use mathlib.Core.Logic.{ite}
use native.Mathlib.Decide.{ℕ_discrete}

unfoldable pub List_ℕ-discrete : Discrete (List ℕ)
List_ℕ-discrete [] [] = yes refl
List_ℕ-discrete [] (y ∷ ys) = no (λ e. cc)
List_ℕ-discrete (x ∷ xs) [] = no (λ e. cc)
List_ℕ-discrete (x ∷ xs) (y ∷ ys) =
    let rest = List_ℕ-discrete xs ys in
    elim (ℕ_discrete x y) [
      | yes e ↦ elim rest [ yes f ↦ yes (ap₂ ◌∷◌ e f) | no n ↦ no (λ h. n (cc)) ]
      | no n ↦ no (λ h. n (cc))
    ]

-- The files by path, and for each operation to come whether it succeeds (`none`), or fails, a write
-- after some bytes. An operation that fails otherwise leaves the files as they are.
pub record Disk : Type 0 where
  pub files : List ℕ → Option (List ℕ)
  pub plan : List (Option ℕ)

abbrev pub put_file :
    (List ℕ → Option (List ℕ)) → List ℕ → Option (List ℕ) → List ℕ → Option (List ℕ)
put_file files path c p = ite (List_ℕ-discrete path p) c (files p)

abbrev pub content_of : Option (List ℕ) → List ℕ
content_of none = []
content_of (some c) = c

-- An operation takes the head of the plan: the result if that is no fault.
abbrev pub step_disk {ℓ} : {A : Type ℓ} → A → (List ℕ → Option (List ℕ)) → Disk → Option A × Disk
step_disk a files d = elim d.plan [
  | [] ↦ (some a, record d { files = files })
  | none ∷ fs ↦ (some a, record { files = files; plan = fs })
  | some n ∷ fs ↦ (none, record d { plan = fs })
]

-- Removal of a file that is not there is no error.
unfoldable pub remove_file : List ℕ → Disk → Option (Unit {0}) × Disk
remove_file path d = step_disk tt (put_file d.files path none) d

abbrev is_some {ℓ} : {A : Type ℓ} → Option A → Bool
is_some none = false
is_some (some a) = true

unfoldable pub file_exists : List ℕ → Disk → Option Bool × Disk
file_exists path d = step_disk (is_some (d.files path)) d.files d

unfoldable pub rename_file : List ℕ → List ℕ → Disk → Option (Unit {0}) × Disk
rename_file source destination d =
    step_disk tt (put_file (put_file d.files destination (d.files source)) source none) d

-- A missing file counts as empty.
unfoldable pub file_size : List ℕ → Disk → Option ℕ × Disk
file_size path d = step_disk (length (content_of (d.files path))) d.files d

unfoldable pub open_truncated : List ℕ → Disk → Option (Unit {0}) × Disk
open_truncated path d = step_disk tt (put_file d.files path (some [])) d

unfoldable pub open_append : List ℕ → Disk → Option (Unit {0}) × Disk
open_append path d = step_disk tt (put_file d.files path (some (content_of (d.files path)))) d

-- A write at the end of a file.
unfoldable pub append_to : List ℕ → List ℕ → Disk → Option (Unit {0}) × Disk
append_to path text d = elim d.plan [
  | [] ↦ (
    some tt,
    record d { files = put_file d.files path (some (content_of (d.files path) ++ text)) },
  )
  | none ∷ fs ↦ (
    some tt,
    record { files = put_file d.files path (some (content_of (d.files path) ++ text)); plan = fs },
  )
  | some n ∷ fs ↦ (
    none,
    record {
      files = put_file d.files path (some (content_of (d.files path) ++ take n text));
      plan = fs;
    },
  )
]

unfoldable pub sync : Disk → Option (Unit {0}) × Disk
sync d = step_disk tt d.files d
