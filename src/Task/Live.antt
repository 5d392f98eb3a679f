-- ===== src/Task/Live.antt =====
-- kahyad/internal/task/live.go: the registry of worker processes that run now. The map under its
-- lock is an association list.
use kahya.Base.{
  ℕ, String, Bool, true, false, Option, none, some, List, [], ◌∷◌, ◌==◌, if◌then◌else◌,
}

pub record LiveRegistry : Type 0 where
  pub pids : List (String × ℕ)

abbrev pub new_live_registry : LiveRegistry
new_live_registry = record { pids = [] }

pub lookup_pid : String → List (String × ℕ) → Option ℕ
lookup_pid id [] = none
lookup_pid id ((j, pid) ∷ rest) = if j == id then some pid else lookup_pid id rest

pub remove_pid : String → List (String × ℕ) → List (String × ℕ)
remove_pid id [] = []
remove_pid id ((j, pid) ∷ rest) =
    let kept = remove_pid id rest in if j == id then kept else (j, pid) ∷ kept

unfoldable pub register : String → ℕ → LiveRegistry → LiveRegistry
unfolding lookup_pid remove_pid
register id pid l = record { pids = (id, pid) ∷ remove_pid id l.pids }

unfoldable pub unregister : String → LiveRegistry → LiveRegistry
unfolding remove_pid
unregister id l = record { pids = remove_pid id l.pids }

unfoldable pub pid_of : LiveRegistry → String → Option ℕ
unfolding lookup_pid
pid_of l id = lookup_pid id l.pids

unfoldable pub is_live : LiveRegistry → String → Bool
unfolding pid_of
is_live l id = elim (pid_of l id) [ none ↦ false | some _ ↦ true ]
