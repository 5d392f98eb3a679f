-- ===== src/Policy/Resolver.antt =====
-- kahyad/internal/policy/session_resolver.go: the session of a call, from the tasks table.
pub mod Wired
use kahya.Base.{ℕ, String, Bool, Option, none, some, List, [], ◌∷◌, ◌==◌, leb, if◌then◌else◌}
use kahya.Base.Exec.{
  Exec, Result, Error, ok, err, pure, raise, query, caught, one, is_no_rows, ◌>>=◌,
}
use kahya.Base.Table.{find, select, order_by}
use kahya.Policy.Rows.{Event}

-- the columns of tasks that are read here
pub record TaskSession : Type 0 where
  pub id : String
  pub trace_id : String
  pub session_id : Option String
  pub updated_at : ℕ

abbrev pub Resolving : Type 0 → Type 0
Resolving = Exec (List TaskSession) Event

abbrev pub has_task_id : String → TaskSession → Bool
has_task_id id t = t.id == id

abbrev pub has_trace_id : String → TaskSession → Bool
has_trace_id trace t = t.trace_id == trace

abbrev pub updated_last : TaskSession → TaskSession → Bool
updated_last t u = leb u.updated_at t.updated_at

abbrev pub session_id_of : Option TaskSession → Option (Option String)
session_id_of none = none
session_id_of (some t) = some t.session_id

abbrev pub first_of : List TaskSession → Option TaskSession
first_of [] = none
first_of (t ∷ rows) = some t

unfoldable pub get_task_session_by_id : String → Resolving (Option String)
get_task_session_by_id id = query (λ d. one (session_id_of (find (has_task_id id) d)) d)

unfoldable pub get_task_session_by_trace : String → Resolving (Option String)
get_task_session_by_trace trace =
    query (λ d.
      one (session_id_of (first_of (order_by updated_last (select (has_trace_id trace) d)))) d)

unfoldable pub session_of : Result (Option String) → Resolving String
session_of (ok (some s)) = pure s
session_of (ok none) = pure ""
session_of (err e) = if is_no_rows e then pure "" else raise e

unfoldable pub resolve_by_trace : String → Resolving String
resolve_by_trace trace =
    if trace == "" then pure "" else (do r ← caught (get_task_session_by_trace trace); session_of r)

unfoldable pub task_session_or : String → Result (Option String) → Resolving String
task_session_or trace (ok (some s)) = if s == "" then resolve_by_trace trace else pure s
task_session_or trace (ok none) = resolve_by_trace trace
task_session_or trace (err e) = if is_no_rows e then resolve_by_trace trace else raise e

unfoldable pub resolve_session : String → String → Resolving String
resolve_session trace task =
    if task == ""
    then resolve_by_trace trace
    else (do r ← caught (get_task_session_by_id task); task_session_or trace r)
