-- ===== src/Task/Resolver.antt =====
-- kahyad/internal/task/resolve.go: `kahya task resolve` retries or aborts a task that waits for the
-- user.
use kahya.Base.{String}
use kahya.Base.Exec.{Result, Error, ok, err, pure, raise, caught, task_not_resolvable, ◌>>=◌, ◌>>◌}
use kahya.Task.Rows.{Status, executing, failed, Handler}
use kahya.Task.Machine.{transition}
use kahya.Task.Resume.{write_outbox_resume_row}

-- an illegal transition is `ErrTaskNotResolvable`
unfoldable pub resolvable : Result (Unit {0}) → Handler (Unit {0})
resolvable (ok _) = pure tt
resolvable (err Error.illegal_transition) = raise task_not_resolvable
resolvable (err e) = raise e

unfoldable pub resolve_to : Status → String → String → Handler (Unit {0})
resolve_to to trace_id task_id = do r ← caught (transition trace_id task_id to); resolvable r

unfoldable pub retry : (String → String) → String → String → Handler (Unit {0})
retry payload_json trace_id task_id = do
  resolve_to executing trace_id task_id
  write_outbox_resume_row payload_json trace_id task_id

unfoldable pub abort : String → String → Handler (Unit {0})
abort trace_id task_id = resolve_to failed trace_id task_id
