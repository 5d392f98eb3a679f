-- ===== src/Policy/Halt.antt =====
-- kahyad/internal/policy/halt.go: the halt of a task takes its pending approvals and its tokens away.
pub mod Closed
use kahya.Base.{ℕ, suc, String, List, [], ◌∷◌, eqb, if◌then◌else◌}
use kahya.Base.Exec.{Result, ok, err, pure, log, now, caught, ◌>>=◌, ◌>>◌}
use kahya.Policy.Rows.{
  PendingApproval, approval_invalidate_failed, approval_invalidated, approval_token_revoke_failed,
  invalidated_hook, Handler,
}
use kahya.Policy.Queries.{
  list_unconsumed_pending_approvals_by_task, consume_pending_approval,
  revoke_approval_tokens_by_task,
}

unfoldable pub note_revoke : String → Result ℕ → Handler (Unit {0})
note_revoke task_id (ok _) = pure tt
note_revoke task_id (err _) = log (approval_token_revoke_failed task_id)

-- one row of the loop: what came of its UPDATE, and the number of rows invalidated so far
unfoldable pub count_invalidated : String → PendingApproval → ℕ → Result ℕ → Handler ℕ
count_invalidated task_id p n (err _) = do log (approval_invalidate_failed p.id task_id); pure n
count_invalidated task_id p n (ok affected) =
    if eqb affected 0
    then pure n
    else (do log (approval_invalidated p.id task_id); log (invalidated_hook p.id); pure (suc n))

unfoldable pub invalidate_rows : String → ℕ → List PendingApproval → ℕ → Handler ℕ
invalidate_rows task_id at [] n = pure n
invalidate_rows task_id at (p ∷ rows) n = do
  r ← caught (consume_pending_approval at p.id)
  m ← count_invalidated task_id p n r
  invalidate_rows task_id at rows m

-- Engine.InvalidateApprovalsForTask
unfoldable pub invalidate_approvals_for_task : String → Handler ℕ
invalidate_approvals_for_task task_id = do
  rows ← list_unconsumed_pending_approvals_by_task task_id
  at ← now
  n ← invalidate_rows task_id at rows 0
  r ← caught (revoke_approval_tokens_by_task at task_id)
  note_revoke task_id r
  pure n
