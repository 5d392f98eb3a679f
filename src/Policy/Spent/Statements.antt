-- ===== src/Policy/Spent/Statements.antt =====
-- Every statement on the policy tables keeps spent tokens and decided approvals.
use kahya.Base.{ℕ, String, refl, some, arith}
use kahya.Base.Guarantee.{Guarantees, Guarantees-query, guarantee_rules}
use kahya.Task.Rows.{ActionClass}
use kahya.Policy.Rows.{AutonomyState, ApprovalToken, PendingApproval, UndoState}
use kahya.Policy.Queries.{
  is_live_token, is_live_token_of, is_live_pending, consume_token_row, get_autonomy_state,
  update_autonomy_state, insert_autonomy_state, insert_approval_token, get_approval_token,
  consume_approval_token, revoke_approval_tokens_by_task, insert_pending_approval,
  get_pending_approval, consume_pending_approval, list_unconsumed_pending_approvals_by_task,
  get_open_undo_window_by_trace, get_open_undo_window_by_task_tool_trace, list_open_undo_windows,
  set_undo_window_state, insert_undo_window,
}
use kahya.Policy.Spent.{
  IsSpent-insert, IsDecided-insert, IsSpent-update, IsDecided-update, Keeps, Keeps-order,
  Keeps-same,
}

-- statements that leave the two tables
pub get_state-Keeps :
    (t : String) (k : ActionClass) (s : String) → Guarantees Keeps (get_autonomy_state t k s)
unfolding get_autonomy_state
get_state-Keeps t k s = Guarantees-query Keeps Keeps-order _ Keeps-same

pub update_state-Keeps :
    (t : String) (k : ActionClass) (s : String) (l n at : ℕ)
    → Guarantees Keeps (update_autonomy_state t k s l n at)
unfolding update_autonomy_state
update_state-Keeps t k s l n at = Guarantees-query Keeps Keeps-order _ λ d. ground arith

pub insert_state-Keeps : (s : AutonomyState) → Guarantees Keeps (insert_autonomy_state s)
unfolding insert_autonomy_state
insert_state-Keeps s = Guarantees-query Keeps Keeps-order _ λ d. ground arith

pub get_token-Keeps : (hash : String) → Guarantees Keeps (get_approval_token hash)
unfolding get_approval_token
get_token-Keeps hash = Guarantees-query Keeps Keeps-order _ Keeps-same

pub get_pending-Keeps : (id : String) → Guarantees Keeps (get_pending_approval id)
unfolding get_pending_approval
get_pending-Keeps id = Guarantees-query Keeps Keeps-order _ Keeps-same

pub list_pending-Keeps :
    (id : String) → Guarantees Keeps (list_unconsumed_pending_approvals_by_task id)
unfolding list_unconsumed_pending_approvals_by_task
list_pending-Keeps id = Guarantees-query Keeps Keeps-order _ Keeps-same

pub get_undo-Keeps : (trace : String) → Guarantees Keeps (get_open_undo_window_by_trace trace)
unfolding get_open_undo_window_by_trace
get_undo-Keeps trace = Guarantees-query Keeps Keeps-order _ Keeps-same

pub get_undo_for-Keeps :
    (task tool trace : String)
    → Guarantees Keeps (get_open_undo_window_by_task_tool_trace task tool trace)
unfolding get_open_undo_window_by_task_tool_trace
get_undo_for-Keeps task tool trace = Guarantees-query Keeps Keeps-order _ Keeps-same

pub list_undo-Keeps : Guarantees Keeps list_open_undo_windows
unfolding list_open_undo_windows
list_undo-Keeps = Guarantees-query Keeps Keeps-order _ Keeps-same

pub set_undo-Keeps : (s : UndoState) (id : ℕ) → Guarantees Keeps (set_undo_window_state s id)
unfolding set_undo_window_state
set_undo-Keeps s id =
    Guarantees-query Keeps Keeps-order _ λ d. record { spent = λ h k. k; decided = λ i k. k }

pub insert_undo-Keeps :
    (task tool trace : String) (opened deadline : ℕ)
    → Guarantees Keeps (insert_undo_window task tool trace opened deadline)
unfolding insert_undo_window
insert_undo-Keeps task tool trace opened deadline =
    Guarantees-query Keeps Keeps-order _ λ d. record { spent = λ h k. k; decided = λ i k. k }

-- statements that write them
pub insert_token-Keeps : (t : ApprovalToken) → Guarantees Keeps (insert_approval_token t)
unfolding insert_approval_token
insert_token-Keeps t = Guarantees-query Keeps Keeps-order _ λ d. record {
  spent = λ hash h. ground (arith, h, IsSpent-insert hash t d.tokens);
  decided = λ i k. ground (arith, k);
}

pub insert_pending-Keeps : (p : PendingApproval) → Guarantees Keeps (insert_pending_approval p)
unfolding insert_pending_approval
insert_pending-Keeps p = Guarantees-query Keeps Keeps-order _ λ d. record {
  spent = λ hash h. ground (arith, h);
  decided = λ i k. ground (arith, k, IsDecided-insert i p d.pending);
}

pub consume_token_row-Keeps :
    (at : ℕ) (hash : String) → Guarantees Keeps (consume_approval_token at hash)
unfolding consume_approval_token
consume_token_row-Keeps at hash = Guarantees-query Keeps Keeps-order _ λ d. record {
  spent = λ h k.
      IsSpent-update h (is_live_token hash) (consume_token_row at) (λ t. refl) (λ t e. ground arith)
        d.tokens k;
  decided = λ i k. k;
}

pub revoke-Keeps :
    (at : ℕ) (task_id : String) → Guarantees Keeps (revoke_approval_tokens_by_task at task_id)
unfolding revoke_approval_tokens_by_task
revoke-Keeps at task_id = Guarantees-query Keeps Keeps-order _ λ d. record {
  spent = λ h k.
      IsSpent-update h (is_live_token_of task_id)
        (λ t. record t { consumed_at = some at; revoked_at = some at }) (λ t. refl)
        (λ t e. ground arith) d.tokens k;
  decided = λ i k. k;
}

pub consume_pending_row-Keeps :
    (at : ℕ) (id : String) → Guarantees Keeps (consume_pending_approval at id)
unfolding consume_pending_approval
consume_pending_row-Keeps at id = Guarantees-query Keeps Keeps-order _ λ d. record {
  spent = λ h k. k;
  decided = λ i k. IsDecided-update i at (is_live_pending id) d.pending k;
}

pub ruleset keeps_rules = (
  guarantee_rules, Keeps-order, get_state-Keeps, update_state-Keeps, insert_state-Keeps,
  get_token-Keeps, get_pending-Keeps, list_pending-Keeps, get_undo-Keeps, get_undo_for-Keeps,
  list_undo-Keeps, set_undo-Keeps, insert_undo-Keeps, insert_token-Keeps, insert_pending-Keeps,
  consume_token_row-Keeps, revoke-Keeps, consume_pending_row-Keeps,
)
