-- ===== src/Policy/Approvals.antt =====
-- The approvals of kahyad/internal/policy/engine.go: a pending approval is minted for a call that the
-- ladder does not allow, and approved or denied once.
pub mod LocalOnly
use kahya.Base.{
  ℕ, zero, suc, ◌+◌, String, Bool, true, false, ◌||◌, not, Option, none, some, List, [], ◌∷◌, leb,
  ltb, eqb, if◌then◌else◌, ◌==◌,
}
use kahya.Base.Exec.{
  World, Result, Error, ok, err, pure, raise, log, now, caught, invalid_pending_approval,
  w3_requires_local_surface, w3_requires_typed_onayla, ◌>>=◌, ◌>>◌,
}
use kahya.Task.Rows.{ActionClass, is_class_w1}
use kahya.Policy.Rows.{
  is_class_w3, PendingApproval, Event, pending_approval_hook, w3_nonlocal_approval_rejected,
  w3_invalid_typed_onayla, undo_window_open_failed, policy_feedback_approved, promotion_suggested,
  policy_feedback_denied, Handler, Engine,
}
use kahya.Policy.Queries.{
  insert_pending_approval, get_pending_approval, consume_pending_approval,
  list_unconsumed_pending_approvals, is_null,
}
use kahya.Policy.Ladder.{load_state, save_state, demote}
use kahya.Policy.Undo.{open_undo_window}
use kahya.Policy.Tokens.{token_ttl, is_expired, read_random, mint_token}

abbrev pub promotion_threshold : ℕ
promotion_threshold = 20

unfoldable pub valid_pending : Result PendingApproval → Handler PendingApproval
valid_pending (err Error.no_rows) = raise invalid_pending_approval
valid_pending (err x) = raise x
valid_pending (ok p) = do
  at ← now
  if not (is_null p.consumed_at) || is_expired at p.expires_at
      then raise invalid_pending_approval
      else pure p

unfoldable pub get_valid_pending_approval : String → Handler PendingApproval
get_valid_pending_approval id = do r ← caught (get_pending_approval id); valid_pending r

unfoldable pub consume_pending : String → Handler (Unit {0})
consume_pending id = do
  at ← now
  affected ← consume_pending_approval at id
  if eqb affected 0 then raise invalid_pending_approval else pure tt

-- Engine.ListPendingApprovals: the rows that have not expired
abbrev pub unexpired : ℕ → List PendingApproval → List PendingApproval
unexpired at [] = []
unexpired at (p ∷ rows) =
    let rest = unexpired at rows in if is_expired at p.expires_at then rest else p ∷ rest

unfoldable pub list_pending_approvals : Handler (List PendingApproval)
list_pending_approvals = do
  rows ← list_unconsumed_pending_approvals
  at ← now
  pure (unexpired at rows)

-- Engine.Deny
unfoldable pub deny_pending : String → Handler (Unit {0})
deny_pending id = do
  p ← get_valid_pending_approval id
  consume_pending id
  log (policy_feedback_denied p.tool p.class p.scope)
  demote p.tool p.class p.scope

-- the count of approvals: its failures are dropped
unfoldable pub count_approval : PendingApproval → Handler (Unit {0})
count_approval p = do
  caught (do
    s ← load_state p.tool p.class p.scope
    save_state p.tool p.class p.scope s.level (s.consecutive_approvals + 1)
    log (policy_feedback_approved p.tool p.class p.scope (s.consecutive_approvals + 1))
    if eqb (s.consecutive_approvals + 1) promotion_threshold
        then log (promotion_suggested p.tool p.class p.scope (s.consecutive_approvals + 1))
        else pure tt)
  pure tt

abbrev pub pending_row :
    String → String → String → String → ActionClass → String → String → String → ℕ → PendingApproval
pending_row id task_id trace_id tool k scope hash tool_input at = record {
  id = id;
  task_id = task_id;
  trace_id = trace_id;
  tool = tool;
  class = k;
  scope = scope;
  approved_bytes_hash = hash;
  minted_at = some at;
  expires_at = some (at + token_ttl);
  consumed_at = none;
  tool_input = tool_input;
}

module _ (e : Engine) where
  unfoldable pub mint_pending_approval :
      String → String → String → ActionClass → String → String → String → Handler String
  mint_pending_approval task_id trace_id tool k scope hash tool_input = do
    raw ← read_random e
    at ← now
    insert_pending_approval
        (pending_row (e.hex_encode raw) task_id trace_id tool k scope hash tool_input at)
    log (pending_approval_hook (e.hex_encode raw))
    pure (e.hex_encode raw)

  abbrev pub is_typed_onayla : String → Bool
  is_typed_onayla typed = e.nfc typed == "onayla"

  -- The undo window of a W1 action; a failure to open it is only noted.
  unfoldable pub note_failure : String → Result (Unit {0}) → Handler (Unit {0})
  note_failure task_id (ok _) = pure tt
  note_failure task_id (err _) = log (undo_window_open_failed task_id)

  unfoldable pub try_open_undo : ActionClass → String → String → String → Handler (Unit {0})
  try_open_undo k task_id tool trace_id =
      if is_class_w1 k
      then (do r ← caught (open_undo_window e task_id tool trace_id); note_failure task_id r)
      else pure tt

  unfoldable pub grant : String → PendingApproval → Handler String
  grant id p = do
    consume_pending id
    token ← mint_token e p.task_id p.trace_id p.tool p.class p.scope p.approved_bytes_hash
    try_open_undo p.class p.task_id p.tool p.trace_id
    count_approval p
    pure token

  unfoldable pub approve_row : String → PendingApproval → String → String → Handler String
  approve_row id p surface typed =
      if is_class_w3 p.class
      then (if not (surface == "local")
          then (do log (w3_nonlocal_approval_rejected p.tool); raise w3_requires_local_surface)
          else if not (is_typed_onayla typed)
          then (do log (w3_invalid_typed_onayla p.tool); raise w3_requires_typed_onayla)
          else grant id p)
      else grant id p

  -- Engine.Approve, with the id, the surface and the word that the user typed
  unfoldable pub approve : String → String → String → Handler String
  approve id surface typed = do p ← get_valid_pending_approval id; approve_row id p surface typed
