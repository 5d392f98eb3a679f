-- ===== src/Policy/Spent/EntryPoints.antt =====
-- Every entry point of kahyad/internal/policy keeps spent tokens and decided approvals.
use kahya.Base.{ℕ, zero, suc, String, List, [], ◌∷◌, Option, none, some}
use kahya.Base.Exec.{Result, Error, ok, err}
use kahya.Base.Guarantee.{Guarantees}
use kahya.Task.Rows.{ActionClass}
use kahya.Policy.Rows.{Engine, ApprovalToken, PendingApproval}
use kahya.Policy.Ladder.{promote_known, promote}
use kahya.Policy.Undo.{sweep_expired_undo_windows}
use kahya.Policy.Tokens.{
  ConsumeInput, punish, fail_from_hash, verify_row, after_consume, consume_hash, consume_decoded,
  consume_token,
}
use kahya.Policy.Approvals.{
  valid_pending, get_valid_pending_approval, consume_pending, deny_pending, count_approval, grant,
  approve_row, approve,
}
use kahya.Policy.Halt.{
  note_revoke, count_invalidated, invalidate_rows, invalidate_approvals_for_task,
}
use kahya.Policy.Spent.{Keeps}
use kahya.Policy.Spent.Statements.{keeps_rules}
use kahya.Policy.Spent.Handlers.{ladder_rules, handler_rules}

module _ (i : ConsumeInput) where
  pub punish-Keeps : (r : Result ApprovalToken) → Guarantees Keeps (punish i r)
  unfolding punish
  punish-Keeps (err _) = search keeps_rules
  punish-Keeps (ok t) = search handler_rules depth 8

  pub fail-Keeps : (hash : String) → Guarantees Keeps (fail_from_hash i hash)
  unfolding fail_from_hash
  fail-Keeps hash = search (keeps_rules, punish-Keeps) depth 8

  module _ (e : Engine) where
    pub verify_row-Keeps :
        (hash : String) (at : ℕ) (r : Result ApprovalToken)
        → Guarantees Keeps (verify_row e i hash at r)
    unfolding verify_row
    verify_row-Keeps hash at (err _) = fail-Keeps hash
    verify_row-Keeps hash at (ok t) = search (keeps_rules, fail-Keeps) depth 8

    pub after_consume-Keeps :
        (hash : String) (at : ℕ) (r : Result ℕ) → Guarantees Keeps (after_consume e i hash at r)
    unfolding after_consume
    after_consume-Keeps hash at (err _) = fail-Keeps hash
    after_consume-Keeps hash at (ok zero) = fail-Keeps hash
    after_consume-Keeps hash at (ok (suc _)) = search (keeps_rules, verify_row-Keeps) depth 8

    consume_hash-Keeps : (hash : String) → Guarantees Keeps (consume_hash e i hash)
    unfolding consume_hash
    consume_hash-Keeps hash = search (keeps_rules, after_consume-Keeps) depth 8

    consume_decoded-Keeps : (o : Option String) → Guarantees Keeps (consume_decoded e i o)
    unfolding consume_decoded
    consume_decoded-Keeps none = search keeps_rules depth 8
    consume_decoded-Keeps (some raw) = consume_hash-Keeps (e.raw_bytes_hash raw)

    pub consume_token-Keeps : Guarantees Keeps (consume_token e i)
    unfolding consume_token
    consume_token-Keeps = consume_decoded-Keeps (e.hex_decode i.token)

valid_pending-Keeps : (r : Result PendingApproval) → Guarantees Keeps (valid_pending r)
unfolding valid_pending
valid_pending-Keeps (err Error.no_rows) = search keeps_rules
valid_pending-Keeps (err x) = search keeps_rules
valid_pending-Keeps (ok p) = search keeps_rules depth 8

pub get_valid-Keeps : (id : String) → Guarantees Keeps (get_valid_pending_approval id)
unfolding get_valid_pending_approval
get_valid-Keeps id = search (keeps_rules, valid_pending-Keeps) depth 8

pub consume_pending-Keeps : (id : String) → Guarantees Keeps (consume_pending id)
unfolding consume_pending
consume_pending-Keeps id = search keeps_rules depth 8

pub deny-Keeps : (id : String) → Guarantees Keeps (deny_pending id)
unfolding deny_pending
deny-Keeps id = search (handler_rules, get_valid-Keeps, consume_pending-Keeps) depth 10

pub count_approval-Keeps : (p : PendingApproval) → Guarantees Keeps (count_approval p)
unfolding count_approval
count_approval-Keeps p = search ladder_rules depth 12

module _ (e : Engine) where
  grant-Keeps : (id : String) (p : PendingApproval) → Guarantees Keeps (grant e id p)
  unfolding grant
  grant-Keeps id p = search (handler_rules, consume_pending-Keeps, count_approval-Keeps) depth 10

  approve_row-Keeps :
      (id : String) (p : PendingApproval) (surface typed : String)
      → Guarantees Keeps (approve_row e id p surface typed)
  unfolding approve_row
  approve_row-Keeps id p surface typed = search (keeps_rules, grant-Keeps) depth 10

  pub approve-Keeps : (id surface typed : String) → Guarantees Keeps (approve e id surface typed)
  unfolding approve
  approve-Keeps id surface typed = search (keeps_rules, get_valid-Keeps, approve_row-Keeps)

promote_known-Keeps :
    (tool : String) (k : ActionClass) (scope : String) (o : Option ActionClass)
    → Guarantees Keeps (promote_known tool k scope o)
unfolding promote_known
promote_known-Keeps tool k scope none = search keeps_rules
promote_known-Keeps tool k scope (some _) = search handler_rules depth 8

pub promote-Keeps :
    (e : Engine) (tool : String) (k : ActionClass) (scope : String)
    → Guarantees Keeps (promote e tool k scope)
unfolding promote
promote-Keeps e tool k scope = promote_known-Keeps tool k scope (e.tools_by_name tool)

pub sweep_all-Keeps : Guarantees Keeps sweep_expired_undo_windows
unfolding sweep_expired_undo_windows
sweep_all-Keeps = search handler_rules depth 8

-- InvalidateApprovalsForTask
note_revoke-Keeps : (task : String) (r : Result ℕ) → Guarantees Keeps (note_revoke task r)
unfolding note_revoke
note_revoke-Keeps task (ok _) = search keeps_rules
note_revoke-Keeps task (err _) = search keeps_rules

count_invalidated-Keeps :
    (task : String) (p : PendingApproval) (n : ℕ) (r : Result ℕ)
    → Guarantees Keeps (count_invalidated task p n r)
unfolding count_invalidated
count_invalidated-Keeps task p n (err _) = search keeps_rules
count_invalidated-Keeps task p n (ok affected) = search keeps_rules depth 8

invalidate_rows-Keeps :
    (task : String) (at : ℕ) (rows : List PendingApproval) (n : ℕ)
    → Guarantees Keeps (invalidate_rows task at rows n)
unfolding invalidate_rows
invalidate_rows-Keeps task at [] n = search keeps_rules
invalidate_rows-Keeps task at (p ∷ rows) n =
    let rest = invalidate_rows-Keeps task at rows in
    search (keeps_rules, count_invalidated-Keeps, rest) depth 8

pub invalidate-Keeps : (task : String) → Guarantees Keeps (invalidate_approvals_for_task task)
unfolding invalidate_approvals_for_task
invalidate-Keeps task = search (keeps_rules, invalidate_rows-Keeps, note_revoke-Keeps) depth 10
