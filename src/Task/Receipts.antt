-- ===== src/Task/Receipts.antt =====
-- kahyad/internal/task/receipts.go: a side-effectful tool call runs once, from intent over
-- executing to its receipt, and a call with a receipt is replayed. The JSON codec of the receipt
-- envelope and the effect are parameters; the backoff between two claims only delays.
pub mod Atomicity
pub mod Replay
pub mod Stranded
use kahya.Base.{ℕ, zero, suc, String, Bool, true, false, Option, none, some, List, if◌then◌else◌}
use kahya.Base.Exec.{
  World, Result, Error, ok, err, pure, raise, log, query, caught, transaction, read_only_class,
  claim_timeout, codec_failed, ctx_canceled, unique_violation, ◌>>=◌, ◌>>◌,
}
use kahya.Task.Rows.{ActionClass, is_class_r, ToolCall, Db, tool_replayed, Handler}
use kahya.Task.Queries.{
  next_tool_call_seq, insert_tool_call_intent, mark_tool_call_executing, mark_tool_call_receipt,
  mark_tool_call_failed, get_receipt_tool_call,
}

pub record ExecuteInput : Type 0 where
  pub task_id : String
  pub trace_id : String
  pub tool_name : String
  pub class : ActionClass
  pub args_hash : String

-- what an effect does to the other tables inside the transaction of its receipt
abbrev pub EffectFunc : Type 0
EffectFunc = List String → Result String × List String

-- encoding/json at the receipt envelope: `marshal` refuses a result that is no JSON
pub record Codec : Type 0 where
  pub marshal : String → Option String
  pub unmarshal : String → Option String

pub data Claim : Type 0 where
  claimed : ToolCall → Claim
  replayed : String → ℕ → Claim

abbrev pub or_raise : {A : Type 0} → Option A → Error → Handler A
or_raise none e = raise e
or_raise (some a) e = pure a

unfoldable pub fail_and_return : {A : Type 0} → ℕ → Error → Handler A
fail_and_return id cause = do mark_tool_call_failed id; raise cause

-- one statement of the transaction that no table shows: BEGIN, COMMIT
unfoldable pub tx_statement : Handler (Unit {0})
tx_statement = query λ d. (ok tt, d)

unfoldable pub apply_effect : EffectFunc → Handler String
apply_effect effect w =
    let (r, writes) = effect w.db.writes in (r, record w { db = record w.db { writes = writes } })

unfoldable pub conclude : ℕ → Result String → Handler (String × Bool)
conclude id (ok r) = pure (r, false)
conclude id (err e) = fail_and_return id e

module _ (codec : Codec) where
  open codec use {marshal, unmarshal}

  unfoldable pub decode_receipt : ToolCall → Handler (Option (String × ℕ))
  decode_receipt c = do
    r ←
        or_raise (elim c.receipt_json [ none ↦ unmarshal "" | some json ↦ unmarshal json ])
          codec_failed
    pure (some (r, c.seq))

  -- the receipt of the key, if it has one; a missing row is no error
  unfoldable pub replay_of : Result ToolCall → Handler (Option (String × ℕ))
  unfolding decode_receipt
  replay_of (ok c) = decode_receipt c
  replay_of (err Error.no_rows) = pure none
  replay_of (err e) = raise e

  -- the effect, its receipt and the commit
  unfoldable pub effect_tx : EffectFunc → ℕ → Handler String
  effect_tx effect id = do
    r ← apply_effect effect
    json ← or_raise (marshal r) codec_failed
    mark_tool_call_receipt json id
    tx_statement
    pure r

  module _ (in_ : ExecuteInput) where
    open in_ use {task_id, trace_id, tool_name, class, args_hash}

    unfoldable pub check_replay : Handler (Option (String × ℕ))
    check_replay = do r ← caught (get_receipt_tool_call task_id tool_name args_hash); replay_of r

    unfoldable pub replay_or_retry : Handler Claim → Option (String × ℕ) → Handler Claim
    replay_or_retry again none = again
    replay_or_retry again (some (r, seq)) = pure (replayed r seq)

    -- the insert's outcome: a row, another caller's row at that seq, or a failure
    unfoldable pub claim_of : Handler Claim → Result ToolCall → Handler Claim
    claim_of again (ok row) = pure (claimed row)
    claim_of again (err Error.unique_violation) = do hit ← check_replay; replay_or_retry again hit
    claim_of again (err e) = raise e

    -- claimIntent's loop, with the attempts that are left; `ctx_done` is read before each wait
    unfoldable pub claim_loop : (ℕ → Bool) → ℕ → Handler Claim
    claim_loop ctx_done zero = raise claim_timeout
    claim_loop ctx_done (suc left) = do
      seq ← next_tool_call_seq task_id tool_name args_hash
      inserted ← caught (insert_tool_call_intent task_id seq tool_name class args_hash)
      claim_of (if ctx_done left then raise ctx_canceled else claim_loop ctx_done left) inserted

    unfoldable pub claim_intent : (ℕ → Bool) → Handler Claim
    claim_intent ctx_done = claim_loop ctx_done 50

    unfoldable pub run_claimed : EffectFunc → Claim → Handler (String × Bool)
    run_claimed effect (replayed r seq) = do
      log (tool_replayed task_id tool_name args_hash seq)
      pure (r, true)
    run_claimed effect (claimed row) = do
      mark_tool_call_executing row.id
      tx_statement
      r ← caught (transaction (effect_tx effect row.id))
      conclude row.id r

    unfoldable pub replay_or_run :
        (ℕ → Bool) → EffectFunc → Option (String × ℕ) → Handler (String × Bool)
    replay_or_run ctx_done effect (some (r, seq)) = do
      log (tool_replayed task_id tool_name args_hash seq)
      pure (r, true)
    replay_or_run ctx_done effect none = do c ← claim_intent ctx_done; run_claimed effect c

    -- Receipts.Execute, with the flag that tells a replay
    unfoldable pub execute : (ℕ → Bool) → EffectFunc → Handler (String × Bool)
    execute ctx_done effect =
        if is_class_r class
        then raise read_only_class
        else (do hit ← check_replay; replay_or_run ctx_done effect hit)
