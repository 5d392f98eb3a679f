-- ===== src/Policy/Examples.antt =====
-- The theorems of kahyad/internal/policy at a concrete engine and database.
use kahya.Base.{true}
use kahya.Base.{
  ℕ, String, ◌≡◌, ◌≢◌, inr, refl, some, none, Option, [], ◌∷◌, false, if◌then◌else◌, ◌==◌, arith,
}
use kahya.Base.Exec.{World, Error, ok, calm, ◌>>=◌}
use kahya.Base.Table.{find, select, order_by, update_where, count_where}
use kahya.Task.Rows.{ActionClass, class_w1, class_w2, class_w3}
use kahya.Policy.Rows.{
  PendingApproval, PolicyDb, Event, CheckInput, Engine, TaintTier, tier_tainted, tier_clean,
}
use kahya.Policy.Queries.{
  get_autonomy_state, insert_approval_token, get_approval_token, consume_approval_token,
  get_pending_approval, consume_pending_approval, get_open_undo_window_by_task_tool_trace,
  insert_undo_window,
}
use kahya.Policy.Ladder.{state_row, state_or_zero, load_state, demote}
use kahya.Policy.Undo.{open_undo_window, open_if_none}
use kahya.Policy.Tokens.{
  ConsumeInput, token_row, read_random, mint_token, consume_token, consume_decoded, consume_hash,
  after_consume, verify_row,
}
use kahya.Policy.Tokens.Minted.{mint-consume}
use kahya.Policy.Approvals.{
  pending_row, try_open_undo, note_failure, approve, get_valid_pending_approval, valid_pending,
  consume_pending, deny_pending,
}
use kahya.Policy.Approvals.LocalOnly.{approve-w3_refused}
use kahya.Policy.Check.{
  canonicalize, allowed, decide, decide_allowed, auto_token, auto_allow, on_level, on_state,
  on_ladder, with_taint_checker, check_known, check,
}
use kahya.Policy.Check.Sound.{Justified, check-allow}
use kahya.Policy.Resolver.Wired.{Tables, tracker, resolver, check-resolved}
use kahya.Policy.Check.Tainted.{DeniesAndWritesNothing, check-tainted}
use kahya.Policy.Queries.{is_live_pending_of, is_live_token_of}
use kahya.Policy.Halt.{invalidate_approvals_for_task}
use kahya.Policy.Halt.Closed.{invalidate_approvals_for_task-none_live}
use kahya.Policy.Spent.{Keeps-same}
use kahya.Policy.Spent.Calls.{checks, halts, run_call, run_calls}
use kahya.Policy.Spent.Once.{consume_token-once}
use kahya.Policy.Spent.Decided.{denying, approving, deciding, deciding-once}

abbrev tools : String → Option ActionClass
tools name =
    if name == "fs_write"
    then some class_w1
    else if name == "mail_send"
    then some class_w2
    else none

abbrev tier_of_session : ℕ → String → TaintTier × Option Error
tier_of_session n session = if session == "web" then (tier_tainted, none) else (tier_clean, none)

abbrev engine : Engine
engine = record {
  tools_by_name = tools;
  bytes_hash = λ s. s;
  raw_bytes_hash = λ s. s;
  hex_encode = λ s. s;
  hex_decode = λ s. some s;
  random = λ n. some "raw";
  nfc = λ s. s;
  undo_window_duration = 300000000000;
  taint_checker = none;
  session_resolver = none;
}

abbrev watched : Engine
watched = record engine {
  taint_checker = some tier_of_session;
  session_resolver = some (λ n trace task. ok "web");
}

abbrev write_file : CheckInput
write_file = record {
  tool = "mcp__kahya_fs__fs_write";
  scope = "";
  task_id = "a";
  trace_id = "t";
  session_id = "";
  tool_input = "{}";
}

abbrev empty_db : PolicyDb
empty_db = record {
  autonomy = state_row "fs_write" class_w1 "global" 2 7 (some 0) ∷ [];
  tokens = [];
  pending = [];
  undo_windows = [];
  next_undo_id = 1;
}

abbrev start : World PolicyDb Event
start = calm (λ n. n) 0 [] empty_db

abbrev canonical_name : String
canonical_name = "fs_write"

canonicalize_prefixed : canonicalize "mcp__kahya_fs__fs_write" ≡ canonical_name
unfolding canonicalize
canonicalize_prefixed = refl

canonicalize_plain : canonicalize "fs_write" ≡ canonical_name
unfolding canonicalize
canonicalize_plain = refl

check-allow_example :
    (k : ActionClass) × (engine.tools_by_name (canonicalize write_file.tool) ≡ some k)
    × Justified k (allowed class_w1 "global" 2 (some "raw")) none
unfolding canonicalize check check_known with_taint_checker on_ladder on_state on_level auto_allow
    auto_token decide_allowed decide load_state state_or_zero get_autonomy_state read_random
    mint_token insert_approval_token try_open_undo note_failure open_undo_window open_if_none
    get_open_undo_window_by_task_tool_trace insert_undo_window find select order_by count_where
    ◌>>=◌
check-allow_example =
    check-allow engine write_file start (allowed class_w1 "global" 2 (some "raw")) none refl refl

check-tainted_example :
    DeniesAndWritesNothing class_w1 "global" start (check watched write_file start)
unfolding canonicalize
check-tainted_example =
    check-tainted watched tier_of_session (λ n trace task. ok "web") write_file class_w1 refl refl
      refl refl start (inr refl)

abbrev held : ConsumeInput
held = record { token = "raw"; tool = "fs_write"; task_id = "a"; trace_id = "t"; tool_input = "{}" }

abbrev with_token : World PolicyDb Event
with_token =
    calm (λ n. n) 0 []
      (record empty_db {
        tokens = token_row engine "a" "t" "fs_write" class_w1 "global" "{}" "raw" 0 ∷ [];
      })

consume_token-once_example :
    (consume_token engine held (
      run_calls engine
        (checks write_file ∷ halts "a" ∷ [])
        (consume_token engine held with_token).1)).0
    ≢ ok tt
unfolding consume_token consume_decoded consume_hash consume_approval_token after_consume
    get_approval_token verify_row find update_where count_where ◌>>=◌
consume_token-once_example =
    consume_token-once engine held held (checks write_file ∷ halts "a" ∷ []) with_token
      (λ n d. Keeps-same d) refl refl

abbrev pending_mail : ActionClass → PendingApproval
pending_mail k = pending_row "p" "a" "t" "mail_send" k "global" "{}" "{}" 0

abbrev with_pending : ActionClass → PolicyDb
with_pending k = record empty_db { pending = pending_mail k ∷ [] }

deciding-once_example :
    (run_call engine (deciding "p" (approving "local" "onayla")) (
      run_calls engine
        (checks write_file ∷ [])
        (run_call engine (deciding "p" denying) (calm (λ n. n) 0 [] (with_pending class_w2))).1)).0
    ≢ ok tt
unfolding run_call deny_pending get_valid_pending_approval get_pending_approval valid_pending
    consume_pending consume_pending_approval demote load_state find update_where count_where ◌>>=◌
deciding-once_example =
    deciding-once engine "p" denying (approving "local" "onayla") (checks write_file ∷ [])
      (calm (λ n. n) 0 [] (with_pending class_w2)) (λ n d. Keeps-same d) refl

approve-w3_refused_example :
    let out = approve engine "p" "telegram" "onayla" (calm (λ n. n) 0 [] (with_pending class_w3)) in
    (out.1.db ≡ with_pending class_w3) × ((token : String) → out.0 ≢ ok token)
unfolding find
approve-w3_refused_example =
    approve-w3_refused engine "p" "telegram" "onayla" (λ n. false) (λ n. n) 0 []
      (with_pending class_w3) (pending_mail class_w3) refl refl refl

mint-consume_example :
    let minted = mint_token engine "a" "t" "mail_send" class_w2 "global" "{}" start in
    let i : ConsumeInput = record {
      token = "raw";
      tool = "mail_send";
      task_id = "a";
      trace_id = "t";
      tool_input = "{}";
    } in
    (minted.0 ≡ ok "raw") × ((consume_token engine i minted.1).0 ≡ ok tt)
unfolding count_where
mint-consume_example =
    mint-consume engine (λ n. n) 0 [] empty_db "raw" "a" "t" "mail_send" class_w2 "global" "{}" refl
      refl refl refl (omega arith)

invalidate_approvals_for_task-none_live_example :
    let out = invalidate_approvals_for_task "a" (calm (λ n. n) 0 [] (with_pending class_w2)) in
    ((m : ℕ) × (out.0 ≡ ok m))
    × (count_where (is_live_pending_of "a") out.1.db.pending ≡ 0)
    × (count_where (is_live_token_of "a") out.1.db.tokens ≡ 0)
invalidate_approvals_for_task-none_live_example =
    invalidate_approvals_for_task-none_live "a" (λ n. n) 0 [] (with_pending class_w2)

abbrev tables : Tables
tables = record {
  tasks = λ n. record { id = "a"; trace_id = "t"; session_id = some "web"; updated_at = 0 } ∷ [];
  taints = λ n. [];
  task_faults = λ n. false;
  taint_faults = λ n. true;
  clock = λ n. n;
}

abbrev wired : Engine
wired = record engine {
  taint_checker = some (tracker tables);
  session_resolver = some (resolver tables);
}

check-resolved_example :
    DeniesAndWritesNothing class_w1 "global" start (check wired write_file start)
unfolding canonicalize find
check-resolved_example =
    check-resolved tables wired write_file class_w1
      (record { id = "a"; trace_id = "t"; session_id = some "web"; updated_at = 0 }) "web" refl refl
      refl refl refl refl refl start refl tt
