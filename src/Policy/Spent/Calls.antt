-- ===== src/Policy/Spent/Calls.antt =====
-- The entry points of kahyad/internal/policy, run one after the other.
use kahya.Base.{String, List, [], ◌∷◌, sym, subst}
use kahya.Base.Exec.{World, pure, ◌>>◌}
use kahya.Base.Guarantee.{Guarantees, Rely}
use kahya.Task.Rows.{ActionClass}
use kahya.Policy.Rows.{PolicyDb, Event, Engine, CheckInput, Handler}
use kahya.Policy.Ladder.{promote}
use kahya.Policy.Undo.{trigger_undo, sweep_expired_undo_windows}
use kahya.Policy.Tokens.{ConsumeInput, consume_token}
use kahya.Policy.Approvals.{deny_pending, approve}
use kahya.Policy.Check.{check}
use kahya.Policy.Halt.{invalidate_approvals_for_task}
use kahya.Policy.Spent.{Keeps, Keeps-order, Keeps-same}
use kahya.Policy.Spent.Statements.{keeps_rules}
use kahya.Policy.Spent.Handlers.{trigger_undo-Keeps}
use kahya.Policy.Spent.EntryPoints.{
  consume_token-Keeps, deny-Keeps, approve-Keeps, promote-Keeps, sweep_all-Keeps, invalidate-Keeps,
}
use kahya.Policy.Spent.Checks.{check-Keeps}

pub data Call : Type 0 where
  checks : CheckInput → Call
  approves : String → String → String → Call
  denies : String → Call
  promotes : String → ActionClass → String → Call
  consumes : ConsumeInput → Call
  undoes : String → Call
  sweeps : Call
  halts : String → Call

unfoldable pub run_call : Engine → Call → Handler (Unit {0})
run_call e (checks i) = do check e i; pure tt
run_call e (approves id surface typed) = do approve e id surface typed; pure tt
run_call e (denies id) = deny_pending id
run_call e (promotes tool k scope) = do promote e tool k scope; pure tt
run_call e (consumes i) = consume_token e i
run_call e (undoes trace_id) = do trigger_undo e trace_id; pure tt
run_call e sweeps = do sweep_expired_undo_windows; pure tt
run_call e (halts task_id) = do invalidate_approvals_for_task task_id; pure tt

pub run_call-Keeps : (e : Engine) (call : Call) → Guarantees Keeps (run_call e call)
unfolding run_call
run_call-Keeps e (checks i) = search (keeps_rules, check-Keeps)
run_call-Keeps e (approves id surface typed) = search (keeps_rules, approve-Keeps)
run_call-Keeps e (denies id) = deny-Keeps id
run_call-Keeps e (promotes tool k scope) = search (keeps_rules, promote-Keeps)
run_call-Keeps e (consumes i) = consume_token-Keeps i e
run_call-Keeps e (undoes trace_id) = search (keeps_rules, trigger_undo-Keeps)
run_call-Keeps e sweeps = search (keeps_rules, sweep_all-Keeps)
run_call-Keeps e (halts task_id) = search (keeps_rules, invalidate-Keeps)

-- calls one after the other, each after whatever the one before it returned
unfoldable pub run_calls : Engine → List Call → World PolicyDb Event → World PolicyDb Event
run_calls e [] w = w
run_calls e (call ∷ calls) w = run_calls e calls (run_call e call w).1

module _ (e : Engine) where
  pub run_calls-Keeps :
      (calls : List Call) (w : World PolicyDb Event)
      → Rely Keeps w.others
      → Keeps w.db (run_calls e calls w).db × Rely Keeps (run_calls e calls w).others
  unfolding run_calls
  run_calls-Keeps [] w rely = (Keeps-same w.db, rely)
  run_calls-Keeps (call ∷ calls) w rely =
      let g = run_call-Keeps e call in
      let rest =
        run_calls-Keeps calls (run_call e call w).1
          (subst (Rely Keeps) (sym (g.others_kept w)) rely) in
      (Keeps-order.chain w.db (run_call e call w).1.db _ (g.at w rely) rest.0, rest.1)
