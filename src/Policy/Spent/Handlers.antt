-- ===== src/Policy/Spent/Handlers.antt =====
-- Every handler of kahyad/internal/policy keeps spent tokens and decided approvals.
use kahya.Base.{ℕ, String, List, [], ◌∷◌, Option, none, some}
use kahya.Base.Exec.{Result, Error, ok, err}
use kahya.Base.Guarantee.{Guarantees}
use kahya.Task.Rows.{ActionClass}
use kahya.Policy.Rows.{Engine, AutonomyState, UndoWindow}
use kahya.Policy.Ladder.{state_or_zero, load_state, save_state, demote, raise_level}
use kahya.Policy.Undo.{
  open_if_none, open_undo_window, expire, sweep, undo_row_at, undo_of, trigger_undo,
}
use kahya.Policy.Tokens.{drawn, read_random, mint_token}
use kahya.Policy.Approvals.{mint_pending_approval, note_failure, try_open_undo}
use kahya.Policy.Spent.{Keeps}
use kahya.Policy.Spent.Statements.{keeps_rules}

module _ (t : String) (k : ActionClass) (s : String) where
  pub state_or_zero-Keeps : (r : Result AutonomyState) → Guarantees Keeps (state_or_zero t k s r)
  unfolding state_or_zero
  state_or_zero-Keeps (ok x) = search keeps_rules
  state_or_zero-Keeps (err Error.no_rows) = search keeps_rules
  state_or_zero-Keeps (err x) = search keeps_rules

  pub load_state-Keeps : Guarantees Keeps (load_state t k s)
  unfolding load_state
  load_state-Keeps = search (keeps_rules, state_or_zero-Keeps)

  pub save_state-Keeps : (l n : ℕ) → Guarantees Keeps (save_state t k s l n)
  unfolding save_state
  save_state-Keeps l n = search keeps_rules depth 8

  pub demote-Keeps : Guarantees Keeps (demote t k s)
  unfolding demote
  demote-Keeps = search (keeps_rules, load_state-Keeps, save_state-Keeps) depth 8

  pub raise_level-Keeps : Guarantees Keeps (raise_level t k s)
  unfolding raise_level
  raise_level-Keeps = search (keeps_rules, load_state-Keeps, save_state-Keeps) depth 8

pub ruleset ladder_rules = (keeps_rules, load_state-Keeps, save_state-Keeps, demote-Keeps)

pub sweep-Keeps : (at : ℕ) (rows : List UndoWindow) (n : ℕ) → Guarantees Keeps (sweep at rows n)
unfolding sweep expire
sweep-Keeps at [] n = search keeps_rules
sweep-Keeps at (w ∷ rows) n = let rest = sweep-Keeps at rows in search (keeps_rules, rest) depth 8

module _ (e : Engine) where
  pub open_if_none-Keeps :
      (task tool trace : String) (r : Result UndoWindow)
      → Guarantees Keeps (open_if_none e task tool trace r)
  unfolding open_if_none
  open_if_none-Keeps task tool trace (ok w) = search keeps_rules
  open_if_none-Keeps task tool trace (err Error.no_rows) = search keeps_rules
  open_if_none-Keeps task tool trace (err x) = search keeps_rules

  pub open_undo-Keeps :
      (task tool trace : String) → Guarantees Keeps (open_undo_window e task tool trace)
  unfolding open_undo_window
  open_undo-Keeps task tool trace = search (keeps_rules, open_if_none-Keeps)

  pub note_failure-Keeps :
      (task : String) (r : Result (Unit {0})) → Guarantees Keeps (note_failure e task r)
  unfolding note_failure
  note_failure-Keeps task (ok _) = search keeps_rules
  note_failure-Keeps task (err _) = search keeps_rules

  pub try_open-Keeps :
      (k : ActionClass) (task tool trace : String)
      → Guarantees Keeps (try_open_undo e k task tool trace)
  unfolding try_open_undo
  try_open-Keeps k task tool trace =
      search (keeps_rules, open_undo-Keeps, note_failure-Keeps) depth 8

  pub drawn-Keeps : (o : Option String) → Guarantees Keeps (drawn o)
  drawn-Keeps none = search keeps_rules
  drawn-Keeps (some raw) = search keeps_rules

  pub read_random-Keeps : Guarantees Keeps (read_random e)
  unfolding read_random
  read_random-Keeps = search (keeps_rules, drawn-Keeps)

  pub mint_token-Keeps :
      (task trace tool : String) (k : ActionClass) (scope hash : String)
      → Guarantees Keeps (mint_token e task trace tool k scope hash)
  unfolding mint_token
  mint_token-Keeps task trace tool k scope hash = search (keeps_rules, read_random-Keeps) depth 8

  pub mint_pending-Keeps :
      (task trace tool : String) (k : ActionClass) (scope hash input : String)
      → Guarantees Keeps (mint_pending_approval e task trace tool k scope hash input)
  unfolding mint_pending_approval
  mint_pending-Keeps task trace tool k scope hash input =
      search (keeps_rules, read_random-Keeps) depth 8

  pub undo_row-Keeps :
      (trace : String) (at : ℕ) (w : UndoWindow) → Guarantees Keeps (undo_row_at e trace at w)
  unfolding undo_row_at
  undo_row-Keeps trace at w = search ladder_rules depth 8

  pub undo_of-Keeps :
      (trace : String) (r : Result UndoWindow) → Guarantees Keeps (undo_of e trace r)
  unfolding undo_of
  undo_of-Keeps trace (ok w) = search (keeps_rules, undo_row-Keeps)
  undo_of-Keeps trace (err Error.no_rows) = search keeps_rules
  undo_of-Keeps trace (err x) = search keeps_rules

  pub trigger_undo-Keeps : (trace : String) → Guarantees Keeps (trigger_undo e trace)
  unfolding trigger_undo
  trigger_undo-Keeps trace = search (keeps_rules, undo_of-Keeps)

pub ruleset handler_rules = (
  ladder_rules, raise_level-Keeps, try_open-Keeps, mint_token-Keeps, mint_pending-Keeps,
  sweep-Keeps, trigger_undo-Keeps,
)
