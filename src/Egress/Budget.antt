-- ===== src/Egress/Budget.antt =====
-- kahyad/internal/egress/budget.go and sensitive.go, and the statements on egress_budget: the bytes that
-- each host has been sent on a day, and the sessions that read what is secret.
pub mod Sums
use kahya.Base.{
  ℕ, zero, suc, ◌+◌, String, Bool, true, false, not, ◌&&◌, ◌||◌, Option, none, some, List, [], ◌∷◌,
  ◌++◌, eqb, ◌==◌, if◌then◌else◌,
}
use kahya.Base.Exec.{
  Exec, World, Result, Error, ok, err, pure, raise, query, caught, is_no_rows, one, ◌>>=◌, ◌>>◌,
}
use kahya.Base.Table.{find, count_where, update_where}
use kahya.Base.Text.{Text, text_eq}

pub record EgressBudget : Type 0 where
  pub host : Text
  pub day : String
  pub bytes : ℕ

-- `marked` is SensitiveTracker's set, in memory
pub record EgressDb : Type 0 where
  pub budgets : List EgressBudget
  pub marked : List String

pub record SessionInfo : Type 0 where
  pub session_id : String
  pub task_id : String
  pub trace_id : String

pub data Rule : Type 0 where
  egress_allowed egress_blocked_sensitive egress_blocked_allowlist egress_blocked_budget : Rule
  sensitive_read_marked egress_metered egress_blocked_dns_rebind : Rule

-- the ledger's events with the host and the bytes, and the budget's alarm
pub data EgressEvent : Type 0 where
  recorded : SessionInfo → Rule → Text → ℕ → EgressEvent
  alarm : SessionInfo → Text → EgressEvent

abbrev pub Handler : Type 0 → Type 0
Handler = Exec EgressDb EgressEvent

abbrev pub is_budget_of : Text → String → EgressBudget → Bool
is_budget_of host day r = text_eq r.host host && r.day == day

unfoldable pub get_egress_budget : Text → String → Handler EgressBudget
get_egress_budget host day = query (λ d. one (find (is_budget_of host day) d.budgets) d)

abbrev pub insert_new : ℕ → EgressBudget → EgressDb → Result (Unit {0}) × EgressDb
insert_new zero row d = (ok tt, record d { budgets = d.budgets ++ row ∷ [] })
insert_new (suc n) row d = (err Error.unique_violation, d)

-- the primary key is (host, day)
unfoldable pub insert_egress_budget : Text → String → ℕ → Handler (Unit {0})
insert_egress_budget host day n = query (λ d.
    insert_new (count_where (is_budget_of host day) d.budgets)
      (record { host = host; day = day; bytes = n }) d)

unfoldable pub increment_egress_budget : ℕ → Text → String → Handler ℕ
increment_egress_budget n host day = query (λ d. (
  ok (count_where (is_budget_of host day) d.budgets),
  record d {
    budgets =
        update_where (is_budget_of host day) (λ r. record r { bytes = r.bytes + n }) d.budgets;
  },
))

unfoldable pub bytes_or_zero : Result EgressBudget → Handler ℕ
bytes_or_zero (ok row) = pure row.bytes
bytes_or_zero (err e) = if is_no_rows e then pure 0 else raise e

unfoldable pub bytes_of : Text → String → Handler ℕ
bytes_of host day = do r ← caught (get_egress_budget host day); bytes_or_zero r

unfoldable pub insert_if_none : Text → String → ℕ → ℕ → Handler ℕ
insert_if_none host day n zero = do insert_egress_budget host day n; pure n
insert_if_none host day n (suc rows) = bytes_of host day

-- SQLBudget.Add
unfoldable pub add : Text → String → ℕ → Handler ℕ
add host day n = do rows ← increment_egress_budget n host day; insert_if_none host day n rows

unfoldable pub mem : String → List String → Bool
mem s [] = false
mem s (t ∷ ts) = t == s || mem s ts

-- IsMarked, which reads the tracker and not the database
unfoldable pub is_marked : String → Handler Bool
is_marked s w = (ok (not (s == "") && mem s w.db.marked), w)

abbrev pub mark_in : String → EgressDb → EgressDb
mark_in s d = if s == "" || mem s d.marked then d else record d { marked = s ∷ d.marked }

unfoldable pub mark : String → Handler (Unit {0})
mark s w = (ok tt, record w { db = mark_in s w.db })
