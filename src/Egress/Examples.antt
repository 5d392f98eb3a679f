-- ===== src/Egress/Examples.antt =====
-- Tests of kahyad/internal/egress on a concrete gate, and the theorems at them.
use kahya.Base.{ℕ, ◌≡◌, ◌+◌, ◌<◌, refl, some, none, [], ◌∷◌, true, false, String, arith}
use kahya.Base.Exec.{World, ok, alone, calm, ◌>>=◌}
use kahya.Base.Table.{find, count_where, update_where}
use kahya.Base.Text.{Text, text_eq}
use kahya.Egress.Host.{
  v4, Net, canonicalize_host, canonicalize_trimmed, strip_brackets, trim_suffix, ends_with,
  without_last, is_loopback, in_private_cidrs,
}
use kahya.Egress.Budget.{
  EgressDb, EgressEvent, SessionInfo, egress_blocked_sensitive, egress_allowed,
}
use kahya.Egress.Budget.Sums.{sum_at}
use kahya.Egress.Gate.{
  EgressConfig, Gate, reason_sensitive, reason_none, new_gate, allow_entries, per_host_entries,
  lookup, has_port, match_allowlist, limit_for, check, check_host, check_matched, within_budget,
  bytes_if, spend, add_bytes, add_if, sum_over, mark_sensitive_read,
}
use kahya.Egress.Gate.Bounded.{Request, checks, WithinLimits, checks-WithinLimits}
use kahya.Egress.Gate.Allowed.{some_entry, entry_allows, check-some_entry}
use kahya.Egress.Gate.Marked.{checks_host, run_acts, marked-denied}

abbrev net : Net
net = record {
  trim_space = λ s. s;
  to_lower = λ s. s;
  parse_ip = λ s. none;
  print_ip = λ ip. [];
  to_unicode = λ s. none;
}

abbrev api : Text
api = 97 ∷ 112 ∷ 105 ∷ []

abbrev evil : Text
evil = 101 ∷ 118 ∷ []

abbrev cfg : EgressConfig
cfg = record {
  allowlist = record { host = api; ports = [] } ∷ [];
  default_daily_byte_budget = 100;
  daily_byte_budget = [];
}

abbrev session : SessionInfo
session = record { session_id = "s"; task_id = "t"; trace_id = "r" }

abbrev empty_db : EgressDb
empty_db = record { budgets = []; marked = [] }

abbrev day_of : ℕ → String
day_of n = "2026-01-01"

abbrev gate : Gate
unfolding new_gate
gate = new_gate net cfg true true true day_of

abbrev start : World EgressDb EgressEvent
start = calm (λ n. n) 0 [] empty_db

canonicalize_test : canonicalize_host net (91 ∷ 49 ∷ 93 ∷ []) ≡ some (49 ∷ [])
unfolding canonicalize_host canonicalize_trimmed strip_brackets trim_suffix ends_with without_last
canonicalize_test = refl

private_test : (is_loopback (v4 127 0 0 1) ≡ true) × (in_private_cidrs (v4 172 31 0 1) ≡ true)
unfolding is_loopback in_private_cidrs
private_test = (refl, refl)

allowed_run :
    (check gate api 443 60 session start).0
    ≡ ok (record { allow = true; deny_reason = reason_none; rule = egress_allowed })
unfolding new_gate check check_host canonicalize_host canonicalize_trimmed strip_brackets
    trim_suffix ends_with without_last kahya.Egress.Budget.is_marked match_allowlist lookup
    allow_entries per_host_entries has_port text_eq check_matched within_budget bytes_if
    kahya.Egress.Budget.bytes_of kahya.Egress.Budget.get_egress_budget
    kahya.Egress.Budget.bytes_or_zero find limit_for sum_over spend add_bytes add_if
    kahya.Egress.Budget.add kahya.Egress.Budget.increment_egress_budget
    kahya.Egress.Budget.insert_if_none kahya.Egress.Budget.insert_egress_budget count_where
    update_where ◌>>=◌
allowed_run = refl

abbrev request : ℕ → Request
request n = record { host = api; port = 443; nbytes = n; session = session }

limit_test : (host : Text) → limit_for gate host ≡ 100
unfolding new_gate limit_for per_host_entries lookup
limit_test host = refl

small_test : (host : Text) → limit_for gate host + 60 < 9223372036854775808
small_test host = omega (arith, limit_test host)

checks-WithinLimits_example :
    WithinLimits gate
      (checks gate (request 60 ∷ request 60 ∷ []) (alone (λ n. false) (λ n. n) 0 [] empty_db)).db
unfolding sum_at find
checks-WithinLimits_example =
    checks-WithinLimits gate (request 60 ∷ request 60 ∷ []) (λ n. false) (λ n. n) 0 [] empty_db
      (small_test, (small_test, tt)) (λ host day limited. omega arith)

check-some_entry_example :
    (host : Text) × (canonicalize_host net api ≡ some host)
    × (some_entry (entry_allows net host 443) cfg.allowlist ≡ true)
unfolding new_gate gate
check-some_entry_example =
    check-some_entry net cfg true true true day_of api 443 60 session start
      (record { allow = true; deny_reason = reason_none; rule = egress_allowed }) allowed_run refl

marked-denied_example :
    (check gate evil 443 0 session (
      run_acts gate
        (checks_host api 443 5 session ∷ [])
        (mark_sensitive_read gate session start).1)).0
    ≡ ok (record {
      allow = false;
      deny_reason = reason_sensitive evil;
      rule = egress_blocked_sensitive;
    })
unfolding new_gate match_allowlist lookup allow_entries text_eq canonicalize_host
    canonicalize_trimmed strip_brackets trim_suffix ends_with without_last
marked-denied_example =
    marked-denied net cfg true true day_of session (checks_host api 443 5 session ∷ []) evil evil
      443 0 start refl (λ n d h. h) refl refl
