-- ===== src/Egress/Gate.antt =====
-- kahyad/internal/egress/gate.go: Gate decides each request that would leave the machine. Its mutex keeps
-- two decisions apart, and budget.go is the only writer of the budget.
pub mod Bounded
pub mod Marked
pub mod Allowed
use kahya.Base.{
  ℕ, zero, suc, ◌+◌, ◌%◌, String, Bool, true, false, not, ◌&&◌, ◌||◌, Option, none, some, List, [],
  ◌∷◌, eqb, ltb, ◌==◌, if◌then◌else◌,
}
use kahya.Base.Exec.{Result, Error, ok, err, pure, raise, log, now, caught, ◌>>=◌, ◌>>◌}
use kahya.Base.Text.{Text, text_eq}
use kahya.Egress.Host.{Net, canonicalize_host, is_private_or_link_local}
use kahya.Egress.Budget.{
  EgressEvent, recorded, alarm, Handler, SessionInfo, Rule, egress_allowed,
  egress_blocked_sensitive, egress_blocked_allowlist, egress_blocked_budget, sensitive_read_marked,
  egress_metered, egress_blocked_dns_rebind, bytes_of, add, is_marked, mark,
}

-- policy.EgressConfig
pub record AllowlistEntry : Type 0 where
  pub host : Text
  pub ports : List ℕ

pub record EgressConfig : Type 0 where
  pub allowlist : List AllowlistEntry
  pub default_daily_byte_budget : ℕ
  pub daily_byte_budget : List (Text × ℕ)

-- the reasons of a denial, which Go writes out in Turkish with the host
pub data DenyReason : Type 0 where
  reason_none : DenyReason
  reason_sensitive reason_allowlist reason_private reason_budget reason_dns_rebind :
      Text → DenyReason

pub record Decision : Type 0 where
  pub allow : Bool
  pub deny_reason : DenyReason
  pub rule : Rule

-- Gate, with its clock's day; a map is a list of its entries, the last one written first
pub record Gate : Type 0 where
  pub net : Net
  pub allowlist : List (Text × List ℕ)
  pub default_daily_byte_budget : ℕ
  pub per_host_daily_byte_budget : List (Text × ℕ)
  pub has_sessions : Bool
  pub has_budget : Bool
  pub has_notifier : Bool
  pub day_of : ℕ → String

unfoldable pub lookup : {A : Type 0} → Text → List (Text × A) → Option A
lookup k [] = none
lookup k ((h, a) ∷ rows) = if text_eq h k then some a else lookup k rows

abbrev pub put : {A : Type 0} → Option Text → A → List (Text × A) → List (Text × A)
put none a rows = rows
put (some h) a rows = (h, a) ∷ rows

-- an entry without ports is for 443 alone
abbrev pub ports_or_https : List ℕ → List ℕ
ports_or_https [] = 443 ∷ []
ports_or_https (p ∷ ports) = p ∷ ports

unfoldable pub allow_entries :
    Net → List AllowlistEntry → List (Text × List ℕ) → List (Text × List ℕ)
allow_entries net [] allow = allow
allow_entries net (e ∷ entries) allow =
    allow_entries net entries (put (canonicalize_host net e.host) (ports_or_https e.ports) allow)

unfoldable pub per_host_entries : Net → List (Text × ℕ) → List (Text × ℕ) → List (Text × ℕ)
per_host_entries net [] per_host = per_host
per_host_entries net ((h, b) ∷ rows) per_host =
    per_host_entries net rows (put (canonicalize_host net h) b per_host)

unfoldable pub new_gate : Net → EgressConfig → Bool → Bool → Bool → (ℕ → String) → Gate
new_gate net cfg has_sessions has_budget has_notifier day_of = record {
  net = net;
  allowlist = allow_entries net cfg.allowlist [];
  default_daily_byte_budget = cfg.default_daily_byte_budget;
  per_host_daily_byte_budget = per_host_entries net cfg.daily_byte_budget [];
  has_sessions = has_sessions;
  has_budget = has_budget;
  has_notifier = has_notifier;
  day_of = day_of;
}

unfoldable pub has_port : ℕ → List ℕ → Bool
has_port p [] = false
has_port p (q ∷ ports) = eqb q p || has_port p ports

abbrev pub port_allowed : ℕ → Option (List ℕ) → Bool
port_allowed p none = false
port_allowed p (some []) = true
port_allowed p (some (q ∷ ports)) = has_port p (q ∷ ports)

-- a sum of two int64, and whether it is over a limit: from 2^63 on it is negative
unfoldable pub sum_over : ℕ → ℕ → ℕ → Bool
sum_over current nbytes limit =
    let s = (current + nbytes) % 18446744073709551616 in ltb s 9223372036854775808 && ltb limit s

abbrev pub or_default : Option ℕ → ℕ → ℕ
or_default none d = d
or_default (some b) d = b

unfoldable pub deny : SessionInfo → Text → Rule → DenyReason → Handler Decision
deny session host rule why = do
  log (recorded session rule host 0)
  pure (record { allow = false; deny_reason = why; rule = rule })

-- a nil budget or notifier is `false`
unfoldable pub bytes_if : Bool → Text → String → Handler ℕ
bytes_if true host day = bytes_of host day
bytes_if false host day = pure 0

unfoldable pub add_if : Bool → Text → String → ℕ → Handler (Unit {0})
add_if true host day n = do add host day n; pure tt
add_if false host day n = pure tt

unfoldable pub alarm_if : Bool → SessionInfo → Text → Handler (Unit {0})
alarm_if true session host = log (alarm session host)
alarm_if false session host = pure tt

unfoldable pub note_metered : SessionInfo → Text → ℕ → Result ℕ → Handler (Unit {0})
note_metered session host nbytes (err _) = pure tt
note_metered session host nbytes (ok _) = log (recorded session egress_metered host nbytes)

module _ (g : Gate) where
  unfoldable pub match_allowlist : Text → ℕ → Bool
  match_allowlist host port = port_allowed port (lookup host g.allowlist)

  unfoldable pub limit_for : Text → ℕ
  limit_for host = or_default (lookup host g.per_host_daily_byte_budget) g.default_daily_byte_budget

  unfoldable pub add_bytes : Text → String → ℕ → Handler (Unit {0})
  add_bytes host day zero = pure tt
  add_bytes host day (suc n) = add_if g.has_budget host day (suc n)

  unfoldable pub deny_budget : SessionInfo → Text → Handler Decision
  deny_budget session host = do
    d ← deny session host egress_blocked_budget (reason_budget host)
    alarm_if g.has_notifier session host
    pure d

  unfoldable pub spend : SessionInfo → Text → String → ℕ → Handler Decision
  spend session host day nbytes = do
    add_bytes host day nbytes
    log (recorded session egress_allowed host nbytes)
    pure (record { allow = true; deny_reason = reason_none; rule = egress_allowed })

  -- a limit of 0 is none
  abbrev pub over_limit : Text → ℕ → ℕ → Bool
  over_limit host current nbytes =
      ltb 0 (limit_for host) && sum_over current nbytes (limit_for host)

  unfoldable pub within_budget : SessionInfo → Text → ℕ → Handler Decision
  within_budget session host nbytes = do
    at ← now
    current ← bytes_if g.has_budget host (g.day_of at)
    if over_limit host current nbytes
        then deny_budget session host
        else spend session host (g.day_of at) nbytes

  abbrev pub unmatched_reason : Text → DenyReason
  unmatched_reason host =
      if is_private_or_link_local g.net host then reason_private host else reason_allowlist host

  -- by whether the session is sensitive, and whether the allowlist has the host and port
  unfoldable pub check_matched : SessionInfo → Text → ℕ → Bool → Bool → Handler Decision
  check_matched session host nbytes true false =
      deny session host egress_blocked_sensitive (reason_sensitive host)
  check_matched session host nbytes false false =
      deny session host egress_blocked_allowlist (unmatched_reason host)
  check_matched session host nbytes _ true = within_budget session host nbytes

  unfoldable pub check_host : SessionInfo → Text → ℕ → ℕ → Option Text → Handler Decision
  check_host session raw port nbytes none =
      deny session raw egress_blocked_allowlist (reason_allowlist raw)
  check_host session raw port nbytes (some host) = do
    marked ← is_marked session.session_id
    check_matched session host nbytes (g.has_sessions && marked) (match_allowlist host port)

  unfoldable pub check : Text → ℕ → ℕ → SessionInfo → Handler Decision
  check raw port nbytes session = check_host session raw port nbytes (canonicalize_host g.net raw)

  unfoldable pub meter_host : SessionInfo → ℕ → Option Text → Handler (Unit {0})
  meter_host session nbytes none = pure tt
  meter_host session nbytes (some host) =
      if g.has_budget
      then (do
        at ← now
        r ← caught (add host (g.day_of at) nbytes)
        note_metered session host nbytes r)
      else pure tt

  unfoldable pub meter_usage : Text → ℕ → SessionInfo → Handler (Unit {0})
  meter_usage raw zero session = pure tt
  meter_usage raw (suc n) session = meter_host session (suc n) (canonicalize_host g.net raw)

  unfoldable pub mark_sensitive_read : SessionInfo → Handler (Unit {0})
  mark_sensitive_read session = if session.session_id == "" then raise Error.empty_session else (do
    if g.has_sessions then mark session.session_id else pure tt
    log (recorded session sensitive_read_marked [] 0))

  unfoldable pub deny_dns_rebind : Text → SessionInfo → Handler Decision
  deny_dns_rebind host session =
      deny session host egress_blocked_dns_rebind (reason_dns_rebind host)
