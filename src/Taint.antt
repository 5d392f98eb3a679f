-- ===== src/Taint.antt =====
-- kahyad/internal/taint/taint.go: whether a session has read what is not trusted. A session without a row
-- counts as tainted.
pub mod Rises
mod Examples
use kahya.Base.{
  ℕ, zero, suc, String, Bool, true, false, Option, none, some, List, [], ◌∷◌, ◌++◌, ◌==◌,
  if◌then◌else◌,
}
use kahya.Base.Exec.{
  Exec, Result, Error, ok, err, pure, raise, query, log, now, caught, one, is_unique_violation,
  ◌>>=◌, ◌>>◌,
}
use kahya.Base.Table.{find, count_where, update_where}

pub data Tier : Type 0 where
  tier_clean tier_tainted : Tier

pub record SessionTaint : Type 0 where
  pub session_id : String
  pub tier : Tier
  pub cause : Option String
  pub updated_at : ℕ

pub data TaintEvent : Type 0 where
  taint_lower_attempt : String → TaintEvent
  taint_raised : String → Option String → TaintEvent

abbrev pub Handler : Type 0 → Type 0
Handler = Exec (List SessionTaint) TaintEvent

abbrev pub has_session : String → SessionTaint → Bool
has_session s r = r.session_id == s

unfoldable pub get_session_taint : String → Handler SessionTaint
get_session_taint s = query (λ d. one (find (has_session s) d) d)

-- session_id is the primary key
abbrev pub insert_new : ℕ → SessionTaint → List SessionTaint → Result (Unit {0}) × List SessionTaint
insert_new zero row d = (ok tt, d ++ row ∷ [])
insert_new (suc n) row d = (err Error.unique_violation, d)

abbrev pub row : Tier → String → Option String → ℕ → SessionTaint
row tier s cause at = record { session_id = s; tier = tier; cause = cause; updated_at = at }

unfoldable pub insert_session_taint_clean : String → ℕ → Handler (Unit {0})
insert_session_taint_clean s at =
    query (λ d. insert_new (count_where (has_session s) d) (row tier_clean s none at) d)

unfoldable pub insert_session_taint_tainted : String → Option String → ℕ → Handler (Unit {0})
insert_session_taint_tainted s cause at =
    query (λ d. insert_new (count_where (has_session s) d) (row tier_tainted s cause at) d)

abbrev pub upsert : ℕ → String → Option String → ℕ → List SessionTaint → List SessionTaint
upsert zero s cause at d = d ++ row tier_tainted s cause at ∷ []
upsert (suc n) s cause at d =
    update_where (has_session s)
      (λ r. record r { tier = tier_tainted; cause = cause; updated_at = at }) d

-- INSERT ... ON CONFLICT (session_id) DO UPDATE
unfoldable pub raise_session_taint : String → Option String → ℕ → Handler (Unit {0})
raise_session_taint s cause at =
    query (λ d. (ok tt, upsert (count_where (has_session s) d) s cause at d))

-- an empty reason is NULL
abbrev pub non_empty : String → Option String
non_empty s = if s == "" then none else some s

-- the tier beside the error, as Go returns them
unfoldable pub tier_read : Result SessionTaint → Tier × Option Error
tier_read (ok r) = (r.tier, none)
tier_read (err Error.no_rows) = (tier_tainted, none)
tier_read (err e) = (tier_tainted, some e)

unfoldable pub get : String → Handler (Tier × Option Error)
get s = do r ← caught (get_session_taint s); pure (tier_read r)

unfoldable pub inserted : String → Result (Unit {0}) → Handler (Unit {0})
inserted s (ok _) = pure tt
inserted s (err e) =
    if is_unique_violation e
    then (do log (taint_lower_attempt s); raise Error.lower_attempt)
    else raise e

unfoldable pub insert_clean : String → Handler (Unit {0})
insert_clean s = do at ← now; r ← caught (insert_session_taint_clean s at); inserted s r

unfoldable pub raise_taint : String → String → Handler (Unit {0})
raise_taint s why = do
  at ← now
  raise_session_taint s (non_empty why) at
  log (taint_raised s (non_empty why))

unfoldable pub insert_untrusted : String → String → Handler (Unit {0})
insert_untrusted s why = do
  at ← now
  r ← caught (insert_session_taint_tainted s (non_empty why) at)
  inserted s r
