-- ===== src/Taint/Examples.antt =====
-- Tests of kahyad/internal/taint on concrete sessions, and the theorems at them.
use kahya.Base.{ℕ, ◌≡◌, refl, none, List, [], ◌∷◌, Bool, false, Option}
use kahya.Base.Exec.{World, ok, err, calm, lower_attempt, Error, ◌>>=◌}
use kahya.Base.Table.{find, count_where}
use kahya.Taint.{
  tier_clean, tier_tainted, SessionTaint, TaintEvent, row, get_session_taint,
  insert_session_taint_clean, raise_session_taint, tier_read, get, inserted, insert_clean,
  raise_taint,
}
use kahya.Taint.Rises.{inserts_clean, gets, run_calls, raise_taint-stays}

abbrev start : World (List SessionTaint) TaintEvent
start = calm (λ n. n) 0 [] (row tier_clean "s" none 0 ∷ [])

insert_clean_test : (insert_clean "s" start).0 ≡ err lower_attempt
unfolding insert_clean insert_session_taint_clean count_where inserted ◌>>=◌
insert_clean_test = refl

missing_test : (get "t" start).0 ≡ ok (tier_tainted, none)
unfolding get get_session_taint find tier_read ◌>>=◌
missing_test = refl

raised : (raise_taint "s" "mail" start).0 ≡ ok tt
unfolding raise_taint raise_session_taint ◌>>=◌
raised = refl

raise_taint-stays_example :
    let after = run_calls (inserts_clean "s" ∷ gets "s" ∷ []) (raise_taint "s" "mail" start).1 in
    (e : Option Error) × ((get "s" after).0 ≡ ok (tier_tainted, e))
raise_taint-stays_example =
    raise_taint-stays "s" "mail" (inserts_clean "s" ∷ gets "s" ∷ []) start raised (λ n d h. h)

read_clean : (get "s" start).0 ≡ ok (tier_clean, none)
unfolding get get_session_taint find tier_read ◌>>=◌
read_clean = refl

abbrev never : ℕ → Bool
never n = false
