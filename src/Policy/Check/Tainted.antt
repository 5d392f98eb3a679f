-- ===== src/Policy/Check/Tainted.antt =====
-- A call of a tainted session may only read.
use kahya.Base.{
  ℕ, String, false, ◌≡◌, ◌⊎◌, inl, inr, refl, ap, Option, none, some, Bool-cases, ◌==◌,
}
use kahya.Base.Exec.{World, Result, Error, ok, err, ◌>>=◌}
use kahya.Task.Rows.{ActionClass, is_class_r}
use kahya.Policy.Rows.{
  CheckInput, Decision, TaintTier, tier_tainted, tainted_session, PolicyDb, Event, Engine,
}
use kahya.Policy.Ladder.{normalize_scope}
use kahya.Policy.Check.{
  canonicalize, denied, decide, note_read_error, unless_tainted, on_session, with_resolver,
  with_taint_checker, check_known, check,
}

-- the resolver fails, names no session, or names one that the checker holds tainted
abbrev pub IsUntrusted : (String → TaintTier × Option Error) → Result String → Type 0
IsUntrusted tier_of (err x) = Unit {0}
IsUntrusted tier_of (ok session) = (session ≡ "") ⊎ ((tier_of session).0 ≡ tier_tainted)

abbrev pub DeniesAndWritesNothing :
    ActionClass
    → String
    → World PolicyDb Event
    → Result (Decision × Option Error) × World PolicyDb Event
    → Type 0
DeniesAndWritesNothing k scope w out =
    (out.0 ≡ ok (denied tainted_session k scope 0, none)) × (out.1.db ≡ w.db)

module _ (e : Engine) (tier_of : ℕ → String → TaintTier × Option Error) (i : CheckInput)
    (k : ActionClass) (scope : String) where
  tainted-denied :
      (session : String) (x : Option Error) (w : World PolicyDb Event)
      → (tier_of w.calls session) ≡ (tier_tainted, x)
      → DeniesAndWritesNothing k scope w (unless_tainted e tier_of i k scope session w)
  unfolding unless_tainted note_read_error decide ◌>>=◌
  tainted-denied session none w h = rw h (refl, refl)
  tainted-denied session (some x) w h = rw h (refl, refl)

  untrusted-denied :
      (r : Result String) (w : World PolicyDb Event)
      → IsUntrusted (tier_of w.calls) r
      → DeniesAndWritesNothing k scope w (on_session e tier_of i k scope r w)
  unfolding on_session decide ◌>>=◌
  untrusted-denied (err x) w h = (refl, refl)
  untrusted-denied (ok session) w (inl h) = rw h (refl, refl)
  untrusted-denied (ok session) w (inr h) = elim (Bool-cases (session == "")) [
    | inl g ↦ rw g (refl, refl)
    | inr g ↦ rw g (
        tainted-denied session (tier_of w.calls session).1 w
          (ap (λ t. (t, (tier_of w.calls session).1)) h))
  ]

  resolver-denied :
      (resolve : ℕ → String → String → Result String)
      (o : Option (ℕ → String → String → Result String))
      → o ≡ some resolve
      → (w : World PolicyDb Event)
      → IsUntrusted (tier_of w.calls) (resolve w.calls i.trace_id i.task_id)
      → DeniesAndWritesNothing k scope w (with_resolver e tier_of i k scope o w)
  unfolding with_resolver ◌>>=◌
  resolver-denied resolve o h w untrusted = rw h (untrusted-denied _ w untrusted)

  checker-denied :
      (resolve : ℕ → String → String → Result String)
      (o : Option (ℕ → String → TaintTier × Option Error))
      → o ≡ some tier_of
      → e.session_resolver ≡ some resolve
      → is_class_r k ≡ false
      → (w : World PolicyDb Event)
      → IsUntrusted (tier_of w.calls) (resolve w.calls i.trace_id i.task_id)
      → DeniesAndWritesNothing k scope w (with_taint_checker e i k scope o w)
  unfolding with_taint_checker
  checker-denied resolve o h resolver side w untrusted =
      rw (h, side) (resolver-denied resolve e.session_resolver resolver w untrusted)

known-denied :
    (e : Engine) (tier_of : ℕ → String → TaintTier × Option Error)
    (resolve : ℕ → String → String → Result String) (i : CheckInput) (k : ActionClass)
    (scope : String) (o : Option ActionClass)
    → o ≡ some k
    → e.taint_checker ≡ some tier_of
    → e.session_resolver ≡ some resolve
    → is_class_r k ≡ false
    → (w : World PolicyDb Event)
    → IsUntrusted (tier_of w.calls) (resolve w.calls i.trace_id i.task_id)
    → DeniesAndWritesNothing k scope w (check_known e i scope o w)
unfolding check_known
known-denied e tier_of resolve i k scope o h checker resolver side w untrusted =
    rw h
      (checker-denied e tier_of i k scope resolve e.taint_checker checker resolver side w untrusted)

-- With a taint checker and a session resolver wired: a call of a known tool that is not of class R, W1
-- and W3 included, is denied as tainted, with no error and with nothing written to the database,
-- whenever the session does not resolve (an error, or no session) or the checker holds it tainted,
-- whatever session the caller itself names.
pub check-tainted :
    (e : Engine) (tier_of : ℕ → String → TaintTier × Option Error)
    (resolve : ℕ → String → String → Result String) (i : CheckInput) (k : ActionClass)
    → e.tools_by_name (canonicalize i.tool) ≡ some k
    → e.taint_checker ≡ some tier_of
    → e.session_resolver ≡ some resolve
    → is_class_r k ≡ false
    → (w : World PolicyDb Event)
    → IsUntrusted (tier_of w.calls) (resolve w.calls i.trace_id i.task_id)
    → DeniesAndWritesNothing k (normalize_scope i.scope) w (check e i w)
unfolding check
check-tainted e tier_of resolve i k known checker resolver side w untrusted =
    known-denied e tier_of resolve (record i { tool = canonicalize i.tool }) k
      (normalize_scope i.scope) (e.tools_by_name (canonicalize i.tool)) known checker resolver side
      w untrusted
