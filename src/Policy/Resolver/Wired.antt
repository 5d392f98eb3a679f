-- ===== src/Policy/Resolver/Wired.antt =====
-- The policy engine with the session resolver over the tasks table and the taint tracker over its own.
use kahya.Base.{
  ℕ, String, Bool, false, ◌≡◌, refl, sym, ap, subst, ◌⊎◌, inl, inr, Option, none, some, List, [],
  ◌==◌, Bool-cases,
}
use kahya.Base.Exec.{World, Result, Error, store_failed, ok, err, alone, found, ◌>>=◌}
use kahya.Base.Table.{find}
use kahya.Task.Rows.{ActionClass, is_class_r}
use kahya.Taint
use kahya.Taint.{SessionTaint, TaintEvent, has_session, get, get_session_taint, tier_read}
use kahya.Policy.Rows.{CheckInput, TaintTier, tier_clean, tier_tainted, PolicyDb, Event, Engine}
use kahya.Policy.Ladder.{normalize_scope}
use kahya.Policy.Check.{canonicalize, check}
use kahya.Policy.Check.Tainted.{IsUntrusted, DeniesAndWritesNothing, check-tainted}
use kahya.Policy.Resolver.{
  TaskSession, has_task_id, session_id_of, get_task_session_by_id, task_session_or, resolve_session,
}

abbrev pub as_taint_tier : Taint.Tier → TaintTier
as_taint_tier Taint.tier_clean = tier_clean
as_taint_tier Taint.tier_tainted = tier_tainted

abbrev pub tier_answer : Result (Taint.Tier × Option Error) → TaintTier × Option Error
tier_answer (ok (tier, e)) = (as_taint_tier tier, e)
tier_answer (err e) = (tier_tainted, some e)

-- the tables at each call of the policy database, and the reads of them that fail
pub record Tables : Type 0 where
  pub tasks : ℕ → List TaskSession
  pub taints : ℕ → List SessionTaint
  pub task_faults : ℕ → Bool
  pub taint_faults : ℕ → Bool
  pub clock : ℕ → ℕ

module _ (t : Tables) where
  abbrev pub tracker : ℕ → String → TaintTier × Option Error
  tracker n session = tier_answer (get session (alone t.taint_faults t.clock n [] (t.taints n))).0

  abbrev pub resolver : ℕ → String → String → Result String
  resolver n trace task =
      (resolve_session trace task (alone t.task_faults t.clock n [] (t.tasks n))).0

  -- no row of the session says clean
  abbrev pub NotClean : Option SessionTaint → Type 0
  NotClean none = Unit {0}
  NotClean (some r) = r.tier ≡ Taint.tier_tainted

  found-tainted :
      (o : Option SessionTaint) → NotClean o → as_taint_tier (tier_read (found o)).0 ≡ tier_tainted
  unfolding tier_read
  found-tainted none h = refl
  found-tainted (some r) h = ap as_taint_tier h

  tracker-tainted :
      (n : ℕ) (session : String)
      → NotClean (find (has_session session) (t.taints n))
      → (tracker n session).0 ≡ tier_tainted
  unfolding get get_session_taint tier_read ◌>>=◌
  tracker-tainted n session h = elim (Bool-cases (t.taint_faults n)) [
    | inl e ↦ rw e refl
    | inr e ↦ rw e (found-tainted (find (has_session session) (t.taints n)) h)
  ]

  owner-answers :
      (trace session : String) (row : TaskSession) (o : Option TaskSession)
      (w : World (List TaskSession) Event)
      → (session == "") ≡ false
      → row.session_id ≡ some session
      → o ≡ some row
      → (task_session_or trace (found (session_id_of o)) w).0 ≡ ok session
  unfolding task_session_or ◌>>=◌
  owner-answers trace session row o w given owned there = rw there (rw owned (rw given refl))

  resolver-answers :
      (n : ℕ) (trace task session : String) (row : TaskSession)
      → (task == "") ≡ false
      → (session == "") ≡ false
      → find (has_task_id task) (t.tasks n) ≡ some row
      → row.session_id ≡ some session
      → (resolver n trace task ≡ err store_failed) ⊎ (resolver n trace task ≡ ok session)
  unfolding resolve_session get_task_session_by_id task_session_or ◌>>=◌
  resolver-answers n trace task session row named given there owned =
      elim (Bool-cases (t.task_faults n)) [
        | inl e ↦ inl (rw (resolver, named) (rw e refl))
        | inr e ↦
            inr
              (rw (resolver, named) (rw e (owner-answers trace session row _ _ given owned there)))
      ]

  resolver-IsUntrusted :
      (n : ℕ) (trace task session : String) (row : TaskSession)
      → (task == "") ≡ false
      → (session == "") ≡ false
      → find (has_task_id task) (t.tasks n) ≡ some row
      → row.session_id ≡ some session
      → NotClean (find (has_session session) (t.taints n))
      → IsUntrusted (tracker n) (resolver n trace task)
  resolver-IsUntrusted n trace task session row named given there owned unclean =
      elim (resolver-answers n trace task session row named given there owned) [
        | inl e ↦ subst (IsUntrusted (tracker n)) (sym e) tt
        | inr e ↦ subst (IsUntrusted (tracker n)) (sym e) (inr (tracker-tainted n session unclean))
      ]

  -- With the resolver over the tasks table and the tracker of taints: a call of a known tool, not of class R,
  -- for a task whose session has no row that says clean is denied as tainted, with no error and with
  -- nothing written to the policy's database, whichever reads of the two tables fail, and whatever session
  -- and trace the caller names.
  pub check-resolved :
      (e : Engine) (i : CheckInput) (k : ActionClass) (row : TaskSession) (session : String)
      → e.tools_by_name (canonicalize i.tool) ≡ some k
      → e.taint_checker ≡ some tracker
      → e.session_resolver ≡ some resolver
      → is_class_r k ≡ false
      → (i.task_id == "") ≡ false
      → (session == "") ≡ false
      → row.session_id ≡ some session
      → (w : World PolicyDb Event) → find (has_task_id i.task_id) (t.tasks w.calls) ≡ some row
      → NotClean (find (has_session session) (t.taints w.calls))
      → DeniesAndWritesNothing k (normalize_scope i.scope) w (check e i w)
  check-resolved e i k row session known checker resolves side named given owned w there unclean =
      check-tainted e tracker resolver i k known checker resolves side w (
        resolver-IsUntrusted w.calls i.trace_id i.task_id session row named given there owned
          unclean)
