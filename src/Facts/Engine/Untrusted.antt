-- ===== src/Facts/Engine/Untrusted.antt =====
-- What agents and untrusted sessions write never becomes eligible for injection by itself.
use kahya.Base.{
  ℕ, String, true, false, ◌≡◌, refl, inl, inr, Option, none, some, List, [], ◌∷◌, ◌==◌, Bool-cases,
}
use kahya.Base.Exec.{World, Result, ok, err, pure, caught, ◌>>◌}
use kahya.Base.Guarantee.{Rely, Guarantees, Guarantees-bind, Guarantees-if, Guarantees-raise}
use kahya.Facts.Rows.{
  SourceTier, agent_derived, from_user, from_agent, Evidentiality, Polarity, LogOdds, FactEvent,
  Fact, Evidence, FactDb, Handler,
}
use kahya.Facts.Engine.{
  Strings, TaintChecker, session_is_clean, assign_source_tier, Candidate, add_unless_found,
  add_evidence, recompute_confidence, note_clamp, new_fact, found_or_inserted, write_weighted,
  write_valid, write_fact, deny_fact, retract_found, retract_fact,
}
use kahya.Facts.Engine.Eligible.{
  eligible_row, eligible_at, NoNew, order, insert_fact-NoNew, row-NoNew, inserted-NoNew, fact_rules,
}

module _ (o : LogOdds) where
  unless_found-NoNew :
      (id episode : ℕ) (s : String) (p : Polarity) (w : o.Odds) (r : Result (Evidence o))
      → Guarantees (NoNew o) (add_unless_found o id episode s p w r)
  unfolding add_unless_found
  unless_found-NoNew id episode s p w (ok e) = search fact_rules
  unless_found-NoNew id episode s p w (err e) =
      search (fact_rules, row-NoNew, inserted-NoNew) depth 10

  add-NoNew :
      (id episode : ℕ) (s : String) (p : Polarity) (w : o.Odds)
      → Guarantees (NoNew o) (add_evidence o id episode s p w)
  unfolding add_evidence
  add-NoNew id episode s p w = search (fact_rules, row-NoNew, unless_found-NoNew) depth 10

  recompute-NoNew :
      (strs : Strings) (id : ℕ) → Guarantees (NoNew o) (recompute_confidence o strs id)
  unfolding recompute_confidence
  recompute-NoNew strs id = search fact_rules depth 10

  deny-NoNew : (strs : Strings) (id : ℕ) (s : String) → Guarantees (NoNew o) (deny_fact o strs id s)
  unfolding deny_fact
  deny-NoNew strs id s = search (fact_rules, add-NoNew, recompute-NoNew) depth 10

  retract_found-NoNew :
      (strs : Strings) (s : String) (r : Result (Fact o))
      → Guarantees (NoNew o) (retract_found o strs s r)
  unfolding retract_found
  retract_found-NoNew strs s (ok f) = search (fact_rules, add-NoNew, recompute-NoNew) depth 16
  retract_found-NoNew strs s (err e) = search fact_rules

  retract-NoNew :
      (strs : Strings) (s p b session : String)
      → Guarantees (NoNew o) (retract_fact o strs s p b session)
  unfolding retract_fact
  retract-NoNew strs s p b session = search (fact_rules, retract_found-NoNew) depth 10

  note-NoNew : (c : Candidate o) (a : SourceTier × String) → Guarantees (NoNew o) (note_clamp o c a)
  unfolding note_clamp
  note-NoNew c (a, why) = search fact_rules depth 10

  derived-plain :
      (c : Candidate o) (t : SourceTier) (e : Evidentiality) (at : ℕ)
      → t ≡ agent_derived
      → eligible_row o (some (new_fact o c t e at)) ≡ false
  derived-plain c t e at derived = rw derived refl

  found-NoNew :
      (c : Candidate o) (t : SourceTier) (e : Evidentiality) (at : ℕ) (r : Result (Fact o))
      → t ≡ agent_derived
      → Guarantees (NoNew o) (found_or_inserted o c t e at r)
  unfolding found_or_inserted
  found-NoNew c t e at (ok f) derived = search fact_rules
  found-NoNew c t e at (err x) derived =
      Guarantees-if (NoNew o) (order o) _ _ _
        (λ h. insert_fact-NoNew o (new_fact o c t e at) (derived-plain c t e at derived))
        (λ h. Guarantees-raise (NoNew o) (order o) x)

  weighted-NoNew :
      (strs : Strings) (c : Candidate o) (t : SourceTier) (e : Evidentiality)
      (delta : Option o.Odds)
      → t ≡ agent_derived
      → Guarantees (NoNew o) (write_weighted o strs c t e delta)
  unfolding write_weighted
  weighted-NoNew strs c t e none derived = search fact_rules
  weighted-NoNew strs c t e (some delta) derived =
      search (fact_rules, found-NoNew, add-NoNew, recompute-NoNew, derived) depth 16

  -- what an agent says, or a user in a session that is not clean at any time
  pub data Untrusted (checker : TaintChecker) (c : Candidate o) : Type 0 where
    by_agent : c.provenance ≡ from_agent → Untrusted checker c
    by_user :
        c.provenance ≡ from_user
        → ((n : ℕ) → session_is_clean checker n c.session_id ≡ false)
        → Untrusted checker c

  assigned-derived :
      (checker : TaintChecker) (n : ℕ) (c : Candidate o)
      → Untrusted checker c
      → (assign_source_tier checker n c.provenance c.session_id c.claimed_source_tier).0
        ≡ agent_derived
  unfolding assign_source_tier
  assigned-derived checker n c (by_agent said) = rw said refl
  assigned-derived checker n c (by_user said unclean) =
      rw said (elim (Bool-cases (c.session_id == "")) [
        | inl e ↦ rw e refl
        | inr e ↦ rw e (rw (unclean n) refl)
      ])

  valid-NoNew :
      (strs : Strings) (checker : TaintChecker) (c : Candidate o) (e : Option Evidentiality)
      → Untrusted checker c
      → Guarantees (NoNew o) (write_valid o strs checker c e)
  unfolding write_valid
  valid-NoNew strs checker c none u = search fact_rules
  valid-NoNew strs checker c (some e) u =
      Guarantees-bind (NoNew o) (order o) _ _ (search fact_rules) (λ n.
        Guarantees-bind (NoNew o) (order o) _ _ (note-NoNew c _)
          (λ k. weighted-NoNew strs c _ e _ (assigned-derived checker n c u)))

  write-NoNew :
      (strs : Strings) (checker : TaintChecker) (c : Candidate o)
      → Untrusted checker c
      → Guarantees (NoNew o) (write_fact o strs checker c)
  unfolding write_fact
  write-NoNew strs checker c u = search (fact_rules, valid-NoNew, u)

  -- the calls that nobody confirmed
  pub data Call (checker : TaintChecker) : Type 0 where
    writes : (c : Candidate o) → Untrusted checker c → Call checker
    is_denied : ℕ → String → Call checker
    retracts : String → String → String → String → Call checker

  abbrev pub call : (strs : Strings) (checker : TaintChecker) → Call checker → Handler o (Result ℕ)
  call strs checker (writes c u) = caught (write_fact o strs checker c)
  call strs checker (is_denied id s) = caught (deny_fact o strs id s >> pure id)
  call strs checker (retracts s p b session) = caught (retract_fact o strs s p b session)

  call-NoNew :
      (strs : Strings) (checker : TaintChecker) (c : Call checker)
      → Guarantees (NoNew o) (call strs checker c)
  call-NoNew strs checker (writes c u) = search (fact_rules, write-NoNew, u)
  call-NoNew strs checker (is_denied id s) = search (fact_rules, deny-NoNew) depth 10
  call-NoNew strs checker (retracts s p b session) = search (fact_rules, retract-NoNew)

  unfoldable pub run_calls :
      (strs : Strings) (checker : TaintChecker) → List (Call checker) → Handler o (Unit {0})
  run_calls strs checker [] = pure tt
  run_calls strs checker (c ∷ calls) = call strs checker c >> run_calls strs checker calls

  run_calls-NoNew :
      (strs : Strings) (checker : TaintChecker) (calls : List (Call checker))
      → Guarantees (NoNew o) (run_calls strs checker calls)
  unfolding run_calls
  run_calls-NoNew strs checker [] = search fact_rules
  run_calls-NoNew strs checker (c ∷ calls) =
      Guarantees-bind (NoNew o) (order o) _ _ (call-NoNew strs checker c)
        (λ r. run_calls-NoNew strs checker calls)

  -- Whatever fails and however the other handlers interleave, if these make no fact eligible by its
  -- tier or a confirmation, then neither does any run of writes by agents or by users whose session
  -- is never clean, of denials and of retractions: a fact eligible after the run was so before it.
  pub run_calls-eligible_at :
      (strs : Strings) (checker : TaintChecker) (calls : List (Call checker)) (id : ℕ)
      (w : World (FactDb o) FactEvent)
      → Rely (NoNew o) w.others
      → eligible_at o id (run_calls strs checker calls w).1.db ≡ true
      → eligible_at o id w.db ≡ true
  run_calls-eligible_at strs checker calls id w rely =
      (run_calls-NoNew strs checker calls).at w rely id
