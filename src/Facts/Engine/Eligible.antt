-- ===== src/Facts/Engine/Eligible.antt =====
-- A fact that its tier or its confirmation makes eligible for injection, and the statements that
-- make none so.
use kahya.Base.{
  ℕ, zero, suc, String, Bool, true, false, ◌≡◌, refl, sym, ap, ◌∙◌, inl, inr, Option, none, some,
  ◌∷◌, eqb, arith, if◌then◌else◌, Bool-cases,
}
use mathlib.Core.Option
use kahya.Base.Exec.{Result, ok, err}
use kahya.Base.Table.{find, find-update_where}
use kahya.Base.Guarantee.{
  IsPreorder, Rely, Guarantees, Guarantees-query, Guarantees-bind, Guarantees-if, Guarantees-raise,
  guarantee_rules,
}
use kahya.Facts.Rows.{Polarity, LogOdds, Fact, Evidence, FactDb}
use kahya.Facts.Queries.{
  has_fact_id, get_active_fact_by_triple, insert_fact, update_facts, update_fact_confidence,
  retract_fact_row, list_evidence_by_fact, get_evidence_by_fact_session_polarity, insert_unless,
  insert_evidence,
}
use kahya.Facts.Engine.{tier_injection_eligible, is_valid, insert_evidence_row, evidence_inserted}

module _ (o : LogOdds) where
  abbrev pub eligible_row : Option (Fact o) → Bool
  eligible_row none = false
  eligible_row (some f) = tier_injection_eligible f.source_tier (is_valid f.confirmed_at)

  -- a fact that its tier or its confirmation makes eligible
  abbrev pub eligible_at : ℕ → FactDb o → Bool
  eligible_at id d = eligible_row (find (has_fact_id o id) d.facts)

  -- no fact becomes eligible
  abbrev pub NoNew : FactDb o → FactDb o → Type 0
  NoNew d d' = (id : ℕ) → eligible_at id d' ≡ true → eligible_at id d ≡ true

  pub order : IsPreorder NoNew
  order = record { same = λ d id h. h; chain = λ a b c f g id h. f id (g id h) }

  keeps-row :
      (q : Fact o → Bool) (f : Fact o → Fact o) (r : Option (Fact o))
      → ((a : Fact o) → eligible_row (some (f a)) ≡ eligible_row (some a))
      → eligible_row (Option.map (λ a. if q a then f a else a) r) ≡ eligible_row r
  keeps-row q f none same = refl
  keeps-row q f (some a) same = elim (Bool-cases (q a)) [
    | inl hit ↦ rw hit (same a)
    | inr miss ↦ rw miss refl
  ]

  pub update-NoNew :
      (n : ℕ) (f : Fact o → Fact o) (d : FactDb o)
      → ((a : Fact o) → (f a).id ≡ a.id)
      → ((a : Fact o) → eligible_row (some (f a)) ≡ eligible_row (some a))
      → NoNew d (update_facts o n f d)
  update-NoNew n f d same_id same id h =
      sym (
        ap eligible_row (
          find-update_where (has_fact_id o id) (has_fact_id o n) f
            (λ a. ap (λ i. eqb i id) (same_id a)) d.facts)
        ∙ keeps-row (has_fact_id o n) f (find (has_fact_id o id) d.facts) same)
      ∙ h

  pub insert-NoNew :
      (row : Fact o) (d : FactDb o)
      → eligible_row (some row) ≡ false
      → NoNew d (record d { facts = row ∷ d.facts; next_id = suc d.next_id })
  unfolding find
  insert-NoNew row d plain id h = elim (Bool-cases (has_fact_id o id row)) [
    | inl hit ↦ ground (arith, hit, plain, h)
    | inr miss ↦ ground (arith, miss, h)
  ]

  pub get_triple-NoNew : (s p b : String) → Guarantees NoNew (get_active_fact_by_triple o s p b)
  unfolding get_active_fact_by_triple
  get_triple-NoNew s p b = Guarantees-query NoNew order _ (λ d id h. h)

  pub list-NoNew : (id : ℕ) → Guarantees NoNew (list_evidence_by_fact o id)
  unfolding list_evidence_by_fact
  list-NoNew id = Guarantees-query NoNew order _ (λ d k h. h)

  pub get_evidence-NoNew :
      (id : ℕ) (s : String) (p : Polarity)
      → Guarantees NoNew (get_evidence_by_fact_session_polarity o id s p)
  unfolding get_evidence_by_fact_session_polarity
  get_evidence-NoNew id s p = Guarantees-query NoNew order _ (λ d k h. h)

  pub unless-NoNew :
      (facts n : ℕ) (row : Evidence o) (d : FactDb o) → NoNew d (insert_unless o facts n row d).1
  unless-NoNew zero n row d id h = h
  unless-NoNew (suc facts) zero row d id h = h
  unless-NoNew (suc facts) (suc n) row d id h = h

  pub insert_evidence-NoNew : (row : Evidence o) → Guarantees NoNew (insert_evidence o row)
  unfolding insert_evidence
  insert_evidence-NoNew row = Guarantees-query NoNew order _ (λ d. unless-NoNew _ _ row d)

  pub confidence-NoNew :
      (c : o.Odds) (at id : ℕ) → Guarantees NoNew (update_fact_confidence o c at id)
  unfolding update_fact_confidence
  confidence-NoNew c at id =
      Guarantees-query NoNew order _ (λ d. update-NoNew id _ d (λ a. refl) (λ a. refl))

  pub retract_row-NoNew : (at id : ℕ) → Guarantees NoNew (retract_fact_row o at id)
  unfolding retract_fact_row
  retract_row-NoNew at id =
      Guarantees-query NoNew order _ (λ d. update-NoNew id _ d (λ a. refl) (λ a. refl))

  pub insert_fact-NoNew :
      (row : Fact o) → eligible_row (some row) ≡ false → Guarantees NoNew (insert_fact o row)
  unfolding insert_fact
  insert_fact-NoNew row plain =
      Guarantees-query NoNew order _ (λ d. insert-NoNew (record row { id = d.next_id }) d plain)

  pub ruleset fact_rules = (
    guarantee_rules, order, get_triple-NoNew, list-NoNew, get_evidence-NoNew, insert_evidence-NoNew,
    confidence-NoNew, retract_row-NoNew,
  )

  pub row-NoNew :
      (id episode : ℕ) (s : String) (p : Polarity) (w : o.Odds)
      → Guarantees NoNew (insert_evidence_row o id episode s p w)
  unfolding insert_evidence_row
  row-NoNew id episode s p w = search fact_rules

  pub inserted-NoNew : (r : Result (Unit {0})) → Guarantees NoNew (evidence_inserted o r)
  unfolding evidence_inserted
  inserted-NoNew (ok u) = search fact_rules
  inserted-NoNew (err e) = search fact_rules
