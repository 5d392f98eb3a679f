-- ===== src/Facts/Queries.antt =====
-- kahyad/internal/store/sqlcgen/queries.sql.go: the statements of the fact engine.
use kahya.Base.{
  ℕ, zero, suc, String, Bool, true, false, ◌&&◌, Option, none, some, List, [], ◌∷◌, ◌++◌, eqb, leb,
  ◌==◌,
}
use kahya.Base.Exec.{Result, Error, ok, err, query, one}
use kahya.Base.Table.{find, select, order_by, update_where, count_where}
use kahya.Facts.Rows.{
  FactStatus, fact_active, fact_retracted, EntityStatus, Polarity, supports, denies, LogOdds,
  Entity, EntityAlias, MergeLedger, Fact, Evidence, FactDb, Handler,
}

abbrev pub is_active : FactStatus → Bool
is_active fact_active = true
is_active fact_retracted = false

abbrev pub polarity_eq : Polarity → Polarity → Bool
polarity_eq supports supports = true
polarity_eq denies denies = true
polarity_eq _ _ = false

abbrev pub is_session : Option String → String → Bool
is_session none s = false
is_session (some t) s = t == s

abbrev pub has_entity_id : ℕ → Entity → Bool
has_entity_id id e = eqb e.id id

abbrev pub has_alias : String → EntityAlias → Bool
has_alias name a = a.name == name

abbrev pub is_alias_of : ℕ → EntityAlias → Bool
is_alias_of id a = eqb a.entity_id id

abbrev pub has_alias_id : ℕ → EntityAlias → Bool
has_alias_id id a = eqb a.id id

abbrev pub has_merge_id : ℕ → MergeLedger → Bool
has_merge_id id m = eqb m.id id

module _ (o : LogOdds) where
  abbrev pub has_fact_id : ℕ → Fact o → Bool
  has_fact_id id f = eqb f.id id

  abbrev pub is_active_triple : String → String → String → Fact o → Bool
  is_active_triple s p b f =
      f.subject == s && f.predicate == p && f.object == b && is_active f.status

  abbrev pub newest_first : Fact o → Fact o → Bool
  newest_first f g = leb g.id f.id

  unfoldable pub get_active_fact_by_triple : String → String → String → Handler o (Fact o)
  get_active_fact_by_triple s p b = query (λ d.
      one (find (λ f. true) (order_by newest_first (select (is_active_triple s p b) d.facts))) d)

  unfoldable pub get_fact : ℕ → Handler o (Fact o)
  get_fact id = query (λ d. one (find (has_fact_id id) d.facts) d)

  -- the row comes with no id, which the table gives it
  unfoldable pub insert_fact : Fact o → Handler o (Fact o)
  insert_fact row = query (λ d.
      let f : Fact o = record row { id = d.next_id } in
      (ok f, record d { facts = f ∷ d.facts; next_id = suc d.next_id }))

  abbrev pub update_facts : ℕ → (Fact o → Fact o) → FactDb o → FactDb o
  update_facts id f d = record d { facts = update_where (has_fact_id id) f d.facts }

  unfoldable pub update_fact_confidence : o.Odds → ℕ → ℕ → Handler o (Unit {0})
  update_fact_confidence c at id =
      query (λ d. (ok tt, update_facts id (λ f. record f { confidence = c; updated_at = at }) d))

  unfoldable pub confirm_fact_row : ℕ → ℕ → Handler o (Unit {0})
  confirm_fact_row at id =
      query (λ d.
        (ok tt, update_facts id (λ f. record f { confirmed_at = some at; updated_at = at }) d))

  unfoldable pub retract_fact_row : ℕ → ℕ → Handler o (Unit {0})
  retract_fact_row at id = query (λ d. (
    ok tt,
    update_facts id (λ f. record f { status = fact_retracted; valid_to = some at; updated_at = at })
        d,
  ))

  abbrev pub is_evidence_of : ℕ → Evidence o → Bool
  is_evidence_of id e = eqb e.fact_id id

  -- evidence is kept newest first
  abbrev pub oldest_first : Evidence o → Evidence o → Bool
  oldest_first e f = leb e.id f.id

  unfoldable pub list_evidence_by_fact : ℕ → Handler o (List (Evidence o))
  list_evidence_by_fact id =
      query (λ d. (ok (order_by oldest_first (select (is_evidence_of id) d.evidence)), d))

  abbrev pub is_evidence_by : ℕ → String → Polarity → Evidence o → Bool
  is_evidence_by id s p e =
      is_evidence_of id e && is_session e.session_id s && polarity_eq e.polarity p

  unfoldable pub get_evidence_by_fact_session_polarity :
      ℕ → String → Polarity → Handler o (Evidence o)
  get_evidence_by_fact_session_polarity id s p =
      query (λ d. one (find (is_evidence_by id s p) d.evidence) d)

  abbrev pub duplicates : Evidence o → FactDb o → ℕ
  duplicates row d = elim row.session_id [
    | none ↦ 0
    | some s ↦ count_where (is_evidence_by row.fact_id s row.polarity) d.evidence
  ]

  -- by the number of rows of the fact, and of rows that repeat the evidence
  abbrev pub insert_unless : ℕ → ℕ → Evidence o → FactDb o → Result (Unit {0}) × FactDb o
  insert_unless zero n row d = (err Error.unique_violation, d)
  insert_unless (suc facts) zero row d = (
    ok tt,
    record d { evidence = record row { id = d.next_id } ∷ d.evidence; next_id = suc d.next_id },
  )
  insert_unless (suc facts) (suc n) row d = (err Error.unique_violation, d)

  -- The unique index is on (fact_id, session_id, polarity) where there is a session. A fact that does not
  -- exist, the foreign key, fails with the constraint error that the index fails with; that of the
  -- episode is not modelled.
  unfoldable pub insert_evidence : Evidence o → Handler o (Unit {0})
  insert_evidence row =
      query (λ d.
        insert_unless (count_where (has_fact_id row.fact_id) d.facts) (duplicates row d) row d)

  unfoldable pub get_entity : ℕ → Handler o Entity
  get_entity id = query (λ d. one (find (has_entity_id id) d.entities) d)

  unfoldable pub insert_entity : Entity → Handler o Entity
  insert_entity row = query (λ d.
      let e : Entity = record row { id = d.next_id } in
      (ok e, record d { entities = d.entities ++ e ∷ []; next_id = suc d.next_id }))

  unfoldable pub update_entity_status : EntityStatus → ℕ → Handler o (Unit {0})
  update_entity_status s id = query (λ d. (
    ok tt,
    record d {
      entities = update_where (has_entity_id id) (λ e. record e { status = s }) d.entities;
    },
  ))

  -- the source looks at the length alone, so the ids may repeat here
  unfoldable pub list_entity_ids_by_alias : String → Handler o (List EntityAlias)
  list_entity_ids_by_alias name = query (λ d. (ok (select (has_alias name) d.aliases), d))

  -- in the order of the ids: the rows of the table stand in the order of their inserts
  unfoldable pub list_entity_aliases_by_entity : ℕ → Handler o (List EntityAlias)
  list_entity_aliases_by_entity id = query (λ d. (ok (select (is_alias_of id) d.aliases), d))

  unfoldable pub insert_entity_alias : EntityAlias → Handler o (Unit {0})
  insert_entity_alias row = query (λ d. (
    ok tt,
    record d { aliases = d.aliases ++ record row { id = d.next_id } ∷ []; next_id = suc d.next_id },
  ))

  unfoldable pub update_entity_alias_entity_by_id : ℕ → ℕ → Handler o (Unit {0})
  update_entity_alias_entity_by_id entity id = query (λ d. (
    ok tt,
    record d {
      aliases = update_where (has_alias_id id) (λ a. record a { entity_id = entity }) d.aliases;
    },
  ))

  unfoldable pub insert_merge_ledger : MergeLedger → Handler o ℕ
  insert_merge_ledger row = query (λ d. (
    ok d.next_id,
    record d { merges = record row { id = d.next_id } ∷ d.merges; next_id = suc d.next_id },
  ))

  unfoldable pub get_merge_ledger : ℕ → Handler o MergeLedger
  get_merge_ledger id = query (λ d. one (find (has_merge_id id) d.merges) d)
