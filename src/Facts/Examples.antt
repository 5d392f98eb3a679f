-- ===== src/Facts/Examples.antt =====
-- Tests of kahyad/internal/factengine on concrete facts and entities, and the theorems at them.
use kahya.Base.{
  ℕ, ◌+◌, String, Bool, true, false, ◌&&◌, ◌≡◌, refl, sym, ap, ◌∙◌, subst, Option, none, some, List,
  [], ◌∷◌, eqb, ltb, ◌==◌, arith, if◌then◌else◌, Bool-cases, inl, inr,
}
use kahya.Base.Exec.{World, ok, calm, ◌>>=◌}
use kahya.Base.Table.{find, select, update_where, order_by, count_where}
use kahya.Taint.{tier_tainted}
use kahya.Facts.Rows.{
  agent_derived, from_user, from_agent, fact_active, inferred, supports, entity_active, LogOdds,
  Entity, EntityAlias, Fact, Evidence, FactDb, FactEvent,
}
use kahya.Facts.Queries.{
  has_entity_id, get_active_fact_by_triple, insert_fact, get_evidence_by_fact_session_polarity,
  insert_evidence, list_evidence_by_fact, update_fact_confidence, get_fact, get_entity,
  list_entity_aliases_by_entity, update_entity_alias_entity_by_id, update_entity_status,
  insert_merge_ledger,
}
use kahya.Facts.Engine.{
  Strings, TaintChecker, Candidate, confidence_of, write_fact, validate_candidate, valid_runes,
  normalize_evidentiality, write_valid, assign_source_tier, note_clamp, write_weighted,
  found_or_inserted, add_evidence, add_unless_found, evidence_inserted, insert_evidence_row,
  recompute_confidence, deny_fact, tally, seen_key,
}
use kahya.Facts.Engine.Capped.{confidence_of-le_worth}
use kahya.Facts.Engine.Eligible.{eligible_at}
use kahya.Facts.Engine.Untrusted.{
  by_agent, by_user, Call, writes, is_denied, run_calls, run_calls-eligible_at,
}
use kahya.Facts.Entities.{
  Words, EntityMergeSnapshot, SnapshotJson, merge_entities, split_entities, merge_on,
  merge_referenced, entity_names, merge_aliases, reassign, record_merge, alias_ids, alias_names,
  any_name,
}
use kahya.Facts.Entities.Moved.{Distinct, set_status}
use kahya.Facts.Entities.Restored.{split_entities-merge_entities}

abbrev odds : LogOdds
odds = record {
  Odds = ℕ;
  zero_odds = 0;
  plus = λ a b. a + b;
  exceeds = λ a b. ltb b a;
  same = eqb;
  cap_user_asserted = 9;
  cap_external_doc = 6;
  cap_screen = 6;
  cap_agent_derived = 2;
  denial = 0;
  injection_threshold = 5;
}

abbrev strs : Strings
strs = record { trim_space = λ s. s; runes = λ s. some (104 ∷ []); row_key = λ n. "row" }

abbrev evidence : ℕ → String → Evidence odds
evidence w s = record {
  id = 1;
  fact_id = 1;
  episode_id = none;
  session_id = some s;
  polarity = supports;
  weight = w;
  created_at = 0;
}

abbrev two_rows : List (Evidence odds)
two_rows = evidence 2 "a" ∷ evidence 2 "b" ∷ []

confidence_of-le_worth_example : ltb 2 (confidence_of odds strs two_rows) ≡ false
confidence_of-le_worth_example =
    confidence_of-le_worth odds strs 2 two_rows (λ a. ground arith) (λ a b c h k. ground arith)
      (refl, (refl, tt)) refl

abbrev candidate : Candidate odds
candidate = record {
  subject = "Ada";
  predicate = "likes";
  object = "tea";
  claimed_source_tier = "user_asserted";
  provenance = from_agent;
  session_id = "s";
  episode_id = 0;
  evidentiality = "";
  importance = 1;
  extractor_ver = "v1";
  quote_text = "";
}

abbrev by_someone : Candidate odds
by_someone = record candidate { provenance = from_user }

abbrev checker : TaintChecker
checker = some (λ n s. (tier_tainted, none))

abbrev calls : List (Call odds checker)
calls =
    writes candidate (by_agent refl)
    ∷ writes by_someone (by_user refl (λ n. refl))
    ∷ is_denied 3 "s"
    ∷ []

abbrev confirmed : Fact odds
confirmed = record {
  id = 3;
  subject = "Ada";
  predicate = "is";
  object = "here";
  source_tier = agent_derived;
  evidentiality = inferred;
  confidence = 2;
  importance = 1;
  valid_to = none;
  status = fact_active;
  quote_text = none;
  extractor_ver = none;
  updated_at = 0;
  created_at = 0;
  confirmed_at = some 1;
}

abbrev person : ℕ → String → Entity
person id name = record {
  id = id;
  canonical_name = name;
  kind = none;
  status = entity_active;
  provisional = false;
  created_at = 0;
}

abbrev alias : ℕ → ℕ → String → EntityAlias
alias id entity name = record { id = id; entity_id = entity; name = name; created_at = 0 }

abbrev db : FactDb odds
db = record {
  facts = confirmed ∷ [];
  evidence = [];
  entities = person 1 "Ada" ∷ person 2 "ada" ∷ [];
  aliases = alias 11 1 "Ada" ∷ alias 12 2 "ada" ∷ [];
  merges = [];
  next_id = 20;
}

abbrev clock : ℕ → ℕ
clock n = n

abbrev start : World (FactDb odds) FactEvent
start = calm clock 0 [] db

eligible_after : eligible_at odds 3 (run_calls odds strs checker calls start).1.db ≡ true
unfolding run_calls write_fact validate_candidate valid_runes normalize_evidentiality write_valid
    assign_source_tier note_clamp write_weighted get_active_fact_by_triple found_or_inserted
    insert_fact add_evidence get_evidence_by_fact_session_polarity add_unless_found
    evidence_inserted insert_evidence_row insert_evidence recompute_confidence list_evidence_by_fact
    update_fact_confidence deny_fact confidence_of tally seen_key find select order_by update_where
    count_where ◌>>=◌
eligible_after = refl

run_calls-eligible_at_example : eligible_at odds 3 start.db ≡ true
run_calls-eligible_at_example =
    run_calls-eligible_at odds strs checker calls 3 start (λ n d id h. h) eligible_after

abbrev snapshot : EntityMergeSnapshot
snapshot = record {
  src_entity_id = 2;
  dst_entity_id = 1;
  src_alias_ids = 12 ∷ [];
  evidence_fact_id = 3;
}

abbrev ids_equal : List ℕ → List ℕ → Bool
ids_equal [] [] = true
ids_equal (i ∷ ids) (j ∷ more) = eqb i j && ids_equal ids more
ids_equal _ _ = false

abbrev is_snapshot : EntityMergeSnapshot → Bool
is_snapshot s =
    eqb s.src_entity_id 2
    && eqb s.dst_entity_id 1
    && ids_equal s.src_alias_ids (12 ∷ [])
    && eqb s.evidence_fact_id 3

abbrev json : SnapshotJson
json = record {
  marshal = λ s. if is_snapshot s then some "{}" else none;
  unmarshal = λ t. some snapshot;
  marshal_split = λ n. some "{}";
}

ids_equal-true : (ids : List ℕ) (more : List ℕ) → ids_equal ids more ≡ true → ids ≡ more
ids_equal-true [] [] h = refl
ids_equal-true [] (j ∷ more) h = ground arith
ids_equal-true (i ∷ ids) [] h = ground arith
ids_equal-true (i ∷ ids) (j ∷ more) h = ground (arith, ids_equal-true ids more)

snapshot_eq :
    (s : EntityMergeSnapshot) (src dst evidence_id : ℕ) (ids : List ℕ)
    → s.src_entity_id ≡ src
    → s.dst_entity_id ≡ dst
    → s.src_alias_ids ≡ ids
    → s.evidence_fact_id ≡ evidence_id
    → record {
      src_entity_id = src;
      dst_entity_id = dst;
      src_alias_ids = ids;
      evidence_fact_id = evidence_id;
    }
      ≡ s
snapshot_eq s src dst evidence_id ids a b c d = rw (sym a, sym b, sym c, sym d) refl

is_snapshot-eq : (s : EntityMergeSnapshot) → is_snapshot s ≡ true → snapshot ≡ s
is_snapshot-eq s h =
    snapshot_eq s 2 1 3 (12 ∷ []) (ground (arith, h)) (ground (arith, h))
      (ids_equal-true s.src_alias_ids (12 ∷ []) (ground (arith, h))) (ground (arith, h))

reads_back :
    (s : EntityMergeSnapshot) (t : String) → json.marshal s ≡ some t → json.unmarshal t ≡ some s
reads_back s t h = elim (Bool-cases (is_snapshot s)) [
  | inl e ↦ ap (λ x. some x) (is_snapshot-eq s e)
  | inr e ↦ ground (arith, e, h)
]

abbrev text : Option String → String
text none = ""
text (some t) = t

not_empty : (s : EntityMergeSnapshot) (t : String) → json.marshal s ≡ some t → (t == "") ≡ false
not_empty s t h = elim (Bool-cases (is_snapshot s)) [
  | inl e ↦
      let same : some "{}" ≡ some t = ap (λ b. if b then some "{}" else none) (sym e) ∙ h in
      subst (λ u. (u == "") ≡ false) (ap text same) refl
  | inr e ↦ ground (arith, e, h)
]

abbrev words : Words
words = record {
  trim_space = λ s. s;
  to_lower = λ s. s;
  contains = λ s t. true;
  with_nul = λ s t. s;
}

distinct : Distinct db.aliases
unfolding alias_ids
distinct = (refl, (refl, tt))

merged : (merge_entities odds words json 1 2 3 "user" start).0 ≡ ok 20
unfolding merge_entities get_fact merge_on get_entity merge_referenced entity_names
    list_entity_aliases_by_entity merge_aliases reassign update_entity_alias_entity_by_id
    update_entity_status record_merge insert_merge_ledger alias_ids alias_names any_name find select
    update_where ◌>>=◌
merged = refl

split_entities-merge_entities_example :
    let back =
      split_entities odds json 20 "user" (merge_entities odds words json 1 2 3 "user" start).1 in
    ((k : ℕ) × (back.0 ≡ ok k))
    × (back.1.db.aliases ≡ db.aliases)
    × (back.1.db.entities ≡ update_where (has_entity_id 2) (set_status entity_active) db.entities)
split_entities-merge_entities_example =
    split_entities-merge_entities odds json reads_back not_empty (λ n. ("{}", refl)) clock words 1 2
      3 "user" db distinct 0 [] 20 merged
