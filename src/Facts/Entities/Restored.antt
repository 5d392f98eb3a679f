-- ===== src/Facts/Entities/Restored.antt =====
-- A merge and the split that takes it back.
use kahya.Base.{
  ℕ, suc, String, Bool, true, false, ◌≡◌, refl, ap, ◌∙◌, subst, Option, none, some, List, [], ◌∷◌,
  ◌==◌, arith, if◌then◌else◌,
}
use kahya.Base.Exec.{World, Result, Error, ok, err, raise, calm, caught, continue, found, ◌>>=◌}
use kahya.Base.Table.{find, update_where}
use kahya.Facts.Rows.{
  op_merge, MergeLedger, EntityStatus, entity_active, entity_merged, LogOdds, Entity, EntityAlias,
  FactEvent, Fact, FactDb, Handler,
}
use kahya.Facts.Queries.{
  has_entity_id, has_merge_id, get_fact, get_entity, update_entity_status,
  list_entity_aliases_by_entity, update_entity_alias_entity_by_id, insert_merge_ledger,
  get_merge_ledger,
}
use kahya.Facts.Entities.{
  Words, EntityMergeSnapshot, SnapshotJson, entity_names, reassign, record_merge, merge_aliases,
  merge_referenced, merge_on, merge_entities, record_split, restore, split_snapshot, split_found,
  split_entities,
}
use kahya.Facts.Entities.Moved.{Distinct, set_status, moved, ids_of, moved-moved, set_status-twice}

module _ (o : LogOdds) (json : SnapshotJson)
    (reads : (s : EntityMergeSnapshot) (t : String)
      → json.marshal s ≡ some t
      → json.unmarshal t ≡ some s)
    (written : (s : EntityMergeSnapshot) (t : String) → json.marshal s ≡ some t → (t == "") ≡ false)
    (split_written : (n : ℕ) → (t : String) × (json.marshal_split n ≡ some t)) (clock : ℕ → ℕ) where
  reassign-calm :
      (e : ℕ) (ids : List ℕ) (n : ℕ) (ledger : List FactEvent) (d : FactDb o)
      → (m : ℕ) × (reassign o e ids (calm clock n ledger d)
          ≡ (ok tt, calm clock m ledger (record d { aliases = moved e ids d.aliases })))
  unfolding reassign update_entity_alias_entity_by_id ◌>>=◌
  reassign-calm e [] n ledger d = (n, refl)
  reassign-calm e (id ∷ ids) n ledger d = reassign-calm e ids (suc n) ledger _

  -- the split ends without an error, in the aliases `rows` and the entities `entities`
  abbrev Ends : List EntityAlias → List Entity → Result ℕ × World (FactDb o) FactEvent → Type 0
  Ends rows entities (r, w) =
      ((k : ℕ) × (r ≡ ok k)) × (w.db.aliases ≡ rows) × (w.db.entities ≡ entities)

  abbrev statuses : EntityStatus → ℕ → FactDb o → List Entity
  statuses s e d = update_where (has_entity_id e) (set_status s) d.entities

  record_split-Ends :
      (snap : EntityMergeSnapshot) (id : ℕ) (actor : String) (n : ℕ) (ledger : List FactEvent)
      (d : FactDb o)
      → Ends d.aliases d.entities
          (record_split o snap id actor (json.marshal_split id) (calm clock n ledger d))
  unfolding record_split insert_merge_ledger ◌>>=◌
  record_split-Ends snap id actor n ledger d =
      let (t, e) = split_written id in rw e ((d.next_id, refl), refl, refl)

  restore-Ends :
      (snap : EntityMergeSnapshot) (id : ℕ) (actor : String) (n : ℕ) (ledger : List FactEvent)
      (d : FactDb o)
      → Ends
          (moved snap.src_entity_id snap.src_alias_ids d.aliases)
          (statuses entity_active snap.src_entity_id d)
          (restore o json id actor (some snap) (calm clock n ledger d))
  unfolding restore update_entity_status ◌>>=◌
  restore-Ends snap id actor n ledger d =
      let (m, e) = reassign-calm snap.src_entity_id snap.src_alias_ids n ledger d in
      rw e (record_split-Ends snap id actor _ ledger _)

  abbrev merge_row : EntityMergeSnapshot → String → String → ℕ → ℕ → MergeLedger
  merge_row snap actor t at id = record {
    id = id;
    op = op_merge;
    src_entity_id = some snap.src_entity_id;
    dst_entity_id = some snap.dst_entity_id;
    snapshot = some t;
    actor = actor;
    created_at = at;
  }

  split_row-Ends :
      (snap : EntityMergeSnapshot) (t actor : String) (at id n : ℕ) (ledger : List FactEvent)
      (d : FactDb o)
      → find (has_merge_id id) d.merges ≡ some (merge_row snap actor t at id)
      → json.marshal snap ≡ some t
      → Ends
          (moved snap.src_entity_id snap.src_alias_ids d.aliases)
          (statuses entity_active snap.src_entity_id d)
          (split_entities o json id actor (calm clock n ledger d))
  unfolding split_entities split_found split_snapshot get_merge_ledger ◌>>=◌
  split_row-Ends snap t actor at id n ledger d there wrote = rw there (
      rw (written snap t wrote)
        (rw (reads snap t wrote) (restore-Ends snap id actor (suc n) ledger d)))

  merged_row :
      (snap : EntityMergeSnapshot) (t actor : String) (at id : ℕ) (rows : List MergeLedger)
      → find (has_merge_id id) (merge_row snap actor t at id ∷ rows)
        ≡ some (merge_row snap actor t at id)
  unfolding find
  merged_row snap t actor at id rows = ground arith

  Ends-trans :
      (rows rows' : List EntityAlias) (entities entities' : List Entity)
      (out : Result ℕ × World (FactDb o) FactEvent)
      → rows ≡ rows'
      → entities ≡ entities'
      → Ends rows entities out
      → Ends rows' entities' out
  Ends-trans rows rows' entities entities' out p q (returns, a, b) = (returns, a ∙ p, b ∙ q)

  abbrev value : Result ℕ → ℕ
  value (ok n) = n
  value (err e) = 0

  abbrev snapshot_of : ℕ → ℕ → ℕ → FactDb o → EntityMergeSnapshot
  snapshot_of dst src evidence d = record {
    src_entity_id = src;
    dst_entity_id = dst;
    src_alias_ids = ids_of src d.aliases;
    evidence_fact_id = evidence;
  }

  abbrev merged : ℕ → ℕ → FactDb o → FactDb o
  merged dst src d = record d {
    aliases = moved dst (ids_of src d.aliases) d.aliases;
    entities = statuses entity_merged src d;
  }

  record_merge-Ends :
      (dst src evidence : ℕ) (actor : String) (n id : ℕ) (ledger : List FactEvent) (d : FactDb o)
      (text : Option String)
      → Distinct d.aliases
      → json.marshal (snapshot_of dst src evidence d) ≡ text
      → let out =
          record_merge o
            (snapshot_of dst src evidence d)
            actor
            text
            (calm clock n ledger (merged dst src d)) in
        out.0 ≡ ok id
        → Ends d.aliases (statuses entity_active src d) (split_entities o json id actor out.1)
  unfolding record_merge insert_merge_ledger ◌>>=◌
  record_merge-Ends dst src evidence actor n id ledger d none distinct wrote h = ground arith
  record_merge-Ends dst src evidence actor n id ledger d (some t) distinct wrote h =
      let snap = snapshot_of dst src evidence d in
      let w = (record_merge o snap actor (some t) (calm clock n ledger (merged dst src d))).1 in
      subst (λ i. Ends d.aliases (statuses entity_active src d) (split_entities o json i actor w))
        (ap value h)
        (Ends-trans _ _ _ _ (split_entities o json d.next_id actor w)
          (moved-moved dst src d.aliases distinct)
          (set_status-twice src entity_active entity_merged d.entities)
          (split_row-Ends snap t actor (clock n) d.next_id (suc n) _ _
            (merged_row snap t actor (clock n) d.next_id d.merges) wrote))

  -- whenever `m` returns a merge from `d`, its split ends in the aliases of `d` with `src` active
  record Undoes (actor : String) (src : ℕ) (d : FactDb o) (m : Handler o ℕ) : Type 0 where
    pub at :
        (n : ℕ) (ledger : List FactEvent) (id : ℕ)
        → (m (calm clock n ledger d)).0 ≡ ok id
        → Ends d.aliases
            (statuses entity_active src d)
            (split_entities o json id actor (m (calm clock n ledger d)).1)

  merge_aliases-Undoes :
      (dst src evidence : ℕ) (actor : String) (d : FactDb o)
      → Distinct d.aliases
      → Undoes actor src d (merge_aliases o json dst src evidence actor)
  unfolding merge_aliases list_entity_aliases_by_entity update_entity_status ◌>>=◌
  merge_aliases-Undoes dst src evidence actor d distinct = record {
    at = λ n ledger id.
        let (m, e) = reassign-calm dst (ids_of src d.aliases) (suc n) ledger d in
        rw e (record_merge-Ends dst src evidence actor (suc m) id ledger d _ distinct refl);
  }

  module _ (actor : String) (src : ℕ) (d : FactDb o) where
    raise-Undoes : (e : Error) → Undoes actor src d (raise e)
    unfolding raise
    raise-Undoes e = record { at = λ n ledger id h. ground arith }

    if-Undoes :
        (b : Bool) (m k : Handler o ℕ)
        → Undoes actor src d m
        → Undoes actor src d k
        → Undoes actor src d (if b then m else k)
    if-Undoes true m k p q = p
    if-Undoes false m k p q = q

    continue-Undoes :
        {A : Type 0} (f : A → Handler o ℕ) (r : Result A)
        → ((a : A) → Undoes actor src d (f a))
        → Undoes actor src d (continue r f)
    continue-Undoes f (ok a) rest = record { at = (rest a).at }
    continue-Undoes f (err e) rest = record { at = λ n ledger id h. ground arith }

    get_entity-Undoes :
        (id : ℕ) (f : Entity → Handler o ℕ)
        → ((e : Entity) → Undoes actor src d (f e))
        → Undoes actor src d (get_entity o id >>= f)
    unfolding get_entity ◌>>=◌
    get_entity-Undoes id f rest = record {
      at = λ n. (continue-Undoes f (found (find (has_entity_id id) d.entities)) rest).at (suc n);
    }

    get_fact-Undoes :
        (id : ℕ) (f : Result (Fact o) → Handler o ℕ)
        → ((r : Result (Fact o)) → Undoes actor src d (f r))
        → Undoes actor src d (caught (get_fact o id) >>= f)
    unfolding get_fact ◌>>=◌
    get_fact-Undoes id f rest = record { at = λ n. (rest _).at (suc n) }

    entity_names-Undoes :
        (id : ℕ) (name : String) (f : List String → Handler o ℕ)
        → ((names : List String) → Undoes actor src d (f names))
        → Undoes actor src d (entity_names o id name >>= f)
    unfolding entity_names list_entity_aliases_by_entity ◌>>=◌
    entity_names-Undoes id name f rest = record { at = λ n. (rest _).at (suc n) }

  ruleset undoes_rules = (
    raise-Undoes, if-Undoes, get_entity-Undoes, get_fact-Undoes, entity_names-Undoes,
    merge_aliases-Undoes,
  )

  module _ (words : Words) (dst src evidence : ℕ) (actor : String) (d : FactDb o)
      (distinct : Distinct d.aliases) where
    merge_referenced-Undoes :
        (f : Fact o) (e g : Entity)
        → Undoes actor src d (merge_referenced o words json dst src evidence actor f e g)
    unfolding merge_referenced
    merge_referenced-Undoes f e g = search (undoes_rules, distinct) depth 12

    merge_on-Undoes :
        (r : Result (Fact o)) → Undoes actor src d (merge_on o words json dst src evidence actor r)
    unfolding merge_on
    merge_on-Undoes (err e) = search undoes_rules
    merge_on-Undoes (ok f) = search (undoes_rules, merge_referenced-Undoes) depth 12

    merge_entities-Undoes : Undoes actor src d (merge_entities o words json dst src evidence actor)
    unfolding merge_entities
    merge_entities-Undoes = search (undoes_rules, merge_on-Undoes) depth 12

    -- A merge that returned, split again directly: the split returns no error, every alias belongs to whom
    -- it did before the merge, and no entity differs but that the merged one is active. (No failing call and
    -- no other handler, during either or in between; the alias ids are distinct; JSON reads back what it
    -- wrote of a snapshot, which is not empty, and writes the note of the split.)
    pub split_entities-merge_entities :
        (n : ℕ) (ledger : List FactEvent) (id : ℕ)
        → let out = merge_entities o words json dst src evidence actor (calm clock n ledger d) in
          out.0 ≡ ok id
          → let back = split_entities o json id actor out.1 in
            ((k : ℕ) × (back.0 ≡ ok k))
            × (back.1.db.aliases ≡ d.aliases)
            × (back.1.db.entities
                ≡ update_where (has_entity_id src) (set_status entity_active) d.entities)
    split_entities-merge_entities n ledger id h = merge_entities-Undoes.at n ledger id h
