-- ===== src/Facts/Entities.antt =====
-- kahyad/internal/factengine/entity.go: entities are created, merged on the evidence of a fact, and
-- split again. JSON and package strings are parameters.
pub mod Moved
pub mod Restored
use kahya.Base.{
  ℕ, String, Bool, true, false, ◌||◌, ◌&&◌, not, Option, none, some, List, [], ◌∷◌, ◌++◌, eqb, ◌==◌,
  if◌then◌else◌,
}
use kahya.Base.Exec.{Result, Error, ok, err, pure, raise, log, now, caught, is_no_rows, ◌>>=◌, ◌>>◌}
use kahya.Facts.Rows.{
  EntityStatus, entity_active, entity_merged, MergeOp, op_merge, op_split, LogOdds, Entity,
  EntityAlias, MergeLedger, entity_merged_event, entity_split, Fact, Handler,
}
use kahya.Facts.Queries.{
  is_active, get_fact, get_entity, insert_entity, update_entity_status, list_entity_ids_by_alias,
  list_entity_aliases_by_entity, insert_entity_alias, update_entity_alias_entity_by_id,
  insert_merge_ledger, get_merge_ledger,
}
use kahya.Facts.Engine.{null_string}

-- package strings; `with_nul a b` is the concatenation of a, a zero character and b
pub record Words : Type 0 where
  pub trim_space : String → String
  pub to_lower : String → String
  pub contains : String → String → Bool
  pub with_nul : String → String → String

pub record EntityMergeSnapshot : Type 0 where
  pub src_entity_id : ℕ
  pub dst_entity_id : ℕ
  pub src_alias_ids : List ℕ
  pub evidence_fact_id : ℕ

-- encoding/json on the two values written to the ledger of merges
pub record SnapshotJson : Type 0 where
  pub marshal : EntityMergeSnapshot → Option String
  pub unmarshal : String → Option EntityMergeSnapshot
  pub marshal_split : ℕ → Option String

abbrev pub named : String → List String → List String
named s names = if s == "" then names else s ∷ names

unfoldable pub alias_names : List EntityAlias → List String
alias_names [] = []
alias_names (a ∷ aliases) = named a.name (alias_names aliases)

unfoldable pub any_name : Words → String → List String → Bool
any_name words hay [] = false
any_name words hay (n ∷ names) =
    not (n == "") && words.contains hay (words.to_lower n) || any_name words hay names

abbrev pub fact_references_any_name : Words → String → String → List String → Bool
fact_references_any_name words subject object names =
    any_name words (words.to_lower (words.with_nul subject object)) names

unfoldable pub alias_ids : List EntityAlias → List ℕ
alias_ids [] = []
alias_ids (a ∷ aliases) = a.id ∷ alias_ids aliases

abbrev pub some_row : List EntityAlias → Bool
some_row [] = false
some_row (a ∷ aliases) = true

abbrev pub is_merge : MergeOp → Bool
is_merge op_merge = true
is_merge op_split = false

module _ (o : LogOdds) where
  unfoldable pub entity_names : ℕ → String → Handler o (List String)
  entity_names id canonical = do
    aliases ← list_entity_aliases_by_entity o id
    pure (named canonical (alias_names aliases))

  unfoldable pub create_entity : String → String → Bool → Handler o (ℕ × Bool)
  create_entity name kind provisional = do
    at ← now
    e ← insert_entity o (record {
      id = 0;
      canonical_name = name;
      kind = null_string kind;
      status = entity_active;
      provisional = provisional;
      created_at = at;
    })
    insert_entity_alias o (record { id = 0; entity_id = e.id; name = name; created_at = at })
    pure (e.id, provisional)

  unfoldable pub resolve_named : String → String → Handler o (ℕ × Bool)
  resolve_named name kind = if name == "" then raise Error.invalid_candidate else (do
    existing ← list_entity_ids_by_alias o name
    create_entity name kind (some_row existing))

  abbrev pub resolve_or_create_entity : Words → String → String → Handler o (ℕ × Bool)
  resolve_or_create_entity words name kind = resolve_named (words.trim_space name) kind

  unfoldable pub reassign : ℕ → List ℕ → Handler o (Unit {0})
  reassign entity [] = pure tt
  reassign entity (id ∷ ids) = do update_entity_alias_entity_by_id o entity id; reassign entity ids

  unfoldable pub record_merge : EntityMergeSnapshot → String → Option String → Handler o ℕ
  record_merge snap actor none = raise Error.codec_failed
  record_merge snap actor (some text) = do
    at ← now
    id ← insert_merge_ledger o (record {
      id = 0;
      op = op_merge;
      src_entity_id = some snap.src_entity_id;
      dst_entity_id = some snap.dst_entity_id;
      snapshot = some text;
      actor = actor;
      created_at = at;
    })
    log (entity_merged_event id snap.src_entity_id snap.dst_entity_id)
    pure id

  unfoldable pub merge_aliases : SnapshotJson → ℕ → ℕ → ℕ → String → Handler o ℕ
  merge_aliases json dst src evidence actor = do
    rows ← list_entity_aliases_by_entity o src
    reassign dst (alias_ids rows)
    update_entity_status o entity_merged src
    let snap : EntityMergeSnapshot = record {
      src_entity_id = src;
      dst_entity_id = dst;
      src_alias_ids = alias_ids rows;
      evidence_fact_id = evidence;
    }
    record_merge snap actor (json.marshal snap)

  unfoldable pub merge_referenced :
      Words → SnapshotJson → ℕ → ℕ → ℕ → String → Fact o → Entity → Entity → Handler o ℕ
  merge_referenced words json dst src evidence actor f d s = do
    names ← entity_names dst d.canonical_name
    src_names ← entity_names src s.canonical_name
    (if fact_references_any_name words f.subject f.object (names ++ src_names)
        then merge_aliases json dst src evidence actor
        else raise Error.merge_evidence_unusable)

  unfoldable pub merge_on :
      Words → SnapshotJson → ℕ → ℕ → ℕ → String → Result (Fact o) → Handler o ℕ
  merge_on words json dst src evidence actor (err e) =
      if is_no_rows e then raise Error.merge_requires_evidence else raise e
  merge_on words json dst src evidence actor (ok f) = do
    d ← get_entity o dst
    s ← get_entity o src
    (if is_active f.status
        then merge_referenced words json dst src evidence actor f d s
        else raise Error.merge_evidence_unusable)

  unfoldable pub merge_entities : Words → SnapshotJson → ℕ → ℕ → ℕ → String → Handler o ℕ
  merge_entities words json dst src evidence actor =
      if eqb evidence 0
      then raise Error.merge_requires_evidence
      else if eqb dst src
      then raise Error.merge_into_itself
      else (do f ← caught (get_fact o evidence); merge_on words json dst src evidence actor f)

  unfoldable pub record_split : EntityMergeSnapshot → ℕ → String → Option String → Handler o ℕ
  record_split snap merge_id actor none = raise Error.codec_failed
  record_split snap merge_id actor (some text) = do
    at ← now
    id ← insert_merge_ledger o (record {
      id = 0;
      op = op_split;
      src_entity_id = some snap.dst_entity_id;
      dst_entity_id = some snap.src_entity_id;
      snapshot = some text;
      actor = actor;
      created_at = at;
    })
    log (entity_split id snap.dst_entity_id snap.src_entity_id)
    pure id

  unfoldable pub restore : SnapshotJson → ℕ → String → Option EntityMergeSnapshot → Handler o ℕ
  restore json merge_id actor none = raise Error.codec_invalid
  restore json merge_id actor (some snap) = do
    reassign snap.src_entity_id snap.src_alias_ids
    update_entity_status o entity_active snap.src_entity_id
    record_split snap merge_id actor (json.marshal_split merge_id)

  unfoldable pub split_snapshot : SnapshotJson → ℕ → String → Option String → Handler o ℕ
  split_snapshot json merge_id actor none = raise Error.no_snapshot
  split_snapshot json merge_id actor (some text) =
      if text == ""
      then raise Error.no_snapshot
      else restore json merge_id actor (json.unmarshal text)

  unfoldable pub split_found : SnapshotJson → ℕ → String → Result MergeLedger → Handler o ℕ
  split_found json merge_id actor (err e) =
      if is_no_rows e then raise Error.merge_ledger_not_found else raise e
  split_found json merge_id actor (ok m) =
      if is_merge m.op
      then split_snapshot json merge_id actor m.snapshot
      else raise Error.not_a_merge_record

  unfoldable pub split_entities : SnapshotJson → ℕ → String → Handler o ℕ
  split_entities json merge_id actor = do
    m ← caught (get_merge_ledger o merge_id)
    split_found json merge_id actor m
