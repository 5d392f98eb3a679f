-- ===== src/Facts/Rows.antt =====
-- kahyad/internal/store/sqlcgen/models.go: facts, evidence, entities, aliases and the ledger of merges.
-- Log odds are float64, whose operations are a parameter.
use kahya.Base.{ℕ, String, Bool, Option, List}
use kahya.Base.Exec.{Exec}

pub data SourceTier : Type 0 where
  user_edit user_asserted external_doc screen agent_derived : SourceTier

pub data Provenance : Type 0 where
  from_user from_doc from_screen from_agent : Provenance

pub data Evidentiality : Type 0 where
  witnessed reported inferred : Evidentiality

pub data FactStatus : Type 0 where
  fact_active fact_retracted : FactStatus

pub data EntityStatus : Type 0 where
  entity_active entity_merged : EntityStatus

pub data Polarity : Type 0 where
  supports denies : Polarity

pub data MergeOp : Type 0 where
  op_merge op_split : MergeOp

-- `exceeds a b` is a > b; `same` is the equality of what FormatFloat writes
pub record LogOdds : Type 1 where
  pub Odds : Type 0
  pub zero_odds : Odds
  pub plus : Odds → Odds → Odds
  pub exceeds : Odds → Odds → Bool
  pub same : Odds → Odds → Bool
  pub cap_user_asserted : Odds
  pub cap_external_doc : Odds
  pub cap_screen : Odds
  pub cap_agent_derived : Odds
  pub denial : Odds
  pub injection_threshold : Odds

pub record Entity : Type 0 where
  pub id : ℕ
  pub canonical_name : String
  pub kind : Option String
  pub status : EntityStatus
  pub provisional : Bool
  pub created_at : ℕ

pub record EntityAlias : Type 0 where
  pub id : ℕ
  pub entity_id : ℕ
  pub name : String
  pub created_at : ℕ

pub record MergeLedger : Type 0 where
  pub id : ℕ
  pub op : MergeOp
  pub src_entity_id : Option ℕ
  pub dst_entity_id : Option ℕ
  pub snapshot : Option String
  pub actor : String
  pub created_at : ℕ

pub data FactEvent : Type 0 where
  tier_clamped : String → SourceTier → FactEvent
  fact_denied fact_retracted_event fact_confirmed : ℕ → FactEvent
  entity_merged_event entity_split : ℕ → ℕ → ℕ → FactEvent

module _ (o : LogOdds) where
  pub record Fact : Type 0 where
    pub id : ℕ
    pub subject : String
    pub predicate : String
    pub object : String
    pub source_tier : SourceTier
    pub evidentiality : Evidentiality
    pub confidence : o.Odds
    pub importance : o.Odds
    pub valid_to : Option ℕ
    pub status : FactStatus
    pub quote_text : Option String
    pub extractor_ver : Option String
    pub updated_at : ℕ
    pub created_at : ℕ
    pub confirmed_at : Option ℕ

  pub record Evidence : Type 0 where
    pub id : ℕ
    pub fact_id : ℕ
    pub episode_id : Option ℕ
    pub session_id : Option String
    pub polarity : Polarity
    pub weight : o.Odds
    pub created_at : ℕ

  pub record FactDb : Type 0 where
    pub facts : List Fact
    pub evidence : List Evidence
    pub entities : List Entity
    pub aliases : List EntityAlias
    pub merges : List MergeLedger
    pub next_id : ℕ

  abbrev pub Handler : Type 0 → Type 0
  Handler = Exec FactDb FactEvent
