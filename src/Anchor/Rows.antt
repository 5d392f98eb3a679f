-- ===== src/Anchor/Rows.antt =====
-- kahyad/internal/store/sqlcgen/models.go: the events of the ledger and its checkpoints. The digest,
-- SHA-256 over the last one, the event's id and its payload, is a parameter.
use kahya.Base.{ℕ, String, Option, List}
use kahya.Base.Exec.{Exec}

pub data AnchorStatus : Type 0 where
  anchor_pending anchor_pushed : AnchorStatus

pub record LedgerEvent : Type 0 where
  pub id : ℕ
  pub trace_id : String
  pub ts : ℕ
  pub kind : String
  pub payload : String
  pub created_at : ℕ

pub record AnchorLog : Type 0 where
  pub id : ℕ
  pub event_id : ℕ
  pub digest_hex : String
  pub anchored_at : ℕ
  pub remote_ref : Option String
  pub status : AnchorStatus

-- ledgerdigest.Genesis and Next, and hex.EncodeToString
pub record Hashing : Type 1 where
  pub Digest : Type 0
  pub genesis : Digest
  pub next : Digest → ℕ → String → Digest
  pub hex : Digest → String

pub data Alarm : Type 0 where
  stale_pending mismatch : ℕ → Alarm

module _ (h : Hashing) where
  pub record LedgerDigestState : Type 0 where
    pub last_event_id : ℕ
    pub digest : h.Digest

  pub record LedgerDb : Type 0 where
    pub events : List LedgerEvent
    pub anchors : List AnchorLog
    pub state : LedgerDigestState
    pub next_id : ℕ
    pub next_anchor_id : ℕ

  abbrev pub Handler : Type 0 → Type 0
  Handler = Exec LedgerDb Alarm
