-- ===== src/Anchor.antt =====
-- kahyad/internal/anchor, kahyad/internal/ledgerdigest and the append of kahyad/internal/store/db.go:
-- the ledger's chain of digests, its checkpoints, and the check of the one against the other.
mod Examples
pub mod Rows
pub mod Queries
pub mod Append
pub mod Push
pub mod Verify
pub mod Chain
pub mod Kept
pub mod Ran
pub mod Checked
pub mod Tampered
