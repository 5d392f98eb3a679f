-- ===== src/Approval.antt =====
-- kahyad/internal/approval: what the user is shown before an approval, and how it is sent.
pub mod Diff
pub mod Chunks
mod Examples
