-- ===== src/Policy.antt =====
-- kahyad/internal/policy: the autonomy ladder that decides each tool call, the approvals it asks for,
-- the one-time tokens that prove a decision, and the undo windows of W1 actions.
pub mod Rows
pub mod Queries
pub mod Ladder
pub mod Undo
pub mod Tokens
pub mod Approvals
pub mod Check
pub mod Resolver
pub mod Halt
pub mod Spent
mod Examples
