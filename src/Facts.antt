-- ===== src/Facts.antt =====
-- kahyad/internal/factengine: what kahya believes, the evidence for it, and the entities it is about.
pub mod Rows
pub mod Queries
mod Examples
pub mod Engine
pub mod Entities
