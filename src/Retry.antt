-- ===== src/Retry.antt =====
-- kahyad/internal/cloudretry and kahyad/internal/anthproxy/retry.go: a model call is tried again while
-- its failure may pass.
mod Examples
pub mod Taxonomy
pub mod RoundTrip
