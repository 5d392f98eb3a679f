-- ===== src/Egress.antt =====
-- kahyad/internal/egress: what may leave the machine, to which host and how many bytes a day.
pub mod Host
pub mod Budget
pub mod Gate
mod Examples
