-- ===== src/Task.antt =====
-- kahyad/internal/task: the durable tasks, their tool calls and their resumption.
pub mod Rows
pub mod Queries
pub mod Machine
pub mod Live
pub mod Receipts
pub mod Resume
pub mod CloudRetry
pub mod Resolver
pub mod Dispatcher
pub mod Halting
pub mod Following
pub mod Handlers
mod Examples
mod WorkerExamples
