-- ===== src/Lib.antt =====
-- A model of kahya's daemon core: the tasks that it drives (kahyad/internal/task), their workers'
-- dispatch and halt (kahyad/internal/outbox, kahyad/internal/halt), the policy that decides what their
-- tool calls may do (kahyad/internal/policy), the gate before the network (kahyad/internal/egress), the
-- taint of sessions (kahyad/internal/taint), the budget and the retries of model calls (kahyad/internal/anthproxy), what
-- the user is shown before an approval (kahyad/internal/approval) and what kahya believes
-- (kahyad/internal/factengine), and the chain of digests over its ledger (kahyad/internal/anchor).
--
-- A task's worker calls tools. Each call is put before the policy engine, which allows it by the
-- autonomy ladder, asks the user, or denies it; an allowed call with side effects carries a one-time
-- token that the tool presents. The call itself is run through the receipts, which execute it once
-- and replay it afterwards. The state machine moves the task's status; the resume scan finds what a
-- crash left executing, and the cloud retries park or give up a task whose model call failed. A halt
-- takes the task's open approvals and tokens away. The dispatcher leases the outbox rows that resumes and
-- retries wrote and runs the workers again; a request of theirs that leaves the machine passes the gate.
--
-- Base: what the parts share. Base/Exec.antt is the monad of a handler: the database, the ledger of
-- events, the clock, the calls that fail and the acts of other handlers between two calls. What was
-- written before an error stays written; a transaction rolls back. Base/Table.antt is rows and SQL
-- statements on them. Base/Guarantee.antt is rely and guarantee, Base/Once.antt what can be done once,
-- and Base/Returns.antt what a handler returns. Base/Text.antt is texts as lists of runes.
--
-- Task: kahyad/internal/task and its queries of kahyad/internal/store/sqlcgen.
--   Task/Rows.antt      models.go: Task, ToolCall, Outbox; the status values of machine.go
--   Task/Queries.antt   queries.sql.go: GetTaskByID, SetTaskStatus, InsertToolCallIntent, ...
--   Task/Machine.antt   machine.go: IsLegalTransition, Machine.Transition
--   Task/Live.antt      live.go: LiveRegistry
--   Task/Receipts.antt  receipts.go: Receipts.Execute, claimIntent, checkReplay
--   Task/Resume.antt    resume.go: Resume.Scan, ProcessTask
--   Task/CloudRetry.antt  cloudretry.go: ParkOrGiveUp, FailNonRetryable
--   Task/Resolver.antt  resolve.go: Resolver.Retry, Abort
--   Task/Dispatcher.antt  kahyad/internal/outbox/dispatcher.go: ClaimAndDispatch, processResume
--   Task/Halting.antt   kahyad/internal/halt/executor.go: HaltTask, HaltAll
--   Task/Following.antt, Task/Handlers.antt  the entry points together
--
-- Policy: kahyad/internal/policy and its queries.
--   Policy/Rows.antt      models.go: AutonomyState, ApprovalToken, PendingApproval, UndoWindow; Engine
--   Policy/Queries.antt   queries.sql.go: ConsumeApprovalToken, ConsumePendingApproval, ...
--   Policy/Ladder.antt    engine.go: autoLevelFor, loadState, saveState, demote, Promote
--   Policy/Undo.antt      engine.go: openUndoWindow, SweepExpiredUndoWindows, TriggerUndo
--   Policy/Tokens.antt    tokens.go: mintToken, ConsumeToken
--   Policy/Approvals.antt engine.go: mintPendingApproval, Approve, Deny, ListPendingApprovals
--   Policy/Check.antt     engine.go: Canonicalize, Engine.Check
--   Policy/Resolver.antt session_resolver.go: StoreSessionResolver
--   Policy/Halt.antt      halt.go: InvalidateApprovalsForTask
--   Policy/Spent.antt     what no entry point undoes
--
-- Egress: kahyad/internal/egress and the queries on egress_budget.
--   Egress/Host.antt    host.go: CanonicalizeHost, isPrivateOrLinkLocal
--   Egress/Budget.antt  budget.go: SQLBudget; sensitive.go: SensitiveTracker
--   Egress/Gate.antt    gate.go: NewGate, Check, MeterUsage, MarkSensitiveRead
--
-- Taint: kahyad/internal/taint/taint.go: the tracker that Engine.Check asks whether a session is tainted.
--
-- Governor: kahyad/internal/anthproxy/governor.go: CheckBeforeForward, RecordUsage, ReleaseReservation.
--
-- Retry: the calls of the model that are tried again.
--   Retry/Taxonomy.antt   kahyad/internal/cloudretry/taxonomy.go: Classify, ParseRetryAfter
--   Retry/RoundTrip.antt  kahyad/internal/anthproxy/retry.go: RoundTrip
--
-- Approval: kahyad/internal/approval/diff.go.
--   Approval/Diff.antt    splitLines, lcsDiff, UnifiedDiff
--   Approval/Chunks.antt  hardSplit, ChunkForTelegram
--
-- Facts: kahyad/internal/factengine and its queries.
--   Facts/Rows.antt      models.go: Fact, Evidence, Entity, EntityAlias, MergeLedger
--   Facts/Queries.antt   queries.sql.go: GetActiveFactByTriple, InsertEvidence, InsertMergeLedger, ...
--   Facts/Engine.antt    engine.go: WriteFact, recomputeConfidence, ConfirmFact; retract.go: RetractFact
--   Facts/Entities.antt  entity.go: ResolveOrCreateEntity, MergeEntities, SplitEntities
--
-- Anchor: the chain of digests over the ledger's events, and its checkpoints.
--   Anchor/Rows.antt, Anchor/Queries.antt  Event, AnchorLog, LedgerDigestState and their statements
--   Anchor/Append.antt  kahyad/internal/store/db.go: InsertEventWithDigest
--   Anchor/Push.antt    kahyad/internal/anchor/push.go: Pusher.Run
--   Anchor/Verify.antt  kahyad/internal/anchor/verify.go: Verifier.Verify
--
-- Bounds and fuel: the loop of hardSplit runs on as much fuel as the text has runes, each turn taking one
-- at least; no other definition runs on fuel. The claim loop of Receipts.Execute has the source's own
-- bound of 50 attempts, RoundTrip its number of attempts. The budget's sum of two int64, the
-- governor's sums of tokens and the seconds of a Retry-After wrap; other numbers stay far below 2^63.
-- Times are nanoseconds, and a timestamp whose text does not parse is `none`.
-- Numbers are natural; a negative int64 of the governor is the number of its bits, from 2^63 on.
--
-- Parameters: the JSON codec, the effect of a tool call, SHA-256 and hex, the git commands of the anchor
-- and the last line of its remote file, the random bytes, the NFC normaliser, the taint checker and the
-- session resolver that the engine is given (Policy/Resolver/Wired.antt gives it those of Taint and
-- Policy/Resolver); the run of a worker, the registry that knows its process, the opener of its proxy and
-- the validation of its envelope; the trimming and case folding of texts, the parsing of addresses and
-- headers, IDNA; the transport below the retries and the wait that Backoff.Delay computes; the arithmetic
-- of float64, which log odds are too, and the prices of models.
--
-- Not modelled: the HTTP server, the spawner, the tool servers and the model processes, which are
-- input and output; the egress proxy's sockets, the killing of containers and speech, the layout of a
-- rendered approval; the model proxy itself, the memory search and the other packages of
-- kahyad/internal. Ledger payloads keep the columns that identify an event; only Anchor models the events
-- table that they are written to. A hook is an event. Timestamps are ordered as times where SQL orders
-- their text.
pub mod Base
pub mod Task
pub mod Policy
pub mod Approval
pub mod Egress
pub mod Taint
pub mod Governor
pub mod Facts
pub mod Anchor
pub mod Retry
