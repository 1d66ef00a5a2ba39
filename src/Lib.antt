-- ===== src/Lib.antt =====
-- A model of Quaestor (src/quaestor), which lets a model-driven orchestrator direct coding agents on
-- a repository under a human owner's authority, and of what its durable record and its gates promise.
--
-- The parts and how they interact. A dispatch is admitted to the store once; the run that carries it
-- out moves through the execution states, holds the lease on its worktree, and is reconciled or
-- cancelled when its worker is gone. What a run may do is decided by a profile, by the owner's
-- recorded grants and by whether the owner's channel is authenticated. The relay passes turns between
-- an orchestrator and an execution endpoint, records every delivery before it makes it, and stops at
-- three gates that ask the same authority. Above the runs, a program has lanes, each with one strategic
-- writer at a time, and the strategic store keeps its decisions, messages, tasks and checkpoints.
--
-- Which file models what:
-- - Core/Domain: src/quaestor/core/domain.py, the states and `can_transition`; Domain/Graph and
--   Domain/History are the laws of the graph and of the paths through it.
-- - Core/Proc: src/quaestor/core/proc.py, `classify_liveness`.
-- - Core/Lease: src/quaestor/core/lease.py, `decide_acquire`, `ownership_proof`, `may_reclaim`.
-- - Core/Reconcile: src/quaestor/core/reconcile.py, `classify`.
-- - Core/Cancellation: src/quaestor/core/cancellation.py, `classify_cancel`, `stage_for`.
-- - Core/OwnerChannel: src/quaestor/core/owner_channel.py, `evaluate`, `gate`.
-- - Core/Authority: src/quaestor/core/authority.py, the profiles and `require`.
-- - Core/Actors: src/quaestor/core/actors.py, `authority_ceiling`.
-- - Core/Autonomy: src/quaestor/core/autonomy.py, `disposition`.
-- - Core/Concurrency: src/quaestor/core/concurrency.py, `decide`.
-- - Core/Review and Core/Acceptance: src/quaestor/core/review_contract.py, evidence_ref.py and
--   acceptance.py beside it, what an acceptance rests on.
-- - Core/Retention: src/quaestor/core/retention.py, `classify` and `sweep`.
-- - Core/Store: src/quaestor/core/store.py and src/quaestor/core/identity.py. Rows has the tables, Transition
--   `transition`, Admit `admit`, Leasing `acquire_lease`, `heartbeat_lease` and `release_lease`, Grants
--   `add_owner_grant` and `revoke_owner_grant`, History any sequence of these operations.
-- - Relay/Ledger: src/quaestor/relay/state.py, the message ledger of one relay.
-- - Relay/Row: src/quaestor/relay/state.py, the row of a relay as it is stopped and resumed.
-- - Relay/Delivery: src/quaestor/relay/kernel.py, `_deliver`, `reconcile`, and the parts of `step` that take
--   a turn from the queue and a reply into the ledger. The endpoints are arguments.
-- - Relay/Effects: src/quaestor/relay/effects.py, the three gates.
-- - Relay/Holds: src/quaestor/relay/kernel.py, `outstanding_owner_holds`, `owner_holds_blocking` and
--   `_release_owner_held`.
-- - Relay/Receive: src/quaestor/relay/kernel.py, the loop of `step` that reads a reply.
-- - Relay/Repetition: src/quaestor/relay/kernel.py, `_repetition_stop`, and `recent_digests` of
--   src/quaestor/relay/state.py.
-- - Relay/Completion: src/quaestor/relay/kernel.py, `claims_completion`.
-- - Relay/Corroborate: src/quaestor/relay/corroborate.py, `run_check` and `verdict`.
-- - Strategic/Lanes: src/quaestor/core/programs.py, `aggregate`, `blocking_dependencies` and
--   `workspace_conflicts`.
-- - Strategic/Decisions and Strategic/Messages: src/quaestor/core/decisions.py and messages.py beside it.
-- - Strategic/Rows, Claims, DecisionTable, Tasks and MessageTable: src/quaestor/core/strategic_store.py, the
--   tables of lanes, leases, decisions, tasks and messages, each with its histories; Claims has
--   `evaluate_claim` and `check_fence` of programs.py too.
-- - Adapters/Assurance: src/quaestor/adapters/assurance.py, `compute_assurance`.
-- - Core/Credentials: src/quaestor/core/credential_policy.py, `forbids_exemption` and `decide`.
-- - Evidence/Floors: src/quaestor/evidence/floors.py, `adjudicate`.
-- - Base has what the parts share; Examples has each theorem at a concrete input.
--
-- How state and operations correspond. A table is the list of its rows in the order of insertion,
-- and an operation is a function from the store to the store, with the clock's reading and fresh
-- ids as arguments. An exception is a refusal value or `none`, and leaves the store as it was
-- where the source rolls back. Where the source holds a lock or a transaction over a read and a
-- write, the two are one step; where it gives the lock up or commits in between, as in the release
-- of a lane, the superseding of a decision and the count of attempts, the histories take each part
-- for a step of its own. The lock of the strategic store is that of one store object, so the
-- histories of the checkpoints are those of the calls on one object. Times are natural numbers. A
-- text that the source compares stays a text, so that an unknown one is refused where the source
-- refuses it; a vocabulary that only the code writes is a data type. No recursion needs fuel: it
-- is on lists, and for the reading of a reply on the attempts that are left.
--
-- Outside the model, as arguments: the canonical spelling of a path, lower and upper case, the
-- Unicode tables of `str`, the classifier of a provider's login, the digest of a dispatch's key
-- and of a message's content, the answers of process and lock probes, of endpoints, of git and of
-- the commands of a check, what the text classifier makes of a text, and what a regular expression
-- finds in a turn. A JSON column that the code reads holds what is read. Left out: reason texts
-- and JSON columns that no code reads.
-- Not modelled: provider adapters, executors, containers, prompts, the command lines and the key
-- store, which are input and output; the whole of a resume, of which Relay/Row has the conditional
-- write and Relay/Holds the release of holds; the result, evidence and handoff tables; the run,
-- review and integration tables of the strategic store; the dispatcher, the worker and the
-- orchestrator.
pub mod Base
pub mod Core
pub mod Relay
pub mod Strategic
pub mod Adapters
pub mod Evidence
pub mod Examples
