-- ===== src/Lib.antt =====
-- Verification library of the Universal Agent Memory server (src/memory_plane).
--
-- The program is a memory ledger for agents. Services (src/memory_plane/services) work on domain
-- records (src/memory_plane/domain, src/memory_plane/contracts) and on stores that adapters
-- implement (src/memory_plane/adapters). A write of the ledger stores a memory item, an outbox
-- event and an audit record in one step; the outbox relay sends the events to a transport under
-- leases, and consumers take delivered events under leases of their own; checkpoints are a second
-- store with compare-and-swap; the context compiler selects recalled items for an operation's
-- token budget.
--
-- Files and what they model:
--   Prelude, Sorting, Dict, Text: Boolean tests, lists, `sorted`, `dict` and `str`.
--   Domain: Errors (exceptions as values), Json (the values of metadata), Kinds and Memory
--     (domain/models.py), Records (contracts/events.py, domain/audit.py, domain/conflict.py).
--   Checkpoints: domain/checkpoint.py, InMemoryCheckpointStore of adapters/in_memory.py (save,
--     save_if_head, get_head, get_revision, compact) and services/checkpoint.py (save, update).
--     Views, Cas, Compaction, Race and Histories hold the proofs.
--   Store: InMemoryMemoryStore of adapters/in_memory.py: append, retain, publish,
--     append_audit_event, get; Heads has is_recallable_head and _latest_descendant, Writes has
--     supersede_if_current and apply_conflict_resolution, Listing has list_for_workspace.
--     Replays, Trail and the modules under Heads and Writes hold the proofs.
--   Turns: domain/conversation.py, and append_turn, get_turn and purge_turn_content of
--     adapters/in_memory.py. Purge holds proofs.
--   Outbox: claim_outbox, mark_outbox_published and release_outbox of adapters/postgres.py on the
--     rows of a tenant, and OutboxRelay of services/outbox.py. Steps, Leases,
--     Chosen, Settling, Outcome, Rows and Relay hold proofs.
--   Consumer: claim_event_processing, complete_event_processing and release_event_processing of
--     adapters/postgres.py on the rows of a tenant, and services/consumer.py. Leases, Once,
--     Holds and Retry hold proofs.
--   Context: services/context.py with ContextRecipe of contracts/dto.py. Budget and Selection
--     hold proofs.
--   Ingestion: TextChunker of services/ingestion.py. Window, Coverage and FirstChunk hold proofs.
--   Privacy: services/privacy.py. Luhn, Selection and Redaction hold proofs.
--   Retention: services/retention.py with its commands of contracts/dto.py, on Privacy and Store.
--     Private holds proofs.
--   Retrieval: services/retrieval.py with the query, the trace and the result of contracts/dto.py, in
--     Sources, Trace, Groups and Fusion. Filter, Order, Rank, Telemetry and Total hold proofs.
--   ApiKeys: domain/api_key.py, services/api_keys.py and the registry of adapters/in_memory.py.
--     Change and Revoked hold proofs.
--   Identities: domain/identity.py, services/identities.py and their methods of
--     adapters/in_memory.py. Kept and Ownership hold proofs.
--   Workers: domain/worker.py, record_worker_heartbeat and worker_readiness of
--     adapters/in_memory.py. Ready holds proofs.
--   AuditLog: services/audit.py, and get_audit_event, list_audit_events and prune_audit_events of
--     adapters/in_memory.py. Prune holds proofs.
--   Proposals: domain/proposal.py, append_proposal, get_proposal, save_proposal_review and
--     accept_proposal_with_memory of adapters/in_memory.py, and reject of services/proposals.py.
--     Review holds proofs.
--   Graph: domain/graph.py, services/graph.py, and save_edge, list_neighbors and
--     list_edges_for_workspace of adapters/in_memory.py.
--   VaultHealth: services/vault_health.py with Observation of domain/models.py. Healthy holds proofs.
--   Replay: services/replay.py. Decode reads the JSON of an audit event; RoundTrip holds proofs.
--   Tests: runs at small inputs.
--
-- Conventions. UUIDs are numbers, times are numbers of a fixed unit, a text is its code points, a
-- float score is an integer in millionths. Fresh identities, the clock, the transport, event
-- handlers, candidate sources, the matches of regular expressions, str.lower and the arithmetic of
-- floats are arguments. A method that changes a store returns what it returns or raises and the
-- store that it leaves; each method holds a lock, or is one statement, so it is one step, and runs
-- of several writers are sequences of steps. `run_once` of the relay and `handle` of a consumer
-- take several steps and are defined with no other step between; the theorems on the leases and on
-- a failed delivery have the steps of other workers between. Two loops have fuel:
-- `_latest_descendant` as many rounds as there are items, which is enough because each round moves
-- to a greater revision, and the chunker as many as there are characters, which is enough because
-- each round begins at a later one.
--
-- Not modelled: the HTTP API, the SQL text apart from the outbox and consumer statements, the
-- clients of external services, worker processes and configuration, which are I/O; and the remaining
-- services and tables: observations, conversations and their curation, conflicts and belief
-- slots, reflection, session seeds and the vault.
pub mod Prelude
pub mod Sorting
pub mod Dict
pub mod Text
pub mod Domain
pub mod Checkpoints
pub mod Store
pub mod Outbox
pub mod Context
pub mod Consumer
pub mod Turns
pub mod Ingestion
pub mod Privacy
pub mod ApiKeys
pub mod Identities
pub mod Workers
pub mod AuditLog
pub mod Retrieval
pub mod Proposals
pub mod Retention
pub mod Graph
pub mod Replay
pub mod VaultHealth
pub mod Tests
