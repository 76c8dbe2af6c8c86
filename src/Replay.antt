-- ===== src/Replay.antt =====
-- The replay of a recall: services/replay.py.
pub mod Decode
pub mod RoundTrip
use universal_agent_memory.Prelude.{
  ℕ, zero, suc, ◌+◌, min, Bool, true, false, not, ◌&&◌, ◌||◌, Option, none, some, List, [], ◌∷◌,
  ltb, eqb, if◌then◌else◌, ◌==◌, nat_eq, list_eq, length, take,
}
use universal_agent_memory.Text.{Text, text}
use universal_agent_memory.Dict
use universal_agent_memory.Domain.Errors.{
  Error, Result, ok, err, key_error, value_error, dependency_error, ◌>>=◌,
}
use universal_agent_memory.Domain.Json.{
  Json, null, boolean, number, str, arr, obj, Items, nil, cons, Fields, end, field, Metadata,
}
use universal_agent_memory.Domain.Kinds.{MemoryLayer, MemoryStatus}
use universal_agent_memory.Domain.Memory.{MemoryItem}
use universal_agent_memory.Domain.Records.{AuditEvent}
use universal_agent_memory.Store
use universal_agent_memory.Store.{MemoryStore}
use universal_agent_memory.AuditLog.{get_audit_event}
use universal_agent_memory.Retrieval.Trace.{
  IndexFreshness, Stage, source_stage, fusion_stage, StepStatus, succeeded, degraded,
  RetrievalTraceStep, trace_post_init,
}
use Decode.{
  bounded_int, bounded_text, decode_freshness, text_tuple, uuid_tuple, retrieval_traversal,
}

-- The layer and the status stand for their values.
pub record ReplayMemoryReference : Type 0 where
  pub item_id : ℕ
  pub layer : MemoryLayer
  pub status : MemoryStatus
  pub revision : ℕ

pub record RecallReplay : Type 0 where
  pub audit_event : AuditEvent
  pub operation : Text
  pub query_sha256 : Text
  pub query_chars : ℕ
  pub candidate_count : ℕ
  pub sources_used : List Text
  pub index_stale : Bool
  pub index_freshness : Option IndexFreshness
  pub context_budget_tokens : ℕ
  pub context_used_tokens : ℕ
  pub trace_ids : List ℕ
  pub traversal : List RetrievalTraceStep
  pub references : List ReplayMemoryReference

-- `bool(value)`
unfoldable pub is_true : Option Json → Bool
is_true none = false
is_true (some null) = false
is_true (some (boolean b)) = b
is_true (some (number n)) = ltb 0 n
is_true (some (str s)) = not (s == [])
is_true (some (arr nil)) = false
is_true (some (arr (cons row rows))) = true
is_true (some (obj end)) = false
is_true (some (obj (field k v row))) = true

abbrev pub reference_of : MemoryItem → ReplayMemoryReference
reference_of item = record {
  item_id = item.id;
  layer = item.layer;
  status = item.status;
  revision = item.revision;
}

-- `item is None or item.workspace_id != workspace_id`, and what is appended otherwise.
unfoldable pub add_reference :
    ℕ → Option MemoryItem → List ReplayMemoryReference → List ReplayMemoryReference
add_reference workspace_id none rest = rest
add_reference workspace_id (some item) rest =
    if item.workspace_id == workspace_id then reference_of item ∷ rest else rest

-- The loop over the identities.
unfoldable pub references_of : ℕ → ℕ → List ℕ → MemoryStore → List ReplayMemoryReference
unfolding add_reference
references_of tenant_id workspace_id [] s = []
references_of tenant_id workspace_id (id ∷ ids) s =
    add_reference workspace_id (Store.get tenant_id id s)
      (references_of tenant_id workspace_id ids s)

-- What `get` reads from a recall's event.
unfoldable pub replay_of_event :
    (Text → Option ℕ) → (Json → Option ℕ) → ℕ → ℕ → AuditEvent → MemoryStore → Result RecallReplay
replay_of_event int_of uuid_of tenant_id workspace_id event s =
    let value : Text → Option Json = λ key. Dict.get key event.metadata in
    let trace_ids = uuid_tuple uuid_of (value (text "trace_ids")) in
    do
      traversal ← retrieval_traversal int_of (value (text "retrieval_traversal"))
      ok (record {
        audit_event = event;
        operation = bounded_text (text "unknown") (value (text "operation"));
        query_sha256 = bounded_text [] (value (text "query_sha256"));
        query_chars = bounded_int int_of (value (text "query_chars"));
        candidate_count = bounded_int int_of (value (text "candidate_count"));
        sources_used = text_tuple (value (text "sources_used"));
        index_stale = is_true (value (text "index_stale"));
        index_freshness = decode_freshness int_of (value (text "index_freshness"));
        context_budget_tokens = bounded_int int_of (value (text "context_budget_tokens"));
        context_used_tokens = bounded_int int_of (value (text "context_used_tokens"));
        trace_ids = trace_ids;
        traversal = traversal;
        references = references_of tenant_id workspace_id trace_ids s;
      })

abbrev pub is_of_workspace : Option ℕ → ℕ → Bool
is_of_workspace none workspace_id = false
is_of_workspace (some w) workspace_id = w == workspace_id

-- `RecallReplayService.get`
unfoldable pub replay_get :
    (Text → Option ℕ) → (Json → Option ℕ) → ℕ → ℕ → ℕ → MemoryStore → Result RecallReplay
unfolding replay_of_event
replay_get int_of uuid_of tenant_id workspace_id audit_event_id s =
    elim (get_audit_event tenant_id audit_event_id s) [
      | none ↦ err (key_error "recall replay not found")
      | some event ↦
          if not (is_of_workspace event.workspace_id workspace_id)
          then err (key_error "recall replay not found")
          else if not (event.action == text "memory.recall")
              || not (event.resource_type == text "memory_recall")
          then err (value_error "audit event is not a recall replay")
          else replay_of_event int_of uuid_of tenant_id workspace_id event s
    ]
