-- ===== src/Store.antt =====
-- The canonical memory ledger with its outbox and its audit trail: `InMemoryMemoryStore` of
-- adapters/in_memory.py. Each method returns what it returns or raises, and the store that it
-- leaves. The lock that every method holds makes each call one step.
pub mod Heads
pub mod Writes
pub mod Listing
pub mod Replays
pub mod Trail
use universal_agent_memory.Prelude.{
  ℕ, zero, suc, ◌+◌, Bool, true, false, not, ◌&&◌, ◌||◌, Option, none, some, List, [], ◌∷◌, ◌++◌,
  ltb, eqb, if◌then◌else◌, ◌==◌, nat_eq, list_eq, option_eq, pair_eq, length, any, all, find?,
}
use universal_agent_memory.Text.{Text}
use universal_agent_memory.Dict
use universal_agent_memory.Dict.{Dict, values}
use universal_agent_memory.Domain.Errors.{
  Error, Result, ok, err, value_error, key_error, memory_revision_conflict, ◌>>=◌,
}
use universal_agent_memory.Domain.Kinds.{MemoryStatus, status_eq, rejected, archived}
use universal_agent_memory.Domain.Memory.{MemoryItem}
use universal_agent_memory.Domain.Records.{
  IntegrationEvent, AuditEvent, ConflictReviewDecision, review_eq,
}

-- `f"{workspace_id}:{key}"`. A UUID is rendered with 36 characters, so the text determines its two
-- parts; it is never empty.
abbrev pub ScopedKey : Type 0
ScopedKey = ℕ × Text

pub record MemoryStore : Type 0 where
  pub items : Dict ℕ MemoryItem
  pub idempotency : Dict (ℕ × ScopedKey) ℕ
  pub conflict_reviews : Dict (ℕ × ℕ) ConflictReviewDecision
  pub audit_events : Dict ℕ AuditEvent
  pub events : List IntegrationEvent

abbrev pub empty : MemoryStore
empty = record {
  items = [];
  idempotency = [];
  conflict_reviews = [];
  audit_events = [];
  events = [];
}

-- `_scope_idempotency_key`
unfoldable pub scope_idempotency_key : ℕ → Option Text → Option ScopedKey
scope_idempotency_key workspace_id none = none
scope_idempotency_key workspace_id (some key) = some (workspace_id, key)

-- `publish`
unfoldable pub publish : IntegrationEvent → MemoryStore → MemoryStore
publish event s =
    if all (λ e. not (e.id == event.id)) s.events
    then record s { events = s.events ++ event ∷ [] }
    else s

-- `append_audit_event`
unfoldable pub append_audit_event : AuditEvent → MemoryStore → MemoryStore
append_audit_event event s = record s {
  audit_events = Dict.set_default event.id event s.audit_events;
}

-- `if audit_event is not None: self.append_audit_event(audit_event)`
unfoldable pub append_audit_if_given : Option AuditEvent → MemoryStore → MemoryStore
unfolding append_audit_event
append_audit_if_given none s = s
append_audit_if_given (some event) s = append_audit_event event s

-- `self._items[id]`
unfoldable pub item_at : ℕ → MemoryStore → Result MemoryItem
item_at id s = elim (Dict.get id s.items) [ none ↦ err (key_error "item") | some item ↦ ok item ]

-- The identity that an earlier call with the key has stored.
unfoldable pub prior_id : ℕ → Option ScopedKey → MemoryStore → Option ℕ
prior_id tenant_id none s = none
prior_id tenant_id (some key) s = Dict.get (tenant_id, key) s.idempotency

-- The prior result of an idempotent call.
unfoldable pub replay : ℕ → MemoryStore → Result (MemoryItem × Bool)
unfolding item_at
replay existing_id s = do item ← item_at existing_id s; ok (item, false)

-- `self._items[item.id] = item` and, under a key, `self._idempotency[...] = item.id`
unfoldable pub store_item : MemoryItem → Option ScopedKey → MemoryStore → MemoryStore
store_item item none s = record s { items = Dict.put item.id item s.items }
store_item item (some key) s = record s {
  items = Dict.put item.id item s.items;
  idempotency = Dict.put (item.tenant_id, key) item.id s.idempotency;
}

-- `append`
unfoldable pub append :
    MemoryItem → Option Text → MemoryStore → Result (MemoryItem × Bool) × MemoryStore
unfolding scope_idempotency_key prior_id replay store_item
append item idempotency_key s =
    let key = scope_idempotency_key item.workspace_id idempotency_key in
    elim (prior_id item.tenant_id key s) [
      | some existing_id ↦ (replay existing_id s, s)
      | none ↦ (ok (item, true), store_item item key s)
    ]

-- What `retain` does when `append` has returned.
unfoldable pub retain_after :
    IntegrationEvent
    → Option AuditEvent
    → Result (MemoryItem × Bool) × MemoryStore
    → Result (MemoryItem × Bool) × MemoryStore
retain_after event audit (err e, s) = (err e, s)
retain_after event audit (ok (stored, false), s) = (ok (stored, false), s)
retain_after event audit (ok (stored, true), s) =
    (ok (stored, true), append_audit_if_given audit (publish event s))

-- `retain`
unfoldable pub retain :
    MemoryItem
    → IntegrationEvent
    → Option Text
    → Option AuditEvent
    → MemoryStore
    → Result (MemoryItem × Bool) × MemoryStore
unfolding retain_after append
retain item event idempotency_key audit s = retain_after event audit (append item idempotency_key s)

abbrev pub only_of : ℕ → Option MemoryItem → Option MemoryItem
only_of tenant_id none = none
only_of tenant_id (some item) = if item.tenant_id == tenant_id then some item else none

-- `get`
unfoldable pub get : ℕ → ℕ → MemoryStore → Option MemoryItem
get tenant_id item_id s = only_of tenant_id (Dict.get item_id s.items)
