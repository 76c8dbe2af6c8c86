-- ===== src/AuditLog.antt =====
-- The operator audit trail: services/audit.py, and get_audit_event, list_audit_events and
-- prune_audit_events of adapters/in_memory.py. `append_audit_event` stands in Store. The texts of
-- two UUIDs are in the order of their values.
pub mod Prune
use universal_agent_memory.Prelude.{
  ℕ, ◌+◌, min, max, Bool, true, false, not, ◌&&◌, ◌||◌, Option, none, some, List, [], ◌∷◌, ltb, leb,
  eqb, if◌then◌else◌, ◌==◌, nat_eq, list_eq, take, filter,
}
use universal_agent_memory.Text.{Text}
use universal_agent_memory.Sorting.{sort}
use universal_agent_memory.Dict
use universal_agent_memory.Dict.{Dict, values}
use universal_agent_memory.Domain.Errors.{Result, ok, err}
use universal_agent_memory.Domain.Json.{Metadata}
use universal_agent_memory.Domain.Records.{AuditEvent, audit_post_init}
use universal_agent_memory.Store.{MemoryStore, append_audit_event}

abbrev pub event_of : ℕ → Option AuditEvent → Option AuditEvent
event_of tenant_id none = none
event_of tenant_id (some event) = if event.tenant_id == tenant_id then some event else none

-- `get_audit_event`
unfoldable pub get_audit_event : ℕ → ℕ → MemoryStore → Option AuditEvent
get_audit_event tenant_id event_id s = event_of tenant_id (Dict.get event_id s.audit_events)

-- The arguments of a listing.
pub record AuditQuery : Type 0 where
  pub workspace_id : Option ℕ
  pub action : Option Text
  pub resource_type : Option Text
  pub created_after : Option ℕ
  pub created_before : Option ℕ
  pub before_event_id : Option ℕ

-- `workspace_id is None or event.workspace_id == workspace_id`
abbrev pub in_workspace : Option ℕ → AuditEvent → Bool
in_workspace none event = true
in_workspace (some w) event = elim (event.workspace_id) [ none ↦ false | some v ↦ v == w ]

abbrev pub is_text : Option Text → Text → Bool
is_text none t = true
is_text (some wanted) t = t == wanted

abbrev pub is_after : Option ℕ → ℕ → Bool
is_after none at = true
is_after (some from) at = leb from at

-- `before_event_id is not None and event.created_at == created_before and …`
abbrev pub is_before_event : Option ℕ → ℕ → AuditEvent → Bool
is_before_event none before event = false
is_before_event (some id) before event = event.created_at == before && ltb event.id id

abbrev pub is_before : Option ℕ → Option ℕ → AuditEvent → Bool
is_before none before_event_id event = true
is_before (some before) before_event_id event =
    ltb event.created_at before || is_before_event before_event_id before event

unfoldable pub is_queried : ℕ → AuditQuery → AuditEvent → Bool
is_queried tenant_id query event =
    event.tenant_id == tenant_id
    && in_workspace query.workspace_id event
    && is_text query.action event.action
    && is_text query.resource_type event.resource_type
    && is_after query.created_after event.created_at
    && is_before query.created_before query.before_event_id event

-- The sort key `(created_at, id)`, and in reverse.
unfoldable pub event_not_after : AuditEvent → AuditEvent → Bool
event_not_after a b =
    ltb a.created_at b.created_at || (a.created_at == b.created_at && leb a.id b.id)

abbrev pub event_not_before : AuditEvent → AuditEvent → Bool
event_not_before a b = event_not_after b a

-- `list_audit_events`
unfoldable pub list_audit_events : ℕ → AuditQuery → ℕ → MemoryStore → List AuditEvent
list_audit_events tenant_id query limit s =
    take limit (sort event_not_before (filter (is_queried tenant_id query) (values s.audit_events)))

-- `max(1, min(int(limit), 500))`
unfoldable pub safe_limit : ℕ → ℕ
safe_limit limit = max 1 (min limit 500)

-- `AuditLogService.list_events`
unfoldable pub list_events : ℕ → AuditQuery → ℕ → MemoryStore → List AuditEvent
list_events tenant_id query limit s = list_audit_events tenant_id query (safe_limit limit) s

unfoldable pub is_doomed : ℕ → ℕ → Option ℕ → AuditEvent → Bool
is_doomed tenant_id created_before workspace_id event =
    event.tenant_id == tenant_id
    && ltb event.created_at created_before
    && in_workspace workspace_id event

-- The loop that pops the events and counts them.
unfoldable pub pop_events : List AuditEvent → Dict ℕ AuditEvent → ℕ × Dict ℕ AuditEvent
pop_events [] events = (0, events)
pop_events (event ∷ doomed) events =
    let rest = pop_events doomed (Dict.remove event.id events) in
    elim (Dict.get event.id events) [ none ↦ rest | some popped ↦ (1 + rest.0, rest.1) ]

-- `prune_audit_events`
unfoldable pub prune_audit_events : ℕ → ℕ → Option ℕ → ℕ → MemoryStore → ℕ × MemoryStore
prune_audit_events tenant_id created_before workspace_id limit s =
    let doomed = filter (is_doomed tenant_id created_before workspace_id) (values s.audit_events) in
    let popped =
      pop_events (take (safe_limit limit) (sort event_not_after doomed)) s.audit_events in
    (popped.0, record s { audit_events = popped.1 })

-- `AuditLogService.prune_events`
unfoldable pub prune_events : ℕ → ℕ → Option ℕ → ℕ → MemoryStore → ℕ × MemoryStore
prune_events tenant_id created_before workspace_id limit s =
    prune_audit_events tenant_id created_before workspace_id (safe_limit limit) s

-- `self._audit_events[event.id]`, after the event was appended.
unfoldable pub appended_event : AuditEvent → MemoryStore → AuditEvent
appended_event event s = elim (Dict.get event.id s.audit_events) [
  | none ↦ event
  | some stored ↦ stored
]

-- `AuditLogService.record`, of the event that it constructs.
unfoldable pub record_event : AuditEvent → MemoryStore → Result AuditEvent × MemoryStore
record_event event s = elim (audit_post_init event) [
  | err e ↦ (err e, s)
  | ok checked ↦
      let stored = append_audit_event checked s in (ok (appended_event checked stored), stored)
]
