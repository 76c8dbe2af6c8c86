-- ===== src/Retention.antt =====
-- The write path of memories: services/retention.py with its commands of contracts/dto.py. It joins
-- the privacy guard and the ledger. The texts of identities are a parameter; fresh identities and
-- the clock are arguments.
pub mod Private
use universal_agent_memory.Prelude.{
  ℕ, Bool, true, false, not, ◌&&◌, Option, none, some, List, [], ◌∷◌, ltb, if◌then◌else◌, Score,
  pos, in_unit,
}
use universal_agent_memory.Text.{Text, text, is_blank}
use universal_agent_memory.Domain.Errors.{
  Result, ok, err, key_error, value_error, raise_if, ◌>>=◌, ◌>>◌,
}
use universal_agent_memory.Domain.Json.{Metadata, Json, str, number, arr, nil, cons, merge}
use universal_agent_memory.Domain.Kinds.{
  MemoryLayer, MemoryScope, MemoryStatus, working, core, episodic, semantic, procedural, social,
  reflection, error,
}
use universal_agent_memory.Domain.Memory
use universal_agent_memory.Domain.Memory.{MemoryItem, Provenance}
use universal_agent_memory.Domain.Records.{IntegrationEvent, event_post_init, AuditEvent}
use universal_agent_memory.Store
use universal_agent_memory.Store.{MemoryStore}
use universal_agent_memory.Store.Writes.{supersede_if_current}
use universal_agent_memory.Privacy.{PrivacyDecision, Detector, PrivacyGuard}
use universal_agent_memory.Privacy

pub record RetainCommand : Type 0 where
  pub tenant_id : ℕ
  pub workspace_id : ℕ
  pub layer : MemoryLayer
  pub scope : MemoryScope
  pub kind : Text
  pub text : Text
  pub provenance : Provenance
  pub agent_id : Option ℕ
  pub thread_id : Option ℕ
  pub labels : List Text
  pub importance : Score
  pub confidence : Score
  pub metadata : Metadata
  pub status : MemoryStatus
  pub idempotency_key : Option Text

pub record SupersedeMemoryCommand : Type 0 where
  pub tenant_id : ℕ
  pub item_id : ℕ
  pub replacement_text : Text
  pub expected_revision : ℕ
  pub confidence : Option Score
  pub status : Option MemoryStatus
  pub idempotency_key : Option Text

abbrev pub out_of_unit : Option Score → Bool
out_of_unit none = false
out_of_unit (some confidence) = not (in_unit confidence)

-- `SupersedeMemoryCommand.__post_init__`
unfoldable pub supersede_command_post_init : SupersedeMemoryCommand → Result SupersedeMemoryCommand
supersede_command_post_init self = do
  raise_if (is_blank self.replacement_text) (value_error "replacement text must not be empty")
  raise_if (ltb self.expected_revision 1) (value_error "expected_revision must be positive")
  raise_if (out_of_unit self.confidence) (value_error "confidence must be between 0 and 1")
  ok self

-- `RetainResult`
pub record RetainResult : Type 0 where
  pub item : MemoryItem
  pub created : Bool
  pub queued_event_ids : List ℕ

-- The service with what it takes from outside: the guard with its detectors, and `str(uuid)`.
pub record RetentionService : Type 0 where
  pub privacy : PrivacyGuard
  pub digit : ℕ → Option ℕ
  pub detectors : List Detector
  pub text_of_id : ℕ → Text

-- `self._privacy.apply(text)`
abbrev pub apply_guard : RetentionService → Text → Result PrivacyDecision
apply_guard self s = Privacy.apply self.digit self.detectors self.privacy s

-- `item.layer.value`
abbrev pub layer_value : MemoryLayer → Text
layer_value working = text "working"
layer_value core = text "core"
layer_value episodic = text "episodic"
layer_value semantic = text "semantic"
layer_value procedural = text "procedural"
layer_value social = text "social"
layer_value reflection = text "reflection"
layer_value error = text "error"

-- `["embed", "reflect"]`
abbrev pub jobs : Json
jobs = arr (cons (str (text "embed")) (cons (str (text "reflect")) nil))

-- The fresh identities of an item and of an event, and the time.
pub record Fresh : Type 0 where
  pub item_id : ℕ
  pub event_id : ℕ
  pub now : ℕ

-- The arguments of the constructor in `prepare`.
unfoldable pub item_of_command : RetainCommand → PrivacyDecision → Fresh → MemoryItem
item_of_command command decision fresh = record {
  tenant_id = command.tenant_id;
  workspace_id = command.workspace_id;
  layer = command.layer;
  scope = command.scope;
  kind = command.kind;
  text = decision.text;
  provenance = command.provenance;
  id = fresh.item_id;
  agent_id = command.agent_id;
  thread_id = command.thread_id;
  labels = command.labels;
  metadata = merge command.metadata decision.metadata;
  status = command.status;
  importance = command.importance;
  salience = pos 500000;
  confidence = command.confidence;
  observed_at = fresh.now;
  valid_from = none;
  valid_to = none;
  created_at = fresh.now;
  revision = 1;
  supersedes_id = none;
}

unfoldable pub event_of_item : RetentionService → MemoryItem → Metadata → Fresh → IntegrationEvent
event_of_item self item payload fresh = record {
  name = text "memory.retained.v1";
  tenant_id = item.tenant_id;
  workspace_id = item.workspace_id;
  payload = payload;
  id = fresh.event_id;
  occurred_at = fresh.now;
  correlation_id = some item.id;
}

abbrev pub retained_payload : RetentionService → MemoryItem → Metadata
retained_payload self item =
    (text "memory_id", str (self.text_of_id item.id))
    ∷ (text "layer", str (layer_value item.layer))
    ∷ (text "jobs", jobs)
    ∷ []

-- `prepare`
unfoldable pub prepare :
    RetentionService → RetainCommand → Fresh → Result (MemoryItem × IntegrationEvent)
prepare self command fresh = do
  decision ← apply_guard self command.text
  item ← Memory.post_init (item_of_command command decision fresh)
  event ← event_post_init (event_of_item self item (retained_payload self item) fresh)
  ok (item, event)

-- `replace(audit_event, resource_id=str(item.id))`
abbrev pub audit_of_item : RetentionService → MemoryItem → Option AuditEvent → Option AuditEvent
audit_of_item self item none = none
audit_of_item self item (some event) =
    some (record event { resource_id = some (self.text_of_id item.id) })

-- `replace(audit_event, workspace_id=replacement.workspace_id, resource_id=str(replacement.id))`
abbrev pub audit_of_replacement :
    RetentionService → MemoryItem → Option AuditEvent → Option AuditEvent
audit_of_replacement self item none = none
audit_of_replacement self item (some event) = some (record event {
  workspace_id = some item.workspace_id;
  resource_id = some (self.text_of_id item.id);
})

-- The result for what the ledger returned.
unfoldable pub retain_result : IntegrationEvent → Result (MemoryItem × Bool) → Result RetainResult
retain_result event (err e) = err e
retain_result event (ok (stored, created)) = ok (record {
  item = stored;
  created = created;
  queued_event_ids = if created then event.id ∷ [] else [];
})

-- `retain`
unfoldable pub retain :
    RetentionService
    → RetainCommand
    → Option AuditEvent
    → Fresh
    → MemoryStore
    → Result RetainResult × MemoryStore
retain self command audit fresh s = elim (prepare self command fresh) [
  | err e ↦ (err e, s)
  | ok (item, event) ↦
      let stored =
        Store.retain item event command.idempotency_key (audit_of_item self item audit) s in
      (retain_result event stored.0, stored.1)
]

abbrev pub replacement_payload : RetentionService → MemoryItem → MemoryItem → Metadata
replacement_payload self item current =
    (text "memory_id", str (self.text_of_id item.id))
    ∷ (text "supersedes_id", str (self.text_of_id current.id))
    ∷ (text "revision", number item.revision)
    ∷ (text "layer", str (layer_value item.layer))
    ∷ (text "jobs", jobs)
    ∷ []

-- The replacement and its event; both `replace` and `supersede` run the checks of the item.
unfoldable pub prepare_replacement :
    RetentionService
    → SupersedeMemoryCommand
    → MemoryItem
    → Fresh
    → Result (MemoryItem × IntegrationEvent)
prepare_replacement self command current fresh = do
  decision ← apply_guard self command.replacement_text
  revised ←
      Memory.supersede current decision.text command.confidence command.status fresh.item_id
        fresh.now
  replacement ←
      Memory.post_init (record revised { metadata = merge revised.metadata decision.metadata })
  event ←
      event_post_init
        (event_of_item self replacement (replacement_payload self replacement current) fresh)
  ok (replacement, event)

-- `supersede`
unfoldable pub supersede :
    RetentionService
    → SupersedeMemoryCommand
    → Option AuditEvent
    → Fresh
    → MemoryStore
    → Result RetainResult × MemoryStore
supersede self command audit fresh s = elim (Store.get command.tenant_id command.item_id s) [
  | none ↦ (err (key_error "memory item not found"), s)
  | some current ↦ elim (prepare_replacement self command current fresh) [
    | err e ↦ (err e, s)
    | ok (replacement, event) ↦
        let stored =
          supersede_if_current replacement event command.expected_revision command.idempotency_key
            (audit_of_replacement self replacement audit) s in
        (retain_result event stored.0, stored.1)
  ]
]
