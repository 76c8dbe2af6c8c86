-- ===== src/Turns.antt =====
-- The ledger of raw conversation turns: domain/conversation.py, and `append_turn`, `get_turn` and
-- `purge_turn_content` of adapters/in_memory.py. The store of memory items stands beside the
-- turns, since an appended turn is audited and published there.
pub mod Purge
use universal_agent_memory.Prelude.{
  ℕ, Bool, true, false, not, ◌&&◌, Option, none, some, List, [], ◌∷◌, map, leb, ltb, if◌then◌else◌,
  ◌==◌, nat_eq, list_eq, pair_eq,
}
use universal_agent_memory.Text.{Text, text, is_blank}
use universal_agent_memory.Dict
use universal_agent_memory.Dict.{Dict}
use universal_agent_memory.Domain.Errors.{
  Result, ok, err, key_error, value_error, raise_if, ◌>>=◌, ◌>>◌,
}
use universal_agent_memory.Domain.Json.{Metadata, str, obj, field, end}
use universal_agent_memory.Domain.Records.{IntegrationEvent, AuditEvent}
use universal_agent_memory.Store.{
  MemoryStore, ScopedKey, publish, append_audit_if_given, scope_idempotency_key,
}

pub data ConversationRetentionPolicy : Type 0 where
  raw_only curated_only raw_and_curated : ConversationRetentionPolicy

pub record ConversationMessage : Type 0 where
  pub role : Text
  pub content : Text
  pub name : Option Text
  pub metadata : Metadata

-- `ConversationMessage.__post_init__`
unfoldable pub message_post_init : ConversationMessage → Result ConversationMessage
message_post_init self = do
  raise_if (is_blank self.role) (value_error "conversation message role must not be empty")
  raise_if (is_blank self.content) (value_error "conversation message content must not be empty")
  ok self

pub record ConversationTurn : Type 0 where
  pub tenant_id : ℕ
  pub workspace_id : ℕ
  pub thread_id : ℕ
  pub messages : List ConversationMessage
  pub id : ℕ
  pub namespace : Text
  pub agent_id : Option ℕ
  pub source_kind : Text
  pub retention_policy : ConversationRetentionPolicy
  pub metadata : Metadata
  pub created_at : ℕ
  pub expires_at : Option ℕ

abbrev pub is_empty_list {ℓ} : {A : Type ℓ} → List A → Bool
is_empty_list [] = true
is_empty_list (x ∷ xs) = false

-- `expires_at is not None and expires_at <= created_at`
abbrev pub expires_early : Option ℕ → ℕ → Bool
expires_early none created_at = false
expires_early (some expires_at) created_at = leb expires_at created_at

-- `ConversationTurn.__post_init__`
unfoldable pub turn_post_init : ConversationTurn → Result ConversationTurn
turn_post_init self = do
  raise_if (is_blank self.namespace) (value_error "conversation namespace must not be empty")
  raise_if (is_blank self.source_kind) (value_error "conversation source_kind must not be empty")
  raise_if (is_empty_list self.messages)
      (value_error "conversation turn requires at least one message")
  raise_if (expires_early self.expires_at self.created_at)
      (value_error "conversation turn expiry must be after creation")
  ok self

pub record TurnLedger : Type 0 where
  pub turns : Dict ℕ ConversationTurn
  pub turn_idempotency : Dict (ℕ × ScopedKey) ℕ
  pub memory : MemoryStore

-- `if event is not None: self.publish(event)`
unfoldable pub publish_if_given : Option IntegrationEvent → MemoryStore → MemoryStore
unfolding publish
publish_if_given none s = s
publish_if_given (some event) s = publish event s

unfoldable pub prior_turn_id : ℕ → Option ScopedKey → TurnLedger → Option ℕ
prior_turn_id tenant_id none s = none
prior_turn_id tenant_id (some key) s = Dict.get (tenant_id, key) s.turn_idempotency

unfoldable pub record_turn_key :
    ℕ → Option ScopedKey → ℕ → Dict (ℕ × ScopedKey) ℕ → Dict (ℕ × ScopedKey) ℕ
record_turn_key tenant_id none id keys = keys
record_turn_key tenant_id (some key) id keys = Dict.put (tenant_id, key) id keys

-- `self._turns[existing_id], False`
unfoldable pub replay_turn : ℕ → TurnLedger → Result (ConversationTurn × Bool)
replay_turn existing_id s = elim (Dict.get existing_id s.turns) [
  | none ↦ err (key_error "turn")
  | some turn ↦ ok (turn, false)
]

-- `append_turn`
unfoldable pub append_turn :
    ConversationTurn
    → Option Text
    → Option AuditEvent
    → Option IntegrationEvent
    → TurnLedger
    → Result (ConversationTurn × Bool) × TurnLedger
unfolding scope_idempotency_key prior_turn_id record_turn_key replay_turn
append_turn turn idempotency_key audit event s =
    let key = scope_idempotency_key turn.workspace_id idempotency_key in
    elim (prior_turn_id turn.tenant_id key s) [
      | some existing_id ↦ (replay_turn existing_id s, s)
      | none ↦ (
        ok (turn, true),
        record {
          turns = Dict.put turn.id turn s.turns;
          turn_idempotency = record_turn_key turn.tenant_id key turn.id s.turn_idempotency;
          memory = publish_if_given event (append_audit_if_given audit s.memory);
        },
      )
    ]

abbrev pub turn_of : ℕ → Option ConversationTurn → Option ConversationTurn
turn_of tenant_id none = none
turn_of tenant_id (some turn) = if turn.tenant_id == tenant_id then some turn else none

-- `get_turn`
unfoldable pub get_turn : ℕ → ℕ → TurnLedger → Option ConversationTurn
get_turn tenant_id turn_id s = turn_of tenant_id (Dict.get turn_id s.turns)

-- `PURGED_CONVERSATION_CONTENT`
abbrev pub purged_conversation_content : Text
purged_conversation_content = text "[PURGED_AFTER_CURATION]"

-- `{**metadata, "retention": {"raw_content": reason}}`
unfoldable pub with_retention : Text → Metadata → Metadata
with_retention reason metadata =
    Dict.put (text "retention") (obj (field (text "raw_content") (str reason) end)) metadata

-- The turn that replaces a purged one. Its messages keep their roles, so the constructors accept
-- what they accepted before.
unfoldable pub purged_message : Text → ConversationMessage → ConversationMessage
purged_message reason message = record {
  role = message.role;
  content = purged_conversation_content;
  name = message.name;
  metadata = with_retention reason message.metadata;
}

unfoldable pub purged_turn : Text → ConversationTurn → ConversationTurn
purged_turn reason turn = record {
  tenant_id = turn.tenant_id;
  workspace_id = turn.workspace_id;
  thread_id = turn.thread_id;
  messages = map (purged_message reason) turn.messages;
  id = turn.id;
  namespace = turn.namespace;
  agent_id = turn.agent_id;
  source_kind = turn.source_kind;
  retention_policy = turn.retention_policy;
  metadata = with_retention reason turn.metadata;
  created_at = turn.created_at;
  expires_at = turn.expires_at;
}

-- `_purge_turn_content`
unfoldable pub purge_with_reason : ℕ → ℕ → Text → TurnLedger → Bool × TurnLedger
purge_with_reason tenant_id turn_id reason s = elim (get_turn tenant_id turn_id s) [
  | none ↦ (false, s)
  | some turn ↦ (
    true,
    record {
      turns = Dict.put turn_id (purged_turn reason turn) s.turns;
      turn_idempotency = s.turn_idempotency;
      memory = s.memory;
    },
  )
]

-- `purge_turn_content`
unfoldable pub purge_turn_content : ℕ → ℕ → TurnLedger → Bool × TurnLedger
unfolding purge_with_reason
purge_turn_content tenant_id turn_id s =
    purge_with_reason tenant_id turn_id (text "purged_after_curation") s
