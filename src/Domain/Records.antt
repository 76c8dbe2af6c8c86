-- ===== src/Domain/Records.antt =====
-- contracts/events.py, domain/audit.py and domain/conflict.py: the records that travel beside
-- memory items. Times and UUIDs are numbers.
use universal_agent_memory.Prelude.{
  ℕ, ◌≡◌, ◌↔◌, Bool, true, false, not, ◌||◌, Option, [], ◌∷◌, arith, eqb, if◌then◌else◌, ◌==◌, Eq,
  nat_eq, list_eq,
}
use universal_agent_memory.Text.{Text, text, is_blank}
use universal_agent_memory.Domain.Errors.{Result, ok, value_error, raise_if, ◌>>◌}
use universal_agent_memory.Domain.Json.{Metadata}

pub record IntegrationEvent : Type 0 where
  pub name : Text
  pub tenant_id : ℕ
  pub workspace_id : ℕ
  pub payload : Metadata
  pub id : ℕ
  pub occurred_at : ℕ
  pub correlation_id : Option ℕ

-- `name.rsplit(".", 1)[-1]`: what stands behind the last dot, or the whole text. `seen` is what
-- stands behind the last dot so far.
unfoldable pub last_segment : Text → Text → Text
last_segment seen [] = seen
last_segment seen (c ∷ s) = last_segment (if eqb c b'.' then s else seen) s

abbrev starts_with_v : Text → Bool
starts_with_v [] = false
starts_with_v (c ∷ s) = eqb c b'v'

-- `IntegrationEvent.__post_init__`
unfoldable pub event_post_init : IntegrationEvent → Result IntegrationEvent
unfolding last_segment
event_post_init self = do
  raise_if (not (starts_with_v (last_segment self.name self.name)))
      (value_error "event name must end in a version, e.g. memory.retained.v1")
  ok self

pub record AuditEvent : Type 0 where
  pub tenant_id : ℕ
  pub workspace_id : Option ℕ
  pub action : Text
  pub actor : Text
  pub actor_type : Text
  pub resource_type : Text
  pub resource_id : Option Text
  pub status : Text
  pub metadata : Metadata
  pub id : ℕ
  pub created_at : ℕ

-- `AuditEvent.__post_init__`
unfoldable pub audit_post_init : AuditEvent → Result AuditEvent
audit_post_init self = do
  raise_if (is_blank self.action) (value_error "audit action must not be empty")
  raise_if (is_blank self.actor) (value_error "audit actor must not be empty")
  raise_if (is_blank self.actor_type) (value_error "audit actor_type must not be empty")
  raise_if (is_blank self.resource_type) (value_error "audit resource_type must not be empty")
  raise_if
      (not (
        self.status == text "succeeded"
        || self.status == text "failed"
        || self.status == text "denied"))
      (value_error "audit status must be succeeded, failed or denied")
  ok self

pub data ConflictReviewStatus : Type 0 where
  unresolved accepted overridden dismissed : ConflictReviewStatus

abbrev review_index : ConflictReviewStatus → ℕ
review_index unresolved = 0
review_index accepted = 1
review_index overridden = 2
review_index dismissed = 3

pub review_beq_iff :
    (a b : ConflictReviewStatus) → (eqb (review_index a) (review_index b) ≡ true) ↔ (a ≡ b)
review_beq_iff a b = ground arith

instance abbrev pub review_eq : Eq ConflictReviewStatus
review_eq = record {
  equal = λ a b. eqb (review_index a) (review_index b);
  equal_iff = review_beq_iff;
}

pub record ConflictReviewDecision : Type 0 where
  pub tenant_id : ℕ
  pub workspace_id : ℕ
  pub case_id : ℕ
  pub status : ConflictReviewStatus
  pub winner_value : Option Text
  pub reason : Text
  pub applied_memory_id : Option ℕ
  pub updated_at : ℕ
