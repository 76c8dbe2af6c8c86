-- ===== src/Tests/Samples.antt =====
-- Small items, events and rows that the examples share.
use universal_agent_memory.Prelude.{ℕ, Option, none, some, [], ◌∷◌, pos}
use universal_agent_memory.Text.{text}
use universal_agent_memory.Domain.Kinds.{semantic, workspace, active}
use universal_agent_memory.Domain.Memory.{MemoryItem, Provenance}
use universal_agent_memory.Domain.Records.{
  IntegrationEvent, AuditEvent, ConflictReviewDecision, accepted,
}
use universal_agent_memory.Outbox.{OutboxRow, OutboxRelay}

abbrev pub origin : Provenance
origin = record {
  source_kind = text "chat";
  origin_uri = none;
  object_key = none;
  checksum_sha256 = none;
  quote = none;
  extraction_version = text "v1";
}

-- An item of tenant 1 and workspace 2.
abbrev pub sample : ℕ → ℕ → Option ℕ → MemoryItem
sample id revision supersedes_id = record {
  tenant_id = 1;
  workspace_id = 2;
  layer = semantic;
  scope = workspace;
  kind = text "fact";
  text = text "tea";
  provenance = origin;
  id = id;
  agent_id = none;
  thread_id = none;
  labels = text "drink" ∷ [];
  metadata = [];
  status = active;
  importance = pos 500000;
  salience = pos 500000;
  confidence = pos 900000;
  observed_at = 10;
  valid_from = none;
  valid_to = some 100;
  created_at = 10;
  revision = revision;
  supersedes_id = supersedes_id;
}

abbrev pub happening : ℕ → IntegrationEvent
happening id = record {
  name = text "memory.retained.v1";
  tenant_id = 1;
  workspace_id = 2;
  payload = [];
  id = id;
  occurred_at = id;
  correlation_id = none;
}

abbrev pub audit : AuditEvent
audit = record {
  tenant_id = 1;
  workspace_id = some 2;
  action = text "memory.retain";
  actor = text "agent";
  actor_type = text "agent";
  resource_type = text "memory";
  resource_id = none;
  status = text "succeeded";
  metadata = [];
  id = 70;
  created_at = 10;
}

abbrev pub decision : ConflictReviewDecision
decision = record {
  tenant_id = 1;
  workspace_id = 2;
  case_id = 30;
  status = accepted;
  winner_value = some (text "tea");
  reason = text "newer";
  applied_memory_id = some 2;
  updated_at = 10;
}

-- An unpublished row that no worker holds.
abbrev pub row : ℕ → OutboxRow
row id = record {
  event = happening id;
  published_at = none;
  attempts = 0;
  lease_owner = none;
  lease_until = none;
  last_error = none;
  dead_lettered_at = none;
  available_at = 0;
}

abbrev pub relay : OutboxRelay
relay = record {
  worker_id = text "w1";
  batch_size = 10;
  lease_seconds = 60;
  max_attempts = 5;
  retry_base_seconds = 2;
  retry_max_seconds = 60;
}
