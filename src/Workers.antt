-- ===== src/Workers.antt =====
-- The liveness of workers: domain/worker.py, and `record_worker_heartbeat` and `worker_readiness`
-- of adapters/in_memory.py. `str.lower` is a parameter; the check that the times have a zone has no
-- counterpart, since times are numbers.
pub mod Ready
use universal_agent_memory.Prelude.{
  ℕ, ◌+◌, ◌-◌, Bool, true, false, not, ◌&&◌, ◌||◌, List, [], ◌∷◌, map, ltb, leb, if◌then◌else◌,
  ◌==◌, nat_eq, list_eq, pair_eq, length, filter, any, all, count,
}
use universal_agent_memory.Text.{Text, text, strip, is_blank}
use universal_agent_memory.Dict
use universal_agent_memory.Dict.{Dict, values}
use universal_agent_memory.Domain.Errors.{Result, ok, value_error, raise_if, ◌>>=◌, ◌>>◌}

pub record WorkerHeartbeat : Type 0 where
  pub tenant_id : ℕ
  pub worker_kind : Text
  pub worker_id : Text
  pub started_at : ℕ
  pub last_seen_at : ℕ
  pub status : Text

-- `WorkerHeartbeat.__post_init__`
unfoldable pub heartbeat_post_init : (Text → Text) → WorkerHeartbeat → Result WorkerHeartbeat
heartbeat_post_init lower self =
    let kind = lower (strip self.worker_kind) in
    let worker_id = strip self.worker_id in
    do
      raise_if (kind == [] || ltb 64 (length kind))
          (value_error "worker_kind must contain between 1 and 64 characters")
      raise_if (worker_id == [] || ltb 128 (length worker_id))
          (value_error "worker_id must contain between 1 and 128 characters")
      raise_if (not (self.status == text "running" || self.status == text "stopping"))
          (value_error "worker heartbeat status must be running or stopping")
      ok (record self { worker_kind = kind; worker_id = worker_id })

pub record WorkerKindReadiness : Type 0 where
  pub worker_kind : Text
  pub fresh_instances : ℕ
  pub stale_instances : ℕ

-- `WorkerKindReadiness.ready`
unfoldable pub kind_ready : WorkerKindReadiness → Bool
kind_ready self = ltb 0 self.fresh_instances

pub record WorkerReadiness : Type 0 where
  pub required : List WorkerKindReadiness
  pub observed_at : ℕ

-- `WorkerReadiness.ready`
unfoldable pub workers_ready : WorkerReadiness → Bool
unfolding kind_ready
workers_ready self = all kind_ready self.required

-- `missing_kinds`
unfoldable pub missing_kinds : WorkerReadiness → List Text
missing_kinds self =
    map (λ row. row.worker_kind)
      (filter (λ row. row.fresh_instances == 0 && row.stale_instances == 0) self.required)

-- `stale_kinds`
unfoldable pub stale_kinds : WorkerReadiness → List Text
stale_kinds self =
    map (λ row. row.worker_kind)
      (filter (λ row. row.fresh_instances == 0 && ltb 0 row.stale_instances) self.required)

-- The kind and the identity of a worker.
abbrev pub WorkerName : Type 0
WorkerName = Text × Text

-- `self._worker_heartbeats`
abbrev pub Heartbeats : Type 0
Heartbeats = Dict (ℕ × WorkerName) WorkerHeartbeat

-- `record_worker_heartbeat`
unfoldable pub record_worker_heartbeat : WorkerHeartbeat → Heartbeats → WorkerHeartbeat × Heartbeats
record_worker_heartbeat heartbeat rows =
    let name : WorkerName = (heartbeat.worker_kind, heartbeat.worker_id) in
    (heartbeat, Dict.put (heartbeat.tenant_id, name) heartbeat rows)

-- `row.status == "running" and row.last_seen_at >= cutoff`
abbrev pub is_fresh : ℕ → WorkerHeartbeat → Bool
is_fresh cutoff row = row.status == text "running" && leb cutoff row.last_seen_at

-- One round of the loop over the kinds.
unfoldable pub readiness_of : ℕ → List WorkerHeartbeat → Text → WorkerKindReadiness
readiness_of cutoff rows kind =
    let matching = filter (λ row. row.worker_kind == kind) rows in
    let fresh = count (is_fresh cutoff) matching in
    record {
      worker_kind = kind;
      fresh_instances = fresh;
      stale_instances = length matching - fresh;
    }

-- `worker_readiness`, at the time `now`; `now - stale_after_seconds` is taken as a time from 0 on.
unfoldable pub worker_readiness : ℕ → List Text → ℕ → ℕ → Heartbeats → WorkerReadiness
unfolding readiness_of
worker_readiness tenant_id required_kinds stale_after_seconds now heartbeats =
    let cutoff = now - stale_after_seconds in
    let rows =
      filter
        (λ row. row.tenant_id == tenant_id && any (λ kind. kind == row.worker_kind) required_kinds)
        (values heartbeats) in
    record { required = map (readiness_of cutoff rows) required_kinds; observed_at = now }
