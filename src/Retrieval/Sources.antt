-- ===== src/Retrieval/Sources.antt =====
-- The query of contracts/dto.py, and the candidate sources of services/retrieval.py with their
-- health. A source and the staleness check are code of other packages or services, so they are
-- arguments: a source has what `search` gives, or the name of the type of the exception it raises.
use universal_agent_memory.Prelude.{
  ℕ, ◌+◌, Bool, not, ◌&&◌, ◌||◌, Option, none, some, List, leb, if◌then◌else◌, ◌==◌, nat_eq,
  list_eq, option_eq, any, count, sum_by, Score,
}
use universal_agent_memory.Text.{Text, text, is_blank}
use universal_agent_memory.Dict
use universal_agent_memory.Dict.{Dict, values}
use universal_agent_memory.Domain.Errors.{Result, ok, value_error, raise_if, ◌>>◌}
use universal_agent_memory.Domain.Kinds.{MemoryLayer, status_eq, scope_eq}
use universal_agent_memory.Context.{Candidate}
use universal_agent_memory.Retrieval.Fusion.{Weights}
use universal_agent_memory.Retrieval.Trace.{IndexFreshness}

pub record RecallQuery : Type 0 where
  pub tenant_id : ℕ
  pub workspace_id : ℕ
  pub text : Text
  pub agent_id : Option ℕ
  pub thread_id : Option ℕ
  pub layers : List MemoryLayer
  pub labels : List Text
  pub valid_at : Option ℕ
  pub top_k : ℕ
  pub minimum_score : Score

-- `RecallQuery.__post_init__`
unfoldable pub query_post_init : RecallQuery → Result RecallQuery
query_post_init self = do
  raise_if (is_blank self.text) (value_error "recall query must not be empty")
  raise_if (not (leb 1 self.top_k && leb self.top_k 1000))
      (value_error "top_k must be between 1 and 1000")
  ok self

-- What `source.search(query)` does.
pub data Search : Type 0 where
  found : List Candidate → Search
  raised : Text → Search

pub record CandidateSource : Type 0 where
  pub name : Text
  pub search : RecallQuery → Search

pub record SourceHealth : Type 0 where
  pub status : Text
  pub failures : ℕ
  pub error_type : Option Text

abbrev pub unknown_health : SourceHealth
unknown_health = record { status = text "unknown"; failures = 0; error_type = none }

abbrev pub health_or_unknown : Option SourceHealth → SourceHealth
health_or_unknown none = unknown_health
health_or_unknown (some state) = state

-- What the staleness check gives: a flag, a detailed answer, or an exception.
pub data Staleness : Type 0 where
  flag : Bool → Staleness
  detail : IndexFreshness → Staleness
  failed : Staleness

pub record RetrievalService : Type 0 where
  pub sources : List CandidateSource
  pub weights : Weights
  pub required_sources : List Text
  pub staleness_check : Option (RecallQuery → Staleness)

-- `source_name in self._required_sources`
unfoldable pub is_required : RetrievalService → Text → Bool
is_required self name = any (λ n. n == name) self.required_sources

-- `record_success`
unfoldable pub record_success : Text → Dict Text SourceHealth → Dict Text SourceHealth
record_success name health =
    Dict.put name
      (record (health_or_unknown (Dict.get name health)) {
        status = text "healthy";
        error_type = none;
      })
      health

-- `record_failure`
unfoldable pub record_failure :
    RetrievalService → Text → Text → Dict Text SourceHealth → Dict Text SourceHealth
record_failure self name error_type health =
    let state = health_or_unknown (Dict.get name health) in
    Dict.put name
      (record {
        status = if is_required self name then text "failed" else text "degraded";
        failures = state.failures + 1;
        error_type = some error_type;
      })
      health

-- `collect_metrics`: the failures and the number of sources that are degraded or failed
unfoldable pub collect_metrics : Dict Text SourceHealth → ℕ × ℕ
collect_metrics health = (
  sum_by (λ state. state.failures) (values health),
  count (λ state. state.status == text "degraded" || state.status == text "failed") (values health),
)
