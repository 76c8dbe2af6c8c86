-- ===== src/Retrieval/Trace.antt =====
-- The trace of a retrieval and the freshness of its index: contracts/dto.py, `_trace_name` and
-- `_trace_error_type` of services/retrieval.py.
use universal_agent_memory.Prelude.{
  ℕ, Bool, false, not, ◌&&◌, ◌||◌, Option, none, some, List, [], ◌∷◌, ◌++◌, ltb, leb, if◌then◌else◌,
  ◌==◌, nat_eq, list_eq, option_eq, length, take,
}
use universal_agent_memory.Text.{Text, text, strip}
use universal_agent_memory.Domain.Errors.{Result, ok, value_error, raise_if, ◌>>=◌, ◌>>◌}
use universal_agent_memory.Domain.Kinds.{status_eq, scope_eq}

pub record IndexFreshness : Type 0 where
  pub active_memory_count : ℕ
  pub stale_memory_count : ℕ
  pub unpublished_memory_count : ℕ
  pub processing_memory_count : ℕ
  pub dead_letter_memory_count : ℕ
  pub missing_delivery_memory_count : ℕ

-- `IndexFreshness.stale`
unfoldable pub is_stale : IndexFreshness → Bool
is_stale self = ltb 0 self.stale_memory_count

pub data Stage : Type 0 where
  source_stage fusion_stage : Stage

pub data StepStatus : Type 0 where
  succeeded degraded : StepStatus

pub record RetrievalTraceStep : Type 0 where
  pub sequence : ℕ
  pub stage : Stage
  pub name : Text
  pub status : StepStatus
  pub candidate_count : ℕ
  pub accepted_count : ℕ
  pub selected_count : ℕ
  pub error_type : Option Text

abbrev pub bad_error_type : Option Text → Bool
bad_error_type none = false
bad_error_type (some name) = name == [] || ltb 128 (length name)

-- `RetrievalTraceStep.__post_init__`; the stage and the status are in their sets by their types.
unfoldable pub trace_post_init : RetrievalTraceStep → Result RetrievalTraceStep
trace_post_init self = do
  raise_if (not (leb 1 self.sequence && leb self.sequence 64))
      (value_error "retrieval trace sequence must be between 1 and 64")
  raise_if (self.name == [] || ltb 64 (length self.name))
      (value_error "retrieval trace name must contain between 1 and 64 characters")
  raise_if (ltb 1000000 self.candidate_count)
      (value_error "candidate_count must be between 0 and 1000000")
  raise_if (ltb 1000000 self.accepted_count)
      (value_error "accepted_count must be between 0 and 1000000")
  raise_if (ltb 1000000 self.selected_count)
      (value_error "selected_count must be between 0 and 1000000")
  raise_if (bad_error_type self.error_type)
      (value_error "retrieval trace error_type must be between 1 and 128 characters")
  ok self

-- `_trace_name` and `_trace_error_type`
abbrev pub or_text : Text → Text → Text
or_text [] other = other
or_text (c ∷ s) other = c ∷ s

unfoldable pub trace_name : Text → Text
trace_name value = or_text (take 64 (strip value)) (text "unknown-source")

unfoldable pub trace_error_type : Text → Text
trace_error_type value = or_text (take 128 (strip value)) (text "DependencyError")

-- `if len(traversal) < 63: traversal.append(RetrievalTraceStep(…))`
unfoldable pub trace_if_room :
    RetrievalTraceStep → List RetrievalTraceStep → Result (List RetrievalTraceStep)
trace_if_room step traversal =
    if ltb (length traversal) 63
    then (do checked ← trace_post_init step; ok (traversal ++ (checked ∷ [])))
    else ok traversal

abbrev pub failure_step : Text → Text → ℕ → RetrievalTraceStep
failure_step name error_type sequence = record {
  sequence = sequence;
  stage = source_stage;
  name = trace_name name;
  status = degraded;
  candidate_count = 0;
  accepted_count = 0;
  selected_count = 0;
  error_type = some (trace_error_type error_type);
}

abbrev pub success_step : Text → ℕ → ℕ → ℕ → RetrievalTraceStep
success_step name candidates accepted sequence = record {
  sequence = sequence;
  stage = source_stage;
  name = trace_name name;
  status = succeeded;
  candidate_count = candidates;
  accepted_count = accepted;
  selected_count = 0;
  error_type = none;
}

abbrev pub fusion_step : ℕ → ℕ → ℕ → ℕ → RetrievalTraceStep
fusion_step sequence groups ranked selected = record {
  sequence = sequence;
  stage = fusion_stage;
  name = text "weighted-fusion";
  status = succeeded;
  candidate_count = groups;
  accepted_count = ranked;
  selected_count = selected;
  error_type = none;
}
