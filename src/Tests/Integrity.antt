-- ===== src/Tests/Integrity.antt =====
-- Examples for the histories of checkpoints and for the health of a vault.
use universal_agent_memory.Prelude.{Option, some, refl, arith, nat_eq, list_eq}
use universal_agent_memory.Domain.Errors.{ok}
use universal_agent_memory.Domain.Json.{arr}
use universal_agent_memory.Retrieval.Trace.{
  RetrievalTraceStep, source_stage, degraded, trace_post_init,
}
use universal_agent_memory.Replay.Decode.{retrieval_traversal, json_of_steps}
use universal_agent_memory.Replay.RoundTrip.{retrieval_traversal-json}
use universal_agent_memory.Prelude.{ℕ, ◌≡◌, false, ◌&&◌, none, List, [], ◌∷◌, all, pos}
use universal_agent_memory.Text.{Text, text}
use universal_agent_memory.Dict.{values}
use universal_agent_memory.Checkpoints.Histories.{
  Command, saves_if_head, compacts, execute_all, promise_all, histories, execute_all-promise_all,
}
use universal_agent_memory.Graph.{MemoryEdge, supports}
use universal_agent_memory.Store.{empty}
use universal_agent_memory.VaultHealth.{Observation, by_id, is_known, healthy, inspect}
use universal_agent_memory.VaultHealth.Healthy.{follows_parent, names_known, healthy_iff}
use universal_agent_memory.Tests.Samples.{sample}
use universal_agent_memory.Tests.Checkpoint.{three, pair}

abbrev calls : List Command
calls = saves_if_head three 2 ∷ compacts 1 3 1 ∷ []

execute_all-promise_all_example :
    ((execute_all calls pair).0, histories (execute_all calls pair).1)
    ≡ promise_all calls (histories pair)
execute_all-promise_all_example = execute_all-promise_all calls pair (tt, (omega arith, tt))

abbrev edge : MemoryEdge
edge = record {
  tenant_id = 1;
  workspace_id = 2;
  src_id = 1;
  dst_id = 9;
  edge_type = supports;
  id = 50;
  weight = pos 1000000;
  valid_from = none;
  valid_to = none;
  provenance_item_id = none;
  created_at = 10;
}

abbrev belief : Observation
belief = record {
  tenant_id = 1;
  workspace_id = 2;
  summary = text "likes tea";
  evidence_ids = 1 ∷ [];
  id = 60;
  confidence = pos 700000;
  stale = false;
  created_at = 10;
}

abbrev no_text : ℕ → Text
no_text id = []

healthy_iff_example :
    healthy (inspect no_text 1 2 (sample 1 1 none ∷ []) (belief ∷ []) (edge ∷ []) empty) ≡ (
      all
        (follows_parent (by_id [] (sample 1 1 none ∷ [])))
        (values (by_id [] (sample 1 1 none ∷ [])))
      && (all (names_known (by_id [] (sample 1 1 none ∷ []))) (edge ∷ [])
          && all
              (λ o. all (is_known (by_id [] (sample 1 1 none ∷ []))) o.evidence_ids)
              (belief ∷ [])))
healthy_iff_example = healthy_iff no_text 1 2 (sample 1 1 none ∷ []) (belief ∷ []) (edge ∷ []) empty

abbrev one_step : RetrievalTraceStep
one_step = record {
  sequence = 1;
  stage = source_stage;
  name = text "sql";
  status = degraded;
  candidate_count = 0;
  accepted_count = 0;
  selected_count = 0;
  error_type = some (text "TimeoutError");
}

accepted_step : trace_post_init one_step ≡ ok one_step
unfolding trace_post_init
accepted_step = refl

abbrev no_number : Text → Option ℕ
no_number s = none

retrieval_traversal-json_example :
    retrieval_traversal no_number (some (arr (json_of_steps (one_step ∷ [])))) ≡ ok (one_step ∷ [])
retrieval_traversal-json_example =
    retrieval_traversal-json no_number (one_step ∷ []) (omega arith) (refl, tt) (accepted_step, tt)
