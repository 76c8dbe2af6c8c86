-- ===== src/Tests/Search.antt =====
-- Examples for retrieval.
use universal_agent_memory.Prelude.{
  ◌≡◌, refl, true, none, [], ◌∷◌, arith, All, pos, nat_eq, list_eq, option_eq,
}
use universal_agent_memory.Text.{text}
use universal_agent_memory.Domain.Errors.{ok}
use universal_agent_memory.Context.{Candidate}
use universal_agent_memory.Retrieval.Fusion.{Floats, default_weights}
use universal_agent_memory.Retrieval.Sources.{
  RecallQuery, found, raised, RetrievalService, is_required,
}
use universal_agent_memory.Retrieval.{RecallResult, recall}
use universal_agent_memory.Retrieval.Rank.{IsVisible, IsRanking, recall-admits, recall-IsRanking}
use universal_agent_memory.Retrieval.Total.{is_available, recall_total}
use universal_agent_memory.Tests.Samples.{sample}

-- Stand-ins for the arithmetic of floats.
abbrev rounded : Floats
rounded = record { multiply = λ x y. x; add = λ x y. x; half_life = λ age. pos 500000 }

abbrev candidate : Candidate
candidate = record {
  item = sample 1 1 none;
  source = text "sql";
  semantic = pos 0;
  lexical = pos 800000;
  entity = pos 0;
  recency = pos 0;
  trust = pos 0;
  final_score = pos 0;
}

abbrev query : RecallQuery
query = record {
  tenant_id = 1;
  workspace_id = 2;
  text = text "tea";
  agent_id = none;
  thread_id = none;
  layers = [];
  labels = [];
  valid_at = none;
  top_k = 5;
  minimum_score = pos 0;
}

-- A source that finds the item and one that fails and is not required.
abbrev service : RetrievalService
service = record {
  sources =
      record { name = text "sql"; search = λ q. found (candidate ∷ []) }
      ∷ record { name = text "dense"; search = λ q. raised (text "TimeoutError") }
      ∷ [];
  weights = default_weights;
  required_sources = text "sql" ∷ [];
  staleness_check = none;
}

available : All (λ source. is_available service query source ≡ true) service.sources
unfolding is_required
available = (refl, (refl, tt))

total : (result : RecallResult) × ((recall rounded service 20 query []).0 ≡ ok result)
total = recall_total rounded service 20 query [] available (omega arith)

recall_total_example :
    (result : RecallResult) × ((recall rounded service 20 query []).0 ≡ ok result)
recall_total_example = recall_total rounded service 20 query [] available (omega arith)

recall-admits_example : All (λ c. IsVisible query c.item) total.0.candidates
recall-admits_example = recall-admits rounded service 20 query [] {result = total.0} total.1

recall-IsRanking_example : IsRanking query total.0.candidates
recall-IsRanking_example = recall-IsRanking rounded service 20 query [] {result = total.0} total.1
