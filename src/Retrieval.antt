-- ===== src/Retrieval.antt =====
-- Hybrid retrieval: services/retrieval.py, with the query, the trace and the result of
-- contracts/dto.py.
pub mod Trace
pub mod Sources
pub mod Groups
pub mod Fusion
pub mod Filter
pub mod Order
pub mod Rank
pub mod Telemetry
pub mod Total
use universal_agent_memory.Prelude.{
  ℕ, ◌+◌, Bool, true, false, not, ◌&&◌, ◌||◌, Option, none, some, List, [], ◌∷◌, ◌++◌, map, ltb,
  leb, if◌then◌else◌, ◌==◌, nat_eq, list_eq, option_eq, length, take, filter, any, count, sum_by,
  Score, pos, score_leb,
}
use universal_agent_memory.Text.{Text, text, strip, is_blank}
use universal_agent_memory.Sorting.{sort}
use universal_agent_memory.Dict
use universal_agent_memory.Dict.{Dict, values}
use universal_agent_memory.Domain.Errors.{
  Error, Result, ok, err, value_error, dependency_error, raise_if, ◌>>=◌, ◌>>◌,
}
use universal_agent_memory.Domain.Kinds.{
  MemoryLayer, status_eq, scope_eq, rejected, archived, private, thread,
}
use universal_agent_memory.Domain.Memory.{is_valid_at}
use universal_agent_memory.Context.{Candidate}
use universal_agent_memory.Turns.{is_empty_list}
use Trace.{
  IndexFreshness, is_stale, RetrievalTraceStep, trace_post_init, trace_if_room, failure_step,
  success_step, fusion_step,
}
use Sources.{
  RecallQuery, Search, found, raised, CandidateSource, SourceHealth, Staleness, flag, detail,
  failed, RetrievalService, is_required, record_success, record_failure,
}
use Groups.{is_admitted, Group, group_all}
use Fusion.{Floats, Weights, fuse}

pub record RecallResult : Type 0 where
  pub candidates : List Candidate
  pub sources_used : List Text
  pub index_stale : Bool
  pub index_freshness : Option IndexFreshness
  pub traversal : List RetrievalTraceStep

-- The variables of the outer loop.
pub record Progress : Type 0 where
  pub grouped : Dict ℕ Group
  pub used : List Text
  pub traversal : List RetrievalTraceStep

-- The `except` branch, without `record_failure`.
unfoldable pub after_failure : RetrievalService → Text → Text → Progress → Result Progress
unfolding trace_if_room
after_failure self name error_type p = do
  traversal ← trace_if_room (failure_step name error_type (length p.traversal + 1)) p.traversal
  raise_if (is_required self name) (dependency_error error_type)
  ok (record p { traversal = traversal })

-- What follows a search that returned, without `record_success`.
unfoldable pub after_success : RecallQuery → Text → List Candidate → Progress → Result Progress
unfolding trace_if_room
after_success query name candidates p =
    let accepted = count (is_admitted query) candidates in
    do
      traversal ←
          trace_if_room (success_step name (length candidates) accepted (length p.traversal + 1))
            p.traversal
      ok (record {
        grouped = group_all query candidates p.grouped;
        used = p.used ++ (name ∷ []);
        traversal = traversal;
      })

-- One round of the outer loop.
unfoldable pub search_source :
    RetrievalService
    → RecallQuery
    → CandidateSource
    → Progress
    → Dict Text SourceHealth
    → Result Progress × Dict Text SourceHealth
search_source self query source p health = elim (source.search query) [
  | raised error_type ↦ (
    after_failure self source.name error_type p,
    record_failure self source.name error_type health,
  )
  | found candidates ↦
      (after_success query source.name candidates p, record_success source.name health)
]

-- The outer loop.
unfoldable pub search_all :
    RetrievalService
    → RecallQuery
    → List CandidateSource
    → Progress
    → Dict Text SourceHealth
    → Result Progress × Dict Text SourceHealth
search_all self query [] p health = (ok p, health)
search_all self query (source ∷ sources) p health =
    let round = search_source self query source p health in
    elim (round.0) [
      | err e ↦ (err e, round.1)
      | ok next ↦ search_all self query sources next round.1
    ]

-- The sort key `(final_score, item.created_at)`, in reverse
unfoldable pub not_behind : Candidate → Candidate → Bool
not_behind a b =
    not (score_leb a.final_score b.final_score)
    || (score_leb b.final_score a.final_score && leb b.item.created_at a.item.created_at)

-- `[row for row in ranked if row.final_score >= query.minimum_score]`, of the fused groups
unfoldable pub ranked : Floats → Weights → ℕ → RecallQuery → List Group → List Candidate
ranked floats weights now query groups =
    filter (λ row. score_leb query.minimum_score row.final_score)
      (map (λ g. fuse floats weights now g.first g.others) groups)

-- `_index_freshness`
unfoldable pub freshness_of : Staleness → IndexFreshness
freshness_of (flag stale) = record {
  active_memory_count = 0;
  stale_memory_count = if stale then 1 else 0;
  unpublished_memory_count = 0;
  processing_memory_count = 0;
  dead_letter_memory_count = 0;
  missing_delivery_memory_count = 0;
}
freshness_of (detail freshness) = freshness
freshness_of failed = record {
  active_memory_count = 0;
  stale_memory_count = 1;
  unpublished_memory_count = 0;
  processing_memory_count = 0;
  dead_letter_memory_count = 0;
  missing_delivery_memory_count = 1;
}

unfoldable pub index_freshness : RetrievalService → RecallQuery → Option IndexFreshness
index_freshness self query = elim (self.staleness_check) [
  | none ↦ none
  | some check ↦ some (freshness_of (check query))
]

unfoldable pub stale_of : Option IndexFreshness → Bool
unfolding is_stale
stale_of none = false
stale_of (some freshness) = is_stale freshness

-- What follows the outer loop.
unfoldable pub select_ranked :
    Floats → RetrievalService → ℕ → RecallQuery → Progress → Result RecallResult
select_ranked floats self now query p =
    let rows = ranked floats self.weights now query (values p.grouped) in
    let selected = take query.top_k (sort not_behind rows) in
    let freshness = index_freshness self query in
    do
      step ←
          trace_post_init (
            fusion_step (length p.traversal + 1) (length p.grouped) (length rows) (length selected))
      ok (record {
        candidates = selected;
        sources_used = p.used;
        index_stale = stale_of freshness;
        index_freshness = freshness;
        traversal = p.traversal ++ (step ∷ []);
      })

abbrev pub no_progress : Progress
no_progress = record { grouped = []; used = []; traversal = [] }

-- `recall`, at the time `now`, with the health of the sources that it leaves
unfoldable pub recall :
    Floats
    → RetrievalService
    → ℕ
    → RecallQuery
    → Dict Text SourceHealth
    → Result RecallResult × Dict Text SourceHealth
recall floats self now query health =
    let searched = search_all self query self.sources no_progress health in
    ((do p ← searched.0; select_ranked floats self now query p), searched.1)

-- The checks of `RetrievalService.__init__`. The sum of the weights may be off by 1e-9, which is
-- less than a millionth.
unfoldable pub retrieval_init : Floats → RetrievalService → Result RetrievalService
retrieval_init floats self =
    let w = self.weights in
    let plus = floats.add in
    let sum =
      plus (plus (plus (plus (plus w.semantic w.lexical) w.entity) w.recency) w.importance)
        w.trust in
    do
      raise_if (is_empty_list self.sources)
          (value_error "at least one candidate source is required")
      raise_if (not (score_leb sum (pos 1000000) && score_leb (pos 1000000) sum))
          (value_error "retrieval weights must sum to 1.0")
      ok self
