-- ===== src/Retrieval/Total.antt =====
-- Proofs on when `recall` of services/retrieval.py returns.
use universal_agent_memory.Prelude.{
  ℕ, suc, ◌+◌, ◌≤◌, ◌≡◌, refl, ap, ◌∙◌, inl, inr, Bool, true, false, not, List, [], ◌∷◌, ◌++◌, map,
  arith, list_eq, nat_eq, length, take, count, sum_by, All, length-take, score_leb,
  length-filter-le, count-le-length,
}
use universal_agent_memory.Text.{Text}
use universal_agent_memory.Sorting.{sort, length-sort}
use universal_agent_memory.Dict.{Dict, values, length-values}
use universal_agent_memory.Domain.Errors.{ok}
use universal_agent_memory.Context.{Candidate}
use universal_agent_memory.Retrieval.Fusion.{Floats, fuse}
use universal_agent_memory.Retrieval.Trace.{
  trace_error_type, trace_post_init, failure_step, success_step, fusion_step,
}
use universal_agent_memory.Retrieval.Sources.{
  RecallQuery, Search, found, raised, CandidateSource, SourceHealth, RetrievalService, is_required,
}
use universal_agent_memory.Retrieval.Groups.{is_admitted, group_all}
use universal_agent_memory.Retrieval.{
  Progress, after_failure, after_success, search_source, search_all, not_behind, ranked,
  RecallResult, select_ranked, index_freshness, stale_of, no_progress, recall,
}
use universal_agent_memory.Retrieval.Filter.{
  search_source-raised, search_source-found, search_all-ok,
}
use universal_agent_memory.Retrieval.Telemetry.{
  length-group_all, trace_name-IsBounded, trace_error_type-IsBounded, post_init-ok,
  trace_if_room-ok,
}

abbrev pub is_available : RetrievalService → RecallQuery → CandidateSource → Bool
is_available self query source = elim (source.search query) [
  | found candidates ↦ true
  | raised error_type ↦ not (is_required self source.name)
]

-- How many candidates the source returns.
abbrev pub offered : RecallQuery → CandidateSource → ℕ
offered query source = elim (source.search query) [
  | found candidates ↦ length candidates
  | raised e ↦ 0
]

-- The loop is still in the bounds of its telemetry.
abbrev IsInBounds : ℕ → Progress → Type 0
IsInBounds candidates p = (length p.traversal ≤ 63) × (length p.grouped ≤ candidates)

after_failure-ok :
    (self : RetrievalService) (name error_type : Text) (candidates : ℕ) (p : Progress)
    → is_required self name ≡ false
    → IsInBounds candidates p
    → (next : Progress) × (after_failure self name error_type p ≡ ok next)
      × IsInBounds candidates next
unfolding after_failure
after_failure-ok self name error_type candidates p free (h, k) =
    let step = failure_step name error_type (length p.traversal + 1) in
    let (t, e, room) = trace_if_room-ok step p.traversal h (λ b.
      post_init-ok step (omega arith) b (trace_name-IsBounded name) (omega arith) (omega arith)
        (omega arith)
        (inr (trace_error_type error_type, refl, trace_error_type-IsBounded error_type))) in
    (record p { traversal = t }, rw (e, free) refl, (room, k))

after_success-ok :
    (query : RecallQuery) (name : Text) (cs : List Candidate) (candidates : ℕ) (p : Progress)
    → length cs ≤ 1000000
    → IsInBounds candidates p
    → (next : Progress) × (after_success query name cs p ≡ ok next)
      × IsInBounds (candidates + length cs) next
unfolding after_success
after_success-ok query name cs candidates p few (h, k) =
    let step =
      success_step name (length cs) (count (is_admitted query) cs) (length p.traversal + 1) in
    let accepted = count-le-length (is_admitted query) cs in
    let (t, e, room) = trace_if_room-ok step p.traversal h (λ b.
      post_init-ok step (omega arith) b (trace_name-IsBounded name) few
        (omega (arith, accepted, few)) (omega arith) (inl refl)) in
    (
      record {
        grouped = group_all query cs p.grouped;
        used = p.used ++ (name ∷ []);
        traversal = t;
      },
      rw e refl,
      (room, omega (arith, length-group_all query cs p.grouped, k)),
    )

search_source-ok :
    (self : RetrievalService) (query : RecallQuery) (source : CandidateSource) (candidates : ℕ)
    (p : Progress) (health : Dict Text SourceHealth)
    → is_available self query source ≡ true
    → offered query source ≤ 1000000
    → IsInBounds candidates p
    → (next : Progress) × ((search_source self query source p health).0 ≡ ok next)
      × IsInBounds (candidates + offered query source) next
search_source-ok self query source candidates p health available few h =
    by_search (source.search query) refl
  where
    by_search :
        (x : Search)
        → source.search query ≡ x
        → (next : Progress) × ((search_source self query source p health).0 ≡ ok next)
          × IsInBounds (candidates + offered query source) next
    by_search (raised error_type) s =
        let free : is_required self source.name ≡ false = ground (arith, available, s) in
        let (next, e, (b, c)) = after_failure-ok self source.name error_type candidates p free h in
        (
          next,
          ap (λ r. r.0) (search_source-raised self query source p health s) ∙ e,
          (b, omega (arith, c)),
        )
    by_search (found cs) s =
        let number : offered query source ≡ length cs = rw (s, offered) refl in
        let (next, e, (b, c)) =
          after_success-ok query source.name cs candidates p (omega (arith, number, few)) h in
        (
          next,
          ap (λ r. r.0) (search_source-found self query source p health s) ∙ e,
          (b, omega (arith, c, number)),
        )

search_all-total :
    (self : RetrievalService) (query : RecallQuery) (sources : List CandidateSource)
    (candidates : ℕ) (p : Progress) (health : Dict Text SourceHealth)
    → All (λ source. is_available self query source ≡ true) sources
    → candidates + sum_by (offered query) sources ≤ 1000000
    → IsInBounds candidates p
    → (last : Progress) × ((search_all self query sources p health).0 ≡ ok last)
      × IsInBounds 1000000 last
search_all-total self query [] candidates p health available few (h, k) =
    (p, unfold search_all in refl, (h, omega (arith, k, few)))
search_all-total self query (source ∷ sources) candidates p health available few h =
    let (next, e, b) =
      search_source-ok self query source candidates p health available.0 (omega (arith, few)) h in
    let (last, f, c) =
      search_all-total self query sources (candidates + offered query source) next
        (search_source self query source p health).1 available.1 (omega (arith, few)) b in
    (last, ap (λ r. r.0) (search_all-ok self query source p health sources e) ∙ f, c)

length-map {ℓ κ} :
    {A : Type ℓ} {B : Type κ} (f : A → B) (xs : List A) → length (map f xs) ≡ length xs
length-map f [] = refl
length-map f (x ∷ xs) = ap suc (length-map f xs)

select_ranked-total :
    (floats : Floats) (self : RetrievalService) (now : ℕ) (query : RecallQuery) (p : Progress)
    → IsInBounds 1000000 p
    → (result : RecallResult) × (select_ranked floats self now query p ≡ ok result)
unfolding select_ranked ranked
select_ranked-total floats self now query p (h, k) =
    let groups = values p.grouped in
    let all = map (λ g. fuse floats self.weights now g.first g.others) groups in
    let rows = ranked floats self.weights now query groups in
    let selected = take query.top_k (sort not_behind rows) in
    let step =
      fusion_step (length p.traversal + 1) (length p.grouped) (length rows) (length selected) in
    let few : length rows ≤ 1000000 = omega (
      arith,
      length-filter-le (λ row. score_leb query.minimum_score row.final_score) all,
      length-map (λ g. fuse floats self.weights now g.first g.others) groups,
      length-values p.grouped,
      k,
    ) in
    let fewer : length selected ≤ 1000000 =
      omega
        (arith, length-take query.top_k (sort not_behind rows), length-sort not_behind rows, few) in
    let fine : trace_post_init step ≡ ok step =
      post_init-ok step (omega arith) (omega (arith, h)) (omega arith, omega arith) k few fewer
        (inl refl) in
    let freshness = index_freshness self query in
    let result : RecallResult = record {
      candidates = selected;
      sources_used = p.used;
      index_stale = stale_of freshness;
      index_freshness = freshness;
      traversal = p.traversal ++ (step ∷ []);
    } in
    (result, rw fine refl)

-- `recall` returns a result whenever each source that the service requires returns, as long as the
-- sources return no more than a million candidates in all, however many sources there are: the
-- bounds of the telemetry are never what makes it fail.
pub recall_total :
    (floats : Floats) (self : RetrievalService) (now : ℕ) (query : RecallQuery)
    (health : Dict Text SourceHealth)
    → All (λ source. is_available self query source ≡ true) self.sources
    → sum_by (offered query) self.sources ≤ 1000000
    → (result : RecallResult) × ((recall floats self now query health).0 ≡ ok result)
unfolding recall
recall_total floats self now query health available few =
    let (p, e, b) =
      search_all-total self query self.sources 0 no_progress health available (omega (arith, few))
        (omega arith, omega arith) in
    let (result, f) = select_ranked-total floats self now query p b in (result, rw e f)
