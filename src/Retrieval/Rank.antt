-- ===== src/Retrieval/Rank.antt =====
-- Proofs on what `recall` of services/retrieval.py returns.
use universal_agent_memory.Prelude.{
  ℕ, ◌≤◌, ◌≡◌, ap, ◌∙◌, inl, inr, Bool, true, false, none, List, [], ◌∷◌, map, arith, eqb, nat_eq,
  length, take, filter, All, All-map, All-take, All-filter, All-filter_self, length-take, score_leb,
  pos,
}
use universal_agent_memory.Text.{Text}
use universal_agent_memory.Sorting.{sort, IsSorted, sort-IsSorted, All-sort}
use universal_agent_memory.AuditLog.Prune.{take-IsSorted}
use universal_agent_memory.Dict
use universal_agent_memory.Dict.{
  Dict, values, HasDistinctKeys, put-HasDistinctKeys, All-put, All-get,
}
use universal_agent_memory.Domain.Errors.{Result-cases, ok}
use universal_agent_memory.Context.{Candidate}
use universal_agent_memory.Retrieval.Fusion.{Floats, Weights, fuse}
use universal_agent_memory.Retrieval.Sources.{RecallQuery, SourceHealth, RetrievalService}
use universal_agent_memory.Retrieval.Groups.{is_admitted, Group}
use universal_agent_memory.Retrieval.{
  Progress, search_all, not_behind, ranked, RecallResult, select_ranked, no_progress, recall,
}
use universal_agent_memory.Retrieval.Groups.{valid_when, is_item_admitted}
use universal_agent_memory.Domain.Memory.{MemoryItem}
use universal_agent_memory.Domain.Kinds.{rejected, archived, private, thread}
use universal_agent_memory.Prelude.{◌≢◌, ◌⊎◌, option_beq_iff}
use universal_agent_memory.Retrieval.Filter.{HoldsGroup, AreGroups, search_all-AreGroups}
use universal_agent_memory.Retrieval.Order.{
  fuse-item, fuse-score, not_behind-total, not_behind_trans, AreDistinct, filter-AreDistinct,
  take-AreDistinct, sort-AreDistinct,
}

module _ (floats : Floats) (weights : Weights) (now : ℕ) (query : RecallQuery) where
  abbrev fused : Group → Candidate
  fused g = fuse floats weights now g.first g.others

  fused-other :
      (id : ℕ) (grouped : Dict ℕ Group)
      → Dict.get id grouped ≡ none
      → All (HoldsGroup query) grouped
      → All (λ d. eqb d.item.id id ≡ false) (map fused (values grouped))
  unfolding Dict.get fuse
  fused-other id [] h a = tt
  fused-other id ((j, g) ∷ grouped) h a =
      let (same, admitted) = a.0 in
      (ground (arith, h, same), fused-other id grouped (ground (arith, h)) a.1)

  fused-AreDistinct :
      (grouped : Dict ℕ Group) → AreGroups query grouped → AreDistinct (map fused (values grouped))
  unfolding fuse
  fused-AreDistinct [] h = tt
  fused-AreDistinct ((j, g) ∷ grouped) ((absent, d), (here, rest)) = (
    fused-other g.first.item.id grouped (ap (λ i. Dict.get i grouped) here.0 ∙ absent) rest,
    fused-AreDistinct grouped (d, rest),
  )

  fused-admitted :
      (grouped : Dict ℕ Group)
      → All (HoldsGroup query) grouped
      → All
          (λ c. (is_admitted query c ≡ true) × (score_leb c.final_score (pos 1000000) ≡ true))
          (map fused (values grouped))
  fused-admitted [] h = tt
  fused-admitted ((j, g) ∷ grouped) h = (
    (
      ap (is_item_admitted query) (fuse-item floats weights now g.first g.others) ∙ h.0.1,
      fuse-score floats weights now g.first g.others,
    ),
    fused-admitted grouped h.1,
  )

select_ranked-candidates :
    (floats : Floats) (self : RetrievalService) (now : ℕ) (query : RecallQuery) (p : Progress)
    {result : RecallResult}
    → select_ranked floats self now query p ≡ ok result
    → result.candidates
      ≡ take query.top_k (sort not_behind (ranked floats self.weights now query (values p.grouped)))
unfolding select_ranked
select_ranked-candidates floats self now query p {result} h = ground (arith, h)

recall-progress :
    (floats : Floats) (self : RetrievalService) (now : ℕ) (query : RecallQuery)
    (health : Dict Text SourceHealth) {result : RecallResult}
    → (recall floats self now query health).0 ≡ ok result
    → (p : Progress) × AreGroups query p.grouped
      × (result.candidates
          ≡ take query.top_k
              (sort not_behind (ranked floats self.weights now query (values p.grouped))))
unfolding recall
recall-progress floats self now query health {result} h =
    elim (Result-cases (search_all self query self.sources no_progress health).0) [
      | inl (r, s) ↦ absurd (ground (arith, h, s))
      | inr (p, s) ↦
          let done : select_ranked floats self now query p ≡ ok result = ground (arith, h, s) in
          (
            p,
            search_all-AreGroups self query self.sources no_progress health (tt, tt) s,
            select_ranked-candidates floats self now query p done,
          )
    ]

-- What a query may see.
abbrev pub IsVisible : RecallQuery → MemoryItem → Type 0
IsVisible query item =
    (item.tenant_id ≡ query.tenant_id)
    × (item.workspace_id ≡ query.workspace_id)
    × (valid_when query.valid_at item ≡ true)
    × (item.status ≢ rejected)
    × (item.status ≢ archived)
    × ((item.scope ≢ private) ⊎ (item.agent_id ≡ query.agent_id))
    × ((item.scope ≢ thread) ⊎ (item.thread_id ≡ query.thread_id))

is_item_admitted-IsVisible :
    (query : RecallQuery) (item : MemoryItem)
    → is_item_admitted query item ≡ true
    → IsVisible query item
unfolding is_item_admitted
is_item_admitted-IsVisible query item h = (
  ground (arith, h),
  ground (arith, h),
  ground (arith, h),
  ground (arith, h),
  ground (arith, h),
  ground (arith, h, option_beq_iff item.agent_id query.agent_id),
  ground (arith, h, option_beq_iff item.thread_id query.thread_id),
)

-- Whatever the sources return: each candidate of a result is of an item in the query's tenant and
-- workspace, valid at its time, neither rejected nor archived, and, if it is private or of a
-- thread, of the query's agent or thread.
pub recall-admits :
    (floats : Floats) (self : RetrievalService) (now : ℕ) (query : RecallQuery)
    (health : Dict Text SourceHealth) {result : RecallResult}
    → (recall floats self now query health).0 ≡ ok result
    → All (λ c. IsVisible query c.item) result.candidates
unfolding ranked
recall-admits floats self now query health {result} h =
    let (p, groups, e) = recall-progress floats self now query health h in
    let all = map (fused floats self.weights now query) (values p.grouped) in
    let kept = filter (λ row. score_leb query.minimum_score row.final_score) all in
    rw e (
      All-take _ query.top_k (sort not_behind kept) (
        All-sort not_behind _ kept (
          All-filter _ (λ row. score_leb query.minimum_score row.final_score) all
            (All-map (λ c q. is_item_admitted-IsVisible query c.item q.0) all
              (fused-admitted floats self.weights now query p.grouped groups.1)))))

-- A result is a ranking: at most `top_k` candidates of different items, in descending order of
-- score and then of creation, each with a score from the query's minimum to 1.
abbrev pub IsRanking : RecallQuery → List Candidate → Type 0
IsRanking query cs =
    (length cs ≤ query.top_k)
    × AreDistinct cs
    × IsSorted not_behind cs
    × All (λ c. score_leb query.minimum_score c.final_score ≡ true) cs
    × All (λ c. score_leb c.final_score (pos 1000000) ≡ true) cs

-- Whatever the sources return, a result of `recall` has at most `top_k` candidates, of different
-- items, in descending order of score and creation, each with a score from the query's minimum to
-- 1.
pub recall-IsRanking :
    (floats : Floats) (self : RetrievalService) (now : ℕ) (query : RecallQuery)
    (health : Dict Text SourceHealth) {result : RecallResult}
    → (recall floats self now query health).0 ≡ ok result
    → IsRanking query result.candidates
unfolding ranked
recall-IsRanking floats self now query health {result} h =
    let (p, groups, e) = recall-progress floats self now query health h in
    let passes : Candidate → Bool = λ row. score_leb query.minimum_score row.final_score in
    let all = map (fused floats self.weights now query) (values p.grouped) in
    let kept = filter passes all in
    let sorted = sort not_behind kept in
    rw e (
      omega (arith, length-take query.top_k sorted),
      take-AreDistinct query.top_k sorted (
          sort-AreDistinct not_behind kept (
            filter-AreDistinct passes all
              (fused-AreDistinct floats self.weights now query p.grouped groups))),
      take-IsSorted not_behind query.top_k sorted
          (sort-IsSorted not_behind not_behind-total not_behind_trans kept),
      All-take _ query.top_k sorted (All-sort not_behind _ kept (All-filter_self passes all)),
      All-take _ query.top_k sorted (
          All-sort not_behind _ kept (
            All-filter _ passes all (
              All-map (λ c q. q.1) all
                (fused-admitted floats self.weights now query p.grouped groups.1)))),
    )
