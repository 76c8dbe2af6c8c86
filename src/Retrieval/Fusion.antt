-- ===== src/Retrieval/Fusion.antt =====
-- The fusion of one item's candidates: `_fuse`, `_status_multiplier` and `_recency` of
-- services/retrieval.py. The machine's multiplication and addition of floats and its powers of a
-- half are parameters.
use universal_agent_memory.Prelude.{
  ℕ, ◌-◌, ◌||◌, List, [], ◌∷◌, ◌++◌, map, any, if◌then◌else◌, ◌==◌, nat_eq, list_eq, Score, pos,
  score_max, score_min,
}
use universal_agent_memory.Text.{Text}
use universal_agent_memory.Sorting.{sort}
use universal_agent_memory.Domain.Kinds.{
  MemoryStatus, status_eq, pinned, disputed, hypothesis, stale, deprecated,
}
use universal_agent_memory.Context.{Candidate}
use universal_agent_memory.Privacy.{text_leb}

pub record Floats : Type 0 where
  pub multiply : Score → Score → Score
  pub add : Score → Score → Score
  -- `0.5 ** (days / 30.0)`, of an age in units of time
  pub half_life : ℕ → Score

pub record Weights : Type 0 where
  pub semantic : Score
  pub lexical : Score
  pub entity : Score
  pub recency : Score
  pub importance : Score
  pub trust : Score

-- `DEFAULT_WEIGHTS`
abbrev pub default_weights : Weights
default_weights = record {
  semantic = pos 350000;
  lexical = pos 200000;
  entity = pos 150000;
  recency = pos 100000;
  importance = pos 100000;
  trust = pos 100000;
}

-- `_status_multiplier`
unfoldable pub status_multiplier : MemoryStatus → Score
status_multiplier status =
    if status == pinned
    then pos 1150000
    else if status == disputed || status == hypothesis
    then pos 550000
    else if status == stale || status == deprecated
    then pos 350000
    else pos 1000000

-- `_recency`, at the time `now`
unfoldable pub recency_of : Floats → ℕ → ℕ → Score
recency_of floats now created_at = floats.half_life (now - created_at)

-- `max(f(row) for row in candidates)`, of the first candidate and the others
unfoldable pub max_of : (Candidate → Score) → Candidate → List Candidate → Score
max_of f first [] = f first
max_of f first (row ∷ rows) = score_max (f first) (max_of f row rows)

-- `{row.source for row in candidates}`, without the repetitions
unfoldable pub distinct_texts : List Text → List Text
distinct_texts [] = []
distinct_texts (t ∷ ts) =
    let rest = distinct_texts ts in if any (λ u. u == t) ts then rest else t ∷ rest

-- `"+".join(texts)`
unfoldable pub join_plus : List Text → Text
join_plus [] = []
join_plus (t ∷ []) = t
join_plus (t ∷ u ∷ ts) = t ++ (b'+' ∷ join_plus (u ∷ ts))

-- The strongest recency and trust of one item's candidates.
abbrev pub best_recency : Floats → ℕ → Candidate → List Candidate → Score
best_recency floats now first others =
    max_of (λ row. score_max row.recency (recency_of floats now first.item.created_at)) first others

abbrev pub best_trust : Candidate → List Candidate → Score
best_trust first others = max_of (λ row. score_max row.trust first.item.confidence) first others

-- `score` of `_fuse`, with its multiplier
unfoldable pub weighted_score : Floats → Weights → ℕ → Candidate → List Candidate → Score
weighted_score floats weights now first others =
    let term = floats.multiply in
    let plus = floats.add in
    let signals =
      plus
        (plus
          (plus (term weights.semantic (max_of (λ row. row.semantic) first others))
            (term weights.lexical (max_of (λ row. row.lexical) first others)))
          (term weights.entity (max_of (λ row. row.entity) first others)))
        (term weights.recency (best_recency floats now first others)) in
    term
      (plus (plus signals (term weights.importance first.item.importance))
        (term weights.trust (best_trust first others)))
      (status_multiplier first.item.status)

-- `_fuse`, of a list that is not empty
unfoldable pub fuse : Floats → Weights → ℕ → Candidate → List Candidate → Candidate
fuse floats weights now first others =
    let sources = distinct_texts (map (λ row. row.source) (first ∷ others)) in
    record first {
      source = join_plus (sort text_leb sources);
      semantic = max_of (λ row. row.semantic) first others;
      lexical = max_of (λ row. row.lexical) first others;
      entity = max_of (λ row. row.entity) first others;
      recency = best_recency floats now first others;
      trust = best_trust first others;
      final_score = score_min (pos 1000000) (weighted_score floats weights now first others);
    }
