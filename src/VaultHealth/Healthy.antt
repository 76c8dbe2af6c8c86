-- ===== src/VaultHealth/Healthy.antt =====
-- Proofs on when a vault is healthy.
use universal_agent_memory.Prelude.{
  ℕ, ◌+◌, ◌≡◌, refl, ap, ◌∙◌, Bool, true, false, ◌&&◌, none, some, List, [], ◌∷◌, ◌++◌, map, arith,
  ◌==◌, nat_eq, all, count,
}
use universal_agent_memory.Text.{Text}
use universal_agent_memory.Sorting.{sort, insert}
use universal_agent_memory.Dict
use universal_agent_memory.Dict.{Dict, values}
use universal_agent_memory.Domain.Memory.{MemoryItem}
use universal_agent_memory.Store.{MemoryStore}
use universal_agent_memory.Graph.{MemoryEdge}
use universal_agent_memory.VaultHealth.{
  Observation, VaultHealthIssue, is_error, error_count, healthy, by_id, is_known, chain_issues_of,
  chain_issues, edge_issues_of, edge_issues, evidence_issues, observation_issues, unlinked_issue,
  issue_not_after, inspect,
}

count-append :
    {A : Type 0} (p : A → Bool) (xs ys : List A) → count p (xs ++ ys) ≡ count p xs + count p ys
count-append p [] ys = omega arith
count-append p (x ∷ xs) ys = omega (arith, count-append p xs ys)

count-insert :
    {A : Type 0} (le : A → A → Bool) (p : A → Bool) (x : A) (xs : List A)
    → count p (insert le x xs) ≡ count p (x ∷ xs)
unfolding insert
count-insert le p x [] = refl
count-insert le p x (y ∷ ys) = ground (arith, count-insert le p x ys)

count-sort :
    {A : Type 0} (le : A → A → Bool) (p : A → Bool) (xs : List A)
    → count p (sort le xs) ≡ count p xs
unfolding sort
count-sort le p [] = refl
count-sort le p (x ∷ xs) = omega (arith, count-insert le p x (sort le xs), count-sort le p xs)

-- A revision names a parent that is there and is numbered next to it.
abbrev pub follows_parent : Dict ℕ MemoryItem → MemoryItem → Bool
follows_parent items item = elim (item.supersedes_id) [
  | none ↦ true
  | some parent_id ↦ elim (Dict.get parent_id items) [
    | none ↦ false
    | some parent ↦ item.revision == parent.revision + 1
  ]
]

-- An edge names endpoints, and a provenance if any, that are there.
abbrev pub names_known : Dict ℕ MemoryItem → MemoryEdge → Bool
names_known items edge =
    is_known items edge.src_id
    && is_known items edge.dst_id
    && elim (edge.provenance_item_id) [ none ↦ true | some id ↦ is_known items id ]

chain-healthy :
    (found : Dict ℕ MemoryItem) (items : List MemoryItem)
    → (count is_error (chain_issues found items) == 0) ≡ all (follows_parent found) items
unfolding chain_issues chain_issues_of
chain-healthy found [] = refl
chain-healthy found (item ∷ items) = ground (
  arith,
  chain-healthy found items,
  count-append is_error (chain_issues_of found item) (chain_issues found items),
)

edges-healthy :
    (found : Dict ℕ MemoryItem) (edges : List MemoryEdge)
    → (count is_error (edge_issues found edges) == 0) ≡ all (names_known found) edges
unfolding edge_issues edge_issues_of
edges-healthy found [] = refl
edges-healthy found (edge ∷ edges) = ground (
  arith,
  edges-healthy found edges,
  count-append is_error (edge_issues_of found edge) (edge_issues found edges),
)

evidence-healthy :
    (found : Dict ℕ MemoryItem) (id : ℕ) (ids : List ℕ)
    → (count is_error (evidence_issues found id ids) == 0) ≡ all (is_known found) ids
unfolding evidence_issues
evidence-healthy found id [] = refl
evidence-healthy found id (e ∷ ids) = ground (arith, evidence-healthy found id ids)

observations-healthy :
    (found : Dict ℕ MemoryItem) (os : List Observation)
    → (count is_error (observation_issues found os) == 0)
      ≡ all (λ o. all (is_known found) o.evidence_ids) os
unfolding observation_issues
observations-healthy found [] = refl
observations-healthy found (o ∷ os) = ground (
  arith,
  observations-healthy found os,
  evidence-healthy found o.id o.evidence_ids,
  count-append is_error (evidence_issues found o.id o.evidence_ids) (observation_issues found os),
)

warnings-healthy : (items : List MemoryItem) → count is_error (map unlinked_issue items) ≡ 0
warnings-healthy [] = refl
warnings-healthy (i ∷ items) = omega (arith, warnings-healthy items)

-- The counts of four lists of issues, the last without errors.
parts-healthy :
    (ws xs ys zs : List VaultHealthIssue)
    → count is_error zs ≡ 0
    → (count is_error (ws ++ (xs ++ (ys ++ zs))) == 0)
      ≡ ((count is_error ws == 0) && ((count is_error xs == 0) && (count is_error ys == 0)))
parts-healthy ws xs ys zs none_there = ground (
  arith,
  none_there,
  count-append is_error ws (xs ++ (ys ++ zs)),
  count-append is_error xs (ys ++ zs),
  count-append is_error ys zs,
)

-- The report calls a vault healthy exactly when every revision among its items follows a parent
-- that is there, every edge names endpoints and a provenance that are there, and every observation
-- names evidence that is there; memories without a link never matter.
pub healthy_iff :
    (text_of_id : ℕ → Text) (tenant_id workspace_id : ℕ) (items : List MemoryItem)
    (observations : List Observation) (edges : List MemoryEdge) (s : MemoryStore)
    → let found = by_id [] items in
      healthy (inspect text_of_id tenant_id workspace_id items observations edges s) ≡ (
        all (follows_parent found) (values found)
        && (all (names_known found) edges
            && all (λ o. all (is_known found) o.evidence_ids) observations))
unfolding healthy error_count inspect
healthy_iff text_of_id tenant_id workspace_id items observations edges s =
    let found = by_id [] items in
    ap (λ n. n == 0) (count-sort (issue_not_after text_of_id) is_error _)
    ∙ parts-healthy (chain_issues found (values found)) (edge_issues found edges)
        (observation_issues found observations) _ (warnings-healthy _)
    ∙ rw
        (
          chain-healthy found (values found),
          edges-healthy found edges,
          observations-healthy found observations,
        )
        refl
