-- ===== src/VaultHealth.antt =====
-- The integrity report of a workspace: services/vault_health.py, with Observation of
-- domain/models.py. The texts of identities are a parameter; the messages of the issues are left
-- out, since each code has one message.
pub mod Healthy
use universal_agent_memory.Prelude.{
  ℕ, ◌+◌, Bool, true, false, not, ◌&&◌, ◌||◌, Option, none, some, List, [], ◌∷◌, ◌++◌, map, eqb,
  if◌then◌else◌, ◌==◌, nat_eq, list_eq, filter, any, length, count, Score,
}
use universal_agent_memory.Text.{Text, text, is_blank}
use universal_agent_memory.Sorting.{sort}
use universal_agent_memory.Dict
use universal_agent_memory.Dict.{Dict, values}
use universal_agent_memory.Domain.Errors.{Result, ok, value_error, raise_if, ◌>>=◌, ◌>>◌}
use universal_agent_memory.Domain.Memory.{MemoryItem}
use universal_agent_memory.Store.{MemoryStore}
use universal_agent_memory.Store.Heads.{is_recallable_head, is_tombstone}
use universal_agent_memory.Turns.{is_empty_list}
use universal_agent_memory.Graph.{MemoryEdge}
use universal_agent_memory.Privacy.{text_leb}

pub record Observation : Type 0 where
  pub tenant_id : ℕ
  pub workspace_id : ℕ
  pub summary : Text
  pub evidence_ids : List ℕ
  pub id : ℕ
  pub confidence : Score
  pub stale : Bool
  pub created_at : ℕ

-- `Observation.__post_init__`
unfoldable pub observation_post_init : Observation → Result Observation
observation_post_init self = do
  raise_if (is_blank self.summary) (value_error "observation summary must not be empty")
  raise_if (is_empty_list self.evidence_ids)
      (value_error "observation requires at least one evidence item")
  ok self

pub data Severity : Type 0 where
  severe warning : Severity

pub record VaultHealthIssue : Type 0 where
  pub severity : Severity
  pub code : Text
  pub item_id : Option ℕ
  pub edge_id : Option ℕ
  pub observation_id : Option ℕ

abbrev pub issue : Severity → Text → VaultHealthIssue
issue severity code = record {
  severity = severity;
  code = code;
  item_id = none;
  edge_id = none;
  observation_id = none;
}

pub record VaultHealthReport : Type 0 where
  pub tenant_id : ℕ
  pub workspace_id : ℕ
  pub memory_count : ℕ
  pub edge_count : ℕ
  pub observation_count : ℕ
  pub recallable_head_count : ℕ
  pub unlinked_head_count : ℕ
  pub issues : List VaultHealthIssue

abbrev pub is_error : VaultHealthIssue → Bool
is_error issue = elim (issue.severity) [ severe ↦ true | warning ↦ false ]

-- `error_count`, `warning_count` and `healthy`
unfoldable pub error_count : VaultHealthReport → ℕ
error_count self = count is_error self.issues

unfoldable pub warning_count : VaultHealthReport → ℕ
warning_count self = count (λ i. not (is_error i)) self.issues

unfoldable pub healthy : VaultHealthReport → Bool
unfolding error_count
healthy self = error_count self == 0

-- `{item.id: item for item in items}`
unfoldable pub by_id : Dict ℕ MemoryItem → List MemoryItem → Dict ℕ MemoryItem
by_id found [] = found
by_id found (item ∷ items) = by_id (Dict.put item.id item found) items

-- `item_id in items_by_id`
unfoldable pub is_known : Dict ℕ MemoryItem → ℕ → Bool
is_known items_by_id item_id = elim (Dict.get item_id items_by_id) [
  | none ↦ false
  | some item ↦ true
]

-- One round of `_check_revision_chains`.
unfoldable pub chain_issues_of : Dict ℕ MemoryItem → MemoryItem → List VaultHealthIssue
chain_issues_of items_by_id item = elim (item.supersedes_id) [
  | none ↦ []
  | some parent_id ↦ elim (Dict.get parent_id items_by_id) [
    | none ↦ record (issue severe (text "missing_revision_parent")) { item_id = some item.id } ∷ []
    | some parent ↦
        if item.revision == parent.revision + 1
        then []
        else record (issue severe (text "invalid_revision_sequence")) { item_id = some item.id }
          ∷ []
  ]
]

-- `_check_revision_chains`
unfoldable pub chain_issues : Dict ℕ MemoryItem → List MemoryItem → List VaultHealthIssue
unfolding chain_issues_of
chain_issues items_by_id [] = []
chain_issues items_by_id (item ∷ items) =
    chain_issues_of items_by_id item ++ chain_issues items_by_id items

-- `edge.provenance_item_id is not None and edge.provenance_item_id not in items_by_id`
abbrev pub lacks_provenance : Dict ℕ MemoryItem → MemoryEdge → Bool
lacks_provenance items_by_id edge = elim (edge.provenance_item_id) [
  | none ↦ false
  | some id ↦ not (is_known items_by_id id)
]

abbrev pub has_endpoints : Dict ℕ MemoryItem → MemoryEdge → Bool
has_endpoints items_by_id edge =
    is_known items_by_id edge.src_id && is_known items_by_id edge.dst_id

-- One round of `_check_edges`.
unfoldable pub edge_issues_of : Dict ℕ MemoryItem → MemoryEdge → List VaultHealthIssue
edge_issues_of items_by_id edge = elim (has_endpoints items_by_id edge) [
  | false ↦ record (issue severe (text "broken_graph_endpoint")) { edge_id = some edge.id } ∷ []
  | true ↦
      if lacks_provenance items_by_id edge
      then record (issue severe (text "missing_graph_provenance")) { edge_id = some edge.id } ∷ []
      else []
]

-- `_check_edges`: its issues, and the identities that it returns.
unfoldable pub edge_issues : Dict ℕ MemoryItem → List MemoryEdge → List VaultHealthIssue
unfolding edge_issues_of
edge_issues items_by_id [] = []
edge_issues items_by_id (edge ∷ edges) =
    edge_issues_of items_by_id edge ++ edge_issues items_by_id edges

unfoldable pub edge_links : Dict ℕ MemoryItem → List MemoryEdge → List ℕ
edge_links items_by_id [] = []
edge_links items_by_id (edge ∷ edges) =
    let rest = edge_links items_by_id edges in
    if has_endpoints items_by_id edge then edge.src_id ∷ edge.dst_id ∷ rest else rest

-- The inner loop of `_check_observations`: its issues, and the identities that it adds.
unfoldable pub evidence_issues : Dict ℕ MemoryItem → ℕ → List ℕ → List VaultHealthIssue
evidence_issues items_by_id observation_id [] = []
evidence_issues items_by_id observation_id (id ∷ ids) =
    let rest = evidence_issues items_by_id observation_id ids in
    if is_known items_by_id id
    then rest
    else record (issue severe (text "missing_observation_evidence")) {
      observation_id = some observation_id;
    }
      ∷ rest

-- `_check_observations`
unfoldable pub observation_issues : Dict ℕ MemoryItem → List Observation → List VaultHealthIssue
unfolding evidence_issues
observation_issues items_by_id [] = []
observation_issues items_by_id (o ∷ os) =
    evidence_issues items_by_id o.id o.evidence_ids ++ observation_issues items_by_id os

unfoldable pub observation_links : Dict ℕ MemoryItem → List Observation → List ℕ
observation_links items_by_id [] = []
observation_links items_by_id (o ∷ os) =
    (if o.stale then [] else filter (is_known items_by_id) o.evidence_ids)
    ++ observation_links items_by_id os

abbrev pub unlinked_issue : MemoryItem → VaultHealthIssue
unlinked_issue item = record (issue warning (text "unlinked_memory_head")) {
  item_id = some item.id;
}

-- `str(issue.item_id or issue.edge_id or issue.observation_id or "")`
unfoldable pub subject : (ℕ → Text) → VaultHealthIssue → Text
subject text_of_id issue = elim (issue.item_id) [
  | some id ↦ text_of_id id
  | none ↦ elim (issue.edge_id) [
    | some id ↦ text_of_id id
    | none ↦ elim (issue.observation_id) [ some id ↦ text_of_id id | none ↦ [] ]
  ]
]

-- The sort key of the issues.
unfoldable pub issue_not_after : (ℕ → Text) → VaultHealthIssue → VaultHealthIssue → Bool
unfolding subject
issue_not_after text_of_id a b =
    (is_error a && not (is_error b))
    || (not (is_error b && not (is_error a))
        && (not (text_leb b.code a.code)
            || (a.code == b.code && text_leb (subject text_of_id a) (subject text_of_id b))))

-- `inspect`, of the items, the observations and the edges of the workspace
unfoldable pub inspect :
    (ℕ → Text)
    → ℕ
    → ℕ
    → List MemoryItem
    → List Observation
    → List MemoryEdge
    → MemoryStore
    → VaultHealthReport
inspect text_of_id tenant_id workspace_id items observations edges s =
    let items_by_id = by_id [] items in
    let linked = edge_links items_by_id edges ++ observation_links items_by_id observations in
    let heads = filter (λ i. is_recallable_head tenant_id i.id s && not (is_tombstone i)) items in
    let unlinked = filter (λ i. not (any (λ id. id == i.id) linked)) heads in
    let issues =
      chain_issues items_by_id (values items_by_id)
      ++ (edge_issues items_by_id edges
          ++ (observation_issues items_by_id observations ++ map unlinked_issue unlinked)) in
    record {
      tenant_id = tenant_id;
      workspace_id = workspace_id;
      memory_count = length items;
      edge_count = length edges;
      observation_count = length observations;
      recallable_head_count = length heads;
      unlinked_head_count = length unlinked;
      issues = sort (issue_not_after text_of_id) issues;
    }
