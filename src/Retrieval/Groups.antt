-- ===== src/Retrieval/Groups.antt =====
-- The filter of the inner loop of `recall` in services/retrieval.py, and the groups it fills.
use universal_agent_memory.Prelude.{
  ℕ, Bool, true, false, not, ◌&&◌, ◌||◌, Option, none, some, List, [], ◌∷◌, ◌++◌, ◌==◌, nat_eq,
  list_eq, option_eq,
}
use universal_agent_memory.Dict
use universal_agent_memory.Dict.{Dict, values}
use universal_agent_memory.Domain.Kinds.{status_eq, scope_eq, rejected, archived, private, thread}
use universal_agent_memory.Domain.Memory.{MemoryItem, is_valid_at}
use universal_agent_memory.Context.{Candidate}
use universal_agent_memory.Retrieval.Sources.{RecallQuery}

abbrev pub valid_when : Option ℕ → MemoryItem → Bool
valid_when none item = true
valid_when (some moment) item = is_valid_at item moment

-- None of the `continue` tests of the inner loop holds for a candidate of the item.
unfoldable pub is_item_admitted : RecallQuery → MemoryItem → Bool
is_item_admitted query item =
    item.tenant_id == query.tenant_id
    && item.workspace_id == query.workspace_id
    && valid_when query.valid_at item
    && not (item.status == rejected || item.status == archived)
    && not (item.scope == private && not (item.agent_id == query.agent_id))
    && not (item.scope == thread && not (item.thread_id == query.thread_id))

abbrev pub is_admitted : RecallQuery → Candidate → Bool
is_admitted query candidate = is_item_admitted query candidate.item

-- The list of candidates under an identity of `grouped`, which is never empty.
pub record Group : Type 0 where
  pub first : Candidate
  pub others : List Candidate

unfoldable pub add_to_group : Candidate → Option Group → Group
add_to_group candidate none = record { first = candidate; others = [] }
add_to_group candidate (some group) = record group { others = group.others ++ (candidate ∷ []) }

-- `grouped[candidate.item.id].append(candidate)`
unfoldable pub group_candidate : Candidate → Dict ℕ Group → Dict ℕ Group
unfolding add_to_group
group_candidate candidate grouped =
    Dict.put candidate.item.id (add_to_group candidate (Dict.get candidate.item.id grouped)) grouped

-- The inner loop.
unfoldable pub group_all : RecallQuery → List Candidate → Dict ℕ Group → Dict ℕ Group
unfolding group_candidate
group_all query [] grouped = grouped
group_all query (c ∷ cs) grouped = elim (is_admitted query c) [
  | true ↦ group_all query cs (group_candidate c grouped)
  | false ↦ group_all query cs grouped
]
