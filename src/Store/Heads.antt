-- ===== src/Store/Heads.antt =====
-- The revision chains of the ledger: `_latest_descendant`, `is_recallable_head` and
-- `filter_recallable_heads` of adapters/in_memory.py.
pub mod Descent
use universal_agent_memory.Prelude.{
  ℕ, zero, suc, Bool, true, false, not, ◌&&◌, ◌||◌, Option, none, some, List, ltb, ◌==◌, nat_eq,
  option_eq, length, any, find?, filter,
}
use universal_agent_memory.Dict.{values}
use universal_agent_memory.Domain.Kinds.{status_eq, rejected, archived}
use universal_agent_memory.Domain.Memory.{MemoryItem}
use universal_agent_memory.Store.{MemoryStore, get}

-- The test of the loop in `_latest_descendant`.
abbrev pub is_newer_child : ℕ → MemoryItem → MemoryItem → Bool
is_newer_child tenant_id head candidate =
    candidate.tenant_id == tenant_id
    && candidate.supersedes_id == some head.id
    && ltb head.revision candidate.revision

-- One round of the loop: the first newer child, where the inner loop breaks.
unfoldable pub newer_child : ℕ → MemoryItem → List MemoryItem → Option MemoryItem
newer_child tenant_id head items = find? (is_newer_child tenant_id head) items

-- `while changed`, with fuel for the rounds.
unfoldable pub descend : ℕ → ℕ → List MemoryItem → MemoryItem → MemoryItem
descend zero tenant_id items head = head
descend (suc fuel) tenant_id items head = elim (newer_child tenant_id head items) [
  | none ↦ head
  | some candidate ↦ descend fuel tenant_id items candidate
]

-- `_latest_descendant`: each round moves to a greater revision, so no more rounds are made than
-- there are items.
unfoldable pub latest_descendant : MemoryItem → MemoryStore → MemoryItem
latest_descendant item s = descend (length s.items) item.tenant_id (values s.items) item

abbrev pub is_tombstone : MemoryItem → Bool
is_tombstone item = item.status == rejected || item.status == archived

abbrev pub is_child_of : ℕ → ℕ → MemoryItem → Bool
is_child_of tenant_id item_id candidate =
    candidate.tenant_id == tenant_id && candidate.supersedes_id == some item_id

-- `is_recallable_head`
unfoldable pub is_recallable_head : ℕ → ℕ → MemoryStore → Bool
is_recallable_head tenant_id item_id s = elim (get tenant_id item_id s) [
  | none ↦ false
  | some item ↦
      not (is_tombstone item) && not (any (is_child_of tenant_id item_id) (values s.items))
]

-- `filter_recallable_heads`
unfoldable pub filter_recallable_heads : ℕ → List ℕ → MemoryStore → List ℕ
filter_recallable_heads tenant_id item_ids s =
    filter (λ item_id. is_recallable_head tenant_id item_id s) item_ids
