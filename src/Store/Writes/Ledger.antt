-- ===== src/Store/Writes/Ledger.antt =====
-- The shape of the ledger of adapters/in_memory.py: the identities and keys of its items.
use universal_agent_memory.Prelude.{◌≡◌, sym, Option, none, some, nat_eq, All, In}
use universal_agent_memory.Dict
use universal_agent_memory.Dict.{values, HasDistinctKeys, put-HasDistinctKeys, All-put, get-of-In}
use universal_agent_memory.Domain.Memory.{MemoryItem}
use universal_agent_memory.Domain.Records.{IntegrationEvent, AuditEvent}
use universal_agent_memory.Store.{MemoryStore, ScopedKey, store_item}
use universal_agent_memory.Store.Writes.{commit_item}
use universal_agent_memory.Store.Replays.{items-after}

pub record IsLedger (s : MemoryStore) : Type 0 where
  pub distinct : HasDistinctKeys s.items
  pub own_key : All (λ e. e.1.id ≡ e.0) s.items

pub items-commit_item :
    (item : MemoryItem) (key : Option ScopedKey) (event : IntegrationEvent)
    (audit : Option AuditEvent) (s : MemoryStore)
    → (commit_item item key event audit s).items ≡ Dict.put item.id item s.items
unfolding commit_item
items-commit_item item none event audit s = items-after event audit (store_item item none s)
items-commit_item item (some key) event audit s =
    items-after event audit (store_item item (some key) s)

pub put-IsLedger :
    (item : MemoryItem) (s t : MemoryStore)
    → t.items ≡ Dict.put item.id item s.items
    → IsLedger s
    → IsLedger t
put-IsLedger item s t p w = record {
  distinct = rw p (put-HasDistinctKeys item.id item s.items w.distinct);
  own_key = rw p (All-put (λ e. e.1.id ≡ e.0) item.id item s.items (λ j q. sym q) w.own_key);
}

-- An item of the ledger is what its identity finds.
pub get-of-item :
    (s : MemoryStore) (item : MemoryItem)
    → IsLedger s
    → In item (values s.items)
    → Dict.get item.id s.items ≡ some item
get-of-item s item w m = get-of-In (λ (i : MemoryItem). i.id) s.items w.distinct w.own_key m
