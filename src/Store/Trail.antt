-- ===== src/Store/Trail.antt =====
-- Runs of the ledger of adapters/in_memory.py: the calls as steps, and proofs on what stays.
pub mod Growth
pub mod Shape
use universal_agent_memory.Prelude.{
  ℕ, ◌≡◌, Option, none, some, List, ◌++◌, nat_eq, pair_eq, list_eq,
}
use universal_agent_memory.Text.{Text}
use universal_agent_memory.Dict
use universal_agent_memory.Domain.Memory.{MemoryItem}
use universal_agent_memory.Domain.Records.{IntegrationEvent, AuditEvent, ConflictReviewDecision}
use universal_agent_memory.Store.{MemoryStore, ScopedKey, retain}
use universal_agent_memory.Store.Writes.{Write, supersede_if_current, apply_conflict_resolution}
use universal_agent_memory.Store.Trail.Growth.{
  Extends, Extends-refl, Extends-trans, FreshWrites, retain-Extends, supersede-Extends,
  resolution-Extends,
}

-- One call on the ledger, with fresh identities for new items; it may succeed or raise.
pub data Step (s : MemoryStore) : MemoryStore → Type 0 where
  retained :
      (item : MemoryItem) (event : IntegrationEvent) (key : Option Text) (audit : Option AuditEvent)
      → Dict.get item.id s.items ≡ none
      → Step s (retain item event key audit s).1
  superseded :
      (item : MemoryItem) (event : IntegrationEvent) (expected : ℕ) (key : Option Text)
      (audit : Option AuditEvent)
      → Dict.get item.id s.items ≡ none
      → Step s (supersede_if_current item event expected key audit s).1
  resolved :
      (d : ConflictReviewDecision) (ws : List Write) (audit : Option AuditEvent)
      → FreshWrites ws s.items
      → Step s (apply_conflict_resolution d ws audit s).1

pub data Reach (s : MemoryStore) : MemoryStore → Type 0 where
  here : Reach s s
  next : {t u : MemoryStore} → Reach s t → Step t u → Reach s u

Step-Extends : {s t : MemoryStore} → Step s t → Extends s t
Step-Extends {s} (retained item event key audit f) = retain-Extends item event key audit s f
Step-Extends {s} (superseded item event n key audit f) =
    supersede-Extends item event n key audit s f
Step-Extends {s} (resolved d ws audit f) = resolution-Extends d ws audit s f

Reach-Extends : {s t : MemoryStore} → Reach s t → Extends s t
Reach-Extends {s} here = Extends-refl s
Reach-Extends {s} (next {t = t} {u = u} r st) =
    Extends-trans s t u (Reach-Extends r) (Step-Extends st)

-- In every run of retains, revisions and conflict resolutions with fresh item identities, failed
-- calls included, a stored item is never lost or changed: a revision leaves its parent as it was.
pub Reach-items :
    {s t : MemoryStore} (i : ℕ) (item : MemoryItem)
    → Reach s t
    → Dict.get i s.items ≡ some item
    → Dict.get i t.items ≡ some item
Reach-items i item r h = (Reach-Extends r).items i item h

-- In every such run an idempotency key that has stored an item names that item for good.
pub Reach-keys :
    {s t : MemoryStore} (key : ℕ × ScopedKey) (i : ℕ)
    → Reach s t
    → Dict.get key s.idempotency ≡ some i
    → Dict.get key t.idempotency ≡ some i
Reach-keys key i r h = (Reach-Extends r).keys key i h

-- In every such run an audit record is never lost or overwritten.
pub Reach-audits :
    {s t : MemoryStore} (i : ℕ) (audit : AuditEvent)
    → Reach s t
    → Dict.get i s.audit_events ≡ some audit
    → Dict.get i t.audit_events ≡ some audit
Reach-audits i audit r h = (Reach-Extends r).audits i audit h

-- In every such run the outbox only grows, at its end.
pub Reach-events :
    {s t : MemoryStore} → Reach s t → (more : List IntegrationEvent) × (t.events ≡ s.events ++ more)
Reach-events r = (Reach-Extends r).outbox
