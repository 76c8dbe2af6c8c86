-- ===== src/Store/Trail/Shape.antt =====
-- Proofs on the shape of the ledger of adapters/in_memory.py over runs.
use universal_agent_memory.Prelude.{
  ℕ, ◌≡◌, refl, sym, ap, inl, inr, Option, none, some, List, [], ◌∷◌, nat_eq, Option-cases,
}
use mathlib.Core.Path.{subst}
use universal_agent_memory.Text.{Text}
use universal_agent_memory.Domain.Errors.{Result, ok, err}
use universal_agent_memory.Domain.Memory.{MemoryItem}
use universal_agent_memory.Domain.Records.{IntegrationEvent, AuditEvent, ConflictReviewDecision}
use universal_agent_memory.Store.{
  MemoryStore, ScopedKey, empty, prior_id, scope_idempotency_key, append_audit_if_given, retain,
}
use universal_agent_memory.Store.Writes.{
  Write, commit_item, check_current, check_writes, supersede_checked, supersede_if_current,
  apply_writes, resolve_checked, settled, apply_conflict_resolution,
}
use universal_agent_memory.Store.Writes.Ledger.{IsLedger, items-commit_item, put-IsLedger}
use universal_agent_memory.Store.Replays.{retain-new, retain-answered}
use universal_agent_memory.Store.Writes.Supersede.{supersede-new, supersede-old, supersede-orphan}
use universal_agent_memory.Store.Writes.Resolution.{review, resolution-settled, resolution-open}
use universal_agent_memory.Store.Trail.{Step, Reach, retained, superseded, resolved, here, next}

commit_item-IsLedger :
    (item : MemoryItem) (key : Option ScopedKey) (event : IntegrationEvent)
    (audit : Option AuditEvent) (s : MemoryStore)
    → IsLedger s
    → IsLedger (commit_item item key event audit s)
commit_item-IsLedger item key event audit s w =
    put-IsLedger item s _ (items-commit_item item key event audit s) w

retain-IsLedger :
    (item : MemoryItem) (event : IntegrationEvent) (key : Option Text) (audit : Option AuditEvent)
    (s : MemoryStore)
    → IsLedger s
    → IsLedger (retain item event key audit s).1
retain-IsLedger item event key audit s w =
    elim (Option-cases (prior_id item.tenant_id (scope_idempotency_key item.workspace_id key) s)) [
      | inl p ↦ rw (ap (λ r. r.1) (retain-new item event audit s key p)) (
          unfold commit_item in
          commit_item-IsLedger item (scope_idempotency_key item.workspace_id key) event audit s w)
      | inr (id, p) ↦
          subst (λ r. IsLedger r.1) (sym (retain-answered item event key audit s id p)) w
    ]

checked-IsLedger :
    (item : MemoryItem) (key : Option ScopedKey) (event : IntegrationEvent)
    (audit : Option AuditEvent) (c : Result MemoryItem) (s : MemoryStore)
    → IsLedger s
    → IsLedger (supersede_checked item key event audit c s).1
unfolding supersede_checked
checked-IsLedger item key event audit (err e) s w = w
checked-IsLedger item key event audit (ok q) s w = commit_item-IsLedger item key event audit s w

supersede-IsLedger :
    (item : MemoryItem) (event : IntegrationEvent) (expected : ℕ) (key : Option Text)
    (audit : Option AuditEvent) (s : MemoryStore)
    → IsLedger s
    → IsLedger (supersede_if_current item event expected key audit s).1
supersede-IsLedger item event expected key audit s w = elim (Option-cases item.supersedes_id) [
  | inl n ↦ subst (λ r. IsLedger r.1) (sym (supersede-orphan item event expected key audit s n)) w
  | inr (pid, link) ↦
      elim (Option-cases
        (prior_id item.tenant_id (scope_idempotency_key item.workspace_id key) s)) [
          | inl p ↦
              subst (λ r. IsLedger r.1)
                (sym (supersede-new item event expected key audit s pid link p))
                (checked-IsLedger item (scope_idempotency_key item.workspace_id key) event audit
                  (check_current item.tenant_id pid expected "memory item not found" s) s w)
          | inr (id, p) ↦
              subst (λ r. IsLedger r.1)
                (sym (supersede-old item event expected key audit s pid link id p)) w
        ]
]

apply_writes-IsLedger :
    (ws : List Write) (s : MemoryStore) → IsLedger s → IsLedger (apply_writes ws s)
unfolding apply_writes
apply_writes-IsLedger [] s w = w
apply_writes-IsLedger ((item, event, n) ∷ ws) s w =
    apply_writes-IsLedger ws _ (put-IsLedger item s _ refl w)

same_items-IsLedger : (s t : MemoryStore) → t.items ≡ s.items → IsLedger s → IsLedger t
same_items-IsLedger s t p w = record { distinct = rw p w.distinct; own_key = rw p w.own_key }

resolved-IsLedger :
    (d : ConflictReviewDecision) (ws : List Write) (audit : Option AuditEvent)
    (c : Result (Unit {0})) (s : MemoryStore)
    → IsLedger s
    → IsLedger (resolve_checked d ws audit c s).1
unfolding resolve_checked
resolved-IsLedger d ws audit (err e) s w = w
resolved-IsLedger d ws audit (ok u) s w =
    same_items-IsLedger (apply_writes ws s) _ (items_of_audit audit _)
      (apply_writes-IsLedger ws s w)
  where
    items_of_audit :
        (audit : Option AuditEvent) (s : MemoryStore)
        → (append_audit_if_given audit s).items ≡ s.items
    items_of_audit none s = unfold append_audit_if_given in refl
    items_of_audit (some a) s = unfold append_audit_if_given in refl

resolution-IsLedger :
    (d : ConflictReviewDecision) (ws : List Write) (audit : Option AuditEvent) (s : MemoryStore)
    → IsLedger s
    → IsLedger (apply_conflict_resolution d ws audit s).1
resolution-IsLedger d ws audit s w = elim (Option-cases (settled (review d ws audit s) d)) [
  | inl p ↦
      subst (λ r. IsLedger r.1) (sym (resolution-open d ws audit s p))
        (resolved-IsLedger d ws audit (check_writes d ws s) s w)
  | inr (answer, p) ↦ subst (λ r. IsLedger r.1) (sym (resolution-settled d ws audit s answer p)) w
]

Step-IsLedger : {s t : MemoryStore} → Step s t → IsLedger s → IsLedger t
Step-IsLedger {s} (retained item event key audit f) w = retain-IsLedger item event key audit s w
Step-IsLedger {s} (superseded item event n key audit f) w =
    supersede-IsLedger item event n key audit s w
Step-IsLedger {s} (resolved d ws audit f) w = resolution-IsLedger d ws audit s w

run-IsLedger : {s t : MemoryStore} → Reach s t → IsLedger s → IsLedger t
run-IsLedger here w = w
run-IsLedger (next r st) w = Step-IsLedger st (run-IsLedger r w)

-- Whatever retains, revisions and conflict resolutions with fresh item identities run from the
-- empty store, failed calls included, every item of the ledger is stored once and under its own
-- identity.
pub Reach-IsLedger : {s : MemoryStore} → Reach empty s → IsLedger s
Reach-IsLedger r = run-IsLedger r (record { distinct = tt; own_key = tt })
