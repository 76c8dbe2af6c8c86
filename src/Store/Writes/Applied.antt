-- ===== src/Store/Writes/Applied.antt =====
-- What the checks of `apply_conflict_resolution` in adapters/in_memory.py have found, and what its
-- writes have stored, told apart from the loops that do it.
use universal_agent_memory.Prelude.{
  ℕ, ◌≡◌, refl, ◌∙◌, inl, inr, not, ◌||◌, Option, none, some, List, [], ◌∷◌, arith, nat_eq, ◌==◌,
  if◌then◌else◌, Option-cases, All,
}
use universal_agent_memory.Dict
use universal_agent_memory.Dict.{get-put}
use universal_agent_memory.Domain.Errors.{ok, raise_if-eq-ok, Result-cases}
use universal_agent_memory.Domain.Memory.{MemoryItem}
use universal_agent_memory.Domain.Records.{ConflictReviewDecision}
use universal_agent_memory.Store.{MemoryStore, get}
use universal_agent_memory.Store.Heads.{latest_descendant}
use universal_agent_memory.Store.Writes.{
  Write, check_current, check_write, check_writes, apply_writes,
}
use universal_agent_memory.Store.Writes.Cas.{check_current-ok}

-- A write that passes: its item is in the decision's scope and names a stored parent, which is its
-- own latest descendant and has the expected revision.
pub record IsCurrent (decision : ConflictReviewDecision) (s : MemoryStore) (w : Write)
    : Type 0 where
  pub parent : MemoryItem
  pub parent_id : ℕ
  pub in_tenant : w.0.tenant_id ≡ decision.tenant_id
  pub in_workspace : w.0.workspace_id ≡ decision.workspace_id
  pub names_parent : w.0.supersedes_id ≡ some parent_id
  pub has_parent : get w.0.tenant_id parent_id s ≡ some parent
  pub is_head : (latest_descendant parent s).id ≡ parent.id
  pub has_revision : parent.revision ≡ w.2

-- The last write to an identity.
abbrev pub last_write : ℕ → List Write → Option MemoryItem
last_write id [] = none
last_write id (w ∷ ws) = elim (last_write id ws) [
  | some item ↦ some item
  | none ↦ if w.0.id == id then some w.0 else none
]

abbrev pub or_stored : Option MemoryItem → Option MemoryItem → Option MemoryItem
or_stored none stored = stored
or_stored (some item) stored = some item

pub apply_writes-items :
    (ws : List Write) (s : MemoryStore) (id : ℕ)
    → Dict.get id (apply_writes ws s).items ≡ or_stored (last_write id ws) (Dict.get id s.items)
unfolding apply_writes
apply_writes-items [] s id = refl
apply_writes-items ((item, event, expected) ∷ ws) s id =
    apply_writes-items ws _ id ∙ elim (Option-cases (last_write id ws)) [
      | inr (x, p) ↦ rw p
      | inl p ↦ rw (p, get-put item.id id item s.items) (ground arith)
    ]

pub check_write-IsCurrent :
    (decision : ConflictReviewDecision) (w : Write) (s : MemoryStore) (q : MemoryItem)
    → check_write decision w s ≡ ok q
    → IsCurrent decision s w
unfolding check_write
check_write-IsCurrent decision (item, event, expected) s q h =
    let (scope, rest) =
      raise_if-eq-ok
        (not (item.tenant_id == decision.tenant_id)
          || not (item.workspace_id == decision.workspace_id))
        _ _ h in
    elim (Option-cases item.supersedes_id) [
      | inl p ↦ absurd (ground (arith, p, rest))
      | inr (i, p) ↦
          let passed : check_current item.tenant_id i expected "conflict evidence memory not found"
                s
              ≡ ok q =
            ground (arith, p, rest) in
          let (found, revision, head) =
            check_current-ok item.tenant_id i expected "conflict evidence memory not found" s
              passed in
          record {
            parent = q;
            parent_id = i;
            in_tenant = ground (arith, scope);
            in_workspace = ground (arith, scope);
            names_parent = p;
            has_parent = found;
            is_head = head;
            has_revision = revision;
          }
    ]

pub check_writes-IsCurrent :
    (decision : ConflictReviewDecision) (ws : List Write) (s : MemoryStore)
    → check_writes decision ws s ≡ ok tt
    → All (IsCurrent decision s) ws
unfolding check_writes
check_writes-IsCurrent decision [] s h = tt
check_writes-IsCurrent decision (w ∷ ws) s h = elim (Result-cases (check_write decision w s)) [
  | inr (q, p) ↦ (
    check_write-IsCurrent decision w s q p,
    check_writes-IsCurrent decision ws s (ground (arith, p, h)),
  )
  | inl (e, p) ↦ absurd (ground (arith, p, h))
]
