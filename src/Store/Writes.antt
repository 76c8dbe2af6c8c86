-- ===== src/Store/Writes.antt =====
-- The compare-and-swap writes of adapters/in_memory.py: `supersede_if_current` and
-- `apply_conflict_resolution`.
pub mod Ledger
pub mod Cas
pub mod Supersede
pub mod Applied
pub mod Resolution
use universal_agent_memory.Prelude.{
  ℕ, String, Bool, true, false, not, ◌&&◌, ◌||◌, Option, none, some, List, [], ◌∷◌, ◌++◌,
  if◌then◌else◌, ◌==◌, nat_eq, list_eq, option_eq, pair_eq,
}
use universal_agent_memory.Text.{Text}
use universal_agent_memory.Dict
use universal_agent_memory.Domain.Errors.{
  Result, ok, err, value_error, key_error, memory_revision_conflict, raise_if, ◌>>=◌, ◌>>◌,
}
use universal_agent_memory.Domain.Memory.{MemoryItem, is_none}
use universal_agent_memory.Domain.Records.{
  IntegrationEvent, AuditEvent, ConflictReviewDecision, review_eq,
}
use universal_agent_memory.Store.{
  MemoryStore, ScopedKey, scope_idempotency_key, publish, append_audit_if_given, prior_id, replay,
  store_item, get,
}
use universal_agent_memory.Store.Heads.{latest_descendant}

-- `child` is the latest descendant of `parent`.
unfoldable pub check_parent : ℕ → ℕ → MemoryItem → MemoryItem → Result MemoryItem
check_parent parent_id expected_revision parent child =
    if not (child.id == parent.id) || not (parent.revision == expected_revision)
    then err (memory_revision_conflict parent_id expected_revision child.revision)
    else ok parent

-- The parent must be there, be its own latest descendant, and have the expected revision. It is
-- stored under its own identity, so `parent.id` in the second caller's error is `parent_id`.
unfoldable pub check_current : ℕ → ℕ → ℕ → String → MemoryStore → Result MemoryItem
check_current tenant_id parent_id expected_revision missing s = elim (get tenant_id parent_id s) [
  | none ↦ err (key_error missing)
  | some parent ↦ check_parent parent_id expected_revision parent (latest_descendant parent s)
]

-- The writes behind the check.
unfoldable pub commit_item :
    MemoryItem → Option ScopedKey → IntegrationEvent → Option AuditEvent → MemoryStore → MemoryStore
unfolding store_item publish append_audit_if_given
commit_item item key event audit s =
    append_audit_if_given audit (publish event (store_item item key s))

-- What is left of `supersede_if_current` for a new call whose item names a parent.
unfoldable pub supersede_checked :
    MemoryItem
    → Option ScopedKey
    → IntegrationEvent
    → Option AuditEvent
    → Result MemoryItem
    → MemoryStore
    → Result (MemoryItem × Bool) × MemoryStore
supersede_checked item key event audit (err e) s = (err e, s)
supersede_checked item key event audit (ok parent) s =
    (ok (item, true), commit_item item key event audit s)

-- `supersede_if_current`
unfoldable pub supersede_if_current :
    MemoryItem
    → IntegrationEvent
    → ℕ
    → Option Text
    → Option AuditEvent
    → MemoryStore
    → Result (MemoryItem × Bool) × MemoryStore
unfolding supersede_checked
supersede_if_current item event expected_revision idempotency_key audit s =
    let key = scope_idempotency_key item.workspace_id idempotency_key in
    elim item.supersedes_id [
      | none ↦ (err (value_error "replacement item must declare supersedes_id"), s)
      | some parent_id ↦ elim (prior_id item.tenant_id key s) [
        | some existing_id ↦ (replay existing_id s, s)
        | none ↦
            supersede_checked item key event audit
              (check_current item.tenant_id parent_id expected_revision "memory item not found" s) s
      ]
    ]

-- A write of a conflict resolution: the item, its event, the expected revision of its parent.
abbrev pub Write : Type 0
Write = MemoryItem × IntegrationEvent × ℕ

-- The checks on one write.
unfoldable pub check_write : ConflictReviewDecision → Write → MemoryStore → Result MemoryItem
check_write decision (item, event, expected_revision) s = do
  raise_if
      (not (item.tenant_id == decision.tenant_id)
        || not (item.workspace_id == decision.workspace_id))
      (value_error "conflict resolution write crosses decision scope")
  elim item.supersedes_id [
    | none ↦ err (value_error "conflict resolution replacement must declare supersedes_id")
    | some parent_id ↦
        check_current item.tenant_id parent_id expected_revision
          "conflict evidence memory not found" s
  ]

-- The first loop: every write is checked against the store as it is.
unfoldable pub check_writes : ConflictReviewDecision → List Write → MemoryStore → Result (Unit {0})
check_writes decision [] s = ok tt
check_writes decision (w ∷ ws) s =
    let rest = check_writes decision ws s in check_write decision w s >>= λ _. rest

-- The second loop: items are put and events are appended, here without the test of `publish`.
unfoldable pub apply_writes : List Write → MemoryStore → MemoryStore
apply_writes [] s = s
apply_writes ((item, event, expected_revision) ∷ ws) s =
    apply_writes ws
      (record s { items = Dict.put item.id item s.items; events = s.events ++ event ∷ [] })

-- `existing` is the review that is stored for the case.
unfoldable pub is_same_resolution : ConflictReviewDecision → ConflictReviewDecision → Bool
is_same_resolution existing decision =
    existing.status == decision.status
    && existing.winner_value == decision.winner_value
    && not (is_none existing.applied_memory_id)

-- What is left of `apply_conflict_resolution` when no resolution has been applied.
unfoldable pub resolve_checked :
    ConflictReviewDecision
    → List Write
    → Option AuditEvent
    → Result (Unit {0})
    → MemoryStore
    → Result ConflictReviewDecision × MemoryStore
unfolding apply_writes append_audit_if_given
resolve_checked decision writes audit (err e) s = (err e, s)
resolve_checked decision writes audit (ok _) s =
    let t = apply_writes writes s in
    (
      ok decision,
      append_audit_if_given audit (record t {
        conflict_reviews =
            Dict.put (decision.tenant_id, decision.case_id) decision t.conflict_reviews;
      }),
    )

-- The answer that a stored review forces, if it does.
unfoldable pub settled :
    Option ConflictReviewDecision → ConflictReviewDecision → Option (Result ConflictReviewDecision)
unfolding is_same_resolution
settled none decision = none
settled (some existing) decision =
    if is_same_resolution existing decision
    then some (ok existing)
    else if not (is_none existing.applied_memory_id)
    then some (err (value_error "conflict resolution is already applied and immutable"))
    else none

-- `apply_conflict_resolution`
unfoldable pub apply_conflict_resolution :
    ConflictReviewDecision
    → List Write
    → Option AuditEvent
    → MemoryStore
    → Result ConflictReviewDecision × MemoryStore
apply_conflict_resolution decision writes audit s =
    elim (settled (Dict.get (decision.tenant_id, decision.case_id) s.conflict_reviews) decision) [
      | some answer ↦ (answer, s)
      | none ↦ resolve_checked decision writes audit (check_writes decision writes s) s
    ]
