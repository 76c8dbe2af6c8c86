-- ===== src/Store/Writes/Cas.antt =====
-- The check of a compare-and-swap write, and what a stored revision does to its parent's chain.
use universal_agent_memory.Prelude.{
  ℕ, String, ◌<◌, ◌≡◌, ◌≢◌, sym, ap, ◌∙◌, inl, inr, true, false, Option, none, some, arith, nat_eq,
  option_eq, option_beq_iff, Option-cases, All-In, In,
}
use mathlib.Core.Path.{subst}
use universal_agent_memory.Dict
use universal_agent_memory.Dict.{values, get-put, get-put_self, In-put, In-of-put}
use universal_agent_memory.Domain.Errors.{ok, err, memory_revision_conflict, key_error}
use universal_agent_memory.Domain.Memory.{MemoryItem}
use universal_agent_memory.Domain.Records.{IntegrationEvent, AuditEvent}
use universal_agent_memory.Store.{MemoryStore, ScopedKey, get}
use universal_agent_memory.Store.Heads.{is_newer_child, latest_descendant}
use universal_agent_memory.Store.Heads.Descent.{
  latest_descendant-Descends, Descends-revision, Descends-In,
}
use universal_agent_memory.Store.Writes.{check_current, check_parent, commit_item}
use universal_agent_memory.Store.Writes.Ledger.{
  IsLedger, items-commit_item, put-IsLedger, get-of-item,
}

check_parent-ok :
    (pid expected : ℕ) (q child : MemoryItem) {parent : MemoryItem}
    → check_parent pid expected q child ≡ ok parent
    → (q ≡ parent) × (q.revision ≡ expected) × (child.id ≡ q.id)
unfolding check_parent
check_parent-ok pid expected q child e = ground arith

pub check_parent-stale :
    (pid expected : ℕ) (q child : MemoryItem)
    → child.id ≢ q.id
    → check_parent pid expected q child ≡ err (memory_revision_conflict pid expected child.revision)
unfolding check_parent
check_parent-stale pid expected q child ne = ground arith

module _ (t pid expected : ℕ) (missing : String) (s : MemoryStore) where
  pub check_current-some :
      (q : MemoryItem)
      → get t pid s ≡ some q
      → check_current t pid expected missing s ≡ check_parent pid expected q (latest_descendant q s)
  unfolding check_current
  check_current-some q p = rw (p, check_current)

  pub check_current-none :
      get t pid s ≡ none → check_current t pid expected missing s ≡ err (key_error missing)
  unfolding check_current
  check_current-none p = rw (p, check_current)

  -- A check that passes found the parent under the tenant, at the expected revision and as its own
  -- latest descendant.
  pub check_current-ok :
      {parent : MemoryItem}
      → check_current t pid expected missing s ≡ ok parent
      → (get t pid s ≡ some parent)
        × (parent.revision ≡ expected)
        × ((latest_descendant parent s).id ≡ parent.id)
  check_current-ok {parent} e = elim (Option-cases (get t pid s)) [
    | inl p ↦ absurd (cc (check_current-none p, e))
    | inr (q, p) ↦
        let (a, b, c) =
          check_parent-ok pid expected q (latest_descendant q s)
            (sym (check_current-some q p) ∙ e) in
        (
          p ∙ ap some a,
          ap (λ (x : MemoryItem). x.revision) (sym a) ∙ b,
          subst (λ x. (latest_descendant x s).id ≡ x.id) a c,
        )
  ]

-- A newer child keeps an item from being its own latest descendant.
latest_descendant-moves :
    (parent child : MemoryItem) (s : MemoryStore)
    → IsLedger s
    → Dict.get parent.id s.items ≡ some parent
    → In child (values s.items)
    → is_newer_child parent.tenant_id parent child ≡ true
    → (latest_descendant parent s).id ≢ parent.id
latest_descendant-moves parent child s w found m newer same =
    let (d, none_newer) = latest_descendant-Descends parent s in
    elim (Descends-revision d) [
      | inl e ↦
          let quiet =
            All-In (λ c. is_newer_child parent.tenant_id (latest_descendant parent s) c ≡ false) _
              child none_newer m in
          cc (newer, subst (λ h. is_newer_child parent.tenant_id h child ≡ false) (sym e) quiet)
      | inr lt ↦
          let own = get-of-item s (latest_descendant parent s) w (Descends-In d lt) in
          let e : latest_descendant parent s ≡ parent =
            cc (own, ap (λ i. Dict.get i s.items) same, found) in
          absurd (omega (arith, ap (λ (x : MemoryItem). x.revision) e))
    ]

-- After a revision is stored, its parent is still there and is no longer its own latest
-- descendant.
module _ (item parent : MemoryItem) (key : Option ScopedKey) (event : IntegrationEvent)
    (audit : Option AuditEvent) (s : MemoryStore) where
  abbrev pub stored : MemoryStore
  stored = commit_item item key event audit s

  pub found-stored :
      (i : ℕ) (q : MemoryItem)
      → item.id ≢ i
      → Dict.get i s.items ≡ some q
      → Dict.get i stored.items ≡ some q
  found-stored i q ne found = rw items-commit_item (ground (arith, get-put item.id i item s.items))

  pub In-stored : In item (values stored.items)
  In-stored = rw items-commit_item (In-put item.id item s.items)

  IsLedger-stored : IsLedger s → IsLedger stored
  IsLedger-stored w = put-IsLedger item s stored (items-commit_item item key event audit s) w

  pub parent_moves :
      IsLedger s
      → Dict.get parent.id s.items ≡ some parent
      → item.id ≢ parent.id
      → item.tenant_id ≡ parent.tenant_id
      → item.supersedes_id ≡ some parent.id
      → parent.revision < item.revision
      → (latest_descendant parent stored).id ≢ parent.id
  parent_moves w found fresh tenant link above =
      latest_descendant-moves parent item stored (IsLedger-stored w)
        (found-stored parent.id parent fresh found) In-stored
        (ground (arith, (option_beq_iff item.supersedes_id (some parent.id)).1 link))
