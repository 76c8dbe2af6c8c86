-- ===== src/Store/Writes/Supersede.antt =====
-- Proofs on `supersede_if_current` of adapters/in_memory.py.
use universal_agent_memory.Prelude.{
  ℕ, Bool, [], ◌∷◌, ◌||◌, eqb, Bool-cases, ◌==◌, ◌<◌, ◌≡◌, ◌≢◌, refl, sym, ap, ◌∙◌, ◌⊎◌, inl, inr,
  true, false, not, ◌&&◌, Option, none, some, arith, nat_eq, option_eq, option_beq_iff,
  Option-cases, any, any-of-In,
}
use universal_agent_memory.Text.{Text}
use universal_agent_memory.Dict
use universal_agent_memory.Dict.{Dict, values, get-put, get-put_self, In-put, In-of-put}
use universal_agent_memory.Domain.Kinds.{status_eq, archived, rejected}
use universal_agent_memory.Domain.Errors.{
  Error, Result, ok, err, memory_revision_conflict, value_error,
}
use universal_agent_memory.Domain.Memory.{MemoryItem}
use universal_agent_memory.Domain.Records.{IntegrationEvent, AuditEvent}
use universal_agent_memory.Store.{
  MemoryStore, ScopedKey, scope_idempotency_key, prior_id, replay, get,
}
use universal_agent_memory.Store.Heads.{
  is_child_of, is_tombstone, latest_descendant, is_recallable_head,
}
use universal_agent_memory.Store.Writes.{
  check_current, commit_item, supersede_checked, supersede_if_current,
}
use universal_agent_memory.Store.Writes.Ledger.{IsLedger, items-commit_item}
use universal_agent_memory.Store.Writes.Cas.{
  check_parent-stale, check_current-some, found-stored, In-stored, parent_moves,
}

pub get-facts :
    (t i : ℕ) (s : MemoryStore) {q : MemoryItem}
    → get t i s ≡ some q
    → (Dict.get i s.items ≡ some q) × (q.tenant_id ≡ t)
unfolding get
get-facts t i s {q} e = elim (Option-cases (Dict.get i s.items)) [
  | inl p ↦ absurd (ground (arith, p))
  | inr (x, p) ↦ (ground (arith, p), ground (arith, p))
]

pub get-of-facts :
    (t i : ℕ) (s : MemoryStore) (q : MemoryItem)
    → Dict.get i s.items ≡ some q
    → q.tenant_id ≡ t
    → get t i s ≡ some q
unfolding get
get-of-facts t i s q p e = ground (arith, p)

replay-not-created : (id : ℕ) (s : MemoryStore) (item : MemoryItem) → replay id s ≢ ok (item, true)
unfolding replay
replay-not-created id s item h = ground arith

err≢ok : {A : Type 0} {a : A} (x : Error) → err x ≢ ok a
err≢ok x h = cc

Result-cases : {A : Type 0} (r : Result A) → ((a : A) × (r ≡ ok a)) ⊎ ((e : Error) × (r ≡ err e))
Result-cases (ok a) = inl (a, refl)
Result-cases (err e) = inr (e, refl)

pub supersede-orphan :
    (item : MemoryItem) (event : IntegrationEvent) (expected : ℕ) (key : Option Text)
    (audit : Option AuditEvent) (s : MemoryStore)
    → item.supersedes_id ≡ none
    → supersede_if_current item event expected key audit s
      ≡ (err (value_error "replacement item must declare supersedes_id"), s)
unfolding supersede_if_current
supersede-orphan item event expected key audit s h = ground (arith, h)

module _ (item : MemoryItem) (event : IntegrationEvent) (expected : ℕ) (key : Option Text)
    (audit : Option AuditEvent) (s : MemoryStore) (pid : ℕ)
    (link : item.supersedes_id ≡ some pid) where
  abbrev pub scoped : Option ScopedKey
  scoped = scope_idempotency_key item.workspace_id key

  abbrev pub check : Result MemoryItem
  check = check_current item.tenant_id pid expected "memory item not found" s

  pub supersede-new :
      prior_id item.tenant_id scoped s ≡ none
      → supersede_if_current item event expected key audit s
        ≡ supersede_checked item scoped event audit check s
  unfolding supersede_if_current
  supersede-new p = ground (arith, link, p)

  pub supersede-old :
      (id : ℕ)
      → prior_id item.tenant_id scoped s ≡ some id
      → supersede_if_current item event expected key audit s ≡ (replay id s, s)
  unfolding supersede_if_current
  supersede-old id p = ground (arith, link, p)

  -- A call that reports a created item passed the check and made the writes.
  created-facts :
      (supersede_if_current item event expected key audit s).0 ≡ ok (item, true)
      → (supersede_if_current item event expected key audit s
          ≡ (ok (item, true), commit_item item scoped event audit s))
        × ((parent : MemoryItem) × (check ≡ ok parent))
  created-facts e = elim (Option-cases (prior_id item.tenant_id scoped s)) [
    | inr (id, p) ↦
        absurd (replay-not-created id s item (ap (λ r. r.0) (sym (supersede-old id p)) ∙ e))
    | inl p ↦ elim (Result-cases check) [
      | inl (parent, c) ↦
          (supersede-new p ∙ (unfold supersede_checked in ground (arith, c)), (parent, c))
      | inr (x, c) ↦
          let refused : supersede_checked item scoped event audit check s ≡ (err x, s) =
            unfold supersede_checked in ground (arith, c) in
          absurd (err≢ok x (sym (ap (λ r. r.0) (supersede-new p ∙ refused)) ∙ e))
    ]
  ]

-- Once a revision of a parent is stored, a rival call that brings another revision of the same
-- parent is refused as a conflict with the chain's new head, whatever revision it expects, and
-- changes nothing: of any number of rival writers one wins. The revision is new, names the parent,
-- is above it and has its tenant; the rival's call has no idempotency key.
pub supersede_once :
    (item rival parent : MemoryItem) (event event' : IntegrationEvent) (expected expected' : ℕ)
    (key : Option Text) (audit audit' : Option AuditEvent) (s : MemoryStore)
    → IsLedger s
    → get item.tenant_id parent.id s ≡ some parent
    → item.supersedes_id ≡ some parent.id
    → item.id ≢ parent.id
    → parent.revision < item.revision
    → rival.supersedes_id ≡ some parent.id
    → rival.tenant_id ≡ item.tenant_id
    → (supersede_if_current item event expected key audit s).0 ≡ ok (item, true)
    → let after = (supersede_if_current item event expected key audit s).1 in
      supersede_if_current rival event' expected' none audit' after ≡ (
        err (
            memory_revision_conflict parent.id expected' (latest_descendant parent after).revision),
        after,
      )
supersede_once item rival parent event event' expected expected' key audit audit' s w found link
      fresh above rlink rtenant won =
    let k = scope_idempotency_key item.workspace_id key in
    let (stays, tenant) = get-facts item.tenant_id parent.id s found in
    let (made, _) = created-facts item event expected key audit s parent.id link won in
    let t = commit_item item k event audit s in
    let there =
      get-of-facts rival.tenant_id parent.id t parent
        (found-stored item parent k event audit s parent.id parent fresh stays)
        (tenant ∙ sym rtenant) in
    let moved = parent_moves item parent k event audit s w stays fresh (sym tenant) link above in
    let refused : check_current rival.tenant_id parent.id expected' "memory item not found" t
        ≡ err (memory_revision_conflict parent.id expected' (latest_descendant parent t).revision) =
      check_current-some rival.tenant_id parent.id expected' "memory item not found" t parent there
      ∙ check_parent-stale parent.id expected' parent (latest_descendant parent t) moved in
    rw (ap (λ r. r.1) made) (
      supersede-new rival event' expected' none audit' t parent.id rlink
        (unfold scope_idempotency_key prior_id in refl)
      ∙ (unfold supersede_checked in rw refused))

is_recallable_head-some :
    (t i : ℕ) (s : MemoryStore) (q : MemoryItem)
    → get t i s ≡ some q
    → is_recallable_head t i s
      ≡ (not (is_tombstone q) && not (any (is_child_of t i) (values s.items)))
unfolding is_recallable_head
is_recallable_head-some t i s q e = rw (e, is_recallable_head)

any-values-put :
    (p : MemoryItem → Bool) (k : ℕ) (v : MemoryItem) (d : Dict ℕ MemoryItem)
    → Dict.get k d ≡ none
    → p v ≡ false
    → any p (values (Dict.put k v d)) ≡ any p (values d)
unfolding Dict.put Dict.get
any-values-put p k v [] h q = ground (arith, q)
any-values-put p k v ((j, w) ∷ d) h q = elim (Bool-cases (eqb j k)) [
  | inl e ↦ absurd (ground (arith, e, h))
  | inr e ↦ rw e (ap (λ b. p w || b) (any-values-put p k v d (ground (arith, e, h)) q))
]

-- After a revision is stored under a new identity, whatever its status, its parent can no longer be
-- recalled, and the revision itself can be recalled exactly if it is neither archived nor rejected
-- and no stored item of the tenant claimed to supersede its identity before.
pub supersede_retires :
    (item parent : MemoryItem) (event : IntegrationEvent) (expected : ℕ) (key : Option Text)
    (audit : Option AuditEvent) (s : MemoryStore)
    → get item.tenant_id parent.id s ≡ some parent
    → item.supersedes_id ≡ some parent.id
    → Dict.get item.id s.items ≡ none
    → (supersede_if_current item event expected key audit s).0 ≡ ok (item, true)
    → let after = (supersede_if_current item event expected key audit s).1 in
      (is_recallable_head item.tenant_id parent.id after ≡ false)
      × (is_recallable_head item.tenant_id item.id after ≡ (
          not (item.status == archived || item.status == rejected)
          && not (any (is_child_of item.tenant_id item.id) (values s.items))))
supersede_retires item parent event expected key audit s found link new won =
    let k = scope_idempotency_key item.workspace_id key in
    let (stays, tenant) = get-facts item.tenant_id parent.id s found in
    let (made, _) = created-facts item event expected key audit s parent.id link won in
    let t = commit_item item k event audit s in
    let fresh : item.id ≢ parent.id = λ e. cc (new, stays, e) in
    let child : any (is_child_of item.tenant_id parent.id) (values t.items) ≡ true =
      any-of-In (is_child_of item.tenant_id parent.id) (values t.items) item
        (In-stored item parent k event audit s)
        (ground (arith, (option_beq_iff item.supersedes_id (some parent.id)).1 link)) in
    let kept =
      get-of-facts item.tenant_id parent.id t parent
        (found-stored item parent k event audit s parent.id parent fresh stays) tenant in
    let own =
      get-of-facts item.tenant_id item.id t item
        (rw items-commit_item (get-put_self item.id item s.items)) refl in
    let no_self : is_child_of item.tenant_id item.id item ≡ false =
      ground (arith, option_beq_iff item.supersedes_id (some item.id), link, fresh) in
    let alone : any (is_child_of item.tenant_id item.id) (values t.items)
        ≡ any (is_child_of item.tenant_id item.id) (values s.items) =
      rw items-commit_item
        (any-values-put (is_child_of item.tenant_id item.id) item.id item s.items new no_self) in
    rw (ap (λ r. r.1) made) (
      is_recallable_head-some item.tenant_id parent.id t parent kept ∙ (rw child (ground arith)),
      is_recallable_head-some item.tenant_id item.id t item own
          ∙ (rw alone (
              ap (λ b. not b && not (any (is_child_of item.tenant_id item.id) (values s.items)))
                (ground arith))),
    )
