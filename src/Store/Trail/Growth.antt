-- ===== src/Store/Trail/Growth.antt =====
-- Proofs on what each call of adapters/in_memory.py leaves of a store: items, keys, audit
-- records and outbox.
use universal_agent_memory.Prelude.{
  ℕ, ◌≡◌, refl, sym, ap, ◌∙◌, inl, inr, Option, none, some, List, [], ◌∷◌, ◌++◌, nat_eq, pair_eq,
  list_eq, Option-cases, Bool-cases, all, not, ◌==◌,
}
use mathlib.Core.List.{append_assoc, append-nil}
use universal_agent_memory.Text.{Text}
use universal_agent_memory.Dict
use universal_agent_memory.Dict.{Dict, put-keeps, set_default-keeps}
use universal_agent_memory.Domain.Errors.{Result, ok, err}
use universal_agent_memory.Domain.Memory.{MemoryItem}
use universal_agent_memory.Domain.Records.{IntegrationEvent, AuditEvent, ConflictReviewDecision}
use universal_agent_memory.Store.{
  MemoryStore, ScopedKey, publish, append_audit_event, append_audit_if_given, store_item, prior_id,
  retain, scope_idempotency_key,
}
use universal_agent_memory.Store.Writes.{
  Write, commit_item, supersede_if_current, supersede_checked, check_current, apply_writes,
  check_writes, resolve_checked, settled, apply_conflict_resolution,
}
use universal_agent_memory.Store.Replays.{retain-new, retain-answered}
use universal_agent_memory.Store.Writes.Supersede.{supersede-new, supersede-old, supersede-orphan}
use universal_agent_memory.Store.Writes.Resolution.{review, resolution-settled, resolution-open}
use mathlib.Core.Path.{subst}

-- Nothing that `s` holds is lost or changed in `t`.
pub record Extends (s t : MemoryStore) : Type 0 where
  pub items : (i : ℕ) (q : MemoryItem) → Dict.get i s.items ≡ some q → Dict.get i t.items ≡ some q
  pub keys :
      (k : ℕ × ScopedKey) (i : ℕ)
      → Dict.get k s.idempotency ≡ some i
      → Dict.get k t.idempotency ≡ some i
  pub audits :
      (i : ℕ) (a : AuditEvent)
      → Dict.get i s.audit_events ≡ some a
      → Dict.get i t.audit_events ≡ some a
  pub outbox : (more : List IntegrationEvent) × (t.events ≡ s.events ++ more)

pub Extends-refl : (s : MemoryStore) → Extends s s
Extends-refl s = record {
  items = λ i q h. h;
  keys = λ k i h. h;
  audits = λ i a h. h;
  outbox = ([], sym (append-nil s.events));
}

pub Extends-trans : (s t u : MemoryStore) → Extends s t → Extends t u → Extends s u
Extends-trans s t u x y = record {
  items = λ i q h. y.items i q (x.items i q h);
  keys = λ k i h. y.keys k i (x.keys k i h);
  audits = λ i a h. y.audits i a (x.audits i a h);
  outbox =
      let (xs, p) = x.outbox in
      let (ys, q) = y.outbox in (xs ++ ys, q ∙ ap (λ l. l ++ ys) p ∙ append_assoc s.events xs ys);
}

publish-Extends : (event : IntegrationEvent) (s : MemoryStore) → Extends s (publish event s)
unfolding publish
publish-Extends event s = elim (Bool-cases (all (λ e. not (e.id == event.id)) s.events)) [
  | inl p ↦ rw p (record {
    items = λ i q h. h;
    keys = λ k i h. h;
    audits = λ i a h. h;
    outbox = (event ∷ [], refl);
  })
  | inr p ↦ rw p (Extends-refl s)
]

audit-Extends :
    (audit : Option AuditEvent) (s : MemoryStore) → Extends s (append_audit_if_given audit s)
unfolding append_audit_if_given
audit-Extends none s = Extends-refl s
audit-Extends (some a) s = record {
  items = λ i q h. h;
  keys = λ k i h. h;
  audits = λ i b h. unfold append_audit_event in set_default-keeps a.id i a s.audit_events h;
  outbox = ([], sym (append-nil s.events));
}

store_item-Extends :
    (item : MemoryItem) (key : Option ScopedKey) (s : MemoryStore)
    → Dict.get item.id s.items ≡ none
    → prior_id item.tenant_id key s ≡ none
    → Extends s (store_item item key s)
unfolding store_item prior_id
store_item-Extends item none s new _ = record {
  items = λ i q h. put-keeps item.id i item s.items new h;
  keys = λ k i h. h;
  audits = λ i a h. h;
  outbox = ([], sym (append-nil s.events));
}
store_item-Extends item (some key) s new unused = record {
  items = λ i q h. put-keeps item.id i item s.items new h;
  keys = λ k i h. put-keeps (item.tenant_id, key) k item.id s.idempotency unused h;
  audits = λ i a h. h;
  outbox = ([], sym (append-nil s.events));
}

commit_item-Extends :
    (item : MemoryItem) (key : Option ScopedKey) (event : IntegrationEvent)
    (audit : Option AuditEvent) (s : MemoryStore)
    → Dict.get item.id s.items ≡ none
    → prior_id item.tenant_id key s ≡ none
    → Extends s (append_audit_if_given audit (publish event (store_item item key s)))
commit_item-Extends item key event audit s new unused =
    let t = store_item item key s in
    Extends-trans s t _ (store_item-Extends item key s new unused) (
      Extends-trans t (publish event t) _ (publish-Extends event t)
        (audit-Extends audit (publish event t)))

pub retain-Extends :
    (item : MemoryItem) (event : IntegrationEvent) (key : Option Text) (audit : Option AuditEvent)
    (s : MemoryStore)
    → Dict.get item.id s.items ≡ none
    → Extends s (retain item event key audit s).1
retain-Extends item event key audit s new =
    elim (Option-cases (prior_id item.tenant_id (scope_idempotency_key item.workspace_id key) s)) [
      | inl p ↦ rw (ap (λ r. r.1) (retain-new item event audit s key p)) (
          commit_item-Extends item (scope_idempotency_key item.workspace_id key) event audit s new
            p)
      | inr (id, p) ↦
          subst (λ r. Extends s r.1) (sym (retain-answered item event key audit s id p))
            (Extends-refl s)
    ]

checked-Extends :
    (item : MemoryItem) (key : Option ScopedKey) (event : IntegrationEvent)
    (audit : Option AuditEvent) (c : Result MemoryItem) (s : MemoryStore)
    → Dict.get item.id s.items ≡ none
    → prior_id item.tenant_id key s ≡ none
    → Extends s (supersede_checked item key event audit c s).1
unfolding supersede_checked commit_item
checked-Extends item key event audit (err e) s new p = Extends-refl s
checked-Extends item key event audit (ok q) s new p =
    commit_item-Extends item key event audit s new p

pub supersede-Extends :
    (item : MemoryItem) (event : IntegrationEvent) (expected : ℕ) (key : Option Text)
    (audit : Option AuditEvent) (s : MemoryStore)
    → Dict.get item.id s.items ≡ none
    → Extends s (supersede_if_current item event expected key audit s).1
supersede-Extends item event expected key audit s new = elim (Option-cases item.supersedes_id) [
  | inl n ↦
      subst (λ r. Extends s r.1) (sym (supersede-orphan item event expected key audit s n))
        (Extends-refl s)
  | inr (pid, link) ↦
      elim (Option-cases
        (prior_id item.tenant_id (scope_idempotency_key item.workspace_id key) s)) [
          | inl p ↦
              subst (λ r. Extends s r.1)
                (sym (supersede-new item event expected key audit s pid link p))
                (checked-Extends item (scope_idempotency_key item.workspace_id key) event audit
                  (check_current item.tenant_id pid expected "memory item not found" s) s new p)
          | inr (id, p) ↦
              subst (λ r. Extends s r.1)
                (sym (supersede-old item event expected key audit s pid link id p)) (Extends-refl s)
        ]
]

-- The items of a resolution have fresh identities.
abbrev pub FreshWrites : List Write → Dict ℕ MemoryItem → Type 0
FreshWrites [] d = Unit
FreshWrites ((item, event, n) ∷ ws) d =
    (Dict.get item.id d ≡ none) × FreshWrites ws (Dict.put item.id item d)

apply_writes-Extends :
    (ws : List Write) (s : MemoryStore) → FreshWrites ws s.items → Extends s (apply_writes ws s)
unfolding apply_writes
apply_writes-Extends [] s f = Extends-refl s
apply_writes-Extends ((item, event, n) ∷ ws) s f =
    let t = record s { items = Dict.put item.id item s.items; events = s.events ++ event ∷ [] } in
    Extends-trans s t _
      (record {
        items = λ i q h. put-keeps item.id i item s.items f.0 h;
        keys = λ k i h. h;
        audits = λ i a h. h;
        outbox = (event ∷ [], refl);
      })
      (apply_writes-Extends ws t f.1)

resolved-Extends :
    (d : ConflictReviewDecision) (ws : List Write) (audit : Option AuditEvent)
    (c : Result (Unit {0})) (s : MemoryStore)
    → FreshWrites ws s.items
    → Extends s (resolve_checked d ws audit c s).1
unfolding resolve_checked
resolved-Extends d ws audit (err e) s f = Extends-refl s
resolved-Extends d ws audit (ok u) s f =
    let t = apply_writes ws s in
    let r = record t {
      conflict_reviews = Dict.put (d.tenant_id, d.case_id) d t.conflict_reviews;
    } in
    Extends-trans s t _ (apply_writes-Extends ws s f) (
      Extends-trans t r _
        (record {
          items = λ i q h. h;
          keys = λ k i h. h;
          audits = λ i a h. h;
          outbox = ([], sym (append-nil t.events));
        })
        (audit-Extends audit r))

pub resolution-Extends :
    (d : ConflictReviewDecision) (ws : List Write) (audit : Option AuditEvent) (s : MemoryStore)
    → FreshWrites ws s.items
    → Extends s (apply_conflict_resolution d ws audit s).1
resolution-Extends d ws audit s f = elim (Option-cases (settled (review d ws audit s) d)) [
  | inl p ↦
      subst (λ r. Extends s r.1) (sym (resolution-open d ws audit s p))
        (resolved-Extends d ws audit (check_writes d ws s) s f)
  | inr (answer, p) ↦
      subst (λ r. Extends s r.1) (sym (resolution-settled d ws audit s answer p)) (Extends-refl s)
]
