-- ===== src/Store/Replays.antt =====
-- Proofs on idempotent retries of `retain` in adapters/in_memory.py.
use universal_agent_memory.Prelude.{
  ℕ, ◌≡◌, refl, sym, ap, ◌∙◌, Bool, true, false, Option, none, some, arith, nat_eq, list_eq,
  pair_eq,
}
use universal_agent_memory.Text.{Text}
use universal_agent_memory.Dict.{get-put_self}
use universal_agent_memory.Domain.Errors.{Result, ok, err}
use universal_agent_memory.Domain.Memory.{MemoryItem}
use universal_agent_memory.Domain.Records.{IntegrationEvent, AuditEvent}
use universal_agent_memory.Store.{
  MemoryStore, ScopedKey, publish, append_audit_if_given, prior_id, replay, store_item, append,
  retain, retain_after, scope_idempotency_key,
}

pub audit-items :
    (audit : Option AuditEvent) (s : MemoryStore) → (append_audit_if_given audit s).items ≡ s.items
unfolding append_audit_if_given
audit-items none s = refl
audit-items (some event) s = refl

-- Publishing and auditing leave the ledger and its keys alone.
module _ (event : IntegrationEvent) (audit : Option AuditEvent) (s : MemoryStore) where
  abbrev pub after : MemoryStore
  after = append_audit_if_given audit (publish event s)

  pub items-after : after.items ≡ s.items
  unfolding append_audit_if_given publish
  items-after = ground arith

  idempotency-after : after.idempotency ≡ s.idempotency
  unfolding append_audit_if_given publish
  idempotency-after = ground arith

replay-after :
    (event : IntegrationEvent) (audit : Option AuditEvent) (s : MemoryStore) (id : ℕ)
    → replay id (after event audit s) ≡ replay id s
unfolding replay
replay-after event audit s id = rw items-after

prior_id-after :
    (event : IntegrationEvent) (audit : Option AuditEvent) (s : MemoryStore) (t : ℕ)
    (key : Option ScopedKey)
    → prior_id t key (after event audit s) ≡ prior_id t key s
unfolding prior_id
prior_id-after event audit s t none = refl
prior_id-after event audit s t (some key) = rw idempotency-after

-- What a stored key answers.
prior_id-store_item :
    (item : MemoryItem) (key : ScopedKey) (s : MemoryStore)
    → prior_id item.tenant_id (some key) (store_item item (some key) s) ≡ some item.id
unfolding prior_id store_item
prior_id-store_item item key s = get-put_self (item.tenant_id, key) item.id s.idempotency

replay-store_item :
    (item : MemoryItem) (key : Option ScopedKey) (s : MemoryStore)
    → replay item.id (store_item item key s) ≡ ok (item, false)
unfolding replay store_item
replay-store_item item none s = ground (arith, get-put_self item.id item s.items)
replay-store_item item (some key) s = ground (arith, get-put_self item.id item s.items)

module _ (item : MemoryItem) (key : Option Text) (s : MemoryStore) where
  abbrev scoped : Option ScopedKey
  scoped = scope_idempotency_key item.workspace_id key

  pub append-new :
      prior_id item.tenant_id scoped s ≡ none
      → append item key s ≡ (ok (item, true), store_item item scoped s)
  append-new p = unfold append in ground (arith, p)

  pub append-old :
      (id : ℕ) → prior_id item.tenant_id scoped s ≡ some id → append item key s ≡ (replay id s, s)
  append-old id p = unfold append in ground (arith, p)

module _ (item : MemoryItem) (event : IntegrationEvent) (audit : Option AuditEvent)
    (s : MemoryStore) where
  pub retain-new :
      (key : Option Text)
      → prior_id item.tenant_id (scope_idempotency_key item.workspace_id key) s ≡ none
      → retain item event key audit s ≡ (
        ok (item, true),
        after event audit (store_item item (scope_idempotency_key item.workspace_id key) s),
      )
  retain-new key p = unfold retain_after in unfold retain in rw (append-new item key s p)

  -- A retry answers what the key has stored.
  retain-old :
      (key : Option Text) (id : ℕ) (stored : MemoryItem)
      → prior_id item.tenant_id (scope_idempotency_key item.workspace_id key) s ≡ some id
      → replay id s ≡ ok (stored, false)
      → retain item event key audit s ≡ (ok (stored, false), s)
  retain-old key id stored p r = unfold retain in rw (append-old item key s id p, r)

replay_answer :
    (id : ℕ) (s : MemoryStore) (stored : MemoryItem) (created : Bool)
    → replay id s ≡ ok (stored, created)
    → replay id s ≡ ok (stored, false)
unfolding replay
replay_answer id s stored created h = ground arith

pub replay_stays :
    (event : IntegrationEvent) (audit : Option AuditEvent) (id : ℕ) (s : MemoryStore)
    → retain_after event audit (replay id s, s) ≡ (replay id s, s)
unfolding replay retain_after
replay_stays event audit id s = ground arith

pub retain-answered :
    (item : MemoryItem) (event : IntegrationEvent) (key : Option Text) (audit : Option AuditEvent)
    (s : MemoryStore) (id : ℕ)
    → prior_id item.tenant_id (scope_idempotency_key item.workspace_id key) s ≡ some id
    → retain item event key audit s ≡ (replay id s, s)
unfolding retain
retain-answered item event key audit s id p =
    ap (retain_after event audit) (append-old item key s id p) ∙ replay_stays event audit id s

ok_injective :
    (item stored : MemoryItem) (a b : Bool)
    → ◌≡◌ {A = Result (MemoryItem × Bool)} (ok (item, a)) (ok (stored, b))
    → item ≡ stored
ok_injective item stored a b h = ap first_of_ok h
  where
    first_of_ok : Result (MemoryItem × Bool) → MemoryItem
    first_of_ok (ok r) = r.0
    first_of_ok (err e) = item

-- The store after a first write under a key answers every later call with that key.
module _ (item : MemoryItem) (key : Text) (event : IntegrationEvent) (audit : Option AuditEvent)
    (s : MemoryStore) where
  abbrev written : MemoryStore
  written = after event audit (store_item item (some (item.workspace_id, key)) s)

  prior_id-written :
      (again : MemoryItem)
      → again.tenant_id ≡ item.tenant_id
      → again.workspace_id ≡ item.workspace_id
      → prior_id again.tenant_id (scope_idempotency_key again.workspace_id (some key)) written
        ≡ some item.id
  unfolding scope_idempotency_key
  prior_id-written again p q =
      rw (p, q)
        (prior_id-after event audit (store_item item (some (item.workspace_id, key)) s)
            item.tenant_id (some (item.workspace_id, key))
          ∙ prior_id-store_item item (item.workspace_id, key) s)

  replay-written : replay item.id written ≡ ok (item, false)
  replay-written =
      replay-after event audit (store_item item (some (item.workspace_id, key)) s) item.id
      ∙ replay-store_item item (some (item.workspace_id, key)) s

same_scope :
    (item again : MemoryItem) (key : Text) (s : MemoryStore) (o : Option ℕ)
    → again.tenant_id ≡ item.tenant_id
    → again.workspace_id ≡ item.workspace_id
    → prior_id item.tenant_id (scope_idempotency_key item.workspace_id (some key)) s ≡ o
    → prior_id again.tenant_id (scope_idempotency_key again.workspace_id (some key)) s ≡ o
same_scope item again key s o p q e = rw (p, q) e

-- A retry of `retain` with the same key in the same tenant and workspace, whatever item and events
-- it brings, returns the item of the first call as not created, and changes nothing: no second
-- item, no second event, no second audit record.
pub retain_retry :
    (item again : MemoryItem) (event event' : IntegrationEvent) (key : Text)
    (audit audit' : Option AuditEvent) (s : MemoryStore) (stored : MemoryItem) (created : Bool)
    → again.tenant_id ≡ item.tenant_id
    → again.workspace_id ≡ item.workspace_id
    → (retain item event (some key) audit s).0 ≡ ok (stored, created)
    → retain again event' (some key) audit' (retain item event (some key) audit s).1
      ≡ (ok (stored, false), (retain item event (some key) audit s).1)
retain_retry item again event event' key audit audit' s stored created p q e =
    by_prior (prior_id item.tenant_id (scope_idempotency_key item.workspace_id (some key)) s) refl
  where
    t : MemoryStore
    t = (retain item event (some key) audit s).1

    by_prior :
        (o : Option ℕ)
        → prior_id item.tenant_id (scope_idempotency_key item.workspace_id (some key)) s ≡ o
        → retain again event' (some key) audit' t ≡ (ok (stored, false), t)
    by_prior none h =
        let first : retain item event (some key) audit s
            ≡ (ok (item, true), written item key event audit s) =
          unfold scope_idempotency_key in retain-new item event audit s (some key) h in
        let is_item : item ≡ stored =
          ok_injective item stored true created (ap (λ r. r.0) (sym first) ∙ e) in
        rw (ap (λ r. r.1) first, ← is_item)
          (retain-old again event' audit' (written item key event audit s) (some key) item.id item
            (prior_id-written item key event audit s again p q)
            (replay-written item key event audit s))
    by_prior (some id) h =
        let first = retain-answered item event (some key) audit s id h in
        let answer = replay_answer id s stored created (ap (λ r. r.0) (sym first) ∙ e) in
        rw (ap (λ r. r.1) first) (
          retain-old again event' audit' s (some key) id stored
            (same_scope item again key s (some id) p q h) answer)
