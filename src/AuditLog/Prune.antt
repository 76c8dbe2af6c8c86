-- ===== src/AuditLog/Prune.antt =====
-- Proofs on listing and pruning the operator audit trail.
use universal_agent_memory.Prelude.{
  ℕ, zero, suc, ◌+◌, ◌≤◌, min, max, ◌≡◌, refl, sym, ap, ◌∙◌, inl, inr, ◌⊎◌, ◌≢◌, Bool, true, false,
  Option, none, some, List, [], ◌∷◌, eqb, nat_eq, list_eq, take, filter, length, arith, Bool-cases,
  Option-cases, All, In, All-filter_self, All-take, All-of_In, All-In, length-take, In-of-filter,
  beq→eq,
}
use universal_agent_memory.Sorting.{sort, IsSorted, sort-IsSorted, All-sort, length-sort}
use universal_agent_memory.Dict
use universal_agent_memory.Dict.{Dict, values, HasDistinctKeys, get-remove, get-of-In, All-remove}
use universal_agent_memory.Domain.Records.{AuditEvent}
use universal_agent_memory.Store.{MemoryStore}
use universal_agent_memory.AuditLog.{
  AuditQuery, is_queried, event_not_after, event_not_before, list_audit_events, list_events,
  safe_limit, in_workspace, is_doomed, pop_events, prune_audit_events, prune_events,
}

event_not_after-total :
    (a b : AuditEvent) → event_not_after a b ≡ false → event_not_after b a ≡ true
unfolding event_not_after
event_not_after-total a b h = ground arith

event_not_after_trans :
    (a b c : AuditEvent)
    → event_not_after a b ≡ true
    → event_not_after b c ≡ true
    → event_not_after a c ≡ true
unfolding event_not_after
event_not_after_trans a b c p q = ground arith

pub take-IsSorted {ℓ} :
    {A : Type ℓ} (le : A → A → Bool) (n : ℕ) (xs : List A)
    → IsSorted le xs
    → IsSorted le (take n xs)
take-IsSorted le zero xs h = tt
take-IsSorted le (suc n) [] h = tt
take-IsSorted le (suc n) (x ∷ xs) h =
    (All-take (λ y. le x y ≡ true) n xs h.0, take-IsSorted le n xs h.1)

-- A listing has at most 500 events, only events that pass the query under the tenant, the newest
-- first, and all of them if they are no more than the limit and 500.
pub list_events_exact :
    (tenant_id : ℕ) (query : AuditQuery) (limit : ℕ) (s : MemoryStore)
    → let events = list_events tenant_id query limit s in
      let matching = filter (is_queried tenant_id query) (values s.audit_events) in
      All (λ e. is_queried tenant_id query e ≡ true) events
      × IsSorted event_not_before events
      × (length events ≡ min (max 1 (min limit 500)) (length matching))
unfolding list_events list_audit_events safe_limit
list_events_exact tenant_id query limit s =
    let n = max 1 (min limit 500) in
    let matching = filter (is_queried tenant_id query) (values s.audit_events) in
    let sorted = sort event_not_before matching in
    (
      All-take _ n sorted (
          All-sort event_not_before _ matching
            (All-filter_self (is_queried tenant_id query) (values s.audit_events))),
      take-IsSorted event_not_before n sorted (
          sort-IsSorted event_not_before (λ a b h. event_not_after-total b a h)
            (λ a b c p q. event_not_after_trans c b a q p) matching),
      length-take n sorted ∙ ap (min n) (length-sort event_not_before matching),
    )

length-remove_absent :
    {V : Type 0} (k : ℕ) (d : Dict ℕ V) → Dict.get k d ≡ none → length (Dict.remove k d) ≡ length d
unfolding Dict.get Dict.remove
length-remove_absent k [] h = refl
length-remove_absent k ((j, v) ∷ d) h = ground (arith, length-remove_absent k d)

length-remove :
    {V : Type 0} (k : ℕ) (d : Dict ℕ V) {v : V}
    → HasDistinctKeys d
    → Dict.get k d ≡ some v
    → 1 + length (Dict.remove k d) ≡ length d
unfolding Dict.get Dict.remove
length-remove k [] h e = absurd (cc)
length-remove k ((j, w) ∷ d) {v} h e = elim (Bool-cases (eqb j k)) [
  | inl q ↦
      let same : j ≡ k = beq→eq j k q in
      rw q (omega (arith, length-remove_absent k d (ap (λ i. Dict.get i d) (sym same) ∙ h.0)))
  | inr q ↦ rw q (omega (arith, length-remove k d {v = v} h.1 (ground (arith, e, q))))
]

remove-HasDistinctKeys :
    {V : Type 0} (k : ℕ) (d : Dict ℕ V) → HasDistinctKeys d → HasDistinctKeys (Dict.remove k d)
unfolding Dict.remove
remove-HasDistinctKeys k [] h = tt
remove-HasDistinctKeys k ((j, w) ∷ d) h = elim (Bool-cases (eqb j k)) [
  | inl q ↦ rw q (remove-HasDistinctKeys k d h.1)
  | inr q ↦ rw q (ground (arith, get-remove k j d, h.0), remove-HasDistinctKeys k d h.1)
]

-- A trail without repeated keys, each event under its identity.
abbrev pub IsTrail : Dict ℕ AuditEvent → Type 0
IsTrail d = HasDistinctKeys d × All (λ e. e.1.id ≡ e.0) d

remove-IsTrail : (k : ℕ) (d : Dict ℕ AuditEvent) → IsTrail d → IsTrail (Dict.remove k d)
remove-IsTrail k d h = (remove-HasDistinctKeys k d h.0, All-remove (λ e. e.1.id ≡ e.0) k d h.1)

pop_events-counts :
    (doomed : List AuditEvent) (d : Dict ℕ AuditEvent)
    → HasDistinctKeys d
    → ((pop_events doomed d).0 + length (pop_events doomed d).1 ≡ length d)
      × ((pop_events doomed d).0 ≤ length doomed)
unfolding pop_events
pop_events-counts [] d h = (omega arith, omega arith)
pop_events-counts (event ∷ doomed) d h =
    let (total, bound) =
      pop_events-counts doomed (Dict.remove event.id d) (remove-HasDistinctKeys event.id d h) in
    elim (Option-cases (Dict.get event.id d)) [
      | inl e ↦
          let left = length-remove_absent event.id d e in
          rw (e, pop_events) (omega (arith, total, left), omega (arith, bound))
      | inr (popped, e) ↦
          let left = length-remove event.id d h e in
          rw (e, pop_events) (omega (arith, total, left), omega (arith, bound))
    ]

pop_events-keeps :
    (id : ℕ) (doomed : List AuditEvent) (d : Dict ℕ AuditEvent)
    → All (λ e. eqb e.id id ≡ false) doomed
    → Dict.get id (pop_events doomed d).1 ≡ Dict.get id d
unfolding pop_events
pop_events-keeps id [] d h = refl
pop_events-keeps id (event ∷ doomed) d h =
    let other : Dict.get id (Dict.remove event.id d) ≡ Dict.get id d =
      get-remove event.id id d ∙ rw (h.0) refl in
    let rest = pop_events-keeps id doomed (Dict.remove event.id d) h.1 in
    elim (Option-cases (Dict.get event.id d)) [
      | inl e ↦ rw (e, pop_events) (rest ∙ other)
      | inr (popped, e) ↦ rw (e, pop_events) (rest ∙ other)
    ]

-- The trail of a store, each of whose events stands under its identity: a pruning deletes as many
-- events as it returns, at most 500.
pub prune_events-counts :
    (tenant_id created_before : ℕ) (workspace_id : Option ℕ) (limit : ℕ) (s : MemoryStore)
    → IsTrail s.audit_events
    → let pruned = prune_events tenant_id created_before workspace_id limit s in
      (pruned.0 + length pruned.1.audit_events ≡ length s.audit_events) × (pruned.0 ≤ 500)
unfolding prune_events prune_audit_events safe_limit
prune_events-counts tenant_id created_before workspace_id limit s h =
    let doomed = filter (is_doomed tenant_id created_before workspace_id) (values s.audit_events) in
    let n = max 1 (min (max 1 (min limit 500)) 500) in
    let first = take n (sort event_not_after doomed) in
    let (total, bound) = pop_events-counts first s.audit_events h.0 in
    (total, omega (arith, bound, length-take n (sort event_not_after doomed)))

prune_events-spares :
    (tenant_id created_before : ℕ) (workspace_id : Option ℕ) (limit : ℕ) (s : MemoryStore) (id : ℕ)
    {event : AuditEvent}
    → IsTrail s.audit_events
    → Dict.get id s.audit_events ≡ some event
    → is_doomed tenant_id created_before workspace_id event ≡ false
    → Dict.get id (prune_events tenant_id created_before workspace_id limit s).1.audit_events
      ≡ some event
unfolding prune_events prune_audit_events
prune_events-spares tenant_id created_before workspace_id limit s id {event} h at safe =
    let is_old = is_doomed tenant_id created_before workspace_id in
    let doomed = filter is_old (values s.audit_events) in
    let sorted = sort event_not_after doomed in
    let others : All (λ e. eqb e.id id ≡ false) doomed = All-of_In doomed other in
    pop_events-keeps id (take (safe_limit (safe_limit limit)) sorted) s.audit_events (
      All-take (λ e. eqb e.id id ≡ false) (safe_limit (safe_limit limit)) sorted
        (All-sort event_not_after (λ e. eqb e.id id ≡ false) doomed others))
    ∙ at
  where
    other :
        (e : AuditEvent)
        → In e (filter (is_doomed tenant_id created_before workspace_id) (values s.audit_events))
        → eqb e.id id ≡ false
    other e m = elim (Bool-cases (eqb e.id id)) [
      | inr f ↦ f
      | inl f ↦
          let is_old = is_doomed tenant_id created_before workspace_id in
          let there =
            get-of-In (λ x. x.id) s.audit_events h.0 h.1
              (In-of-filter is_old (values s.audit_events) e m) in
          let old =
            All-In (λ x. is_old x ≡ true) (filter is_old (values s.audit_events)) e
              (All-filter_self is_old (values s.audit_events)) m in
          let same : e.id ≡ id = beq→eq e.id id f in
          let found : some e ≡ some event =
            sym there ∙ ap (λ i. Dict.get i s.audit_events) same ∙ at in
          absurd (cc (found, old, safe))
    ]

-- In such a trail, a pruning keeps every event that is of another tenant, not older than the bound,
-- or of another workspace than the one asked for.
pub prune_events-keeps :
    (tenant_id created_before : ℕ) (workspace_id : Option ℕ) (limit : ℕ) (s : MemoryStore) (id : ℕ)
    {event : AuditEvent}
    → IsTrail s.audit_events
    → Dict.get id s.audit_events ≡ some event
    → (event.tenant_id ≢ tenant_id)
      ⊎ ((created_before ≤ event.created_at) ⊎ (in_workspace workspace_id event ≡ false))
    → Dict.get id (prune_events tenant_id created_before workspace_id limit s).1.audit_events
      ≡ some event
unfolding is_doomed
prune_events-keeps tenant_id created_before workspace_id limit s id {event} h at other =
    prune_events-spares tenant_id created_before workspace_id limit s id h at
      (ground (arith, other))
