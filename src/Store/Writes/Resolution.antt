-- ===== src/Store/Writes/Resolution.antt =====
-- Proofs on `apply_conflict_resolution` of adapters/in_memory.py.
use universal_agent_memory.Prelude.{
  ℕ, ◌≡◌, refl, sym, ap, ◌∙◌, inl, inr, Option, none, some, List, [], ◌∷◌, ◌++◌, map, arith, nat_eq,
  pair_eq, list_eq, option_eq, if◌then◌else◌, Option-cases, All,
}
use mathlib.Core.List.{append_assoc, append-nil}
use universal_agent_memory.Dict
use universal_agent_memory.Dict.{Dict}
use universal_agent_memory.Dict.{get-put_self}
use universal_agent_memory.Domain.Errors.{Result, Error, ok, err, value_error}
use universal_agent_memory.Domain.Records.{AuditEvent, ConflictReviewDecision, review_eq}
use universal_agent_memory.Store.{MemoryStore, append_audit_if_given}
use universal_agent_memory.Store.Writes.{
  Write, check_writes, apply_writes, is_same_resolution, resolve_checked, settled,
  apply_conflict_resolution,
}
use universal_agent_memory.Store.Writes.Applied.{
  IsCurrent, last_write, or_stored, apply_writes-items, check_writes-IsCurrent,
}

module _ (decision : ConflictReviewDecision) (writes : List Write) (audit : Option AuditEvent)
    (s : MemoryStore) where
  -- A resolution that raises, for whichever write, has changed nothing.
  pub resolution_atomic :
      (e : Error)
      → (apply_conflict_resolution decision writes audit s).0 ≡ err e
      → (apply_conflict_resolution decision writes audit s).1 ≡ s
  unfolding apply_conflict_resolution resolve_checked
  resolution_atomic e h = ground arith

  abbrev pub review : Option ConflictReviewDecision
  review = Dict.get (decision.tenant_id, decision.case_id) s.conflict_reviews

  pub resolution-settled :
      (answer : Result ConflictReviewDecision)
      → settled review decision ≡ some answer
      → apply_conflict_resolution decision writes audit s ≡ (answer, s)
  unfolding apply_conflict_resolution
  resolution-settled answer p = rw (p, apply_conflict_resolution)

  pub resolution-open :
      settled review decision ≡ none
      → apply_conflict_resolution decision writes audit s
        ≡ resolve_checked decision writes audit (check_writes decision writes s) s
  unfolding apply_conflict_resolution
  resolution-open p = rw (p, apply_conflict_resolution)

apply_writes-reviews :
    (ws : List Write) (s : MemoryStore) → (apply_writes ws s).conflict_reviews ≡ s.conflict_reviews
unfolding apply_writes
apply_writes-reviews [] s = refl
apply_writes-reviews ((i, e, n) ∷ ws) s = apply_writes-reviews ws _

apply_writes-events :
    (ws : List Write) (s : MemoryStore) → (apply_writes ws s).events ≡ s.events ++ map (λ w. w.1) ws
unfolding apply_writes
apply_writes-events [] s = sym (append-nil s.events)
apply_writes-events ((i, e, n) ∷ ws) s =
    apply_writes-events ws _ ∙ append_assoc s.events (e ∷ []) (map (λ w. w.1) ws)

audit_frame :
    (audit : Option AuditEvent) (s : MemoryStore)
    → ((append_audit_if_given audit s).conflict_reviews ≡ s.conflict_reviews)
      × ((append_audit_if_given audit s).events ≡ s.events)
      × ((append_audit_if_given audit s).items ≡ s.items)
unfolding append_audit_if_given
audit_frame none s = (refl, refl, refl)
audit_frame (some a) s = (refl, refl, refl)

settled-ok :
    (o : Option ConflictReviewDecision) (d : ConflictReviewDecision) {r : ConflictReviewDecision}
    → settled o d ≡ some (ok r)
    → o ≡ some r
unfolding settled
settled-ok none d h = absurd (cc)
settled-ok (some q) d h = ground arith

resolve_checked-ok :
    (d : ConflictReviewDecision) (ws : List Write) (audit : Option AuditEvent)
    (c : Result (Unit {0})) (s : MemoryStore) {r : ConflictReviewDecision}
    → (resolve_checked d ws audit c s).0 ≡ ok r
    → (d ≡ r)
      × (c ≡ ok tt)
      × (Dict.get (d.tenant_id, d.case_id) (resolve_checked d ws audit c s).1.conflict_reviews
          ≡ some d)
      × ((resolve_checked d ws audit c s).1.events ≡ s.events ++ map (λ w. w.1) ws)
      × ((resolve_checked d ws audit c s).1.items ≡ (apply_writes ws s).items)
unfolding resolve_checked
resolve_checked-ok d ws audit (err e) s h = absurd (cc)
resolve_checked-ok d ws audit (ok u) s h = (
  cc,
  refl,
  rw (audit_frame audit _).0
      (get-put_self (d.tenant_id, d.case_id) d (apply_writes ws s).conflict_reviews),
  (audit_frame audit _).1 ∙ apply_writes-events ws s,
  (audit_frame audit _).2,
)

-- A resolution that returns a decision has it on record for its case.
resolution-recorded :
    (decision r : ConflictReviewDecision) (writes : List Write) (audit : Option AuditEvent)
    (s : MemoryStore)
    → (apply_conflict_resolution decision writes audit s).0 ≡ ok r
    → Dict.get
        (decision.tenant_id, decision.case_id)
        (apply_conflict_resolution decision writes audit s).1.conflict_reviews
      ≡ some r
resolution-recorded decision r writes audit s h =
    elim (Option-cases (settled (review decision writes audit s) decision)) [
      | inr (answer, p) ↦
          let done = resolution-settled decision writes audit s answer p in
          let is_ok : answer ≡ ok r = sym (ap (λ x. x.0) done) ∙ h in
          rw (ap (λ x. x.1) done)
            (settled-ok (review decision writes audit s) decision (p ∙ ap some is_ok))
      | inl p ↦
          let open_case = resolution-open decision writes audit s p in
          let (same, _, recorded, _, _) =
            resolve_checked-ok decision writes audit (check_writes decision writes s) s
              (sym (ap (λ x. x.0) open_case) ∙ h) in
          rw (ap (λ x. x.1) open_case) (recorded ∙ ap some same)
    ]

immutable : Error
immutable = value_error "conflict resolution is already applied and immutable"

settled-applied :
    (r d : ConflictReviewDecision) (m : ℕ)
    → r.applied_memory_id ≡ some m
    → settled (some r) d ≡ some (if is_same_resolution r d then ok r else err immutable)
unfolding settled is_same_resolution immutable
settled-applied r d m h = ground (arith, h)

-- Once a case has a resolution that names its memory item, every later resolution of the case
-- leaves the store as it is: with the same status and winner it answers the recorded decision, and
-- with another it is refused as immutable, whatever writes it brings.
pub resolution_settled :
    (decision r later : ConflictReviewDecision) (writes writes' : List Write)
    (audit audit' : Option AuditEvent) (s : MemoryStore) (m : ℕ)
    → (apply_conflict_resolution decision writes audit s).0 ≡ ok r
    → r.applied_memory_id ≡ some m
    → later.tenant_id ≡ decision.tenant_id
    → later.case_id ≡ decision.case_id
    → let after = (apply_conflict_resolution decision writes audit s).1 in
      apply_conflict_resolution later writes' audit' after ≡ (
        (if is_same_resolution r later
            then ok r
            else err (value_error "conflict resolution is already applied and immutable")),
        after,
      )
unfolding immutable
resolution_settled decision r later writes writes' audit audit' s m h applied p q =
    let after = (apply_conflict_resolution decision writes audit s).1 in
    let on_record : Dict.get (later.tenant_id, later.case_id) after.conflict_reviews ≡ some r =
      rw (p, q) (resolution-recorded decision r writes audit s h) in
    resolution-settled later writes' audit' after _
      (ap (λ o. settled o later) on_record ∙ settled-applied r later m applied)

-- A resolution that answers its own decision for a case with none on record: each of its writes was
-- in the decision's scope and named a stored parent, which was its own latest descendant at the
-- expected revision before the first write; behind the last one each identity has the item of the
-- last write to it, or what it had if there is none, the decision is on record, and the events of
-- all writes are appended, in order and none besides.
pub resolution_complete :
    (decision r : ConflictReviewDecision) (writes : List Write) (audit : Option AuditEvent)
    (s : MemoryStore)
    → Dict.get (decision.tenant_id, decision.case_id) s.conflict_reviews ≡ none
    → (apply_conflict_resolution decision writes audit s).0 ≡ ok r
    → let after = (apply_conflict_resolution decision writes audit s).1 in
      All (IsCurrent decision s) writes
      × ((id : ℕ)
          → Dict.get id after.items ≡ or_stored (last_write id writes) (Dict.get id s.items))
      × (Dict.get (decision.tenant_id, decision.case_id) after.conflict_reviews ≡ some decision)
      × (after.events ≡ s.events ++ map (λ w. w.1) writes)
resolution_complete decision r writes audit s fresh h =
    let open_case =
      resolution-open decision writes audit s (unfold settled in rw (fresh, settled)) in
    let (_, checked, recorded, events, items) =
      resolve_checked-ok decision writes audit (check_writes decision writes s) s
        (sym (ap (λ x. x.0) open_case) ∙ h) in
    rw (ap (λ x. x.1) open_case) (
      check_writes-IsCurrent decision writes s checked,
      λ id. ap (Dict.get id) items ∙ apply_writes-items writes s id,
      recorded,
      events,
    )
