-- ===== src/Retention/Private.antt =====
-- Proofs on what the write path of services/retention.py stores.
use universal_agent_memory.Prelude.{
  ℕ, ◌≡◌, refl, sym, ap, ◌∙◌, inl, inr, Bool, true, Option, none, some, List, [], ◌∷◌, arith,
  nat_eq, list_eq, pair_eq, All, length, Option-cases,
}
use universal_agent_memory.Text.{Text}
use universal_agent_memory.Dict
use universal_agent_memory.Dict.{get-put_self}
use universal_agent_memory.Domain.Errors.{Result, ok, err, Result-cases}
use universal_agent_memory.Domain.Memory
use universal_agent_memory.Domain.Memory.{MemoryItem}
use universal_agent_memory.Domain.Memory.Laws.{post_init_iff}
use universal_agent_memory.Domain.Records.{IntegrationEvent, event_post_init, AuditEvent}
use universal_agent_memory.Store
use universal_agent_memory.Store.{
  MemoryStore, ScopedKey, prior_id, replay, scope_idempotency_key, store_item,
}
use universal_agent_memory.Store.Replays.{items-after, retain-new, retain-answered}
use universal_agent_memory.Privacy
use universal_agent_memory.Privacy.{
  PrivacyDecision, PrivacyFinding, redact_text, decide, redact, replace_all, scan, unchanged,
}
use universal_agent_memory.Sorting.{sort}
use universal_agent_memory.Privacy.Selection.{AreMatches}
use universal_agent_memory.Privacy.Redaction.{pieces, redact-eq-pieces}
use universal_agent_memory.Retention.{
  RetainCommand, RetentionService, RetainResult, Fresh, apply_guard, item_of_command, event_of_item,
  retained_payload, prepare, audit_of_item, retain_result, retain,
}

item_of_command-id :
    (command : RetainCommand) (d : PrivacyDecision) (fresh : Fresh)
    → (item_of_command command d fresh).id ≡ fresh.item_id
unfolding item_of_command
item_of_command-id command d fresh = refl

item_of_command-text :
    (command : RetainCommand) (d : PrivacyDecision) (fresh : Fresh)
    → (item_of_command command d fresh).text ≡ d.text
unfolding item_of_command
item_of_command-text command d fresh = refl

apply_guard-decides :
    (self : RetentionService) (t : Text)
    → self.privacy.enabled ≡ true
    → self.privacy.action ≡ redact_text
    → apply_guard self t ≡ decide redact_text t (scan self.digit self.detectors t)
unfolding Privacy.apply
apply_guard-decides self t on redacts = rw (on, redacts) refl

prepare-eq-ok :
    (self : RetentionService) (command : RetainCommand) (fresh : Fresh) {item : MemoryItem}
    {event : IntegrationEvent}
    → prepare self command fresh ≡ ok (item, event)
    → (d : PrivacyDecision) × (apply_guard self command.text ≡ ok d)
      × (item ≡ item_of_command command d fresh)
unfolding prepare
prepare-eq-ok self command fresh {item} {event} h =
    elim (Result-cases (apply_guard self command.text)) [
      | inl (e, p) ↦ absurd (ground (arith, h, p))
      | inr (d, p) ↦ elim (Result-cases (Memory.post_init (item_of_command command d fresh))) [
        | inl (e, q) ↦ absurd (ground (arith, h, p, q))
        | inr (i, q) ↦
            let (_, same) = (post_init_iff (item_of_command command d fresh) i).0 q in
            elim (Result-cases
              (event_post_init (event_of_item self i (retained_payload self i) fresh))) [
                | inl (e, r) ↦ absurd (ground (arith, h, p, q, r))
                | inr (ev, r) ↦
                    let result : item ≡ i = ground (arith, h, p, q, r) in (d, p, result ∙ sym same)
              ]
      ]
    ]

replay-not_created :
    (id : ℕ) (s : MemoryStore) {stored : MemoryItem} → replay id s ≡ ok (stored, true) → ⊥
unfolding replay
replay-not_created id s {stored} h = absurd (ground (arith, h))

retain-created :
    (item : MemoryItem) (event : IntegrationEvent) (key : Option Text) (audit : Option AuditEvent)
    (s : MemoryStore) {stored : MemoryItem}
    → (Store.retain item event key audit s).0 ≡ ok (stored, true)
    → (stored ≡ item) × (Dict.get item.id (Store.retain item event key audit s).1.items ≡ some item)
retain-created item event key audit s {stored} h =
    let scoped = scope_idempotency_key item.workspace_id key in
    elim (Option-cases (prior_id item.tenant_id scoped s)) [
      | inr (id, p) ↦ absurd (
          replay-not_created id s {stored = stored}
            (ap (λ r. r.0) (sym (retain-answered item event key audit s id p)) ∙ h))
      | inl p ↦
          let e = retain-new item event audit s key p in
          let same : item ≡ stored = by_ok item stored (ap (λ r. r.0) (sym e) ∙ h) in
          (
            sym same,
            ap (λ r. Dict.get item.id r.1.items) e
                ∙ ap (Dict.get item.id) (items-after event audit (store_item item scoped s))
                ∙ stored_item scoped,
          )
    ]
  where
    by_ok :
        (a b : MemoryItem)
        → ◌≡◌ {A = Result (MemoryItem × Bool)} (ok (a, true)) (ok (b, true))
        → a ≡ b
    by_ok a b p = ground (arith, p)

    stored_item : (k : Option ScopedKey) → Dict.get item.id (store_item item k s).items ≡ some item
    stored_item none = unfold store_item in get-put_self item.id item s.items
    stored_item (some k) = unfold store_item in get-put_self item.id item s.items

unwrap : RetainResult → Result RetainResult → RetainResult
unwrap other (err e) = other
unwrap other (ok r) = r

retain_result-created :
    (event : IntegrationEvent) (x : Result (MemoryItem × Bool)) {result : RetainResult}
    → retain_result event x ≡ ok result
    → result.created ≡ true
    → x ≡ ok (result.item, true)
unfolding retain_result unwrap
retain_result-created event (err e) q created = absurd (ground (arith, q))
retain_result-created event (ok (stored, c)) {result} q created =
    let p = ap (unwrap result) q in
    ap (λ r. ok (r.item, r.created)) p ∙ ap (λ b. ok (result.item, b)) created

-- What a call that creates a memory has stored: the item that it returns, under the fresh identity,
-- with the text that the guard decided.
retain-stores :
    (self : RetentionService) (command : RetainCommand) (audit : Option AuditEvent) (fresh : Fresh)
    (s : MemoryStore) {result : RetainResult}
    → (retain self command audit fresh s).0 ≡ ok result
    → result.created ≡ true
    → (d : PrivacyDecision) × (apply_guard self command.text ≡ ok d)
      × (result.item.text ≡ d.text)
      × (Dict.get fresh.item_id (retain self command audit fresh s).1.items ≡ some result.item)
unfolding retain
retain-stores self command audit fresh s {result} h created =
    elim (Result-cases (prepare self command fresh)) [
      | inl (e, p) ↦ absurd (ground (arith, h, p))
      | inr ((item, event), p) ↦
          let (d, decided, made) = prepare-eq-ok self command fresh p in
          let sent = audit_of_item self item audit in
          let e : retain self command audit fresh s ≡ (
            retain_result event (Store.retain item event command.idempotency_key sent s).0,
            (Store.retain item event command.idempotency_key sent s).1,
          ) =
            rw (p, retain) refl in
          let answered : (Store.retain item event command.idempotency_key sent s).0
              ≡ ok (result.item, true) =
            retain_result-created event _ (ap (λ r. r.0) (sym e) ∙ h) created in
          let (same, there) = retain-created item event command.idempotency_key sent s answered in
          (
            d,
            decided,
            ap (λ i. i.text) (same ∙ made) ∙ item_of_command-text command d fresh,
            ap (λ r. Dict.get fresh.item_id r.1.items) e
                ∙ ap
                    (λ k.
                      Dict.get k (Store.retain item event command.idempotency_key sent s).1.items)
                    (sym (ap (λ i. i.id) made ∙ item_of_command-id command d fresh))
                ∙ there
                ∙ ap some (sym same),
          )
    ]

decide-redacts :
    (t : Text) (fs : List PrivacyFinding) {d : PrivacyDecision}
    → decide redact_text t fs ≡ ok d
    → d.text ≡ redact t fs
unfolding decide redact replace_all sort
decide-redacts t [] {d} h = ground (arith, h)
decide-redacts t (f ∷ fs) {d} h = ground (arith, h)

-- With the guard on and set to redact, for detectors whose matches are spans of the text that are
-- not empty: a call that creates a memory stores it, under its fresh identity, with the command's
-- text in which each finding is replaced by its marker.
pub retain-IsRedacted :
    (self : RetentionService) (command : RetainCommand) (audit : Option AuditEvent) (fresh : Fresh)
    (s : MemoryStore) {result : RetainResult}
    → self.privacy.enabled ≡ true
    → self.privacy.action ≡ redact_text
    → All (λ d. AreMatches (length command.text) (d.matches command.text)) self.detectors
    → (retain self command audit fresh s).0 ≡ ok result
    → result.created ≡ true
    → (Dict.get fresh.item_id (retain self command audit fresh s).1.items ≡ some result.item)
      × (result.item.text ≡ pieces 0 (scan self.digit self.detectors command.text) command.text)
retain-IsRedacted self command audit fresh s {result} on redacts matches h created =
    let (d, decided, stored, there) = retain-stores self command audit fresh s h created in
    let found = scan self.digit self.detectors command.text in
    let choice : decide redact_text command.text found ≡ ok d =
      sym (apply_guard-decides self command.text on redacts) ∙ decided in
    (
      there,
      stored
          ∙ decide-redacts command.text found choice
          ∙ redact-eq-pieces self.digit self.detectors command.text matches,
    )
