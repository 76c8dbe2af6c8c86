-- ===== src/Consumer/Once.antt =====
-- Proofs on completed events: the rows of adapters/postgres.py, and `handle` of
-- services/consumer.py.
use universal_agent_memory.Prelude.{
  ℕ, ◌≡◌, refl, sym, ap, ◌∙◌, inl, inr, Bool, true, false, Option, none, some, arith, nat_eq,
  list_eq, option_eq, pair_eq, Bool-cases, Option-cases, pair_beq_iff, pair_beq,
}
use mathlib.Core.Path.{subst}
use universal_agent_memory.Text.{Text}
use universal_agent_memory.Dict
use universal_agent_memory.Dict.{get-put, get-put_self, put-keeps}
use universal_agent_memory.Domain.Records.{IntegrationEvent}
use universal_agent_memory.Outbox.{is_null, is_free}
use universal_agent_memory.Consumer.{
  ConsumerClaim, acquired, completed, busy, ProcessedRow, Key, Table, next_lease, claim_existing,
  claim_event_processing, is_leased_to, update_leased, complete_row, complete_event_processing,
  release_processed, release_event_processing, IdempotentEventConsumer, ConsumerResult, Outcome,
  returned, raised, handle, handle_claimed, handle_end,
}
use universal_agent_memory.Consumer.Leases.{claim-new, claim-old}

-- The key has a row, and it is processed.
abbrev pub IsProcessed : Key → ProcessedRow → Table → Type 0
IsProcessed key row table = (Dict.get key table ≡ some row) × (is_null row.processed_at ≡ false)

put_open-IsProcessed :
    (key k : Key) (r new row : ProcessedRow) (table : Table)
    → Dict.get k table ≡ some r
    → is_null r.processed_at ≡ true
    → IsProcessed key row table
    → IsProcessed key row (Dict.put k new table)
put_open-IsProcessed key k r new row table p q (found, done) = elim (Bool-cases (pair_beq k key)) [
  | inr e ↦ (get-put k key new table ∙ (rw e found), done)
  | inl e ↦
      let same : k ≡ key = (pair_beq_iff k key).0 e in
      absurd (ground (arith, same, p, q, found, done))
]

claim-IsProcessed :
    (key k : Key) (worker : Text) (lease now : ℕ) (row : ProcessedRow) (table : Table)
    → IsProcessed key row table
    → IsProcessed key row (claim_event_processing k worker lease now table).1
claim-IsProcessed key k worker lease now row table w = elim (Option-cases (Dict.get k table)) [
  | inl p ↦
      subst (λ r. IsProcessed key row r.1) (sym (claim-new k worker lease now table p))
        (put-keeps k key _ table p w.0, w.1)
  | inr (r, p) ↦
      subst (λ x. IsProcessed key row x.1) (sym (claim-old k worker lease now table r p))
        (existing r p)
]
  where
    existing :
        (r : ProcessedRow)
        → Dict.get k table ≡ some r
        → IsProcessed key row (claim_existing k worker lease now r table).1
    existing r p =
        unfold claim_existing in
        elim (Bool-cases (is_null r.processed_at)) [
          | inr e ↦ rw e w
          | inl e ↦ elim (Bool-cases (is_free r.lease_until now)) [
            | inl f ↦
                rw (e, f)
                  (put_open-IsProcessed key k r (next_lease worker lease now r) row table p e w)
            | inr f ↦ rw (e, f) w
          ]
        ]

update-IsProcessed :
    (key k : Key) (worker : Text) (change : ProcessedRow → ProcessedRow) (row : ProcessedRow)
    (table : Table)
    → IsProcessed key row table
    → IsProcessed key row (update_leased k worker change table).1
unfolding update_leased
update-IsProcessed key k worker change row table w = elim (Option-cases (Dict.get k table)) [
  | inl p ↦ rw (p, update_leased) w
  | inr (r, p) ↦ elim (Bool-cases (is_leased_to worker r)) [
    | inr e ↦ rw (p, update_leased, e) w
    | inl e ↦
        rw (p, update_leased, e)
          (put_open-IsProcessed key k r (change r) row table p
            (unfold is_leased_to in ground (arith, e)) w)
  ]
]

-- One statement of some worker of some consumer, at any time.
pub data Step (s : Table) : Table → Type 0 where
  claimed :
      (k : Key) (worker : Text) (lease now : ℕ)
      → Step s (claim_event_processing k worker lease now s).1
  ended : (k : Key) (worker : Text) (now : ℕ) → Step s (complete_event_processing k worker now s).1
  released : (k : Key) (worker error : Text) → Step s (release_event_processing k worker error s).1

pub data Reach (s : Table) : Table → Type 0 where
  here : Reach s s
  next : {t u : Table} → Reach s t → Step t u → Reach s u

Step-IsProcessed :
    {s t : Table} (key : Key) (row : ProcessedRow)
    → Step s t
    → IsProcessed key row s
    → IsProcessed key row t
unfolding complete_event_processing release_event_processing
Step-IsProcessed {s} key row (claimed k worker lease now) w =
    claim-IsProcessed key k worker lease now row s w
Step-IsProcessed {s} key row (ended k worker now) w =
    update-IsProcessed key k worker (complete_row now) row s w
Step-IsProcessed {s} key row (released k worker error) w =
    update-IsProcessed key k worker (release_processed error) row s w

-- Whatever claims, completions and releases the workers of all consumers run, the row of a
-- completed event is never changed.
pub Reach-IsProcessed :
    {s t : Table} (key : Key) (row : ProcessedRow)
    → Reach s t
    → IsProcessed key row s
    → IsProcessed key row t
Reach-IsProcessed key row here w = w
Reach-IsProcessed key row (next r st) w =
    Step-IsProcessed key row st (Reach-IsProcessed key row r w)

-- The answers of `handle` that are no exception.
abbrev pub handled : ConsumerResult
handled = record { processed = true; duplicate = false; busy_elsewhere = false }

abbrev pub seen_before : ConsumerResult
seen_before = record { processed = false; duplicate = true; busy_elsewhere = false }

update_leased-true :
    (key : Key) (worker : Text) (change : ProcessedRow → ProcessedRow) (table : Table)
    → (update_leased key worker change table).0 ≡ true
    → (r : ProcessedRow) × (Dict.get key (update_leased key worker change table).1
        ≡ some (change r))
unfolding update_leased
update_leased-true key worker change table h = elim (Option-cases (Dict.get key table)) [
  | inl p ↦ absurd (ground (arith, p))
  | inr (r, p) ↦ elim (Bool-cases (is_leased_to worker r)) [
    | inr e ↦ absurd (ground (arith, p, e))
    | inl e ↦ (r, rw (p, update_leased, e) (get-put_self key (change r) table))
  ]
]

module _ {World : Type 0} (handler : IntegrationEvent → World → Option Text × World)
    (self : IdempotentEventConsumer) (event : IntegrationEvent) where
  abbrev key_of : Key
  key_of = (event.id, self.consumer)

  is_processed : Outcome → Bool
  is_processed (returned r) = r.processed
  is_processed (raised error) = false

  end-IsProcessed :
      (end : ℕ) (answer : Option Text × World) (table : Table)
      → is_processed (handle_end handler self event end answer table).0 ≡ true
      → (row : ProcessedRow) × IsProcessed key_of row
          (handle_end handler self event end answer table).1
  unfolding handle_end is_processed
  end-IsProcessed end (none, world) table h =
      let (r, found) = update_leased-true key_of self.worker_id (complete_row end) table h in
      (complete_row end r, (found, unfold complete_row in refl))
  end-IsProcessed end (some error, world) table h = absurd (cc)

  claimed-IsProcessed :
      (end : ℕ) (claim : ConsumerClaim) (table : Table) (world : World)
      → is_processed (handle_claimed handler self event end claim table world).0 ≡ true
      → (row : ProcessedRow) × IsProcessed key_of row
          (handle_claimed handler self event end claim table world).1
  unfolding handle_claimed is_processed
  claimed-IsProcessed end completed table world h = absurd (cc)
  claimed-IsProcessed end busy table world h = absurd (cc)
  claimed-IsProcessed end acquired table world h = end-IsProcessed end (handler event world) table h

  handle-IsProcessed :
      (now end : ℕ) (table : Table) (world : World)
      → (handle handler self event now end table world).0 ≡ returned handled
      → (row : ProcessedRow) × IsProcessed key_of row
          (handle handler self event now end table world).1
  unfolding handle is_processed
  handle-IsProcessed now end table world h =
      let (claim, after) =
        claim_event_processing key_of self.worker_id self.lease_seconds now table in
      claimed-IsProcessed end claim after world (ap is_processed h)

  handle_again :
      (now end : ℕ) (row : ProcessedRow) (table : Table) (world : World)
      → IsProcessed key_of row table
      → handle handler self event now end table world ≡ (returned seen_before, table, world)
  unfolding handle
  handle_again now end row table world (found, done) =
      let claim : claim_event_processing key_of self.worker_id self.lease_seconds now table
          ≡ (completed, table) =
        claim-old key_of self.worker_id self.lease_seconds now table row found
        ∙ (unfold claim_existing in ground (arith, done)) in
      rw claim (unfold handle_claimed in refl)

-- After a delivery that was handled to its end, every later delivery of the event to the same
-- consumer, by whichever worker and after whatever statements on the table, is answered as a
-- duplicate: the table stays, and the handler does not run, so the world stays.
pub handle_once :
    {World : Type 0} (handler : IntegrationEvent → World → Option Text × World)
    (self other : IdempotentEventConsumer) (event again : IntegrationEvent) (now end now' end' : ℕ)
    (table later : Table) (world world' : World)
    → again.id ≡ event.id
    → other.consumer ≡ self.consumer
    → (handle handler self event now end table world).0 ≡ returned handled
    → Reach (handle handler self event now end table world).1 later
    → handle handler other again now' end' later world' ≡ (returned seen_before, later, world')
handle_once handler self other event again now end now' end' table later world world' p q h r =
    let (row, w) = handle-IsProcessed handler self event now end table world h in
    let still : IsProcessed (again.id, other.consumer) row later =
      rw (p, q) (Reach-IsProcessed (event.id, self.consumer) row r w) in
    handle_again handler other again now' end' row later world' still
