-- ===== src/Consumer/Retry.antt =====
-- Proofs on `handle` of services/consumer.py when the handler fails, with other statements on the
-- table between its claim and its end.
use universal_agent_memory.Prelude.{
  ℕ, ◌+◌, arith, ◌≡◌, refl, ap, ◌∙◌, true, Option, none, some, nat_eq, list_eq, option_eq, pair_eq,
  list_beq, list_beq_refl, take,
}
use universal_agent_memory.Text.{Text}
use universal_agent_memory.Dict
use universal_agent_memory.Dict.{get-put, get-put_self}
use universal_agent_memory.Domain.Records.{IntegrationEvent}
use universal_agent_memory.Consumer.{
  acquired, ProcessedRow, Key, Table, claim_existing, claim_event_processing, is_leased_to,
  update_leased, release_processed, release_event_processing, IdempotentEventConsumer, raised,
  handle_claimed, handle_end,
}
use universal_agent_memory.Consumer.Leases.{claim-old, claimed_row}
use universal_agent_memory.Consumer.Holds.{OtherSteps, OtherSteps-IsHeld}

update_leased-own :
    (key : Key) (worker : Text) (change : ProcessedRow → ProcessedRow) (table : Table)
    (row : ProcessedRow)
    → Dict.get key table ≡ some row
    → row.lease_owner ≡ some worker
    → row.processed_at ≡ none
    → update_leased key worker change table ≡ (true, Dict.put key (change row) table)
unfolding update_leased is_leased_to
update_leased-own key worker change table row p q open_row =
    let own : list_beq worker worker ≡ true = list_beq_refl worker in
    rw (p, update_leased, q, open_row, own)

claim-released :
    (key : Key) (worker error : Text) (lease now : ℕ) (row : ProcessedRow) (table : Table)
    → row.processed_at ≡ none
    → (claim_event_processing key worker lease now
        (Dict.put key (release_processed error row) table)).0
      ≡ acquired
claim-released key worker error lease now row table open_row =
    ap (λ r. r.0)
      (claim-old key worker lease now _ (release_processed error row)
        (get-put_self key (release_processed error row) table))
    ∙ (unfold claim_existing release_processed in ground (arith, open_row))

-- A delivery that has claimed its event, whatever statements of other workers and on other events
-- come before its end, as long as no claim of the event is made after its lease has run out: if the
-- handler raises an error, the delivery raises it again and leaves the event free, so that the next
-- claim for the consumer gets it, by whichever worker and however soon.
pub handle_retry :
    {World : Type 0} (handler : IntegrationEvent → World → Option Text × World)
    (self : IdempotentEventConsumer) (event : IntegrationEvent) (error rival : Text)
    (now end lease later : ℕ) (table : Table) {table' : Table} (world : World)
    → (claim_event_processing
        (event.id, self.consumer)
        self.worker_id
        self.lease_seconds
        now
        table).0
      ≡ acquired
    → OtherSteps
        (event.id, self.consumer)
        self.worker_id
        (now + self.lease_seconds)
        (claim_event_processing
          (event.id, self.consumer)
          self.worker_id
          self.lease_seconds
          now
          table).1
        table'
    → (handler event world).0 ≡ some error
    → let result = handle_claimed handler self event end acquired table' world in
      (result.0 ≡ raised error)
      × ((claim_event_processing (event.id, self.consumer) rival lease later result.1).0 ≡ acquired)
unfolding handle_claimed handle_end release_event_processing
handle_retry handler self event error rival now end lease later table {table'} world won others
      failed =
    let key : Key = (event.id, self.consumer) in
    let (row, found, owner, _, open_row) =
      OtherSteps-IsHeld key self.worker_id (now + self.lease_seconds) others
        (claimed_row key self.worker_id self.lease_seconds now table won) in
    let released =
      update_leased-own key self.worker_id (release_processed (take 2000 error)) table' row found
        owner open_row in
    rw (failed, released)
      (refl, claim-released key rival (take 2000 error) lease later row table' open_row)
