-- ===== src/Consumer.antt =====
-- Idempotent event consumers: `claim_event_processing`, `complete_event_processing` and
-- `release_event_processing` of adapters/postgres.py on the rows of a tenant, and
-- `IdempotentEventConsumer` of services/consumer.py. The primary key of the table makes it a
-- dictionary. A statement block runs in one transaction and is one step; `clock_timestamp()` is an
-- argument, and the handler acts on a state of its own, the world.
pub mod Leases
pub mod Once
pub mod Holds
pub mod Retry
use universal_agent_memory.Prelude.{
  ℕ, ◌+◌, Bool, true, false, not, ◌&&◌, ◌||◌, Option, none, some, ltb, if◌then◌else◌, ◌==◌, nat_eq,
  list_eq, option_eq, pair_eq, take,
}
use universal_agent_memory.Text.{Text, is_blank}
use universal_agent_memory.Dict
use universal_agent_memory.Dict.{Dict}
use universal_agent_memory.Domain.Errors.{Result, ok, value_error, raise_if, ◌>>=◌, ◌>>◌}
use universal_agent_memory.Domain.Records.{IntegrationEvent}
use universal_agent_memory.Outbox.{is_null, is_free}

pub data ConsumerClaim : Type 0 where
  acquired completed busy : ConsumerClaim

-- A row of `processed_events`, without its key: the event and the consumer.
pub record ProcessedRow : Type 0 where
  pub lease_owner : Option Text
  pub lease_until : Option ℕ
  pub attempts : ℕ
  pub processed_at : Option ℕ
  pub last_error : Option Text

abbrev pub Key : Type 0
Key = ℕ × Text

abbrev pub Table : Type 0
Table = Dict Key ProcessedRow

-- The values of the `insert`.
unfoldable pub first_lease : Text → ℕ → ℕ → ProcessedRow
first_lease worker_id lease_seconds now = record {
  lease_owner = some worker_id;
  lease_until = some (now + lease_seconds);
  attempts = 1;
  processed_at = none;
  last_error = none;
}

-- The assignments of the `update`.
unfoldable pub next_lease : Text → ℕ → ℕ → ProcessedRow → ProcessedRow
next_lease worker_id lease_seconds now r = record {
  lease_owner = some worker_id;
  lease_until = some (now + lease_seconds);
  attempts = r.attempts + 1;
  processed_at = r.processed_at;
  last_error = none;
}

-- What `claim_event_processing` does when the row was there before.
unfoldable pub claim_existing : Key → Text → ℕ → ℕ → ProcessedRow → Table → ConsumerClaim × Table
unfolding next_lease
claim_existing key worker_id lease_seconds now row table =
    if not (is_null row.processed_at)
    then (completed, table)
    else if is_free row.lease_until now
    then (acquired, Dict.put key (next_lease worker_id lease_seconds now row) table)
    else (busy, table)

-- `claim_event_processing`
unfoldable pub claim_event_processing : Key → Text → ℕ → ℕ → Table → ConsumerClaim × Table
unfolding first_lease
claim_event_processing key worker_id lease_seconds now table = elim (Dict.get key table) [
  | none ↦ (acquired, Dict.put key (first_lease worker_id lease_seconds now) table)
  | some row ↦ claim_existing key worker_id lease_seconds now row table
]

-- `lease_owner = %s and processed_at is null`
unfoldable pub is_leased_to : Text → ProcessedRow → Bool
is_leased_to worker_id r = r.lease_owner == some worker_id && is_null r.processed_at

-- `update … where event_id = … and consumer = … and …`
unfoldable pub update_leased : Key → Text → (ProcessedRow → ProcessedRow) → Table → Bool × Table
update_leased key worker_id change table = elim (Dict.get key table) [
  | none ↦ (false, table)
  | some row ↦
      if is_leased_to worker_id row then (true, Dict.put key (change row) table) else (false, table)
]

unfoldable pub complete_row : ℕ → ProcessedRow → ProcessedRow
complete_row now r = record {
  lease_owner = none;
  lease_until = none;
  attempts = r.attempts;
  processed_at = some now;
  last_error = none;
}

-- `complete_event_processing`
unfoldable pub complete_event_processing : Key → Text → ℕ → Table → Bool × Table
complete_event_processing key worker_id now table =
    update_leased key worker_id (complete_row now) table

unfoldable pub release_processed : Text → ProcessedRow → ProcessedRow
release_processed error r = record {
  lease_owner = none;
  lease_until = none;
  attempts = r.attempts;
  processed_at = r.processed_at;
  last_error = some error;
}

-- `release_event_processing`
unfoldable pub release_event_processing : Key → Text → Text → Table → Bool × Table
release_event_processing key worker_id error table =
    update_leased key worker_id (release_processed error) table

pub record ConsumerResult : Type 0 where
  pub processed : Bool
  pub duplicate : Bool
  pub busy_elsewhere : Bool

-- What `handle` returns, or the handler's exception that it raises again.
pub data Outcome : Type 0 where
  returned : ConsumerResult → Outcome
  raised : Text → Outcome

pub record IdempotentEventConsumer : Type 0 where
  pub consumer : Text
  pub worker_id : Text
  pub lease_seconds : ℕ

-- The checks of `__init__`.
unfoldable pub consumer_init : IdempotentEventConsumer → Result IdempotentEventConsumer
consumer_init self = do
  raise_if (is_blank self.consumer || is_blank self.worker_id)
      (value_error "consumer and worker_id must not be empty")
  raise_if (ltb self.lease_seconds 1) (value_error "lease_seconds must be positive")
  ok self

-- The handler returns nothing or raises, and changes the world.
module _ {World : Type 0} (handler : IntegrationEvent → World → Option Text × World) where
  -- What `handle` does behind a successful claim, when the handler has ended.
  unfoldable pub handle_end :
      IdempotentEventConsumer
      → IntegrationEvent
      → ℕ
      → Option Text × World
      → Table
      → Outcome × Table × World
  unfolding complete_event_processing release_event_processing
  handle_end self event now (none, world) table =
      let (done, after) =
        complete_event_processing (event.id, self.consumer) self.worker_id now table in
      (
        returned (record { processed = done; duplicate = false; busy_elsewhere = false }),
        after,
        world,
      )
  handle_end self event now (some error, world) table =
      let (_, after) =
        release_event_processing (event.id, self.consumer) self.worker_id (take 2000 error) table in
      (raised error, after, world)

  -- What `handle` does behind its claim.
  unfoldable pub handle_claimed :
      IdempotentEventConsumer
      → IntegrationEvent
      → ℕ
      → ConsumerClaim
      → Table
      → World
      → Outcome × Table × World
  unfolding handle_end
  handle_claimed self event now completed table world = (
    returned (record { processed = false; duplicate = true; busy_elsewhere = false }),
    table,
    world,
  )
  handle_claimed self event now busy table world = (
    returned (record { processed = false; duplicate = false; busy_elsewhere = true }),
    table,
    world,
  )
  handle_claimed self event now acquired table world =
      handle_end self event now (handler event world) table

  -- `handle`, claimed at `now` and ended at `end`, with no other step on the table between. In the
  -- code the claim and the end are transactions of their own.
  unfoldable pub handle :
      IdempotentEventConsumer → IntegrationEvent → ℕ → ℕ → Table → World → Outcome × Table × World
  unfolding handle_claimed
  handle self event now end table world =
      let (claim, claimed) =
        claim_event_processing (event.id, self.consumer) self.worker_id self.lease_seconds now
          table in
      handle_claimed self event end claim claimed world
