-- ===== src/Outbox.antt =====
-- The outbox: the table and the statements of `claim_outbox`, `mark_outbox_published` and
-- `release_outbox` in adapters/postgres.py, and `OutboxRelay` of services/outbox.py. A statement
-- runs in one transaction and is one step on the rows of its tenant, which row-level security
-- selects; `clock_timestamp()` is an argument.
pub mod Rows
pub mod Steps
pub mod Leases
pub mod Chosen
pub mod Settling
pub mod Outcome
pub mod Relay
use universal_agent_memory.Prelude.{
  ℕ, zero, suc, ◌+◌, ◌-◌, ◌*◌, ◌^◌, min, Bool, true, false, not, ◌&&◌, ◌||◌, Option, none, some,
  List, [], ◌∷◌, map, ltb, leb, eqb, if◌then◌else◌, ◌==◌, nat_eq, list_eq, option_eq, length,
  filter, any, take,
}
use universal_agent_memory.Text.{Text, is_blank}
use universal_agent_memory.Domain.Errors.{Result, ok, value_error, raise_if, ◌>>=◌, ◌>>◌}
use universal_agent_memory.Sorting.{sort}
use universal_agent_memory.Domain.Records.{IntegrationEvent}

-- A row of `outbox_events`.
pub record OutboxRow : Type 0 where
  pub event : IntegrationEvent
  pub published_at : Option ℕ
  pub attempts : ℕ
  pub lease_owner : Option Text
  pub lease_until : Option ℕ
  pub last_error : Option Text
  pub dead_lettered_at : Option ℕ
  pub available_at : ℕ

pub record ClaimedEvent : Type 0 where
  pub event : IntegrationEvent
  pub attempts : ℕ

abbrev pub is_null : Option ℕ → Bool
is_null none = true
is_null (some n) = false

-- `lease_until is null or lease_until < clock_timestamp()`
abbrev pub is_free : Option ℕ → ℕ → Bool
is_free none now = true
is_free (some until) now = ltb until now

-- The `where` clause of the common table `due`.
unfoldable pub is_due : ℕ → OutboxRow → Bool
is_due now r =
    is_null r.published_at
    && is_null r.dead_lettered_at
    && leb r.available_at now
    && is_free r.lease_until now

-- `order by occurred_at, id`
unfoldable pub not_later : OutboxRow → OutboxRow → Bool
not_later a b =
    ltb a.event.occurred_at b.event.occurred_at
    || (a.event.occurred_at == b.event.occurred_at && not (ltb b.event.id a.event.id))

-- The identities that `due` selects; no row is locked, as each statement is one step.
unfoldable pub due_ids : ℕ → ℕ → List OutboxRow → List ℕ
due_ids now limit rows =
    map (λ r. r.event.id) (take limit (sort not_later (filter (is_due now) rows)))

unfoldable pub is_chosen : List ℕ → OutboxRow → Bool
is_chosen ids r = any (λ i. i == r.event.id) ids

unfoldable pub lease_row : Text → ℕ → ℕ → OutboxRow → OutboxRow
lease_row worker_id lease_seconds now r = record r {
  attempts = r.attempts + 1;
  lease_owner = some worker_id;
  lease_until = some (now + lease_seconds);
  last_error = none;
}

abbrev pub claimed_of : OutboxRow → ClaimedEvent
claimed_of r = record { event = r.event; attempts = r.attempts }

unfoldable pub claim_rows : List ℕ → Text → ℕ → ℕ → List OutboxRow → List OutboxRow
claim_rows ids worker_id lease_seconds now [] = []
claim_rows ids worker_id lease_seconds now (r ∷ rows) =
    (if is_chosen ids r then lease_row worker_id lease_seconds now r else r)
    ∷ claim_rows ids worker_id lease_seconds now rows

-- `claim_outbox`; `returning` lists the updated rows, here in the table's order.
unfoldable pub claim_outbox : Text → ℕ → ℕ → ℕ → List OutboxRow → List ClaimedEvent × List OutboxRow
claim_outbox worker_id limit lease_seconds now rows =
    let ids = due_ids now limit rows in
    let after = claim_rows ids worker_id lease_seconds now rows in
    (map claimed_of (filter (is_chosen ids) after), after)

-- `id = %s and lease_owner = %s and published_at is null`
unfoldable pub is_held : ℕ → Text → OutboxRow → Bool
is_held event_id worker_id r =
    r.event.id == event_id && r.lease_owner == some worker_id && is_null r.published_at

unfoldable pub publish_row : ℕ → OutboxRow → OutboxRow
publish_row now r = record r {
  published_at = some now;
  lease_owner = none;
  lease_until = none;
  last_error = none;
}

-- `update … where … returning id`
unfoldable pub update_held : ℕ → Text → (OutboxRow → OutboxRow) → List OutboxRow → List OutboxRow
update_held event_id worker_id change [] = []
update_held event_id worker_id change (r ∷ rows) =
    (if is_held event_id worker_id r then change r else r)
    ∷ update_held event_id worker_id change rows

-- `mark_outbox_published`
unfoldable pub mark_outbox_published : ℕ → Text → ℕ → List OutboxRow → Bool × List OutboxRow
mark_outbox_published event_id worker_id now rows =
    (any (is_held event_id worker_id) rows, update_held event_id worker_id (publish_row now) rows)

unfoldable pub release_row : Text → ℕ → ℕ → ℕ → OutboxRow → OutboxRow
release_row error max_attempts retry_delay_seconds now r = record r {
  lease_owner = none;
  lease_until = none;
  last_error = some error;
  available_at = if leb max_attempts r.attempts then now else now + retry_delay_seconds;
  dead_lettered_at = if leb max_attempts r.attempts then some now else r.dead_lettered_at;
}

-- `release_outbox`
unfoldable pub release_outbox : ℕ → Text → Text → ℕ → ℕ → ℕ → List OutboxRow → Bool × List OutboxRow
release_outbox event_id worker_id error max_attempts retry_delay_seconds now rows = (
  any (is_held event_id worker_id) rows,
  update_held event_id worker_id (release_row error max_attempts retry_delay_seconds now) rows,
)

-- The settings of an `OutboxRelay`.
pub record OutboxRelay : Type 0 where
  pub worker_id : Text
  pub batch_size : ℕ
  pub lease_seconds : ℕ
  pub max_attempts : ℕ
  pub retry_base_seconds : ℕ
  pub retry_max_seconds : ℕ

-- The checks of `__init__`.
unfoldable pub relay_init : OutboxRelay → Result OutboxRelay
relay_init self = do
  raise_if (is_blank self.worker_id) (value_error "worker_id must not be empty")
  raise_if (not (leb 1 self.batch_size && leb self.batch_size 1000))
      (value_error "batch_size must be between 1 and 1000")
  raise_if (ltb self.lease_seconds 1) (value_error "lease_seconds must be positive")
  raise_if (ltb self.max_attempts 1) (value_error "max_attempts must be positive")
  raise_if (ltb self.retry_base_seconds 1) (value_error "retry_base_seconds must be positive")
  raise_if (ltb self.retry_max_seconds self.retry_base_seconds)
      (value_error "retry_max_seconds must be >= retry_base_seconds")
  ok self

-- `_retry_delay`
unfoldable pub retry_delay : OutboxRelay → ℕ → ℕ
retry_delay self attempts =
    min self.retry_max_seconds (self.retry_base_seconds * 2 ^ (attempts - 1))

pub record RelayResult : Type 0 where
  pub claimed : ℕ
  pub published : ℕ
  pub failed : ℕ

-- The transport answers a send by nothing or by the text of its error, and `clock` is the time at
-- which a claimed event is settled.
module _ (self : OutboxRelay) (send : IntegrationEvent → Option Text)
    (clock : ClaimedEvent → ℕ) where
  -- One round of the loop: whether the event was acknowledged, whether it failed, and the rows.
  unfoldable pub settle : ClaimedEvent → List OutboxRow → Bool × Bool × List OutboxRow
  settle row rows = elim (send row.event) [
    | none ↦
        let (acknowledged, after) =
          mark_outbox_published row.event.id self.worker_id (clock row) rows in
        (acknowledged, false, after)
    | some error ↦
        let (released, after) =
          release_outbox row.event.id self.worker_id (take 2000 error) self.max_attempts
            (retry_delay self row.attempts) (clock row) rows in
        (false, true, after)
  ]

  unfoldable pub settle_all : List ClaimedEvent → ℕ → ℕ → List OutboxRow → (ℕ × ℕ) × List OutboxRow
  settle_all [] published failed rows = ((published, failed), rows)
  settle_all (row ∷ claimed) published failed rows =
      let (acknowledged, refused, after) = settle row rows in
      settle_all claimed (published + (if acknowledged then 1 else 0))
        (failed + (if refused then 1 else 0)) after

  -- `run_once`, with no other step on the table between its claim and its last settlement. In the
  -- code each of them is a transaction of its own.
  unfoldable pub run_once : ℕ → List OutboxRow → RelayResult × List OutboxRow
  run_once now rows =
      let (claimed, leased) =
        claim_outbox self.worker_id self.batch_size self.lease_seconds now rows in
      let ((published, failed), after) = settle_all claimed 0 0 leased in
      (record { claimed = length claimed; published = published; failed = failed }, after)
