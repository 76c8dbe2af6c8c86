-- ===== src/Outbox/Outcome.antt =====
-- What a polling cycle of services/outbox.py makes of each row.
use universal_agent_memory.Prelude.{
  ℕ, ◌+◌, ◌-◌, ◌*◌, ◌^◌, min, ◌≡◌, refl, sym, ap, ◌∙◌, inl, inr, true, false, Option, none, some,
  List, map, arith, eqb, eqb_iff, leb, nat_eq, list_eq, option_eq, if◌then◌else◌, Bool-cases,
  Option-cases, take, All-of_In, In,
}
use universal_agent_memory.Text.{Text}
use universal_agent_memory.Domain.Records.{IntegrationEvent}
use universal_agent_memory.Outbox.{
  OutboxRow, ClaimedEvent, OutboxRelay, claimed_of, due_ids, lease_row, claim_rows, claim_outbox,
  is_held, publish_row, release_row, retry_delay, run_once,
}
use universal_agent_memory.Outbox.Steps.{is_among}
use universal_agent_memory.Outbox.Chosen.{
  HasDistinctIds, same_row, chosen-due, leased_if_chosen, claims_of, claim_rows-map, In-claims_of,
  claims_of-row, lease_row-id, is_due-unpublished,
}
use universal_agent_memory.Outbox.Settling.{
  map-ext, map-map, settle_row, settle_row_all, settle_all-rows, settle_row_all-unheld,
  settle_row_all-held, held_self,
}

module _ (self : OutboxRelay) (send : IntegrationEvent → Option Text)
    (clock : ClaimedEvent → ℕ) where
  -- A claimed row: after a send that was accepted it is published, and after one that failed it is
  -- free again behind the delay, or dead-lettered with the last attempt.
  abbrev pub delivered : Option Text → ℕ → OutboxRow → OutboxRow
  delivered none at r = record {
    event = r.event;
    published_at = some at;
    attempts = r.attempts + 1;
    lease_owner = none;
    lease_until = none;
    last_error = none;
    dead_lettered_at = r.dead_lettered_at;
    available_at = r.available_at;
  }
  delivered (some error) at r =
      let is_last = leb self.max_attempts (r.attempts + 1) in
      record {
        event = r.event;
        published_at = r.published_at;
        attempts = r.attempts + 1;
        lease_owner = none;
        lease_until = none;
        last_error = some (take 2000 error);
        dead_lettered_at = if is_last then some at else r.dead_lettered_at;
        available_at =
            if is_last
            then at
            else at + min self.retry_max_seconds (self.retry_base_seconds * 2 ^ r.attempts);
      }

  abbrev pub outcome : List ℕ → OutboxRow → OutboxRow
  outcome ids r =
      if is_among ids r.event.id
      then delivered (send r.event) (clock (record { event = r.event; attempts = r.attempts + 1 }))
          r
      else r

module _ (self : OutboxRelay) (send : IntegrationEvent → Option Text) (clock : ClaimedEvent → ℕ)
    (now : ℕ) (rows : List OutboxRow) (distinct : HasDistinctIds rows) where
  abbrev ids : List ℕ
  ids = due_ids now self.batch_size rows

  abbrev leased : OutboxRow → OutboxRow
  leased r = lease_row self.worker_id self.lease_seconds now r

  abbrev claims : List ClaimedEvent
  claims = claims_of ids self.worker_id self.lease_seconds now rows

  settle_row-delivered :
      (r : OutboxRow)
      → r.published_at ≡ none
      → settle_row self send clock (claimed_of (leased r)) (leased r)
        ≡ delivered self send clock
            (send r.event)
            (clock (record { event = r.event; attempts = r.attempts + 1 }))
            r
  unfolding lease_row retry_delay
  settle_row-delivered r p =
      let own : is_held r.event.id self.worker_id (leased r) ≡ true =
        held_self self send clock (leased r) refl p in
      let exponent : r.attempts + 1 - 1 ≡ r.attempts = omega arith in
      elim (Option-cases (send r.event)) [
        | inl e ↦ rw (own, e) (unfold publish_row in refl)
        | inr (x, e) ↦ rw (own, e) (unfold release_row in rw exponent refl)
      ]

  chosen_row :
      (r : OutboxRow)
      → In r rows
      → is_among ids r.event.id ≡ true
      → settle_row_all self send clock claims (leased r)
        ≡ settle_row self send clock (claimed_of (leased r)) (leased r)
  chosen_row r m k =
      let open_row =
        is_due-unpublished now r (chosen-due now self.batch_size rows r distinct m k) in
      settle_row_all-held self send clock claims (leased r) (unfold lease_row in refl)
        (unfold lease_row in open_row)
        (In-claims_of ids self.worker_id self.lease_seconds now r rows m k)
        (λ c n p.
          let (q, i, _, e) = claims_of-row ids self.worker_id self.lease_seconds now c rows n in
          e
          ∙ ap (λ x. claimed_of (leased x))
              (same_row rows q r distinct i m
                (unfold lease_row in sym (ap (λ (x : ClaimedEvent). x.event.id) e) ∙ p)))

  other_row :
      (r : OutboxRow)
      → In r rows
      → is_among ids r.event.id ≡ false
      → settle_row_all self send clock claims r ≡ r
  other_row r m k = settle_row_all-unheld self send clock claims r (
      All-of_In claims (λ c n.
        let (q, _, chosen, e) = claims_of-row ids self.worker_id self.lease_seconds now c rows n in
        not_held c q chosen (ap (λ (x : ClaimedEvent). x.event.id) e)))
    where
      not_held :
          (c : ClaimedEvent) (q : OutboxRow)
          → is_among ids q.event.id ≡ true
          → c.event.id ≡ (leased q).event.id
          → is_held c.event.id self.worker_id r ≡ false
      not_held c q chosen e = elim (Bool-cases (eqb r.event.id c.event.id)) [
        | inr p ↦ unfold is_held in ground (arith, p)
        | inl p ↦
            let same : r.event.id ≡ q.event.id =
              (eqb_iff r.event.id c.event.id).0 p
              ∙ e
              ∙ ap (λ (x : IntegrationEvent). x.id)
                  (lease_row-id self.worker_id self.lease_seconds now q) in
            absurd (cc (k, chosen, ap (is_among ids) same))
      ]

  row-outcome :
      (r : OutboxRow)
      → In r rows
      → settle_row_all self send clock claims
          (leased_if_chosen ids self.worker_id self.lease_seconds now r)
        ≡ outcome self send clock ids r
  row-outcome r m = elim (Bool-cases (is_among ids r.event.id)) [
    | inl k ↦
        let open_row =
          is_due-unpublished now r (chosen-due now self.batch_size rows r distinct m k) in
        rw k (chosen_row r m k ∙ settle_row-delivered r open_row)
    | inr k ↦ rw k (other_row r m k)
  ]

-- In a table with distinct identities, a polling cycle with no other step on the table between
-- leaves every row in its place with its whole event, and changes those that it claims and no
-- others: if the transport accepts the event, the row is published and its lease is given up; if
-- not, its lease is given up, the error is kept, and it is due again behind the delay or, with its
-- last attempt, dead-lettered.
pub run_once-outcome :
    (self : OutboxRelay) (send : IntegrationEvent → Option Text) (clock : ClaimedEvent → ℕ)
    (now : ℕ) (rows : List OutboxRow)
    → HasDistinctIds rows
    → (run_once self send clock now rows).1
      ≡ map (outcome self send clock (due_ids now self.batch_size rows)) rows
unfolding run_once claim_outbox
run_once-outcome self send clock now rows distinct =
    let ids = due_ids now self.batch_size rows in
    let claims = claims_of ids self.worker_id self.lease_seconds now rows in
    settle_all-rows self send clock claims 0 0
      (claim_rows ids self.worker_id self.lease_seconds now rows)
    ∙ ap (map (settle_row_all self send clock claims))
        (claim_rows-map ids self.worker_id self.lease_seconds now rows)
    ∙ map-map (settle_row_all self send clock claims)
        (leased_if_chosen ids self.worker_id self.lease_seconds now) rows
    ∙ map-ext _ (outcome self send clock ids) rows (row-outcome self send clock now rows distinct)
