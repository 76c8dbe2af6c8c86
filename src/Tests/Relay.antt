-- ===== src/Tests/Relay.antt =====
-- Examples for the outbox.
use universal_agent_memory.Prelude.{
  ℕ, nat_eq, list_beq_iff, ◌≡◌, ◌≢◌, refl, false, Option, none, some, List, [], ◌∷◌, arith, All,
  eqb, if◌then◌else◌,
}
use mathlib.Core.Bool.{false≢true}
use universal_agent_memory.Text.{Text, text, is_blank, is_space}
use universal_agent_memory.Domain.Errors.{ok}
use universal_agent_memory.Sorting.{sort, insert}
use universal_agent_memory.Domain.Records.{IntegrationEvent}
use universal_agent_memory.Outbox.{
  OutboxRow, ClaimedEvent, due_ids, is_due, not_later, is_chosen, lease_row, claim_rows,
  claim_outbox, is_held, publish_row, release_row, update_held, mark_outbox_published,
  release_outbox, relay_init, settle, settle_all, run_once,
}
use universal_agent_memory.Outbox.Steps.{is_among, OutboxReach, start, step, claims, marks}
use universal_agent_memory.Outbox.Leases.{claims_disjoint}
use universal_agent_memory.Outbox.Outcome.{outcome, run_once-outcome}
use universal_agent_memory.Prelude.{map}
use universal_agent_memory.Tests.Samples.{row, relay}

abbrev rows : List OutboxRow
rows = row 51 ∷ row 52 ∷ []

-- The transport accepts event 51 only.
abbrev send : IntegrationEvent → Option Text
send e = if eqb e.id 51 then none else some (text "timeout")

abbrev clock : ClaimedEvent → ℕ
clock c = 105

first_ids : due_ids 100 1 rows ≡ 51 ∷ []
unfolding due_ids is_due not_later sort insert
first_ids = refl

one_published :
    (run_once relay send clock 100 rows).0 ≡ record { claimed = 2; published = 1; failed = 1 }
unfolding run_once claim_outbox due_ids is_due not_later sort insert claim_rows is_chosen lease_row
    settle_all settle mark_outbox_published release_outbox update_held is_held publish_row
    release_row
one_published = refl

abbrev leased : List OutboxRow
leased = (claim_outbox (text "w1") 1 60 100 rows).1

-- In between another worker claims the other event, and the first one marks its own.
abbrev after : List OutboxRow
after = (mark_outbox_published 51 (text "w1") 120 (claim_outbox (text "w2") 10 60 110 leased).1).1

between : OutboxReach (due_ids 100 1 rows) (text "w1") 160 leased after
between = step (step start (claims (text "w2") 10 60 110 (omega arith))) (marks 51 (text "w1") 120)

claims_disjoint_example :
    All
      (λ c. is_among (due_ids 100 1 rows) c.event.id ≡ false)
      (claim_outbox (text "w2") 10 60 130 after).0
claims_disjoint_example =
    claims_disjoint (text "w1") (text "w2") 1 10 60 60 100 130 rows (omega arith) between

other_name : text "w1" ≢ text "w2"
other_name p = false≢true ((list_beq_iff (text "w1") (text "w2")).1 p)

accepts_relay : relay_init relay ≡ ok relay
unfolding relay_init is_blank is_space
accepts_relay = refl

run_once-outcome_example :
    (run_once relay send clock 100 rows).1
    ≡ map (outcome relay send clock (due_ids 100 10 rows)) rows
run_once-outcome_example = run_once-outcome relay send clock 100 rows ((refl, tt), (tt, tt))
