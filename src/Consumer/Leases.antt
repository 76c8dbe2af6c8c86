-- ===== src/Consumer/Leases.antt =====
-- Proofs on the leases of a consumer on an event, in adapters/postgres.py.
use universal_agent_memory.Prelude.{
  ℕ, ◌+◌, ◌≤◌, ◌≡◌, ◌≢◌, refl, sym, ap, ◌∙◌, inl, inr, false, none, some, arith, nat_eq, list_eq,
  option_eq, pair_eq, list_beq, list_beq_iff, Option-cases,
}
use universal_agent_memory.Text.{Text}
use universal_agent_memory.Dict
use universal_agent_memory.Dict.{get-put_self}
use universal_agent_memory.Consumer.{
  acquired, busy, ProcessedRow, Key, Table, first_lease, next_lease, claim_existing,
  claim_event_processing, is_leased_to, update_leased, complete_row, complete_event_processing,
  release_processed, release_event_processing,
}

claim_existing-acquired :
    (key : Key) (worker : Text) (lease now : ℕ) (row : ProcessedRow) (table : Table)
    → (claim_existing key worker lease now row table).0 ≡ acquired
    → (claim_existing key worker lease now row table
        ≡ (acquired, Dict.put key (next_lease worker lease now row) table))
      × (row.processed_at ≡ none)
unfolding claim_existing
claim_existing-acquired key worker lease now row table h = elim (Option-cases row.processed_at) [
  | inl p ↦ (ground (arith, p), p)
  | inr (t, p) ↦ absurd (ground (arith, p))
]

pub claim_existing-busy :
    (key : Key) (worker : Text) (lease now : ℕ) (row : ProcessedRow) (table : Table) (until : ℕ)
    → row.lease_until ≡ some until
    → row.processed_at ≡ none
    → now ≤ until
    → claim_existing key worker lease now row table ≡ (busy, table)
unfolding claim_existing
claim_existing-busy key worker lease now row table until p q h = ground (arith, p, q)

module _ (key : Key) (worker : Text) (lease now : ℕ) (table : Table) where
  abbrev claimed : Table
  claimed = (claim_event_processing key worker lease now table).1

  pub claim-new :
      Dict.get key table ≡ none
      → claim_event_processing key worker lease now table
        ≡ (acquired, Dict.put key (first_lease worker lease now) table)
  unfolding claim_event_processing
  claim-new p = rw (p, claim_event_processing)

  pub claim-old :
      (row : ProcessedRow)
      → Dict.get key table ≡ some row
      → claim_event_processing key worker lease now table
        ≡ claim_existing key worker lease now row table
  unfolding claim_event_processing
  claim-old row p = rw (p, claim_event_processing)

  -- The row that a successful claim leaves.
  pub claimed_row :
      (claim_event_processing key worker lease now table).0 ≡ acquired
      → (row : ProcessedRow) × (Dict.get key claimed ≡ some row)
        × (row.lease_owner ≡ some worker)
        × (row.lease_until ≡ some (now + lease))
        × (row.processed_at ≡ none)
  claimed_row h = elim (Option-cases (Dict.get key table)) [
    | inl p ↦ (
      first_lease worker lease now,
      ap (λ r. Dict.get key r.1) (claim-new p) ∙ get-put_self key _ table,
      unfold first_lease in refl,
      unfold first_lease in refl,
      unfold first_lease in refl,
    )
    | inr (row, p) ↦ old row p
  ]
    where
      old :
          (row : ProcessedRow)
          → Dict.get key table ≡ some row
          → (r : ProcessedRow) × (Dict.get key claimed ≡ some r)
            × (r.lease_owner ≡ some worker)
            × (r.lease_until ≡ some (now + lease))
            × (r.processed_at ≡ none)
      old row p =
          let q : (claim_existing key worker lease now row table).0 ≡ acquired =
            ap (λ r. r.0) (sym (claim-old row p)) ∙ h in
          let (made, open_row) = claim_existing-acquired key worker lease now row table q in
          (
            next_lease worker lease now row,
            ap (λ r. Dict.get key r.1) (claim-old row p ∙ made) ∙ get-put_self key _ table,
            unfold next_lease in refl,
            unfold next_lease in refl,
            unfold next_lease in open_row,
          )

-- While the lease of a claim lasts, every other claim of the event for the consumer, by whichever
-- worker, finds it busy and changes nothing.
pub claim_exclusive :
    (key : Key) (worker rival : Text) (lease lease' now later : ℕ) (table : Table)
    → later ≤ now + lease
    → (claim_event_processing key worker lease now table).0 ≡ acquired
    → let after = (claim_event_processing key worker lease now table).1 in
      claim_event_processing key rival lease' later after ≡ (busy, after)
claim_exclusive key worker rival lease lease' now later table h won =
    let (row, found, _, until, open_row) = claimed_row key worker lease now table won in
    claim-old key rival lease' later _ row found
    ∙ claim_existing-busy key rival lease' later row _ (now + lease) until open_row h

pub update_leased-other :
    (key : Key) (worker rival : Text) (change : ProcessedRow → ProcessedRow) (table : Table)
    (row : ProcessedRow)
    → Dict.get key table ≡ some row
    → row.lease_owner ≡ some rival
    → worker ≢ rival
    → update_leased key worker change table ≡ (false, table)
unfolding update_leased is_leased_to
update_leased-other key worker rival change table row p q ne =
    let other : list_beq rival worker ≡ false = ground (arith, list_beq_iff rival worker, ne) in
    rw (p, update_leased, q, other)

-- A worker whose event another worker has claimed since can neither complete nor release it: both
-- calls answer false and change nothing.
pub claim_fences :
    (key : Key) (worker rival error : Text) (lease now later : ℕ) (table : Table)
    → worker ≢ rival
    → (claim_event_processing key rival lease now table).0 ≡ acquired
    → let after = (claim_event_processing key rival lease now table).1 in
      (complete_event_processing key worker later after ≡ (false, after))
      × (release_event_processing key worker error after ≡ (false, after))
unfolding complete_event_processing release_event_processing
claim_fences key worker rival error lease now later table ne won =
    let (row, found, owner, _, _) = claimed_row key rival lease now table won in
    (
      update_leased-other key worker rival (complete_row later) _ row found owner ne,
      update_leased-other key worker rival (release_processed error) _ row found owner ne,
    )
