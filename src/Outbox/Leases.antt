-- ===== src/Outbox/Leases.antt =====
-- Leases of outbox events: who may claim and who may settle.
use universal_agent_memory.Prelude.{
  ℕ, ◌+◌, ◌≤◌, ◌≡◌, ◌≢◌, refl, sym, ◌∙◌, inl, inr, true, false, List, [], ◌∷◌, map, arith, eqb,
  eqb_iff, nat_eq, list_eq, option_eq, if◌then◌else◌, Bool-cases, filter, any, All, ◌⊎◌,
  list_beq_iff,
}
use mathlib.Core.Bool.{false≢true}
use universal_agent_memory.Text.{Text}
use universal_agent_memory.Outbox.Steps.{
  is_among, apart, OutboxReach, OutboxReach-IsLeased, claim_rows-IsLeased, due_ids-apart,
}
use universal_agent_memory.Outbox.{
  OutboxRow, claimed_of, due_ids, is_chosen, lease_row, claim_rows, claim_outbox, is_held,
  update_held, publish_row, mark_outbox_published,
}

claimed_apart :
    (ids ids' : List ℕ) (rows : List OutboxRow)
    → All (λ j. is_among ids j ≡ false) ids'
    → All (λ c. is_among ids c.event.id ≡ false) (map claimed_of (filter (is_chosen ids') rows))
unfolding is_chosen
claimed_apart ids ids' [] h = tt
claimed_apart ids ids' (r ∷ rows) h = elim (Bool-cases (is_among ids' r.event.id)) [
  | inl e ↦ rw e (apart ids ids' r.event.id h e, claimed_apart ids ids' rows h)
  | inr e ↦ rw e (claimed_apart ids ids' rows h)
]

-- Until the lease of a claim has run out, no claim gets any of its events, whichever worker makes
-- it and however many it asks for, after whatever claims, acknowledgements and releases of all
-- workers and insertions of other events: only its worker's own release of one of its events is
-- left out.
pub claims_disjoint :
    (worker rival : Text) (limit limit' lease lease' now later : ℕ) (rows : List OutboxRow)
    {rows' : List OutboxRow}
    → later ≤ now + lease
    → OutboxReach
        (due_ids now limit rows)
        worker
        (now + lease)
        (claim_outbox worker limit lease now rows).1
        rows'
    → All
        (λ c. is_among (due_ids now limit rows) c.event.id ≡ false)
        (claim_outbox rival limit' lease' later rows').0
unfolding claim_outbox
claims_disjoint worker rival limit limit' lease lease' now later rows {rows'} h reach =
    let ids = due_ids now limit rows in
    let leased = OutboxReach-IsLeased reach (claim_rows-IsLeased ids worker lease now rows) in
    claimed_apart ids (due_ids later limit' rows')
      (claim_rows (due_ids later limit' rows') rival lease' later rows')
      (due_ids-apart ids worker (now + lease) later limit' rows' h leased)

-- What nobody's row holds stays as it is.
unheld :
    (event_id : ℕ) (worker : Text) (change : OutboxRow → OutboxRow) (rows : List OutboxRow)
    → All (λ r. is_held event_id worker r ≡ false) rows
    → (any (is_held event_id worker) rows ≡ false)
      × (update_held event_id worker change rows ≡ rows)
unfolding update_held
unheld event_id worker change [] h = (refl, refl)
unheld event_id worker change (r ∷ rows) h =
    let (a, b) = unheld event_id worker change rows h.1 in (rw (h.0, a), rw (h.0, b))

rival_holds :
    (worker rival : Text) (ids : List ℕ) (event_id lease now : ℕ) (rows : List OutboxRow)
    → worker ≢ rival
    → is_among ids event_id ≡ true
    → All (λ r. is_held event_id worker r ≡ false) (claim_rows ids rival lease now rows)
unfolding claim_rows is_held
rival_holds worker rival ids event_id lease now [] ne m = tt
rival_holds worker rival ids event_id lease now (r ∷ rows) ne m =
    (row (Bool-cases (is_chosen ids r)), rival_holds worker rival ids event_id lease now rows ne m)
  where
    row :
        (is_chosen ids r ≡ true) ⊎ (is_chosen ids r ≡ false)
        → is_held event_id worker (if is_chosen ids r then lease_row rival lease now r else r)
          ≡ false
    row (inl e) = rw e (unfold lease_row in ground (arith, list_beq_iff rival worker, ne))
    row (inr e) = rw e (elim (Bool-cases (eqb r.event.id event_id)) [
      | inl q ↦
          let p : r.event.id ≡ event_id = (eqb_iff r.event.id event_id).0 q in
          let chosen : is_among ids r.event.id ≡ true = rw p m in
          absurd (unfold is_chosen in false≢true (sym e ∙ chosen))
      | inr q ↦ rw q
    ])

-- A worker whose event another worker has claimed in the meantime can no longer mark it: the call
-- answers false and changes no row.
pub mark_fenced :
    (worker rival : Text) (ids : List ℕ) (event_id lease now later : ℕ) (rows : List OutboxRow)
    → worker ≢ rival
    → is_among ids event_id ≡ true
    → mark_outbox_published event_id worker later (claim_rows ids rival lease now rows)
      ≡ (false, claim_rows ids rival lease now rows)
unfolding mark_outbox_published
mark_fenced worker rival ids event_id lease now later rows ne m =
    let free = rival_holds worker rival ids event_id lease now rows ne m in
    let (a, b) = unheld event_id worker (publish_row later) _ free in rw (a, b)
