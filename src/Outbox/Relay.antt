-- ===== src/Outbox/Relay.antt =====
-- One polling cycle of the relay.
use universal_agent_memory.Prelude.{
  ℕ, ◌+◌, ◌≤◌, ◌≡◌, refl, ap, ◌∙◌, inl, inr, Bool, true, false, not, ◌&&◌, Option, none, some, List,
  [], ◌∷◌, arith, eqb, eqb_iff, nat_eq, ◌⊎◌, ◌==◌, if◌then◌else◌, Bool-cases, Option-cases, any,
  count, length, All, All-of_In, In, any-of-In,
}
use universal_agent_memory.Text.{Text}
use universal_agent_memory.Domain.Records.{IntegrationEvent}
use universal_agent_memory.Outbox.{
  OutboxRow, ClaimedEvent, OutboxRelay, is_null, lease_row, claim_rows, claim_outbox, is_held,
  update_held, publish_row, release_row, mark_outbox_published, release_outbox, settle, settle_all,
  run_once,
}

abbrev pub is_none {ℓ} : {A : Type ℓ} → Option A → Bool
is_none none = true
is_none (some a) = false

module _ (self : OutboxRelay) (send : IntegrationEvent → Option Text)
    (clock : ClaimedEvent → ℕ) where
  abbrev pub failed_send : ClaimedEvent → Bool
  failed_send c = not (is_none (send c.event))

  settle_flags :
      (c : ClaimedEvent) (rows : List OutboxRow)
      → ((settle self send clock c rows).1 ≡ failed_send c)
        × (((settle self send clock c rows).0 && failed_send c) ≡ false)
  unfolding settle
  settle_flags c rows = elim (Option-cases (send c.event)) [
    | inl e ↦ (ground (arith, e), ground (arith, e))
    | inr (x, e) ↦ (ground (arith, e), ground (arith, e))
  ]

  settle_all_counts :
      (claimed : List ClaimedEvent) (published failed : ℕ) (rows : List OutboxRow)
      → let r = (settle_all self send clock claimed published failed rows).0 in
        (r.1 ≡ failed + count failed_send claimed)
        × (r.0 + r.1 ≤ published + failed + length claimed)
  unfolding settle_all
  settle_all_counts [] published failed rows = (omega arith, omega arith)
  settle_all_counts (c ∷ cs) published failed rows =
      let (acknowledged, refused, after) = settle self send clock c rows in
      let flags = settle_flags c rows in
      let p = published + (if acknowledged then 1 else 0) in
      let f = failed + (if refused then 1 else 0) in
      let rest = settle_all_counts cs p f after in
      (ground (arith, flags, rest), ground (arith, flags, rest))

  -- A polling cycle reports as failed exactly the claimed events whose send failed, and no more
  -- events as published than the sends that succeeded.
  pub run_once_counts :
      (now : ℕ) (rows : List OutboxRow)
      → let claimed = (claim_outbox self.worker_id self.batch_size self.lease_seconds now rows).0 in
        let result = (run_once self send clock now rows).0 in
        (result.claimed ≡ length claimed)
        × (result.failed ≡ count failed_send claimed)
        × (result.published + result.failed ≤ result.claimed)
  unfolding run_once
  run_once_counts now rows =
      let (claimed, leased) =
        claim_outbox self.worker_id self.batch_size self.lease_seconds now rows in
      let counts = settle_all_counts claimed 0 0 leased in
      (refl, omega (arith, counts.0), omega (arith, counts.1))

-- Row by row: the event stays, and a row that becomes published has an event that was sent.
abbrev pub PublishesSent : (ℕ → Bool) → List OutboxRow → List OutboxRow → Type 0
PublishesSent sent [] [] = Unit
PublishesSent sent (r ∷ rows) (r' ∷ rows') =
    (r'.event ≡ r.event)
    × ((is_null r.published_at && not (is_null r'.published_at) && not (sent r.event.id)) ≡ false)
    × PublishesSent sent rows rows'
PublishesSent sent _ _ = ⊥

module _ (sent : ℕ → Bool) where
  PublishesSent-refl : (rows : List OutboxRow) → PublishesSent sent rows rows
  PublishesSent-refl [] = tt
  PublishesSent-refl (r ∷ rows) = (refl, ground arith, PublishesSent-refl rows)

  PublishesSent-trans :
      (a b c : List OutboxRow)
      → PublishesSent sent a b
      → PublishesSent sent b c
      → PublishesSent sent a c
  PublishesSent-trans [] [] [] h k = tt
  PublishesSent-trans (x ∷ a) (y ∷ b) (z ∷ c) h k = (
    k.0 ∙ h.0,
    (let same : sent y.event.id ≡ sent x.event.id = ap (λ e. sent e.id) h.0 in
        ground (arith, h.1, k.1, same)),
    PublishesSent-trans a b c h.2 k.2,
  )
  PublishesSent-trans (x ∷ a) [] c h k = absurd h
  PublishesSent-trans [] (y ∷ b) c h k = absurd h
  PublishesSent-trans [] [] (z ∷ c) h k = absurd k
  PublishesSent-trans (x ∷ a) (y ∷ b) [] h k = absurd k

  claim_rows-PublishesSent :
      (ids : List ℕ) (worker : Text) (lease now : ℕ) (rows : List OutboxRow)
      → PublishesSent sent rows (claim_rows ids worker lease now rows)
  unfolding claim_rows
  claim_rows-PublishesSent ids worker lease now [] = tt
  claim_rows-PublishesSent ids worker lease now (r ∷ rows) = (
    unfold lease_row in ground arith,
    unfold lease_row in ground arith,
    claim_rows-PublishesSent ids worker lease now rows,
  )

  publish-PublishesSent :
      (event_id : ℕ) (worker : Text) (now : ℕ) (rows : List OutboxRow)
      → sent event_id ≡ true
      → PublishesSent sent rows (update_held event_id worker (publish_row now) rows)
  unfolding update_held
  publish-PublishesSent event_id worker now [] h = tt
  publish-PublishesSent event_id worker now (r ∷ rows) h = (
    unfold publish_row in ground arith,
    was_sent (Bool-cases (eqb r.event.id event_id)),
    publish-PublishesSent event_id worker now rows h,
  )
    where
      was_sent :
          (eqb r.event.id event_id ≡ true) ⊎ (eqb r.event.id event_id ≡ false)
          → (is_null r.published_at
              && not (
                  is_null (if is_held event_id worker r then publish_row now r else r).published_at)
              && not (sent r.event.id))
            ≡ false
      was_sent (inl e) =
          let p : r.event.id ≡ event_id = (eqb_iff r.event.id event_id).0 e in
          let s : sent r.event.id ≡ true = rw p h in ground (arith, s)
      was_sent (inr e) = unfold is_held in ground (arith, e)

  release-PublishesSent :
      (event_id : ℕ) (worker error : Text) (n d now : ℕ) (rows : List OutboxRow)
      → PublishesSent sent rows (update_held event_id worker (release_row error n d now) rows)
  unfolding update_held
  release-PublishesSent event_id worker error n d now [] = tt
  release-PublishesSent event_id worker error n d now (r ∷ rows) = (
    unfold release_row in ground arith,
    unfold release_row in ground arith,
    release-PublishesSent event_id worker error n d now rows,
  )

module _ (self : OutboxRelay) (send : IntegrationEvent → Option Text) (clock : ClaimedEvent → ℕ)
    (sent : ℕ → Bool) where
  settle-PublishesSent :
      (c : ClaimedEvent) (rows : List OutboxRow)
      → (is_none (send c.event) && not (sent c.event.id)) ≡ false
      → PublishesSent sent rows (settle self send clock c rows).2
  unfolding settle
  settle-PublishesSent c rows h = elim (Option-cases (send c.event)) [
    | inl e ↦
        rw (e, settle)
          (unfold mark_outbox_published in
            publish-PublishesSent sent c.event.id self.worker_id (clock c) rows
              (ground (arith, h, e)))
    | inr (x, e) ↦
        rw (e, settle)
          (unfold release_outbox in
            release-PublishesSent sent c.event.id self.worker_id _ _ _ _ rows)
  ]

  settle_all-PublishesSent :
      (claimed : List ClaimedEvent) (p f : ℕ) (rows : List OutboxRow)
      → All (λ c. (is_none (send c.event) && not (sent c.event.id)) ≡ false) claimed
      → PublishesSent sent rows (settle_all self send clock claimed p f rows).1
  unfolding settle_all
  settle_all-PublishesSent [] p f rows h = PublishesSent-refl sent rows
  settle_all-PublishesSent (c ∷ cs) p f rows h =
      let after = (settle self send clock c rows).2 in
      PublishesSent-trans sent rows after _ (settle-PublishesSent c rows h.0)
        (settle_all-PublishesSent cs _ _ after h.1)

-- The claimed events with an identity that the transport accepted.
abbrev pub was_accepted : (IntegrationEvent → Option Text) → List ClaimedEvent → ℕ → Bool
was_accepted send claimed i = any (λ c. c.event.id == i && is_none (send c.event)) claimed

-- A polling cycle with no other step on the table between keeps every row and its whole event, in
-- order, and marks a row published only if the transport accepted a claimed event with its
-- identity: no event is acknowledged unsent.
pub run_once-PublishesSent :
    (self : OutboxRelay) (send : IntegrationEvent → Option Text) (clock : ClaimedEvent → ℕ)
    (now : ℕ) (rows : List OutboxRow)
    → let claimed = (claim_outbox self.worker_id self.batch_size self.lease_seconds now rows).0 in
      PublishesSent (was_accepted send claimed) rows (run_once self send clock now rows).1
unfolding run_once
run_once-PublishesSent self send clock now rows =
    let (claimed, leased) =
      claim_outbox self.worker_id self.batch_size self.lease_seconds now rows in
    PublishesSent-trans (was_accepted send claimed) rows leased _
      (unfold claim_outbox in
        claim_rows-PublishesSent (was_accepted send claimed) _ self.worker_id self.lease_seconds now
          rows)
      (settle_all-PublishesSent self send clock (was_accepted send claimed) claimed 0 0 leased
        (All-of_In claimed (λ c m. accepted c m)))
  where
    accepted :
        (c : ClaimedEvent)
        → In c (claim_outbox self.worker_id self.batch_size self.lease_seconds now rows).0
        → (is_none (send c.event)
            && not (
                was_accepted send
                  (claim_outbox self.worker_id self.batch_size self.lease_seconds now rows).0
                  c.event.id))
          ≡ false
    accepted c m = elim (Bool-cases (is_none (send c.event))) [
      | inr e ↦ rw e
      | inl e ↦
          let test : (c.event.id == c.event.id && is_none (send c.event)) ≡ true =
            ground (arith, e) in
          rw (any-of-In (λ x. x.event.id == c.event.id && is_none (send x.event)) _ c m test)
            (ground arith)
    ]
